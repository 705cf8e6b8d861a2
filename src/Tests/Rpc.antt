-- ===== src/Tests/Rpc.antt =====
-- The requests at concrete inputs: a codec that keeps values, a gripper and a server that count.
use zero_franky.Base.{inl, ℕ, suc, String, ◌≡◌, refl, true, false, none, some, [], ◌∷◌}
use zero_franky.Base.Int.{pos}
use zero_franky.Python.Errors.{ok, other, runtime_error}
use zero_franky.Python.Values.{Value, Fields, null, int, str, dict, dict_of, field, end}
use zero_franky.Python.Exec.{Exec, fail}
use zero_franky.Protocol.Plain.{is_plain}
use zero_franky.Base.Dict.{lookup}
use zero_franky.Rpc.Outcome.{or_empty}
use zero_franky.Rpc.Codec.{Codec, Survives}
use zero_franky.Rpc.Server.{serve_once, serve_once-Sends, Sends}
use zero_franky.Rpc.Client.{Link, call}
use zero_franky.Rpc.Exchange.{idle, served, relayed, with_socket, call-socket, call-relayed}
use zero_franky.Rpc.Failures.{raises_zmq, raises_zmq-call}
use zero_franky.Gripper.Units.{RoundOps}
use zero_franky.Gripper.Device.{Device}
use zero_franky.Gripper.Manager.State.{GripperState, new_gripper, commanded, move}
use zero_franky.Gripper.Manager.Lock.{Restores, result-commanded, returning}
use zero_franky.Gripper.Server.{dispatch}
use zero_franky.Gripper.Keeps.{dispatch-Restores}
use zero_franky.Gripper.Runs.{new, next, requested, IsTidy, Reachable-IsTidy}
use zero_franky.Gripper.Requests.{Server, drawn}
use zero_franky.Gripper.Commands.{moving, method_of, meaning, perform, promised}
use zero_franky.Gripper.Refines.{perform-promised}
use zero_franky.Tests.World.{counting_floats}

abbrev pub keeping : Codec
keeping = record { Bytes = Value; packb = ok; unpackb = ok }

pub keeping-Survives : (v : Value) → Survives keeping v
keeping-Survives v = record { packed = v; packs = refl; unpacks = refl }

instance abbrev truncating : RoundOps
truncating = record { round = λ x. ok (pos x.bits) }

-- A gripper that counts its commands; its position is that count. Its publisher fails.
abbrev count : Exec ℕ Value
count n = (ok null, suc n)

abbrev counting : Device
counting = record {
  World = ℕ;
  activate = λ a b c. count;
  start = λ a. count;
  reset = count;
  stop = count;
  open_gripper = λ a b c d e. count;
  close = λ a b c d e. count;
  move = λ a b c d e f. count;
  move_mm = λ a b c d e f. count;
  calibrate_mm = λ a b. count;
  position = λ a n. (ok (int (pos n)), n);
  position_mm = λ a n. (ok (int (pos n)), n);
  status = λ a n. (ok end, n);
  object_detection = λ a n. (ok (int (pos n)), n);
  disconnect = count;
  publish = λ v. fail (record { cls = runtime_error; message = "no socket" });
  start_thread = λ n. n;
  join_thread = λ n. n;
}

abbrev gripper : GripperState counting
gripper = (new_gripper true, 0)

abbrev one_id : GripperState counting → String × GripperState counting
one_id x = ("request", x)

abbrev move_params : Value
move_params =
    dict_of (("position", int (pos 100)) ∷ ("speed", int (pos 255)) ∷ ("force", int (pos 20)) ∷ [])

abbrev move_request : Fields
move_request =
    field "id" (str "request")
      (field "method" (str "gripper.move") (field "params" move_params end))

moved : (dispatch counting (str "gripper.move") move_params gripper).1.1 ≡ 1
unfolding dispatch lookup move
moved = refl

serve_once-Sends_example :
    Sends
      (dispatch counting)
      keeping
      move_request
      gripper
      (serve_once (dispatch counting) keeping (dict move_request) gripper)
serve_once-Sends_example =
    serve_once-Sends (dispatch counting) keeping (dict move_request) move_request gripper refl

call-socket_example :
    (call
      (served keeping one_id (dispatch counting))
      "gripper.open"
      (dict end)
      (some 9)
      (idle 5000, gripper)).1.0
    ≡ idle 5000
call-socket_example =
    call-socket (served keeping one_id (dispatch counting)) "gripper.open" (dict end) (some 9) 5000
      gripper (λ x. refl)

call-relayed_example :
    call
      (served keeping one_id (dispatch counting))
      "gripper.move"
      move_params
      none
      (idle 5000, gripper)
    ≡ with_socket 5000
        (relayed "gripper.move" (dispatch counting (str "gripper.move") move_params gripper))
unfolding is_plain or_empty dispatch lookup move
call-relayed_example =
    call-relayed keeping one_id (dispatch counting) none 5000 "gripper.move" move_params gripper
      (dispatch counting (str "gripper.move") move_params gripper) (keeping-Survives _) refl
      (keeping-Survives _)

-- A link on which nothing arrives in time
abbrev lost : Link ℕ
lost = record {
  codec = keeping;
  fresh = λ n. ("request", n);
  refuses = λ n. none;
  exchange = λ t v. fail (record { cls = other "Again"; message = "" });
}

raises_zmq-call_example :
    raises_zmq (call lost "robot.stop" (dict end) none (idle 5000, 0)).0 ≡ false
raises_zmq-call_example = raises_zmq-call lost "robot.stop" (dict end) none (idle 5000) 0 (inl refl)

result-commanded_example :
    (commanded counting (counting.close null null null null null) gripper).0
    ≡ returning (counting.close null null null null null 0).0
result-commanded_example =
    result-commanded counting (counting.close null null null null null) (new_gripper true) 0

dispatch-Restores_example :
    Restores counting gripper (dispatch counting (str "gripper.disconnect") (dict end) gripper).1
dispatch-Restores_example = dispatch-Restores counting (str "gripper.disconnect") (dict end) gripper

Reachable-IsTidy_example :
    IsTidy counting (dispatch counting (str "gripper.move") move_params gripper).1.0
Reachable-IsTidy_example =
    Reachable-IsTidy counting _
      (next (new true 0) (requested (str "gripper.move") move_params gripper))

perform-promised_example :
    perform
      (Server keeping counting one_id)
      (moving (int (pos 100)) (int (pos 255)) (int (pos 256)) true true false)
      gripper
    ≡ promised counting
        (drawn keeping counting one_id)
        "gripper.move"
        (meaning counting (moving (int (pos 100)) (int (pos 255)) (int (pos 256)) true true false))
        gripper
unfolding method_of
perform-promised_example =
    perform-promised keeping counting one_id
      (moving (int (pos 100)) (int (pos 255)) (int (pos 256)) true true false) gripper
      (λ params h. keeping-Survives _) (λ act h. keeping-Survives _)
