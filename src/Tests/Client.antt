-- ===== src/Tests/Client.antt =====
-- The robot's client and server at concrete inputs.
use zero_franky.Base.{ℕ, zero, suc, arith, String, ◌≡◌, refl, true, false, none, some, [], ◌∷◌}
use zero_franky.Base.Int.{pos}
use zero_franky.Python.Errors.{ok}
use zero_franky.Python.Values.{
  Value, Fields, null, bool, int, float, str, list, dict, object, dict_of, field, end, nil,
}
use zero_franky.Python.Attributes.{to_float}
use zero_franky.Protocol.Motions.{encode_motion, encode_joint_stop_motion}
use zero_franky.Protocol.Scalars.{encode_relative_dynamics_factor}
use zero_franky.Rpc.Client.{Link, call}
use zero_franky.Rpc.Exchange.{idle, relayed, with_socket}
use zero_franky.Session.Hardware.{Hardware}
use zero_franky.Session.Merge.{Numpy}
use zero_franky.Manager.State.{ManagerState, init}
use zero_franky.Manager.Runs.{IsConsistent, Reachable, starts_up}
use zero_franky.Server.Handlers.{
  handle_tracker_set_joint_reference, handle_tracker_set_cartesian_reference,
  handle_tracker_set_torque,
}
use zero_franky.Server.Dispatch.{dispatch}
use zero_franky.Server.Runs.Requests.{dispatch-IsConsistent}
use zero_franky.Server.Meaning.{
  stopping as stopping_robot, method_of, params_of, meaning, dispatch-meaning,
}
use zero_franky.Server.Loop.{serve_forever, sessions-serve_forever}
use zero_franky.Server.Updates.{apply_update, pushed, asked, apply_update-pushed}
use zero_franky.Client.Robot.{move, send_move, join_motion}
use zero_franky.Client.Wait.{now, later, move-joins}
use zero_franky.Client.Trackers as Tracker
use zero_franky.Client.Tick.{Pace, Surroundings, tick, tick-dt, min_dt, zero_seconds}
use zero_franky.Client.Refines.{Server, stopping, as_stopped, stop-relayed}
use zero_franky.Tests.Rpc.{keeping, keeping-Survives}
use zero_franky.Tests.World.{counting_floats, robots, start_log}

-- A numpy that keeps its matrices
abbrev keeping_matrices : Numpy
keeping_matrices = record { copy = ok; scaled_eye3 = ok; set_block = λ i j a b. ok a; diag = ok }

abbrev arm : Hardware
arm = robots none

abbrev server : ManagerState arm
server = (init, start_log)

abbrev one_id : ManagerState arm → String × ManagerState arm
one_id x = ("request", x)

abbrev host_params : Value
host_params = dict_of (("fci_hostname", str "arm") ∷ [])

abbrev create_request : Value
create_request =
    dict_of (("id", str "request") ∷ ("method", str "robot.create") ∷ ("params", host_params) ∷ [])

sessions-serve_forever_example :
    (serve_forever keeping_matrices arm keeping
      (some create_request ∷ none ∷ [])
      server).1.0.tracker_sessions
    ≡ []
sessions-serve_forever_example =
    sessions-serve_forever keeping_matrices arm keeping (some create_request ∷ none ∷ []) server

abbrev torque_payload : Fields
torque_payload = field "torque" (list nil) end

apply_update-pushed_example :
    (apply_update keeping_matrices arm
        (pushed keeping_matrices arm "joint" "s" torque_payload)
        server
      ≡ (
        ok null,
        (handle_tracker_set_joint_reference keeping_matrices arm
            (asked keeping_matrices arm "s" torque_payload)
            server).1,
      ))
    × (apply_update keeping_matrices arm
          (pushed keeping_matrices arm "cartesian" "s" torque_payload)
          server
        ≡ (
          ok null,
          (handle_tracker_set_cartesian_reference keeping_matrices arm
              (asked keeping_matrices arm "s" torque_payload)
              server).1,
        ))
    × (apply_update keeping_matrices arm
          (pushed keeping_matrices arm "torque" "s" torque_payload)
          server
        ≡ (
          ok null,
          (handle_tracker_set_torque keeping_matrices arm
              (asked keeping_matrices arm "s" torque_payload)
              server).1,
        ))
apply_update-pushed_example = apply_update-pushed keeping_matrices arm "s" torque_payload server

-- A server that takes a move, and whose join answers false once and true from then on
abbrev result_at : ℕ → Value
result_at zero = null
result_at (suc zero) = bool false
result_at (suc (suc n)) = bool true

abbrev answer : ℕ → Value
answer n = dict_of (("id", str "request") ∷ ("ok", bool true) ∷ ("result", result_at n) ∷ [])

abbrev answering : Link ℕ
answering = record {
  codec = keeping;
  fresh = λ n. ("request", n);
  refuses = λ n. none;
  exchange = λ t v n. (ok (answer n), suc n);
}

abbrev one : Value
one = float (record { bits = 1 })

abbrev joint_stop : Value
joint_stop = object "JointStopMotion" (field "relative_dynamics_factor" (int (pos 1)) end)

abbrev joint_stop_fields : Fields
joint_stop_fields = field "type" (str "JointStopMotion") (
    field "relative_dynamics_factor"
      (dict_of (("velocity", one) ∷ ("acceleration", one) ∷ ("jerk", one) ∷ [])) end)

move-joins_example :
    move answering 2 (str "arm") joint_stop false (idle 5000, 0) ≡ (ok (some null), (idle 5000, 3))
unfolding encode_motion encode_joint_stop_motion encode_relative_dynamics_factor to_float send_move
    call join_motion
move-joins_example =
    move-joins answering 2 1 (str "arm") joint_stop (dict joint_stop_fields) null (idle 5000, 0)
      (idle 5000, 1) (idle 5000, 3) refl refl
      (later 0 (idle 5000, 1) (idle 5000, 2) (idle 5000, 3) refl
        (now (idle 5000, 2) (idle 5000, 3) refl))
      (omega arith)

-- A clock that counts, and a stream that never delivers.
abbrev counting_clock : Surroundings
counting_clock = record {
  World = ℕ;
  clock = λ n. (record { bits = n }, suc n);
  sleep = λ t n. n;
  check_stream = λ n. (ok tt, n);
  latest = λ n. (0, none);
  is_running = λ n. (ok false, n);
}

abbrev pace : Pace
pace = record {
  period = none;
  t_next = zero_seconds;
  t_last = zero_seconds;
  tick_count = 0;
  dt = zero_seconds;
  stopped = false;
  in_control_seen = false;
  probed_at = zero_seconds;
  snapshot = 0;
  snapshot_at = zero_seconds;
}

abbrev after_tick : Pace
after_tick = record pace { t_last = record { bits = 1 }; tick_count = 1; dt = min_dt }

tick-dt_example : (counting_floats.lt min_dt min_dt ≡ false) × (after_tick.dt ≡ min_dt)
unfolding tick
tick-dt_example = tick-dt counting_clock (pace, 0) (after_tick, 2) min_dt refl refl

-- A stream that has seen the controller in control, and now sees it ended
abbrev ended : Surroundings
ended = record counting_clock { latest = λ n. (1, some false) }

stop-relayed_example :
    (Tracker.stop
        (Server keeping_matrices arm keeping one_id)
        none
        (str "s")
        none
        null
        30000
        (false, (idle 5000, server))
      ≡ as_stopped keeping_matrices arm keeping one_id (
          with_socket 5000 (
            relayed "tracker.stop"
              (stopping keeping_matrices arm keeping one_id "s" null none server))))
    × (Tracker.stop
          (Server keeping_matrices arm keeping one_id)
          none
          (str "s")
          (some joint_stop)
          null
          30000
          (false, (idle 5000, server))
        ≡ as_stopped keeping_matrices arm keeping one_id (
            with_socket 5000 (
              relayed "tracker.stop" (
                stopping keeping_matrices arm keeping one_id "s" null
                  (some (dict joint_stop_fields))
                  server))))
unfolding encode_motion encode_joint_stop_motion encode_relative_dynamics_factor to_float
stop-relayed_example =
    stop-relayed keeping_matrices arm keeping one_id false 5000 30000 "s" null joint_stop
      joint_stop_fields server refl (keeping-Survives _) (keeping-Survives _) (keeping-Survives _)
      (keeping-Survives _)

dispatch-IsConsistent_example :
    Reachable arm (dispatch keeping_matrices arm (str "robot.create") host_params server).1
    × IsConsistent (dispatch keeping_matrices arm (str "robot.create") host_params server).1.0
dispatch-IsConsistent_example =
    dispatch-IsConsistent keeping_matrices arm (str "robot.create") host_params server
      (starts_up start_log)

dispatch-meaning_example :
    dispatch keeping_matrices arm
      (str (method_of (stopping_robot "arm")))
      (params_of (stopping_robot "arm"))
      server
    ≡ meaning keeping_matrices arm (stopping_robot "arm") server
dispatch-meaning_example = dispatch-meaning keeping_matrices arm (stopping_robot "arm") server
