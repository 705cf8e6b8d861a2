-- ===== src/Gripper/Requests.antt =====
-- The gripper's requests as its server answers them (robotiq.py).
use zero_franky.Base.{ℕ, String, ◌≡◌, refl, sym, ap, Bool, true, leb}
use zero_franky.Base.Dict.{lookup}
use zero_franky.Python.Errors.{Result, ok, raise}
use zero_franky.Python.Values.{Float, Value, null, bool, float, str}
use zero_franky.Python.Attributes.{get_or, truthy}
use zero_franky.Python.Exec.{Exec, pure, ◌>>◌}
use zero_franky.Rpc.Codec.{Codec, Survives}
use zero_franky.Rpc.Client.{Link}
use zero_franky.Rpc.Outcome.{request_of, or_empty}
use zero_franky.Rpc.Exchange.{served, relayed, answer, call_gripper-relayed}
use zero_franky.Rpc.Params.{with_params, with_found, with_key, required, option}
use zero_franky.Gripper.Messages.{
  is_parameters, are_arguments, is_argument, is_one_of, is_key, Carries,
}
use zero_franky.Gripper.Device.{Device}
use zero_franky.Gripper.Manager.State as Manager
use zero_franky.Gripper.Manager.State.{GripperState, commanded, reading, with_lock, on_device}
use zero_franky.Gripper.Manager.Lock.{returning, result-commanded}
use zero_franky.Gripper.Server.{
  handle_activate, handle_start, handle_reset, handle_stop, handle_open, handle_close, handle_move,
  handle_move_mm, handle_calibrate_mm, handle_position, handle_position_mm, handle_status,
  handle_object_detection, rpc_handlers, handled, dispatch,
}
use zero_franky.Gripper.Proxy as Proxy
use zero_franky.Gripper.Proxy.{byte, default_timeout_ms}

-- A result that is None, or an exception
abbrev Silent : Result Value → Type 0
Silent r = r ≡ returning r

module _ (D : Device) where
  Silent-commanded : (m : Exec D.World Value) (x : GripperState D) → Silent (commanded D m x).0
  Silent-commanded m (g, w) = rw (result-commanded D m g w) (go (m w).0)
    where
      go : (r : Result Value) → returning r ≡ returning (returning r)
      go (ok v) = refl
      go (raise e) = refl

  Silent-then :
      (m : Exec (GripperState D) Value) (x : GripperState D) → Silent ((m >> pure null) x).0
  Silent-then m x = go (m x).0 (m x).1
    where
      go :
          (r : Result Value) (t : GripperState D)
          → Silent (((λ (u : GripperState D). (r, t)) >> pure null) x).0
      go (ok v) t = refl
      go (raise e) t = refl

module _ (C : Codec) (D : Device) (fresh : GripperState D → String × GripperState D) where
  abbrev pub Server : Link (GripperState D)
  Server = served C fresh (dispatch D)

  abbrev pub drawn : GripperState D → GripperState D
  drawn x = (fresh x).1

  silenced :
      (name : String) (m : Exec (GripperState D) Value) (x : GripperState D)
      (p : Result Value × GripperState D)
      → Silent p.0
      → m x ≡ relayed name p
      → (m >> pure null) x ≡ relayed name p
  silenced name m x (ok v, t) h k = rw k (ap (λ r. (r, t)) (sym h))
  silenced name m x (raise e, t) h k = rw k refl

  -- msgpack carries the response to a command, by what the command comes to on the server.
  abbrev pub Received : Exec (GripperState D) Value → GripperState D → Type 0
  Received act x = Survives C (answer (fresh x).0 (act (drawn x)).0)

  abbrev pub Sent : String → GripperState D → Type 0
  Sent name x = Carries C (fresh x).0 name

  -- A method that returns None whatever the server answers
  told :
      (name : String) (params : Value) (act : Exec (GripperState D) Value) (x : GripperState D)
      → Survives C (request_of (fresh x).0 name params)
      → ((y : GripperState D) → dispatch D (str name) (or_empty params) y ≡ act y)
      → ((y : GripperState D) → Silent (act y).0)
      → Received act x
      → (Proxy.call Server name params >> pure null) x ≡ relayed name (act (fresh x).1)
  told name params act x sent same silent received =
      silenced name (Proxy.call Server name params) x (act (fresh x).1) (silent (fresh x).1) (
        call_gripper-relayed C fresh (dispatch D) default_timeout_ms name params x (act (fresh x).1)
          sent (same (fresh x).1) received)

  pub activated :
      (a b c : Bool) (x : GripperState D)
      → Sent "gripper.activate" x
      → Received (Manager.activate D (bool a) (bool b) (bool c)) x
      → Proxy.activate Server a b c x
        ≡ relayed "gripper.activate" (Manager.activate D (bool a) (bool b) (bool c) (drawn x))
  unfolding Proxy.activate dispatch rpc_handlers handled lookup handle_activate with_params with_key
      required option get_or or_empty truthy is_parameters are_arguments is_argument is_one_of
      is_key Manager.activate
  activated a b c x sent received =
      told "gripper.activate" _ (Manager.activate D (bool a) (bool b) (bool c)) x (sent _ refl)
        (λ y. refl) (λ y. Silent-commanded D (D.activate (bool a) (bool b) (bool c)) y) received

  pub started :
      (a : Bool) (x : GripperState D)
      → Sent "gripper.start" x
      → Received (Manager.start D (bool a)) x
      → Proxy.start Server a x ≡ relayed "gripper.start" (Manager.start D (bool a) (drawn x))
  unfolding Proxy.start dispatch rpc_handlers handled lookup handle_start with_params with_key
      required option get_or or_empty truthy is_parameters are_arguments is_argument is_one_of
      is_key Manager.start
  started a x sent received =
      told "gripper.start" _ (Manager.start D (bool a)) x (sent _ refl) (λ y. refl)
        (λ y. Silent-commanded D (D.start (bool a)) y) received

  pub was_reset :
      (x : GripperState D)
      → Sent "gripper.reset" x
      → Received (Manager.reset D) x
      → Proxy.reset Server x ≡ relayed "gripper.reset" (Manager.reset D (drawn x))
  unfolding Proxy.reset dispatch rpc_handlers handled lookup handle_reset with_params with_key
      required option get_or or_empty truthy is_parameters are_arguments is_argument is_one_of
      is_key Manager.reset
  was_reset x sent received =
      told "gripper.reset" _ (Manager.reset D) x (sent _ refl) (λ y. refl)
        (λ y. Silent-then D (reading D D.reset) y) received

  pub stopped :
      (x : GripperState D)
      → Sent "gripper.stop" x
      → Received (Manager.stop D) x
      → Proxy.stop Server x ≡ relayed "gripper.stop" (Manager.stop D (drawn x))
  unfolding Proxy.stop dispatch rpc_handlers handled lookup handle_stop with_params with_key
      required option get_or or_empty truthy is_parameters are_arguments is_argument is_one_of
      is_key Manager.stop
  stopped x sent received =
      told "gripper.stop" _ (Manager.stop D) x (sent _ refl) (λ y. refl)
        (λ y. Silent-then D (reading D D.stop) y) received

  pub opened :
      (m n : ℕ) (w r u : Bool) (x : GripperState D)
      → Sent "gripper.open" x
      → Received (Manager.open_gripper D (byte m) (byte n) (bool w) (bool r) (bool u)) x
      → leb m 255 ≡ true
      → leb n 255 ≡ true
      → Proxy.send_open Server m n w r u x
        ≡ relayed "gripper.open"
            (Manager.open_gripper D (byte m) (byte n) (bool w) (bool r) (bool u) (drawn x))
  unfolding Proxy.send_open dispatch rpc_handlers handled lookup handle_open with_params with_key
      required option get_or or_empty truthy is_parameters are_arguments is_argument is_one_of
      is_key Manager.open_gripper
  opened m n w r u x sent received hm hn =
      told "gripper.open" _ (Manager.open_gripper D (byte m) (byte n) (bool w) (bool r) (bool u)) x
        (sent _ (rw (hm, hn) refl)) (λ y. refl)
        (λ y. Silent-commanded D (D.open_gripper (byte m) (byte n) (bool w) (bool r) (bool u)) y)
        received

  pub closed :
      (m n : ℕ) (w r u : Bool) (x : GripperState D)
      → Sent "gripper.close" x
      → Received (Manager.close D (byte m) (byte n) (bool w) (bool r) (bool u)) x
      → leb m 255 ≡ true
      → leb n 255 ≡ true
      → Proxy.send_close Server m n w r u x
        ≡ relayed "gripper.close"
            (Manager.close D (byte m) (byte n) (bool w) (bool r) (bool u) (drawn x))
  unfolding Proxy.send_close dispatch rpc_handlers handled lookup handle_close with_params with_key
      required option get_or or_empty truthy is_parameters are_arguments is_argument is_one_of
      is_key Manager.close
  closed m n w r u x sent received hm hn =
      told "gripper.close" _ (Manager.close D (byte m) (byte n) (bool w) (bool r) (bool u)) x
        (sent _ (rw (hm, hn) refl)) (λ y. refl)
        (λ y. Silent-commanded D (D.close (byte m) (byte n) (bool w) (bool r) (bool u)) y) received

  pub sent :
      (k m n : ℕ) (w r u : Bool) (x : GripperState D)
      → Sent "gripper.move" x
      → Received (Manager.move D (byte k) (byte m) (byte n) (bool w) (bool r) (bool u)) x
      → leb k 255 ≡ true
      → leb m 255 ≡ true
      → leb n 255 ≡ true
      → Proxy.send_move Server k m n w r u x
        ≡ relayed "gripper.move"
            (Manager.move D (byte k) (byte m) (byte n) (bool w) (bool r) (bool u) (drawn x))
  unfolding Proxy.send_move dispatch rpc_handlers handled lookup handle_move with_params with_key
      required option get_or or_empty truthy is_parameters are_arguments is_argument is_one_of
      is_key Manager.move
  sent k m n w r u x carried received hk hm hn =
      told "gripper.move" _ (Manager.move D (byte k) (byte m) (byte n) (bool w) (bool r) (bool u)) x
        (carried _ (rw (hk, hm, hn) refl)) (λ y. refl)
        (λ y. Silent-commanded D (D.move (byte k) (byte m) (byte n) (bool w) (bool r) (bool u)) y)
        received

  pub moved_mm :
      (d : Float) (m n : ℕ) (w r u : Bool) (x : GripperState D)
      → Sent "gripper.move_mm" x
      → Received (Manager.move_mm D (float d) (byte m) (byte n) (bool w) (bool r) (bool u)) x
      → leb m 255 ≡ true
      → leb n 255 ≡ true
      → Proxy.send_move_mm Server d m n w r u x
        ≡ relayed "gripper.move_mm"
            (Manager.move_mm D (float d) (byte m) (byte n) (bool w) (bool r) (bool u) (drawn x))
  unfolding Proxy.send_move_mm dispatch rpc_handlers handled lookup handle_move_mm with_params
      with_found with_key required option get_or or_empty truthy is_parameters are_arguments
      is_argument is_one_of is_key Manager.move_mm
  moved_mm d m n w r u x sent received hm hn =
      told "gripper.move_mm" _
        (Manager.move_mm D (float d) (byte m) (byte n) (bool w) (bool r) (bool u)) x
        (sent _ (rw (hm, hn) refl)) (λ y. refl)
        (λ y.
          Silent-commanded D (D.move_mm (float d) (byte m) (byte n) (bool w) (bool r) (bool u)) y)
        received

  pub calibrated :
      (a b : Float) (x : GripperState D)
      → Sent "gripper.calibrate_mm" x
      → Received (Manager.calibrate_mm D (float a) (float b)) x
      → Proxy.calibrate_mm Server a b x
        ≡ relayed "gripper.calibrate_mm" (Manager.calibrate_mm D (float a) (float b) (drawn x))
  unfolding Proxy.calibrate_mm dispatch rpc_handlers handled lookup handle_calibrate_mm with_params
      with_found with_key required option get_or or_empty truthy is_parameters are_arguments
      is_argument is_one_of is_key Manager.calibrate_mm
  calibrated a b x sent received =
      told "gripper.calibrate_mm" _ (Manager.calibrate_mm D (float a) (float b)) x (sent _ refl)
        (λ y. refl) (λ y. Silent-then D (reading D (D.calibrate_mm (float a) (float b))) y) received

  pub asked_position :
      (a : Bool) (x : GripperState D)
      → Sent "gripper.position" x
      → Received (Manager.position D (bool a)) x
      → Proxy.position Server a x
        ≡ relayed "gripper.position" (Manager.position D (bool a) (drawn x))
  unfolding Proxy.position dispatch rpc_handlers handled lookup handle_position with_params option
      get_or or_empty truthy is_parameters are_arguments is_argument is_one_of is_key
      Manager.position
  asked_position a x sent received =
      call_gripper-relayed C fresh (dispatch D) default_timeout_ms "gripper.position" _ x
        (Manager.position D (bool a) (drawn x)) (sent _ refl) refl received

  pub asked_position_mm :
      (a : Bool) (x : GripperState D)
      → Sent "gripper.position_mm" x
      → Received (Manager.position_mm D (bool a)) x
      → Proxy.position_mm Server a x
        ≡ relayed "gripper.position_mm" (Manager.position_mm D (bool a) (drawn x))
  unfolding Proxy.position_mm dispatch rpc_handlers handled lookup handle_position_mm with_params
      option get_or or_empty truthy is_parameters are_arguments is_argument is_one_of is_key
      Manager.position_mm
  asked_position_mm a x sent received =
      call_gripper-relayed C fresh (dispatch D) default_timeout_ms "gripper.position_mm" _ x
        (Manager.position_mm D (bool a) (drawn x)) (sent _ refl) refl received

  pub asked_object_detection :
      (a : Bool) (x : GripperState D)
      → Sent "gripper.object_detection" x
      → Received (Manager.object_detection D (bool a)) x
      → Proxy.object_detection Server a x
        ≡ relayed "gripper.object_detection" (Manager.object_detection D (bool a) (drawn x))
  unfolding Proxy.object_detection dispatch rpc_handlers handled lookup handle_object_detection
      with_params option get_or or_empty truthy is_parameters are_arguments is_argument is_one_of
      is_key Manager.object_detection
  asked_object_detection a x sent received =
      call_gripper-relayed C fresh (dispatch D) default_timeout_ms "gripper.object_detection" _ x
        (Manager.object_detection D (bool a) (drawn x)) (sent _ refl) refl received

  pub asked_status :
      (a : Bool) (x : GripperState D)
      → Sent "gripper.status" x
      → Received (Manager.status D (bool a)) x
      → Proxy.status Server a x ≡ relayed "gripper.status" (Manager.status D (bool a) (drawn x))
  unfolding Proxy.status dispatch rpc_handlers handled lookup handle_status with_params option
      get_or or_empty truthy is_parameters are_arguments is_argument is_one_of is_key Manager.status
  asked_status a x sent received =
      call_gripper-relayed C fresh (dispatch D) default_timeout_ms "gripper.status" _ x
        (Manager.status D (bool a) (drawn x)) (sent _ refl) refl received
