-- ===== src/Session/Policy.antt =====
-- What a policy's step does to its session (`_apply_reference` of tracker_session.py).
use zero_franky.Base.{◌≡◌, refl, Bool, true, false, ◌==◌, none, arith, if◌then◌else◌}
use zero_franky.Python.Errors.{tracker_policy_error, error}
use zero_franky.Python.Values.{
  Value, null, bool, int, float, str, bytes, list, dict, object, method, lookup,
}
use zero_franky.Python.Attributes.{at_key, get, get_or, truthy}
use zero_franky.Python.Exec.{Exec, pure, lift, ◌>>=◌, ◌>>◌}
use zero_franky.Session.Hardware.{Hardware}
use zero_franky.Session.State.{Session, SessionState, on_world, request_stop}
use zero_franky.Session.Setters.{set_joint_reference, set_cartesian_reference}
use zero_franky.Session.Stop.{Keeps, enqueue_stop_motion-Keeps}

-- `False`, or a dict whose "stop" is true
unfoldable pub asks_stop : Value → Bool
unfolding truthy
asks_stop (bool false) = true
asks_stop (dict d) = truthy (get_or (lookup "stop" d) null)
asks_stop _ = false

module _ (H : Hardware) where
  open H use {World}

  -- The reference of a step, for the session's kind
  unfoldable pub apply_target : Value → Exec (SessionState H) Unit
  apply_target reference (s, w) =
      if s.kind == "joint"
      then (do
        position ← lift (at_key reference "position")
        velocity ← lift (get reference "velocity" null)
        torque_feedforward ← lift (get reference "torque_feedforward" null)
        on_world H (set_joint_reference H s position velocity torque_feedforward)
        pure tt)
          (s, w)
      else if s.kind == "cartesian"
      then (do
        target ← lift (at_key reference "target")
        target_twist ← lift (get reference "target_twist" null)
        target_acceleration ← lift (get reference "target_acceleration" null)
        on_world H (set_cartesian_reference H s target target_twist target_acceleration)
        pure tt)
          (s, w)
      else (error tracker_policy_error "Unsupported tracker kind", (s, w))

  unfoldable pub apply_fields : Value → Value → Exec (SessionState H) Unit
  unfolding apply_target
  apply_fields reference stop = if truthy stop then request_stop H else apply_target reference

  unfoldable pub apply_reference : Value → Exec (SessionState H) Unit
  unfolding apply_fields
  apply_reference null = pure tt
  apply_reference (bool false) = request_stop H
  apply_reference (dict d) = do stop ← lift (get (dict d) "stop" null); apply_fields (dict d) stop
  apply_reference _ =
      lift (error tracker_policy_error "Policy step must return a dict, None, or False")

  -- A stop that a policy requests sets the stop event, whatever the robot does, and keeps the session's
  -- id, robot, kind, policy, thread and count of ticks.
  pub request_stop-Keeps :
      (s : Session) (w : World)
      → Keeps H (record s { stop_event = true }) (request_stop H (s, w)).1.0
  unfolding request_stop
  request_stop-Keeps s w = enqueue_stop_motion-Keeps H none (record s { stop_event = true }) w

  apply_target-session :
      (reference : Value) (s : Session) (w : World) → (apply_target reference (s, w)).1.0 ≡ s
  unfolding apply_target set_joint_reference set_cartesian_reference
  apply_target-session reference s w = ground arith

  apply_fields-session :
      (reference stop : Value) (s : Session) (w : World)
      → truthy stop ≡ false
      → (apply_fields reference stop (s, w)).1.0 ≡ s
  unfolding apply_fields
  apply_fields-session reference stop s w h = rw h (apply_target-session reference s w)

  -- What a step returns, where it asks for no stop, leaves the session as it was, also where it raises.
  pub apply_reference-session :
      (reference : Value) (s : Session) (w : World)
      → asks_stop reference ≡ false
      → (apply_reference reference (s, w)).1.0 ≡ s
  unfolding apply_reference asks_stop get get_or
  apply_reference-session (bool false) s w h = ground (arith, h)
  apply_reference-session (dict d) s w h =
      apply_fields-session (dict d) (get_or (lookup "stop" d) null) s w h
  apply_reference-session null s w h = refl
  apply_reference-session (bool true) s w h = refl
  apply_reference-session (int n) s w h = refl
  apply_reference-session (float f) s w h = refl
  apply_reference-session (str t) s w h = refl
  apply_reference-session (bytes b) s w h = refl
  apply_reference-session (list xs) s w h = refl
  apply_reference-session (object c attrs) s w h = refl
  apply_reference-session (method v) s w h = refl
