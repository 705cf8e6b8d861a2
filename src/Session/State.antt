-- ===== src/Session/State.antt =====
-- The tracker session: its state, its status, and its stop (tracker_session.py).
use zero_franky.Base.{
  ℕ, ◌+◌, String, Bool, true, false, not, ◌&&◌, ◌||◌, Option, none, some, if◌then◌else◌,
}
use text.Mathlib.Text.{starts_with}
use zero_franky.Python.Errors.{Exc, ExcClass, control_exception, Result, ok, raise}
use zero_franky.Python.Values.{Value}
use zero_franky.Python.Exec.{Exec, pure, fail, modify, ◌>>=◌, ◌>>◌, catch, finally}
use zero_franky.Session.Hardware.{LastTicks, Hardware}

-- `kind` is "joint", "cartesian" or "torque"; `robot` is the id of the session's robot.
pub record Session : Type 0 where
  pub id : String
  pub kind : String
  pub robot : String
  pub motion : Value
  pub policy : Option Value
  pub period : Value
  pub stop_on_policy_error : Bool
  pub stop_event : Bool
  pub stop_enqueued : Bool
  pub started : Bool
  pub iterations : ℕ
  pub failure : Option String

-- `TrackerSessionStatus`
pub record Status : Type 0 where
  pub id : String
  pub kind : String
  pub mode : String
  pub running : Bool
  pub iterations : ℕ
  pub failure : Option String

-- `TrackerSession.__init__`
unfoldable pub new_session :
    String → String → String → Option Value → Value → Value → Bool → Session
new_session id kind robot policy motion period stop_on_policy_error = record {
  id = id;
  kind = kind;
  robot = robot;
  motion = motion;
  policy = policy;
  period = period;
  stop_on_policy_error = stop_on_policy_error;
  stop_event = false;
  stop_enqueued = false;
  started = false;
  iterations = 0;
  failure = none;
}

-- `needle in text`
unfoldable pub in_text : String → String → Bool
in_text needle String.[] = starts_with String.[] needle
in_text needle (String.◌∷◌ c s) = starts_with (String.◌∷◌ c s) needle || in_text needle s

abbrev pub preemption_message : String
preemption_message = "Move command preempted!"

unfoldable pub is_control_exception : ExcClass → Bool
is_control_exception control_exception = true
is_control_exception _ = false

unfoldable pub has_policy : Option Value → Bool
has_policy none = false
has_policy (some p) = true

module _ (H : Hardware) where
  open H use {World}

  abbrev pub SessionState : Type 0
  SessionState = Session × World

  -- `_is_preemption_exception`
  unfoldable pub is_preemption : Exc → Bool
  unfolding is_control_exception in_text
  is_preemption e =
      if H.has_control_exception && not (is_control_exception e.cls)
      then false
      else in_text preemption_message e.message

  -- An operation on the robot, inside the session.
  abbrev pub on_world : {A : Type 0} → Exec World A → Exec SessionState A
  on_world m (s, w) = ((m w).0, (s, (m w).1))

  abbrev pub set_stop_event : Exec SessionState Unit
  set_stop_event = modify (λ (s, w). (record s { stop_event = true }, w))

  -- `_in_control`
  abbrev pub in_control : SessionState → Bool
  in_control (s, w) = H.in_control s.robot w

  -- The rest of `_enqueue_stop_motion`, with the motion chosen; `none` is the abrupt stop.
  unfoldable pub issue_stop : Option Value → Exec SessionState Unit
  issue_stop motion (s, w) =
      if not (H.in_control s.robot w)
      then (ok tt, (s, w))
      else let s' : Session = record s { stop_enqueued = true } in
        elim motion [
          | none ↦ (on_world (H.stop s.robot) >> pure tt) (s', w)
          | some m ↦ (on_world (H.move s.robot m true) >> pure tt) (s', w)
        ]

  -- `None if stop_motion_type is None else stop_motion_type()`
  unfoldable pub default_stop : Option (Result Value) → Exec SessionState (Option Value)
  default_stop none = pure none
  default_stop (some (ok m)) = pure (some m)
  default_stop (some (raise e)) = fail e

  unfoldable pub enqueue_stop_motion : Option Value → Exec SessionState Unit
  unfolding issue_stop default_stop
  enqueue_stop_motion (some m) st = issue_stop (some m) st
  enqueue_stop_motion none (s, w) =
      if s.stop_enqueued
      then (ok tt, (s, w))
      else (default_stop H.torque_stop_motion >>= issue_stop) (s, w)

  -- The join, with a preemption taken for a clean end.
  unfoldable pub join_robot : Value → Exec SessionState Unit
  unfolding is_preemption
  join_robot timeout (s, w) =
      if H.has_join_motion
      then catch (on_world (H.join_motion s.robot timeout) >> pure tt)
          (λ e. if is_preemption e then pure tt else fail e) (s, w)
      else (ok tt, (s, w))

  unfoldable pub stop_robot : Option Value → Value → Exec SessionState Unit
  unfolding enqueue_stop_motion join_robot
  stop_robot stop_motion join_timeout = enqueue_stop_motion stop_motion >> join_robot join_timeout

  unfoldable pub after_ticks : LastTicks → Session → Session
  after_ticks last s = record s {
    iterations = s.iterations + last.ticks;
    failure = elim last.last_error [ none ↦ s.failure | some e ↦ some e ];
    stop_enqueued = s.stop_enqueued || last.enqueues;
  }

  -- The wait for the policy thread, which may go on until it sees the stop event. `stop` is called from another thread.
  unfoldable pub join_policy : Exec SessionState Unit
  unfolding after_ticks
  join_policy (s, w) =
      let (last, w') = H.join_thread s.id w in
      if s.started then (ok tt, (after_ticks last s, w')) else (ok tt, (s, w))

  -- `stop(join_timeout, stop_motion)`
  unfoldable pub stop : Value → Option Value → Exec SessionState Unit
  unfolding stop_robot join_policy
  stop join_timeout stop_motion =
      set_stop_event >> finally (stop_robot stop_motion join_timeout) join_policy

  -- `_request_stop`
  unfoldable pub request_stop : Exec SessionState Unit
  unfolding enqueue_stop_motion
  request_stop = set_stop_event >> enqueue_stop_motion none

  -- `start`
  unfoldable pub start : Exec SessionState String
  unfolding has_policy
  start (s, w) =
      if has_policy s.policy
      then (ok s.id, (record s { started = true }, H.start_thread s.id w))
      else (ok s.id, (s, w))

  -- `status`
  unfoldable pub status : SessionState → Status
  unfolding has_policy
  status (s, w) = record {
    id = s.id;
    kind = s.kind;
    mode = if has_policy s.policy then "policy" else "passthrough";
    running =
        H.in_control s.robot w
        && (if has_policy s.policy then s.started && H.thread_alive s.id w else not s.stop_event);
    iterations = s.iterations;
    failure = s.failure;
  }
