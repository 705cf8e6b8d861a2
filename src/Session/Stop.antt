-- ===== src/Session/Stop.antt =====
-- What a stop does to a session and to its robot.
use zero_franky.Base.{
  ◌≤◌, ◌≡◌, refl, ap, ◌∙◌, Bool, true, false, Option, none, some, arith, if◌then◌else◌,
}
use zero_franky.Python.Errors.{Result, ok, raise}
use zero_franky.Python.Values.{Value}
use zero_franky.Python.Exec.{◌>>◌}
use zero_franky.Python.Exec.Keeps.{Moves, Moves-bind, Moves-finally}
use zero_franky.Session.Hardware.{Hardware}
use zero_franky.Session.State.{
  Session, stop, enqueue_stop_motion, issue_stop, default_stop, SessionState, stop_robot,
  join_robot, join_policy, after_ticks, status,
}

module _ (H : Hardware) where
  open H use {World}

  -- What a step never changes of a session, and that the stop event stays set.
  pub record Keeps (s s' : Session) : Type 0 where
    pub id : s'.id ≡ s.id
    pub robot : s'.robot ≡ s.robot
    pub kind : s'.kind ≡ s.kind
    pub policy : s'.policy ≡ s.policy
    pub started : s'.started ≡ s.started
    pub iterations : s.iterations ≤ s'.iterations
    pub stop_event : s'.stop_event ≡ s.stop_event

  abbrev pub Related : SessionState H → SessionState H → Type 0
  Related (s, w) (s', w') = Keeps s s'

  Related-trans : (a b c : SessionState H) → Related a b → Related b c → Related a c
  Related-trans (s, w) (s', w') (s'', w'') h k = record {
    id = k.id ∙ h.id;
    robot = k.robot ∙ h.robot;
    kind = k.kind ∙ h.kind;
    policy = k.policy ∙ h.policy;
    started = k.started ∙ h.started;
    iterations = omega (arith, h.iterations, k.iterations);
    stop_event = k.stop_event ∙ h.stop_event;
  }

  issue_stop-Moves : (m : Option Value) → Moves Related (issue_stop H m)
  unfolding issue_stop
  issue_stop-Moves none (s, w) = ground arith
  issue_stop-Moves (some m) (s, w) = ground arith

  default_stop-Moves : (o : Option (Result Value)) → Moves Related (default_stop H o)
  unfolding default_stop
  default_stop-Moves none (s, w) = ground arith
  default_stop-Moves (some (ok m)) (s, w) = ground arith
  default_stop-Moves (some (raise e)) (s, w) = ground arith

  choice :
      (b : Bool) (st : SessionState H) (x y : Result (Unit {0}) × SessionState H)
      → Related st x.1
      → Related st y.1
      → Related st (if b then x else y).1
  choice true st x y h k = h
  choice false st x y h k = k

  enqueue_stop_motion-Moves : (m : Option Value) → Moves Related (enqueue_stop_motion H m)
  unfolding enqueue_stop_motion
  enqueue_stop_motion-Moves (some m) st = issue_stop-Moves (some m) st
  enqueue_stop_motion-Moves none (s, w) =
      choice s.stop_enqueued (s, w) _ _ (ground arith)
        (Moves-bind Related Related-trans (default_stop H H.torque_stop_motion) (issue_stop H)
          (default_stop-Moves H.torque_stop_motion) issue_stop-Moves (s, w))

  pub enqueue_stop_motion-Keeps :
      (m : Option Value) (s : Session) (w : World) → Keeps s (enqueue_stop_motion H m (s, w)).1.0
  enqueue_stop_motion-Keeps m s w = enqueue_stop_motion-Moves m (s, w)

  join_robot-Moves : (t : Value) → Moves Related (join_robot H t)
  unfolding join_robot
  join_robot-Moves t (s, w) = ground arith

  join_policy-Moves : Moves Related (join_policy H)
  unfolding join_policy after_ticks
  join_policy-Moves (s, w) = ground arith

  stop_robot-Moves : (m : Option Value) (t : Value) → Moves Related (stop_robot H m t)
  unfolding stop_robot
  stop_robot-Moves m t =
      Moves-bind Related Related-trans (enqueue_stop_motion H m) (λ _. join_robot H t)
        (enqueue_stop_motion-Moves m) (λ _. join_robot-Moves t)

  -- Whatever the robot does, and also if the stop raises, the stop event is set and the session keeps
  -- its id, robot, kind, policy and thread, and loses none of its ticks; the policy thread may count more.
  pub stop-Keeps :
      (t : Value) (m : Option Value) (s : Session) (w : World)
      → Keeps (record s { stop_event = true }) (stop H t m (s, w)).1.0
  unfolding stop
  stop-Keeps t m s w =
      Moves-finally Related Related-trans (stop_robot H m t) (join_policy H) (stop_robot-Moves m t)
        join_policy-Moves (record s { stop_event = true }, w)

  running_stopped :
      (s : Session) (w : World)
      → s.policy ≡ none
      → s.stop_event ≡ true
      → (status H (s, w)).running ≡ false
  unfolding status
  running_stopped s w passthrough stopped = ground arith

  -- A passthrough session does not run any more after its stop, whether the stop returned or raised.
  pub running-stop :
      (t : Value) (m : Option Value) (s : Session) (w : World)
      → s.policy ≡ none
      → (status H (stop H t m (s, w)).1).running ≡ false
  running-stop t m s w passthrough =
      let k = stop-Keeps t m s w in running_stopped _ _ (k.policy ∙ passthrough) k.stop_event

  -- A robot that has left control gets no command.
  pub enqueue_stop_motion_idle :
      (m : Option Value) (s : Session) (w : World)
      → H.in_control s.robot w ≡ false
      → (enqueue_stop_motion H m (s, w)).1 ≡ (s, w)
  unfolding enqueue_stop_motion
  enqueue_stop_motion_idle (some m) s w h = ground arith
  enqueue_stop_motion_idle none s w h = ground arith

  -- Once a stop is enqueued, another default stop leaves the robot and the session alone: the ramp is
  -- not started again.
  pub enqueue_stop_motion_twice :
      (s : Session) (w : World)
      → s.stop_enqueued ≡ true
      → enqueue_stop_motion H none (s, w) ≡ (ok tt, (s, w))
  unfolding enqueue_stop_motion
  enqueue_stop_motion_twice s w h = ground arith

  -- The first default stop of a robot in control runs the ramp, asynchronously, and is marked.
  pub enqueue_stop_motion_ramp :
      (s : Session) (w : World) (ramp : Value)
      → s.stop_enqueued ≡ false
      → H.in_control s.robot w ≡ true
      → H.torque_stop_motion ≡ some (ok ramp)
      → (enqueue_stop_motion H none (s, w)).1
        ≡ (record s { stop_enqueued = true }, (H.move s.robot ramp true w).1)
  unfolding enqueue_stop_motion
  enqueue_stop_motion_ramp s w ramp fresh controlled h = rw fresh (rw h (ground arith))

  after_ramp :
      (s : Session) (w : World) (x : Result (Unit {0}) × SessionState H)
      → x.1 ≡ (record s { stop_enqueued = true }, w)
      → ((λ (u : SessionState H). x) >> enqueue_stop_motion H none) (s, w) ≡ x
  after_ramp s w (ok u, (s', w')) h =
      enqueue_stop_motion_twice s' w' (ap (λ y. y.0.stop_enqueued) h)
  after_ramp s w (raise e, y) h = refl

  -- Two default stops of a robot in control, one after the other, where none was enqueued before and the
  -- ramp can be made, command the ramp once: together they do what the first one does, which is to move
  -- the robot by the ramp, asynchronously, and to mark the session.
  pub enqueue_stop_motion_once :
      (s : Session) (w : World) (ramp : Value)
      → s.stop_enqueued ≡ false
      → H.in_control s.robot w ≡ true
      → H.torque_stop_motion ≡ some (ok ramp)
      → ((enqueue_stop_motion H none >> enqueue_stop_motion H none) (s, w)
          ≡ enqueue_stop_motion H none (s, w))
        × ((enqueue_stop_motion H none (s, w)).1
            ≡ (record s { stop_enqueued = true }, (H.move s.robot ramp true w).1))
  enqueue_stop_motion_once s w ramp fresh controlled h =
      let first = enqueue_stop_motion_ramp s w ramp fresh controlled h in
      (after_ramp s _ (enqueue_stop_motion H none (s, w)) first, first)
