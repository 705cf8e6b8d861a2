-- ===== src/Manager/Runs.antt =====
-- Runs of the server: its operations, in any order, between the changes of the robots and of the policy
-- threads (zmq_server.py).
use zero_franky.Base.{
  ◌≤◌, String, ◌≡◌, refl, sym, subst, Bool, true, Option, none, some, length, arith, eq_iff,
  Option-cases, inl, inr,
}
use zero_franky.Base.Dict.{Dict, lookup, insert, erase, lookup-insert, lookup-erase}
use zero_franky.Python.Errors.{Result}
use zero_franky.Python.Values.{Value}
use zero_franky.Python.Attributes.{FloatOps}
use zero_franky.Python.Exec.{Exec, lift, ◌>>=◌}
use zero_franky.Python.Exec.Keeps.{Moves, Moves-bind}
use zero_franky.Session.Hardware.{Hardware}
use zero_franky.Session.State.{Session, new_session, start}
use zero_franky.Manager.State.{
  Manager, ManagerState, init, on_world, finished_status_history, robot, stop_tracker, shutdown,
}
use zero_franky.Manager.Trackers.{
  Tracker, joint_tracker, cartesian_tracker, torque_tracker, kind_of, create_robot,
  set_initial_reference, begin_tracker, policy_of, enter_session, start_tracker,
  start_torque_tracker, move, default_period,
}
use zero_franky.Manager.Stop.{sessions-stop_tracker, history-stop_tracker}
use zero_franky.Manager.Shutdown.{sessions-shutdown, history-shutdown}

-- The history is bounded, and each session stands under its own id.
pub record IsConsistent (m : Manager) : Type 0 where
  pub bounded : length m.finished_statuses ≤ finished_status_history
  pub keyed : (k : String) (s : Session) → lookup k m.tracker_sessions ≡ some s → s.id ≡ k

pub IsConsistent-init : IsConsistent init
unfolding lookup
IsConsistent-init = record { bounded = omega arith; keyed = λ k s h. ground arith }

keyed-insert :
    (k : String) (s : Session) (d : Dict Session)
    → s.id ≡ k
    → ((j : String) (r : Session) → lookup j d ≡ some r → r.id ≡ j)
    → (j : String) (r : Session) → lookup j (insert k s d) ≡ some r
    → r.id ≡ j
keyed-insert k s d same keyed j r h = ground (arith, eq_iff k j, lookup-insert k j s d, keyed j r)

keyed-erase :
    (k : String) (d : Dict Session)
    → ((j : String) (r : Session) → lookup j d ≡ some r → r.id ≡ j)
    → (j : String) (r : Session) → lookup j (erase k d) ≡ some r
    → r.id ≡ j
keyed-erase k d keyed j r h = ground (arith, lookup-erase k j d, keyed j r)

module _ (H : Hardware) where
  open H use {World}

  abbrev pub Preserved : ManagerState H → ManagerState H → Type 0
  Preserved x y = IsConsistent x.0 → IsConsistent y.0

  Preserved-trans : (x y z : ManagerState H) → Preserved x y → Preserved y z → Preserved x z
  Preserved-trans x y z f g h = g (f h)

  -- A step that changes the world only.
  world-Moves : {A : Type 0} (e : Exec World A) → Moves Preserved (on_world H e)
  world-Moves e (m, w) h = h

  lift-Moves : {A : Type 0} (r : Result A) → Moves {S = ManagerState H} Preserved (lift r)
  lift-Moves r x h = h

  robot-Moves : (id : String) → Moves Preserved (robot H id)
  unfolding robot
  robot-Moves id (m, w) h = elim (Option-cases (lookup id m.robots)) [
    | inl k ↦ rw (robot, k) h
    | inr (u, k) ↦ rw (robot, k) h
  ]

  create_robot-Moves :
      (host : String) (kwargs : Value) → Moves Preserved (create_robot H host kwargs)
  unfolding create_robot
  create_robot-Moves host kwargs (m, w) h = record {
    bounded = ground (arith, h.bounded);
    keyed = ground (arith, h.keyed);
  }

  -- The start of a tracker does not change the manager before it enters the session.
  set_initial_reference-manager :
      (tracker : Tracker) (id : String) (motion : Value) (m : Manager) (w : World)
      → (set_initial_reference H tracker id motion (m, w)).1.0 ≡ m
  unfolding set_initial_reference
  set_initial_reference-manager joint_tracker id motion m w = ground arith
  set_initial_reference-manager cartesian_tracker id motion m w = ground arith
  set_initial_reference-manager torque_tracker id motion m w = refl

  begin_tracker-manager :
      (tracker : Tracker) (id : String) (kwargs : Value) (m : Manager) (w : World)
      → (begin_tracker H tracker id kwargs (m, w)).1.0 ≡ m
  unfolding begin_tracker robot
  begin_tracker-manager tracker id kwargs m w =
      ground (arith, set_initial_reference-manager tracker id)

  enter_session-Moves :
      (kind id : String) (motion period : Value) (b : Bool) (policy : Option Value)
      → Moves Preserved (enter_session H kind id motion period b policy)
  unfolding enter_session start new_session
  enter_session-Moves kind id motion period b policy (m, w) h = record {
    bounded = h.bounded;
    keyed = keyed-insert _ _ m.tracker_sessions (ground arith) h.keyed;
  }

  begin_tracker-Moves :
      (tracker : Tracker) (id : String) (kwargs : Value)
      → Moves Preserved (begin_tracker H tracker id kwargs)
  begin_tracker-Moves tracker id kwargs (m, w) h =
      subst IsConsistent (sym (begin_tracker-manager tracker id kwargs m w)) h

  start_tracker-Moves :
      (tracker : Tracker) (id : String) (policy : Option Value) (kwargs period : Value) (b : Bool)
      → Moves Preserved (start_tracker H tracker id policy kwargs period b)
  unfolding start_tracker
  start_tracker-Moves tracker id policy kwargs period b =
      Moves-bind Preserved Preserved-trans (begin_tracker H tracker id kwargs)
        (λ motion.
          lift (policy_of H policy) >>= enter_session H (kind_of tracker) id motion period b)
        (begin_tracker-Moves tracker id kwargs)
        (λ motion.
          Moves-bind Preserved Preserved-trans (lift (policy_of H policy))
            (enter_session H (kind_of tracker) id motion period b) (lift-Moves (policy_of H policy))
            (enter_session-Moves (kind_of tracker) id motion period b))

  start_torque_tracker-Moves :
      (id : String) (kwargs : Value) → Moves Preserved (start_torque_tracker H id kwargs)
  unfolding start_torque_tracker
  start_torque_tracker-Moves id kwargs =
      Moves-bind Preserved Preserved-trans (begin_tracker H torque_tracker id kwargs)
        (λ motion. enter_session H (kind_of torque_tracker) id motion default_period true none)
        (begin_tracker-Moves torque_tracker id kwargs)
        (λ motion. enter_session-Moves (kind_of torque_tracker) id motion default_period true none)

  module _ ⦃ops : FloatOps⦄ where
    move-manager :
        (id : String) (payload : Value) (b : Bool) (m : Manager) (w : World)
        → (move H id payload b (m, w)).1.0 ≡ m
    unfolding move robot
    move-manager id payload b m w = ground arith

    move-Moves : (id : String) (payload : Value) (b : Bool) → Moves Preserved (move H id payload b)
    move-Moves id payload b (m, w) h = subst IsConsistent (sym (move-manager id payload b m w)) h

    stop_tracker-Moves :
        (id : String) (t : Value) (p : Option Value) → Moves Preserved (stop_tracker H id t p)
    stop_tracker-Moves id t p (m, w) h = record {
      bounded = history-stop_tracker H id t p m w h.bounded;
      keyed =
          subst (λ d. (k : String) (s : Session) → lookup k d ≡ some s → s.id ≡ k)
            (sym (sessions-stop_tracker H id t p m w)) (keyed-erase id m.tracker_sessions h.keyed);
    }

    shutdown-Preserved : (x : ManagerState H) → Preserved x (shutdown H x)
    unfolding lookup
    shutdown-Preserved (m, w) h = record {
      bounded = history-shutdown H m w h.bounded;
      keyed =
          subst (λ d. (k : String) (s : Session) → lookup k d ≡ some s → s.id ≡ k)
            (sym (sessions-shutdown H m w)) IsConsistent-init.keyed;
    }

    -- One request of a client, whether it returns or raises; the robots' own changes; a tick of a
    -- session's policy thread, or a callback's, which each change an entry of their own.
    pub data Step : ManagerState H → ManagerState H → Type 0 where
      creates :
          (host : String) (kwargs : Value) (x : ManagerState H)
          → Step x (create_robot H host kwargs x).1
      moves :
          (id : String) (payload : Value) (b : Bool) (x : ManagerState H)
          → Step x (move H id payload b x).1
      starts :
          (tracker : Tracker) (id : String) (policy : Option Value) (kwargs period : Value)
          (b : Bool) (x : ManagerState H)
          → Step x (start_tracker H tracker id policy kwargs period b x).1
      starts_torque :
          (id : String) (kwargs : Value) (x : ManagerState H)
          → Step x (start_torque_tracker H id kwargs x).1
      stops :
          (id : String) (t : Value) (p : Option Value) (x : ManagerState H)
          → Step x (stop_tracker H id t p x).1
      shuts_down : (x : ManagerState H) → Step x (shutdown H x)
      world_moves : (m : Manager) (w w' : World) → Step (m, w) (m, w')
      ticks :
          (id : String) (s' : Session) (m : Manager) (w w' : World)
          → s'.id ≡ id
          → Step (m, w) (record m { tracker_sessions = insert id s' m.tracker_sessions }, w')
      calls_back :
          (id : String) (state : Value) (m : Manager) (w : World)
          → Step (m, w) (record m { latest_state = insert id state m.latest_state }, w)

    pub data Reachable : ManagerState H → Type 0 where
      starts_up : (w : World) → Reachable (init, w)
      step_on : (x y : ManagerState H) → Reachable x → Step x y → Reachable y

    Step-Preserved : (x y : ManagerState H) → Step x y → Preserved x y
    Step-Preserved _ _ (creates host kwargs x) = create_robot-Moves host kwargs x
    Step-Preserved _ _ (moves id payload b x) = move-Moves id payload b x
    Step-Preserved _ _ (starts tracker id policy kwargs period b x) =
        start_tracker-Moves tracker id policy kwargs period b x
    Step-Preserved _ _ (starts_torque id kwargs x) = start_torque_tracker-Moves id kwargs x
    Step-Preserved _ _ (stops id t p x) = stop_tracker-Moves id t p x
    Step-Preserved _ _ (shuts_down x) = shutdown-Preserved x
    Step-Preserved _ _ (world_moves m w w') = λ h. h
    Step-Preserved _ _ (ticks id s' m w w' same) = λ h. record {
      bounded = h.bounded;
      keyed = keyed-insert id s' m.tracker_sessions same h.keyed;
    }
    Step-Preserved _ _ (calls_back id state m w) =
        λ h. record { bounded = h.bounded; keyed = h.keyed }

    -- In every state that a run reaches, the history holds 32 statuses at most and each session stands
    -- under its own id.
    pub Reachable-IsConsistent : (x : ManagerState H) → Reachable x → IsConsistent x.0
    Reachable-IsConsistent _ (starts_up w) = IsConsistent-init
    Reachable-IsConsistent _ (step_on x y r s) = Step-Preserved x y s (Reachable-IsConsistent x r)
