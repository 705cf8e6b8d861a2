-- ===== src/Manager/Starts.antt =====
-- What the start of a tracker leaves of the manager (zmq_server.py).
use zero_franky.Base.{
  String, ◌≡◌, refl, sym, subst, ◌∙◌, Bool, true, false, ◌==◌, Option, none, some, arith, eq_iff,
}
use zero_franky.Base.Dict.{lookup, lookup-insert}
use zero_franky.Python.Errors.{Result, ok}
use zero_franky.Python.Values.{Value}
use zero_franky.Session.Hardware.{Hardware}
use zero_franky.Session.State.{Session, new_session, start, has_policy}
use zero_franky.Manager.State.{Manager, ManagerState}
use zero_franky.Manager.Trackers.{
  Tracker, kind_of, begin_tracker, policy_of, enter_session, start_tracker,
}

-- The session as its start leaves it.
abbrev started_session : String → String → String → Option Value → Value → Value → Bool → Session
started_session new kind id q motion period b = record {
  id = new;
  kind = kind;
  robot = id;
  motion = motion;
  policy = q;
  period = period;
  stop_on_policy_error = b;
  stop_event = false;
  stop_enqueued = false;
  started = elim q [ none ↦ false | some p ↦ true ];
  iterations = 0;
  failure = none;
}

module _ (H : Hardware) where
  open H use {World}

  -- The policy's thread runs, if there is a policy.
  abbrev threads : String → Option Value → World → World
  threads new none w = w
  threads new (some p) w = H.start_thread new w

  -- How a start leaves the manager `m` and the world: the new id's session, the other ones, and the threads
  abbrev pub Entered :
      String
      → String
      → Value
      → Value
      → Bool
      → Option Value
      → ManagerState H
      → Result String × ManagerState H
      → Type 0
  Entered kind id motion period b q (m, w) (r, (m', w')) =
      (r ≡ ok (H.fresh_id w).0)
      × (lookup (H.fresh_id w).0 m'.tracker_sessions
          ≡ some (started_session (H.fresh_id w).0 kind id q motion period b))
      × ((k : String)
          → (H.fresh_id w).0 == k ≡ false
          → lookup k m'.tracker_sessions ≡ lookup k m.tracker_sessions)
      × (w' ≡ threads (H.fresh_id w).0 q (H.fresh_id w).1)

  enter_session-Entered :
      (kind id : String) (motion period : Value) (b : Bool) (q : Option Value) (m : Manager)
      (w : World)
      → Entered kind id motion period b q (m, w) (enter_session H kind id motion period b q (m, w))
  unfolding enter_session start new_session has_policy
  enter_session-Entered kind id motion period b none m w = (
    refl,
    lookup-insert (H.fresh_id w).0 (H.fresh_id w).0 _ m.tracker_sessions
        ∙ ground (arith, eq_iff (H.fresh_id w).0 (H.fresh_id w).0),
    λ k h. lookup-insert (H.fresh_id w).0 k _ m.tracker_sessions ∙ rw h refl,
    refl,
  )
  enter_session-Entered kind id motion period b (some policy) m w = (
    refl,
    lookup-insert (H.fresh_id w).0 (H.fresh_id w).0 _ m.tracker_sessions
        ∙ ground (arith, eq_iff (H.fresh_id w).0 (H.fresh_id w).0),
    λ k h. lookup-insert (H.fresh_id w).0 k _ m.tracker_sessions ∙ rw h refl,
    refl,
  )

  start_tracker_begun :
      (tracker : Tracker) (id : String) (p q : Option Value) (kwargs period : Value) (b : Bool)
      (m m' : Manager) (w w' : World) (motion : Value)
      → begin_tracker H tracker id kwargs (m, w) ≡ (ok motion, (m', w'))
      → policy_of H p ≡ ok q
      → start_tracker H tracker id p kwargs period b (m, w)
        ≡ enter_session H (kind_of tracker) id motion period b q (m', w')
  unfolding start_tracker
  start_tracker_begun tracker id p q kwargs period b m m' w w' motion begun loaded =
      rw (start_tracker, begun) (rw (loaded) refl)

  -- A start that begins its motion and loads its policy answers with a new id, under which the session
  -- stands, not stopped, beside the sessions that were there; the policy's thread runs if there is a policy,
  -- and nothing else is asked of the robots.
  pub start_tracker-Entered :
      (tracker : Tracker) (id : String) (p q : Option Value) (kwargs period : Value) (b : Bool)
      (m m' : Manager) (w w' : World) (motion : Value)
      → begin_tracker H tracker id kwargs (m, w) ≡ (ok motion, (m', w'))
      → policy_of H p ≡ ok q
      → Entered
          (kind_of tracker)
          id
          motion
          period
          b
          q
          (m', w')
          (start_tracker H tracker id p kwargs period b (m, w))
  start_tracker-Entered tracker id p q kwargs period b m m' w w' motion begun loaded =
      subst (Entered (kind_of tracker) id motion period b q (m', w'))
        (sym (start_tracker_begun tracker id p q kwargs period b m m' w w' motion begun loaded))
        (enter_session-Entered (kind_of tracker) id motion period b q m' w')
