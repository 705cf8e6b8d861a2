-- ===== src/Manager/Shutdown.antt =====
-- The shutdown of the manager (zmq_server.py).
use zero_franky.Base.{
  ◌≤◌, String, ◌≡◌, refl, sym, ◌∙◌, subst, false, none, List, [], ◌∷◌, length, arith, eq_iff,
  if◌then◌else◌, contains,
}
use zero_franky.Base.Dict.{Dict, keys, lookup, lookup-erase}
use zero_franky.Python.Attributes.{FloatOps}
use zero_franky.Session.Hardware.{Hardware}
use zero_franky.Manager.State.{
  Manager, ManagerState, finished_status_history, stop_tracker, stop_trackers, stop_robots,
  shutdown, shutdown_join_timeout,
}
use zero_franky.Manager.Stop.{sessions-stop_tracker, history-stop_tracker}

lookup_not_key :
    {V : Type 0} (k : String) (d : Dict V) → contains (keys d) k ≡ false → lookup k d ≡ none
unfolding lookup
lookup_not_key k [] h = refl
lookup_not_key k ((j, v) ∷ d) h = ground (arith, lookup_not_key k d)

empty_of_lookup : {V : Type 0} (d : Dict V) → ((k : String) → lookup k d ≡ none) → d ≡ []
unfolding lookup
empty_of_lookup [] h = refl
empty_of_lookup ((j, v) ∷ d) h = ground (arith, eq_iff j j, h j)

module _ ⦃ops : FloatOps⦄ (H : Hardware) where
  open H use {World}

  -- After the stops, none of their ids is left, and the others are found as before.
  lookup-stop_trackers :
      (ids : List String) (k : String) (x : ManagerState H)
      → lookup k (stop_trackers H ids x).0.tracker_sessions
        ≡ (if contains ids k then none else lookup k x.0.tracker_sessions)
  unfolding stop_trackers
  lookup-stop_trackers [] k x = refl
  lookup-stop_trackers (id ∷ ids) k (m, w) =
      lookup-stop_trackers ids k (stop_tracker H id shutdown_join_timeout none (m, w)).1
      ∙ (rw (sessions-stop_tracker H id shutdown_join_timeout none m w)
          (rw (lookup-erase id k m.tracker_sessions) (ground arith)))

  stop_robots-manager : (ids : List String) (x : ManagerState H) → (stop_robots H ids x).0 ≡ x.0
  unfolding stop_robots
  stop_robots-manager [] x = refl
  stop_robots-manager (id ∷ ids) (m, w) = stop_robots-manager ids (m, (H.stop id w).1)

  no_session_left :
      (m : Manager) (w : World) (k : String)
      → lookup k (stop_trackers H (keys m.tracker_sessions) (m, w)).0.tracker_sessions ≡ none
  no_session_left m w k =
      lookup-stop_trackers (keys m.tracker_sessions) k (m, w)
      ∙ ground (arith, lookup_not_key k m.tracker_sessions)

  -- The shutdown leaves no session registered, whatever the stops raise.
  pub sessions-shutdown : (m : Manager) (w : World) → (shutdown H (m, w)).0.tracker_sessions ≡ []
  unfolding shutdown
  sessions-shutdown m w = empty_of_lookup _ (λ k.
      subst (λ x. lookup k x.tracker_sessions ≡ none)
        (sym
          (stop_robots-manager (keys m.robots) (stop_trackers H (keys m.tracker_sessions) (m, w))))
        (no_session_left m w k))

  history-stop_trackers :
      (ids : List String) (x : ManagerState H)
      → length x.0.finished_statuses ≤ finished_status_history
      → length (stop_trackers H ids x).0.finished_statuses ≤ finished_status_history
  unfolding stop_trackers
  history-stop_trackers [] x h = h
  history-stop_trackers (id ∷ ids) (m, w) h =
      history-stop_trackers ids (stop_tracker H id shutdown_join_timeout none (m, w)).1
        (history-stop_tracker H id shutdown_join_timeout none m w h)

  pub history-shutdown :
      (m : Manager) (w : World)
      → length m.finished_statuses ≤ finished_status_history
      → length (shutdown H (m, w)).0.finished_statuses ≤ finished_status_history
  unfolding shutdown
  history-shutdown m w h =
      subst (λ x. length x.finished_statuses ≤ finished_status_history)
        (sym
          (stop_robots-manager (keys m.robots) (stop_trackers H (keys m.tracker_sessions) (m, w))))
        (history-stop_trackers (keys m.tracker_sessions) (m, w) h)
