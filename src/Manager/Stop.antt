-- ===== src/Manager/Stop.antt =====
-- What a tracker's stop and the shutdown leave of the manager (zmq_server.py).
use zero_franky.Base.{
  ◌≤◌, String, ◌<>◌, ◌≡◌, refl, ◌∙◌, sym, subst, true, Option, none, some, length, arith, ◌==◌,
  eq_iff, eq_refl, Option-cases, inl, inr, if◌then◌else◌, ◌⊎◌,
}
use zero_franky.Base.Dict.{lookup, insert, erase, lookup-erase, erase_absent}
use zero_franky.Python.Errors.{Exc, Result, ok, raise, error, key_error}
use zero_franky.Python.Values.{Value}
use zero_franky.Python.Attributes.{FloatOps}
use zero_franky.Session.Hardware.{Hardware}
use zero_franky.Session.State.{Session, status, stop}
use zero_franky.Session.Stop.{stop-Keeps}
use zero_franky.Manager.State.{
  Manager, ManagerState, finished_status_history, remember_finished, stop_session, stop_motion_of,
  stop_tracker, tracker_status, found,
}
use zero_franky.Manager.History.{length-evict, lookup-evict-insert}
use zero_franky.Builders.Build.{build_franky_motion}

module _ ⦃ops : FloatOps⦄ (H : Hardware) where
  open H use {World}

  -- Stopping a session that is not there, because it never was or is stopped already, succeeds and
  -- changes neither the manager nor the world.
  pub stop_tracker_absent :
      (id : String) (t : Value) (p : Option Value) (m : Manager) (w : World)
      → lookup id m.tracker_sessions ≡ none
      → stop_tracker H id t p (m, w) ≡ (ok true, (m, w))
  unfolding stop_tracker
  stop_tracker_absent id t p m w h = rw (stop_tracker, h) refl

  abbrev pub without : String → Manager → Manager
  without id m = record m { tracker_sessions = erase id m.tracker_sessions }

  stop_tracker_raised :
      (id : String) (t : Value) (p : Option Value) (m : Manager) (w : World) (s : Session) (e : Exc)
      → lookup id m.tracker_sessions ≡ some s
      → stop_motion_of H p ≡ raise e
      → stop_tracker H id t p (m, w) ≡ (raise e, (without id m, w))
  unfolding stop_tracker
  stop_tracker_raised id t p m w s e h k = rw (stop_tracker, h) (rw (k) refl)

  unknown_without :
      (id : String) (m : Manager) (w : World)
      → lookup id m.finished_statuses ≡ none
      → (tracker_status H id (without id m, w)).0
        ≡ error key_error ("Unknown tracker session id: " <> id)
  unfolding tracker_status found
  unknown_without id m w fresh =
      rw (tracker_status, lookup-erase id id m.tracker_sessions) (rw (eq_refl id) (rw fresh refl))

  -- The stop of a session with a stop motion that cannot be built raises, and the session is gone: the
  -- world, with the tracker's motion in it, is left as it was, and the session's id, if it has no finished
  -- status, is unknown from then on.
  pub stop_tracker_unbuilt :
      (id : String) (t : Value) (p : Value) (m : Manager) (w : World) (s : Session) (e : Exc)
      → lookup id m.tracker_sessions ≡ some s
      → lookup id m.finished_statuses ≡ none
      → build_franky_motion H.franky p ≡ raise e
      → (stop_tracker H id t (some p) (m, w) ≡ (raise e, (without id m, w)))
        × ((tracker_status H id (without id m, w)).0
            ≡ error key_error ("Unknown tracker session id: " <> id))
  unfolding stop_motion_of
  stop_tracker_unbuilt id t p m w s e h fresh k = (
    stop_tracker_raised id t (some p) m w s e h (rw (stop_motion_of, k) refl),
    unknown_without id m w fresh,
  )

  stop_tracker_built :
      (id : String) (t : Value) (p q : Option Value) (m : Manager) (w : World) (s : Session)
      → lookup id m.tracker_sessions ≡ some s
      → stop_motion_of H p ≡ ok q
      → stop_tracker H id t p (m, w) ≡ stop_session H s t q (without id m, w)
  unfolding stop_tracker
  stop_tracker_built id t p q m w s h k = rw (stop_tracker, h) (rw (k) refl)

  -- The manager after the stop of a session: the session is gone and its last status remembered.
  manager-stop_session :
      (s : Session) (t : Value) (q : Option Value) (m : Manager) (w : World)
      → (stop_session H s t q (m, w)).1
        ≡ remember_finished H (stop H t q (s, w)).1.0 (m, (stop H t q (s, w)).1.1)
  unfolding stop_session
  manager-stop_session s t q m w = refl

  stop_motion-cases :
      (p : Option Value)
      → ((e : Exc) × (stop_motion_of H p ≡ raise e))
        ⊎ ((q : Option Value) × (stop_motion_of H p ≡ ok q))
  stop_motion-cases p = result_cases (stop_motion_of H p)
    where
      result_cases :
          (r : Result (Option Value))
          → ((e : Exc) × (r ≡ raise e)) ⊎ ((q : Option Value) × (r ≡ ok q))
      result_cases (raise e) = inl (e, refl)
      result_cases (ok q) = inr (q, refl)

  -- Every stop, whether it returns or raises, comes to one of three: there is no such session, its stop
  -- motion cannot be built, or the session is stopped.
  stop_tracker-cases :
      (P : ManagerState H → Type 0) (id : String) (t : Value) (p : Option Value) (m : Manager)
      (w : World)
      → (lookup id m.tracker_sessions ≡ none → P (m, w))
      → ((s : Session) → lookup id m.tracker_sessions ≡ some s → P (without id m, w))
      → ((s : Session) (q : Option Value)
          → lookup id m.tracker_sessions ≡ some s
          → P (remember_finished H (stop H t q (s, w)).1.0 (without id m, (stop H t q (s, w)).1.1)))
      → P (stop_tracker H id t p (m, w)).1
  stop_tracker-cases P id t p m w absent unbuilt finished =
      elim (Option-cases (lookup id m.tracker_sessions)) [
        | inl h ↦ subst (λ x. P x.1) (sym (stop_tracker_absent id t p m w h)) (absent h)
        | inr (s, h) ↦ elim (stop_motion-cases p) [
          | inl (e, k) ↦
              subst (λ x. P x.1) (sym (stop_tracker_raised id t p m w s e h k)) (unbuilt s h)
          | inr (q, k) ↦
              subst (λ x. P x.1) (sym (stop_tracker_built id t p q m w s h k))
                (subst P (sym (manager-stop_session s t q (without id m) w)) (finished s q h))
        ]
      ]

  -- Whatever a stop does or raises, the sessions left are those with another id.
  pub sessions-stop_tracker :
      (id : String) (t : Value) (p : Option Value) (m : Manager) (w : World)
      → (stop_tracker H id t p (m, w)).1.0.tracker_sessions ≡ erase id m.tracker_sessions
  unfolding remember_finished
  sessions-stop_tracker id t p m w =
      stop_tracker-cases (λ x. x.0.tracker_sessions ≡ erase id m.tracker_sessions) id t p m w
        (λ h. sym (erase_absent id m.tracker_sessions h)) (λ s h. refl) (λ s q h. refl)

  length-remember_finished :
      (s : Session) (x : ManagerState H)
      → length (remember_finished H s x).0.finished_statuses ≤ finished_status_history
  unfolding remember_finished
  length-remember_finished s (m, w) =
      length-evict (insert s.id (status H (s, w)) m.finished_statuses)

  -- The history stays bounded.
  pub history-stop_tracker :
      (id : String) (t : Value) (p : Option Value) (m : Manager) (w : World)
      → length m.finished_statuses ≤ finished_status_history
      → length (stop_tracker H id t p (m, w)).1.0.finished_statuses ≤ finished_status_history
  history-stop_tracker id t p m w short =
      stop_tracker-cases (λ x. length x.0.finished_statuses ≤ finished_status_history) id t p m w
        (λ h. short) (λ s h. short) (λ s q h. length-remember_finished _ _)

  -- The robots and their last states are not touched.
  pub robots-stop_tracker :
      (id : String) (t : Value) (p : Option Value) (m : Manager) (w : World)
      → ((stop_tracker H id t p (m, w)).1.0.robots ≡ m.robots)
        × ((stop_tracker H id t p (m, w)).1.0.latest_state ≡ m.latest_state)
  unfolding remember_finished
  robots-stop_tracker id t p m w =
      stop_tracker-cases (λ x. (x.0.robots ≡ m.robots) × (x.0.latest_state ≡ m.latest_state)) id t p
        m w (λ h. (refl, refl)) (λ s h. (refl, refl)) (λ s q h. (refl, refl))

  status_of_finished :
      (s : Session) (x : ManagerState H)
      → lookup s.id x.0.tracker_sessions ≡ none
      → lookup s.id x.0.finished_statuses ≡ none
      → (tracker_status H s.id (remember_finished H s x)).0 ≡ ok (status H (s, x.1))
  unfolding tracker_status remember_finished found
  status_of_finished s (m, w) gone fresh =
      rw (tracker_status, remember_finished, gone)
        (rw (lookup-evict-insert s.id (status H (s, w)) m.finished_statuses fresh) refl)

  status_of_remembered :
      (id : String) (s : Session) (x : ManagerState H)
      → s.id ≡ id
      → lookup id x.0.tracker_sessions ≡ none
      → lookup id x.0.finished_statuses ≡ none
      → (tracker_status H id (remember_finished H s x)).0 ≡ ok (status H (s, x.1))
  status_of_remembered id s x same =
      subst
        (λ i.
          lookup i x.0.tracker_sessions ≡ none
          → lookup i x.0.finished_statuses ≡ none
          → (tracker_status H i (remember_finished H s x)).0 ≡ ok (status H (s, x.1)))
        same (status_of_finished s x)

  lookup-without : (id : String) (m : Manager) → lookup id (without id m).tracker_sessions ≡ none
  lookup-without id m = rw (lookup-erase id id m.tracker_sessions) (ground (arith, eq_iff id id))

  -- After the stop, without a stop motion of its own, of a session that stands under its own id and has
  -- no finished status yet, also after a stop that raised, the id answers with the status that the
  -- session had once it was stopped.
  pub tracker_status-stop_tracker :
      (id : String) (t : Value) (m : Manager) (w : World) (s : Session)
      → lookup id m.tracker_sessions ≡ some s
      → s.id ≡ id
      → lookup id m.finished_statuses ≡ none
      → (tracker_status H id (stop_tracker H id t none (m, w)).1).0
        ≡ ok (status H (stop H t none (s, w)).1)
  unfolding stop_motion_of
  tracker_status-stop_tracker id t m w s h same fresh =
      subst (λ x. (tracker_status H id x.1).0 ≡ ok (status H (stop H t none (s, w)).1))
        (sym (stop_tracker_built id t none none m w s h refl))
        (subst (λ x. (tracker_status H id x).0 ≡ ok (status H (stop H t none (s, w)).1))
          (sym (manager-stop_session s t none (without id m) w))
          (status_of_remembered id _ _ ((stop-Keeps H t none s w).id ∙ same) (lookup-without id m)
            fresh))

  -- After the stop of a session, whether it returns or raises, its id is not found, and every other id is
  -- found as before.
  pub lookup-stop_tracker :
      (id other : String) (t : Value) (p : Option Value) (m : Manager) (w : World)
      → lookup other (stop_tracker H id t p (m, w)).1.0.tracker_sessions
        ≡ (if id == other then none else lookup other m.tracker_sessions)
  lookup-stop_tracker id other t p m w =
      rw (sessions-stop_tracker id t p m w) (lookup-erase id other m.tracker_sessions)

  -- A second stop of a session, with whatever arguments, succeeds and changes nothing more.
  pub stop_tracker_twice :
      (id : String) (t u : Value) (p q : Option Value) (m : Manager) (w : World)
      → stop_tracker H id u q (stop_tracker H id t p (m, w)).1
        ≡ (ok true, (stop_tracker H id t p (m, w)).1)
  stop_tracker_twice id t u p q m w =
      stop_tracker_absent id u q _ _
        (lookup-stop_tracker id id t p m w ∙ ground (arith, eq_iff id id))
