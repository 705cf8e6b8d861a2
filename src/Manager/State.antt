-- ===== src/Manager/State.antt =====
-- The manager's state, its lookups, the stop of a tracker and the shutdown (zmq_server.py).
use zero_franky.Base.{
  ℕ, String, ◌<>◌, Bool, true, Option, none, some, List, [], ◌∷◌, length, leb, if◌then◌else◌,
}
use zero_franky.Base.Dict.{Dict, lookup, insert, erase, keys}
use zero_franky.Python.Errors.{key_error, Result, ok, raise, error}
use zero_franky.Python.Values.{Value, float}
use zero_franky.Python.Attributes.{FloatOps}
use zero_franky.Python.Exec.{Exec, lift, ◌>>=◌}
use zero_franky.Builders.Build.{build_franky_motion}
use zero_franky.Session.Hardware.{Hardware}
use zero_franky.Session.State.{Session, Status, status, stop as stop_session_object}

-- `FINISHED_STATUS_HISTORY` and `SHUTDOWN_JOIN_TIMEOUT` (5.0)
abbrev pub finished_status_history : ℕ
finished_status_history = 32

abbrev pub shutdown_join_timeout : Value
shutdown_join_timeout = float (record { bits = 0x4014000000000000 })

-- `_robots` is the list of the ids, each robot being the hardware's.
pub record Manager : Type 0 where
  pub robots : Dict (Unit {0})
  pub latest_state : Dict Value
  pub tracker_sessions : Dict Session
  pub finished_statuses : Dict Status

abbrev pub init : Manager
init = record { robots = []; latest_state = []; tracker_sessions = []; finished_statuses = [] }

-- `self._finished_statuses.pop(next(iter(self._finished_statuses)))` while there are too many
unfoldable pub evict : Dict Status → Dict Status
evict [] = []
evict (entry ∷ rest) =
    let kept = evict rest in
    if leb (length (entry ∷ rest)) finished_status_history then entry ∷ rest else kept

-- The value under a key, or a KeyError that names it.
unfoldable pub found {ℓ} : {V : Type ℓ} → Option V → String → String → Result V
found (some v) what key = ok v
found none what key = error key_error (what <> key)

abbrev stopped : Result (Unit {0}) → Result Bool
stopped (ok u) = ok true
stopped (raise e) = raise e

abbrev built : Result Value → Result (Option Value)
built (ok m) = ok (some m)
built (raise e) = raise e

module _ (H : Hardware) where
  open H use {World}

  abbrev pub ManagerState : Type 0
  ManagerState = Manager × World

  abbrev pub on_world : {A : Type 0} → Exec World A → Exec ManagerState A
  on_world m (s, w) = ((m w).0, (s, (m w).1))

  -- `_robot`: the robot's id, once it is known
  unfoldable pub robot : String → Exec ManagerState String
  robot robot_id (m, w) = elim (lookup robot_id m.robots) [
    | some _ ↦ (ok robot_id, (m, w))
    | none ↦ (error key_error ("Unknown robot id: " <> robot_id), (m, w))
  ]

  -- `_tracker_session`
  unfoldable pub tracker_session : String → Exec ManagerState Session
  unfolding found
  tracker_session session_id (m, w) = (
    found (lookup session_id m.tracker_sessions) "Unknown tracker session id: " session_id,
    (m, w),
  )

  -- `tracker_status`
  unfoldable pub tracker_status : String → Exec ManagerState Status
  unfolding found
  tracker_status session_id (m, w) = elim (lookup session_id m.tracker_sessions) [
    | some s ↦ (ok (status H (s, w)), (m, w))
    | none ↦ (
      found (lookup session_id m.finished_statuses) "Unknown tracker session id: " session_id,
      (m, w),
    )
  ]

  -- `_remember_finished`
  unfoldable pub remember_finished : Session → ManagerState → ManagerState
  unfolding evict
  remember_finished s (m, w) = (
    record m { finished_statuses = evict (insert s.id (status H (s, w)) m.finished_statuses) },
    w,
  )

  -- The session's stop inside the manager: what it leaves of the session is remembered, whether it
  -- returns or raises.
  unfoldable pub stop_session : Session → Value → Option Value → Exec ManagerState Bool
  unfolding remember_finished
  stop_session s join_timeout stop_motion (m, w) =
      let (r, (s', w')) = stop_session_object H join_timeout stop_motion (s, w) in
      (stopped r, remember_finished s' (m, w'))

  module _ ⦃ops : FloatOps⦄ where
    -- `build_franky_motion(self._franky, payload)` if there is a payload
    unfoldable pub stop_motion_of : Option Value → Result (Option Value)
    stop_motion_of none = ok none
    stop_motion_of (some payload) = built (build_franky_motion H.franky payload)

    -- `stop_tracker`: the session is taken out first, then its stop motion is built.
    unfoldable pub stop_tracker : String → Value → Option Value → Exec ManagerState Bool
    unfolding stop_motion_of
    stop_tracker session_id join_timeout payload (m, w) =
        elim (lookup session_id m.tracker_sessions) [
          | none ↦ (ok true, (m, w))
          | some s ↦
              let m' : Manager = record m {
                tracker_sessions = erase session_id m.tracker_sessions;
              } in
              (lift (stop_motion_of payload) >>= stop_session s join_timeout) (m', w)
        ]

    -- The two loops of `shutdown`, over the ids that are there when each begins; what a stop raises is
    -- dropped.
    unfoldable pub stop_trackers : List String → ManagerState → ManagerState
    stop_trackers [] st = st
    stop_trackers (id ∷ ids) st =
        stop_trackers ids (stop_tracker id shutdown_join_timeout none st).1

  unfoldable pub stop_robots : List String → ManagerState → ManagerState
  stop_robots [] st = st
  stop_robots (id ∷ ids) (m, w) = stop_robots ids (m, (H.stop id w).1)

  module _ ⦃ops : FloatOps⦄ where
    unfoldable pub shutdown : ManagerState → ManagerState
    unfolding stop_trackers stop_robots
    shutdown (m, w) =
        let st = stop_trackers (keys m.tracker_sessions) (m, w) in stop_robots (keys m.robots) st
