-- ===== src/Tests/Manager.antt =====
-- The manager's theorems at a session on an idle robot.
use zero_franky.Base.{◌≡◌, refl, true, none, some, [], ◌∷◌}
use zero_franky.Base.Dict.{lookup, insert}
use zero_franky.Python.Errors.{Exc, key_error, runtime_error, ok, raise, error}
use zero_franky.Python.Values.{null, dict, end, object}
use zero_franky.Python.Attributes.{at_key}
use zero_franky.Builders.Build.{build_franky_motion}
use zero_franky.Builders.Options.{franky_motion_kwargs}
use zero_franky.Session.State.{Session, new_session, status, stop}
use zero_franky.Manager.State.{Manager, init, stop_tracker, tracker_status, shutdown, evict, robot}
use zero_franky.Manager.Trackers.{
  joint_tracker, kind_of, motion_class, begin_tracker, policy_of, set_initial_reference,
  start_tracker,
}
use zero_franky.Manager.History.{lookup-evict-insert}
use zero_franky.Manager.Stop.{
  without, stop_tracker_unbuilt, tracker_status-stop_tracker, stop_tracker_twice,
}
use zero_franky.Manager.Shutdown.{sessions-shutdown}
use zero_franky.Manager.Starts.{Entered, start_tracker-Entered}
use zero_franky.Manager.Runs.{IsConsistent, starts_up, step_on, stops, Reachable-IsConsistent}
use zero_franky.Tests.World.{robots, start_log, Log, counting_floats}

abbrev a_session : Session
a_session = new_session "a" "torque" "idle" none null null true

abbrev b_session : Session
b_session = new_session "b" "torque" "arm" none null null true

abbrev two_sessions : Manager
two_sessions = record {
  robots = ("idle", tt) ∷ ("arm", tt) ∷ [];
  latest_state = [];
  tracker_sessions = ("a", a_session) ∷ ("b", b_session) ∷ [];
  finished_statuses = [];
}

tracker_status-stop_tracker_example :
    (tracker_status
      (robots none)
      "a"
      (stop_tracker (robots none) "a" null none (two_sessions, start_log)).1).0
    ≡ ok (status (robots none) (stop (robots none) null none (a_session, start_log)).1)
unfolding new_session lookup
tracker_status-stop_tracker_example =
    tracker_status-stop_tracker (robots none) "a" null two_sessions start_log a_session refl refl
      refl

stop_tracker_twice_example :
    stop_tracker
      (robots none)
      "b"
      null
      none
      (stop_tracker (robots none) "b" null none (two_sessions, start_log)).1
    ≡ (ok true, (stop_tracker (robots none) "b" null none (two_sessions, start_log)).1)
stop_tracker_twice_example =
    stop_tracker_twice (robots none) "b" null null none none two_sessions start_log

abbrev no_type : Exc
no_type = record { cls = key_error; message = "type" }

stop_tracker_unbuilt_example :
    (stop_tracker (robots none) "b" null (some (dict end)) (two_sessions, start_log)
      ≡ (raise no_type, (without (robots none) "b" two_sessions, start_log)))
    × ((tracker_status (robots none) "b" (without (robots none) "b" two_sessions, start_log)).0
        ≡ error key_error "Unknown tracker session id: b")
unfolding lookup build_franky_motion at_key
stop_tracker_unbuilt_example =
    stop_tracker_unbuilt (robots none) "b" null (dict end) two_sessions start_log b_session no_type
      refl refl refl

sessions-shutdown_example :
    (shutdown (robots none) (two_sessions, start_log)).0.tracker_sessions ≡ []
sessions-shutdown_example = sessions-shutdown (robots none) two_sessions start_log

Reachable-IsConsistent_example :
    IsConsistent (stop_tracker (robots none) "a" null none (init, start_log)).1.0
Reachable-IsConsistent_example =
    Reachable-IsConsistent (robots none)
      (stop_tracker (robots none) "a" null none (init, start_log)).1
      (step_on _ _ (starts_up start_log) (stops "a" null none (init, start_log)))

lookup-evict-insert_example :
    lookup "a" (evict (insert "a" (status (robots none) (a_session, start_log)) []))
    ≡ some (status (robots none) (a_session, start_log))
unfolding lookup
lookup-evict-insert_example =
    lookup-evict-insert "a" (status (robots none) (a_session, start_log)) [] refl

abbrev no_policy : Exc
no_policy = record { cls = runtime_error; message = "no such policy" }

abbrev moved : Log
moved = record { commands = 1; ids = 0 }

start_tracker-Entered_example :
    Entered
      (robots none)
      "joint"
      "arm"
      (object "JointImpedanceTrackingMotion" end)
      null
      true
      none
      (two_sessions, moved)
      (start_tracker
        (robots none)
        joint_tracker
        "arm"
        none
        null
        null
        true
        (two_sessions, start_log))
unfolding begin_tracker robot franky_motion_kwargs set_initial_reference motion_class policy_of
    lookup kind_of
start_tracker-Entered_example =
    start_tracker-Entered (robots none) joint_tracker "arm" none none null null true two_sessions
      two_sessions start_log moved (object "JointImpedanceTrackingMotion" end) refl refl
