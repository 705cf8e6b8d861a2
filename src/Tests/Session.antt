-- ===== src/Tests/Session.antt =====
-- The session's theorems at robots in control and idle.
use zero_franky.Base.{String, ◌≡◌, refl, true, false, none, some}
use zero_franky.Python.Errors.{ok}
use zero_franky.Python.Values.{Value, null, bool, dict, object, end, Fields, field}
use zero_franky.Python.Exec.{◌>>◌}
use zero_franky.Session.State.{Session, new_session, status, stop, enqueue_stop_motion}
use zero_franky.Session.Stop.{Keeps, stop-Keeps, running-stop, enqueue_stop_motion_once}
use zero_franky.Python.Attributes.{get_or, truthy}
use zero_franky.Session.Policy.{asks_stop, apply_reference, apply_reference-session}
use zero_franky.Tests.World.{robots, start_log}

abbrev passthrough : String → Session
passthrough robot = new_session "s" "torque" robot none null null true

abbrev ramp : Value
ramp = object "TorqueStopMotion" end

stop-Keeps_example :
    Keeps
      (robots none)
      (record (passthrough "arm") { stop_event = true })
      (stop (robots none) null none (passthrough "arm", start_log)).1.0
stop-Keeps_example = stop-Keeps (robots none) null none (passthrough "arm") start_log

running-stop_example :
    (status (robots none) (stop (robots none) null none (passthrough "arm", start_log)).1).running
    ≡ false
unfolding new_session
running-stop_example = running-stop (robots none) null none (passthrough "arm") start_log refl

enqueue_stop_motion_once_example :
    ((enqueue_stop_motion (robots (some (ok ramp))) none
          >> enqueue_stop_motion (robots (some (ok ramp))) none)
        (passthrough "arm", start_log)
      ≡ enqueue_stop_motion (robots (some (ok ramp))) none (passthrough "arm", start_log))
    × ((enqueue_stop_motion (robots (some (ok ramp))) none (passthrough "arm", start_log)).1 ≡ (
      record (passthrough "arm") { stop_enqueued = true },
      ((robots (some (ok ramp))).move "arm" ramp true start_log).1,
    ))
unfolding new_session
enqueue_stop_motion_once_example =
    enqueue_stop_motion_once (robots (some (ok ramp))) (passthrough "arm") start_log ramp refl refl
      refl

-- One command reaches the robot.
one_command :
    (enqueue_stop_motion (robots (some (ok ramp))) none (passthrough "arm", start_log)).1.1.commands
    ≡ 1
unfolding enqueue_stop_motion new_session
one_command = refl

abbrev stop_fields : Fields
stop_fields = field "stop" (bool true) end

apply_reference-session_example :
    (apply_reference
      (robots none)
      (dict (field "position" null end))
      (passthrough "arm", start_log)).1.0
    ≡ passthrough "arm"
unfolding asks_stop get_or truthy
apply_reference-session_example =
    apply_reference-session (robots none) (dict (field "position" null end)) (passthrough "arm")
      start_log refl
