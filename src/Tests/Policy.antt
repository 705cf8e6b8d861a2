-- ===== src/Tests/Policy.antt =====
-- The policy loop at policies that stop or raise at their first step.
use zero_franky.Base.{◌≡◌, ◌<>◌, refl, true, false, none, some}
use zero_franky.Python.Errors.{value_error}
use zero_franky.Python.Values.{Value, null}
use zero_franky.Python.Exec.{Exec, pure, fail}
use zero_franky.Rpc.Codec.{class_name}
use zero_franky.Session.Hardware.{Hardware}
use zero_franky.Session.State.{Session, has_policy, SessionState, new_session}
use zero_franky.Session.Run.{PolicyRun, min_dt, body, run_policy, run_policy_raised}
use zero_franky.Tests.World.{counting_floats, robots, start_log}

abbrev arm : Hardware
arm = robots none

abbrev policy_of : Exec (SessionState arm) Value → PolicyRun (SessionState arm) arm.World
policy_of step = record {
  make = pure none;
  started_at = min_dt;
  text = λ e. e.message;
  step = λ dt elapsed iterations. step;
  now = λ w. (min_dt, w);
  wait = λ t w. (false, w);
}

abbrev driven : Session
driven = new_session "s" "torque" "arm" (some null) null null true

abbrev failing : PolicyRun (SessionState arm) arm.World
failing = policy_of (fail (record { cls = value_error; message = "no reference" }))

run_policy_raised_example :
    ((run_policy arm failing none 1 (driven, start_log)).1.0.failure
      ≡ some (class_name value_error <> ": " <> "no reference"))
    × (true ≡ true → (run_policy arm failing none 1 (driven, start_log)).1.0.stop_event ≡ true)
unfolding has_policy new_session body
run_policy_raised_example =
    run_policy_raised arm failing none 1 driven driven start_log start_log
      (record { cls = value_error; message = "no reference" }) refl refl
