-- ===== src/Gripper/Runs.antt =====
-- Runs of the gripper's server: requests, ticks of the polling thread, and its start and end (robotiq.py).
use zero_franky.Base.{◌≡◌, refl, Bool, true, false, subst, sym, arith, if◌then◌else◌}
use zero_franky.Python.Errors.{ok}
use zero_franky.Python.Values.{Float, Value, null}
use zero_franky.Python.Attributes.{FloatOps}
use zero_franky.Gripper.Device.{Device}
use zero_franky.Gripper.Manager.State.{
  Gripper, GripperState, new_gripper, with_lock, publish_state, reading,
}
use zero_franky.Gripper.Manager.Lock.{Restores, Restores-publish, Restores-reading, Restores-silent}
use zero_franky.Gripper.Manager.Poll.{poll_tick, start_polling, stop_polling, disconnect}
use zero_franky.Gripper.Server.{dispatch}
use zero_franky.Gripper.Keeps.{dispatch-Restores}

module _ ⦃ops : FloatOps⦄ (D : Device) where
  open D use {World}

  -- One step at a time: the lock lets no tick into a command. In between, the device may change.
  pub data Step : GripperState D → GripperState D → Type 0 where
    requested : (name params : Value) (x : GripperState D) → Step x (dispatch D name params x).1
    ticked : (x : GripperState D) → Step x (poll_tick D x).1
    polled : (rate_hz : Float) (x : GripperState D) → Step x (start_polling D rate_hz x)
    disconnected : (x : GripperState D) → Step x (disconnect D x).1
    moved : (g : Gripper) (v w : World) → Step (g, v) (g, w)

  pub data Reachable : GripperState D → Type 0 where
    new : (publisher : Bool) (w : World) → Reachable (new_gripper publisher, w)
    next : {x y : GripperState D} → Reachable x → Step x y → Reachable y

  -- The lock is free, and a polling thread has a publisher and has not been told to end.
  abbrev pub IsTidy : Gripper → Type 0
  IsTidy g =
      (g.locked ≡ false)
      × (g.has_poll_thread ≡ true → (g.has_publisher ≡ true) × (g.poll_stop ≡ false))

  restored : (x y : GripperState D) → Restores D x y → IsTidy x.0 → IsTidy y.0
  restored x y h tidy = subst IsTidy (sym (h tidy.0)) tidy

  tick-Restores : (x : GripperState D) → Restores D x (poll_tick D x).1
  unfolding poll_tick
  tick-Restores (g, w) h =
      subst (λ b. (if b then (ok null, (g, w)) else with_lock D (publish_state D) (g, w)).1.0 ≡ g)
        (sym h) (Restores-publish D (g, w) h)

  start_polling-IsTidy :
      (rate_hz : Float) (x : GripperState D) → IsTidy x.0 → IsTidy (start_polling D rate_hz x).0
  unfolding start_polling
  start_polling-IsTidy rate_hz (g, w) (free, polls) = ground arith

  stop_polling-IsTidy : (x : GripperState D) → IsTidy x.0 → IsTidy (stop_polling D x).0
  unfolding stop_polling
  stop_polling-IsTidy (g, w) (free, polls) = ground arith

  disconnect-IsTidy : (x : GripperState D) → IsTidy x.0 → IsTidy (disconnect D x).1.0
  unfolding disconnect
  disconnect-IsTidy x tidy =
      restored (stop_polling D x) (disconnect D x).1
        (Restores-silent D (reading D D.disconnect) (Restores-reading D D.disconnect)
          (stop_polling D x))
        (stop_polling-IsTidy x tidy)

  step-IsTidy : {x y : GripperState D} → Step x y → IsTidy x.0 → IsTidy y.0
  step-IsTidy (requested name params x) tidy =
      restored x (dispatch D name params x).1 (dispatch-Restores D name params x) tidy
  step-IsTidy (ticked x) tidy = restored x (poll_tick D x).1 (tick-Restores x) tidy
  step-IsTidy (polled rate_hz x) tidy = start_polling-IsTidy rate_hz x tidy
  step-IsTidy (disconnected x) tidy = disconnect-IsTidy x tidy
  step-IsTidy (moved g v w) tidy = tidy

  -- After any run of requests, ticks, starts of the polling and disconnections, in any order and whatever
  -- they raise, the manager's lock is free, and if it has a polling thread, then it has a publisher and the
  -- thread has not been told to end.
  pub Reachable-IsTidy : (x : GripperState D) → Reachable x → IsTidy x.0
  Reachable-IsTidy _ (new publisher w) = (refl, λ h. ground (arith, h))
  Reachable-IsTidy _ (next {x} {y} run step) = step-IsTidy step (Reachable-IsTidy x run)
