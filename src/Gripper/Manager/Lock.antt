-- ===== src/Gripper/Manager/Lock.antt =====
-- What the gripper's commands leave of the manager's own state (robotiq.py).
use zero_franky.Base.{◌≡◌, refl, Bool, true, false, ap, sym, ◌∙◌}
use zero_franky.Python.Errors.{Result, ok, raise}
use zero_franky.Python.Values.{Value, null}
use zero_franky.Python.Exec.{Exec, pure, catch, ◌>>◌}
use zero_franky.Python.Exec.Keeps.{Moves, Moves-bind}
use zero_franky.Gripper.Device.{Device}
use zero_franky.Gripper.Manager.State.{
  Gripper, GripperState, published, publish_state, with_lock, broadcast, commanded, reading,
  on_device,
}

-- None where a result is returned
abbrev pub returning : Result Value → Result Value
returning (ok v) = ok null
returning (raise e) = raise e

module _ (D : Device) where
  open D use {World}

  -- A method that finds the lock free leaves the manager as it was, with the lock free again.
  abbrev pub Restores : GripperState D → GripperState D → Type 0
  Restores x y = x.0.locked ≡ false → y.0 ≡ x.0

  freed : (g : Gripper) → g.locked ≡ false → (record g { locked = false }) ≡ g
  freed g h = ap (λ b. record g { locked = b }) (sym h)

  abbrev Same : GripperState D → GripperState D → Type 0
  Same x y = y.0 ≡ x.0

  Same-trans : (x y z : GripperState D) → Same x y → Same y z → Same x z
  Same-trans x y z h k = k ∙ h

  Restores-with_lock :
      (m : Exec (GripperState D) Value) → Moves Same m → Moves Restores (with_lock D m)
  unfolding with_lock
  Restores-with_lock m hm (g, w) h =
      ap (λ (k : Gripper). record k { locked = false }) (hm (record g { locked = true }, w))
      ∙ freed g h

  published-Same : (b : Bool) → Moves Same (published D b)
  unfolding published
  published-Same false x = refl
  published-Same true (g, w) = go (broadcast D w).0 (broadcast D w).1
    where
      go :
          (r : Result Value) (v : World)
          → (catch (on_device D (λ (u : World). (r, v)) >> pure null) (λ e. pure null) (g, w)).1.0
            ≡ g
      go (ok a) v = refl
      go (raise e) v = refl

  result-published : (b : Bool) (x : GripperState D) → (published D b x).0 ≡ ok null
  unfolding published
  result-published false x = refl
  result-published true (g, w) = go (broadcast D w).0 (broadcast D w).1
    where
      go :
          (r : Result Value) (v : World)
          → (catch (on_device D (λ (u : World). (r, v)) >> pure null) (λ e. pure null) (g, w)).0
            ≡ ok null
      go (ok a) v = refl
      go (raise e) v = refl

  pub Restores-reading : (m : Exec World Value) → Moves Restores (reading D m)
  unfolding reading
  Restores-reading m = Restores-with_lock (on_device D m) (λ x. refl)

  pub Restores-commanded : (m : Exec World Value) → Moves Restores (commanded D m)
  unfolding commanded publish_state
  Restores-commanded m = Restores-with_lock (on_device D m >> publish_state D) (
      Moves-bind Same Same-trans (on_device D m) (λ _. publish_state D) (λ x. refl)
        (λ _ x. published-Same x.0.has_publisher x))

  pub Restores-publish : Moves Restores (with_lock D (publish_state D))
  unfolding publish_state
  Restores-publish = Restores-with_lock (publish_state D) (λ x. published-Same x.0.has_publisher x)

  pub Restores-silent :
      (m : Exec (GripperState D) Value) → Moves Restores m → Moves Restores (m >> pure null)
  Restores-silent m h =
      Moves-bind Restores (λ x y z f g free. g (ap (λ k. k.locked) (f free) ∙ free) ∙ f free) m
        (λ _. pure null) h (λ _ x free. refl)

  -- A command returns None where the device's method returns, whatever becomes of the broadcast after it,
  -- and raises what the method raises.
  pub result-commanded :
      (m : Exec World Value) (g : Gripper) (w : World)
      → (commanded D m (g, w)).0 ≡ returning (m w).0
  unfolding commanded with_lock publish_state
  result-commanded m g w = go (m w).0
    where
      go :
          (r : Result Value)
          → (with_lock D
              ((λ (x : GripperState D). (r, (x.0, (m w).1))) >> publish_state D)
              (g, w)).0
            ≡ returning r
      go (ok v) = result-published g.has_publisher (record g { locked = true }, (m w).1)
      go (raise e) = refl
