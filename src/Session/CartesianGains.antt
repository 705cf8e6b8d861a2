-- ===== src/Session/CartesianGains.antt =====
-- The Cartesian gains of a running session (tracker_session.py).
use zero_franky.Base.{
  ◌≡◌, refl, sym, subst, Bool, true, false, Option, none, some, [], ◌∷◌, if◌then◌else◌, String,
}
use zero_franky.Python.Errors.{ok}
use zero_franky.Python.Values.{Value, Fields, null, dict, lookup}
use zero_franky.Python.Attributes.{FloatOps, get, get_or, is_none}
use zero_franky.Python.Exec.{Exec, pure, lift, ◌>>=◌}
use zero_franky.Builders.Gains.{franky_cartesian_gains}
use zero_franky.Session.Hardware.{Hardware}
use zero_franky.Session.State.{Session}
use zero_franky.Session.Merge.{Numpy, gain_keys, names_nothing, merged}

module _ ⦃ops : FloatOps⦄ (N : Numpy) (H : Hardware) where
  open H use {World}

  -- A full payload replaces the gains; the motion's own are read only for a merge.
  unfoldable pub full_or_merged : Value → Exec World Value → Value → Exec World (Option Value)
  unfolding is_none merged
  full_or_merged stiffness read_current payload w =
      if is_none stiffness
      then (do
        current ← read_current
        gains ← lift (merged N H.franky payload current)
        pure (some gains))
          w
      else (lift (franky_cartesian_gains H.franky payload) >>= λ gains. pure (some gains)) w

  unfoldable pub resolved : Exec World Value → Value → Bool → Exec World (Option Value)
  unfolding get full_or_merged
  resolved read_current payload true = pure none
  resolved read_current payload false = do
    stiffness ← lift (get payload "stiffness" null)
    full_or_merged stiffness read_current payload

  -- `_resolve_cartesian_gains`
  unfoldable pub resolve_cartesian_gains : Exec World Value → Value → Exec World (Option Value)
  unfolding resolved names_nothing
  resolve_cartesian_gains read_current payload = do
    nothing ← lift (names_nothing payload gain_keys)
    resolved read_current payload nothing

  -- `if gains is not None: set(gains)`
  unfoldable pub set_resolved : Session → String → Option Value → Exec World Value
  set_resolved s name none = pure null
  set_resolved s name (some gains) = H.motion_call s.motion name (gains ∷ [])

  unfoldable pub set_cartesian_gains : Session → Value → Exec World Value
  unfolding resolve_cartesian_gains set_resolved
  set_cartesian_gains s payload =
      resolve_cartesian_gains (H.motion_call s.motion "get_gains" []) payload
      >>= set_resolved s "set_gains"

  unfoldable pub set_hybrid_cartesian_gains : Session → Value → Exec World Value
  unfolding resolve_cartesian_gains set_resolved
  set_hybrid_cartesian_gains s payload =
      resolve_cartesian_gains (H.motion_call s.motion "get_cartesian_gains" []) payload
      >>= set_resolved s "set_cartesian_gains"

  -- A payload that names no gain changes nothing: the motion is neither read nor set, on either kind of
  -- session.
  pub set_cartesian_gains_unnamed :
      (s : Session) (payload : Value) (w : World)
      → names_nothing payload gain_keys ≡ ok true
      → (set_cartesian_gains s payload w ≡ (ok null, w))
        × (set_hybrid_cartesian_gains s payload w ≡ (ok null, w))
  unfolding set_cartesian_gains set_hybrid_cartesian_gains resolve_cartesian_gains resolved
      set_resolved
  set_cartesian_gains_unnamed s payload w h = (rw h refl, rw h refl)

  stiffness_named :
      (d : Fields) (stiffness : Value)
      → lookup "stiffness" d ≡ some stiffness
      → is_none stiffness ≡ false
      → names_nothing (dict d) gain_keys ≡ ok false
  unfolding names_nothing get get_or
  stiffness_named d stiffness h k = rw h (rw k refl)

  resolved_full :
      (read_current : Exec World Value) (d : Fields) (stiffness gains : Value) (w : World)
      → lookup "stiffness" d ≡ some stiffness
      → is_none stiffness ≡ false
      → franky_cartesian_gains H.franky (dict d) ≡ ok gains
      → resolved read_current (dict d) false w ≡ (ok (some gains), w)
  unfolding resolved full_or_merged get get_or
  resolved_full read_current d stiffness gains w h k g = rw h (
      subst
        (λ b.
          (if b
            then (read_current >>= λ current.
                  lift (merged N H.franky (dict d) current) >>= λ gains. pure (some gains))
                w
            else (lift (franky_cartesian_gains H.franky (dict d)) >>= λ gains. pure (some gains)) w)
          ≡ (ok (some gains), w))
        (sym k) (rw g refl))

  resolve_full :
      (read_current : Exec World Value) (d : Fields) (stiffness gains : Value) (w : World)
      → lookup "stiffness" d ≡ some stiffness
      → is_none stiffness ≡ false
      → franky_cartesian_gains H.franky (dict d) ≡ ok gains
      → resolve_cartesian_gains read_current (dict d) w ≡ (ok (some gains), w)
  unfolding resolve_cartesian_gains
  resolve_full read_current d stiffness gains w h k g =
      rw (stiffness_named d stiffness h k) (resolved_full read_current d stiffness gains w h k g)

  -- A payload with a stiffness replaces the gains: the motion's own are not read, and what is set is what
  -- the builder makes of the payload.
  pub set_cartesian_gains_replaced :
      (s : Session) (d : Fields) (stiffness gains : Value) (w : World)
      → lookup "stiffness" d ≡ some stiffness
      → is_none stiffness ≡ false
      → franky_cartesian_gains H.franky (dict d) ≡ ok gains
      → (set_cartesian_gains s (dict d) w ≡ H.motion_call s.motion "set_gains" (gains ∷ []) w)
        × (set_hybrid_cartesian_gains s (dict d) w
            ≡ H.motion_call s.motion "set_cartesian_gains" (gains ∷ []) w)
  unfolding set_cartesian_gains set_hybrid_cartesian_gains set_resolved
  set_cartesian_gains_replaced s d stiffness gains w h k g = (
    rw (resolve_full (H.motion_call s.motion "get_gains" []) d stiffness gains w h k g) refl,
    rw (resolve_full (H.motion_call s.motion "get_cartesian_gains" []) d stiffness gains w h k g)
        refl,
  )
