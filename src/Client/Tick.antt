-- ===== src/Client/Tick.antt =====
-- The pacing of a client's loop (`_TrackerProxy.tick` in zmq_client.py).
use zero_franky.Base.{
  ℕ, suc, ◌≡◌, refl, Bool, true, false, Option, none, some, eqb, Bool-cases, inl, inr, sym, subst,
  if◌then◌else◌,
}
use zero_franky.Python.Errors.{Result, ok, raise}
use zero_franky.Python.Values.{Float}
use zero_franky.Python.Attributes.{FloatOps}
use zero_franky.Python.Exec.{Exec, pure, ◌>>=◌}

-- `_MIN_DT`, 1e-9, and `_PROBE_INTERVAL`, 1.0
abbrev pub min_dt : Float
min_dt = record { bits = 0x3e112e0be826d695 }

abbrev pub probe_interval : Float
probe_interval = record { bits = 0x3ff0000000000000 }

abbrev pub zero_seconds : Float
zero_seconds = record { bits = 0 }

-- What `tick` reads and writes of the proxy. `snapshot` is the version of the state that was seen last.
pub record Pace : Type 0 where
  pub period : Option Float
  pub t_next : Float
  pub t_last : Float
  pub tick_count : ℕ
  pub dt : Float
  pub stopped : Bool
  pub in_control_seen : Bool
  pub probed_at : Float
  pub snapshot : ℕ
  pub snapshot_at : Float

-- The proxy's surroundings: `time.perf_counter()`, `time.sleep`, the newest state of the stream with its
-- version and its "in_control" (`none` where there is no state), the start of the stream, which raises
-- the error that the stream stored, and the request `is_running`.
pub record Surroundings : Type 1 where
  pub World : Type 0
  pub clock : World → Float × World
  pub sleep : Float → World → World
  pub check_stream : Exec World Unit
  pub latest : World → ℕ × Option Bool
  pub is_running : Exec World Bool

module _ ⦃ops : FloatOps⦄ where
  -- Python's `max(x, low)`
  unfoldable pub max_with : Float → Float → Float
  max_with low x = if ops.lt x low then low else x

  module _ (E : Surroundings) where
    open E use {World}

    abbrev pub PaceState : Type 0
    PaceState = Pace × World

    -- The wait for the next boundary: `first` is a first tick, which does not sleep.
    unfoldable pub wait_next : Bool → Float → PaceState → PaceState
    wait_next first period (p, w) =
        let (now, w') = E.clock w in
        let remaining : Float = ops.sub p.t_next now in
        let (later, v) = E.clock w' in
        if first
        then (record p { t_next = ops.add now period }, w')
        else if ops.lt zero_seconds remaining
        then (record p { t_next = ops.add p.t_next period }, E.sleep remaining w')
        else (record p { t_next = ops.add later period }, v)

    unfoldable pub paced : PaceState → PaceState
    unfolding wait_next
    paced (p, w) = elim p.period [
      | none ↦ (p, w)
      | some period ↦ wait_next (eqb p.tick_count 0) period (p, w)
    ]

    -- The request that asks the server, once in a probe interval
    unfoldable pub probe : Float → Exec PaceState Bool
    probe now (p, w) =
        let asked = E.is_running w in
        if ops.lt (ops.sub now p.probed_at) probe_interval
        then (ok true, (p, w))
        else (asked.0, (record p { probed_at = now }, asked.1))

    -- A newer state than the one seen, taken note of
    unfoldable pub note_state : Float → ℕ → Pace → Pace
    note_state now version p =
        if eqb version p.snapshot then p else record p { snapshot = version; snapshot_at = now }

    unfoldable pub judge : Float → Option Bool → Exec PaceState Bool
    unfolding probe
    judge now (some true) (p, w) =
        let seen : Pace = record p { in_control_seen = true } in
        if ops.lt (ops.sub now p.snapshot_at) probe_interval
        then (ok true, (seen, w))
        else probe now (seen, w)
    judge now (some false) (p, w) =
        if p.in_control_seen then (ok false, (p, w)) else probe now (p, w)
    judge now none x = probe now x

    -- `_still_in_control`
    unfoldable pub still_in_control : Exec PaceState Bool
    unfolding judge note_state
    still_in_control (p, w) =
        let (now, w') = E.clock w in
        let (version, in_control) = E.latest w' in
        judge now in_control (note_state now version p, w')

    unfoldable pub first_timestep : Option Float → Float
    unfolding max_with
    first_timestep none = min_dt
    first_timestep (some period) = max_with min_dt period

    -- The timestep: the period at first, the time since the last tick after that, and never below the floor
    unfoldable pub timestep : Float → Pace → Float
    unfolding max_with first_timestep
    timestep now p =
        if eqb p.tick_count 0
        then first_timestep p.period
        else max_with min_dt (ops.sub now p.t_last)

    unfoldable pub advance : Bool → Exec PaceState (Option Float)
    unfolding timestep
    advance false (p, w) = (ok none, (record p { stopped = true }, w))
    advance true (p, w) =
        let (now, w') = E.clock w in
        let dt = timestep now p in
        (ok (some dt), (record p { dt = dt; t_last = now; tick_count = suc p.tick_count }, w'))

    unfoldable pub checked : Result (Unit {0}) → Exec PaceState (Option Float)
    unfolding paced still_in_control advance
    checked (raise e) x = (raise e, x)
    checked (ok u) x = (still_in_control >>= advance) (paced x)

    -- `tick`: the stream is started, and what it stored as its error is raised.
    unfoldable pub ticking : Bool → Exec PaceState (Option Float)
    unfolding checked
    ticking true x = pure none x
    ticking false (p, w) = checked (E.check_stream w).0 (p, (E.check_stream w).1)

    unfoldable pub tick : Exec PaceState (Option Float)
    unfolding ticking
    tick x = ticking x.0.stopped x

    max_with-lt :
        (x : Float) → ops.lt min_dt min_dt ≡ false → ops.lt (max_with min_dt x) min_dt ≡ false
    unfolding max_with
    max_with-lt x h = elim (Bool-cases (ops.lt x min_dt)) [
      | inl below ↦ rw below h
      | inr above ↦ rw above above
    ]

    first_timestep-lt :
        (period : Option Float)
        → ops.lt min_dt min_dt ≡ false
        → ops.lt (first_timestep period) min_dt ≡ false
    unfolding first_timestep
    first_timestep-lt none h = h
    first_timestep-lt (some period) h = max_with-lt period h

    timestep-lt :
        (now : Float) (p : Pace)
        → ops.lt min_dt min_dt ≡ false
        → ops.lt (timestep now p) min_dt ≡ false
    unfolding timestep
    timestep-lt now p h = go (eqb p.tick_count 0)
      where
        go :
            (b : Bool)
            → ops.lt
                (if b then first_timestep p.period else max_with min_dt (ops.sub now p.t_last))
                min_dt
              ≡ false
        go true = first_timestep-lt p.period h
        go false = max_with-lt (ops.sub now p.t_last) h

    -- What a tick returns, and what it leaves of the proxy: a timestep that is no less than the floor, or
    -- None with the proxy stopped.
    abbrev Sound : Result (Option Float) × PaceState → Type 0
    Sound (ok (some dt), x) = (ops.lt dt min_dt ≡ false) × (x.0.dt ≡ dt)
    Sound (ok none, x) = x.0.stopped ≡ true
    Sound (raise e, x) = Unit

    advance-Sound :
        (r : Result Bool) (x z : PaceState)
        → ops.lt min_dt min_dt ≡ false
        → Sound (((λ (u : PaceState). (r, x)) >>= advance) z)
    unfolding advance
    advance-Sound (ok true) (p, w) z h = (timestep-lt (E.clock w).0 p h, refl)
    advance-Sound (ok false) (p, w) z h = refl
    advance-Sound (raise e) x z h = tt

    checked-Sound :
        (r : Result (Unit {0})) (p : Pace) (w : World)
        → ops.lt min_dt min_dt ≡ false
        → Sound (checked r (p, w))
    unfolding checked
    checked-Sound (ok u) p w h =
        advance-Sound (still_in_control (paced (p, w))).0 (still_in_control (paced (p, w))).1
          (paced (p, w)) h
    checked-Sound (raise e) p w h = tt

    ticking-Sound :
        (b : Bool) (x : PaceState)
        → x.0.stopped ≡ b
        → ops.lt min_dt min_dt ≡ false
        → Sound (ticking b x)
    unfolding ticking
    ticking-Sound true x s h = s
    ticking-Sound false (p, w) s h = checked-Sound (E.check_stream w).0 p (E.check_stream w).1 h

    tick-Sound : (x : PaceState) → ops.lt min_dt min_dt ≡ false → Sound (tick x)
    unfolding tick
    tick-Sound x h = ticking-Sound x.0.stopped x refl h

    -- The timestep of a tick is not below the floor, whatever the clock does, and is the one that `dt` then
    -- shows, if the comparison of doubles does not hold between the floor and itself.
    pub tick-dt :
        (x y : PaceState) (dt : Float)
        → ops.lt min_dt min_dt ≡ false
        → tick x ≡ (ok (some dt), y)
        → (ops.lt dt min_dt ≡ false) × (y.0.dt ≡ dt)
    tick-dt x y dt h e = subst Sound e (tick-Sound x h)

    -- A loop over ticks ends for good: after a tick that returned None, each tick returns None and changes
    -- nothing, and asks neither the stream nor the server.
    pub tick_ended :
        (x y : PaceState)
        → ops.lt min_dt min_dt ≡ false
        → tick x ≡ (ok none, y)
        → tick y ≡ (ok none, y)
    unfolding tick ticking
    tick_ended x y h e =
        subst (λ b. ticking b y ≡ (ok none, y)) (sym (subst Sound e (tick-Sound x h))) refl
