-- ===== src/Session/Run.antt =====
-- The loop of a policy (`_run_policy` of tracker_session.py).
use zero_franky.Base.{
  String, ℕ, zero, suc, ◌<>◌, ◌≡◌, refl, Bool, true, false, not, ◌&&◌, ◌||◌, Option, none, some,
  eqb, arith, ap, sym, subst, ◌∙◌, if◌then◌else◌,
}
use zero_franky.Python.Errors.{Exc, Result, ok, raise}
use zero_franky.Python.Values.{Float, Value}
use zero_franky.Python.Attributes.{FloatOps}
use zero_franky.Python.Exec.{Exec, pure, ◌>>=◌, ◌>>◌, catch}
use zero_franky.Rpc.Codec.{class_name}
use zero_franky.Session.Hardware.{Hardware}
use zero_franky.Session.State.{
  Session, SessionState, request_stop, has_policy, enqueue_stop_motion, issue_stop, default_stop,
}
use zero_franky.Session.Policy.{apply_reference, request_stop-Keeps}

-- `_MIN_DT`, 1e-9
abbrev pub min_dt : Float
min_dt = record { bits = 0x3e112e0be826d695 }

-- What the loop uses of a policy and of time. `make` calls the policy's factory with the context: `none` is
-- a step function, and a reference is applied at once. `step` calls the policy with the timestep, the time
-- since the context was made and the count of iterations in the context; the context's handle lets both
-- change the session. `now` is `time.monotonic()`, and `wait` waits for the stop event, for a time at most,
-- and tells whether another thread has set it. `text` is `str(exc)`, which quotes a KeyError's argument.
pub record PolicyRun (State World : Type 0) : Type 0 where
  pub make : Exec State (Option Value)
  pub started_at : Float
  pub text : Exc → String
  pub step : Float → Float → ℕ → Exec State Value
  pub now : World → Float × World
  pub wait : Float → World → Bool × World

-- The loop's own variables
pub record Timing : Type 0 where
  pub next_time : Float
  pub t_last : Float

module _ ⦃ops : FloatOps⦄ (H : Hardware) (P : PolicyRun (SessionState H) H.World)
    (period : Option Float) where
  open H use {World}

  -- The loop's state: the session with the world, and the loop's variables
  abbrev pub RunState : Type 0
  RunState = Timing × SessionState H

  abbrev on_session : {A : Type 0} → Exec (SessionState H) A → Exec RunState A
  on_session m (t, x) = ((m x).0, (t, (m x).1))

  -- The timestep of a step: the first one is the period, without the floor.
  unfoldable pub step_dt : ℕ → Float → Float → Float
  step_dt iterations now t_last =
      if eqb iterations 0
      then elim period [ none ↦ min_dt | some p ↦ p ]
      else let elapsed = ops.sub now t_last in if ops.lt elapsed min_dt then min_dt else elapsed

  unfoldable pub counted : SessionState H → SessionState H
  counted (s, w) = (record s { iterations = suc s.iterations }, w)

  -- The wait to the next boundary; an overrun sets it to now.
  unfoldable pub pace : RunState → RunState
  pace (t, (s, w)) = elim period [
    | none ↦ (t, (s, w))
    | some p ↦
        let next : Float = ops.add t.next_time p in
        let (now, w') = P.now w in
        let (stopped, v) = P.wait (ops.sub next now) w' in
        let (later, u) = P.now w' in
        if ops.lt (record { bits = 0 }) (ops.sub next now)
        then (record t { next_time = next }, (record s { stop_event = s.stop_event || stopped }, v))
        else (record t { next_time = later }, (s, u))
  ]

  unfoldable pub stepped : Exec RunState Value
  unfolding step_dt
  stepped (t, (s, w)) =
      let (now, w') = P.now w in
      let (r, y) =
        P.step (step_dt s.iterations now t.t_last) (ops.sub now P.started_at) s.iterations
          (s, w') in
      (r, (record t { t_last = now }, y))

  abbrev change : (RunState → RunState) → Exec RunState Unit
  change f x = (ok tt, f x)

  -- One turn of the loop
  unfoldable pub turn : Exec RunState Unit
  unfolding stepped apply_reference counted pace
  turn = do
    reference ← stepped
    on_session (apply_reference H reference)
    change (λ (t, x). (t, counted x))
    change pace

  -- `not self._stop_event.is_set() and self._in_control`
  unfoldable pub goes_on : RunState → Bool
  goes_on (t, (s, w)) = not s.stop_event && H.in_control s.robot w

  abbrev when : Bool → Exec RunState Bool → Exec RunState Bool
  when true m = m
  when false m = pure true

  -- The loop, for a number of turns: whether it has ended
  unfoldable pub loop : ℕ → Exec RunState Bool
  unfolding turn goes_on
  loop zero x = (ok (not (goes_on x)), x)
  loop (suc n) x = let rest = loop n in when (goes_on x) (turn >> rest) x

  -- The start of the run: the factory's result, and the clock's first reading
  unfoldable pub begun : Option Value → Exec (SessionState H) Unit
  unfolding apply_reference
  begun none = pure tt
  begun (some reference) = apply_reference H reference

  unfoldable pub looping : ℕ → Exec (SessionState H) Bool
  unfolding loop
  looping n (s, w) =
      let (start, w') = P.now w in
      let (r, (t, x)) = loop n (record { next_time = start; t_last = start }, (s, w')) in (r, x)

  unfoldable pub body : ℕ → Exec (SessionState H) Bool
  unfolding begun looping
  body n = P.make >>= λ candidate. begun candidate >> looping n

  unfoldable pub ramped : Bool → Exec (SessionState H) Bool
  unfolding request_stop
  ramped true = request_stop H >> pure true
  ramped false = pure true

  -- What is done with an exception: it is kept as the session's error, and the tracker is ramped down.
  unfoldable pub policy_failed : Exc → Exec (SessionState H) Bool
  unfolding ramped class_name
  policy_failed e (s, w) =
      ramped s.stop_on_policy_error
        (record s { failure = some (class_name e.cls <> ": " <> P.text e) }, w)

  abbrev if_policy : Bool → Exec (SessionState H) Bool → Exec (SessionState H) Bool
  if_policy true m = m
  if_policy false m = pure true

  -- `_run_policy`, for a number of turns
  unfoldable pub run_policy : ℕ → Exec (SessionState H) Bool
  unfolding body policy_failed has_policy
  run_policy n x = if_policy (has_policy x.0.policy) (catch (body n) policy_failed) x

  request_stop-failure : (s : Session) (w : World) → (request_stop H (s, w)).1.0.failure ≡ s.failure
  unfolding request_stop enqueue_stop_motion issue_stop default_stop
  request_stop-failure s w = ground arith

  -- A stop that is requested, and an answer after it
  answered :
      (r : Result (Unit {0})) (x y : SessionState H)
      → (((λ (u : SessionState H). (r, x)) >> pure true) y).1 ≡ x
  answered (ok u) x y = refl
  answered (raise e) x y = refl

  state-ramped : (x : SessionState H) → (ramped true x).1 ≡ (request_stop H x).1
  unfolding ramped
  state-ramped x = answered (request_stop H x).0 (request_stop H x).1 x

  ramped-failure : (b : Bool) (s : Session) (w : World) → (ramped b (s, w)).1.0.failure ≡ s.failure
  unfolding ramped
  ramped-failure true s w =
      ap (λ (x : SessionState H). x.0.failure) (state-ramped (s, w)) ∙ request_stop-failure s w
  ramped-failure false s w = refl

  ramped-stop_event :
      (b : Bool) (s : Session) (w : World) → b ≡ true → (ramped b (s, w)).1.0.stop_event ≡ true
  ramped-stop_event true s w h =
      ap (λ (x : SessionState H). x.0.stop_event) (state-ramped (s, w))
      ∙ (request_stop-Keeps H s w).stop_event
  ramped-stop_event false s w h = ground (arith, h)

  -- A policy whose factory or whose step raises does not end its thread without a trace: the exception is
  -- the session's error, and if the session stops on policy errors, then its stop event is set, whatever
  -- the robot does.
  pub run_policy_raised :
      (n : ℕ) (s s' : Session) (w w' : World) (e : Exc)
      → has_policy s.policy ≡ true
      → body n (s, w) ≡ (raise e, (s', w'))
      → ((run_policy n (s, w)).1.0.failure ≡ some (class_name e.cls <> ": " <> P.text e))
        × (s'.stop_on_policy_error ≡ true → (run_policy n (s, w)).1.0.stop_event ≡ true)
  unfolding run_policy policy_failed
  run_policy_raised n s s' w w' e k h =
      subst
        (λ b.
          ((if_policy b (catch (body n) policy_failed) (s, w)).1.0.failure
            ≡ some (class_name e.cls <> ": " <> P.text e))
          × (s'.stop_on_policy_error ≡ true
              → (if_policy b (catch (body n) policy_failed) (s, w)).1.0.stop_event ≡ true))
        (sym k)
        (rw h (
          ramped-failure s'.stop_on_policy_error _ w',
          ramped-stop_event s'.stop_on_policy_error _ w',
        ))
