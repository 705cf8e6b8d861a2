-- ===== src/Rpc/Failures.antt =====
-- What a call raises (zmq_client.py).
use zero_franky.Base.{
  ℕ, String, ◌≡◌, refl, Bool, false, Option, none, some, ◌||◌, inl, inr, ◌⊎◌, arith,
}
use zero_franky.Python.Errors.{Exc, Result, ok, raise}
use zero_franky.Python.Values.{
  Value, null, bool, int, float, str, bytes, list, dict, object, method,
}
use zero_franky.Python.Attributes.{get}
use zero_franky.Python.Exec.{Exec, catch, fail, lift, ◌>>=◌}
use zero_franky.Rpc.Outcome.{request_of, outcome, result_of}
use zero_franky.Rpc.Client.{
  Link, Socket, is_again, is_zmq_error, zmq_failure, round_trip, asked, guarded, call,
  set_receive_timeout, restore_timeout, set_option, option_set,
}

-- Whether an exception of zmq is raised
unfoldable pub raises_zmq : Result Value → Bool
unfolding is_again is_zmq_error
raises_zmq (ok v) = false
raises_zmq (raise e) = is_again e.cls || is_zmq_error e.cls

raises_zmq-zmq_failure : (e : Exc) → raises_zmq (raise (zmq_failure e)) ≡ false
unfolding raises_zmq zmq_failure is_again is_zmq_error
raises_zmq-zmq_failure e = ground arith

raises_zmq-outcome :
    (id name : String) (response : Value) → raises_zmq (outcome id name response) ≡ false
unfolding raises_zmq outcome get result_of is_again is_zmq_error
raises_zmq-outcome id name (dict d) = ground arith
raises_zmq-outcome id name null = refl
raises_zmq-outcome id name (bool b) = refl
raises_zmq-outcome id name (int n) = refl
raises_zmq-outcome id name (float x) = refl
raises_zmq-outcome id name (str s) = refl
raises_zmq-outcome id name (bytes b) = refl
raises_zmq-outcome id name (list xs) = refl
raises_zmq-outcome id name (object c attrs) = refl
raises_zmq-outcome id name (method v) = refl

raises_zmq-then :
    {T : Type 0} (m : Exec T Value) (f : Value → Result Value) (x : T)
    → ((v : Value) → raises_zmq (f v) ≡ false)
    → raises_zmq (m x).0 ≡ false
    → raises_zmq ((m >>= λ v. lift (f v)) x).0 ≡ false
unfolding raises_zmq
raises_zmq-then {T} m f x hf = go (m x).0 (m x).1
  where
    go :
        (r : Result Value) (t : T)
        → raises_zmq r ≡ false
        → raises_zmq (((λ (u : T). (r, t)) >>= λ v. lift (f v)) x).0 ≡ false
    go (ok v) t h = hf v
    go (raise e) t h = h

module _ {S : Type 0} (L : Link S) where
  raises_zmq-asked : (n : ℕ) (request : Value) (s : S) → raises_zmq (asked L n request s).0 ≡ false
  unfolding asked raises_zmq
  raises_zmq-asked n request s = go (round_trip L n request s).0 (round_trip L n request s).1
    where
      go :
          (r : Result Value) (t : S)
          → raises_zmq (catch (λ (u : S). (r, t)) (λ e. fail (zmq_failure e)) s).0 ≡ false
      go (ok v) t = refl
      go (raise e) t = raises_zmq-zmq_failure e

  raises_zmq-guarded :
      (timeout : Option ℕ) (request : Value) (k : Socket) (s : S)
      → (timeout ≡ none) ⊎ ((t : S) → L.refuses t ≡ none)
      → raises_zmq (guarded L timeout request (k, s)).0 ≡ false
  unfolding guarded set_receive_timeout restore_timeout set_option option_set
  raises_zmq-guarded none request k s h = raises_zmq-asked k.receive_timeout_ms request s
  raises_zmq-guarded (some t) request k s (inl h) = ground (arith, h)
  raises_zmq-guarded (some t) request k s (inr takes) =
      rw (takes s) (rw (takes (asked L t request s).1) (raises_zmq-asked t request s))

  -- No exception of zmq leaves a call that has no timeout of its own, nor one on a socket that takes its
  -- options: a lost request is a TimeoutError, a failed one a ConnectionError.
  pub raises_zmq-call :
      (name : String) (params : Value) (timeout : Option ℕ) (k : Socket) (s : S)
      → (timeout ≡ none) ⊎ ((t : S) → L.refuses t ≡ none)
      → raises_zmq (call L name params timeout (k, s)).0 ≡ false
  unfolding call
  raises_zmq-call name params timeout k s h =
      raises_zmq-then (guarded L timeout (request_of (L.fresh s).0 name params))
        (outcome (L.fresh s).0 name) (k, (L.fresh s).1) (raises_zmq-outcome (L.fresh s).0 name)
        (raises_zmq-guarded timeout (request_of (L.fresh s).0 name params) k (L.fresh s).1 h)
