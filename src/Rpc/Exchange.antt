-- ===== src/Rpc/Exchange.antt =====
-- A client's call that a server answers (zmq_client.py and robotiq.py on zmq_server.py and robotiq.py).
use zero_franky.Base.{ℕ, String, ◌<>◌, ◌≡◌, refl, ap, ◌∙◌, Option, none, some, eq_refl}
use zero_franky.Python.Errors.{Exc, Result, ok, raise, error, rpc_error}
use zero_franky.Python.Values.{Value, str}
use zero_franky.Python.Attributes.{get, get_or, truthy}
use zero_franky.Python.Exec.{Exec, lift, ◌>>=◌}
use zero_franky.Rpc.Codec.{Codec, Survives, format_exception}
use zero_franky.Rpc.Server.{respond, serve_once, respond_raised, respond_returned, success, failure}
use zero_franky.Rpc.Outcome.{or_empty, request_of, outcome, is_text, result_of, shown}
use zero_franky.Rpc.Client.{
  Link, Socket, round_trip, asked, guarded, call, call_gripper, set_receive_timeout,
  restore_timeout, set_option, option_set,
}

-- A socket between two calls
abbrev pub idle : ℕ → Socket
idle n = record { timeout_ms = n; receive_timeout_ms = n }

-- A result that is computed after a method leaves the method's state.
state_after :
    {A B T : Type 0} (m : Exec T A) (f : A → Result B) (x : T)
    → ((m >>= λ a. lift (f a)) x).1 ≡ (m x).1
state_after {A} {B} {T} m f x = go (m x).0 (m x).1
  where
    go : (r : Result A) (t : T) → (((λ (u : T). (r, t)) >>= λ a. lift (f a)) x).1 ≡ t
    go (ok a) t = refl
    go (raise e) t = refl

module _ {S : Type 0} (L : Link S) where
  guarded-socket :
      (timeout : Option ℕ) (request : Value) (n : ℕ) (s : S)
      → ((t : S) → L.refuses t ≡ none)
      → (guarded L timeout request (idle n, s)).1.0 ≡ idle n
  unfolding guarded set_receive_timeout restore_timeout set_option option_set
  guarded-socket none request n s takes = refl
  guarded-socket (some t) request n s takes = rw (takes s) (rw (takes (asked L t request s).1) refl)

  -- After each call on a socket that takes its options, whatever the call returns or raises, the socket's
  -- receive timeout is the client's again.
  pub call-socket :
      (name : String) (params : Value) (timeout : Option ℕ) (n : ℕ) (s : S)
      → ((t : S) → L.refuses t ≡ none)
      → (call L name params timeout (idle n, s)).1.0 ≡ idle n
  unfolding call
  call-socket name params timeout n s takes =
      ap (λ x. x.0)
        (state_after (guarded L timeout (request_of (L.fresh s).0 name params))
          (outcome (L.fresh s).0 name) (idle n, (L.fresh s).1))
      ∙ guarded-socket timeout (request_of (L.fresh s).0 name params) n (L.fresh s).1 takes

-- The caller gets what the method returns, or an RpcError with what it raises.
abbrev pub relayed : {S : Type 0} → String → Result Value × S → Result Value × S
relayed name (ok v, s) = (ok v, s)
relayed name (raise e, s) = (error rpc_error ("'" <> name <> "' failed: " <> format_exception e), s)

-- The server's response to the request with an id, by what its method comes to
abbrev pub answer : String → Result Value → Value
answer id (ok v) = success (str id) v
answer id (raise e) = failure (str id) e

abbrev pub with_socket : {S : Type 0} → ℕ → Result Value × S → Result Value × (Socket × S)
with_socket n (r, s) = (r, (idle n, s))

-- The timeout that a call is under
unfoldable pub effective : ℕ → Option ℕ → ℕ
effective n none = n
effective n (some t) = t

module _ {S : Type 0} (C : Codec) (fresh : S → String × S)
    (dispatch : Value → Value → Exec S Value) where
  -- The socket where a server answers in time
  abbrev pub served : Link S
  served = record {
    codec = C;
    fresh = fresh;
    refuses = λ x. none;
    exchange = λ timeout. serve_once dispatch C;
  }

  asked-respond :
      (n : ℕ) (request response : Value) (s t : S)
      → Survives C request
      → Survives C response
      → respond dispatch request s ≡ (ok response, t)
      → asked served n request s ≡ (ok response, t)
  unfolding asked round_trip serve_once
  asked-respond n request response s t sent received h =
      rw sent.packs (rw sent.unpacks (rw h (rw received.packs (rw received.unpacks refl))))

  outcome_returned : (id name : String) (v : Value) → outcome id name (success (str id) v) ≡ ok v
  unfolding outcome is_text result_of get get_or truthy
  outcome_returned id name v = rw (eq_refl id) refl

  outcome_raised :
      (id name : String) (e : Exc)
      → outcome id name (failure (str id) e)
        ≡ error rpc_error ("'" <> name <> "' failed: " <> format_exception e)
  unfolding outcome is_text result_of get get_or truthy shown
  outcome_raised id name e = rw (eq_refl id) refl

  outcome-success :
      (m : Exec S Value) (id name : String) (v : Value) (s t : S)
      → m s ≡ (ok (success (str id) v), t)
      → (m >>= λ response. lift (outcome id name response)) s ≡ (ok v, t)
  outcome-success m id name v s t h = rw h (rw (outcome_returned id name v) refl)

  outcome-failure :
      (m : Exec S Value) (id name : String) (e : Exc) (s t : S)
      → m s ≡ (ok (failure (str id) e), t)
      → (m >>= λ response. lift (outcome id name response)) s ≡ relayed name (raise e, t)
  outcome-failure m id name e s t h = rw h (rw (outcome_raised id name e) refl)

  asked_returned :
      (n : ℕ) (id name : String) (params v : Value) (s t : S)
      → Survives C (request_of id name params)
      → dispatch (str name) (or_empty params) s ≡ (ok v, t)
      → Survives C (answer id (ok v))
      → asked served n (request_of id name params) s ≡ (ok (success (str id) v), t)
  unfolding request_of get_or
  asked_returned n id name params v s t sent h received =
      asked-respond n (request_of id name params) (success (str id) v) s t sent received
        (respond_returned dispatch _ (str name) v (str id) s t refl h refl)

  asked_raised :
      (n : ℕ) (id name : String) (params : Value) (e : Exc) (s t : S)
      → Survives C (request_of id name params)
      → dispatch (str name) (or_empty params) s ≡ (raise e, t)
      → Survives C (answer id (raise e))
      → asked served n (request_of id name params) s ≡ (ok (failure (str id) e), t)
  unfolding request_of get_or
  asked_raised n id name params e s t sent h received =
      asked-respond n (request_of id name params) (failure (str id) e) s t sent received
        (respond_raised dispatch _ (str name) e s t refl h)

  pub call_gripper-relayed :
      (n : ℕ) (name : String) (params : Value) (s : S) (p : Result Value × S)
      → Survives C (request_of (fresh s).0 name params)
      → dispatch (str name) (or_empty params) (fresh s).1 ≡ p
      → Survives C (answer (fresh s).0 p.0)
      → call_gripper served n name params s ≡ relayed name p
  unfolding call_gripper
  call_gripper-relayed n name params s (ok v, t) sent h received =
      outcome-success (asked served n (request_of (fresh s).0 name params)) (fresh s).0 name v
        (fresh s).1 t (asked_returned n (fresh s).0 name params v (fresh s).1 t sent h received)
  call_gripper-relayed n name params s (raise e, t) sent h received =
      outcome-failure (asked served n (request_of (fresh s).0 name params)) (fresh s).0 name e
        (fresh s).1 t (asked_raised n (fresh s).0 name params e (fresh s).1 t sent h received)

  guarded-asked :
      (timeout : Option ℕ) (n : ℕ) (request : Value) (s : S) (p : Result Value × S)
      → asked served (effective n timeout) request s ≡ p
      → guarded served timeout request (idle n, s) ≡ with_socket n p
  unfolding guarded effective set_receive_timeout restore_timeout set_option option_set
  guarded-asked none n request s (r, t) h = rw h refl
  guarded-asked (some t) n request s (r, u) h = rw h refl

  -- A call that a server answers in time, whose request and whose response msgpack carries, comes to what
  -- the method comes to on the server: the caller gets what it returns, or an RpcError with what it raises,
  -- the server's state is the one that it leaves, and the socket has its own timeout again.
  pub call-relayed :
      (timeout : Option ℕ) (n : ℕ) (name : String) (params : Value) (s : S) (p : Result Value × S)
      → Survives C (request_of (fresh s).0 name params)
      → dispatch (str name) (or_empty params) (fresh s).1 ≡ p
      → Survives C (answer (fresh s).0 p.0)
      → call served name params timeout (idle n, s) ≡ with_socket n (relayed name p)
  unfolding call
  call-relayed timeout n name params s (ok v, t) sent h received =
      let (id, s') = fresh s in
      rw
        (guarded-asked timeout n (request_of id name params) s' (ok (success (str id) v), t)
          (asked_returned (effective n timeout) id name params v s' t sent h received))
        (rw (outcome_returned id name v) refl)
  call-relayed timeout n name params s (raise e, t) sent h received =
      let (id, s') = fresh s in
      rw
        (guarded-asked timeout n (request_of id name params) s' (ok (failure (str id) e), t)
          (asked_raised (effective n timeout) id name params e s' t sent h received))
        (rw (outcome_raised id name e) refl)
