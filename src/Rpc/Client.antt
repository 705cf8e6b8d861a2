-- ===== src/Rpc/Client.antt =====
-- The client's side of a request: ZmqRpcClient (zmq_client.py) and _ZmqRpcClient (robotiq.py).
use zero_franky.Base.{ℕ, String, Bool, false, Option, none, some, ◌==◌, ◌||◌, if◌then◌else◌}
use zero_franky.Python.Errors.{Exc, ExcClass, ok, raise, other, timeout_error, connection_error}
use zero_franky.Python.Values.{Value}
use zero_franky.Python.Exec.{Exec, pure, catch, fail, lift, gets, finally, ◌>>=◌, ◌>>◌}
use zero_franky.Rpc.Codec.{Codec}
use zero_franky.Rpc.Outcome.{request_of, outcome}

-- The REQ socket: `exchange` sends and receives under a timeout; it may raise zmq's exceptions. `fresh`
-- draws a request's id. `refuses` tells whether the socket refuses an option, as it does once it is closed.
pub record Link (S : Type 0) : Type 1 where
  pub codec : Codec
  pub fresh : S → String × S
  pub refuses : S → Option Exc
  pub exchange : ℕ → codec.Bytes → Exec S codec.Bytes

-- zmq's exceptions, by their names: `Again` is one of them.
unfoldable pub is_again : ExcClass → Bool
is_again (other name) = name == "Again"
is_again _ = false

unfoldable pub is_zmq_error : ExcClass → Bool
is_zmq_error (other name) =
    name == "ZMQError" || name == "ContextTerminated" || name == "InterruptedSystemCall"
is_zmq_error _ = false

-- `except zmq.Again: raise TimeoutError` and `except zmq.ZMQError: raise ConnectionError`
unfoldable pub zmq_failure : Exc → Exc
unfolding is_again is_zmq_error
zmq_failure e =
    if is_again e.cls
    then record { cls = timeout_error; message = "RPC call timed out" }
    else if is_zmq_error e.cls
    then record { cls = connection_error; message = "RPC call failed" }
    else e

-- The socket's receive timeout, and the client's own that is restored after each call, in ms
pub record Socket : Type 0 where
  pub timeout_ms : ℕ
  pub receive_timeout_ms : ℕ

module _ {S : Type 0} (L : Link S) where
  -- The request sent and the response received, both through msgpack
  unfoldable pub round_trip : ℕ → Value → Exec S Value
  round_trip timeout request = do
    packed ← lift (L.codec.packb request)
    received ← L.exchange timeout packed
    lift (L.codec.unpackb received)

  unfoldable pub asked : ℕ → Value → Exec S Value
  unfolding round_trip zmq_failure
  asked timeout request = catch (round_trip timeout request) (λ e. fail (zmq_failure e))

  abbrev ClientState : Type 0
  ClientState = Socket × S

  abbrev on_link : {A : Type 0} → Exec S A → Exec ClientState A
  on_link m (k, s) = ((m s).0, (k, (m s).1))

  unfoldable pub option_set : Option Exc → ℕ → Exec ClientState Unit
  option_set none t (k, s) = (ok tt, (record k { receive_timeout_ms = t }, s))
  option_set (some e) t x = (raise e, x)

  -- `self._socket.setsockopt(zmq.RCVTIMEO, t)`
  unfoldable pub set_option : ℕ → Exec ClientState Unit
  unfolding option_set
  set_option t x = option_set (L.refuses x.1) t x

  -- Inside the `try`
  unfoldable pub set_receive_timeout : Option ℕ → Exec ClientState Unit
  unfolding set_option zmq_failure
  set_receive_timeout none = pure tt
  set_receive_timeout (some t) = catch (set_option t) (λ e. fail (zmq_failure e))

  -- In the `finally`, if the call had a timeout of its own: what the socket raises here leaves the call.
  unfoldable pub restore_timeout : Option ℕ → Exec ClientState Unit
  unfolding set_option
  restore_timeout none = pure tt
  restore_timeout (some t) = gets (λ x. x.0.timeout_ms) >>= set_option

  unfoldable pub guarded : Option ℕ → Value → Exec ClientState Value
  unfolding asked set_receive_timeout restore_timeout
  guarded timeout request =
      finally
        (do
          set_receive_timeout timeout
          effective ← gets (λ x. x.0.receive_timeout_ms)
          on_link (asked effective request))
        (restore_timeout timeout)

  -- `ZmqRpcClient.call`
  unfoldable pub call : String → Value → Option ℕ → Exec ClientState Value
  unfolding guarded request_of outcome
  call name params timeout (k, s) =
      let (id, s') = L.fresh s in
      (guarded timeout (request_of id name params) >>= λ response. lift (outcome id name response))
        (k, s')

  -- robotiq.py's call, whose socket keeps its timeout
  unfoldable pub call_gripper : ℕ → String → Value → Exec S Value
  unfolding asked request_of outcome
  call_gripper timeout name params s =
      let (id, s') = L.fresh s in
      (asked timeout (request_of id name params) >>= λ response. lift (outcome id name response)) s'
