-- ===== src/Rpc/Outcome.antt =====
-- The request that a client sends and what the response to it comes to (zmq_client.py, robotiq.py).
use zero_franky.Base.{String, ◌<>◌, Bool, false, [], ◌∷◌, ◌==◌, if◌then◌else◌}
use zero_franky.Python.Errors.{Result, error, rpc_error, ◌>>=◌}
use zero_franky.Python.Values.{Value, bool, str, null, dict, dict_of, end}
use zero_franky.Python.Attributes.{get, truthy}

-- `params or {}`
unfoldable pub or_empty : Value → Value
unfolding truthy
or_empty params = if truthy params then params else dict end

-- The request as it is sent, `RpcRequest.create(method, params).__dict__`
unfoldable pub request_of : String → String → Value → Value
unfolding or_empty
request_of id name params =
    dict_of (("id", str id) ∷ ("method", str name) ∷ ("params", or_empty params) ∷ [])

unfoldable pub is_text : String → Value → Bool
is_text id (str t) = t == id
is_text id _ = false

-- A text, as an f-string shows it
unfoldable pub shown : Value → String
shown (str t) = t
shown _ = ""

unfoldable pub result_of : Value → String → Value → Result Value
unfolding shown get truthy
result_of response name done =
    if truthy done
    then get response "result" null
    else get response "error" (str "Unknown RPC error") >>= λ e.
        error rpc_error ("'" <> name <> "' failed: " <> shown e)

abbrev mismatch : String → String
mismatch name = "RPC response id mismatch for '" <> name <> "'"

-- What a response comes to
unfoldable pub outcome : String → String → Value → Result Value
unfolding is_text result_of get
outcome id name response = do
  given ← get response "id" null
  done ← get response "ok" (bool false)
  if is_text id given then result_of response name done else error rpc_error (mismatch name)
