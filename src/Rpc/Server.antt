-- ===== src/Rpc/Server.antt =====
-- The answer to a request: the servers of zmq_server.py and robotiq.py, which differ in the dispatch.
use zero_franky.Base.{◌≡◌, refl, true, false, none, some, [], ◌∷◌, Option-cases, inl, inr, ◌⊎◌}
use zero_franky.Python.Errors.{Exc, Result, ok, raise, key_error}
use zero_franky.Python.Values.{Value, null, bool, str, dict, dict_of, lookup, Fields, end}
use zero_franky.Python.Attributes.{at_key, get, get_or, or_key_error}
use zero_franky.Python.Exec.{Exec, pure, lift, ◌>>=◌, catch}
use zero_franky.Rpc.Codec.{Codec, format_exception}

-- `{"id": id, "ok": True, "result": result}`
abbrev pub success : Value → Value → Value
success id result = dict_of (("id", id) ∷ ("ok", bool true) ∷ ("result", result) ∷ [])

-- `{"id": id, "ok": False, "error": format_exception(exc)}`
abbrev pub failure : Value → Exc → Value
failure id e = dict_of (("id", id) ∷ ("ok", bool false) ∷ ("error", str (format_exception e)) ∷ [])

module _ {S : Type 0} (dispatch : Value → Value → Exec S Value) where
  -- The response to a request. The id is read after the method has run.
  unfoldable pub respond : Value → Exec S Value
  unfolding at_key get
  respond request =
      catch
        (do
          name ← lift (at_key request "method")
          params ← lift (get request "params" (dict end))
          result ← dispatch name params
          id ← lift (at_key request "id")
          pure (success id result))
        (λ e. lift (get request "id" null) >>= λ id. pure (failure id e))

  -- `serve_once`, from what the socket receives to what it sends
  unfoldable pub serve_once : (C : Codec) → C.Bytes → Exec S C.Bytes
  unfolding respond
  serve_once C raw = do
    request ← lift (C.unpackb raw)
    response ← respond request
    lift (C.packb response)

  -- The response to a request that is a dict is a dict with the request's id, or with None where the
  -- request has none.
  pub record Answers (d : Fields) (r : Result Value) : Type 0 where
    pub response : Value
    pub answered : r ≡ ok response
    pub same_id : at_key response "id" ≡ ok (get_or (lookup "id" d) null)

  failure-Answers :
      (d : Fields) (e : Exc) → Answers d (ok (failure (get_or (lookup "id" d) null) e))
  unfolding at_key
  failure-Answers d e = record { response = _; answered = refl; same_id = refl }

  run-cases :
      (p : Result Value × S)
      → ((v : Value) × (t : S) × (p ≡ (ok v, t))) ⊎ ((e : Exc) × (t : S) × (p ≡ (raise e, t)))
  run-cases (ok v, t) = inl (v, t, refl)
  run-cases (raise e, t) = inr (e, t, refl)

  -- The parameters of a request: none given are none at all.
  abbrev pub params_of : Fields → Value
  params_of d = get_or (lookup "params" d) (dict end)

  -- A method that raises is answered by a failure.
  pub respond_raised :
      (d : Fields) (name : Value) (e : Exc) (s t : S)
      → lookup "method" d ≡ some name
      → dispatch name (params_of d) s ≡ (raise e, t)
      → respond (dict d) s ≡ (ok (failure (get_or (lookup "id" d) null) e), t)
  unfolding respond at_key get or_key_error get_or
  respond_raised d name e s t h k = rw h (rw k refl)

  -- A method that returns is answered by a success, if the request has an id.
  pub respond_returned :
      (d : Fields) (name v id : Value) (s t : S)
      → lookup "method" d ≡ some name
      → dispatch name (params_of d) s ≡ (ok v, t)
      → lookup "id" d ≡ some id
      → respond (dict d) s ≡ (ok (success id v), t)
  unfolding respond at_key get or_key_error get_or
  respond_returned d name v id s t h k i = rw h (rw k (rw i refl))

  respond_without_id :
      (d : Fields) (name v : Value) (s t : S)
      → lookup "method" d ≡ some name
      → dispatch name (params_of d) s ≡ (ok v, t)
      → lookup "id" d ≡ none
      → respond (dict d) s ≡ (ok (failure null (record { cls = key_error; message = "id" })), t)
  unfolding respond at_key get or_key_error get_or
  respond_without_id d name v s t h k i = rw h (rw k (rw i refl))

  respond_named :
      (d : Fields) (name : Value) (s : S)
      → lookup "method" d ≡ some name
      → Answers d (respond (dict d) s).0
  unfolding at_key get_or
  respond_named d name s h = elim (run-cases (dispatch name (params_of d) s)) [
    | inr (e, t, k) ↦ rw (respond_raised d name e s t h k) (failure-Answers d e)
    | inl (v, t, k) ↦ elim (Option-cases (lookup "id" d)) [
      | inl i ↦
          rw (respond_without_id d name v s t h k i)
            (record { response = _; answered = refl; same_id = rw i refl })
      | inr (id, i) ↦
          rw (respond_returned d name v id s t h k i)
            (record { response = _; answered = refl; same_id = rw i refl })
    ]
  ]

  respond-Answers : (d : Fields) (s : S) → Answers d (respond (dict d) s).0
  unfolding respond at_key get or_key_error get_or
  respond-Answers d s = elim (Option-cases (lookup "method" d)) [
    | inl absent ↦ rw absent (failure-Answers d _)
    | inr (name, named) ↦ respond_named d name s named
  ]

  -- A response with the id of the request, or None where the request has none, whose bytes are sent, or
  -- whose exception is raised where msgpack refuses it, in the state that the method leaves.
  pub record Sends (C : Codec) (d : Fields) (s : S) (p : Result C.Bytes × S) : Type 0 where
    pub response : Value
    pub same_id : at_key response "id" ≡ ok (get_or (lookup "id" d) null)
    pub sends : p ≡ (C.packb response, (respond (dict d) s).1)

  -- Every request that is a dict gets a response with its id, or with None where it has none, whatever its
  -- method and whatever that raises: `serve_once` sends the bytes that msgpack makes of it, or raises what
  -- msgpack raises on it.
  pub serve_once-Sends :
      (C : Codec) (raw : C.Bytes) (d : Fields) (s : S)
      → C.unpackb raw ≡ ok (dict d)
      → Sends C d s (serve_once C raw s)
  unfolding serve_once
  serve_once-Sends C raw d s h =
      let answers = respond-Answers d s in
      record {
        response = answers.response;
        same_id = answers.same_id;
        sends = rw h (rw answers.answered refl);
      }
