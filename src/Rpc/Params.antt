-- ===== src/Rpc/Params.antt =====
-- The parameters of a request, as its handler reads them (zmq_server.py, robotiq.py).
use zero_franky.Base.{String, Option, none, some}
use zero_franky.Python.Errors.{Result, ok, raise, error, key_error, type_error, attribute_error}
use zero_franky.Python.Values.{Value, Fields, dict, lookup}
use zero_franky.Python.Attributes.{get_or}
use zero_franky.Python.Exec.{Exec, lift}

-- `p.get(key, default)` of a dict
unfoldable pub option : Fields → String → Value → Value
unfolding get_or
option d key default = get_or (lookup key d) default

module _ {S : Type 0} where
  -- A handler whose first argument is a `p.get(…)`: of what is no dict, that raises.
  unfoldable pub with_params : Value → (Fields → Exec S Value) → Exec S Value
  with_params (dict d) f = f d
  with_params _ f = lift (error attribute_error "get")

  unfoldable pub with_found : Option Value → String → (Value → Exec S Value) → Exec S Value
  with_found (some v) key f = f v
  with_found none key f = lift (error key_error key)

  -- `d[key]` of a dict
  unfoldable pub with_key : Fields → String → (Value → Exec S Value) → Exec S Value
  unfolding with_found
  with_key d key f = with_found (lookup key d) key f

  -- A handler whose first argument is `p[key]`
  unfoldable pub required : Value → String → (Value → Fields → Exec S Value) → Exec S Value
  unfolding with_key
  required (dict d) key f = with_key d key (λ v. f v d)
  required _ key f = lift (error type_error "object is not subscriptable by a text")

  -- A check, and what is done with what it returns
  unfoldable pub with_result : {A : Type 0} → Result A → (A → Exec S Value) → Exec S Value
  with_result (ok a) f = f a
  with_result (raise e) f = lift (raise e)
