-- ===== src/Protocol/Plain.antt =====
-- `encode_rpc_value` on what is wire data already (protocol.py).
use zero_franky.Base.{◌≡◌, refl, Bool, true, false, both_true, ◌&&◌, arith}
use zero_franky.Python.Errors.{ok}
use zero_franky.Python.Values.{
  Value, null, bool, int, float, str, bytes, list, dict, object, method, Items, nil, cons, Fields,
  end, field,
}
use zero_franky.Python.Attributes.{FloatOps}
use zero_franky.Protocol.RpcValue.{encode_rpc_value, encode_rpc_items, encode_rpc_fields}

-- Null, booleans, numbers, texts, bytes, and lists and dicts of these.
unfoldable mutual
  pub is_plain : Value → Bool
  is_plain null = true
  is_plain (bool b) = true
  is_plain (int n) = true
  is_plain (float x) = true
  is_plain (str s) = true
  is_plain (bytes b) = true
  is_plain (list xs) = are_plain xs
  is_plain (dict d) = is_plain_dict d
  is_plain (object name attrs) = false
  is_plain (method v) = false

  pub are_plain : Items → Bool
  are_plain nil = true
  are_plain (cons v vs) = is_plain v && are_plain vs

  pub is_plain_dict : Fields → Bool
  is_plain_dict end = true
  is_plain_dict (field k v rest) = is_plain v && is_plain_dict rest

module _ ⦃ops : FloatOps⦄ where
  mutual
    unfolding encode_rpc_value is_plain

    plain_value : (v : Value) → is_plain v ≡ true → encode_rpc_value v ≡ ok v
    plain_value null h = refl
    plain_value (bool b) h = refl
    plain_value (int n) h = refl
    plain_value (float x) h = refl
    plain_value (str s) h = refl
    plain_value (bytes b) h = refl
    plain_value (list xs) h = rw (plain_items xs h) refl
    plain_value (dict d) h = rw (plain_fields d h) refl
    plain_value (object name attrs) h = ground (arith, h)
    plain_value (method v) h = ground (arith, h)

    plain_items : (xs : Items) → are_plain xs ≡ true → encode_rpc_items xs ≡ ok xs
    plain_items nil h = refl
    plain_items (cons v vs) h =
        let (hv, hvs) = both_true (is_plain v) (are_plain vs) h in
        rw (plain_value v hv) (rw (plain_items vs hvs) refl)

    plain_fields : (d : Fields) → is_plain_dict d ≡ true → encode_rpc_fields d ≡ ok d
    plain_fields end h = refl
    plain_fields (field k v rest) h =
        let (hv, hd) = both_true (is_plain v) (is_plain_dict rest) h in
        rw (plain_value v hv) (rw (plain_fields rest hd) refl)

  -- Plain data is encoded as itself.
  pub encode_rpc_value_plain : (v : Value) → is_plain v ≡ true → encode_rpc_value v ≡ ok v
  encode_rpc_value_plain = plain_value
