-- ===== src/Types/Vectors.antt =====
-- The vector and matrix checks of types.py.
use Prim.Native.String.{count as text_count}
use zero_franky.Base.{
  ℕ, suc, String, ◌<>◌, Bool, true, false, Option, none, some, ◌&&◌, eqb, if◌then◌else◌, length,
  replicate,
}
use zero_franky.Base.Int.{pos}
use zero_franky.Python.Errors.{Result, ok, raise, error, value_error, ◌>>=◌}
use zero_franky.Python.Values.{
  Float, Value, null, int, float, str, bytes, list, dict, items, Items, nil, cons, Fields, end,
  field,
}
use zero_franky.Python.Attributes.{FloatOps, iterate, map_float, count, callable?, attr?, to_float}
use zero_franky.Protocol.Scalars.{is_number}

abbrev pub zero_float : Float
zero_float = record { bits = 0 }

abbrev pub one_float : Float
one_float = record { bits = 0x3ff0000000000000 }

-- `(0.0,) * n`
abbrev pub zeros : ℕ → Value
zeros n = list (items (replicate n (float zero_float)))

unfoldable pub count_fields : Fields → ℕ
count_fields end = 0
count_fields (field k v rest) = suc (count_fields rest)

unfoldable pub len_of_method : Option Value → Option ℕ
len_of_method (some (int (pos n))) = some n
len_of_method _ = none

-- `len(v)`, `none` where there is no `__len__`
unfoldable pub len? : Value → Option ℕ
unfolding count count_fields callable? attr? len_of_method
len? (list xs) = some (count xs)
len? (dict d) = some (count_fields d)
len? (str s) = some (text_count s)
len? (bytes b) = some (length b)
len? v = len_of_method (callable? (attr? v "__len__"))

unfoldable pub len_is : ℕ → Option ℕ → Bool
len_is n none = false
len_is n (some m) = eqb m n

unfoldable pub all_len4 : Items → Bool
unfolding len? len_is
all_len4 nil = true
all_len4 (cons row rows) = len_is 4 (len? row) && all_len4 rows

unfoldable pub rows_are_4x4 : Result Items → Bool
unfolding count all_len4
rows_are_4x4 (ok rows) = eqb (count rows) 4 && all_len4 rows
rows_are_4x4 (raise e) = false

-- `_looks_like_matrix4`
unfoldable pub looks_like_matrix4 : Value → Bool
unfolding iterate rows_are_4x4
looks_like_matrix4 value = rows_are_4x4 (iterate value)

module _ ⦃ops : FloatOps⦄ where
  -- `_vector(value, length, name)`
  unfoldable pub vector : Value → ℕ → String → Result Value
  unfolding iterate count
  vector value length name = do
    vs ← iterate value
    xs ← map_float vs
    if eqb (count xs) length
        then ok (list xs)
        else error value_error (name <> " has the wrong number of elements")

  -- `(0.0,) * length` for None
  unfoldable pub vector_or_zeros : Value → ℕ → String → Result Value
  vector_or_zeros null length name = ok (zeros length)
  vector_or_zeros value length name = vector value length name

  -- `None` for None
  unfoldable pub optional_vector : Value → ℕ → String → Result Value
  optional_vector null length name = ok null
  optional_vector value length name = vector value length name

  abbrev repeated : ℕ → Result Value → Result Value
  repeated n r = do x ← r; ok (list (items (replicate n x)))

  -- A number is repeated, any other value is a vector.
  unfoldable pub vector_or_scalar : Value → ℕ → String → Result Value
  unfolding is_number
  vector_or_scalar value length name =
      if is_number value then repeated length (to_float value) else vector value length name

  unfoldable pub optional_vector_or_scalar : Value → ℕ → String → Result Value
  optional_vector_or_scalar null length name = ok null
  optional_vector_or_scalar value length name = vector_or_scalar value length name
