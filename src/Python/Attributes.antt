-- ===== src/Python/Attributes.antt =====
-- Attribute access, calls without arguments, iteration and conversions, as Python has them.

use zero_franky.Base.{
  ℕ, suc, String, Bool, true, false, List, ◌∷◌, List, [], ◌∷◌, Option, none, some, ◌==◌, ◌||◌, not,
  eqb, zero, if◌then◌else◌,
}
use zero_franky.Base.Int.{ℤ, pos, eq_ℤ}
use zero_franky.Python.Errors.{
  Result, ok, error, type_error, value_error, attribute_error, index_error, overflow_error,
  key_error, ◌>>=◌,
}
use zero_franky.Python.Values.{
  Float, Value, null, bool, int, float, str, bytes, list, dict, object, method, Items, nil, cons,
  Fields, end, field, lookup,
}

-- `type(v).__name__`
unfoldable pub type_name : Value → String
type_name null = "NoneType"
type_name (bool b) = "bool"
type_name (int n) = "int"
type_name (float x) = "float"
type_name (str s) = "str"
type_name (bytes b) = "bytes"
type_name (list xs) = "list"
type_name (dict d) = "dict"
type_name (object c attrs) = c
type_name (method v) = "method"

-- `getattr(v, name, None)` with the missing attribute told apart. No value of a built-in type has an
-- attribute that the source asks for.
unfoldable pub attr? : Value → String → Option Value
attr? (object c attrs) name = lookup name attrs
attr? _ name = none

unfoldable pub get_or : Option Value → Value → Value
get_or none d = d
get_or (some v) d = v

-- `hasattr(v, name)`
unfoldable pub has_attr : Value → String → Bool
unfolding attr?
has_attr v name = elim (attr? v name) [ none ↦ false | some _ ↦ true ]

unfoldable pub or_attribute_error : Option Value → String → Result Value
or_attribute_error none name = error attribute_error name
or_attribute_error (some v) name = ok v

-- `v.name`
unfoldable pub attr : Value → String → Result Value
unfolding attr? or_attribute_error
attr v name = or_attribute_error (attr? v name) name

unfoldable pub is_none : Value → Bool
is_none null = true
is_none _ = false

-- `callable(f)` and `f()`
unfoldable pub call0 : Value → Result Value
call0 (method v) = ok v
call0 _ = error type_error "object is not callable"

unfoldable pub callable? : Option Value → Option Value
callable? (some (method v)) = some v
callable? _ = none

unfoldable pub characters : String → Items
characters String.[] = nil
characters (String.◌∷◌ c s) = cons (str (String.◌∷◌ c String.[])) (characters s)

unfoldable pub key_items : Fields → Items
key_items end = nil
key_items (field k v rest) = cons (str k) (key_items rest)

unfoldable pub iterator : Option Value → Result Items
iterator (some (list xs)) = ok xs
iterator _ = error type_error "object is not iterable"

-- `for item in v`. Bytes iterate to numbers, which nothing of the source does.
unfoldable pub iterate : Value → Result Items
unfolding characters key_items iterator callable? attr?
iterate (list xs) = ok xs
iterate (dict d) = ok (key_items d)
iterate (str s) = ok (characters s)
iterate v = iterator (callable? (attr? v "__iter__"))

-- The conversions of Python's `float` that a host's arithmetic decides: of an `int` (`none` is an
-- OverflowError) and of a text (`none` is a ValueError), the comparison of doubles with doubles and
-- with integers, and their arithmetic.
pub record FloatOps : Type 0 where
  pub of_int : ℤ → Option Float
  pub parse : String → Option Float
  pub eq : Float → Float → Bool
  pub eq_int : Float → ℤ → Bool
  pub lt : Float → Float → Bool
  pub add : Float → Float → Float
  pub sub : Float → Float → Float
  pub mul : Float → Float → Float
  pub div : Float → Float → Float
  pub sqrt : Float → Float

unfoldable pub or_error : Option Float → Result Value → Result Value
or_error none e = e
or_error (some x) e = ok (float x)

module _ ⦃ops : FloatOps⦄ where
  -- `float(v)`
  unfoldable pub to_float : Value → Result Value
  unfolding or_error callable? attr?
  to_float (float x) = ok (float x)
  to_float (int n) =
      or_error (ops.of_int n) (error overflow_error "int too large to convert to float")
  to_float (bool b) = or_error (ops.of_int (pos (if b then 1 else 0))) (error overflow_error "bool")
  to_float (str s) = or_error (ops.parse s) (error value_error "could not convert string to float")
  to_float v = elim (callable? (attr? v "__float__")) [
    | some (float x) ↦ ok (float x)
    | _ ↦ error type_error "float() argument must be a string or a real number"
  ]

  -- `[float(item) for item in v]`
  unfoldable pub map_float : Items → Result Items
  map_float nil = ok nil
  map_float (cons v vs) = do x ← to_float v; xs ← map_float vs; ok (cons x xs)

  unfoldable pub float_list : Value → Result Value
  unfolding iterate
  float_list v = do vs ← iterate v; xs ← map_float vs; ok (list xs)

  -- `[[float(item) for item in row] for row in v]`
  unfoldable pub map_row : Items → Result Items
  map_row nil = ok nil
  map_row (cons row rows) = do xs ← float_list row; rest ← map_row rows; ok (cons xs rest)

  unfoldable pub float_rows : Value → Result Value
  unfolding iterate
  float_rows v = do rows ← iterate v; xs ← map_row rows; ok (list xs)

-- `bool(v)`: both zeros of a double are false.
unfoldable pub truthy : Value → Bool
truthy null = false
truthy (bool b) = b
truthy (int (pos n)) = not (eqb n 0)
truthy (float x) = not (eqb x.bits 0 || eqb x.bits 0x8000000000000000)
truthy (str s) = not (s == "")
truthy (list nil) = false
truthy (dict end) = false
truthy (bytes []) = false
truthy _ = true

-- `getattr(v, name, d)`
unfoldable pub attr_or : Value → String → Value → Value
unfolding get_or attr?
attr_or v name d = get_or (attr? v name) d

-- `v.get(key, d)`
unfoldable pub get : Value → String → Value → Result Value
unfolding get_or
get (dict d) key default = ok (get_or (lookup key d) default)
get _ key default = error attribute_error "get"

unfoldable pub or_key_error : Option Value → String → Result Value
or_key_error none key = error key_error key
or_key_error (some v) key = ok v

-- `v[key]` with a text key
unfoldable pub at_key : Value → String → Result Value
unfolding or_key_error
at_key (dict d) key = or_key_error (lookup key d) key
at_key _ key = error type_error "object is not subscriptable by a text"

unfoldable pub nth_item : ℕ → Items → Result Value
nth_item n nil = error index_error "list index out of range"
nth_item zero (cons v vs) = ok v
nth_item (suc n) (cons v vs) = nth_item n vs

-- `v[n]` with a number
unfoldable pub at_index : Value → ℕ → Result Value
unfolding nth_item
at_index (list xs) n = nth_item n xs
at_index _ n = error type_error "object is not subscriptable by a number"

unfoldable pub count : Items → ℕ
count nil = 0
count (cons v vs) = suc (count vs)

-- `isinstance(v, (list, tuple))`
unfoldable pub is_list : Value → Bool
is_list (list xs) = true
is_list _ = false

-- `value = value.tolist()` where it has that method
unfoldable pub plain : Value → Value
unfolding callable? attr? get_or
plain v = get_or (callable? (attr? v "tolist")) v

-- `int(v)` of what `to_msec` returns, an integer
unfoldable pub to_int : Value → Result Value
to_int (int n) = ok (int n)
to_int (bool b) = ok (int (pos (if b then 1 else 0)))
to_int _ = error type_error "int() argument must be a number"

unfoldable pub display_fields : List (String × Result Value) → Result Fields
display_fields [] = ok end
display_fields ((k, r) ∷ rest) = do v ← r; vs ← display_fields rest; ok (field k v vs)

-- `{k: r, …}`: the values are computed in order, and the first that raises ends it.
unfoldable pub display : List (String × Result Value) → Result Value
unfolding display_fields
display entries = do d ← display_fields entries; ok (dict d)

module _ ⦃ops : FloatOps⦄ where
  -- `a == b` between what a payload can hold
  unfoldable pub equals : Value → Value → Bool
  equals (float x) (float y) = ops.eq x y
  equals (float x) (int n) = ops.eq_int x n
  equals (int n) (float x) = ops.eq_int x n
  equals (int n) (int m) = eq_ℤ n m
  equals (str s) (str t) = s == t
  equals null null = true
  equals _ _ = false
