-- ===== src/Types/Lengths.antt =====
-- What passes the vector check of types.py, and that it passes again as it is.
use zero_franky.Base.{
  ℕ, String, ◌<>◌, ◌≡◌, refl, Bool, true, false, both_true, ◌&&◌, eqb, arith, if◌then◌else◌,
}
use zero_franky.Python.Errors.{Result, ok, raise, error, value_error, ◌>>=◌}
use zero_franky.Python.Values.{
  Value, null, bool, int, float, str, bytes, list, dict, object, method, Items, nil, cons,
}
use zero_franky.Python.Attributes.{
  FloatOps, to_float, map_float, count, iterate, or_error, callable?, attr?,
}
use zero_franky.Types.Vectors.{vector}

unfoldable pub is_float : Value → Bool
is_float (float x) = true
is_float _ = false

unfoldable pub all_float : Items → Bool
unfolding is_float
all_float nil = true
all_float (cons v vs) = is_float v && all_float vs

-- A list of exactly n floats.
unfoldable pub is_vector : ℕ → Value → Bool
unfolding all_float count
is_vector n (list xs) = eqb (count xs) n && all_float xs
is_vector n _ = false

-- A float, floats or a vector, if there is a result at all.
unfoldable float_or_error : Result Value → Bool
unfolding is_float
float_or_error (ok v) = is_float v
float_or_error (raise e) = true

unfoldable floats_or_error : Result Items → Bool
unfolding all_float
floats_or_error (ok xs) = all_float xs
floats_or_error (raise e) = true

unfoldable pub vector_or_error : ℕ → Result Value → Bool
unfolding is_vector
vector_or_error n (ok v) = is_vector n v
vector_or_error n (raise e) = true

module _ ⦃ops : FloatOps⦄ where
  to_float-is_float : (v : Value) → float_or_error (to_float v) ≡ true
  unfolding float_or_error to_float is_float or_error callable? attr?
  to_float-is_float null = refl
  to_float-is_float (float x) = refl
  to_float-is_float (bool b) = ground arith
  to_float-is_float (int n) = ground arith
  to_float-is_float (str s) = ground arith
  to_float-is_float (bytes b) = refl
  to_float-is_float (list xs) = refl
  to_float-is_float (dict d) = refl
  to_float-is_float (object c d) = ground arith
  to_float-is_float (method m) = refl

  both_floats :
      (r : Result Value) (s : Result Items)
      → float_or_error r ≡ true
      → floats_or_error s ≡ true
      → floats_or_error (r >>= λ x. s >>= λ xs. ok (cons x xs)) ≡ true
  unfolding float_or_error floats_or_error
  both_floats (raise e) s h k = refl
  both_floats (ok v) (raise e) h k = refl
  both_floats (ok v) (ok xs) h k = ground (arith, h, k)

  map_float-all_float : (vs : Items) → floats_or_error (map_float vs) ≡ true
  unfolding map_float floats_or_error
  map_float-all_float nil = refl
  map_float-all_float (cons v vs) =
      both_floats (to_float v) (map_float vs) (to_float-is_float v) (map_float-all_float vs)

  sized :
      (n : ℕ) (name : String) (r : Result Items)
      → floats_or_error r ≡ true
      → vector_or_error n (
          r >>= λ xs.
          if eqb (count xs) n
          then ok (list xs)
          else error value_error (name <> " has the wrong number of elements"))
        ≡ true
  unfolding floats_or_error vector_or_error is_vector
  sized n name (raise e) h = refl
  sized n name (ok xs) h = ground (arith, h)

  -- What the check returns, if it returns, is a list of exactly as many floats as it asks for.
  pub vector-is_vector :
      (v : Value) (n : ℕ) (name : String) → vector_or_error n (vector v n name) ≡ true
  unfolding vector vector_or_error
  vector-is_vector v n name = in_iterable (iterate v)
    where
      in_iterable :
          (r : Result Items)
          → vector_or_error n (
              r >>= λ vs. map_float vs >>= λ xs.
              if eqb (count xs) n
              then ok (list xs)
              else error value_error (name <> " has the wrong number of elements"))
            ≡ true
      in_iterable (raise e) = refl
      in_iterable (ok vs) = sized n name (map_float vs) (map_float-all_float vs)

  map_float_all : (xs : Items) → all_float xs ≡ true → map_float xs ≡ ok xs
  unfolding map_float all_float is_float to_float
  map_float_all nil h = refl
  map_float_all (cons (float x) vs) h = rw (map_float_all vs h) refl
  map_float_all (cons null vs) h = ground (arith, h)
  map_float_all (cons (bool b) vs) h = ground (arith, h)
  map_float_all (cons (int n) vs) h = ground (arith, h)
  map_float_all (cons (str s) vs) h = ground (arith, h)
  map_float_all (cons (bytes b) vs) h = ground (arith, h)
  map_float_all (cons (list ys) vs) h = ground (arith, h)
  map_float_all (cons (dict d) vs) h = ground (arith, h)
  map_float_all (cons (object c d) vs) h = ground (arith, h)
  map_float_all (cons (method m) vs) h = ground (arith, h)

  -- A list of exactly n floats passes the check for n, unchanged.
  pub vector_again :
      (w : Value) (n : ℕ) (name : String) → is_vector n w ≡ true → vector w n name ≡ ok w
  unfolding vector is_vector iterate
  vector_again (list xs) n name h =
      let (size, floats) = both_true (eqb (count xs) n) (all_float xs) h in
      rw (map_float_all xs floats) (rw size refl)
  vector_again null n name h = ground (arith, h)
  vector_again (bool b) n name h = ground (arith, h)
  vector_again (int m) n name h = ground (arith, h)
  vector_again (float x) n name h = ground (arith, h)
  vector_again (str s) n name h = ground (arith, h)
  vector_again (bytes b) n name h = ground (arith, h)
  vector_again (dict d) n name h = ground (arith, h)
  vector_again (object c d) n name h = ground (arith, h)
  vector_again (method m) n name h = ground (arith, h)
