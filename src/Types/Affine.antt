-- ===== src/Types/Affine.antt =====
-- The constructor of `Affine`, in all its forms (types.py).
use zero_franky.Base.{◌||◌, not, [], ◌∷◌, if◌then◌else◌}
use zero_franky.Python.Errors.{Result, ok, error, type_error, ◌>>=◌}
use zero_franky.Python.Values.{Float, Value, float, list, Items, nil, cons, items}
use zero_franky.Python.Attributes.{FloatOps, is_none}
use zero_franky.Types.Vectors.{zero_float, one_float, vector, looks_like_matrix4, vector_or_zeros}
use zero_franky.Types.Geometry.{affine_of, affine_of_matrix}

abbrev pub two_float : Float
two_float = record { bits = 0x4000000000000000 }

abbrev row4 : Float → Float → Float → Float → Value
row4 a b c d = list (items (float a ∷ float b ∷ float c ∷ float d ∷ []))

module _ ⦃ops : FloatOps⦄ where
  -- `_rotation_from_quaternion` of [x, y, z, w], each row with the offset beside it
  unfoldable pub rotation_rows : Float → Float → Float → Float → Float → Float → Float → Items
  rotation_rows x y z w a b c =
      let tx = ops.mul two_float x in
      let ty = ops.mul two_float y in
      let tz = ops.mul two_float z in
      let twx = ops.mul tx w in
      let twy = ops.mul ty w in
      let twz = ops.mul tz w in
      let txx = ops.mul tx x in
      let txy = ops.mul ty x in
      let txz = ops.mul tz x in
      let tyy = ops.mul ty y in
      let tyz = ops.mul tz y in
      let tzz = ops.mul tz z in
      items (
        row4 (ops.sub one_float (ops.add tyy tzz)) (ops.sub txy twz) (ops.add txz twy) a
        ∷ row4 (ops.add txy twz) (ops.sub one_float (ops.add txx tzz)) (ops.sub tyz twx) b
        ∷ row4 (ops.sub txz twy) (ops.add tyz twx) (ops.sub one_float (ops.add txx tyy)) c
        ∷ row4 zero_float zero_float zero_float one_float
        ∷ [])

  -- `_vector` has checked both lengths, so the last clause is not met.
  unfoldable pub affine_rows : Value → Value → Result Items
  affine_rows (list (cons (float a) (cons (float b) (cons (float c) nil))))
        (list (cons (float x) (cons (float y) (cons (float z) (cons (float w) nil))))) =
      ok (rotation_rows x y z w a b c)
  affine_rows _ _ = error type_error "unreachable"

  abbrev identity_quaternion : Value
  identity_quaternion = row4 zero_float zero_float zero_float one_float

  unfoldable pub affine_of_translation : Value → Value → Result Value
  unfolding affine_of is_none
  affine_of_translation translation quaternion = do
    offset ← vector_or_zeros translation 3 "translation"
    rotation ←
        vector (if is_none quaternion then identity_quaternion else quaternion) 4 "quaternion"
    rows ← affine_rows offset rotation
    ok (affine_of (list rows))

  -- The two exclusive forms, once the positional argument is told apart
  unfoldable pub affine_by_form : Value → Value → Value → Result Value
  unfolding is_none
  affine_by_form quaternion translation transformation_matrix =
      if is_none transformation_matrix
      then affine_of_translation translation quaternion
      else if not (is_none translation) || not (is_none quaternion)
      then error type_error "Affine takes either transformation_matrix or translation/quaternion"
      else affine_of_matrix transformation_matrix

  -- `Affine(translation_or_matrix, quaternion, translation=…, transformation_matrix=…)`
  unfoldable pub new_affine : Value → Value → Value → Value → Result Value
  unfolding is_none
  new_affine translation_or_matrix quaternion translation transformation_matrix =
      if is_none translation_or_matrix
      then affine_by_form quaternion translation transformation_matrix
      else if looks_like_matrix4 translation_or_matrix
      then (if is_none transformation_matrix
          then affine_by_form quaternion translation translation_or_matrix
          else error type_error
              "Affine got a matrix both positionally and as transformation_matrix")
      else if is_none translation
      then affine_by_form quaternion translation_or_matrix transformation_matrix
      else error type_error "Affine got a translation both positionally and as translation"
