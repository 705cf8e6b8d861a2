-- ===== src/Session/Merge.antt =====
-- The merge of a payload of Cartesian gains into a motion's gains (tracker_session.py).
use zero_franky.Base.{ℕ, Bool, true, false, List, [], ◌∷◌, if◌then◌else◌, String}
use zero_franky.Python.Errors.{Result, ok, ◌>>=◌}
use zero_franky.Python.Values.{Value, null}
use zero_franky.Python.Attributes.{FloatOps, attr, get, is_none, to_float}
use zero_franky.Protocol.Scalars.{decode_damping}
use zero_franky.Builders.Franky.{Franky}

-- What the merge uses of numpy: `np.array(a, copy=True)`, `x * np.eye(3)`, `a[i:j, i:j] = b`, and
-- `np.diag(np.asarray(d, dtype=float))`.
pub record Numpy : Type 0 where
  pub copy : Value → Result Value
  pub scaled_eye3 : Value → Result Value
  pub set_block : ℕ → ℕ → Value → Value → Result Value
  pub diag : Value → Result Value

-- The names that a payload can have
abbrev pub gain_keys : List String
gain_keys = "stiffness" ∷ "translational_stiffness" ∷ "rotational_stiffness" ∷ "damping" ∷ []

-- `all(payload.get(key) is None for key in keys)`
unfoldable pub names_nothing : Value → List String → Result Bool
unfolding get is_none
names_nothing payload [] = ok true
names_nothing payload (key ∷ keys) =
    let rest = names_nothing payload keys in
    get payload key null >>= λ v. if is_none v then rest else ok false

module _ ⦃ops : FloatOps⦄ (N : Numpy) (franky : Franky) where
  -- `stiffness[i:j, i:j] = float(value) * np.eye(3)` if the block is named
  unfoldable pub with_block : ℕ → ℕ → Value → Value → Result Value
  unfolding is_none to_float
  with_block i j value stiffness =
      if is_none value
      then ok stiffness
      else (do x ← to_float value; block ← N.scaled_eye3 x; N.set_block i j stiffness block)

  unfoldable pub diagonal_or_none : Value → Result Value
  diagonal_or_none null = ok null
  diagonal_or_none damping = N.diag damping

  -- The motion's gains with the named blocks overwritten; damping that is not named is unpinned.
  unfoldable pub merged : Value → Value → Result Value
  unfolding with_block diagonal_or_none attr get
  merged payload current = do
    old ← attr current "stiffness"
    stiffness ← N.copy old
    translational ← get payload "translational_stiffness" null
    rotational ← get payload "rotational_stiffness" null
    stiffness1 ← with_block 0 3 translational stiffness
    stiffness2 ← with_block 3 6 rotational stiffness1
    current1 ← franky.assign current "stiffness" stiffness2
    given ← get payload "damping" null
    damping ← decode_damping given
    damping1 ← diagonal_or_none damping
    franky.assign current1 "damping" damping1
