-- ===== src/Protocol/StateFields.antt =====
-- The fields of a robot's state that a client may ask for (protocol.py).
use zero_franky.Base.{
  eq_iff, Bool-cases, inl, inr, String, Bool, true, false, List, [], ◌∷◌, Option, none, some, ◌==◌,
  ◌||◌, ◌≡◌, refl, sym, ap, ◌∙◌, subst, if◌then◌else◌, arith,
}
use zero_franky.Python.Errors.{Result, ok, raise, error, type_error, value_error, ◌>>=◌}
use zero_franky.Python.Values.{Value, Items, null, str, list, nil, cons}
use zero_franky.Python.Attributes.{iterate}

abbrev pub full_state_fields : List String
full_state_fields =
    "EE_T_K" ∷ "F_T_EE" ∷ "F_T_NE" ∷ "F_x_Cee" ∷ "F_x_Cload" ∷ "F_x_Ctotal" ∷ "I_ee" ∷ "I_load"
    ∷ "I_total" ∷ "K_F_ext_hat_K" ∷ "NE_T_EE" ∷ "O_F_ext_hat_K" ∷ "O_T_EE" ∷ "O_T_EE_c" ∷ "O_T_EE_d"
    ∷ "O_dP_EE_c" ∷ "O_dP_EE_d" ∷ "O_dP_EE_est" ∷ "O_ddP_EE_c" ∷ "O_ddP_EE_est" ∷ "O_ddP_O"
    ∷ "cartesian_collision" ∷ "cartesian_contact" ∷ "control_command_success_rate"
    ∷ "current_errors" ∷ "ddelbow_c" ∷ "ddelbow_est" ∷ "ddq_d" ∷ "ddq_est" ∷ "delbow_c"
    ∷ "delbow_est" ∷ "dq" ∷ "dq_d" ∷ "dq_est" ∷ "dtau_J" ∷ "dtheta" ∷ "elbow" ∷ "elbow_c"
    ∷ "elbow_d" ∷ "joint_collision" ∷ "joint_contact" ∷ "last_motion_errors" ∷ "m_ee" ∷ "m_load"
    ∷ "m_total" ∷ "q" ∷ "q_d" ∷ "q_est" ∷ "robot_mode" ∷ "tau_J" ∷ "tau_J_d"
    ∷ "tau_ext_hat_filtered" ∷ "theta" ∷ "time" ∷ []

-- The fields of a state's stream that are no part of a robot's state
abbrev pub timing_fields : List String
timing_fields = "time_step" ∷ "rel_time" ∷ "abs_time" ∷ "control_signal" ∷ []

unfoldable pub is_field : String → List String → Bool
is_field name [] = false
is_field name (f ∷ fs) = f == name || is_field name fs

-- `name in _SUPPORTED_STATE_FIELDS`
unfoldable pub is_supported : String → Bool
unfolding is_field
is_supported name = is_field name full_state_fields || is_field name timing_fields

-- The names, if each item is a text
unfoldable pub field_names : Items → Result (List String)
field_names nil = ok []
field_names (cons (str s) vs) = do names ← field_names vs; ok (s ∷ names)
field_names (cons _ vs) = error type_error "state_fields must contain only strings"

-- `tuple(dict.fromkeys(names))`, past the names already kept
unfoldable pub from_keys : List String → List String → List String
unfolding is_field
from_keys kept [] = []
from_keys kept (name ∷ names) =
    let again = from_keys kept names in
    let rest = from_keys (name ∷ kept) names in if is_field name kept then again else name ∷ rest

unfoldable pub all_supported : List String → Bool
unfolding is_supported
all_supported [] = true
all_supported (name ∷ names) =
    let rest = all_supported names in if is_supported name then rest else false

unfoldable pub checked_fields : List String → Result (Option (List String))
unfolding all_supported
checked_fields selected =
    if all_supported selected
    then ok (some selected)
    else error value_error "Unsupported state fields"

unfoldable pub custom_fields : Value → Result (Option (List String))
unfolding iterate field_names from_keys checked_fields
custom_fields fields = do
  vs ← iterate fields
  names ← field_names vs
  checked_fields (from_keys [] names)

-- `none` is the fast profile.
unfoldable pub normalize_state_fields : Value → Result (Option (List String))
unfolding custom_fields
normalize_state_fields null = ok none
normalize_state_fields (str s) =
    if s == "fast"
    then ok none
    else if s == "full"
    then ok (some full_state_fields)
    else error type_error "state_fields must be 'fast', 'full', or a sequence of field names"
normalize_state_fields fields = custom_fields fields

abbrev pub texts : List String → Items
texts [] = nil
texts (s ∷ names) = cons (str s) (texts names)

field_names-texts : (names : List String) → field_names (texts names) ≡ ok names
unfolding field_names
field_names-texts [] = refl
field_names-texts (s ∷ names) = rw (field_names-texts names) refl

from_keys_again :
    (kept names : List String) → from_keys kept (from_keys kept names) ≡ from_keys kept names
unfolding from_keys
from_keys_again kept [] = refl
from_keys_again kept (name ∷ names) =
    go (is_field name kept) refl (from_keys_again kept names) (from_keys_again (name ∷ kept) names)
  where
    go :
        (b : Bool)
        → is_field name kept ≡ b
        → from_keys kept (from_keys kept names) ≡ from_keys kept names
        → from_keys (name ∷ kept) (from_keys (name ∷ kept) names) ≡ from_keys (name ∷ kept) names
        → from_keys kept (from_keys kept (name ∷ names)) ≡ from_keys kept (name ∷ names)
    go true e again rest = rw e again
    go false e again rest = rw e (rw e (ap (λ names. name ∷ names) rest))

-- The fields that are selected are those that were checked.
selected-checked_fields :
    (names selected : List String) → checked_fields names ≡ ok (some selected) → names ≡ selected
unfolding checked_fields
selected-checked_fields names selected h = ground (arith, h)

custom_fields-texts :
    (names : List String) → custom_fields (list (texts names)) ≡ checked_fields (from_keys [] names)
unfolding custom_fields iterate
custom_fields-texts names = rw (field_names-texts names) refl

selection_again :
    (names selected : List String)
    → checked_fields (from_keys [] names) ≡ ok (some selected)
    → custom_fields (list (texts selected)) ≡ ok (some selected)
selection_again names selected h =
    let e = selected-checked_fields (from_keys [] names) selected h in
    custom_fields-texts selected
    ∙ ap (λ s. checked_fields (from_keys [] s)) (sym e)
    ∙ ap checked_fields (from_keys_again [] names)
    ∙ h

full_again : custom_fields (list (texts full_state_fields)) ≡ ok (some full_state_fields)
unfolding checked_fields from_keys all_supported
full_again = custom_fields-texts full_state_fields ∙ refl

named_again :
    (r : Result (List String)) (selected : List String)
    → (r >>= λ names. checked_fields (from_keys [] names)) ≡ ok (some selected)
    → custom_fields (list (texts selected)) ≡ ok (some selected)
named_again (ok names) selected h = selection_again names selected h
named_again (raise e) selected h = ground (arith, h)

items_again :
    (r : Result Items) (selected : List String)
    → (r >>= λ vs. field_names vs >>= λ names. checked_fields (from_keys [] names))
      ≡ ok (some selected)
    → custom_fields (list (texts selected)) ≡ ok (some selected)
items_again (ok vs) selected h = named_again (field_names vs) selected h
items_again (raise e) selected h = ground (arith, h)

custom_again :
    (fields : Value) (selected : List String)
    → custom_fields fields ≡ ok (some selected)
    → custom_fields (list (texts selected)) ≡ ok (some selected)
unfolding custom_fields
custom_again fields selected h = items_again (iterate fields) selected h

selected-profile :
    (fast full : Bool) (selected : List String)
    → (if fast
        then ok none
        else if full
        then ok (some full_state_fields)
        else error type_error "state_fields must be 'fast', 'full', or a sequence of field names")
      ≡ ok (some selected)
    → full_state_fields ≡ selected
selected-profile true full selected h = ground (arith, h)
selected-profile false true selected h = ap chosen h
  where
    chosen : Result (Option (List String)) → List String
    chosen (ok (some names)) = names
    chosen _ = full_state_fields
selected-profile false false selected h = ground (arith, h)

both_tests : (a b : Bool) → (if a then b else false) ≡ true → (a ≡ true) × (b ≡ true)
both_tests a b h = ground (arith, h)

-- Every name of a checked list is supported.
is_supported-all_supported :
    (name : String) (names : List String)
    → all_supported names ≡ true
    → is_field name names ≡ true
    → is_supported name ≡ true
unfolding all_supported is_field
is_supported-all_supported name [] h k = ground (arith, k)
is_supported-all_supported name (n ∷ names) h k =
    let (first, rest) = both_tests (is_supported n) (all_supported names) h in
    elim (Bool-cases (n == name)) [
      | inl same ↦ subst (λ x. is_supported x ≡ true) ((eq_iff n name).0 same) first
      | inr other ↦
          is_supported-all_supported name names rest
            (subst (λ b. (b || is_field name names) ≡ true) other k)
    ]

all_supported-checked_fields :
    (names selected : List String)
    → checked_fields names ≡ ok (some selected)
    → all_supported names ≡ true
unfolding checked_fields
all_supported-checked_fields names selected h = ground (arith, h)

normalize_state_fields_again :
    (fields : Value) (selected : List String)
    → normalize_state_fields fields ≡ ok (some selected)
    → normalize_state_fields (list (texts selected)) ≡ ok (some selected)
unfolding normalize_state_fields
normalize_state_fields_again null selected h = ground (arith, h)
normalize_state_fields_again (str s) selected h =
    subst (λ names. custom_fields (list (texts names)) ≡ ok (some names))
      (selected-profile (s == "fast") (s == "full") selected h) full_again
normalize_state_fields_again fields selected h = custom_again fields selected h

custom_fields-selected :
    (selected : List String)
    → custom_fields (list (texts selected)) ≡ ok (some selected)
    → all_supported selected ≡ true
custom_fields-selected selected h =
    let e = sym (custom_fields-texts selected) ∙ h in
    subst (λ names. all_supported names ≡ true)
      (selected-checked_fields (from_keys [] selected) selected e)
      (all_supported-checked_fields (from_keys [] selected) selected e)

-- The fields that a configuration selects, also by the full profile, are each one of the full profile's or
-- one of the stream's own four, and a configuration that lists them selects them again, in their order.
pub normalize_state_fields-supported :
    (fields : Value) (selected : List String)
    → normalize_state_fields fields ≡ ok (some selected)
    → ((name : String)
        → is_field name selected ≡ true
        → (is_field name full_state_fields || is_field name timing_fields) ≡ true)
      × (normalize_state_fields (list (texts selected)) ≡ ok (some selected))
unfolding normalize_state_fields is_supported
normalize_state_fields-supported fields selected h =
    let again = normalize_state_fields_again fields selected h in
    (
      λ name k. is_supported-all_supported name selected (custom_fields-selected selected again) k,
      again,
    )
