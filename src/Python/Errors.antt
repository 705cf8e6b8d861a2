-- ===== src/Python/Errors.antt =====
-- Exceptions and `format_exception` (zero_franky/protocol.py, zero_franky/robotiq.py).
use zero_franky.Base.{String}

-- The classes that the source raises or catches; `other` is any class of a library.
pub data ExcClass : Type 0 where
  protocol_error unsupported_motion_type rpc_error tracker_policy_error : ExcClass
  key_error value_error type_error attribute_error runtime_error index_error : ExcClass
  not_implemented_error timeout_error connection_error overflow_error : ExcClass
  control_exception : ExcClass
  other : String → ExcClass

-- An exception is its class and the text that it was raised with.
pub record Exc : Type 0 where
  pub cls : ExcClass
  pub message : String

pub data Result {ℓ} (A : Type ℓ) : Type ℓ where
  ok : A → Result A
  raise : Exc → Result A

abbrev pub error {ℓ} : {A : Type ℓ} → ExcClass → String → Result A
error c m = raise (record { cls = c; message = m })

infixl 10 ◌>>=◌ ◌>>◌
abbrev pub ◌>>=◌ {ℓ κ} : {A : Type ℓ} {B : Type κ} → Result A → (A → Result B) → Result B
ok a >>= f = f a
raise e >>= f = raise e

abbrev pub ◌>>◌ {ℓ κ} : {A : Type ℓ} {B : Type κ} → Result A → Result B → Result B
m >> k = m >>= λ _. k

-- `except KeyError as exc: raise replacement from exc`
abbrev pub on_key_error {ℓ} : {A : Type ℓ} → Result A → Exc → Result A
on_key_error (ok a) e = ok a
on_key_error (raise x) e = elim x.cls [ key_error ↦ raise e | _ ↦ raise x ]
