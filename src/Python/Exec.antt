-- ===== src/Python/Exec.antt =====
-- Methods that change a state and may raise: what was written before a raise stays written.
pub mod Keeps
use zero_franky.Python.Errors.{Exc, Result, ok, raise}

abbrev pub Exec {ℓ} : Type ℓ → Type ℓ → Type ℓ
Exec S A = S → Result A × S

module _ {ℓ} {S : Type ℓ} where
  abbrev pub pure : {A : Type ℓ} → A → Exec S A
  pure a s = (ok a, s)

  abbrev pub fail : {A : Type ℓ} → Exc → Exec S A
  fail e s = (raise e, s)

  -- A computation that leaves the state alone.
  abbrev pub lift : {A : Type ℓ} → Result A → Exec S A
  lift r s = (r, s)

  abbrev pub gets : {A : Type ℓ} → (S → A) → Exec S A
  gets f s = (ok (f s), s)

  abbrev pub modify : (S → S) → Exec S (Unit {ℓ})
  modify f s = (ok tt, f s)

  abbrev continue : {A B : Type ℓ} → Result A → (A → Exec S B) → S → Result B × S
  continue (ok a) f s = f a s
  continue (raise e) f s = (raise e, s)

  infixl 10 ◌>>=◌ ◌>>◌
  abbrev pub ◌>>=◌ : {A B : Type ℓ} → Exec S A → (A → Exec S B) → Exec S B
  ◌>>=◌ m f s = continue (m s).0 f (m s).1

  abbrev pub ◌>>◌ : {A B : Type ℓ} → Exec S A → Exec S B → Exec S B
  m >> k = m >>= λ _. k

  abbrev handled : {A : Type ℓ} → Result A → (Exc → Exec S A) → S → Result A × S
  handled (ok a) h s = (ok a, s)
  handled (raise e) h s = h e s

  -- `try: m except Exception as e: h e`
  abbrev pub catch : {A : Type ℓ} → Exec S A → (Exc → Exec S A) → Exec S A
  catch m h s = handled (m s).0 h (m s).1

  abbrev concluded : {A B : Type ℓ} → Result A → Result B × S → Result A × S
  concluded r (ok b, s) = (r, s)
  concluded r (raise e, s) = (raise e, s)

  -- `try: m finally: k`
  abbrev pub finally : {A B : Type ℓ} → Exec S A → Exec S B → Exec S A
  finally m k s = concluded (m s).0 (k (m s).1)
