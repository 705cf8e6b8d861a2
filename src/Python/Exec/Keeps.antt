-- ===== src/Python/Exec/Keeps.antt =====
-- Relations between the state before and the state after, one rule for each way to build a method.
use zero_franky.Python.Errors.{Exc, Result, ok, raise}
use zero_franky.Python.Exec.{Exec, ◌>>=◌, catch, finally}

module _ {ℓ} {S : Type ℓ} (R : S → S → Type ℓ) where
  -- `m` leads from each state to a related one, whether it returns or raises.
  abbrev pub Moves : {A : Type ℓ} → Exec S A → Type ℓ
  Moves m = (s : S) → R s (m s).1

module _ {ℓ} {S : Type ℓ} (R : S → S → Type ℓ) (trans : (s t u : S) → R s t → R t u → R s u) where
  pub Moves-bind :
      {A B : Type ℓ} (m : Exec S A) (f : A → Exec S B)
      → Moves R m
      → ((a : A) → Moves R (f a))
      → Moves R (m >>= f)
  Moves-bind {A} {B} m f hm hf s = go (m s).0 (m s).1 (hm s)
    where
      go : (r : Result A) (t : S) → R s t → R s (((λ (u : S). (r, t)) >>= f) s).1
      go (ok a) t h = trans s t _ h (hf a t)
      go (raise e) t h = h

  pub Moves-catch :
      {A : Type ℓ} (m : Exec S A) (h : Exc → Exec S A)
      → Moves R m
      → ((e : Exc) → Moves R (h e))
      → Moves R (catch m h)
  Moves-catch {A} m f hm hf s = go (m s).0 (m s).1 (hm s)
    where
      go : (r : Result A) (t : S) → R s t → R s (catch (λ (u : S). (r, t)) f s).1
      go (ok a) t h = h
      go (raise e) t h = trans s t _ h (hf e t)

  pub Moves-finally :
      {A B : Type ℓ} (m : Exec S A) (k : Exec S B) → Moves R m → Moves R k → Moves R (finally m k)
  Moves-finally {A} {B} m k hm hk s = trans s (m s).1 _ (hm s) (go (k (m s).1).0 (hk (m s).1))
    where
      go :
          (r : Result B)
          → R (m s).1 (k (m s).1).1
          → R (m s).1 (finally m (λ (u : S). (r, (k (m s).1).1)) s).1
      go (ok b) h = h
      go (raise e) h = h
