-- ===== src/Server/Runs/Follows.antt =====
-- Each request is a step of a run, whatever it asks for and whatever it raises.
use zero_franky.Base.{String, sym, subst, Option, none, some}
use zero_franky.Python.Errors.{Result, ok, raise}
use zero_franky.Python.Values.{
  Value, Fields, null, bool, int, float, str, bytes, list, dict, object, method,
  lookup as lookup_field,
}
use zero_franky.Python.Attributes.{FloatOps}
use zero_franky.Python.Exec.{Exec, pure, lift, ◌>>=◌}
use zero_franky.Python.Exec.Keeps.{Moves}
use zero_franky.Rpc.Params.{with_result, with_found, with_key, required}
use zero_franky.Session.Hardware.{Hardware}
use zero_franky.Manager.State.{ManagerState}
use zero_franky.Manager.Runs.{Reachable, step_on, world_moves}
use zero_franky.Server.Runs.Same.{Same}

module _ ⦃ops : FloatOps⦄ (H : Hardware) where
  open H use {World}

  -- What a reachable state leads to is reachable.
  abbrev pub Follows : ManagerState H → ManagerState H → Type 0
  Follows x y = Reachable H x → Reachable H y

  pub record Kept (m : Exec (ManagerState H) Value) : Type 0 where
    pub keeps : Moves Follows m

  pub Same-Follows : (x y : ManagerState H) → Same H x y → Follows x y
  Same-Follows x y h run =
      subst (λ m. Reachable H (m, y.1)) (sym h) (step_on x (x.0, y.1) run (world_moves x.0 x.1 y.1))

  pub same : {m : Exec (ManagerState H) Value} → Moves (Same H) m → Kept m
  same {m} h = record { keeps = λ x. Same-Follows x (m x).1 (h x) }

  pub unchanged : (r : Result Value) → Kept (lift r)
  unchanged r = record { keeps = λ x run. run }

  -- A method, and a result made of what it returns.
  pub kept_then :
      {A : Type 0} (m : Exec (ManagerState H) A) (f : A → Value)
      → Moves Follows m
      → Kept (m >>= λ a. pure (f a))
  kept_then {A} m f h = record { keeps = λ x. go x (m x).0 (m x).1 (h x) }
    where
      go :
          (x : ManagerState H) (r : Result A) (t : ManagerState H)
          → Follows x t
          → Follows x (((λ (u : ManagerState H). (r, t)) >>= λ a. pure (f a)) x).1
      go x (ok a) t k = k
      go x (raise e) t k = k

  pub kept_result :
      {A : Type 0} (r : Result A) (f : A → Exec (ManagerState H) Value)
      → ((a : A) → Kept (f a))
      → Kept (with_result r f)
  unfolding with_result
  kept_result (ok a) f h = h a
  kept_result (raise e) f h = record { keeps = λ x run. run }

  pub kept_found :
      (o : Option Value) (key : String) (f : Value → Exec (ManagerState H) Value)
      → ((v : Value) → Kept (f v))
      → Kept (with_found o key f)
  unfolding with_found
  kept_found (some v) key f h = h v
  kept_found none key f h = unchanged _

  pub kept_key :
      (d : Fields) (key : String) (f : Value → Exec (ManagerState H) Value)
      → ((v : Value) → Kept (f v))
      → Kept (with_key d key f)
  unfolding with_key
  kept_key d key f h = kept_found (lookup_field key d) key f h

  pub kept_required :
      (p : Value) (key : String) (f : Value → Fields → Exec (ManagerState H) Value)
      → ((v : Value) (d : Fields) → Kept (f v d))
      → Kept (required p key f)
  unfolding required
  kept_required (dict d) key f h = kept_key d key (λ v. f v d) (λ v. h v d)
  kept_required null key f h = unchanged _
  kept_required (bool b) key f h = unchanged _
  kept_required (int n) key f h = unchanged _
  kept_required (float x) key f h = unchanged _
  kept_required (str s) key f h = unchanged _
  kept_required (bytes b) key f h = unchanged _
  kept_required (list xs) key f h = unchanged _
  kept_required (object c attrs) key f h = unchanged _
  kept_required (method v) key f h = unchanged _
