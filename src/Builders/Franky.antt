-- ===== src/Builders/Franky.antt =====
-- The `franky` module as the builders see it: its classes, called with positional and with keyword
-- arguments, and the members of its enum. The server hands in the installed package; the tests hand
-- in zero_franky.types.
use zero_franky.Base.{String, Bool, List}
use zero_franky.Python.Errors.{Result}
use zero_franky.Python.Values.{Value}

pub record Franky : Type 0 where
  -- `franky.cls(*args, **kwargs)`
  pub construct : String → List Value → List (String × Value) → Result Value
  -- `getattr(franky.ReferenceType, name)`
  pub reference_type : Value → Result Value
  -- `object.name = value`
  pub assign : Value → String → Value → Result Value
  -- `hasattr(franky.CartesianImpedanceGains, "isotropic")`
  pub has_isotropic : Bool
