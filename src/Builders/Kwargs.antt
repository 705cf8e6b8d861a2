-- ===== src/Builders/Kwargs.antt =====
-- The keyword arguments of a builder: the two ways of leaving out what is None.
use zero_franky.Base.{String, ◌≡◌, refl, [], ◌∷◌, List, arith}
use zero_franky.Python.Errors.{ok}
use zero_franky.Python.Values.{null, dict, Fields, lookup}
use zero_franky.Python.Attributes.{get_or, get}
use zero_franky.Builders.Impedance.{Kwargs, drop_none, kwargs_without_none}

-- `{key: payload.get(key) for key in keys}`
unfoldable pub kwargs_or_none : Fields → List String → Kwargs
unfolding get_or
kwargs_or_none d [] = []
kwargs_or_none d (key ∷ keys) = (key, get_or (lookup key d) null) ∷ kwargs_or_none d keys

-- Asking for each key leaves out what a filter over all of them leaves out, and raises nothing.
pub kwargs_without_none-drop_none :
    (d : Fields) (keys : List String)
    → kwargs_without_none (dict d) keys ≡ ok (drop_none (kwargs_or_none d keys))
unfolding kwargs_without_none kwargs_or_none drop_none get get_or
kwargs_without_none-drop_none d [] = refl
kwargs_without_none-drop_none d (key ∷ keys) =
    rw (kwargs_without_none-drop_none d keys) (ground arith)
