-- ===== src/Python/Values.antt =====
-- A closed type of Python values: what the encoders read, and what crosses the wire.
use zero_franky.Base.{ℕ, String, Bool, List, [], ◌∷◌, Option, none, some, ◌==◌, if◌then◌else◌}
use zero_franky.Base.Int.{ℤ}

-- A double, by its 64 bits.
pub record Float : Type 0 where
  pub bits : ℕ

-- Lists and tuples are one constructor, since msgpack and the source treat them alike. An object is
-- its class name and its attributes; `method v` is a callable attribute with no argument that
-- returns `v` (`tolist`, `item`, `to_msec`, `__iter__`, `__str__`, `get_reference`).
mutual
  pub data Value : Type 0 where
    null : Value
    bool : Bool → Value
    int : ℤ → Value
    float : Float → Value
    str : String → Value
    bytes : List ℕ → Value
    list : Items → Value
    dict : Fields → Value
    object : String → Fields → Value
    method : Value → Value

  pub data Items : Type 0 where
    nil : Items
    cons : Value → Items → Items

  pub data Fields : Type 0 where
    end : Fields
    field : String → Value → Fields → Fields

abbrev pub items : List Value → Items
items [] = nil
items (v ∷ vs) = cons v (items vs)

abbrev pub fields : List (String × Value) → Fields
fields [] = end
fields ((k, v) ∷ rest) = field k v (fields rest)

abbrev pub lookup : String → Fields → Option Value
lookup k end = none
lookup k (field j v rest) = if j == k then some v else lookup k rest

abbrev pub dict_of : List (String × Value) → Value
dict_of entries = dict (fields entries)
