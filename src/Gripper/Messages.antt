-- ===== src/Gripper/Messages.antt =====
-- The messages between the gripper's client and its server that msgpack has to carry (robotiq.py).
use zero_franky.Base.{String, Bool, true, false, not, ◌&&◌, ◌||◌, ◌==◌, ◌≡◌, leb, List, [], ◌∷◌}
use zero_franky.Base.Int.{pos}
use zero_franky.Python.Values.{Value, bool, int, float, dict, Fields, end, field}
use zero_franky.Rpc.Codec.{Codec, Survives}
use zero_franky.Rpc.Outcome.{request_of}

-- The names of the parameters of the gripper's methods
abbrev parameter_names : List String
parameter_names =
    "reset" ∷ "start" ∷ "refresh_status" ∷ "speed" ∷ "force" ∷ "wait" ∷ "read_status" ∷ "position"
    ∷ "width_mm" ∷ "close_mm" ∷ "open_mm" ∷ []

unfoldable pub is_one_of : String → List String → Bool
is_one_of k [] = false
is_one_of k (j ∷ js) = j == k || is_one_of k js

unfoldable pub is_key : String → Fields → Bool
is_key k end = false
is_key k (field j v rest) = j == k || is_key k rest

-- Flags, doubles and bytes
unfoldable pub is_argument : Value → Bool
is_argument (bool b) = true
is_argument (float x) = true
is_argument (int (pos n)) = leb n 255
is_argument _ = false

unfoldable pub are_arguments : Fields → Bool
unfolding is_argument is_one_of is_key
are_arguments end = true
are_arguments (field k v rest) =
    is_argument v && (is_one_of k parameter_names && (not (is_key k rest) && are_arguments rest))

-- A dict of the methods' parameters, each once at most, with flags, doubles and bytes
unfoldable pub is_parameters : Value → Bool
unfolding are_arguments
is_parameters (dict d) = are_arguments d
is_parameters _ = false

-- msgpack carries the requests for one method that have an id and such parameters.
abbrev pub Carries : Codec → String → String → Type 0
Carries C id name =
    (params : Value) → is_parameters params ≡ true → Survives C (request_of id name params)
