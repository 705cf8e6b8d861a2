-- ===== src/Manager/History.antt =====
-- The bounded history of finished sessions, and what a stop does to the manager (zmq_server.py).
use zero_franky.Base.{◌≤◌, String, ◌≡◌, refl, none, some, [], ◌∷◌, length, arith, eq_iff}
use zero_franky.Base.Dict.{Dict, lookup, insert, lookup-insert}
use zero_franky.Session.State.{Status}
use zero_franky.Manager.State.{evict, finished_status_history}

pub length-evict : (d : Dict Status) → length (evict d) ≤ finished_status_history
unfolding evict
length-evict [] = omega arith
length-evict (entry ∷ rest) = ground (arith, length-evict rest)

pub evict_short : (d : Dict Status) → length d ≤ finished_status_history → evict d ≡ d
unfolding evict
evict_short [] h = refl
evict_short (entry ∷ rest) h = ground arith

-- An entry under a new key survives the eviction that follows it, however long the history is.
pub lookup-evict-insert :
    (k : String) (v : Status) (d : Dict Status)
    → lookup k d ≡ none
    → lookup k (evict (insert k v d)) ≡ some v
unfolding evict insert lookup
lookup-evict-insert k v [] h = ground (arith, eq_iff k k)
lookup-evict-insert k v ((j, u) ∷ d) h =
    ground (arith, eq_iff j k, eq_iff k k, lookup-evict-insert k v d, lookup-insert k k v d)
