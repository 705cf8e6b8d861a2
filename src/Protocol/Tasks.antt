-- ===== src/Protocol/Tasks.antt =====
-- The nullspace tasks of a Cartesian impedance motion (protocol.py).
use zero_franky.Base.{
  ◌+◌, ◌≤◌, String, ◌≡◌, refl, sym, subst, inl, inr, Bool-cases, ◌&&◌, Bool, true, false, ◌==◌,
  arith, eq_iff,
}
use zero_franky.Python.Errors.{ok}
use zero_franky.Python.Values.{Value, Items, nil, cons}
use zero_franky.Python.Attributes.{count, type_name}
use zero_franky.Protocol.Impedance.{tasks_of, any_unsupported, select_tasks}

exclusive : (n : String) → (n == "PostureTask") ≡ true → (n == "ManipulabilityTask") ≡ false
exclusive n h =
    subst (λ x. (x == "ManipulabilityTask") ≡ false) (sym ((eq_iff n "PostureTask").0 h)) refl

count_step :
    (task : Value) (tasks : Items) (posture manipulability : Bool)
    → (type_name task == "PostureTask") ≡ posture
    → (type_name task == "ManipulabilityTask") ≡ manipulability
    → any_unsupported (cons task tasks) ≡ false
    → (any_unsupported tasks ≡ false
        → count tasks
          ≡ count (tasks_of "PostureTask" tasks) + count (tasks_of "ManipulabilityTask" tasks))
    → (posture && manipulability) ≡ false
    → count (cons task tasks)
      ≡ count (tasks_of "PostureTask" (cons task tasks))
        + count (tasks_of "ManipulabilityTask" (cons task tasks))
unfolding any_unsupported tasks_of count
count_step task tasks true true p m h rec excl = ground (arith, excl)
count_step task tasks true false p m h rec excl = rw (p, m) (ground (arith, p, m, rec, h))
count_step task tasks false true p m h rec excl = rw (p, m) (ground (arith, p, m, rec, h))
count_step task tasks false false p m h rec excl = ground (arith, p, m, h)

-- Tasks that are all of the two classes are the posture tasks and the manipulability tasks.
count-tasks_of :
    (tasks : Items)
    → any_unsupported tasks ≡ false
    → count tasks
      ≡ count (tasks_of "PostureTask" tasks) + count (tasks_of "ManipulabilityTask" tasks)
unfolding any_unsupported tasks_of count
count-tasks_of nil h = refl
count-tasks_of (cons task tasks) h = elim (Bool-cases (type_name task == "PostureTask")) [
  | inl posture ↦
      count_step task tasks true false posture (exclusive (type_name task) posture) h
        (count-tasks_of tasks) refl
  | inr other ↦ count_step task tasks false _ other refl h (count-tasks_of tasks) refl
]

-- Tasks that are accepted are two at most, and none of them is of another class than the two.
pub count-select_tasks :
    (tasks : Items) (selected : Value × Value)
    → select_tasks tasks ≡ ok selected
    → (any_unsupported tasks ≡ false) × (count tasks ≤ 2)
unfolding select_tasks
count-select_tasks tasks selected h = elim (Bool-cases (any_unsupported tasks)) [
  | inl unsupported ↦ ground arith
  | inr supported ↦ (supported, ground (arith, count-tasks_of tasks supported))
]
