-- ===== src/Daemon/Rows.antt =====
-- The table `tasks` as a map from ids: what the UPDATE, DELETE and INSERT statements do to a look-up.
use stockyard.Base.{
  ◌≡◌, refl, String, Option, none, some, List, [], ◌∷◌, ◌++◌, str_eq, eq_iff, arith, if◌then◌else◌,
}
use stockyard.Daemon.World.{Task}
use stockyard.Daemon.State.{find_task, update_rows, delete_rows}

-- The update keeps the primary key.
abbrev pub KeepsId : (Task → Task) → Type 0
KeepsId f = (t : Task) → (f t).id ≡ t.id

abbrev pub map_row : (Task → Task) → Option Task → Option Task
map_row f none = none
map_row f (some t) = some (f t)

pub find_task-id : (id : String) (ts : List Task) {t : Task} → find_task id ts ≡ some t → t.id ≡ id
unfolding find_task
find_task-id id [] h = ground arith
find_task-id id (u ∷ us) {t} h = ground (arith, eq_iff u.id id, find_task-id id us {t = t})

pub find_task-update_rows :
    (k j : String) (f : Task → Task) (ts : List Task)
    → KeepsId f
    → find_task j (update_rows k f ts)
      ≡ (if str_eq k j then map_row f (find_task j ts) else find_task j ts)
unfolding find_task update_rows
find_task-update_rows k j f [] h = ground arith
find_task-update_rows k j f (t ∷ ts) h =
    ground (arith, h t, eq_iff k j, eq_iff t.id k, eq_iff t.id j, find_task-update_rows k j f ts h)

pub find_task-delete_rows :
    (k j : String) (ts : List Task)
    → find_task j (delete_rows k ts) ≡ (if str_eq k j then none else find_task j ts)
unfolding find_task delete_rows
find_task-delete_rows k j [] = ground arith
find_task-delete_rows k j (t ∷ ts) =
    ground (arith, eq_iff k j, eq_iff t.id k, eq_iff t.id j, find_task-delete_rows k j ts)

pub find_task-append :
    (j : String) (ts : List Task) (t : Task)
    → find_task j (ts ++ (t ∷ []))
      ≡ elim (find_task j ts) [ some u ↦ some u | none ↦ if str_eq t.id j then some t else none ]
unfolding find_task
find_task-append j [] t = refl
find_task-append j (u ∷ us) t = ground (arith, find_task-append j us t)
