-- ===== src/Zfs/Snapshots.antt =====
-- The names of snapshots, as they are made and as they are read from a listing.
use stockyard.Base.{
  text_eq, List, ℕ, ◌==◌, ◌≡◌, refl, inl, inr, Text, codes, true, false, none, some, String, lacks,
  str_eq, [], ◌∷◌, ◌++◌, arith, Bool-cases,
}
use Prim.Native.Char.{code}
use stockyard.Daemon.Registry.{sanitize_dataset_component, is_dataset_char}
use stockyard.Zfs.{Manager, after_last, build_snapshot_name, full_name, snapshots_of, dataset_path}

lacks-append : (c : ℕ) (s t : Text) → lacks c s ≡ true → lacks c t ≡ true → lacks c (s ++ t) ≡ true
unfolding lacks
lacks-append c [] t hs ht = ht
lacks-append c (a ∷ s) t hs ht = ground (arith, lacks-append c s t)

after_last-none : (c : ℕ) (s : Text) → lacks c s ≡ true → after_last c s ≡ none
unfolding lacks after_last
after_last-none c [] h = refl
after_last-none c (a ∷ s) h = ground (arith, after_last-none c s)

after_last-append : (c : ℕ) (s t : Text) → lacks c t ≡ true → after_last c (s ++ c ∷ t) ≡ some t
unfolding after_last
after_last-append c [] t h = ground (arith, after_last-none c t h)
after_last-append c (a ∷ s) t h = ground (arith, after_last-append c s t h)

safe_char : (c : ℕ) → is_dataset_char c ≡ true → (c == 64) ≡ false
safe_char c e = ground arith

-- A label has no `@` once it is made safe.
sanitized-lacks : (label : String) → lacks 64 (codes (sanitize_dataset_component label)) ≡ true
unfolding lacks sanitize_dataset_component
sanitized-lacks String.[] = refl
sanitized-lacks (String.◌∷◌ c s) = elim (Bool-cases (is_dataset_char (code c))) [
  | inl e ↦ rw (e) (ground (arith, safe_char (code c) e, sanitized-lacks s))
  | inr e ↦ rw (e) (ground (arith, sanitized-lacks s))
]

not_empty : (s t : Text) → text_eq (s ++ 64 ∷ t) [] ≡ false
unfolding text_eq
not_empty [] t = refl
not_empty (a ∷ s) t = refl

module _ (m : Manager) where
  name-lacks :
      (task_id time : Text) (label : String)
      → lacks 64 task_id ≡ true
      → lacks 64 time ≡ true
      → lacks 64 (build_snapshot_name m task_id time label) ≡ true
  unfolding build_snapshot_name lacks
  name-lacks task_id time label ht hm =
      let base = task_id ++ codes "-" in
      let dated = lacks-append 64 base time (lacks-append 64 task_id (codes "-") ht refl) hm in
      let dashed = lacks-append 64 (base ++ time) (codes "-") dated refl in
      let all =
        lacks-append 64 (base ++ time ++ codes "-") (codes (sanitize_dataset_component label))
          dashed (sanitized-lacks label) in
      elim (Bool-cases (str_eq (sanitize_dataset_component label) "")) [
        | inl e ↦ rw (e) dated
        | inr e ↦ rw (e) all
      ]

  -- The name of a snapshot is what is read from the line of its listing.
  listed-created :
      (task_id time : Text) (label : String)
      → lacks 64 task_id ≡ true
      → lacks 64 time ≡ true
      → let name = build_snapshot_name m task_id time label in
        after_last 64 (full_name m task_id name) ≡ some name
  listed-created task_id time label ht hm =
      after_last-append 64 _ (build_snapshot_name m task_id time label)
        (name-lacks task_id time label ht hm)

  -- The names of snapshots taken at these times with these labels.
  unfoldable pub names_of : Text → List (Text × String) → List Text
  names_of task_id [] = []
  names_of task_id ((time, label) ∷ more) =
      build_snapshot_name m task_id time label ∷ names_of task_id more

  -- The lines of `zfs list` for snapshots of a task.
  unfoldable pub lines_for : Text → List Text → List Text
  lines_for task_id [] = []
  lines_for task_id (name ∷ names) = full_name m task_id name ∷ lines_for task_id names

  -- No time has an `@`.
  abbrev pub AllPlain : List (Text × String) → Type 0
  AllPlain [] = Unit {0}
  AllPlain ((time, label) ∷ more) = (lacks 64 time ≡ true) × AllPlain more

  -- Whatever the labels, the names that `ListSnapshots` reads from the lines of the snapshots that
  -- `CreateSnapshot` has named are those names, in order, if the task's id and the times hold no `@`.
  pub snapshots_of-names :
      (task_id : Text) (taken : List (Text × String))
      → lacks 64 task_id ≡ true
      → AllPlain taken
      → snapshots_of (lines_for task_id (names_of task_id taken)) ≡ names_of task_id taken
  unfolding snapshots_of names_of lines_for
  snapshots_of-names task_id [] ht all = refl
  snapshots_of-names task_id ((time, label) ∷ more) ht all = ground (
    arith,
    listed-created task_id time label ht all.0,
    not_empty (dataset_path m task_id) (build_snapshot_name m task_id time label),
    snapshots_of-names task_id more ht all.1,
  )
