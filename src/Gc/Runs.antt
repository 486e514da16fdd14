-- ===== src/Gc/Runs.antt =====
-- What a run of the garbage collector (cmd/stockyard/gc.go) does to the host.
use stockyard.Base.{
  ◌≡◌, ◌⊎◌, ◌||◌, refl, arith, inl, inr, Bool, true, false, not, ◌&&◌, Option, none, some, List, [],
  ◌∷◌, ◌++◌, Text, codes, TextMap, find_text, if◌then◌else◌, Bool-cases, Option-cases,
}
use stockyard.Gc.Collect.{
  CleanupItem, ItemType, stopped_task, vm_dir, zfs_vm, zfs_workspace, tap, VmDir, Host, Flags, join,
  is_known, dataset_id, find_resources, or_empty, load_tasks,
}
use stockyard.Gc.Clean.{
  Command, is_dry, destroy_task, destroy_dataset, delete_link, kill_vm, remove_dir, archive,
  clean_task, find_dir, kill_process, drop_tap, clean_vm_dir, clean_tap, clean_item, clean, run_gc,
}
use stockyard.Gc.Spares.{MayGo, AllMayGo, find_resources-AllMayGo}

module _ (host : Host) (task_ids : TextMap) where
  -- What a run may do: destroy a task that is stopped, and touch directories and datasets of no task.
  abbrev pub MayRun : Command → Type 0
  MayRun (destroy_task id) = find_text id task_ids ≡ some (codes "stopped")
  MayRun (destroy_dataset path) = is_known (dataset_id path) task_ids ≡ false
  MayRun (delete_link name) = Unit {0}
  MayRun (kill_vm path) =
      (id : Text) × (is_known id task_ids ≡ false) × (path ≡ join host.vm_path id)
  MayRun (remove_dir path) =
      (id : Text) × (is_known id task_ids ≡ false) × (path ≡ join host.vm_path id)
  MayRun (archive path id) = (is_known id task_ids ≡ false) × (path ≡ join host.vm_path id)

  abbrev pub AllMayRun : List Command → Type 0
  AllMayRun [] = Unit {0}
  AllMayRun (c ∷ cs) = MayRun c × AllMayRun cs

  append-AllMayRun : (xs ys : List Command) → AllMayRun xs → AllMayRun ys → AllMayRun (xs ++ ys)
  append-AllMayRun [] ys h k = k
  append-AllMayRun (x ∷ xs) ys h k = (h.0, append-AllMayRun xs ys h.1 k)

  module _ (fails : Command → Option Text) (has_client : Bool) where
    kill-AllMayRun :
        (id path : Text)
        → is_known id task_ids ≡ false
        → path ≡ join host.vm_path id
        → (found : Option VmDir) → AllMayRun (kill_process fails host has_client path found)
    unfolding kill_process
    kill-AllMayRun id path unknown at none = tt
    kill-AllMayRun id path unknown at (some d) = elim (Bool-cases d.has_pid) [
      | inl e ↦ rw (e, kill_process) ((id, unknown, at), tt)
      | inr e ↦ rw (e, kill_process) tt
    ]

    drop_tap-AllMayRun : (found : Option VmDir) → AllMayRun (drop_tap fails host has_client found)
    unfolding drop_tap
    drop_tap-AllMayRun none = tt
    drop_tap-AllMayRun (some d) = elim (Option-cases d.tap_name) [
      | inl e ↦ rw (e, drop_tap) tt
      | inr (name, e) ↦ rw (e, drop_tap) (tt, tt)
    ]

    kept-AllMayRun :
        (id path : Text)
        → is_known id task_ids ≡ false
        → path ≡ join host.vm_path id
        → (b : Bool) → AllMayRun (if b then archive path id ∷ [] else [])
    kept-AllMayRun id path unknown at true = ((unknown, at), tt)
    kept-AllMayRun id path unknown at false = tt

    vm_dir-AllMayRun :
        (id path : Text)
        → is_known id task_ids ≡ false
        → path ≡ join host.vm_path id
        → AllMayRun (clean_vm_dir fails host has_client id path).0
    unfolding clean_vm_dir
    vm_dir-AllMayRun id path unknown at =
        let found = find_dir fails host has_client id (or_empty host.vm_dirs) in
        let kept = if host.has_archiver then archive path id ∷ [] else [] in
        let gone : AllMayRun (remove_dir path ∷ []) = ((id, unknown, at), tt) in
        append-AllMayRun (kill_process fails host has_client path found)
          (drop_tap fails host has_client found ++ (kept ++ (remove_dir path ∷ [])))
          (kill-AllMayRun id path unknown at found)
          (append-AllMayRun (drop_tap fails host has_client found) (kept ++ (remove_dir path ∷ []))
            (drop_tap-AllMayRun found)
            (append-AllMayRun kept (remove_dir path ∷ [])
              (kept-AllMayRun id path unknown at host.has_archiver) gone))

    clean_item-AllMayRun :
        (id path : Text) (is_orphan : Bool) (kind : ItemType)
        → MayGo host task_ids (record { id = id; kind = kind; path = path; is_orphan = is_orphan })
        → AllMayRun
            (clean_item fails host has_client
              (record { id = id; kind = kind; path = path; is_orphan = is_orphan })).0
    unfolding clean_item clean_task clean_tap
    clean_item-AllMayRun id path is_orphan stopped_task h = elim (Bool-cases has_client) [
      | inl e ↦ rw (e, clean_item, clean_task) (h, tt)
      | inr e ↦ rw (e, clean_item, clean_task) tt
    ]
    clean_item-AllMayRun id path is_orphan vm_dir h = vm_dir-AllMayRun id path h.0 h.1
    clean_item-AllMayRun id path is_orphan zfs_vm h = (h, tt)
    clean_item-AllMayRun id path is_orphan zfs_workspace h = (h, tt)
    clean_item-AllMayRun id path is_orphan tap h = (tt, tt)

    clean-AllMayRun :
        (items : List CleanupItem)
        → AllMayGo host task_ids items
        → AllMayRun (clean fails host has_client items).0
    unfolding clean
    clean-AllMayRun [] h = tt
    clean-AllMayRun (item ∷ items) h =
        append-AllMayRun (clean_item fails host has_client item).0
          (clean fails host has_client items).0
          (clean_item-AllMayRun item.id item.path item.is_orphan item.kind h.0)
          (clean-AllMayRun items h.1)

abbrev pub answered : Option (List (Text × Text)) → Bool
answered none = false
answered (some tasks) = true

-- What the user has asked for is to be done.
abbrev pub Asked : Flags → Option (List (Text × Text)) → Type 0
Asked flags listed =
    (flags.dry_run ≡ false)
    × (flags.clean_all || flags.clean_orphans ≡ true)
    × (answered listed || flags.clean_orphans ≡ true)

not_dry :
    (flags : Flags) (listed : Option (List (Text × Text)))
    → not (answered listed) && not flags.clean_orphans ≡ false
    → is_dry flags ≡ false
    → Asked flags listed
not_dry flags none e q = ground arith
not_dry flags (some tasks) e q = ground arith

-- A run of `gc` destroys no task but the stopped ones of the daemon's list, and destroys, removes or
-- archives only datasets and directories whose id is none of the listed tasks'. It does nothing at
-- all, unless a flag asks for all or for orphans, `--dry-run` is not given, and the daemon has answered
-- or orphans are asked for.
pub run_gc-AllMayRun :
    (fails : Command → Option Text) (flags : Flags) (host : Host)
    (listed : Option (List (Text × Text)))
    → AllMayRun host (load_tasks (or_empty listed) []) (run_gc fails flags host listed).0
      × (((run_gc fails flags host listed).0 ≡ []) ⊎ Asked flags listed)
unfolding run_gc find_resources
run_gc-AllMayRun fails flags host listed =
    let has_client : Bool = answered listed in
    let task_ids = load_tasks (or_empty listed) [] in
    let cleaned =
      clean-AllMayRun host task_ids fails has_client (find_resources flags host task_ids)
        (find_resources-AllMayGo flags host task_ids) in
    elim (Bool-cases (not has_client && not flags.clean_orphans)) [
      | inl e ↦ rw (e, run_gc) (tt, inl refl)
      | inr e ↦ elim (Bool-cases (is_dry flags)) [
        | inl q ↦ rw (e, run_gc, q) (tt, inl refl)
        | inr q ↦ rw (e, run_gc, q) (cleaned, inr (not_dry flags listed e q))
      ]
    ]
