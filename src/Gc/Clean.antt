-- ===== src/Gc/Clean.antt =====
-- The cleaning loop of cmd/stockyard/gc.go, as the commands that it gives. `fails` says which of them
-- fail, and with what output.
use stockyard.Base.{
  ℕ, ◌+◌, Bool, true, false, not, ◌&&◌, ◌||◌, Option, none, some, List, [], ◌∷◌, ◌++◌, Text, codes,
  text_eq, contains_text, trim_space, if◌then◌else◌,
}
use stockyard.Gc.Collect.{
  CleanupItem, stopped_task, vm_dir, zfs_vm, zfs_workspace, tap, VmDir, Host, Flags, load_tasks,
  find_resources, or_empty,
}

pub data Command : Type 0 where
  destroy_task destroy_dataset delete_link kill_vm remove_dir : Text → Command
  archive : Text → Text → Command

-- What a cleaning has given as commands, and whether it failed.
abbrev pub Cleaning : Type 0
Cleaning = List Command × Bool

module _ (fails : Command → Option Text) (host : Host) (has_client : Bool) where
  abbrev failed : Command → Bool
  failed c = elim (fails c) [ none ↦ false | some text ↦ true ]

  unfoldable pub clean_task : Text → Cleaning
  clean_task id =
      if has_client then (destroy_task id ∷ [], failed (destroy_task id)) else ([], true)

  unfoldable pub find_dir : Text → List VmDir → Option VmDir
  find_dir id [] = none
  find_dir id (d ∷ ds) = if text_eq d.name id then some d else find_dir id ds

  -- The process that the directory names.
  unfoldable pub kill_process : Text → Option VmDir → List Command
  kill_process path none = []
  kill_process path (some d) = if d.has_pid then kill_vm path ∷ [] else []

  -- The tap that the directory names.
  unfoldable pub drop_tap : Option VmDir → List Command
  drop_tap none = []
  drop_tap (some d) = elim d.tap_name [ none ↦ [] | some name ↦ delete_link (trim_space name) ∷ [] ]

  -- Process and tap go first, as far as the directory names them; then the consoles are kept.
  unfoldable pub clean_vm_dir : Text → Text → Cleaning
  unfolding find_dir kill_process drop_tap
  clean_vm_dir id path =
      let found = find_dir id (or_empty host.vm_dirs) in
      let kept = if host.has_archiver then archive path id ∷ [] else [] in
      (
        kill_process path found ++ (drop_tap found ++ (kept ++ (remove_dir path ∷ []))),
        failed (remove_dir path),
      )

  unfoldable pub clean_tap : Text → Cleaning
  clean_tap name = (
    delete_link name ∷ [],
    elim (fails (delete_link name)) [
      | none ↦ false
      | some output ↦ not (contains_text output (codes "Cannot find device"))
    ],
  )

  unfoldable pub clean_item : CleanupItem → Cleaning
  unfolding clean_task clean_vm_dir clean_tap
  clean_item item = elim item.kind [
    | stopped_task ↦ clean_task item.id
    | vm_dir ↦ clean_vm_dir item.id item.path
    | zfs_vm ↦ (destroy_dataset item.path ∷ [], failed (destroy_dataset item.path))
    | zfs_workspace ↦ (destroy_dataset item.path ∷ [], failed (destroy_dataset item.path))
    | tap ↦ clean_tap item.id
  ]

  -- The loop goes on past errors, and counts them.
  unfoldable pub clean : List CleanupItem → List Command × ℕ
  unfolding clean_item
  clean [] = ([], 0)
  clean (item ∷ items) =
      let (commands, wrong) = clean_item item in
      let (more, errors) = clean items in (commands ++ more, (if wrong then 1 else 0) + errors)

-- Nothing is changed without a flag that asks for it.
abbrev pub is_dry : Flags → Bool
is_dry flags = flags.dry_run || (not flags.clean_all && not flags.clean_orphans)

-- `gc` from the daemon's list on, where the confirmation is given: the commands of the run, and the
-- number of errors. Without the daemon the flags must ask for orphans; the list is then empty.
unfoldable pub run_gc :
    (Command → Option Text) → Flags → Host → Option (List (Text × Text)) → List Command × ℕ
unfolding clean
run_gc fails flags host listed =
    let has_client : Bool = elim listed [ none ↦ false | some tasks ↦ true ] in
    let items = find_resources flags host (load_tasks (or_empty listed) []) in
    if not has_client && not flags.clean_orphans
    then ([], 1)
    else if is_dry flags
    then ([], 0)
    else clean fails host has_client items
