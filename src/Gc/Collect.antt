-- ===== src/Gc/Collect.antt =====
-- The garbage collector of cmd/stockyard/gc.go: what it finds, and what it does to it. The lists of
-- the host are given as lines; `none` where the command or the directory cannot be read.
use stockyard.Base.{
  Bool, true, false, not, ◌&&◌, ◌||◌, Option, none, some, List, [], ◌∷◌, ◌++◌, Text, codes, text_eq,
  TextMap, find_text, put_text, has_prefix, trim_space, split_on, second_field, if◌then◌else◌,
}

pub data ItemType : Type 0 where
  stopped_task vm_dir zfs_vm zfs_workspace tap : ItemType

pub record CleanupItem : Type 0 where
  pub id : Text
  pub kind : ItemType
  pub path : Text
  pub is_orphan : Bool

pub record VmDir : Type 0 where
  pub name : Text
  pub is_dir : Bool
  pub is_running : Bool  -- `vmutil.IsVMRunning`
  pub has_pid : Bool  -- `firecracker.pid` holds the number of a process
  pub tap_name : Option Text

pub record Host : Type 0 where
  pub vm_path : Text
  pub vm_base : Text
  pub workspace_base : Text
  pub vm_dirs : Option (List VmDir)
  pub vm_datasets : Option (List Text)
  pub workspace_datasets : Option (List Text)
  pub links : Option (List Text)
  pub has_archiver : Bool

pub record Flags : Type 0 where
  pub clean_all : Bool
  pub clean_orphans : Bool
  pub dry_run : Bool

abbrev pub is_known : Text → TextMap → Bool
is_known id task_ids = elim (find_text id task_ids) [ none ↦ false | some status ↦ true ]

-- `loadTasks`: the ids and statuses that the daemon lists.
unfoldable pub load_tasks : List (Text × Text) → TextMap → TextMap
load_tasks [] m = m
load_tasks ((id, status) ∷ ts) m = load_tasks ts (put_text id status m)

unfoldable pub is_among : Text → List Text → Bool
is_among id [] = false
is_among id (s ∷ ss) = text_eq s id || is_among id ss

-- The walk of the map; a value that was written over is not met.
unfoldable pub find_stopped : List Text → TextMap → List CleanupItem
find_stopped seen [] = []
find_stopped seen ((id, status) ∷ m) =
    let rest = find_stopped (id ∷ seen) m in
    if text_eq status (codes "stopped") && not (is_among id seen)
    then record { id = id; kind = stopped_task; path = []; is_orphan = false } ∷ rest
    else rest

-- filepath.Join of clean parts
abbrev pub join : Text → Text → Text
join dir name = dir ++ (47 ∷ name)

unfoldable pub find_orphan_vm_dirs : Text → TextMap → List VmDir → List CleanupItem
find_orphan_vm_dirs vm_path task_ids [] = []
find_orphan_vm_dirs vm_path task_ids (d ∷ ds) =
    let rest = find_orphan_vm_dirs vm_path task_ids ds in
    if not d.is_dir || is_known d.name task_ids || d.is_running
    then rest
    else record { id = d.name; kind = vm_dir; path = join vm_path d.name; is_orphan = true } ∷ rest

abbrev pub last_part : Text → List Text → Text
last_part first [] = first
last_part first (s ∷ ss) = last_part s ss

-- The part behind the last slash.
unfoldable pub dataset_id : Text → Text
dataset_id name = let (first, rest) = split_on 47 name in last_part first rest

unfoldable pub find_orphan_datasets_in : Text → ItemType → TextMap → List Text → List CleanupItem
unfolding dataset_id
find_orphan_datasets_in base_path kind task_ids [] = []
find_orphan_datasets_in base_path kind task_ids (line ∷ lines) =
    let name = trim_space line in
    let rest = find_orphan_datasets_in base_path kind task_ids lines in
    if text_eq name base_path || is_known (dataset_id name) task_ids
    then rest
    else record { id = dataset_id name; kind = kind; path = name; is_orphan = true } ∷ rest

-- `buildTapToTaskMap`, on top of what it has read so far
unfoldable pub build_tap_to_task_map : List VmDir → TextMap → TextMap
build_tap_to_task_map [] m = m
build_tap_to_task_map (d ∷ ds) m = build_tap_to_task_map ds (elim d.tap_name [
  | none ↦ m
  | some tap_name ↦ if d.is_dir then put_text (trim_space tap_name) d.name m else m
])

-- The owner of a tap is a task that the daemon knows.
unfoldable pub has_owner : TextMap → TextMap → Text → Bool
has_owner task_ids taps name = elim (find_text name taps) [
  | none ↦ false
  | some task_id ↦ is_known task_id task_ids
]

-- strings.TrimSuffix by a colon
unfoldable pub trim_colon : Text → Text
trim_colon [] = []
trim_colon (c ∷ []) = if text_eq (c ∷ []) (codes ":") then [] else c ∷ []
trim_colon (c ∷ d ∷ s) = c ∷ trim_colon (d ∷ s)

-- The interface of a line of `ip -o link show`, where it is a tap.
unfoldable pub tap_of_line : Text → Option Text
unfolding trim_colon
tap_of_line line = elim (second_field line) [
  | none ↦ none
  | some field ↦
      if has_prefix (trim_colon field) (codes "tap-") then some (trim_colon field) else none
]

unfoldable pub find_orphan_taps : TextMap → TextMap → List Text → List CleanupItem
unfolding tap_of_line has_owner
find_orphan_taps task_ids taps [] = []
find_orphan_taps task_ids taps (line ∷ lines) =
    let rest = find_orphan_taps task_ids taps lines in
    elim (tap_of_line line) [
      | none ↦ rest
      | some name ↦
          if has_owner task_ids taps name
          then rest
          else record { id = name; kind = tap; path = []; is_orphan = true } ∷ rest
    ]

abbrev pub or_empty : {A : Type 0} → Option (List A) → List A
or_empty none = []
or_empty (some xs) = xs

unfoldable pub find_resources : Flags → Host → TextMap → List CleanupItem
unfolding find_stopped find_orphan_vm_dirs find_orphan_datasets_in find_orphan_taps
    build_tap_to_task_map
find_resources flags host task_ids =
    let taps = build_tap_to_task_map (or_empty host.vm_dirs) [] in
    let orphans =
      find_orphan_vm_dirs host.vm_path task_ids (or_empty host.vm_dirs)
      ++ (find_orphan_datasets_in host.vm_base zfs_vm task_ids (or_empty host.vm_datasets)
          ++ (find_orphan_datasets_in host.workspace_base zfs_workspace task_ids
                (or_empty host.workspace_datasets)
              ++ find_orphan_taps task_ids taps (or_empty host.links))) in
    (if flags.clean_all then find_stopped [] task_ids else [])
    ++ (if flags.clean_orphans then orphans else [])
