-- ===== src/Zfs.antt =====
-- pkg/zfs/zfs.go: the manager of a pool's datasets, by the `zfs` command.
pub mod Datasets
pub mod Imports
pub mod Snapshots
use stockyard.Base.{
  ℕ, ◌==◌, Text, codes, text_eq, Bool, true, false, not, ◌&&◌, String, str_eq, Option, none, some,
  List, [], ◌∷◌, ◌++◌, Result, ok, err, trim_space, split_on, if◌then◌else◌,
}
use stockyard.Base.Steps.{Step, ◌>>=◌, ◌>>◌, return, throw, done, ignore, map_err}
use stockyard.Daemon.Registry.{sanitize_dataset_component}

-- What leaves the manager: a look at the context, a command with its arguments, and the steps of
-- copyFile.
pub data Call : Type 0 where
  check_context : Call
  zfs sync : List Text → Call
  open_file create_file close_file remove_file : Text → Call
  copy_bytes sync_file : Text → Text → Call

-- A command's result. An error without an exit code is one of starting it or of its end.
pub record Output : Type 0 where
  pub failed : Bool
  pub exit_code : Option ℕ
  pub stdout : Text
  pub stderr : Text

pub data ZfsError : Type 0 where
  canceled : ZfsError
  command_failed : Text → ZfsError
  file_failed : ZfsError
  unexpected_dataset : Text → ZfsError
  remains : Text → ZfsError
  wrapped : String → ZfsError → ZfsError

-- The Manager, and what the host answers, by all the calls made so far; the call itself comes first.
pub record Manager : Type 0 where
  pub pool_name : Text
  pub base_path : Text
  pub output : List Call → Output
  pub is_canceled : List Call → Bool
  pub file_fails : List Call → Bool
  pub join : List Text → Text  -- filepath.Join
  pub timestamp : List Call → Text  -- `time.Now().Format("2006-01-02T15-04-05")`

-- The state is the list of the calls.
abbrev pub M : Type 0 → Type 0
M A = Step (List Call) ZfsError A

-- `ParseDatasetName`
unfoldable pub parse_dataset_name : Text → Text × Text
parse_dataset_name [] = ([], [])
parse_dataset_name (c ∷ s) =
    let (pool, path) = parse_dataset_name s in if c == 47 then ([], s) else (c ∷ pool, path)

-- `line[strings.LastIndex(line, "@")+1:]`, where there is one
unfoldable pub after_last : ℕ → Text → Option Text
after_last sep [] = none
after_last sep (c ∷ s) = elim (after_last sep s) [
  | some rest ↦ some rest
  | none ↦ if c == sep then some s else none
]

-- The loop of `ListSnapshots`.
unfoldable pub snapshots_of : List Text → List Text
snapshots_of [] = []
snapshots_of (line ∷ lines) =
    let rest = snapshots_of lines in
    if text_eq line []
    then rest
    else elim (after_last 64 line) [ some name ↦ name ∷ rest | none ↦ rest ]

module _ (m : Manager) where
  unfoldable pub dataset_path : Text → Text
  dataset_path task_id = m.pool_name ++ codes "/" ++ m.base_path ++ codes "/" ++ task_id

  unfoldable pub check_ctx : M (Unit {0})
  check_ctx h =
      let h' = check_context ∷ h in if m.is_canceled h' then (err canceled, h') else (ok tt, h')

  -- `runCommand`
  abbrev pub run_command : List Text → M Output
  run_command args h = let h' = zfs args ∷ h in (ok (m.output h'), h')

  -- `runZFS`
  unfoldable pub run_zfs : List Text → M (Unit {0})
  run_zfs args h =
      let h' = zfs args ∷ h in
      if (m.output h').failed then (err (command_failed (m.output h').stderr), h') else (ok tt, h')

  abbrev pub missing_text : Text → Text
  missing_text dataset = codes "cannot open '" ++ dataset ++ codes "': dataset does not exist\n"

  -- The result that says that a dataset is missing, and no other failure.
  unfoldable pub is_missing : Text → Output → Bool
  is_missing dataset o =
      o.failed
      && (elim o.exit_code [ none ↦ false | some code ↦ code == 1 ])
      && text_eq o.stdout []
      && text_eq o.stderr (missing_text dataset)

  abbrev pub list_command : Text → List Text
  list_command dataset = codes "list" ∷ codes "-H" ∷ codes "-o" ∷ codes "name" ∷ dataset ∷ []

  -- What `DatasetPathExists` makes of a result; the context is looked at again.
  unfoldable pub judge_list : Text → Output → M Bool
  unfolding is_missing
  judge_list dataset o h =
      if not o.failed
      then if text_eq (trim_space o.stdout) dataset
        then (ok true, h)
        else (err (unexpected_dataset (trim_space o.stdout)), h)
      else let h' = check_context ∷ h in
        if is_missing dataset o && not (m.is_canceled h')
        then (ok false, h')
        else (err (command_failed o.stderr), h')

  unfoldable pub dataset_path_exists : Text → M Bool
  unfolding judge_list
  dataset_path_exists dataset = do
    check_ctx
    o ← run_command (list_command dataset)
    judge_list dataset o

  unfoldable pub dataset_exists : Text → M Bool
  unfolding dataset_path_exists dataset_path
  dataset_exists task_id = dataset_path_exists (dataset_path task_id)

  unfoldable pub create_dataset : Text → M (Unit {0})
  create_dataset task_id = run_zfs (codes "create" ∷ codes "-p" ∷ dataset_path task_id ∷ [])

  unfoldable pub destroy_dataset : Text → M (Unit {0})
  destroy_dataset task_id = do
    there ← dataset_exists task_id
    (if there then run_zfs (codes "destroy" ∷ codes "-r" ∷ dataset_path task_id ∷ []) else done)

  unfoldable pub destroy_dataset_recursive : Text → M (Unit {0})
  destroy_dataset_recursive dataset = do
    there ← dataset_path_exists dataset
    (if there
        then (do
          run_zfs (codes "destroy" ∷ codes "-R" ∷ dataset ∷ [])
          still ← dataset_path_exists dataset
          (if still then throw (remains dataset) else done))
        else done)

  -- `BuildSnapshotName`
  unfoldable pub build_snapshot_name : Text → Text → String → Text
  build_snapshot_name task_id time label =
      if str_eq (sanitize_dataset_component label) ""
      then task_id ++ codes "-" ++ time
      else task_id ++ codes "-" ++ time ++ codes "-" ++ codes (sanitize_dataset_component label)

  -- `dataset@snapshot`
  abbrev pub full_name : Text → Text → Text
  full_name task_id name = dataset_path task_id ++ 64 ∷ name

  unfoldable pub create_snapshot : Text → String → M Text
  create_snapshot task_id label h =
      let name = build_snapshot_name task_id (m.timestamp h) label in
      (do run_zfs (codes "snapshot" ∷ full_name task_id name ∷ []); return name) h

  abbrev pub snapshots_command : Text → List Text
  snapshots_command dataset =
      codes "list"
      ∷ codes "-t"
      ∷ codes "snapshot"
      ∷ codes "-H"
      ∷ codes "-o"
      ∷ codes "name"
      ∷ codes "-r"
      ∷ dataset
      ∷ []

  unfoldable pub list_snapshots : Text → M (List Text)
  list_snapshots task_id = do
    o ← run_command (snapshots_command (dataset_path task_id))
    (if o.failed
        then throw (wrapped "zfs list failed" (command_failed o.stderr))
        else return
            (snapshots_of (let (first, rest) = split_on 10 (trim_space o.stdout) in first ∷ rest)))

  unfoldable pub destroy_snapshot : Text → Text → M (Unit {0})
  destroy_snapshot task_id name = run_zfs (codes "destroy" ∷ full_name task_id name ∷ [])

  unfoldable pub rollback_snapshot : Text → Text → M (Unit {0})
  rollback_snapshot task_id name =
      run_zfs (codes "rollback" ∷ codes "-r" ∷ full_name task_id name ∷ [])

  -- The mountpoint of a dataset by its full path.
  unfoldable pub mountpoint_of : Text → M Text
  mountpoint_of dataset = do
    o ←
        run_command (
          codes "get" ∷ codes "-H" ∷ codes "-o" ∷ codes "value" ∷ codes "mountpoint" ∷ dataset ∷ [])
    (if o.failed
        then throw (wrapped "zfs get mountpoint failed" (command_failed o.stderr))
        else return (trim_space o.stdout))

  -- `GetDatasetMountpoint`, of a path below the base
  unfoldable pub get_dataset_mountpoint : Text → M Text
  unfolding mountpoint_of
  get_dataset_mountpoint path = mountpoint_of (dataset_path path)

  unfoldable pub snapshot_exists : Text → M Bool
  snapshot_exists snapshot_path = do
    o ← run_command (codes "list" ∷ codes "-t" ∷ codes "snapshot" ∷ snapshot_path ∷ [])
    return (not o.failed)

  -- `Sync`
  unfoldable pub sync_dataset : Text → M (Unit {0})
  sync_dataset task_id = do
    mountpoint ← mountpoint_of (dataset_path task_id)
    λ h.
        let h' = sync (codes "-f" ∷ mountpoint ∷ []) ∷ h in
        if (m.output h').failed
        then (err (wrapped "sync failed" (command_failed (m.output h').stderr)), h')
        else (ok tt, h')

  -- `CloneSnapshot`
  unfoldable pub clone_snapshot : Text → Text → M (Unit {0})
  clone_snapshot snapshot_path target =
      run_zfs (codes "clone" ∷ snapshot_path ∷ dataset_path target ∷ [])

  -- `DestroyDatasetByPath`
  unfoldable pub destroy_by_path : Text → M (Unit {0})
  destroy_by_path path = run_zfs (codes "destroy" ∷ codes "-r" ∷ dataset_path path ∷ [])

  -- A call of the file system.
  abbrev pub file_call : Call → M (Unit {0})
  file_call c h = let h' = c ∷ h in if m.file_fails h' then (err file_failed, h') else (ok tt, h')
