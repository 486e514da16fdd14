-- ===== src/Gc/Audit/Run.antt =====
-- `runOrphanAudit` of cmd/stockyard/gc_audit.go: the reads, the reconciliation and the verdict. A
-- reader is absent where it is nil; its result is the host's.
use stockyard.Base.{
  ℕ, Bool, true, false, not, ◌&&◌, ◌||◌, String, Option, none, some, List, [], ◌∷◌, ◌++◌, Dict,
  lookup, Text, codes, length, str_eq, if◌then◌else◌, Result, ok, err, ltb, ◌==◌,
}
use stockyard.Gc.Audit.{
  AuditTask, AuditResource, Mismatch, MismatchKind, malformed, mismatched, duplicate, orphan,
  absent, reconcile_rows, reconcile_resources, reconcile_allocations, count_audit_resources,
  require_one, require_none,
}
use stockyard.Gc.Audit.Processes.{AuditProcess, reconcile_processes, count_audit_processes}

pub record ReadError : Type 0 where
  pub source : String
  pub error : String

abbrev pub Reader : Type 0 → Type 0
Reader A = Option (Result String A)

pub record Readers : Type 0 where
  pub list_tasks : Reader (List AuditTask)
  pub list_vm_dirs : Reader (List AuditResource)
  pub list_processes : Reader (List AuditProcess)
  pub list_rootfs_datasets : Reader (List AuditResource)
  pub list_workspace_datasets : Reader (List AuditResource)
  pub list_taps : Reader (List AuditResource)
  pub list_ip_allocations : Reader (Dict String)

pub record Audit : Type 0 where
  pub tasks : List AuditTask
  pub vm_directories : List AuditResource
  pub processes : List AuditProcess
  pub rootfs_datasets : List AuditResource
  pub workspace_datasets : List AuditResource
  pub taps : List AuditResource
  pub ip_allocations : Dict String
  pub unknown_reads : List ReadError

-- `readAuditTasks` and its kin: what was read, or nothing.
abbrev pub items_of : {A : Type 0} → A → Reader A → A
items_of nothing none = nothing
items_of nothing (some (ok items)) = items
items_of nothing (some (err text)) = nothing

-- What they add to `audit.UnknownReads`.
abbrev pub unknown_of : {A : Type 0} → String → Reader A → List ReadError
unknown_of source none = record { source = source; error = "reader is not configured" } ∷ []
unknown_of source (some (ok items)) = []
unknown_of source (some (err text)) = record { source = source; error = text } ∷ []

unfoldable pub gather : Readers → Audit
gather r = record {
  tasks = items_of [] r.list_tasks;
  vm_directories = items_of [] r.list_vm_dirs;
  processes = items_of [] r.list_processes;
  rootfs_datasets = items_of [] r.list_rootfs_datasets;
  workspace_datasets = items_of [] r.list_workspace_datasets;
  taps = items_of [] r.list_taps;
  ip_allocations = items_of [] r.list_ip_allocations;
  unknown_reads =
      unknown_of "tasks" r.list_tasks
      ++ unknown_of "vm_directories" r.list_vm_dirs
      ++ unknown_of "processes" r.list_processes
      ++ unknown_of "rootfs_datasets" r.list_rootfs_datasets
      ++ unknown_of "workspace_datasets" r.list_workspace_datasets
      ++ unknown_of "taps" r.list_taps
      ++ unknown_of "ip_allocations" r.list_ip_allocations;
}

unfoldable pub has_unknown_read : List ReadError → String → Bool
has_unknown_read [] source = false
has_unknown_read (r ∷ rs) source = str_eq r.source source || has_unknown_read rs source

-- `allocationCount`
abbrev pub allocation_count : Dict String → String → ℕ
allocation_count allocations id = elim (lookup id allocations) [ none ↦ 0 | some ip ↦ 1 ]

module _ (a : Audit) (t : AuditTask) where
  abbrev one : String → String → ℕ → List Mismatch
  one source resource count = require_one (has_unknown_read a.unknown_reads source) t resource count

  abbrev no : String → String → ℕ → List Mismatch
  no source resource count = require_none (has_unknown_read a.unknown_reads source) t resource count

  -- What the status says of the process and the tap.
  unfoldable pub expect_activity : List Mismatch
  expect_activity =
      if str_eq t.status "running" || str_eq t.status "starting"
      then one "processes" "process" (count_audit_processes t.vm_id a.processes)
        ++ one "taps" "tap" (count_audit_resources t.vm_id a.taps)
      else if str_eq t.status "stopped"
      then no "processes" "process" (count_audit_processes t.vm_id a.processes)
        ++ no "taps" "tap" (count_audit_resources t.vm_id a.taps)
      else []

  -- The body of the loop of `reconcileTaskExpectations`.
  unfoldable pub expect_of_task : List Mismatch
  unfolding expect_activity
  expect_of_task =
      if str_eq t.status "cleanup_pending"
      then no "vm_directories" "vm_directory" (count_audit_resources t.vm_id a.vm_directories)
        ++ no "rootfs_datasets" "rootfs_dataset" (count_audit_resources t.vm_id a.rootfs_datasets)
        ++ no "workspace_datasets" "workspace_dataset"
            (count_audit_resources t.id a.workspace_datasets)
        ++ no "processes" "process" (count_audit_processes t.vm_id a.processes)
        ++ no "taps" "tap" (count_audit_resources t.vm_id a.taps)
      else one "vm_directories" "vm_directory" (count_audit_resources t.vm_id a.vm_directories)
        ++ one "rootfs_datasets" "rootfs_dataset" (count_audit_resources t.vm_id a.rootfs_datasets)
        ++ one "workspace_datasets" "workspace_dataset"
            (count_audit_resources t.id a.workspace_datasets)
        ++ one "ip_allocations" "ip_allocation" (allocation_count a.ip_allocations t.id)
        ++ expect_activity

-- `reconcileTaskExpectations`
unfoldable pub reconcile_task_expectations : Audit → Dict AuditTask → List Mismatch
reconcile_task_expectations a [] = []
reconcile_task_expectations a ((id, t) ∷ m) = expect_of_task a t ++ reconcile_task_expectations a m

-- `reconcileOrphanAudit` before it sorts; `is_ipv4` is netip's.
unfoldable pub reconcile_orphan_audit : (String → Bool) → Audit → List Mismatch
reconcile_orphan_audit is_ipv4 a =
    let (rows, by_id, by_vm_id) = reconcile_rows a.tasks [] [] in
    rows
    ++ reconcile_resources "vm_directory" a.vm_directories by_id by_vm_id true []
    ++ reconcile_processes a.processes by_id by_vm_id []
    ++ reconcile_resources "rootfs_dataset" a.rootfs_datasets by_id by_vm_id true []
    ++ reconcile_resources "workspace_dataset" a.workspace_datasets by_id by_vm_id false []
    ++ reconcile_resources "tap" a.taps by_id by_vm_id true []
    ++ reconcile_allocations is_ipv4 a.ip_allocations by_id by_vm_id []
    ++ reconcile_task_expectations a by_id

-- The comparison of Go strings.
unfoldable pub text_before : Text → Text → Bool
text_before [] [] = false
text_before [] (b ∷ bs) = true
text_before (a ∷ as') [] = false
text_before (a ∷ as') (b ∷ bs) = ltb a b || (a == b && text_before as' bs)

abbrev pub kind_text : MismatchKind → String
kind_text malformed = "malformed"
kind_text mismatched = "mismatched"
kind_text duplicate = "duplicate"
kind_text orphan = "orphan"
kind_text absent = "missing"

-- The comparison that sorts the mismatches.
unfoldable pub mismatch_before : Mismatch → Mismatch → Bool
mismatch_before l r =
    if not (str_eq l.resource r.resource)
    then text_before (codes l.resource) (codes r.resource)
    else if not (str_eq l.owner_id r.owner_id)
    then text_before (codes l.owner_id) (codes r.owner_id)
    else text_before (codes (kind_text l.kind)) (codes (kind_text r.kind))

pub data AuditError : Type 0 where
  not_encoded : String → AuditError
  found : ℕ → ℕ → AuditError

-- `sort` is sort.Slice by a comparison; `encode` is the outcome of writing the document.
unfoldable pub run_orphan_audit :
    ((Mismatch → Mismatch → Bool) → List Mismatch → List Mismatch)
    → (Audit → List Mismatch → Option String)
    → (String → Bool)
    → Readers
    → (Audit × List Mismatch) × Result AuditError (Unit {0})
run_orphan_audit sort encode is_ipv4 readers =
    let a = gather readers in
    let mismatches =
      if has_unknown_read a.unknown_reads "tasks"
      then []
      else sort mismatch_before (reconcile_orphan_audit is_ipv4 a) in
    (
      (a, mismatches),
      elim (encode a mismatches) [
        | some text ↦ err (not_encoded text)
        | none ↦
            if length mismatches == 0 && length a.unknown_reads == 0
            then ok tt
            else err (found (length mismatches) (length a.unknown_reads))
      ],
    )
