-- ===== src/Gc/Audit/Clean.antt =====
-- What an audit that returns no error has established.
use stockyard.Base.{◌≡◌, Bool, true, ◌&&◌, ◌||◌, List, [], ◌∷◌, str_eq, if◌then◌else◌, ◌==◌}
use stockyard.Gc.Audit.{AuditTask, count_audit_resources}
use stockyard.Gc.Audit.Processes.{count_audit_processes}
use stockyard.Gc.Audit.Run.{Audit, allocation_count}

-- What a task is to have, by its status: all the counts are 0 for one whose clean-up is pending; else
-- it has one directory, one clone, one workspace and an address; one that runs or starts has one
-- process and one tap, and one that is stopped has neither.
unfoldable pub meets : Audit → AuditTask → Bool
meets a t =
    let dirs = count_audit_resources t.vm_id a.vm_directories in
    let clones = count_audit_resources t.vm_id a.rootfs_datasets in
    let workspaces = count_audit_resources t.id a.workspace_datasets in
    let processes = count_audit_processes t.vm_id a.processes in
    let taps = count_audit_resources t.vm_id a.taps in
    if str_eq t.status "cleanup_pending"
    then dirs == 0 && clones == 0 && workspaces == 0 && processes == 0 && taps == 0
    else dirs == 1
      && clones == 1
      && workspaces == 1
      && (allocation_count a.ip_allocations t.id == 1)
      && (if str_eq t.status "running" || str_eq t.status "starting"
          then processes == 1 && taps == 1
          else if str_eq t.status "stopped"
          then processes == 0 && taps == 0
          else true)

-- Each task of the list has what its status says it is to have.
abbrev pub AllMeet : Audit → List AuditTask → Type 0
AllMeet a [] = Unit {0}
AllMeet a (t ∷ ts) = (meets a t ≡ true) × AllMeet a ts
