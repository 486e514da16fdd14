-- ===== src/Tests/Audit.antt =====
-- The audit (cmd/stockyard/gc_audit.go) of one task and its VM directory.
use stockyard.Base.{
  ◌≡◌, ◌≤◌, refl, true, List, [], ◌∷◌, String, Dict, lookup, insert, arith, Bool, Option, none,
  some, ok, pos,
}
use stockyard.Gc.Audit.{
  AuditTask, AuditResource, is_canonical_audit_id, all_hex, is_audit_task_status, reconcile_rows,
  reconcile_resources, judge_owner, count_audit_resources,
}
use stockyard.Gc.Audit.{Mismatch}
use stockyard.Gc.Audit.Run.{Audit, Readers}

abbrev row_a : AuditTask
row_a = record { id = "0123abcd"; vm_id = "0123abcd"; status = "running" }

abbrev rows : List AuditTask
rows = row_a ∷ []

abbrev row_map : Dict AuditTask
row_map = ("0123abcd", row_a) ∷ []

abbrev directories : List AuditResource
directories = record { owner_id = "0123abcd"; name = "/vms/0123abcd" } ∷ []

rows-right : (reconcile_rows rows [] []).0 ≡ []
unfolding reconcile_rows is_canonical_audit_id all_hex is_audit_task_status lookup insert
rows-right = refl

directories-right : reconcile_resources "vm_directory" directories row_map row_map true [] ≡ []
unfolding reconcile_resources judge_owner lookup insert
directories-right = refl

abbrev id_a : String
id_a = "0123abcd"

one-there : 1 ≤ count_audit_resources id_a directories
unfolding count_audit_resources
one-there = ground arith

abbrev tap_a : AuditResource
tap_a = record { owner_id = id_a; name = "tap-0123abcd" }

abbrev readers_a : Readers
readers_a = record {
  list_tasks = some (ok rows);
  list_vm_dirs = some (ok directories);
  list_processes = some (ok (record { owner_id = id_a; pid = pos 40; running = true } ∷ []));
  list_rootfs_datasets = some (ok directories);
  list_workspace_datasets = some (ok directories);
  list_taps = some (ok (tap_a ∷ []));
  list_ip_allocations = some (ok ((id_a, "10.0.1.2") ∷ []));
}

abbrev unsorted : (Mismatch → Mismatch → Bool) → List Mismatch → List Mismatch
unsorted less l = l

abbrev encoded : Audit → List Mismatch → Option String
encoded a l = none

abbrev any_address : String → Bool
any_address ip = true
