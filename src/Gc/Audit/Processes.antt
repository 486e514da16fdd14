-- ===== src/Gc/Audit/Processes.antt =====
-- cmd/stockyard/gc_audit.go: the processes of an audit, and whose they are by their arguments.
use stockyard.Base.{
  ℕ, suc, ℤ, is_positive, Bool, not, ◌&&◌, ◌||◌, String, Option, none, some, List, [], ◌∷◌, Dict,
  insert, Text, codes, text_eq, str_eq, if◌then◌else◌,
}
use stockyard.Gc.Audit.{
  AuditTask, Mismatch, MismatchKind, malformed, mismatched, duplicate, orphan, has_key,
}

pub record AuditProcess : Type 0 where
  pub owner_id : String
  pub pid : ℤ
  pub running : Bool

abbrev pub process_mismatch : MismatchKind → AuditProcess → Mismatch
process_mismatch kind p = record {
  kind = kind;
  resource = "process";
  owner_id = p.owner_id;
  detail = [];
  number = some p.pid;
  running = p.running;
}

-- The owners that were seen before stand in `seen`.
unfoldable pub reconcile_processes :
    List AuditProcess → Dict AuditTask → Dict AuditTask → Dict (Unit {0}) → List Mismatch
reconcile_processes [] by_id by_vm_id seen = []
reconcile_processes (p ∷ ps) by_id by_vm_id seen =
    let rest = reconcile_processes ps by_id by_vm_id seen in
    let more = reconcile_processes ps by_id by_vm_id (insert p.owner_id tt seen) in
    if str_eq p.owner_id "" || not (is_positive p.pid)
    then process_mismatch malformed p ∷ rest
    else if has_key p.owner_id seen
    then process_mismatch duplicate p ∷ rest
    else if has_key p.owner_id by_vm_id
    then more
    else process_mismatch (if has_key p.owner_id by_id then mismatched else orphan) p ∷ more

-- `counts[id]` of `countAuditProcesses`
unfoldable pub count_audit_processes : String → List AuditProcess → ℕ
count_audit_processes id [] = 0
count_audit_processes id (p ∷ ps) =
    let n = count_audit_processes id ps in if str_eq p.owner_id id then suc n else n

-- What `auditProcessSocket` returns: no socket, one, or an error.
pub data Socket : Type 0 where
  no_socket empty_value several_values missing_value : Socket
  socket_at : Text → Socket

abbrev api_sock : Text
api_sock = codes "--api-sock"

-- The loop; `found` is the socket so far, empty where there is none.
unfoldable pub socket_from : Text → List Text → Socket
socket_from found [] = if text_eq found [] then no_socket else socket_at found
socket_from found (a ∷ []) =
    if text_eq a api_sock
    then missing_value
    else if text_eq found []
    then no_socket
    else socket_at found
socket_from found (a ∷ b ∷ rest) =
    let later = socket_from found (b ∷ rest) in
    let with_this = socket_from b (b ∷ rest) in
    if not (text_eq a api_sock)
    then later
    else if text_eq b []
    then empty_value
    else if not (text_eq found [])
    then several_values
    else with_this

unfoldable pub audit_process_socket : List Text → Socket
audit_process_socket arguments = socket_from [] arguments

-- `auditSocketOwner` of the path's parts relative to the directory of the VMs, where
-- `filepath.Rel` and `filepath.Clean` give some
unfoldable pub socket_owner : Option (List Text) → Option Text
socket_owner (some (owner ∷ file ∷ [])) =
    if text_eq owner (codes "..")
    then none
    else if text_eq file (codes "api.sock") && not (text_eq owner (codes ".") || text_eq owner [])
    then some owner
    else none
socket_owner _ = none
