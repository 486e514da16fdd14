-- ===== src/Gc/Audit.antt =====
-- cmd/stockyard/gc_audit.go: the read-only audit of task rows against the resources of the host. A
-- step that appends to `audit.Mismatches` returns what it appends. A Go map is walked in the order
-- of its association list.
pub mod Processes
pub mod Readers
pub mod Run
pub mod Clean
use stockyard.Base.{
  ℕ, ℤ, Option, ◌+◌, Bool, true, false, not, ◌&&◌, ◌||◌, String, none, some, List, [], ◌∷◌, ◌++◌,
  Dict, lookup, insert, Text, codes, length, leb, ◌==◌, str_eq, if◌then◌else◌,
}

pub record AuditTask : Type 0 where
  pub id : String
  pub vm_id : String
  pub status : String

pub record AuditResource : Type 0 where
  pub owner_id : String
  pub name : String

pub data MismatchKind : Type 0 where
  malformed mismatched duplicate orphan absent : MismatchKind

pub record Mismatch : Type 0 where
  pub kind : MismatchKind
  pub resource : String
  pub owner_id : String
  pub detail : List String  -- the parts of the text
  pub number : Option ℤ  -- a process id, which is the whole text where there is one
  pub running : Bool

abbrev pub mismatch : MismatchKind → String → String → List String → Mismatch
mismatch kind resource owner_id detail = record {
  kind = kind;
  resource = resource;
  owner_id = owner_id;
  detail = detail;
  number = none;
  running = false;
}

-- The flags of `gc --json`.
unfoldable pub validate_flags : Bool → Bool → Bool → Bool
validate_flags orphans dry_run json_output = not (json_output && (not orphans || not dry_run))

abbrev pub is_hex : ℕ → Bool
is_hex c = (leb 48 c && leb c 57) || (leb 97 c && leb c 102)

unfoldable pub all_hex : Text → Bool
all_hex [] = true
all_hex (c ∷ s) = is_hex c && all_hex s

unfoldable pub is_canonical_audit_id : String → Bool
is_canonical_audit_id id = length (codes id) == 8 && all_hex (codes id)

unfoldable pub is_audit_task_status : String → Bool
is_audit_task_status status =
    str_eq status "running"
    || str_eq status "starting"
    || str_eq status "stopped"
    || str_eq status "failed"
    || str_eq status "cleanup_pending"

abbrev pub has_key {ℓ} : {V : Type ℓ} → String → Dict V → Bool
has_key key m = elim (lookup key m) [ none ↦ false | some v ↦ true ]

abbrev pub is_well_formed : AuditTask → Bool
is_well_formed t =
    is_canonical_audit_id t.id && is_canonical_audit_id t.vm_id && is_audit_task_status t.status

-- The first loop: what is wrong with a row, and the two maps of the rows with nothing wrong.
unfoldable pub reconcile_rows :
    List AuditTask
    → Dict AuditTask
    → Dict AuditTask
    → List Mismatch × Dict AuditTask × Dict AuditTask
reconcile_rows [] by_id by_vm_id = ([], by_id, by_vm_id)
reconcile_rows (t ∷ ts) by_id by_vm_id =
    let (rest, ids, vm_ids) = reconcile_rows ts by_id by_vm_id in
    let (more, ids', vm_ids') =
      reconcile_rows ts (insert t.id t by_id) (insert t.vm_id t by_vm_id) in
    if not (is_well_formed t)
    then (
      mismatch malformed "task_row" t.id ("task id, vm id, and status must be canonical" ∷ [])
          ∷ rest,
      ids,
      vm_ids,
    )
    else if not (str_eq t.id t.vm_id)
    then (mismatch mismatched "task_vm" t.id (t.vm_id ∷ []) ∷ rest, ids, vm_ids)
    else if has_key t.id by_id
    then (mismatch duplicate "task_row" t.id [] ∷ rest, ids, vm_ids)
    else elim (lookup t.vm_id by_vm_id) [
      | some old ↦ (mismatch duplicate "task_vm" t.vm_id (old.id ∷ []) ∷ rest, ids, vm_ids)
      | none ↦ (more, ids', vm_ids')
    ]

-- `useVMID` says which of the two ids of a task names the resource.
unfoldable pub judge_owner :
    String → AuditResource → Dict AuditTask → Dict AuditTask → Bool → List Mismatch
judge_owner resource r by_id by_vm_id use_vm_id =
    let primary = if use_vm_id then by_vm_id else by_id in
    let secondary = if use_vm_id then by_id else by_vm_id in
    if has_key r.owner_id primary
    then []
    else if has_key r.owner_id secondary
    then mismatch mismatched resource r.owner_id (r.name ∷ []) ∷ []
    else mismatch orphan resource r.owner_id (r.name ∷ []) ∷ []

-- The owners that were seen before stand in `seen`.
unfoldable pub reconcile_resources :
    String
    → List AuditResource
    → Dict AuditTask
    → Dict AuditTask
    → Bool
    → Dict (Unit {0})
    → List Mismatch
reconcile_resources resource [] by_id by_vm_id use_vm_id seen = []
reconcile_resources resource (r ∷ rs) by_id by_vm_id use_vm_id seen =
    let rest = reconcile_resources resource rs by_id by_vm_id use_vm_id seen in
    let more =
      reconcile_resources resource rs by_id by_vm_id use_vm_id (insert r.owner_id tt seen) in
    if str_eq r.owner_id ""
    then mismatch malformed resource "" (r.name ∷ []) ∷ rest
    else if has_key r.owner_id seen
    then mismatch duplicate resource r.owner_id (r.name ∷ []) ∷ rest
    else judge_owner resource r by_id by_vm_id use_vm_id ++ more

-- The allocations, against the rows; `is_ipv4` is netip's.
unfoldable pub reconcile_allocations :
    (String → Bool) → Dict String → Dict AuditTask → Dict AuditTask → Dict String → List Mismatch
reconcile_allocations is_ipv4 [] by_id by_vm_id by_ip = []
reconcile_allocations is_ipv4 ((task_id, ip) ∷ m) by_id by_vm_id by_ip =
    let rest = reconcile_allocations is_ipv4 m by_id by_vm_id by_ip in
    let more = reconcile_allocations is_ipv4 m by_id by_vm_id (insert ip task_id by_ip) in
    if not (is_canonical_audit_id task_id && is_ipv4 ip)
    then mismatch malformed "ip_allocation" task_id (ip ∷ []) ∷ rest
    else elim (lookup ip by_ip) [
      | some old ↦ mismatch duplicate "ip_allocation" task_id (old ∷ "=" ∷ ip ∷ []) ∷ rest
      | none ↦
          if has_key task_id by_id
          then more
          else mismatch (if has_key task_id by_vm_id then mismatched else orphan) "ip_allocation"
              task_id (ip ∷ [])
            ∷ more
    ]

-- `counts[id]` of `countAuditResources`
unfoldable pub count_audit_resources : String → List AuditResource → ℕ
count_audit_resources id [] = 0
count_audit_resources id (r ∷ rs) =
    (if str_eq r.owner_id id then 1 else 0) + count_audit_resources id rs

unfoldable pub require_one : Bool → AuditTask → String → ℕ → List Mismatch
require_one is_unknown task resource count =
    if is_unknown || (count == 1)
    then []
    else mismatch absent resource task.id ("expected exactly one" ∷ []) ∷ []

unfoldable pub require_none : Bool → AuditTask → String → ℕ → List Mismatch
require_none is_unknown task resource count =
    if is_unknown || (count == 0)
    then []
    else mismatch mismatched resource task.id ("cleanup_pending requires absence" ∷ []) ∷ []
