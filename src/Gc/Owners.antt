-- ===== src/Gc/Owners.antt =====
-- What an audit with no mismatch says of the owners of the resources.
use stockyard.Base.{
  ℕ, ◌+◌, ◌≡◌, ◌≤◌, ◌≢◌, sym, ap, ◌∙◌, subst, inl, inr, Bool, true, false, ◌||◌, leb, String, none,
  List, [], ◌∷◌, Dict, lookup, insert, str_eq, eq_iff, if◌then◌else◌, arith, lookup-insert,
  Bool-cases,
}
use stockyard.Gc.Audit.{
  reconcile_rows, is_well_formed, require_one, AuditTask, AuditResource, has_key, judge_owner,
  reconcile_resources, count_audit_resources,
}

module _ (resource : String) (by_id by_vm_id : Dict AuditTask) where
  owner-judged :
      (r : AuditResource) (use_vm_id : Bool)
      → judge_owner resource r by_id by_vm_id use_vm_id ≡ []
      → has_key r.owner_id (if use_vm_id then by_vm_id else by_id) ≡ true
  unfolding judge_owner
  owner-judged r use_vm_id h = ground (arith, h)

  -- What the first item of a walk with no mismatch is, and that the walk goes on with none.
  first-clean :
      (r : AuditResource) (rs : List AuditResource) (use_vm_id : Bool) (seen : Dict (Unit {0}))
      → reconcile_resources resource (r ∷ rs) by_id by_vm_id use_vm_id seen ≡ []
      → (r.owner_id ≢ "")
        × (lookup r.owner_id seen ≡ none)
        × (has_key r.owner_id (if use_vm_id then by_vm_id else by_id) ≡ true)
        × (reconcile_resources resource rs by_id by_vm_id use_vm_id (insert r.owner_id tt seen)
            ≡ [])
  unfolding reconcile_resources judge_owner
  first-clean r rs use_vm_id seen h = ground (arith, eq_iff r.owner_id "", owner-judged r use_vm_id)

  -- No owner in the list was seen before, so each is counted at most once.
  clean-count :
      (rs : List AuditResource) (use_vm_id : Bool) (seen : Dict (Unit {0})) (id : String)
      → reconcile_resources resource rs by_id by_vm_id use_vm_id seen ≡ []
      → count_audit_resources id rs ≤ (if has_key id seen then 0 else 1)
  unfolding count_audit_resources
  clean-count [] use_vm_id seen id h = ground arith
  clean-count (r ∷ rs) use_vm_id seen id h = ground (
    arith,
    first-clean r rs use_vm_id seen h,
    eq_iff r.owner_id id,
    lookup-insert r.owner_id id tt seen,
    clean-count rs use_vm_id (insert r.owner_id tt seen) id,
  )

  clean-owner :
      (rs : List AuditResource) (use_vm_id : Bool) (seen : Dict (Unit {0})) (id : String)
      → reconcile_resources resource rs by_id by_vm_id use_vm_id seen ≡ []
      → 1 ≤ count_audit_resources id rs
      → (id ≢ "") × (has_key id (if use_vm_id then by_vm_id else by_id) ≡ true)
  unfolding count_audit_resources
  clean-owner [] use_vm_id seen id h c = ground (arith, c)
  clean-owner (r ∷ rs) use_vm_id seen id h c =
      let f = first-clean r rs use_vm_id seen h in
      let g = clean-owner rs use_vm_id (insert r.owner_id tt seen) id f.3 in
      elim (Bool-cases (str_eq r.owner_id id)) [
        | inl e ↦
            let same = (eq_iff r.owner_id id).0 e in
            (
              subst (λ i. i ≢ "") same f.0,
              subst (λ i. has_key i (if use_vm_id then by_vm_id else by_id) ≡ true) same f.2,
            )
        | inr e ↦ g (ground (arith, e, c))
      ]

  -- Where the audit finds nothing wrong with a list of resources, an owner of some resource of the
  -- list is not empty, is known by the id that the resources go by, and owns exactly one of them;
  -- the check that a task has exactly one of them then finds nothing wrong either.
  pub reconcile_resources_clean :
      (rs : List AuditResource) (use_vm_id : Bool) (id : String) (t : AuditTask)
      → reconcile_resources resource rs by_id by_vm_id use_vm_id [] ≡ []
      → 1 ≤ count_audit_resources id rs
      → (id ≢ "")
        × (has_key id (if use_vm_id then by_vm_id else by_id) ≡ true)
        × (count_audit_resources id rs ≡ 1)
        × (require_one false t resource (count_audit_resources id rs) ≡ [])
  unfolding lookup require_one
  reconcile_resources_clean rs use_vm_id id t h c =
      let o = clean-owner rs use_vm_id [] id h c in
      let n = clean-count rs use_vm_id [] id h in
      (o.0, o.1, ground (arith, n, c), ground (arith, n, c))

-- What a row is that the first loop finds nothing wrong with.
pub row-clean :
    (t : AuditTask) (ts : List AuditTask) (by_id by_vm_id : Dict AuditTask)
    → (reconcile_rows (t ∷ ts) by_id by_vm_id).0 ≡ []
    → (is_well_formed t ≡ true)
      × (t.id ≡ t.vm_id)
      × (lookup t.id by_id ≡ none)
      × (reconcile_rows (t ∷ ts) by_id by_vm_id
          ≡ reconcile_rows ts (insert t.id t by_id) (insert t.vm_id t by_vm_id))
unfolding reconcile_rows
row-clean t ts by_id by_vm_id h = ground (arith, eq_iff t.id t.vm_id)

-- `counts[id]` of the rows
unfoldable pub count_rows : String → List AuditTask → ℕ
count_rows id [] = 0
count_rows id (t ∷ ts) = (if str_eq t.id id then 1 else 0) + count_rows id ts

rows-count_nil :
    (by_id by_vm_id : Dict AuditTask) (id : String)
    → (count_rows id [] ≤ (if has_key id by_id then 0 else 1))
      × (has_key id (reconcile_rows [] by_id by_vm_id).1
          ≡ (has_key id by_id || leb 1 (count_rows id [])))
unfolding count_rows reconcile_rows
rows-count_nil by_id by_vm_id id = ground arith

rows-count :
    (ts : List AuditTask) (by_id by_vm_id : Dict AuditTask) (id : String)
    → (reconcile_rows ts by_id by_vm_id).0 ≡ []
    → (count_rows id ts ≤ (if has_key id by_id then 0 else 1))
      × (has_key id (reconcile_rows ts by_id by_vm_id).1
          ≡ (has_key id by_id || leb 1 (count_rows id ts)))
unfolding count_rows
rows-count [] by_id by_vm_id id h = rows-count_nil by_id by_vm_id id
rows-count (t ∷ ts) by_id by_vm_id id h =
    let f = row-clean t ts by_id by_vm_id h in
    let rest =
      rows-count ts (insert t.id t by_id) (insert t.vm_id t by_vm_id) id
        (sym (ap (λ x. x.0) f.3) ∙ h) in
    subst
      (λ m.
        (count_rows id (t ∷ ts) ≤ (if has_key id by_id then 0 else 1))
        × (has_key id m ≡ (has_key id by_id || leb 1 (count_rows id (t ∷ ts)))))
      (sym (ap (λ x. x.1) f.3))
      (ground (arith, eq_iff t.id id, f.2, rest, lookup-insert t.id id t by_id))

-- Where the audit finds nothing wrong with the rows, no id stands in two of them, and its map of the
-- rows holds the ids that stand in one.
pub reconcile_rows_clean :
    (ts : List AuditTask) (id : String)
    → (reconcile_rows ts [] []).0 ≡ []
    → (count_rows id ts ≤ 1) × (has_key id (reconcile_rows ts [] []).1 ≡ leb 1 (count_rows id ts))
unfolding lookup
reconcile_rows_clean ts id h = let c = rows-count ts [] [] id h in (ground (arith, c), c.1)
