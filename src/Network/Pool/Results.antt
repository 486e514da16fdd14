-- ===== src/Network/Pool/Results.antt =====
-- What `Allocate` and `Release` answer, and what they leave when they fail.
use stockyard.Base.{
  ◌≡◌, ◌≢◌, ◌⊎◌, inl, inr, refl, Bool, String, none, some, List, [], ◌∷◌, Text, lookup, erase,
  lookup-insert, lookup-erase, eq_iff, arith, ok, err, Option-cases,
}
use stockyard.Network.Pool.Disk.{PersistStep, Disk}
use stockyard.Network.Pool.Defs.{
  IpPool, PoolError, exhausted, not_persisted, allocate, release, copy_allocations, get_allocation,
}
use stockyard.Network.Pool.Persist.{Calm, persist_calm}
use stockyard.Network.Pool.Ownership.{copy_allocations_lem, allocate_moves, release_moves}

module _ (fails : PersistStep → Bool) (vm_id : String) (d : Disk) where
  allocated_from :
      (p : IpPool) (xs : List Text) {ip : Text}
      → p.available ≡ xs
      → (allocate fails vm_id p d).0 ≡ ok ip
      → lookup vm_id (allocate fails vm_id p d).1.allocated ≡ some ip
  unfolding allocate
  allocated_from p [] e h = elim (Option-cases (lookup vm_id p.allocated)) [
    | inl q ↦ ground arith
    | inr (old, q) ↦ ground arith
  ]
  allocated_from p (ip ∷ rest) e h = ground (
    arith,
    copy_allocations_lem p.allocated,
    lookup-insert vm_id vm_id ip p.allocated,
    eq_iff vm_id vm_id,
  )

  allocate-failed :
      (p : IpPool) (xs : List Text) {e : PoolError}
      → p.available ≡ xs
      → (allocate fails vm_id p d).0 ≡ err e
      → ((allocate fails vm_id p d).1 ≡ p)
        × (lookup vm_id p.allocated ≡ none)
        × ((xs ≡ []) × (e ≡ exhausted) ⊎ ((s : PersistStep) × (e ≡ not_persisted s)))
  unfolding allocate
  allocate-failed p [] {e} q h = ground arith
  allocate-failed p (ip ∷ rest) {e} q h = ground arith

  allocate_again :
      (again : PersistStep → Bool) (q : IpPool) (d' : Disk) {ip : Text}
      → lookup vm_id q.allocated ≡ some ip
      → allocate again vm_id q d' ≡ (ok ip, q, d')
  unfolding allocate
  allocate_again again q d' h = rw (h, allocate)

  -- An address that `Allocate` returns is the task's from then on: the pool has it under the task's
  -- id, and asking again returns it and changes nothing.
  pub allocate_idempotent :
      (p : IpPool) (again : PersistStep → Bool) {ip : Text}
      → (allocate fails vm_id p d).0 ≡ ok ip
      → (get_allocation vm_id (allocate fails vm_id p d).1 ≡ ip)
        × (let (r, q, d') = allocate fails vm_id p d in allocate again vm_id q d' ≡ (ok ip, q, d'))
  unfolding get_allocation
  allocate_idempotent p again h =
      let held = allocated_from p p.available refl h in
      (rw (held, get_allocation), allocate_again again _ (allocate fails vm_id p d).2 held)

  -- `Allocate` fails only when no address is free or the new state cannot be written; the pool is
  -- then as it was, and holds nothing for the task.
  pub allocate_error :
      (p : IpPool) {e : PoolError}
      → (allocate fails vm_id p d).0 ≡ err e
      → ((allocate fails vm_id p d).1 ≡ p)
        × (lookup vm_id p.allocated ≡ none)
        × ((p.available ≡ []) × (e ≡ exhausted) ⊎ ((s : PersistStep) × (e ≡ not_persisted s)))
  allocate_error p h = allocate-failed p p.available refl h

  -- After a `Release` with no error the task has no address; after an error the pool is as it was.
  pub release_lem :
      (p : IpPool)
      → ((release fails vm_id p d).0 ≡ none)
          × (lookup vm_id (release fails vm_id p d).1.allocated ≡ none)
        ⊎ ((e : PoolError) × ((release fails vm_id p d).0 ≡ some e)
            × ((release fails vm_id p d).1 ≡ p))
  unfolding release
  release_lem p = elim (Option-cases (release fails vm_id p d).0) [
    | inl h ↦ inl (
      h,
      ground (
        arith,
        copy_allocations_lem p.allocated,
        eq_iff vm_id vm_id,
        lookup-erase vm_id vm_id p.allocated,
      ),
    )
    | inr (e, h) ↦ inr (e, h, ground arith)
  ]

  -- No call about one task touches the address of another.
  pub calls_frame :
      (p : IpPool) (j : String)
      → vm_id ≢ j
      → (lookup j (allocate fails vm_id p d).1.allocated ≡ lookup j p.allocated)
        × (lookup j (release fails vm_id p d).1.allocated ≡ lookup j p.allocated)
  calls_frame p j h = (
    elim (allocate_moves fails vm_id d p) [
      | inl e ↦ rw e
      | inr (ip, rest, e, q, made) ↦
          rw made (ground (arith, lookup-insert vm_id j ip p.allocated, eq_iff vm_id j))
    ],
    elim (release_moves fails vm_id d p) [
      | inl e ↦ rw e
      | inr (ip, q, made) ↦
          rw made (ground (arith, lookup-erase vm_id j p.allocated, eq_iff vm_id j))
    ],
  )

  pub release-Calm : (p : IpPool) → Calm fails → (release fails vm_id p d).0 ≡ none
  unfolding release
  release-Calm p calm = elim (Option-cases (lookup vm_id p.allocated)) [
    | inl q ↦ rw (q, release)
    | inr (ip, q) ↦ ground (
      arith,
      persist_calm p.persist_path fails (erase vm_id (copy_allocations p.allocated)) d calm,
    )
  ]
