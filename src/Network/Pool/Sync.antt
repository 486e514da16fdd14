-- ===== src/Network/Pool/Sync.antt =====
-- The state file beside the pool in memory: in step after every call, but for one kind of failure.
use stockyard.Base.{
  ◌≡◌, ◌≢◌, ◌⊎◌, inl, inr, refl, Bool, String, some, List, [], ◌∷◌, Text, lookup, insert, erase,
  arith, err, Option-cases,
}
use stockyard.Network.Pool.Disk.{PersistStep, Disk, saved, persist_locked}
use stockyard.Network.Pool.Defs.{IpPool, not_persisted, allocate, release, copy_allocations}
use stockyard.Network.Pool.Persist.{AfterRename, persist-saved, persist-failed}

-- The state file holds the allocations of the pool.
abbrev pub InStep : IpPool → Disk → Type 0
InStep p d = d.state_file ≡ saved p.allocated

module _ (fails : PersistStep → Bool) (vm_id : String) (d : Disk) where
  allocate-in-step :
      (p : IpPool) (xs : List Text)
      → p.available ≡ xs
      → p.persist_path ≢ ""
      → InStep p d
      → InStep (allocate fails vm_id p d).1 (allocate fails vm_id p d).2
        ⊎ ((s : PersistStep) × AfterRename s
            × ((allocate fails vm_id p d).0 ≡ err (not_persisted s)))
  unfolding allocate
  allocate-in-step p [] e path h = inl (ground arith)
  allocate-in-step p (ip ∷ rest) e path h = elim (Option-cases (lookup vm_id p.allocated)) [
    | inr (old, q) ↦ inl (rw (q, allocate) h)
    | inl q ↦
        let m = insert vm_id ip (copy_allocations p.allocated) in
        elim (Option-cases (persist_locked p.persist_path fails m d).0) [
          | inl w ↦ inl (ground (arith, persist-saved p.persist_path fails m d path))
          | inr (s, w) ↦ elim (persist-failed p.persist_path fails m d w) [
            | inl same ↦ inl (ground arith)
            | inr (late, new) ↦ inr (s, late, ground arith)
          ]
        ]
  ]

  release-in-step :
      (p : IpPool)
      → p.persist_path ≢ ""
      → InStep p d
      → InStep (release fails vm_id p d).1 (release fails vm_id p d).2
        ⊎ ((s : PersistStep) × AfterRename s
            × ((release fails vm_id p d).0 ≡ some (not_persisted s)))
  unfolding release
  release-in-step p path h = elim (Option-cases (lookup vm_id p.allocated)) [
    | inl q ↦ inl (rw (q, release) h)
    | inr (ip, q) ↦
        let m = erase vm_id (copy_allocations p.allocated) in
        elim (Option-cases (persist_locked p.persist_path fails m d).0) [
          | inl w ↦ inl (ground (arith, persist-saved p.persist_path fails m d path))
          | inr (s, w) ↦ elim (persist-failed p.persist_path fails m d w) [
            | inl same ↦ inl (ground arith)
            | inr (late, new) ↦ inr (s, late, ground arith)
          ]
        ]
  ]

  -- `Allocate` and `Release` of a pool with a state file keep the file in step with the memory, or
  -- return an error of the opening or the syncing of the directory after the rename.
  pub calls-InStep :
      (p : IpPool)
      → p.persist_path ≢ ""
      → InStep p d
      → (InStep (allocate fails vm_id p d).1 (allocate fails vm_id p d).2
          ⊎ ((s : PersistStep) × AfterRename s
              × ((allocate fails vm_id p d).0 ≡ err (not_persisted s))))
        × (InStep (release fails vm_id p d).1 (release fails vm_id p d).2
            ⊎ ((s : PersistStep) × AfterRename s
                × ((release fails vm_id p d).0 ≡ some (not_persisted s))))
  calls-InStep p path h = (allocate-in-step p p.available refl path h, release-in-step p path h)
