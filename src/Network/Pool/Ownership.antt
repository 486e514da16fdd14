-- ===== src/Network/Pool/Ownership.antt =====
-- Who owns an address: a run of `Allocate` and `Release`, under any failures of the disk.
use mathlib.Core.List.{perm_middle, append_assoc, Nodup-append}
use mathlib.Core.List.Perm
use stockyard.Base.{
  ◌≡◌, ◌⊎◌, refl, inl, inr, Bool, String, none, some, List, [], ◌∷◌, ◌++◌, Mem, Perm, Nodup, Text,
  Dict, values, lookup, insert, erase, UniqueKeys, insert-UniqueKeys, erase-UniqueKeys,
  values-insert-Perm, values-erase-Perm, lookup-mem, lookup_injective, arith, Option-cases,
}
use stockyard.Network.Pool.Disk.{PersistStep, Disk, persist_locked}
use stockyard.Network.Pool.Defs.{IpPool, copy_allocations, allocate, release}

pub copy_allocations_lem : (m : Dict Text) → copy_allocations m ≡ m
unfolding copy_allocations
copy_allocations_lem [] = refl
copy_allocations_lem ((vm_id, ip) ∷ m) = rw (copy_allocations_lem m)

-- Every address of the pool, free or given out.
abbrev pub owned : IpPool → List Text
owned p = p.available ++ values p.allocated

-- A step of one of the two methods, with the failures that its persistence meets.
pub data PoolCall : Type 0 where
  allocates releases : (PersistStep → Bool) → String → PoolCall

unfoldable pub pool_step : PoolCall → IpPool × Disk → IpPool × Disk
pool_step (allocates fails vm_id) (p, d) = let (r, p', d') = allocate fails vm_id p d in (p', d')
pool_step (releases fails vm_id) (p, d) = let (r, p', d') = release fails vm_id p d in (p', d')

unfoldable pub pool_run : List PoolCall → IpPool × Disk → IpPool × Disk
unfolding pool_step
pool_run [] s = s
pool_run (c ∷ cs) s = pool_run cs (pool_step c s)

module _ (fails : PersistStep → Bool) (vm_id : String) (d : Disk) where
  allocate_from :
      (p : IpPool) (xs : List Text)
      → p.available ≡ xs
      → ((allocate fails vm_id p d).1 ≡ p)
        ⊎ ((ip : Text) × (rest : List Text) × (p.available ≡ ip ∷ rest)
            × (lookup vm_id p.allocated ≡ none)
            × ((allocate fails vm_id p d).1
                ≡ record p { allocated = insert vm_id ip p.allocated; available = rest }))
  unfolding allocate
  allocate_from p [] e = inl (ground arith)
  allocate_from p (ip ∷ rest) e = elim (Option-cases (lookup vm_id p.allocated)) [
    | inr (old, q) ↦ inl (rw (q, allocate))
    | inl q ↦
        elim (Option-cases
          (persist_locked p.persist_path fails (insert vm_id ip (copy_allocations p.allocated))
            d).0) [
              | inl w ↦ inr (ip, rest, e, q, ground (arith, copy_allocations_lem p.allocated))
              | inr (s, w) ↦ inl (ground arith)
            ]
  ]

  -- `Allocate` keeps the pool, or moves the first free address to the task.
  pub allocate_moves :
      (p : IpPool)
      → ((allocate fails vm_id p d).1 ≡ p)
        ⊎ ((ip : Text) × (rest : List Text) × (p.available ≡ ip ∷ rest)
            × (lookup vm_id p.allocated ≡ none)
            × ((allocate fails vm_id p d).1
                ≡ record p { allocated = insert vm_id ip p.allocated; available = rest }))
  allocate_moves p = allocate_from p p.available refl

  -- `Release` keeps the pool, or puts the task's address behind the free ones.
  pub release_moves :
      (p : IpPool)
      → ((release fails vm_id p d).1 ≡ p)
        ⊎ ((ip : Text) × (lookup vm_id p.allocated ≡ some ip)
            × ((release fails vm_id p d).1 ≡ record p {
              allocated = erase vm_id p.allocated;
              available = p.available ++ (ip ∷ []);
            }))
  unfolding release
  release_moves p = elim (Option-cases (lookup vm_id p.allocated)) [
    | inl q ↦ inl (rw (q, release))
    | inr (ip, q) ↦
        elim (Option-cases
          (persist_locked p.persist_path fails (erase vm_id (copy_allocations p.allocated)) d).0) [
            | inl w ↦ inr (ip, q, ground (arith, copy_allocations_lem p.allocated))
            | inr (s, w) ↦ inl (ground arith)
          ]
  ]

pub record IsValid (p : IpPool) : Type 0 where
  pub unique : UniqueKeys p.allocated
  pub distinct : Nodup (owned p)

-- The two moves keep the addresses of the pool, and the keys distinct.
allocated-Perm :
    (p : IpPool) (vm_id : String) (ip : Text) (rest : List Text)
    → p.available ≡ ip ∷ rest
    → lookup vm_id p.allocated ≡ none
    → Perm (rest ++ values (insert vm_id ip p.allocated)) (owned p)
allocated-Perm p vm_id ip rest e q = rw e (
    Perm.trans (Perm.append (Perm.refl rest) (values-insert-Perm vm_id ip p.allocated q))
      (perm_middle rest (values p.allocated)))

released-Perm :
    (p : IpPool) (vm_id : String) (ip : Text)
    → UniqueKeys p.allocated
    → lookup vm_id p.allocated ≡ some ip
    → Perm ((p.available ++ (ip ∷ [])) ++ values (erase vm_id p.allocated)) (owned p)
released-Perm p vm_id ip u q =
    rw (append_assoc p.available (ip ∷ []) (values (erase vm_id p.allocated)))
      (Perm.append (Perm.refl p.available) (Perm.symm (values-erase-Perm vm_id ip p.allocated u q)))

abbrev Keeps : IpPool → IpPool → Type 0
Keeps p q = UniqueKeys q.allocated × Perm (owned q) (owned p)

pool_step-Keeps :
    (c : PoolCall) (p : IpPool) (d : Disk) → UniqueKeys p.allocated → Keeps p (pool_step c (p, d)).0
unfolding pool_step
pool_step-Keeps (allocates fails vm_id) p d u = elim (allocate_moves fails vm_id d p) [
  | inl e ↦ rw e (u, Perm.refl (owned p))
  | inr (ip, rest, e, q, made) ↦
      rw made (insert-UniqueKeys vm_id ip p.allocated u, allocated-Perm p vm_id ip rest e q)
]
pool_step-Keeps (releases fails vm_id) p d u = elim (release_moves fails vm_id d p) [
  | inl e ↦ rw e (u, Perm.refl (owned p))
  | inr (ip, q, made) ↦ rw made (erase-UniqueKeys vm_id p.allocated u, released-Perm p vm_id ip u q)
]

-- Whatever calls are made and whatever fails on the disk, a pool whose map holds each key once
-- keeps it so, and its addresses, free and allocated together, are those that it began with, each
-- as often.
pub pool_run-Perm :
    (cs : List PoolCall) (p : IpPool) (d : Disk)
    → UniqueKeys p.allocated
    → UniqueKeys (pool_run cs (p, d)).0.allocated × Perm (owned (pool_run cs (p, d)).0) (owned p)
unfolding pool_run
pool_run-Perm [] p d u = (u, Perm.refl (owned p))
pool_run-Perm (c ∷ cs) p d u =
    let k = pool_step-Keeps c p d u in
    let s = pool_step c (p, d) in
    let rest = pool_run-Perm cs s.0 s.1 k.0 in (rest.0, Perm.trans rest.1 k.1)

-- From a pool whose addresses are distinct, no run of calls gives one address to two tasks, nor
-- keeps an allocated address among the free ones.
pub pool_run-exclusive :
    (cs : List PoolCall) (p : IpPool) (d : Disk) (a b : String) (ip : Text)
    → IsValid p
    → lookup a (pool_run cs (p, d)).0.allocated ≡ some ip
    → lookup b (pool_run cs (p, d)).0.allocated ≡ some ip
    → (a ≡ b) × (¬ Mem ip (pool_run cs (p, d)).0.available)
pool_run-exclusive cs p d a b ip v ha hb =
    let parts =
      Nodup-append.0 (Perm.nodup (Perm.symm (pool_run-Perm cs p d v.unique).1) v.distinct) in
    let last = (pool_run cs (p, d)).0 in
    (
      lookup_injective a b ip last.allocated parts.1 ha hb,
      λ free. parts.2 ip free (lookup-mem a ip last.allocated ha),
    )
