-- ===== src/Network/Pool/Reload.antt =====
-- `LoadState` after a restart of the daemon.
use mathlib.Core.List.{
  perm_append_comm, append-nil, Mem-prop, mem-cons, mem-cons_self, not-mem-nil, perm-cons,
}
use mathlib.Core.List.Perm
use mathlib.Core.Logic.Or
use mathlib.Core.Bool.{true≢false}
use stockyard.Base.{
  ◌≡◌, ◌≢◌, refl, sym, ap, ◌∙◌, inl, inr, String, none, some, List, [], ◌∷◌, ◌++◌, Mem, Perm, Text,
  text_eq, text_eq_iff, Dict, values, lookup, insert, UniqueKeys, lookup-insert, eq_iff, arith,
  Bool-cases, Option-cases,
}
use stockyard.Network.Pool.Disk.{Disk, saved}
use stockyard.Network.Pool.Defs.{IpPool, take_out, restore, load_state}
use stockyard.Network.Pool.Ownership.{owned, PoolCall, pool_run, pool_run-Perm}

take_out-Perm : (ip : Text) (xs : List Text) → Mem ip xs → Perm xs (ip ∷ take_out ip xs)
unfolding take_out
take_out-Perm ip [] m = absurd (not-mem-nil m)
take_out-Perm ip (x ∷ xs) m = elim (Bool-cases (text_eq x ip)) [
  | inl e ↦ rw e (Perm.cons' ((text_eq_iff x ip).0 e) Perm.rfl)
  | inr e ↦ rw e (
      Perm.trans
        (Perm.cons x (
          take_out-Perm ip xs (
            Or.elim Mem-prop (mem-cons.0 m)
              (λ q. absurd (true≢false (sym ((text_eq_iff x ip).1 (sym q)) ∙ e))) (λ t. t))))
        (Perm.swap ip x (take_out ip xs)))
]

restore-lookup :
    (k : String) (m : Dict Text) (p : IpPool)
    → UniqueKeys m
    → lookup k (restore m p).allocated
      ≡ elim (lookup k m) [ none ↦ lookup k p.allocated | some ip ↦ some ip ]
unfolding restore lookup
restore-lookup k [] p u = refl
restore-lookup k ((v, ip) ∷ m) p u = ground (
  arith,
  eq_iff v k,
  lookup-insert v k ip p.allocated,
  restore-lookup k m
      (record p { allocated = insert v ip p.allocated; available = take_out ip p.available }) u.1,
)

restore-Perm :
    (m : Dict Text) (p : IpPool) (free : List Text)
    → Perm p.available (values m ++ free)
    → Perm (restore m p).available free
unfolding restore
restore-Perm [] p free h = h
restore-Perm ((v, ip) ∷ m) p free h =
    restore-Perm m _ free
      ((perm-cons ip).0 (Perm.trans (Perm.symm (take_out-Perm ip p.available there)) h))
  where
    there : Mem ip p.available
    there = (Perm.mem_iff h).1 mem-cons_self

lookup_nil : (k : String) → lookup {V = Text} k [] ≡ none
unfolding lookup
lookup_nil k = refl

module _ (cs : List PoolCall) (p₀ : IpPool) (d d' : Disk) where
  abbrev reached : IpPool
  reached = (pool_run cs (p₀, d)).0

  -- A restarted daemon, whose fresh pool reads the state file that matches the old pool, knows the
  -- same allocations and has the same free addresses, in some order.
  pub load_state-restores :
      p₀.allocated ≡ []
      → p₀.persist_path ≢ ""
      → d'.state_file ≡ saved reached.allocated
      → ((load_state p₀ d').0 ≡ none)
        × ((k : String) → lookup k (load_state p₀ d').1.allocated ≡ lookup k reached.allocated)
        × Perm (load_state p₀ d').1.available reached.available
  unfolding load_state
  load_state-restores e path file = (
    ground (arith, eq_iff p₀.persist_path ""),
    λ k. rw read_back (restore-lookup k reached.allocated p₀ kept.0 ∙ from_empty k),
    rw read_back (
        restore-Perm reached.allocated p₀ reached.available (
          Perm.trans (Perm.symm all_free) (
            Perm.trans (Perm.symm kept.1)
              (perm_append_comm reached.available (values reached.allocated))))),
  )
    where
      from_empty :
          (k : String)
          → elim (lookup k reached.allocated) [ none ↦ lookup k p₀.allocated | some ip ↦ some ip ]
            ≡ lookup k reached.allocated
      from_empty k = elim (Option-cases (lookup k reached.allocated)) [
        | inl q ↦ rw q (ap (lookup k) e ∙ lookup_nil k)
        | inr (ip, q) ↦ rw q
      ]

      none_yet : UniqueKeys p₀.allocated
      none_yet = rw e tt

      kept : UniqueKeys reached.allocated × Perm (owned reached) (owned p₀)
      kept = pool_run-Perm cs p₀ d none_yet

      read_back : (load_state p₀ d').1 ≡ restore reached.allocated p₀
      read_back = ground (arith, eq_iff p₀.persist_path "")

      all_free : Perm (owned p₀) p₀.available
      all_free = rw (e, append-nil) Perm.rfl
