-- ===== src/Console/Bounds.antt =====
-- How far `Prune` of pkg/consolearchive/prune.go brings an archive down, and what it spares.
use stockyard.Base.{
  ℕ, ◌-◌, ◌≤◌, ◌<◌, ◌≡◌, refl, ap, ◌⊎◌, inl, inr, Bool, false, List, [], ◌∷◌, ◌++◌, Text, length,
  ltb, lt→ltb, arith, Bool-cases,
}
use stockyard.Console.Prune.{
  DirEntry, EntryInfo, Pass, shrink, total_bytes, expire, scan, sort_entries, prune,
}

-- No removal fails.
abbrev pub NoneFails : (Text → Bool) → Type 0
NoneFails remove_fails = (name : Text) → remove_fails name ≡ false

-- Each removal was called for: nothing went, or the rest with the last entry that went would be too
-- large.
abbrev pub Needed : ℕ → Pass → Type 0
Needed max_total (removed, left) =
    (removed ≡ [])
    ⊎ ((before : List EntryInfo) × (e : EntryInfo) × (removed ≡ before ++ (e ∷ []))
        × (max_total < total_bytes (e ∷ left)))

module _ (remove_fails : Text → Bool) (now max_total : ℕ) where
  no_last : (left : List EntryInfo) → Needed max_total ([], left)
  no_last left = inl refl

  Needed-cons :
      (e : EntryInfo) (es : List EntryInfo) (p : Pass)
      → p.0 ++ p.1 ≡ es
      → max_total < total_bytes (e ∷ es)
      → Needed max_total p
      → Needed max_total (e ∷ p.0, p.1)
  unfolding total_bytes
  Needed-cons e es (removed, left) parts big (inl none) =
      inr ([], e, ap (◌∷◌ e) none, ground (arith, parts, big, none))
  Needed-cons e es (removed, left) parts big (inr (before, g, q, over)) =
      inr (e ∷ before, g, ap (◌∷◌ e) q, over)

  abbrev run : List EntryInfo → Pass
  run es = shrink remove_fails now max_total (total_bytes es) es

  module _ (calm : NoneFails remove_fails) (bounded : 0 < max_total) where
    shrink-step :
        (e f : EntryInfo) (es : List EntryInfo)
        → max_total < total_bytes (e ∷ f ∷ es)
        → run (e ∷ f ∷ es) ≡ (e ∷ (run (f ∷ es)).0, (run (f ∷ es)).1)
    unfolding shrink total_bytes
    shrink-step e f es h =
        let total = total_bytes (e ∷ f ∷ es) in
        let rest : total - e.bytes ≡ total_bytes (f ∷ es) = omega arith in
        rw (lt→ltb 0 max_total bounded, lt→ltb max_total total h, calm e.name, rest) refl

    shrink-stop :
        (e f : EntryInfo) (es : List EntryInfo)
        → total_bytes (e ∷ f ∷ es) ≤ max_total
        → run (e ∷ f ∷ es) ≡ ([], e ∷ f ∷ es)
    unfolding shrink
    shrink-stop e f es h = ground (arith, h)

    shrink-Needed :
        (es : List EntryInfo)
        → let (removed, left) = run es in
          (removed ++ left ≡ es)
          × ((total_bytes left ≤ max_total) ⊎ (length left ≡ 1))
          × Needed max_total (removed, left)
    unfolding shrink total_bytes
    shrink-Needed [] = (refl, inl (omega arith), no_last [])
    shrink-Needed (e ∷ []) = (refl, inr refl, no_last (e ∷ []))
    shrink-Needed (e ∷ f ∷ es) = elim (Bool-cases (ltb max_total (total_bytes (e ∷ f ∷ es)))) [
      | inl big ↦
          let (parts, fits, needed) = shrink-Needed (f ∷ es) in
          rw (shrink-step e f es (ground (arith, big))) (
            ap (◌∷◌ e) parts,
            fits,
            Needed-cons e (f ∷ es) (run (f ∷ es)) parts (ground (arith, big)) needed,
          )
      | inr small ↦
          rw (shrink-stop e f es (ground (arith, small)))
            (refl, inl (ground (arith, small)), no_last (e ∷ f ∷ es))
    ]

-- With a byte bound above 0, and where no removal fails, the loop on it cuts a first part off, the
-- oldest entries. What it leaves is within the bound or a single entry; and it cuts no more than that:
-- it removes nothing, or with the last entry that went, what is left would be over the bound.
pub shrink_lem :
    (remove_fails : Text → Bool) (now max_total : ℕ) (es : List EntryInfo)
    → NoneFails remove_fails
    → 0 < max_total
    → let (removed, left) = shrink remove_fails now max_total (total_bytes es) es in
      (removed ++ left ≡ es)
      × ((total_bytes left ≤ max_total) ⊎ (length left ≡ 1))
      × ((removed ≡ [])
          ⊎ ((before : List EntryInfo) × (e : EntryInfo) × (removed ≡ before ++ (e ∷ []))
              × (max_total < total_bytes (e ∷ left))))
shrink_lem remove_fails now max_total es calm bounded =
    shrink-Needed remove_fails now max_total calm bounded es

-- Where no removal fails, what `Prune` leaves of the archive is within the byte bound, or is a single
-- entry.
pub prune_bound :
    (remove_fails : Text → Bool) (now max_age max_total : ℕ) (dirents : List DirEntry)
    → NoneFails remove_fails
    → 0 < max_total
    → let left = (prune remove_fails now max_age max_total dirents).1 in
      (total_bytes left ≤ max_total) ⊎ (length left ≡ 1)
unfolding prune
prune_bound remove_fails now max_age max_total dirents calm bounded =
    let entries = sort_entries (scan remove_fails now dirents).1 in
    let kept = (expire remove_fails now max_age entries).1 in
    (shrink-Needed remove_fails now max_total calm bounded kept).1
