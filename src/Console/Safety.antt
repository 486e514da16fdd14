-- ===== src/Console/Safety.antt =====
-- What `Prune` of pkg/consolearchive/prune.go never removes, also where removals fail.
use stockyard.Base.{
  ℕ, ◌+◌, ◌-◌, ◌≡◌, refl, ap, ◌⊎◌, inl, inr, Bool, true, not, ◌&&◌, ◌||◌, List, [], ◌∷◌, ◌++◌, Text,
  codes, has_prefix, trim_prefix, ltb, arith, Bool-cases, Option-cases,
}
use stockyard.Console.Names.{staging_prefix, valid_archive_entry_name}
use stockyard.Console.Prune.{
  staging_max_age, DirEntry, EntryInfo, Pass, shrink, total_bytes, expire, scan, scan_entry,
  insert_entry, sort_entries, text_less, prune,
}

-- A name that the archiver gives: an entry's, or that of an entry in the making.
abbrev pub IsArchive : Text → Type 0
IsArchive name =
    (valid_archive_entry_name name ≡ true)
    ⊎ (has_prefix name staging_prefix ≡ true)
      × (valid_archive_entry_name (trim_prefix name staging_prefix) ≡ true)

abbrev pub AllArchive : List EntryInfo → Type 0
AllArchive [] = Unit {0}
AllArchive (e ∷ es) = IsArchive e.name × AllArchive es

abbrev BothArchive : Pass → Type 0
BothArchive p = AllArchive p.0 × AllArchive p.1

append-AllArchive : (xs ys : List EntryInfo) → AllArchive xs → AllArchive ys → AllArchive (xs ++ ys)
append-AllArchive [] ys h k = k
append-AllArchive (x ∷ xs) ys h k = (h.0, append-AllArchive xs ys h.1 k)

insert-AllArchive :
    (e : EntryInfo) (es : List EntryInfo)
    → IsArchive e.name
    → AllArchive es
    → AllArchive (insert_entry e es)
unfolding insert_entry
insert-AllArchive e [] h k = (h, tt)
insert-AllArchive e (f ∷ fs) h k = elim (Bool-cases (text_less f.name e.name)) [
  | inl q ↦ rw (q, insert_entry) (k.0, insert-AllArchive e fs h k.1)
  | inr q ↦ rw (q, insert_entry) (h, k)
]

sort-AllArchive : (es : List EntryInfo) → AllArchive es → AllArchive (sort_entries es)
unfolding sort_entries
sort-AllArchive [] h = tt
sort-AllArchive (e ∷ es) h = insert-AllArchive e (sort_entries es) h.0 (sort-AllArchive es h.1)

module _ (remove_fails : Text → Bool) (now : ℕ) where
  scan_entry-AllArchive : (d : DirEntry) → BothArchive (scan_entry remove_fails now d)
  unfolding scan_entry
  scan_entry-AllArchive d = elim (Bool-cases d.is_dir) [
    | inr a ↦ rw (a, scan_entry) (tt, tt)
    | inl a ↦ elim (Option-cases d.info) [
      | inl b ↦ rw (a, scan_entry, b) (tt, tt)
      | inr (t, b) ↦ elim (Bool-cases (has_prefix d.name staging_prefix)) [
        | inl c ↦
            let stale =
              valid_archive_entry_name (trim_prefix d.name staging_prefix)
              && ltb (t + staging_max_age) now
              && not (remove_fails d.name) in
            elim (Bool-cases stale) [
              | inl g ↦ rw (a, scan_entry, b, c, g) ((inr (c, ground (arith, g)), tt), tt)
              | inr g ↦ rw (a, scan_entry, b, c, g) (tt, tt)
            ]
        | inr c ↦
            elim (Bool-cases
              (has_prefix d.name (codes ".") || not (valid_archive_entry_name d.name))) [
                | inl g ↦ rw (a, scan_entry, b, c, g) (tt, tt)
                | inr g ↦ rw (a, scan_entry, b, c, g) (tt, (inl (ground (arith, g)), tt))
              ]
      ]
    ]
  ]

  scan-AllArchive : (ds : List DirEntry) → BothArchive (scan remove_fails now ds)
  unfolding scan
  scan-AllArchive [] = (tt, tt)
  scan-AllArchive (d ∷ ds) =
      let p = scan_entry remove_fails now d in
      let q = scan remove_fails now ds in
      let one = scan_entry-AllArchive d in
      let more = scan-AllArchive ds in
      (append-AllArchive p.0 q.0 one.0 more.0, append-AllArchive p.1 q.1 one.1 more.1)

  expire-AllArchive :
      (max_age : ℕ) (es : List EntryInfo)
      → AllArchive es
      → BothArchive (expire remove_fails now max_age es)
  unfolding expire
  expire-AllArchive max_age [] h = (tt, tt)
  expire-AllArchive max_age (e ∷ es) h =
      let k = expire-AllArchive max_age es h.1 in
      elim (Bool-cases
        (ltb 0 max_age && ltb (e.mod_time + max_age) now && not (remove_fails e.name))) [
          | inl q ↦ rw (q, expire) ((h.0, k.0), k.1)
          | inr q ↦ rw (q, expire) (k.0, (h.0, k.1))
        ]

  module _ (max_total : ℕ) where
    shrink-AllArchive :
        (total : ℕ) (es : List EntryInfo)
        → AllArchive es
        → BothArchive (shrink remove_fails now max_total total es)
    unfolding shrink
    shrink-AllArchive total [] h = (tt, tt)
    shrink-AllArchive total (e ∷ []) h = (tt, h)
    shrink-AllArchive total (e ∷ f ∷ es) h =
        let failed = shrink-AllArchive total (f ∷ es) h.1 in
        let gone = shrink-AllArchive (total - e.bytes) (f ∷ es) h.1 in
        elim (Bool-cases (ltb 0 max_total && ltb max_total total)) [
          | inr q ↦ rw (q, shrink) (tt, h)
          | inl q ↦ elim (Bool-cases (remove_fails e.name)) [
            | inl r ↦ rw (q, r, shrink) (failed.0, (h.0, failed.1))
            | inr r ↦ rw (q, r, shrink) ((h.0, gone.0), gone.1)
          ]
        ]

    -- The byte bound never costs the newest entry, whatever removals fail.
    pub shrink-newest :
        (total : ℕ) (es : List EntryInfo) (newest : EntryInfo)
        → (left : List EntryInfo) × ((shrink remove_fails now max_total total
              (es ++ (newest ∷ []))).1
            ≡ left ++ (newest ∷ []))
    unfolding shrink
    shrink-newest total [] newest = ([], refl)
    shrink-newest total (e ∷ []) newest =
        elim (Bool-cases (ltb 0 max_total && ltb max_total total)) [
          | inr q ↦ rw (q, shrink) (e ∷ [], refl)
          | inl q ↦ elim (Bool-cases (remove_fails e.name)) [
            | inl r ↦ rw (q, r, shrink) (e ∷ [], refl)
            | inr r ↦ rw (q, r, shrink) ([], refl)
          ]
        ]
    shrink-newest total (e ∷ f ∷ es) newest =
        let (l, failed) = shrink-newest total (f ∷ es) newest in
        let (k, gone) = shrink-newest (total - e.bytes) (f ∷ es) newest in
        elim (Bool-cases (ltb 0 max_total && ltb max_total total)) [
          | inr q ↦ rw (q, shrink) (e ∷ f ∷ es, refl)
          | inl q ↦ elim (Bool-cases (remove_fails e.name)) [
            | inl r ↦ rw (q, r, shrink) (e ∷ l, ap (◌∷◌ e) failed)
            | inr r ↦ rw (q, r, shrink) (k, gone)
          ]
        ]

-- Whatever `Prune` removes has a name that the archiver gives, and so has whatever it counts
-- against the bounds: no other file or directory in the archive's directory is touched.
pub prune-IsArchive :
    (remove_fails : Text → Bool) (now max_age max_total : ℕ) (dirents : List DirEntry)
    → AllArchive (prune remove_fails now max_age max_total dirents).0
      × AllArchive (prune remove_fails now max_age max_total dirents).1
unfolding prune
prune-IsArchive remove_fails now max_age max_total dirents =
    let p = scan remove_fails now dirents in
    let s = scan-AllArchive remove_fails now dirents in
    let es = sort_entries p.1 in
    let q = expire remove_fails now max_age es in
    let x = expire-AllArchive remove_fails now max_age es (sort-AllArchive p.1 s.1) in
    let r = shrink remove_fails now max_total (total_bytes q.1) q.1 in
    let y = shrink-AllArchive remove_fails now max_total (total_bytes q.1) q.1 x.1 in
    (append-AllArchive p.0 (q.0 ++ r.0) s.0 (append-AllArchive q.0 r.0 x.0 y.0), y.1)
