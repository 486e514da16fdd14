-- ===== src/Console/Prune.antt =====
-- `Prune` of pkg/consolearchive/prune.go. Times are in nanoseconds; a bound of zero is none, as in the
-- source every bound that is not positive.
use stockyard.Base.{
  ℕ, ◌+◌, ◌-◌, Bool, true, false, not, ◌&&◌, ◌||◌, Option, none, some, List, [], ◌∷◌, ◌++◌, Text,
  codes, has_prefix, trim_prefix, ltb, ◌==◌, if◌then◌else◌,
}
use stockyard.Console.Names.{staging_prefix, valid_archive_entry_name}

-- What the directory holds; `info` is the time of the last change, where it can be read.
pub record DirEntry : Type 0 where
  pub name : Text
  pub is_dir : Bool
  pub info : Option ℕ
  pub bytes : ℕ

pub record EntryInfo : Type 0 where
  pub name : Text
  pub mod_time : ℕ
  pub bytes : ℕ

abbrev pub staging_max_age : ℕ
staging_max_age = 3600000000000

-- What a pass has removed, and the entries that it leaves.
abbrev pub Pass : Type 0
Pass = List EntryInfo × List EntryInfo

-- Byte-wise order.
unfoldable pub text_less : Text → Text → Bool
text_less [] [] = false
text_less [] (b ∷ t) = true
text_less (a ∷ s) [] = false
text_less (a ∷ s) (b ∷ t) = ltb a b || (a == b && text_less s t)

unfoldable pub insert_entry : EntryInfo → List EntryInfo → List EntryInfo
insert_entry e [] = e ∷ []
insert_entry e (f ∷ fs) = if text_less f.name e.name then f ∷ insert_entry e fs else e ∷ f ∷ fs

-- The sort by name; no two entries of a directory have the same.
unfoldable pub sort_entries : List EntryInfo → List EntryInfo
sort_entries [] = []
sort_entries (e ∷ es) = insert_entry e (sort_entries es)

unfoldable pub total_bytes : List EntryInfo → ℕ
total_bytes [] = 0
total_bytes (e ∷ es) = e.bytes + total_bytes es

-- `remove_fails` says which removals fail.
module _ (remove_fails : Text → Bool) (now : ℕ) where
  -- One entry of the directory: stale staging goes, and archive entries are collected.
  unfoldable pub scan_entry : DirEntry → Pass
  scan_entry d =
      let found : ℕ → Pass = λ t.
        let e : EntryInfo = record { name = d.name; mod_time = t; bytes = d.bytes } in
        if has_prefix d.name staging_prefix
        then if valid_archive_entry_name (trim_prefix d.name staging_prefix)
            && ltb (t + staging_max_age) now
            && not (remove_fails d.name)
          then (e ∷ [], [])
          else ([], [])
        else if has_prefix d.name (codes ".") || not (valid_archive_entry_name d.name)
        then ([], [])
        else ([], e ∷ []) in
      if d.is_dir then elim d.info [ none ↦ ([], []) | some t ↦ found t ] else ([], [])

  unfoldable pub scan : List DirEntry → Pass
  unfolding scan_entry
  scan [] = ([], [])
  scan (d ∷ ds) =
      let (removed, entries) = scan_entry d in
      let (more_removed, more_entries) = scan ds in
      (removed ++ more_removed, entries ++ more_entries)

  -- The entries past `MaxAge`.
  unfoldable pub expire : ℕ → List EntryInfo → Pass
  expire max_age [] = ([], [])
  expire max_age (e ∷ es) =
      let (removed, kept) = expire max_age es in
      if ltb 0 max_age && ltb (e.mod_time + max_age) now && not (remove_fails e.name)
      then (e ∷ removed, kept)
      else (removed, e ∷ kept)

  -- The loop on the byte bound, oldest first; it never looks at the last entry.
  unfoldable pub shrink : ℕ → ℕ → List EntryInfo → Pass
  shrink max_total total [] = ([], [])
  shrink max_total total (e ∷ []) = ([], e ∷ [])
  shrink max_total total (e ∷ f ∷ es) =
      let failed : Pass = shrink max_total total (f ∷ es) in
      let gone : Pass = shrink max_total (total - e.bytes) (f ∷ es) in
      if ltb 0 max_total && ltb max_total total
      then if remove_fails e.name then (failed.0, e ∷ failed.1) else (e ∷ gone.0, gone.1)
      else ([], e ∷ f ∷ es)

  -- All that is removed, and the archive entries that stay.
  unfoldable pub prune : ℕ → ℕ → List DirEntry → Pass
  unfolding scan sort_entries expire shrink total_bytes
  prune max_age max_total dirents =
      let (stale, entries) = scan dirents in
      let (expired, kept) = expire max_age (sort_entries entries) in
      let (dropped, left) = shrink max_total (total_bytes kept) kept in
      (stale ++ (expired ++ dropped), left)
