-- ===== src/Tests/Console.antt =====
-- The console archive (pkg/consolearchive) with three entries.
use stockyard.Base.{
  ◌≡◌, ◌<◌, ◌≤◌, ◌+◌, ◌-◌, ◌⊎◌, refl, Bool, true, false, List, [], ◌∷◌, ◌++◌, some, Text, codes,
  text_eq, length, take, drop, arith,
}
use stockyard.Console.Names.{
  valid_archive_entry_name, all_bytes, is_time, number_from, days_in, cut_last_dash, valid_id,
}
use stockyard.Console.Prune.{DirEntry, EntryInfo, shrink, prune, total_bytes}
use stockyard.Console.Bounds.{NoneFails, shrink_lem}
use stockyard.Console.Safety.{AllArchive, prune-IsArchive}
use stockyard.Console.Truncate.{truncate_copy, truncate_copy_lem, head_of, marker}

abbrev never : Text → Bool
never name = false

never-NoneFails : NoneFails never
never-NoneFails name = refl

abbrev old_entry : EntryInfo
old_entry = record { name = codes "20260101T000000Z-a1-7"; mod_time = 1; bytes = 60 }

abbrev mid_entry : EntryInfo
mid_entry = record { name = codes "20260102T000000Z-a1-8"; mod_time = 2; bytes = 50 }

abbrev new_entry : EntryInfo
new_entry = record { name = codes "20260103T000000Z-b2-9"; mod_time = 3; bytes = 40 }

abbrev three : List EntryInfo
three = old_entry ∷ mid_entry ∷ new_entry ∷ []

old-valid : valid_archive_entry_name old_entry.name ≡ true
unfolding valid_archive_entry_name all_bytes text_eq is_time number_from days_in cut_last_dash
    valid_id
old-valid = refl

one-positive : 0 < 100
one-positive = omega arith

shrink_lem_example :
    ((shrink never 10 100 (total_bytes three) three).0
        ++ (shrink never 10 100 (total_bytes three) three).1
      ≡ three)
    × ((total_bytes (shrink never 10 100 (total_bytes three) three).1 ≤ 100)
        ⊎ (length (shrink never 10 100 (total_bytes three) three).1 ≡ 1))
    × (((shrink never 10 100 (total_bytes three) three).0 ≡ [])
        ⊎ ((before : List EntryInfo) × (e : EntryInfo) × ((shrink never 10 100
                (total_bytes three)
                three).0
              ≡ before ++ (e ∷ []))
            × (100 < total_bytes (e ∷ (shrink never 10 100 (total_bytes three) three).1))))
shrink_lem_example = shrink_lem never 10 100 three never-NoneFails one-positive

abbrev on_disk : EntryInfo → DirEntry
on_disk e = record { name = e.name; is_dir = true; info = some e.mod_time; bytes = e.bytes }

abbrev a_directory : List DirEntry
a_directory =
    record { name = codes "notes"; is_dir = true; info = some 1; bytes = 500 }
    ∷ on_disk old_entry
    ∷ on_disk mid_entry
    ∷ on_disk new_entry
    ∷ []

prune-IsArchive_example :
    AllArchive (prune never 10 0 100 a_directory).0
    × AllArchive (prune never 10 0 100 a_directory).1
prune-IsArchive_example = prune-IsArchive never 10 0 100 a_directory

four-under : 4 < length (codes "console")
four-under = omega arith

truncate_copy_lem_example :
    (tail : Text) × (truncate_copy (codes "console") 4 7
      ≡ some (
        take (head_of 4) (codes "console") ++ (marker 7 (head_of 4) (4 - head_of 4) ++ tail),
        4 + length (marker 7 (head_of 4) (4 - head_of 4)),
      ))
    × (tail ≡ drop (7 - (4 - head_of 4)) (codes "console"))
    × (length (take (head_of 4) (codes "console") ++ (marker 7 (head_of 4) (4 - head_of 4) ++ tail))
        ≡ 4 + length (marker 7 (head_of 4) (4 - head_of 4)))
truncate_copy_lem_example = truncate_copy_lem (codes "console") 4 four-under
