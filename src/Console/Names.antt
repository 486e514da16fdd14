-- ===== src/Console/Names.antt =====
-- The names of archive entries: `validID` and `validArchiveEntryName` of
-- pkg/consolearchive/consolearchive.go, and the staging prefix.
use stockyard.Base.{
  ℕ, ◌+◌, ◌-◌, ◌*◌, ◌%◌, Bool, true, false, not, ◌&&◌, ◌||◌, Option, none, some, [], ◌∷◌, Text,
  codes, text_eq, length, take, drop, ltb, leb, ◌==◌, if◌then◌else◌,
}

abbrev pub staging_prefix : Text
staging_prefix = codes ".staging-"

abbrev pub is_digit : ℕ → Bool
is_digit c = leb 48 c && leb c 57

abbrev is_id_char : ℕ → Bool
is_id_char c =
    (leb 97 c && leb c 122) || (leb 65 c && leb c 90) || is_digit c || c == 46 || c == 95 || c == 45

unfoldable pub all_bytes : (ℕ → Bool) → Text → Bool
all_bytes f [] = true
all_bytes f (c ∷ s) = f c && all_bytes f s

unfoldable pub valid_id : Text → Bool
valid_id id =
    not (text_eq id (codes ".") || text_eq id (codes ".."))
    && all_bytes is_id_char id
    && ltb 0 (length id)
    && leb (length id) 64

-- The value of decimal digits.
unfoldable pub number_from : ℕ → Text → ℕ
number_from acc [] = acc
number_from acc (c ∷ s) = number_from (acc * 10 + (c - 48)) s

abbrev field_at : ℕ → ℕ → Text → ℕ
field_at from len s = number_from 0 (take len (drop from s))

abbrev is_leap : ℕ → Bool
is_leap y = (y % 4 == 0) && (not (y % 100 == 0) || (y % 400 == 0))

unfoldable pub days_in : ℕ → ℕ → ℕ
days_in y m =
    if m == 2
    then if is_leap y then 29 else 28
    else if m == 4 || m == 6 || m == 9 || m == 11
    then 30
    else 31

-- `time.Parse` of fifteen bytes, `20060102T150405`, whose digits are checked before.
unfoldable pub is_time : Text → Bool
is_time s =
    let month = field_at 4 2 s in
    let day = field_at 6 2 s in
    leb 1 month
    && leb month 12
    && leb 1 day
    && leb day (days_in (field_at 0 4 s) month)
    && ltb (field_at 9 2 s) 24
    && ltb (field_at 11 2 s) 60
    && ltb (field_at 13 2 s) 60

-- The text before the last `-`, and the text behind it.
unfoldable pub cut_last_dash : Text → Option (Text × Text)
cut_last_dash [] = none
cut_last_dash (c ∷ s) =
    let rest = cut_last_dash s in
    elim rest [
      | some (id, suffix) ↦ some (c ∷ id, suffix)
      | none ↦ if c == 45 then some ([], s) else none
    ]

abbrev valid_rest : Option (Text × Text) → Bool
valid_rest none = false
valid_rest (some (id, suffix)) = valid_id id && ltb 0 (length suffix) && all_bytes is_digit suffix

-- `^(\d{8}T\d{6}Z)-([a-zA-Z0-9._-]{1,64})-([0-9]+)$`, with a valid time and id: the last group
-- holds no dash, so that it begins behind the last one.
unfoldable pub valid_archive_entry_name : Text → Bool
valid_archive_entry_name name =
    all_bytes is_digit (take 8 name)
    && text_eq (take 1 (drop 8 name)) (codes "T")
    && all_bytes is_digit (take 6 (drop 9 name))
    && text_eq (take 2 (drop 15 name)) (codes "Z-")
    && is_time name
    && valid_rest (cut_last_dash (drop 17 name))
