-- ===== src/Console/Truncate.antt =====
-- `truncateCopy` and `archiveFile` of pkg/consolearchive/consolearchive.go, on the bytes of a console.
use stockyard.Base.{
  ℕ, zero, suc, ◌+◌, ◌-◌, ◌/◌, ◌≤◌, ◌<◌, ◌≡◌, refl, ap, Bool, true, false, ◌&&◌, Option, none, some,
  [], ◌∷◌, ◌++◌, Text, codes, decimal, length, take, drop, length-append, length-drop, ltb,
  if◌then◌else◌, arith,
}

abbrev pub head_bytes : ℕ
head_bytes = 8388608

-- The part of the budget that goes to the head.
unfoldable pub head_of : ℕ → ℕ
head_of budget = if ltb (budget / 2) head_bytes then budget / 2 else head_bytes

unfoldable pub marker : ℕ → ℕ → ℕ → Text
marker size head tail =
    codes "\n--- console truncated: original "
    ++ (decimal size
        ++ (codes " bytes, kept first "
            ++ (decimal head ++ (codes " and last " ++ (decimal tail ++ codes " ---\n")))))

-- What is written, and how much it is; no answer where the console has shrunk below its head.
unfoldable pub truncate_copy : Text → ℕ → ℕ → Option (Text × ℕ)
truncate_copy console budget size =
    let head = head_of budget in
    let tail = budget - head in
    let m = marker size head tail in
    let rest = drop (size - tail) console in
    if ltb (length console) head
    then none
    else some (take head console ++ (m ++ rest), head + length m + length rest)

pub record FileMeta : Type 0 where
  pub bytes : ℕ
  pub original_bytes : ℕ
  pub truncated : Bool

-- The copy of a console and what is noted of it; `size` is what `os.Stat` said before.
unfoldable pub archive_file : ℕ → Text → ℕ → Option (Text × FileMeta)
archive_file max_entry_bytes console size =
    if ltb 0 max_entry_bytes && ltb max_entry_bytes size
    then elim (truncate_copy console max_entry_bytes size) [
      | none ↦ none
      | some (text, kept) ↦
          some (text, record { bytes = kept; original_bytes = size; truncated = true })
    ]
    else some (console, record { bytes = size; original_bytes = size; truncated = false })

length-take : (n : ℕ) (xs : Text) → n ≤ length xs → length (take n xs) ≡ n
length-take zero xs h = refl
length-take (suc n) [] h = ground (arith, h)
length-take (suc n) (x ∷ xs) h = ap suc (length-take n xs (ground (arith, h)))

head_of_lem : (budget : ℕ) → head_of budget ≤ budget
unfolding head_of
head_of_lem budget = ground arith

-- A console over its budget is cut to the budget and the marker: the copy begins with the first bytes
-- of the console and ends with its last, which together are as many as the budget allows; and the
-- number noted is the length of the copy.
pub truncate_copy_lem :
    (console : Text) (budget : ℕ)
    → budget < length console
    → let head = head_of budget in
      let m = marker (length console) head (budget - head) in
      (tail : Text) × (truncate_copy console budget (length console)
        ≡ some (take head console ++ (m ++ tail), budget + length m))
      × (tail ≡ drop (length console - (budget - head)) console)
      × (length (take head console ++ (m ++ tail)) ≡ budget + length m)
unfolding truncate_copy
truncate_copy_lem console budget h =
    let size = length console in
    let head = head_of budget in
    let small = head_of_lem budget in
    let m = marker size head (budget - head) in
    let tail = drop (size - (budget - head)) console in
    let count : length tail ≡ budget - head =
      omega (arith, length-drop (size - (budget - head)) console) in
    let enough : ltb size head ≡ false = ground arith in
    (
      tail,
      rw (enough, truncate_copy)
          (ap (λ n. some (take head console ++ (m ++ tail), n)) (omega arith)),
      refl,
      omega (
        arith,
        length-append (take head console) (m ++ tail),
        length-append m tail,
        length-take head console (omega arith),
      ),
    )
