-- ===== src/Base/Words.antt =====
-- The tests and cuts of Go's package `strings` that the program uses, on text as bytes.
use Prim.Native.Nat.{ℕ, zero, suc, ◌+◌, ◌/◌, ◌%◌}
use mathlib.Core.Path.{◌≡◌}
use mathlib.Core.Bool.{not, Bool, true, false, ◌&&◌, ◌||◌}
use mathlib.Core.Option.{Option, none, some}
use mathlib.Core.List.{List, [], ◌∷◌, ◌++◌, reverse, map}
use native.Mathlib.Omega.{arith}
use stockyard.Base.Bytes.{Text}
use stockyard.Base.Lists.{length}
use stockyard.Base.Tests.{◌==◌, ltb, if◌then◌else◌}

-- strings.HasPrefix
unfoldable pub has_prefix : Text → Text → Bool
has_prefix s [] = true
has_prefix [] (b ∷ p) = false
has_prefix (a ∷ s) (b ∷ p) = a == b && has_prefix s p

-- The byte does not occur.
unfoldable pub lacks : ℕ → Text → Bool
lacks c [] = true
lacks c (a ∷ s) = not (a == c) && lacks c s

-- strings.TrimPrefix, where the prefix is there
unfoldable pub cut_prefix : Text → Text → Text
cut_prefix s [] = s
cut_prefix [] (b ∷ p) = []
cut_prefix (a ∷ s) (b ∷ p) = cut_prefix s p

unfoldable pub trim_prefix : Text → Text → Text
trim_prefix s p = if has_prefix s p then cut_prefix s p else s

-- strings.Contains
unfoldable pub contains_text : Text → Text → Bool
contains_text [] p = has_prefix [] p
contains_text (a ∷ s) p = has_prefix (a ∷ s) p || contains_text s p

-- The encodings of the white space of `unicode.IsSpace`.
abbrev pub spaces : List Text
spaces =
    (9 ∷ [])
    ∷ (10 ∷ [])
    ∷ (11 ∷ [])
    ∷ (12 ∷ [])
    ∷ (13 ∷ [])
    ∷ (32 ∷ [])
    ∷ (194 ∷ 133 ∷ [])
    ∷ (194 ∷ 160 ∷ [])
    ∷ (225 ∷ 154 ∷ 128 ∷ [])
    ∷ (226 ∷ 128 ∷ 128 ∷ [])
    ∷ (226 ∷ 128 ∷ 129 ∷ [])
    ∷ (226 ∷ 128 ∷ 130 ∷ [])
    ∷ (226 ∷ 128 ∷ 131 ∷ [])
    ∷ (226 ∷ 128 ∷ 132 ∷ [])
    ∷ (226 ∷ 128 ∷ 133 ∷ [])
    ∷ (226 ∷ 128 ∷ 134 ∷ [])
    ∷ (226 ∷ 128 ∷ 135 ∷ [])
    ∷ (226 ∷ 128 ∷ 136 ∷ [])
    ∷ (226 ∷ 128 ∷ 137 ∷ [])
    ∷ (226 ∷ 128 ∷ 138 ∷ [])
    ∷ (226 ∷ 128 ∷ 168 ∷ [])
    ∷ (226 ∷ 128 ∷ 169 ∷ [])
    ∷ (226 ∷ 128 ∷ 175 ∷ [])
    ∷ (226 ∷ 129 ∷ 159 ∷ [])
    ∷ (227 ∷ 128 ∷ 128 ∷ [])
    ∷ []

-- The text behind the first of `ps` that it starts with.
unfoldable pub strip_first : List Text → Text → Option Text
strip_first [] s = none
strip_first (p ∷ ps) s = if has_prefix s p then some (cut_prefix s p) else strip_first ps s

-- Each turn takes a byte at least, so that the length is fuel enough.
unfoldable pub trim_front : ℕ → List Text → Text → Text
trim_front zero ps s = s
trim_front (suc n) ps s = elim (strip_first ps s) [ none ↦ s | some t ↦ trim_front n ps t ]

-- strings.TrimSpace
unfoldable pub trim_space : Text → Text
trim_space s =
    let t = trim_front (length s) spaces s in
    reverse (trim_front (length t) (map reverse spaces) (reverse t))

-- strings.Split by one byte: the first part, and the others.
unfoldable pub split_on : ℕ → Text → Text × List Text
split_on c [] = ([], [])
split_on c (a ∷ s) =
    let (first, rest) = split_on c s in if a == c then ([], first ∷ rest) else (a ∷ first, rest)

-- What stands before the first `c`, and what behind.
unfoldable pub cut_at : ℕ → Text → Option (Text × Text)
cut_at c [] = none
cut_at c (a ∷ s) =
    let rest = cut_at c s in
    if a == c then some ([], s) else elim rest [ none ↦ none | some (k, v) ↦ some (a ∷ k, v) ]

-- The first word of strings.Fields, and what stands behind it.
unfoldable pub next_word : Text → Text × Text
next_word [] = ([], [])
next_word (c ∷ s) =
    let (word, rest) = next_word s in
    elim (strip_first spaces (c ∷ s)) [ none ↦ (c ∷ word, rest) | some t ↦ ([], c ∷ s) ]

-- `strings.Fields(s)[1]`, where there are two fields.
unfoldable pub second_field : Text → Option Text
unfolding next_word
second_field s =
    let rest = (next_word (trim_front (length s) spaces s)).1 in
    let word = (next_word (trim_front (length rest) spaces rest)).0 in
    elim word [ [] ↦ none | c ∷ cs ↦ some (c ∷ cs) ]

-- A number in decimal; it has no more digits than its value, and one at least.
unfoldable pub decimal_from : ℕ → ℕ → Text
decimal_from zero n = (48 + n % 10) ∷ []
decimal_from (suc fuel) n =
    let front = decimal_from fuel (n / 10) in
    if ltb n 10 then (48 + n) ∷ [] else front ++ ((48 + n % 10) ∷ [])

abbrev pub decimal : ℕ → Text
decimal n = decimal_from n n

-- Splitting goes through a concatenation at the separator.
pub split_on-append :
    (c : ℕ) (s t : Text)
    → split_on c (s ++ (c ∷ t))
      ≡ ((split_on c s).0, (split_on c s).1 ++ ((split_on c t).0 ∷ (split_on c t).1))
unfolding split_on
split_on-append c [] t = ground arith
split_on-append c (a ∷ s) t = ground (arith, split_on-append c s t)
