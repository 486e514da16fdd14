-- ===== src/Daemon/Create/DotEnv.antt =====
-- `parseDotEnv` of pkg/daemon/tasks.go, on the bytes of a .env file.
use stockyard.Base.{
  ℕ, ◌≡◌, refl, Bool, ◌&&◌, ◌||◌, none, some, List, [], ◌∷◌, ◌++◌, Text, codes, text_eq, ◌==◌,
  if◌then◌else◌, arith, TextMap, find_text, put_text, or_else, has_prefix, trim_prefix, trim_space,
  split_on, cut_at, split_on-append,
}

abbrev pub newline : ℕ
newline = 10

-- The text without its last byte, and whether that is `q`.
unfoldable pub ends_in : ℕ → ℕ → Text → Bool
ends_in q b [] = b == q
ends_in q b (a ∷ s) = ends_in q a s

unfoldable pub but_last : ℕ → Text → Text
but_last b [] = []
but_last b (a ∷ s) = b ∷ but_last a s

-- A pair of like quotes around the value goes.
unfoldable pub unquote : Text → Text
unfolding ends_in but_last
unquote [] = []
unquote (a ∷ []) = a ∷ []
unquote (a ∷ b ∷ s) = if (a == 34 || a == 39) && ends_in a b s then but_last b s else a ∷ b ∷ s

unfoldable pub add_entry : Text → TextMap → TextMap
unfolding unquote
add_entry line m = elim (cut_at 61 line) [
  | none ↦ m
  | some (name, value) ↦
      let key = trim_space name in
      if text_eq name [] || text_eq key [] then m else put_text key (unquote value) m
]

-- One line of the file.
unfoldable pub add_line : Text → TextMap → TextMap
unfolding add_entry
add_line raw_line m =
    let line = trim_space raw_line in
    if text_eq line [] || has_prefix line (codes "#")
    then m
    else add_entry (trim_prefix line (codes "export ")) m

unfoldable pub add_lines : List Text → TextMap → TextMap
add_lines [] m = m
add_lines (line ∷ lines) m = add_lines lines (add_line line m)

unfoldable pub parse_dot_env : Text → TextMap
unfolding add_lines
parse_dot_env data_bytes =
    let (first, rest) = split_on newline data_bytes in add_lines (first ∷ rest) []

-- A line's own entries, and below them those that were there.
add_line-own :
    (line key : Text) (m : TextMap)
    → find_text key (add_line line m) ≡ or_else (find_text key (add_line line [])) (find_text key m)
unfolding add_line add_entry find_text
add_line-own line key m = ground arith

add_lines-own :
    (lines : List Text) (key : Text) (m : TextMap)
    → find_text key (add_lines lines m)
      ≡ or_else (find_text key (add_lines lines [])) (find_text key m)
unfolding add_lines find_text
add_lines-own [] key m = ground arith
add_lines-own (line ∷ lines) key m = ground (
  arith,
  add_lines-own lines key (add_line line m),
  add_lines-own lines key (add_line line []),
  add_line-own line key m,
)

add_lines-append :
    (xs ys : List Text) (m : TextMap) → add_lines (xs ++ ys) m ≡ add_lines ys (add_lines xs m)
unfolding add_lines
add_lines-append [] ys m = refl
add_lines-append (x ∷ xs) ys m = add_lines-append xs ys (add_line x m)

-- Of two files one after the other, each on lines of its own, the second decides what it names, and
-- the first decides the rest.
pub parse_dot_env-append :
    (first second key : Text)
    → find_text key (parse_dot_env (first ++ (newline ∷ second)))
      ≡ or_else (find_text key (parse_dot_env second)) (find_text key (parse_dot_env first))
unfolding parse_dot_env
parse_dot_env-append first second key =
    let xs = (split_on newline first).0 ∷ (split_on newline first).1 in
    let ys = (split_on newline second).0 ∷ (split_on newline second).1 in
    ground (
      arith,
      split_on-append newline first second,
      add_lines-append xs ys [],
      add_lines-own ys key (add_lines xs []),
    )
