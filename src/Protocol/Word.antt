-- ===== src/Protocol/Word.antt =====
-- uint32 in either byte order (encoding/binary), and io.ReadFull over the bytes that are there.
use stockyard.Base.{
  ℕ, ◌+◌, ◌*◌, ◌/◌, ◌%◌, ◌<◌, ◌≡◌, [], ◌∷◌, ◌++◌, Option, none, some, Text, length, take, drop, ltb,
  if◌then◌else◌, arith, take-append_self, drop-append_self, length-append,
}

unfoldable pub little_endian : ℕ → Text
little_endian n = n % 256 ∷ n / 256 % 256 ∷ n / 65536 % 256 ∷ n / 16777216 % 256 ∷ []

unfoldable pub big_endian : ℕ → Text
big_endian n = n / 16777216 % 256 ∷ n / 65536 % 256 ∷ n / 256 % 256 ∷ n % 256 ∷ []

-- `binary.Read` of a uint32: four bytes, or an error.
unfoldable pub read_little_endian : Text → Option (ℕ × Text)
read_little_endian (a ∷ b ∷ c ∷ d ∷ rest) = some (a + b * 256 + c * 65536 + d * 16777216, rest)
read_little_endian _ = none

unfoldable pub read_big_endian : Text → Option (ℕ × Text)
read_big_endian (a ∷ b ∷ c ∷ d ∷ rest) = some (a * 16777216 + b * 65536 + c * 256 + d, rest)
read_big_endian _ = none

-- `io.ReadFull` of `n` bytes.
unfoldable pub read_full : ℕ → Text → Option (Text × Text)
read_full n s = if ltb (length s) n then none else some (take n s, drop n s)

pub read_little_endian-append :
    (n : ℕ) (rest : Text)
    → n < 4294967296
    → read_little_endian (little_endian n ++ rest) ≡ some (n, rest)
unfolding little_endian read_little_endian
read_little_endian-append n rest h = ground arith

pub read_big_endian-append :
    (n : ℕ) (rest : Text) → n < 4294967296 → read_big_endian (big_endian n ++ rest) ≡ some (n, rest)
unfolding big_endian read_big_endian
read_big_endian-append n rest h = ground arith

pub read_full-append : (s rest : Text) → read_full (length s) (s ++ rest) ≡ some (s, rest)
unfolding read_full
read_full-append s rest =
    ground (arith, length-append s rest, take-append_self s rest, drop-append_self s rest)

-- A stream that ends too early is an error.
pub read_full_short : (n : ℕ) (s : Text) → length s < n → read_full n s ≡ none
unfolding read_full
read_full_short n s h = ground arith
