-- ===== src/Network/Address.antt =====
-- IPv4 addresses as pkg/network/ip_pool.go handles them: four bytes, counted up with carries,
-- read as a big-endian uint32, and printed in dotted decimal (net.IP.String).
use stockyard.Base.{
  ℕ, ◌+◌, ◌-◌, ◌*◌, ◌/◌, ◌%◌, ◌<◌, ◌≡◌, refl, sym, ap, ◌∙◌, [], ◌∷◌, ◌++◌, arith, ltb, ◌==◌,
  if◌then◌else◌, Text,
}

pub record Ip : Type 0 where
  pub a : ℕ
  pub b : ℕ
  pub c : ℕ
  pub d : ℕ

pub record IsBytes (ip : Ip) : Type 0 where
  pub a_byte : ip.a < 256
  pub b_byte : ip.b < 256
  pub c_byte : ip.c < 256
  pub d_byte : ip.d < 256

-- `ip[i]++` on a byte.
abbrev next_byte : ℕ → ℕ
next_byte n = (n + 1) % 256

-- The loop `for i := 3; i >= 0; i--`: the next byte is touched only on a carry.
unfoldable pub increment : Ip → Ip
increment ip =
    let d = next_byte ip.d in
    let c = next_byte ip.c in
    let b = next_byte ip.b in
    let a = next_byte ip.a in
    if d == 0
    then if c == 0
      then if b == 0
        then record { a = a; b = b; c = c; d = d }
        else record { a = ip.a; b = b; c = c; d = d }
      else record { a = ip.a; b = ip.b; c = c; d = d }
    else record { a = ip.a; b = ip.b; c = ip.c; d = d }

-- binary.BigEndian.Uint32, and the address of a number.
unfoldable pub to_u32 : Ip → ℕ
to_u32 ip = ip.a * 16777216 + ip.b * 65536 + ip.c * 256 + ip.d

unfoldable pub of_u32 : ℕ → Ip
of_u32 n = record { a = n / 16777216 % 256; b = n / 65536 % 256; c = n / 256 % 256; d = n % 256 }

abbrev pub u32_mod : ℕ
u32_mod = 4294967296

pub of_u32-IsBytes : (n : ℕ) → IsBytes (of_u32 n)
unfolding of_u32
of_u32-IsBytes n = record {
  a_byte = omega arith;
  b_byte = omega arith;
  c_byte = omega arith;
  d_byte = omega arith;
}

pub to_u32-of_u32 : (n : ℕ) → n < u32_mod → to_u32 (of_u32 n) ≡ n
unfolding to_u32 of_u32
to_u32-of_u32 n h = omega arith

pub to_u32-lt : (ip : Ip) → IsBytes ip → to_u32 ip < u32_mod
unfolding to_u32
to_u32-lt ip v = omega arith

-- The carries count up by one, modulo 2 ^ 32.
pub to_u32-increment : (ip : Ip) → IsBytes ip → to_u32 (increment ip) ≡ (to_u32 ip + 1) % u32_mod
unfolding to_u32 increment
to_u32-increment ip v = ground arith

pub increment-of_u32 : (n : ℕ) → n + 1 < u32_mod → increment (of_u32 n) ≡ of_u32 (n + 1)
unfolding increment of_u32
increment-of_u32 n h = ground arith

-- Decimal digits of a byte, with no leading zeros.
octet : ℕ → Text
octet n =
    if ltb n 10
    then (48 + n) ∷ []
    else if ltb n 100
    then (48 + n / 10) ∷ (48 + n % 10) ∷ []
    else (48 + n / 100) ∷ (48 + n / 10 % 10) ∷ (48 + n % 10) ∷ []

unfoldable pub dotted : Ip → Text
unfolding octet
dotted ip = octet ip.a ++ (46 ∷ (octet ip.b ++ (46 ∷ (octet ip.c ++ (46 ∷ octet ip.d)))))

-- Reads a number up to a dot or the end.
read_number : ℕ → Text → ℕ × Text
read_number acc [] = (acc, [])
read_number acc (x ∷ xs) =
    let rest = read_number (acc * 10 + (x - 48)) xs in if x == 46 then (acc, xs) else rest

read-octet : (n : ℕ) (rest : Text) → n < 256 → read_number 0 (octet n ++ (46 ∷ rest)) ≡ (n, rest)
unfolding octet read_number
read-octet n rest h = ground arith

read-octet_last : (n : ℕ) → n < 256 → read_number 0 (octet n) ≡ (n, [])
unfolding octet read_number
read-octet_last n h = ground arith

read_ip : Text → Ip
read_ip t =
    let p = read_number 0 t in
    let q = read_number 0 p.1 in
    let r = read_number 0 q.1 in
    let s = read_number 0 r.1 in record { a = p.0; b = q.0; c = r.0; d = s.0 }

read_ip-dotted : (ip : Ip) → IsBytes ip → read_ip (dotted ip) ≡ ip
unfolding read_ip dotted
read_ip-dotted ip v =
    rw
      (
        read-octet ip.a (octet ip.b ++ (46 ∷ (octet ip.c ++ (46 ∷ octet ip.d)))) v.a_byte,
        read-octet ip.b (octet ip.c ++ (46 ∷ octet ip.d)) v.b_byte,
        read-octet ip.c (octet ip.d) v.c_byte,
        read-octet_last ip.d v.d_byte,
      )
      refl

-- Different addresses have different texts.
pub dotted_injective :
    (m n : ℕ) → m < u32_mod → n < u32_mod → dotted (of_u32 m) ≡ dotted (of_u32 n) → m ≡ n
dotted_injective m n hm hn e =
    sym (to_u32-of_u32 m hm)
    ∙ ap to_u32 (
        sym (read_ip-dotted (of_u32 m) (of_u32-IsBytes m))
        ∙ ap read_ip e
        ∙ read_ip-dotted (of_u32 n) (of_u32-IsBytes n))
    ∙ to_u32-of_u32 n hn
