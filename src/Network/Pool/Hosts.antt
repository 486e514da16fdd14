-- ===== src/Network/Pool/Hosts.antt =====
-- What `generateAvailableIPs` generates: every host address of the network in order, less the
-- network address, the broadcast address and the gateway.
use mathlib.Core.List.{Nodup-cons, Nodup-nil, mem-cons, not-mem-nil}
use mathlib.Core.Logic.Or
use mathlib.Core.HLevel.{⊥_prop}
use mathlib.Core.Bool.{true≢false}
use native.Mathlib.Nat.{div-lt_iff_lt-mul, pow-suc, pow-zero, zero-add, suc-add}
use stockyard.Base.{
  ℕ, zero, suc, ◌+◌, ◌-◌, ◌*◌, ◌/◌, ◌^◌, ◌≤◌, ◌<◌, ◌≡◌, sym, ap, subst, ◌∙◌, inl, inr, List, [],
  ◌∷◌, Mem, Nodup, some, Text, text_eq, text_eq_iff, arith, Bool-cases, if◌then◌else◌,
}
use stockyard.Network.Address.{
  Ip, IsBytes, to_u32-lt, increment, to_u32, of_u32, u32_mod, dotted, to_u32-of_u32,
  increment-of_u32, dotted_injective,
}
use stockyard.Network.Pool.Defs.{
  IpPool, generate_from, generate_available_ips, new_ip_pool_from_gateway,
}

-- `count` addresses from `base + k` on, without the gateway.
pub hosts_from : ℕ → Text → ℕ → ℕ → List Text
hosts_from base gateway k zero = []
hosts_from base gateway k (suc count) =
    let rest = hosts_from base gateway (suc k) count in
    let text = dotted (of_u32 (base + k)) in if text_eq text gateway then rest else text ∷ rest

mul_add_div : (q p j : ℕ) → j < p → (q * p + j) / p ≡ q
mul_add_div q p j h = grind arith

two_le_pow : (b : ℕ) → 0 < b → 2 ≤ 2 ^ b
two_le_pow zero h = absurd (omega arith)
two_le_pow (suc zero) h = omega arith
two_le_pow (suc (suc b)) h = simp pow-suc (omega (arith, two_le_pow (suc b) (omega arith)))

-- The network address `q * 2 ^ bits` leaves room for all its hosts below 2 ^ 32.
module _ (bits q : ℕ) (gateway : Text) (fits : q * 2 ^ bits + 2 ^ bits ≤ u32_mod) where
  abbrev start : ℕ
  start = q * 2 ^ bits

  count_up : (k : ℕ) → k + 1 < 2 ^ bits → increment (of_u32 (start + k)) ≡ of_u32 (start + suc k)
  count_up k h = increment-of_u32 (start + k) (omega arith) ∙ ap of_u32 (omega arith)

  -- A host address lies in the network, and its distance from the start is its index.
  number_of : (j : ℕ) → j < 2 ^ bits → to_u32 (of_u32 (start + j)) ≡ start + j
  number_of j h = to_u32-of_u32 (start + j) (omega arith)

  generate_from-hosts :
      (count fuel k : ℕ)
      → count < fuel
      → k + count + 2 ≡ 2 ^ bits
      → generate_from fuel (of_u32 start) bits gateway (of_u32 (start + k))
        ≡ hosts_from start gateway (suc k) count
  unfolding generate_from hosts_from
  generate_from-hosts count zero k h e = absurd (omega arith)
  generate_from-hosts zero (suc fuel) k h e =
      rw (count_up k (omega arith))
        (ground (arith, number_of (suc k) (omega arith), to_u32-of_u32 start (omega arith)))
  generate_from-hosts (suc count) (suc fuel) k h e = rw (count_up k (omega arith)) (
      ground (
        arith,
        number_of (suc k) (omega arith),
        to_u32-of_u32 start (omega arith),
        mul_add_div q (2 ^ bits) (suc k) (omega arith),
        mul_add_div q (2 ^ bits) 0 (omega arith),
        generate_from-hosts count fuel (suc k) (omega arith) (omega arith),
      ))

  generate-hosts :
      0 < bits
      → generate_available_ips (of_u32 start) bits gateway
        ≡ hosts_from start gateway 1 (2 ^ bits - 2)
  unfolding generate_available_ips
  generate-hosts h =
      ap (λ n. generate_from (2 ^ bits) (of_u32 start) bits gateway (of_u32 n)) (omega arith)
      ∙ generate_from-hosts (2 ^ bits - 2) (2 ^ bits) 0 (omega (arith, two_le_pow bits h))
          (omega (arith, two_le_pow bits h))

-- No host is the gateway.
pub hosts-not-gateway :
    (base : ℕ) (gateway : Text) (k count : ℕ) → ¬ Mem gateway (hosts_from base gateway k count)
unfolding hosts_from
hosts-not-gateway base gateway k zero m = not-mem-nil m
hosts-not-gateway base gateway k (suc count) m =
    elim (Bool-cases (text_eq (dotted (of_u32 (base + k))) gateway)) [
      | inl e ↦ hosts-not-gateway base gateway (suc k) count (rw e at m)
      | inr e ↦
          Or.elim ⊥_prop (mem-cons.0 (rw e at m))
            (λ p. true≢false (sym ((text_eq_iff _ _).1 (sym p)) ∙ e))
            (hosts-not-gateway base gateway (suc k) count)
    ]

hosts_above :
    (base : ℕ) (gateway : Text) (j k count : ℕ)
    → j < k
    → base + k + count ≤ u32_mod
    → ¬ Mem (dotted (of_u32 (base + j))) (hosts_from base gateway k count)
unfolding hosts_from
hosts_above base gateway j k zero h b m = not-mem-nil m
hosts_above base gateway j k (suc count) h b m =
    elim (Bool-cases (text_eq (dotted (of_u32 (base + k))) gateway)) [
      | inl e ↦ hosts_above base gateway j (suc k) count (omega arith) (omega arith) (rw e at m)
      | inr e ↦
          Or.elim ⊥_prop (mem-cons.0 (rw e at m))
            (λ p.
              absurd (
                omega
                  (arith, dotted_injective (base + j) (base + k) (omega arith) (omega arith) p)))
            (hosts_above base gateway j (suc k) count (omega arith) (omega arith))
    ]

pub hosts-Nodup :
    (base : ℕ) (gateway : Text) (k count : ℕ)
    → base + k + count ≤ u32_mod
    → Nodup (hosts_from base gateway k count)
unfolding hosts_from
hosts-Nodup base gateway k zero b = Nodup-nil
hosts-Nodup base gateway k (suc count) b =
    elim (Bool-cases (text_eq (dotted (of_u32 (base + k))) gateway)) [
      | inl e ↦ rw e (hosts-Nodup base gateway (suc k) count (omega arith))
      | inr e ↦ rw e (
          Nodup-cons.1 (
            hosts_above base gateway k (suc k) count (omega arith) (omega arith),
            hosts-Nodup base gateway (suc k) count (omega arith),
          ))
    ]

pow_split : (a b : ℕ) → 2 ^ (a + b) ≡ 2 ^ a * 2 ^ b
pow_split zero b = simp (zero-add, pow-zero) (omega arith)
pow_split (suc a) b = simp (suc-add, pow-suc) (omega (arith, ap (λ (t : ℕ). t * 2) (pow_split a b)))

mask_fits :
    (n ones : ℕ)
    → n < u32_mod
    → ones < 32
    → n / 2 ^ (32 - ones) * 2 ^ (32 - ones) + 2 ^ (32 - ones) ≤ u32_mod
mask_fits n ones h k = grind (arith, whole, below)
  where
    whole : 2 ^ (32 - ones) * 2 ^ ones ≡ u32_mod
    whole = sym (pow_split (32 - ones) ones) ∙ ap (λ (t : ℕ). 2 ^ t) {y = 32} (omega arith)

    below : n / 2 ^ (32 - ones) < 2 ^ ones
    below =
        (div-lt_iff_lt-mul (omega (arith, two_le_pow (32 - ones) (omega arith)))).1
          (omega (arith, whole))

-- A pool made from a gateway in dotted form and a prefix of at most 31 bits offers, in order, the host
-- addresses of the gateway's network but the network address, the broadcast address and the
-- gateway itself; no address twice, and never the gateway; and it has allocated none.
pub new_ip_pool_from_gateway_lem :
    (ip : Ip) (ones : ℕ) {p : IpPool}
    → IsBytes ip
    → ones < 32
    → new_ip_pool_from_gateway (some ip) (dotted ip) ones ≡ some p
    → (p.available
        ≡ hosts_from
            (to_u32 ip / 2 ^ (32 - ones) * 2 ^ (32 - ones))
            (dotted ip)
            1
            (2 ^ (32 - ones) - 2))
      × Nodup p.available
      × (¬ Mem (dotted ip) p.available)
      × (p.allocated ≡ [])
unfolding new_ip_pool_from_gateway
new_ip_pool_from_gateway_lem ip ones {p} v h e = (
  made,
  subst Nodup (sym made) distinct,
  subst (λ l. ¬ Mem gateway l) (sym made) (hosts-not-gateway start gateway 1 count),
  ground arith,
)
  where
    gateway : Text
    gateway = dotted ip

    bits : ℕ
    bits = 32 - ones

    q : ℕ
    q = to_u32 ip / 2 ^ bits

    start : ℕ
    start = q * 2 ^ bits

    count : ℕ
    count = 2 ^ bits - 2

    fits : q * 2 ^ bits + 2 ^ bits ≤ u32_mod
    fits = mask_fits (to_u32 ip) ones (to_u32-lt ip v) h

    made : p.available ≡ hosts_from start gateway 1 count
    made = ground (arith, generate-hosts bits q gateway fits (omega arith))

    distinct : Nodup (hosts_from start gateway 1 count)
    distinct =
        hosts-Nodup start gateway 1 count (omega (arith, fits, two_le_pow bits (omega arith)))
