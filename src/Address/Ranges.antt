-- ===== src/Address/Ranges.antt =====
-- The blocklists as intervals of addresses.
use web_resource_ledger.Prelude.{
  ℕ, ◌+◌, ◌-◌, ◌*◌, ◌/◌, ◌%◌, ◌^◌, ◌≤◌, ◌<◌, ◌≡◌, ap, ◌∙◌, List, [], ◌∷◌, Bool, false, ◌⊎◌, inl,
  inr, Bool-cases, ◌&&◌, ◌||◌, bit_and, leb, ◌==◌, if◌then◌else◌, any, arith,
}
use native.Mathlib.Nat.{mod-eq_of_lt, div-add-mod'}
use web_resource_ledger.Prelude.Bits.{bit_and-low, bit_and-shift, pow-pos}
use web_resource_ledger.Prelude.Integers.{pos}
use web_resource_ledger.Address.{is_private_ipv4, is_private_ipv6}

-- The address a.b.c.d.
abbrev pub ipv4 : ℕ → ℕ → ℕ → ℕ → ℕ
ipv4 a b c d = a * 2 ^ 24 + b * 2 ^ 16 + c * 2 ^ 8 + d

abbrev pub between : ℕ → ℕ × ℕ → Bool
between n bounds = leb bounds.0 n && leb n bounds.1

-- The addresses that must not be reached, first and last of each block, as the RFCs give them.
abbrev pub reserved_ipv4 : List (ℕ × ℕ)
reserved_ipv4 =
    (ipv4 0 0 0 0, ipv4 0 255 255 255)
    ∷ (ipv4 10 0 0 0, ipv4 10 255 255 255)
    ∷ (ipv4 100 64 0 0, ipv4 100 127 255 255)
    ∷ (ipv4 127 0 0 0, ipv4 127 255 255 255)
    ∷ (ipv4 169 254 0 0, ipv4 169 254 255 255)
    ∷ (ipv4 172 16 0 0, ipv4 172 31 255 255)
    ∷ (ipv4 192 0 0 0, ipv4 192 0 0 255)
    ∷ (ipv4 192 0 2 0, ipv4 192 0 2 255)
    ∷ (ipv4 192 168 0 0, ipv4 192 168 255 255)
    ∷ (ipv4 198 18 0 0, ipv4 198 19 255 255)
    ∷ (ipv4 198 51 100 0, ipv4 198 51 100 255)
    ∷ (ipv4 203 0 113 0, ipv4 203 0 113 255)
    ∷ (ipv4 240 0 0 0, ipv4 255 255 255 255)
    ∷ []

-- A mask of leading ones compares the leading bits: `k` low bits are free, `m` is all ones above.
module _ (k j n : ℕ) (small : n / 2 ^ k < 2 ^ j) where
  masked : bit_and n ((2 ^ j - 1) * 2 ^ k) ≡ n / 2 ^ k * 2 ^ k
  masked =
      bit_and-shift k n (2 ^ j - 1)
      ∙ ap (λ t. t * 2 ^ k) (bit_and-low j (n / 2 ^ k) ∙ mod-eq_of_lt small)

-- Rounding down to a multiple of `p` gives `q * p` exactly in the block that starts there.
lt_or_ge : (a b : ℕ) → (a < b) ⊎ (b ≤ a)
lt_or_ge a b = ground arith

round_down : (p q n : ℕ) → 0 < p → (n / p * p == q * p) ≡ between n (q * p, q * p + (p - 1))
round_down p q n h = elim (lt_or_ge (n / p) q) [
  | inl less ↦
      let below : n / p * p + p ≤ q * p = grind arith in ground (arith, div-add-mod' n p, below)
  | inr more ↦ elim (lt_or_ge q (n / p)) [
    | inl greater ↦
        let above : q * p + p ≤ n / p * p = grind arith in ground (arith, div-add-mod' n p, above)
    | inr at_most ↦
        let same : n / p ≡ q = omega arith in ground (arith, div-add-mod' n p, ap (λ t. t * p) same)
  ]
]

block_lem :
    (k j q n : ℕ)
    → n / 2 ^ k < 2 ^ j
    → (bit_and n ((2 ^ j - 1) * 2 ^ k) == q * 2 ^ k)
      ≡ between n (q * 2 ^ k, q * 2 ^ k + (2 ^ k - 1))
block_lem k j q n small = rw (masked k j n small) (round_down (2 ^ k) q n (pow-pos k))

-- 255.255.255.255 is listed twice: it lies in 240.0.0.0/4.
broadcast :
    (n : ℕ)
    → (between n (ipv4 240 0 0 0, ipv4 255 255 255 255)
        || (between n (ipv4 255 255 255 255, ipv4 255 255 255 255) || false))
      ≡ (between n (ipv4 240 0 0 0, ipv4 255 255 255 255) || false)
broadcast n = ground arith

-- The mask comparisons of `isPrivateIPv4` find a 32-bit address private exactly when it lies in one of
-- the reserved blocks, given by their first and last addresses.
pub is_private_ipv4_lem : (n : ℕ) → n < 2 ^ 32 → is_private_ipv4 n ≡ any (between n) reserved_ipv4
unfolding is_private_ipv4
is_private_ipv4_lem n h =
    rw
      (
        block_lem 24 8 0 n (omega arith),
        block_lem 24 8 10 n (omega arith),
        block_lem 22 10 401 n (omega arith),
        block_lem 24 8 127 n (omega arith),
        block_lem 16 16 0xa9fe n (omega arith),
        block_lem 20 12 0xac1 n (omega arith),
        block_lem 8 24 0xc00000 n (omega arith),
        block_lem 8 24 0xc00002 n (omega arith),
        block_lem 16 16 0xc0a8 n (omega arith),
        block_lem 17 15 0x6309 n (omega arith),
        block_lem 8 24 0xc63364 n (omega arith),
        block_lem 8 24 0xcb0071 n (omega arith),
        block_lem 28 4 15 n (omega arith),
        block_lem 0 32 0xffffffff n (omega arith),
      )
      (rw (broadcast n))

single : (n m : ℕ) → (n == m) ≡ between n (m, m)
single n m = ground arith

-- The IPv6 blocks, first and last address, without the IPv4-mapped one.
abbrev pub reserved_ipv6 : List (ℕ × ℕ)
reserved_ipv6 =
    (0, 0)
    ∷ (1, 1)
    ∷ (0xfc00 * 2 ^ 112, 0xfdff * 2 ^ 112 + (2 ^ 112 - 1))
    ∷ (0xfe80 * 2 ^ 112, 0xfebf * 2 ^ 112 + (2 ^ 112 - 1))
    ∷ (0xff00 * 2 ^ 112, 0xffff * 2 ^ 112 + (2 ^ 112 - 1))
    ∷ (0x20010db8 * 2 ^ 96, 0x20010db8 * 2 ^ 96 + (2 ^ 96 - 1))
    ∷ (0x0100 * 2 ^ 112, 0x0100 * 2 ^ 112 + (2 ^ 64 - 1))
    ∷ []

-- The addresses ::ffff:0:0/96.
abbrev pub is_mapped : ℕ → Bool
is_mapped n = between n (0xffff * 2 ^ 32, 0xffff * 2 ^ 32 + (2 ^ 32 - 1))

-- `isPrivateIPv6` finds a 128-bit address private exactly when it is IPv4-mapped and its IPv4 address
-- lies in a reserved IPv4 block, or is not mapped and lies in a reserved IPv6 block.
pub is_private_ipv6_lem :
    (n : ℕ)
    → n < 2 ^ 128
    → is_private_ipv6 (pos n) ≡ (
        if is_mapped n
        then any (between (n % 2 ^ 32)) reserved_ipv4
        else any (between n) reserved_ipv6)
unfolding is_private_ipv6
is_private_ipv6_lem n h =
    rw
      (
        block_lem 32 96 0xffff n (omega arith),
        block_lem 121 7 0x7e n (omega arith),
        block_lem 118 10 0x3fa n (omega arith),
        block_lem 120 8 0xff n (omega arith),
        block_lem 96 32 0x20010db8 n (omega arith),
        block_lem 64 64 0x100000000000000 n (omega arith),
        bit_and-low 32 n,
        is_private_ipv4_lem (n % 2 ^ 32) (omega arith),
      )
      (elim (Bool-cases (is_mapped n)) [
        | inl mapped ↦ rw mapped
        | inr plain ↦ rw (plain, single n 0, single n 1)
      ])
