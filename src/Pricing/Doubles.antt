-- ===== src/Pricing/Doubles.antt =====
-- src/pricing.js: how far a floating-point number is from the number that it rounds.
use web_resource_ledger.Prelude.{
  ℕ, zero, suc, ◌+◌, ◌*◌, ◌%◌, ◌/◌, ◌≤◌, ◌^◌, ◌-◌, ◌<◌, Bool, if◌then◌else◌, ap, ◌∙◌, subst, true,
  false, inl, inr, ltb, ◌==◌, ◌&&◌, Bool-cases, arith,
}
use native.Mathlib.Nat.{mod-lt, mod-le, mul_assoc, pow-suc}
use web_resource_ledger.Pricing.{unit, round_double}

unit_positive : (fuel u n : ℕ) → 0 < u → 0 < unit fuel u n
unfolding unit
unit_positive zero u n h = h
unit_positive (suc fuel) u n h = elim (Bool-cases (ltb n (9007199254740992 * u))) [
  | inl fits ↦ rw fits h
  | inr longer ↦ rw longer (unit_positive fuel (2 * u) n (omega arith))
]

-- The unit is one, or n has 53 bits in it.
unit_small :
    (fuel u n : ℕ)
    → 4503599627370496 * u ≤ n + 4503599627370496
    → 4503599627370496 * unit fuel u n ≤ n + 4503599627370496
unfolding unit
unit_small zero u n h = h
unit_small (suc fuel) u n h = elim (Bool-cases (ltb n (9007199254740992 * u))) [
  | inl fits ↦ rw fits h
  | inr longer ↦ rw longer (unit_small fuel (2 * u) n (ground arith))
]

doubled :
    (fuel u n : ℕ)
    → n < 9007199254740992 * (2 ^ suc fuel * u)
    → n < 9007199254740992 * (2 ^ fuel * (2 * u))
doubled fuel u n h =
    subst (λ k. n < 9007199254740992 * k)
      (ap (λ k. k * u) (pow-suc 2 fuel) ∙ mul_assoc (2 ^ fuel) 2 u) h

-- Rounding down or up, whatever the choice.
near :
    (n u r : ℕ) (below even : Bool)
    → 4503599627370496 * u ≤ n + 4503599627370496
    → r < u
    → r ≤ n
    → (4503599627370496 * (if below then n - r else if even then n - r else n - r + u)
        ≤ 4503599627370496 * n + n + 4503599627370496)
      × (4503599627370496 * n
          ≤ 4503599627370496 * (if below then n - r else if even then n - r else n - r + u)
            + n
            + 4503599627370496)
near n u r true even small less part = (omega arith, omega arith)
near n u r false true small less part = (omega arith, omega arith)
near n u r false false small less part = (omega arith, omega arith)

-- The fuel is enough for all numbers of less than 117 bits: n has at most 53 bits in its unit.
pub unit_enough :
    (fuel u n : ℕ) → n < 9007199254740992 * (2 ^ fuel * u) → n < 9007199254740992 * unit fuel u n
unfolding unit
unit_enough zero u n h = omega (arith, h)
unit_enough (suc fuel) u n h = elim (Bool-cases (ltb n (9007199254740992 * u))) [
  | inl fits ↦ rw fits (ground arith)
  | inr longer ↦ rw longer (unit_enough fuel (2 * u) n (doubled fuel u n h))
]

-- The error of the rounding is at most a unit, the 2^52-th part of n or one.
pub round_double_near :
    (n : ℕ)
    → (4503599627370496 * round_double n ≤ 4503599627370496 * n + n + 4503599627370496)
      × (4503599627370496 * n ≤ 4503599627370496 * round_double n + n + 4503599627370496)
unfolding round_double
round_double_near n =
    let positive = unit_positive 64 1 n (omega arith) in
    let small = unit_small 64 1 n (omega arith) in
    let less = mod-lt n positive in
    let part = mod-le n (unit 64 1 n) in
    near n (unit 64 1 n) (n % unit 64 1 n) (ltb (2 * (n % unit 64 1 n)) (unit 64 1 n))
      ((2 * (n % unit 64 1 n) == unit 64 1 n) && ((n / unit 64 1 n) % 2 == 0)) small less part
