-- ===== src/Pricing/Bracket.antt =====
-- src/pricing.js: each capture is priced at the rate of the bracket it falls in, and the sum is rounded to cents.
use web_resource_ledger.Prelude.{
  ℕ, zero, suc, ap₂, List, [], ◌∷◌, none, some, ◌+◌, ◌*◌, ◌-◌, ◌≤◌, ◌<◌, ◌≡◌, refl, ap, ◌∙◌, min,
  ◌⊎◌, inl, inr, if◌then◌else◌, leb, ltb, Bool-cases, true, false, arith,
}
use web_resource_ledger.Pricing.{
  unit, round_double, tier_1, tier_2, tier_3, VolumeTier, bracket_end, ends_in, price_1, price_2,
  price_3, free_tier, volume_tiers, Charge, charge_loop, round_cents, calculate_charges,
}
use web_resource_ledger.Pricing.Doubles.{round_double_near}

-- The price of the n-th capture of a period, in thousandths of a euro.
abbrev pub price_of : ℕ → ℕ
price_of n = if leb n 200 then 0 else if leb n 10000 then 50 else if leb n 100000 then 35 else 15

-- The prices of the first n captures.
pub total_price : ℕ → ℕ
total_price zero = 0
total_price (suc n) = total_price n + price_of (suc n)

total_price_closed :
    (n : ℕ)
    → total_price n ≡ 50 * (min n 10000 - 200) + (35 * (min n 100000 - 10000) + 15 * (n - 100000))
unfolding total_price
total_price_closed zero = refl
total_price_closed (suc n) = ground (arith, total_price_closed n)

abbrev start : Charge
start = record { amount = 0; current_tier = free_tier }

abbrev tier_of_1 : VolumeTier
tier_of_1 = record { id = tier_1; unit_price = price_1; from = 201; to = some 10000 }

abbrev tier_of_2 : VolumeTier
tier_of_2 = record { id = tier_2; unit_price = price_2; from = 10001; to = some 100000 }

abbrev tier_of_3 : VolumeTier
tier_of_3 = record { id = tier_3; unit_price = price_3; from = 100001; to = none }

abbrev last_tiers : List VolumeTier
last_tiers = tier_of_2 ∷ tier_of_3 ∷ []

abbrev later_tiers : List VolumeTier
later_tiers = tier_of_1 ∷ last_tiers

-- The sum of the rounded brackets, before the rounding to cents.
abbrev summed : ℕ → ℕ → ℕ
summed before part = round_double (before + round_double part)

abbrev charged : VolumeTier → ℕ → Charge → Charge
charged tier n charge = record {
  amount = summed charge.amount ((min n (bracket_end tier n) - (tier.from - 1)) * tier.unit_price);
  current_tier = tier;
}

module _ (tier : VolumeTier) (tiers : List VolumeTier) (n : ℕ) (charge : Charge) where
  stops : ltb n tier.from ≡ true → charge_loop (tier ∷ tiers) n charge ≡ charge
  unfolding charge_loop
  stops h = rw (h, charge_loop) refl

  ends :
      ltb n tier.from ≡ false
      → ends_in tier n ≡ true
      → charge_loop (tier ∷ tiers) n charge ≡ charged tier n charge
  unfolding charge_loop
  ends h k = rw (h, k, charge_loop) refl

  goes_on :
      ltb n tier.from ≡ false
      → ends_in tier n ≡ false
      → charge_loop (tier ∷ tiers) n charge ≡ charge_loop tiers n (charged tier n charge)
  unfolding charge_loop
  goes_on h k = rw (h, k, charge_loop) refl

free_amount : (k : ℕ) → summed 0 (k * 0) ≡ 0
unfolding round_double unit
free_amount k = let e : k * 0 ≡ 0 = omega arith in rw e refl

-- The amounts of the first brackets when they are full.
abbrev full_1 : ℕ
full_1 = 282465768628677509120

abbrev full_2 : ℕ
full_2 = 2098317138384461758464

full_1_lem : summed 0 (9800 * price_1) ≡ full_1
unfolding round_double unit
full_1_lem = refl

full_2_lem : summed full_1 (90000 * price_2) ≡ full_2
unfolding round_double unit
full_2_lem = refl

abbrev loop_amount : ℕ → ℕ
loop_amount n = (charge_loop volume_tiers n start).amount

in_first : (n : ℕ) → n ≤ 200 → loop_amount n ≡ 0
in_first n h = elim (Bool-cases (ltb n 1)) [
  | inl none_made ↦ ap (λ c. c.amount) (stops free_tier later_tiers n start none_made)
  | inr some_made ↦
      ap (λ c. c.amount) (ends free_tier later_tiers n start some_made (ground arith))
      ∙ free_amount (min n 200 - 0)
]

-- Past the free bracket.
past_first : (n : ℕ) → 200 < n → charge_loop volume_tiers n start ≡ charge_loop later_tiers n start
past_first n low =
    goes_on free_tier later_tiers n start (ground arith) (ground arith)
    ∙ ap (λ a. charge_loop later_tiers n (record { amount = a; current_tier = free_tier }))
        (free_amount (min n 200 - 0))

in_second : (n : ℕ) → 200 < n → n ≤ 10000 → loop_amount n ≡ summed 0 ((n - 200) * price_1)
in_second n low high =
    let units : min n 10000 - 200 ≡ n - 200 = omega arith in
    ap (λ c. c.amount)
      (past_first n low ∙ ends tier_of_1 last_tiers n start (ground arith) (ground arith))
    ∙ ap (λ k. summed 0 (k * price_1)) units

past_second :
    (n : ℕ)
    → 10000 < n
    → charge_loop volume_tiers n start
      ≡ charge_loop last_tiers n (record { amount = full_1; current_tier = tier_of_1 })
past_second n low =
    let units : min n 10000 - 200 ≡ 9800 = omega arith in
    past_first n (omega arith)
    ∙ goes_on tier_of_1 last_tiers n start (ground arith) (ground arith)
    ∙ ap (λ a. charge_loop last_tiers n (record { amount = a; current_tier = tier_of_1 }))
        (ap (λ k. summed 0 (k * price_1)) units ∙ full_1_lem)

in_third : (n : ℕ) → 10000 < n → n ≤ 100000 → loop_amount n ≡ summed full_1 ((n - 10000) * price_2)
in_third n low high =
    let units : min n 100000 - 10000 ≡ n - 10000 = omega arith in
    ap (λ c. c.amount)
      (past_second n low ∙ ends tier_of_2 (tier_of_3 ∷ []) n _ (ground arith) (ground arith))
    ∙ ap (λ k. summed full_1 (k * price_2)) units

in_fourth : (n : ℕ) → 100000 < n → loop_amount n ≡ summed full_2 ((n - 100000) * price_3)
in_fourth n low =
    let units : min n 100000 - 10000 ≡ 90000 = omega arith in
    let rest : min n n - 100000 ≡ n - 100000 = omega arith in
    ap (λ c. c.amount)
      (past_second n (omega arith)
        ∙ goes_on tier_of_2 (tier_of_3 ∷ []) n _ (ground arith) (ground arith)
        ∙ ends tier_of_3 [] n _ (ground arith) refl)
    ∙ ap₂ (λ a k. summed a (k * price_3)) (ap (λ k. summed full_1 (k * price_2)) units ∙ full_2_lem)
        rest

-- An amount that is within a quarter of a thousandth of a sum.
abbrev IsNear : ℕ → ℕ → Type 0
IsNear amount mills =
    (1000 * amount ≤ 576460752303423488 * mills + 144115188075855872)
    × (576460752303423488 * mills ≤ 1000 * amount + 144115188075855872)

round_cents_near :
    (amount mills : ℕ)
    → mills ≤ 50000000000
    → IsNear amount mills
    → (10 * round_cents amount ≤ mills + 5) × (mills ≤ 10 * round_cents amount + 5)
unfolding round_cents
round_cents_near amount mills small (below, above) =
    let (up, down) = round_double_near (amount * 100) in (omega arith, omega arith)

leq_cases : (n k : ℕ) → (n ≤ k) ⊎ (k < n)
leq_cases n k = elim (Bool-cases (leb n k)) [
  | inl low ↦ inl (ground arith)
  | inr high ↦ inr (ground arith)
]

amount-IsNear : (n : ℕ) → n ≤ 1000000000 → IsNear (loop_amount n) (total_price n)
amount-IsNear n h = elim (leq_cases n 200) [
  | inl free ↦
      rw (in_first n free)
        (omega (arith, total_price_closed n), omega (arith, total_price_closed n))
  | inr paid ↦ elim (leq_cases n 10000) [
    | inl second ↦
        let part = (n - 200) * price_1 in
        let inner = round_double_near part in
        let outer = round_double_near (0 + round_double part) in
        rw (in_second n paid second) (
          omega (arith, total_price_closed n, inner.0, inner.1, outer.0, outer.1),
          omega (arith, total_price_closed n, inner.0, inner.1, outer.0, outer.1),
        )
    | inr more ↦ elim (leq_cases n 100000) [
      | inl third ↦
          let part = (n - 10000) * price_2 in
          let inner = round_double_near part in
          let outer = round_double_near (full_1 + round_double part) in
          rw (in_third n more third) (
            omega (arith, total_price_closed n, inner.0, inner.1, outer.0, outer.1),
            omega (arith, total_price_closed n, inner.0, inner.1, outer.0, outer.1),
          )
      | inr most ↦
          let part = (n - 100000) * price_3 in
          let inner = round_double_near part in
          let outer = round_double_near (full_2 + round_double part) in
          rw (in_fourth n most) (
            omega (arith, total_price_closed n, inner.0, inner.1, outer.0, outer.1),
            omega (arith, total_price_closed n, inner.0, inner.1, outer.0, outer.1),
          )
    ]
  ]
]

-- For up to a thousand million captures, the amount in cents is the sum of the prices of the single captures, each
-- at the rate of the bracket it falls in and not at the rate of the last one, to within half a cent: it is at
-- most 5 thousandths of a euro above or below.
pub calculate_charges-total_price :
    (n : ℕ)
    → n ≤ 1000000000
    → (10 * (calculate_charges n).amount ≤ total_price n + 5)
      × (total_price n ≤ 10 * (calculate_charges n).amount + 5)
unfolding calculate_charges
calculate_charges-total_price n h =
    round_cents_near (loop_amount n) (total_price n) (omega (arith, total_price_closed n))
      (amount-IsNear n h)
