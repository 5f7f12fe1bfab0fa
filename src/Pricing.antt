-- ===== src/Pricing.antt =====
-- src/pricing.js: `calculateCharges` and `computeBillableDelta`. A floating-point number is given by its product
-- with 2^59: the prices are whole then, and so is every amount that the function meets. The
-- names of the tiers and the fixed parts of the result are left out.
pub mod Doubles
pub mod Bracket
mod Tests
use web_resource_ledger.Prelude.{
  ℕ, zero, suc, ◌+◌, ◌-◌, ◌*◌, ◌/◌, ◌%◌, min, List, [], ◌∷◌, Option, none, some, Bool, true, false,
  ◌&&◌, ◌==◌, ltb, leb, if◌then◌else◌,
}

-- The distance between the floating-point numbers around n: the first doubling of u for which n has at most 53 bits.
unfoldable pub unit : ℕ → ℕ → ℕ → ℕ
unit zero u n = u
unit (suc fuel) u n =
    let rest = unit fuel (2 * u) n in if ltb n (9007199254740992 * u) then u else rest

-- The nearest floating-point number, and of two the one whose last bit is zero.
unfoldable pub round_double : ℕ → ℕ
round_double n =
    let u = unit 64 1 n in
    let r = n % u in
    if ltb (2 * r) u then n - r else if (2 * r == u) && ((n / u) % 2 == 0) then n - r else n - r + u

pub data TierId : Type 0 where
  tier_0 tier_1 tier_2 tier_3 : TierId

pub record VolumeTier : Type 0 where
  pub id : TierId
  pub unit_price : ℕ
  pub from : ℕ
  pub to : Option ℕ

-- 0.05, 0.035 and 0.015
abbrev pub price_1 : ℕ
price_1 = 28823037615171176

abbrev pub price_2 : ℕ
price_2 = 20176126330619824

abbrev pub price_3 : ℕ
price_3 = 8646911284551352

abbrev pub free_tier : VolumeTier
free_tier = record { id = tier_0; unit_price = 0; from = 1; to = some 200 }

abbrev pub volume_tiers : List VolumeTier
volume_tiers =
    free_tier
    ∷ record { id = tier_1; unit_price = price_1; from = 201; to = some 10000 }
    ∷ record { id = tier_2; unit_price = price_2; from = 10001; to = some 100000 }
    ∷ record { id = tier_3; unit_price = price_3; from = 100001; to = none }
    ∷ []

pub record Charge : Type 0 where
  pub amount : ℕ
  pub current_tier : VolumeTier

-- The bracket's end, and whether the loop ends there.
abbrev pub bracket_end : VolumeTier → ℕ → ℕ
bracket_end tier capture_count = elim tier.to [ none ↦ capture_count | some end ↦ end ]

abbrev pub ends_in : VolumeTier → ℕ → Bool
ends_in tier capture_count = elim tier.to [ none ↦ true | some end ↦ leb capture_count end ]

-- The loop over the tiers; the product and the sum are rounded.
unfoldable pub charge_loop : List VolumeTier → ℕ → Charge → Charge
charge_loop [] capture_count charge = charge
charge_loop (tier ∷ tiers) capture_count charge =
    let units_in_bracket = min capture_count (bracket_end tier capture_count) - (tier.from - 1) in
    let charged : Charge = record {
      amount = round_double (charge.amount + round_double (units_in_bracket * tier.unit_price));
      current_tier = tier;
    } in
    let rest = charge_loop tiers capture_count charged in
    if ltb capture_count tier.from
    then charge
    else if ends_in tier capture_count
    then charged
    else rest

-- `Math.round(amount * 100)`, where the product is rounded as well: the amount that is returned, in cents.
unfoldable pub round_cents : ℕ → ℕ
round_cents amount = (round_double (amount * 100) + 288230376151711744) / 576460752303423488

-- The amount is in cents.
unfoldable pub calculate_charges : ℕ → Charge
calculate_charges capture_count =
    let charge =
      charge_loop volume_tiers capture_count (record { amount = 0; current_tier = free_tier }) in
    record charge { amount = round_cents charge.amount }

unfoldable pub compute_billable_delta : (capture_count reported_capture_count : ℕ) → ℕ
compute_billable_delta capture_count reported_capture_count = capture_count - reported_capture_count
