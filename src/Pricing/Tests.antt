-- ===== src/Pricing/Tests.antt =====
-- Charges of the tests of the source, months in the third and the fourth bracket, and one with half a cent.
use web_resource_ledger.Prelude.{◌+◌, ◌*◌, ◌≤◌, ◌≡◌, refl, arith}
use web_resource_ledger.Pricing.{unit, round_double, charge_loop, round_cents, calculate_charges}
use web_resource_ledger.Pricing.Bracket.{total_price, calculate_charges-total_price}

charges_250 : (calculate_charges 250).amount ≡ 250
unfolding calculate_charges charge_loop round_cents round_double unit
charges_250 = refl

charges_10001 : (calculate_charges 10001).amount ≡ 49004
unfolding calculate_charges charge_loop round_cents round_double unit
charges_10001 = refl

-- The exact amount is 512.295.
charges_10637 : (calculate_charges 10637).amount ≡ 51229
unfolding calculate_charges charge_loop round_cents round_double unit
charges_10637 = refl

charges_123457 : (calculate_charges 123457).amount ≡ 399186
unfolding calculate_charges charge_loop round_cents round_double unit
charges_123457 = refl

calculate_charges-total_price_example :
    (10 * (calculate_charges 12000).amount ≤ total_price 12000 + 5)
    × (total_price 12000 ≤ 10 * (calculate_charges 12000).amount + 5)
calculate_charges-total_price_example = calculate_charges-total_price 12000 (omega arith)
