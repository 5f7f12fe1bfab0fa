-- ===== src/Address/Tests.antt =====
-- Addresses of each kind, judged.
use web_resource_ledger.Prelude.{
  ◌+◌, ◌*◌, ◌^◌, ◌%◌, ◌≡◌, ◌++◌, some, any, if◌then◌else◌, arith, refl, true, false,
}
use web_resource_ledger.Prelude.Texts.{codes}
use web_resource_ledger.Prelude.Integers.{ℤ, pos}
use web_resource_ledger.Address.{
  is_private_ipv4, is_private_ipv6, ipv4_blocked_ranges, ipv6_blocked_ranges, parse_ipv6_to_big_int,
  ipv4_to_int,
}
use web_resource_ledger.Address.Ranges.{
  ipv4, between, reserved_ipv4, reserved_ipv6, is_mapped, is_private_ipv4_lem, is_private_ipv6_lem,
}
use web_resource_ledger.Address.Dotted.{dotted}
use web_resource_ledger.Address.Mapped.{mapped_as_dotted}

is_private_ipv4-loopback : is_private_ipv4 0x7f000001 ≡ true
unfolding is_private_ipv4 ipv4_blocked_ranges
is_private_ipv4-loopback = refl

is_private_ipv6-documentation : is_private_ipv6 (pos (0x20010db8 * 2 ^ 96 + 1)) ≡ true
unfolding is_private_ipv6 ipv6_blocked_ranges
is_private_ipv6-documentation = refl

is_private_ipv6-public : is_private_ipv6 (pos (0x26064700 * 2 ^ 96 + 1)) ≡ false
unfolding is_private_ipv6 ipv6_blocked_ranges
is_private_ipv6-public = refl

is_private_ipv4_lem_example :
    is_private_ipv4 (ipv4 172 31 0 9) ≡ any (between (ipv4 172 31 0 9)) reserved_ipv4
is_private_ipv4_lem_example = is_private_ipv4_lem (ipv4 172 31 0 9) (omega arith)

is_private_ipv6_lem_example : is_private_ipv6 (pos (0xfe80 * 2 ^ 112 + 1)) ≡ (
    if is_mapped (0xfe80 * 2 ^ 112 + 1)
    then any (between ((0xfe80 * 2 ^ 112 + 1) % 2 ^ 32)) reserved_ipv4
    else any (between (0xfe80 * 2 ^ 112 + 1)) reserved_ipv6)
is_private_ipv6_lem_example = is_private_ipv6_lem (0xfe80 * 2 ^ 112 + 1) (omega arith)

mapped_as_dotted_example :
    (v : ℤ) × (parse_ipv6_to_big_int (codes "::ffff:" ++ dotted 127 0 0 1) ≡ some v)
    × (is_private_ipv6 v ≡ is_private_ipv4 (ipv4_to_int (dotted 127 0 0 1)))
mapped_as_dotted_example =
    mapped_as_dotted 127 0 0 1 (omega arith) (omega arith) (omega arith) (omega arith)
