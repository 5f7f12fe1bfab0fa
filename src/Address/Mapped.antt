-- ===== src/Address/Mapped.antt =====
-- IPv4-mapped IPv6 addresses are judged by their IPv4 address.
use web_resource_ledger.Prelude.{
  ℕ, ◌+◌, ◌*◌, ◌%◌, ◌^◌, ◌<◌, ◌≡◌, ap, sym, ◌∙◌, some, ◌++◌, true, arith, any, if◌then◌else◌,
}
use web_resource_ledger.Prelude.Texts.{codes}
use web_resource_ledger.Prelude.Integers.{ℤ, pos}
use web_resource_ledger.Address.{
  ipv4_to_int, parse_ipv6_to_big_int, is_private_ipv4, is_private_ipv6,
}
use web_resource_ledger.Address.Ranges.{
  ipv4, between, reserved_ipv4, reserved_ipv6, is_mapped, is_private_ipv4_lem, is_private_ipv6_lem,
}
use web_resource_ledger.Address.Dotted.{dotted, ipv4_to_int_lem, parse_mapped}

-- Embedding an IPv4 address does not change the verdict.
pub is_private_ipv6-mapped :
    (n : ℕ) → n < 2 ^ 32 → is_private_ipv6 (pos (0xffff * 2 ^ 32 + n)) ≡ is_private_ipv4 n
is_private_ipv6-mapped n h =
    let mapped : is_mapped (0xffff * 2 ^ 32 + n) ≡ true = ground arith in
    let low : (0xffff * 2 ^ 32 + n) % 2 ^ 32 ≡ n = omega arith in
    is_private_ipv6_lem (0xffff * 2 ^ 32 + n) (omega arith)
    ∙ ap
        (λ b.
          if b
          then any (between ((0xffff * 2 ^ 32 + n) % 2 ^ 32)) reserved_ipv4
          else any (between (0xffff * 2 ^ 32 + n)) reserved_ipv6)
        mapped
    ∙ ap (λ k. any (between k) reserved_ipv4) low
    ∙ sym (is_private_ipv4_lem n h)

-- The text ::ffff:a.b.c.d is read as an IPv6 address, and judged private exactly when the text
-- a.b.c.d is.
pub mapped_as_dotted :
    (a b c d : ℕ) (ha : a < 256) (hb : b < 256) (hc : c < 256) (hd : d < 256)
    → (v : ℤ) × (parse_ipv6_to_big_int (codes "::ffff:" ++ dotted a b c d) ≡ some v)
      × (is_private_ipv6 v ≡ is_private_ipv4 (ipv4_to_int (dotted a b c d)))
mapped_as_dotted a b c d ha hb hc hd = (
  pos (0xffff * 2 ^ 32 + ipv4 a b c d),
  parse_mapped a b c d ha hb hc hd,
  is_private_ipv6-mapped (ipv4 a b c d) (omega arith)
      ∙ ap is_private_ipv4 (sym (ipv4_to_int_lem a b c d ha hb hc hd)),
)
