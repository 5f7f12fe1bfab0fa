-- ===== src/Address.antt =====
-- src/url-validation.js: IP addresses. Texts to numbers, and the blocklists of private and reserved
-- ranges. 32-bit integers are their bit patterns; a BigInt is an integer.
pub mod Ranges
pub mod Mapped
pub mod Dotted
mod Tests
use web_resource_ledger.Prelude.{
  ℕ, zero, suc, ◌+◌, ◌-◌, ◌*◌, ◌/◌, ◌%◌, ◌^◌, List, [], ◌∷◌, ◌++◌, map, Option, none, some, Bool,
  true, false, not, ◌&&◌, ◌||◌, bit_and, bit_or, bit_xor, ltb, leb, ◌==◌, if◌then◌else◌, length,
  get_or, all, any, replicate,
}
use mathlib.Core.Option
use web_resource_ledger.Prelude.Texts.{Text, codes, split, join, is_digit, hex_digit, includes_char}
use web_resource_ledger.Prelude.Integers.{ℤ, pos, negsuc, parse_int_16}

-- A blocked range: the prefix and its number of bits.
pub record Range : Type 0 where
  pub prefix : ℕ
  pub bits : ℕ

abbrev pub range : ℕ → ℕ → Range
range prefix bits = record { prefix = prefix; bits = bits }

unfoldable pub ipv4_blocked_ranges : List Range
ipv4_blocked_ranges =
    range 0x00000000 8
    ∷ range 0x0a000000 8
    ∷ range 0x64400000 10
    ∷ range 0x7f000000 8
    ∷ range 0xa9fe0000 16
    ∷ range 0xac100000 12
    ∷ range 0xc0000000 24
    ∷ range 0xc0000200 24
    ∷ range 0xc0a80000 16
    ∷ range 0xc6120000 15
    ∷ range 0xc6336400 24
    ∷ range 0xcb007100 24
    ∷ range 0xf0000000 4
    ∷ range 0xffffffff 32
    ∷ []

unfoldable pub ipv6_blocked_ranges : List Range
ipv6_blocked_ranges =
    range 0 128
    ∷ range 1 128
    ∷ range 0x0000_0000_0000_0000_0000_ffff_0000_0000 96
    ∷ range 0xfc00_0000_0000_0000_0000_0000_0000_0000 7
    ∷ range 0xfe80_0000_0000_0000_0000_0000_0000_0000 10
    ∷ range 0xff00_0000_0000_0000_0000_0000_0000_0000 8
    ∷ range 0x2001_0db8_0000_0000_0000_0000_0000_0000 32
    ∷ range 0x0100_0000_0000_0000_0000_0000_0000_0000 64
    ∷ []

-- `/^\d+\.\d+\.\d+\.\d+$/`
all_digits : Text → Bool
all_digits [] = false
all_digits (c ∷ s) = all is_digit (c ∷ s)

abbrev is_four : List Text → Bool
is_four parts = length parts == 4 && all all_digits parts

unfoldable pub is_dotted_decimal : Text → Bool
unfolding all_digits
is_dotted_decimal s = is_four (split b'.' s)

-- `Number(part)` of decimal digits.
unfoldable pub number : ℕ → Text → ℕ
number n [] = n
number n (c ∷ s) = number (n * 10 + (c - b'0')) s

-- `x << k` on 32-bit integers.
abbrev pub shl : ℕ → ℕ → ℕ
shl x k = x * 2 ^ k % 2 ^ 32

unfoldable pub four_to_int : List ℕ → ℕ
four_to_int parts =
    bit_or
      (bit_or (bit_or (shl (get_or parts 0 0) 24) (shl (get_or parts 1 0) 16))
        (shl (get_or parts 2 0) 8))
      (get_or parts 3 0 % 2 ^ 32)

unfoldable pub ipv4_to_int : Text → ℕ
unfolding four_to_int number
ipv4_to_int ip = four_to_int (map (number 0) (split b'.' ip))

-- `n.toString(16)` of a number below 2^16, which has at most four digits.
to_hex_loop : ℕ → ℕ → Text → Text
to_hex_loop zero n acc = acc
to_hex_loop (suc fuel) n acc =
    let rest = to_hex_loop fuel (n / 16) (hex_digit (n % 16) ∷ acc) in
    if ltb n 16 then hex_digit n ∷ acc else rest

unfoldable pub to_hex_16 : ℕ → Text
unfolding to_hex_loop
to_hex_16 n = to_hex_loop 4 n []

-- The bounds and the two groups of `ipv4DottedToTwoGroups`; a text that passed the pattern has no NaN.
two_groups : List ℕ → Option (List Text)
two_groups parts =
    if not (length parts == 4) || any (λ p. ltb 255 p) parts
    then none
    else some (
        to_hex_16 (bit_or (get_or parts 0 0 * 2 ^ 8) (get_or parts 1 0))
        ∷ to_hex_16 (bit_or (get_or parts 2 0 * 2 ^ 8) (get_or parts 3 0))
        ∷ [])

unfoldable pub ipv4_dotted_to_two_groups : Text → Option (List Text)
unfolding two_groups number
ipv4_dotted_to_two_groups dotted = two_groups (map (number 0) (split b'.' dotted))

-- The text before the first "::", and the text after it.
abbrev before_more : ℕ → Option (Text × Text) → Option (Text × Text)
before_more c none = none
before_more c (some (left, right)) = some (c ∷ left, right)

unfoldable pub cut_double_colon : Text → Option (Text × Text)
cut_double_colon [] = none
cut_double_colon (a ∷ []) = none
cut_double_colon (a ∷ b ∷ s) =
    if a == b':' && b == b':' then some ([], s) else before_more a (cut_double_colon (b ∷ s))

-- `const [left, right] = full.split('::')` keeps the parts around the first separator.
abbrev pub second_part : Text → Text
second_part after = elim (cut_double_colon after) [ none ↦ after | some (right, rest) ↦ right ]

-- `left ? left.split(':') : []`
abbrev pub groups_of : Text → List Text
groups_of [] = []
groups_of (c ∷ s) = split b':' (c ∷ s)

-- A dotted-decimal last group becomes two groups, when its numbers are in range.
unfoldable pub convert_last : List Text → List Text
convert_last [] = []
convert_last (g ∷ []) =
    if is_dotted_decimal g
    then elim (ipv4_dotted_to_two_groups g) [ none ↦ g ∷ [] | some converted ↦ converted ]
    else g ∷ []
convert_last (g ∷ h ∷ groups) = g ∷ convert_last (h ∷ groups)

-- `none` for the RangeError of `Array(missing)` with a negative length.
unfoldable pub expand : List Text → List Text → Option Text
expand left right =
    if ltb 8 (length left + length right)
    then none
    else some
        (join b':' (left ++ (replicate (8 - length left - length right) (codes "0") ++ right)))

-- `(result << 16n) | BigInt(g)`, on integers in two's complement.
unfoldable pub push_group : ℤ → ℤ → ℤ
push_group (pos r) (pos g) = pos (bit_or (r * 2 ^ 16) g)
push_group (pos r) (negsuc g) = negsuc (g - bit_and g (r * 2 ^ 16))
push_group (negsuc r) (pos g) = negsuc (r * 2 ^ 16 + 0xffff - bit_and (r * 2 ^ 16 + 0xffff) g)
push_group (negsuc r) (negsuc g) = negsuc (bit_and (r * 2 ^ 16 + 0xffff) g)

-- `none` for the RangeError of `BigInt(NaN)`.
unfoldable pub group_loop : ℤ → List Text → Option ℤ
group_loop result [] = some result
group_loop result (g ∷ groups) = elim (parse_int_16 g) [
  | none ↦ none
  | some n ↦ group_loop (push_group result n) groups
]

unfoldable pub eight_groups : List Text → Option ℤ
eight_groups groups = if length groups == 8 then group_loop (pos 0) groups else none

unfoldable pub parse_ipv6_to_big_int : Text → Option ℤ
parse_ipv6_to_big_int addr = elim (cut_double_colon addr) [
  | none ↦ eight_groups (split b':' addr)
  | some (left, after) ↦
      Option.bind (expand (groups_of left) (convert_last (groups_of (second_part after))))
        λ full. eight_groups (split b':' full)
]

-- `bits === 32 ? 0xffffffff : (~(0xffffffff >>> bits)) >>> 0`
abbrev pub mask_32 : ℕ → ℕ
mask_32 bits = if bits == 32 then 0xffffffff else 0xffffffff - 0xffffffff / 2 ^ bits

abbrev pub in_range_32 : ℕ → Range → Bool
in_range_32 ip_int r = bit_and ip_int (mask_32 r.bits) == r.prefix

unfoldable pub is_private_ipv4 : ℕ → Bool
unfolding ipv4_blocked_ranges
is_private_ipv4 ip_int = any (in_range_32 ip_int) ipv4_blocked_ranges

-- `v & mask` for a mask that is not negative, on integers in two's complement.
abbrev pub and_mask : ℤ → ℕ → ℕ
and_mask (pos v) mask = bit_and v mask
and_mask (negsuc n) mask = mask - bit_and n mask

abbrev pub mask_128 : ℕ → ℕ
mask_128 bits =
    if bits == 0
    then 0
    else bit_xor (2 ^ (128 - bits) - 1) 0xffff_ffff_ffff_ffff_ffff_ffff_ffff_ffff

abbrev pub is_number : ℤ → ℕ → Bool
is_number (pos v) n = v == n
is_number (negsuc v) n = false

abbrev pub in_range_128 : ℤ → Range → Bool
in_range_128 v6 r =
    if r.bits == 128 then is_number v6 r.prefix else and_mask v6 (mask_128 r.bits) == r.prefix

abbrev pub ipv4_mapped_prefix : ℕ
ipv4_mapped_prefix = 0x0000_0000_0000_0000_0000_ffff_0000_0000

abbrev pub ipv4_mapped_mask : ℕ
ipv4_mapped_mask = 0xffff_ffff_ffff_ffff_ffff_ffff_0000_0000

unfoldable pub is_private_ipv6 : ℤ → Bool
unfolding ipv6_blocked_ranges
is_private_ipv6 v6 =
    if and_mask v6 ipv4_mapped_mask == ipv4_mapped_prefix
    then is_private_ipv4 (and_mask v6 0xffffffff)
    else any (in_range_128 v6) ipv6_blocked_ranges
