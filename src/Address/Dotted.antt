-- ===== src/Address/Dotted.antt =====
-- Dotted-decimal texts: what they are read as, alone and as the end of an IPv6 address.
use mathlib.Core.Option
use web_resource_ledger.Prelude.{
  ℕ, zero, suc, ◌+◌, ◌-◌, ◌*◌, ◌/◌, ◌%◌, ◌^◌, ◌<◌, ◌≡◌, refl, ap, sym, ◌∙◌, List, [], ◌∷◌, ◌++◌,
  map, some, none, true, false, ◌⊎◌, inl, inr, ltb, if◌then◌else◌, Bool-cases, subst, bit_or, arith,
  ltb→lt, length, replicate,
}
use web_resource_ledger.Prelude.Bits.{bit_or-shift}
use web_resource_ledger.Prelude.Texts.{
  Text, codes, split, join, hex_digit, Without, Without-append, split-join,
}
use web_resource_ledger.Prelude.Integers.{
  ℤ, pos, parse_int_16, parse_int_16-map, hex_number, Digits,
}
use web_resource_ledger.Address.{
  is_dotted_decimal, number, shl, four_to_int, ipv4_to_int, to_hex_16, ipv4_dotted_to_two_groups,
  cut_double_colon, convert_last, expand, push_group, group_loop, eight_groups,
  parse_ipv6_to_big_int, second_part, groups_of, all_digits,
}
use web_resource_ledger.Address.Ranges.{ipv4}

-- The decimal text of a byte, without leading zeros.
abbrev pub digit : ℕ → ℕ
digit d = b'0' + d

abbrev pub decimal : ℕ → Text
decimal n =
    if ltb n 10
    then digit n ∷ []
    else if ltb n 100
    then digit (n / 10) ∷ digit (n % 10) ∷ []
    else digit (n / 100) ∷ digit (n / 10 % 10) ∷ digit (n % 10) ∷ []

abbrev pub dotted : ℕ → ℕ → ℕ → ℕ → Text
dotted a b c d = join b'.' (decimal a ∷ decimal b ∷ decimal c ∷ decimal d ∷ [])

number-decimal : (n : ℕ) → n < 256 → number 0 (decimal n) ≡ n
unfolding number
number-decimal n h = ground arith

decimal-Without : (c n : ℕ) → n < 256 → c < b'0' ⊎ b'9' < c → Without c (decimal n)
decimal-Without c n h k = ground arith

decimal-digits : (n : ℕ) → n < 256 → all_digits (decimal n) ≡ true
unfolding all_digits
decimal-digits n h = ground arith

module _ (a b c d : ℕ) (ha : a < 256) (hb : b < 256) (hc : c < 256) (hd : d < 256) where
  split-dotted : split b'.' (dotted a b c d) ≡ decimal a ∷ decimal b ∷ decimal c ∷ decimal d ∷ []
  split-dotted =
      split-join b'.' (decimal a) (decimal b ∷ decimal c ∷ decimal d ∷ [])
        (decimal-Without b'.' a ha (inl (omega arith)))
        (
          decimal-Without b'.' b hb (inl (omega arith)),
          (
            decimal-Without b'.' c hc (inl (omega arith)),
            (decimal-Without b'.' d hd (inl (omega arith)), tt),
          ),
        )

  four_to_int_lem : four_to_int (a ∷ b ∷ c ∷ d ∷ []) ≡ ipv4 a b c d
  unfolding four_to_int
  four_to_int_lem =
      let e0 : shl a 24 ≡ a * 2 ^ 24 = omega arith in
      let e1 : shl b 16 ≡ b * 2 ^ 16 = omega arith in
      let e2 : shl c 8 ≡ c * 2 ^ 8 = omega arith in
      let e3 : d % 2 ^ 32 ≡ d = omega arith in
      let ab : a * 2 ^ 24 + b * 2 ^ 16 ≡ (a * 2 ^ 8 + b) * 2 ^ 16 = omega arith in
      let abc : (a * 2 ^ 8 + b) * 2 ^ 16 + c * 2 ^ 8 ≡ (a * 2 ^ 16 + b * 2 ^ 8 + c) * 2 ^ 8 =
        omega arith in
      rw
        (
          e0,
          e1,
          e2,
          e3,
          bit_or-shift 24 a (b * 2 ^ 16) (omega arith),
          ab,
          bit_or-shift 16 (a * 2 ^ 8 + b) (c * 2 ^ 8) (omega arith),
          abc,
          bit_or-shift 8 (a * 2 ^ 16 + b * 2 ^ 8 + c) d (omega arith),
        )
        (omega arith)

  -- A dotted-decimal text stands for the address of its four numbers.
  pub ipv4_to_int_lem : ipv4_to_int (dotted a b c d) ≡ ipv4 a b c d
  unfolding ipv4_to_int
  ipv4_to_int_lem =
      rw
        (
          split-dotted,
          number-decimal a ha,
          number-decimal b hb,
          number-decimal c hc,
          number-decimal d hd,
        )
        four_to_int_lem

-- The digits of a number below 2^16, without leading zeros.
to_hex_16_lem :
    (n : ℕ)
    → n < 2 ^ 16
    → (d : ℕ) × (ds : List ℕ) × (to_hex_16 n ≡ map hex_digit (d ∷ ds))
      × Digits (d ∷ ds)
      × (hex_number 0 (d ∷ ds) ≡ n)
unfolding to_hex_16
to_hex_16_lem n h = elim (Bool-cases (ltb n 16)) [
  | inl a ↦ (n, [], ground (arith, a), (ltb→lt n 16 a, tt), omega arith)
  | inr a ↦ elim (Bool-cases (ltb (n / 16) 16)) [
    | inl b ↦
        let small = ltb→lt (n / 16) 16 b in
        (n / 16, n % 16 ∷ [], ground (arith, a, b), (small, (omega arith, tt)), omega arith)
    | inr b ↦ elim (Bool-cases (ltb (n / 16 / 16) 16)) [
      | inl c ↦
          let small = ltb→lt (n / 16 / 16) 16 c in
          (
            n / 16 / 16,
            n / 16 % 16 ∷ n % 16 ∷ [],
            ground (arith, a, b, c),
            (small, (omega arith, (omega arith, tt))),
            omega arith,
          )
      | inr c ↦ (
        n / 16 / 16 / 16,
        n / 16 / 16 % 16 ∷ n / 16 % 16 ∷ n % 16 ∷ [],
        ground (arith, a, b, c),
        (omega arith, (omega arith, (omega arith, (omega arith, tt)))),
        omega arith,
      )
    ]
  ]
]

-- A group that the code prints is read back as its number.
parse_int_16-to_hex_16 : (n : ℕ) → n < 2 ^ 16 → parse_int_16 (to_hex_16 n) ≡ some (pos n)
parse_int_16-to_hex_16 n h =
    let (d, ds, text, small, value) = to_hex_16_lem n h in
    ap parse_int_16 text ∙ parse_int_16-map d ds small ∙ ap (λ k. some (pos k)) value

-- Nor does it hold a colon.
map-hex_digit-Without : (ds : List ℕ) → Digits ds → Without b':' (map hex_digit ds)
unfolding hex_digit
map-hex_digit-Without [] h = tt
map-hex_digit-Without (d ∷ ds) h = (ground arith, map-hex_digit-Without ds h.1)

to_hex_16-Without : (n : ℕ) → n < 2 ^ 16 → Without b':' (to_hex_16 n)
to_hex_16-Without n h =
    let (d, ds, text, small, value) = to_hex_16_lem n h in
    subst (Without b':') (sym text) (map-hex_digit-Without (d ∷ ds) small)

cut_double_colon-Without : (s : Text) → Without b':' s → cut_double_colon s ≡ none
unfolding cut_double_colon
cut_double_colon-Without [] h = refl
cut_double_colon-Without (a ∷ []) h = refl
cut_double_colon-Without (a ∷ b ∷ s) h = rw (h.0, cut_double_colon-Without (b ∷ s) h.1)

cut_after_colon : (s : Text) → Without b':' s → cut_double_colon (b':' ∷ s) ≡ none
unfolding cut_double_colon
cut_after_colon [] h = refl
cut_after_colon (b ∷ s) h = rw (h.0, cut_double_colon-Without (b ∷ s) h)

group_step :
    (r : ℤ) (g : Text) (n : ℕ) (groups : List Text)
    → parse_int_16 g ≡ some (pos n)
    → group_loop r (g ∷ groups) ≡ group_loop (push_group r (pos n)) groups
unfolding group_loop
group_step r g n groups e = rw (e, group_loop)

group_end : (n : ℕ) → group_loop (pos n) [] ≡ some (pos n)
unfolding group_loop
group_end n = refl

read_zero : parse_int_16 (codes "0") ≡ some (pos 0)
unfolding parse_int_16
read_zero = refl

read_ffff : parse_int_16 (codes "ffff") ≡ some (pos 0xffff)
unfolding parse_int_16
read_ffff = refl

-- Leading zero groups leave the number 0.
zero_group :
    (n : ℕ) (groups : List Text)
    → group_loop (pos 0) (replicate (suc n) (codes "0") ++ groups) ≡ group_loop (pos 0) groups
unfolding push_group
zero_group zero groups = group_step (pos 0) (codes "0") 0 groups read_zero
zero_group (suc n) groups =
    group_step (pos 0) (codes "0") 0 (replicate (suc n) (codes "0") ++ groups) read_zero
    ∙ zero_group n groups

starts_double : (s : Text) → cut_double_colon (b':' ∷ b':' ∷ s) ≡ some ([], s)
unfolding cut_double_colon
starts_double s = refl

expand_left_empty :
    (converted : List Text)
    → ltb 8 (length converted) ≡ false
    → expand [] converted
      ≡ some (join b':' (replicate (8 - length converted) (codes "0") ++ converted))
unfolding expand
expand_left_empty converted small =
    let e : 0 + length converted ≡ length converted = omega arith in rw (e, small)

-- The path of `parseIPv6ToBigInt` for an address that starts with "::" and has no other.
through_groups :
    (c : ℕ) (s : Text) (groups converted : List Text)
    → cut_double_colon (c ∷ s) ≡ none
    → split b':' (c ∷ s) ≡ groups
    → convert_last groups ≡ converted
    → ltb 8 (length converted) ≡ false
    → parse_ipv6_to_big_int (b':' ∷ b':' ∷ c ∷ s)
      ≡ eight_groups
          (split b':' (join b':' (replicate (8 - length converted) (codes "0") ++ converted)))
unfolding parse_ipv6_to_big_int Option.bind
through_groups c s groups converted h k e small = rw (
  starts_double (c ∷ s),
  h,
  k,
  e,
  expand_left_empty converted small,
  parse_ipv6_to_big_int,
  second_part,
  groups_of,
  Option.bind,
)

module _ (a b c d : ℕ) (ha : a < 256) (hb : b < 256) (hc : c < 256) (hd : d < 256) where
  dotted-Without : Without b':' (dotted a b c d)
  unfolding join
  dotted-Without =
      Without-append b':' (decimal a) _ (decimal-Without b':' a ha (inr (omega arith))) (
        refl,
        Without-append b':' (decimal b) _ (decimal-Without b':' b hb (inr (omega arith))) (
          refl,
          Without-append b':' (decimal c) _ (decimal-Without b':' c hc (inr (omega arith)))
              (refl, decimal-Without b':' d hd (inr (omega arith))),
        ),
      )

  is_dotted : is_dotted_decimal (dotted a b c d) ≡ true
  unfolding is_dotted_decimal
  is_dotted = rw (
    split-dotted a b c d ha hb hc hd,
    decimal-digits a ha,
    decimal-digits b hb,
    decimal-digits c hc,
    decimal-digits d hd,
  )

  converted :
      ipv4_dotted_to_two_groups (dotted a b c d)
      ≡ some (to_hex_16 (a * 2 ^ 8 + b) ∷ to_hex_16 (c * 2 ^ 8 + d) ∷ [])
  unfolding ipv4_dotted_to_two_groups
  converted =
      rw
        (
          split-dotted a b c d ha hb hc hd,
          number-decimal a ha,
          number-decimal b hb,
          number-decimal c hc,
          number-decimal d hd,
          bit_or-shift 8 a b (omega arith),
          bit_or-shift 8 c d (omega arith),
        )
        (ground arith)

  abbrev ab : ℕ
  ab = a * 2 ^ 8 + b

  abbrev cd : ℕ
  cd = c * 2 ^ 8 + d

  -- The text ::ffff:a.b.c.d.
  abbrev pub mapped_text : Text
  mapped_text = codes "::ffff:" ++ dotted a b c d

  no_second : cut_double_colon (codes "ffff:" ++ dotted a b c d) ≡ none
  unfolding cut_double_colon
  no_second = rw (cut_after_colon (dotted a b c d) dotted-Without)

  right_groups : split b':' (codes "ffff:" ++ dotted a b c d) ≡ codes "ffff" ∷ dotted a b c d ∷ []
  unfolding join
  right_groups =
      split-join b':' (codes "ffff") (dotted a b c d ∷ []) (ground arith) (dotted-Without, tt)

  converted_groups :
      convert_last (codes "ffff" ∷ dotted a b c d ∷ [])
      ≡ codes "ffff" ∷ to_hex_16 ab ∷ to_hex_16 cd ∷ []
  unfolding convert_last
  converted_groups = rw (is_dotted, converted)

  abbrev all_groups : List Text
  all_groups = replicate 5 (codes "0") ++ (codes "ffff" ∷ to_hex_16 ab ∷ to_hex_16 cd ∷ [])

  zero_Without : Without b':' (codes "0")
  zero_Without = (refl, tt)

  split_all : split b':' (join b':' all_groups) ≡ all_groups
  split_all =
      split-join b':' (codes "0")
        (replicate 4 (codes "0") ++ (codes "ffff" ∷ to_hex_16 ab ∷ to_hex_16 cd ∷ [])) zero_Without
        (
          zero_Without,
          (
            zero_Without,
            (
              zero_Without,
              (
                zero_Without,
                (
                  (refl, (refl, (refl, (refl, tt)))),
                  (to_hex_16-Without ab (omega arith), (to_hex_16-Without cd (omega arith), tt)),
                ),
              ),
            ),
          ),
        )

  read_all : eight_groups all_groups ≡ some (pos (0xffff * 2 ^ 32 + ipv4 a b c d))
  unfolding eight_groups push_group
  read_all =
      let high : bit_or (0xffff * 2 ^ 16) ab ≡ 0xffff * 2 ^ 16 + ab =
        bit_or-shift 16 0xffff ab (omega arith) in
      let low : bit_or ((0xffff * 2 ^ 16 + ab) * 2 ^ 16) cd ≡ (0xffff * 2 ^ 16 + ab) * 2 ^ 16 + cd =
        bit_or-shift 16 (0xffff * 2 ^ 16 + ab) cd (omega arith) in
      let value : (0xffff * 2 ^ 16 + ab) * 2 ^ 16 + cd ≡ 0xffff * 2 ^ 32 + ipv4 a b c d =
        omega arith in
      let rest = to_hex_16 ab ∷ to_hex_16 cd ∷ [] in
      zero_group 4 (codes "ffff" ∷ rest)
      ∙ group_step (pos 0) (codes "ffff") 0xffff rest read_ffff
      ∙ group_step (pos 0xffff) (to_hex_16 ab) ab (to_hex_16 cd ∷ [])
          (parse_int_16-to_hex_16 ab (omega arith))
      ∙ group_step (pos (bit_or (0xffff * 2 ^ 16) ab)) (to_hex_16 cd) cd []
          (parse_int_16-to_hex_16 cd (omega arith))
      ∙ ap (λ k. group_loop (pos (bit_or (k * 2 ^ 16) cd)) []) high
      ∙ ap (λ k. group_loop (pos k) []) low
      ∙ ap (λ k. group_loop (pos k) []) value
      ∙ group_end (0xffff * 2 ^ 32 + ipv4 a b c d)

  -- An IPv4-mapped address in dotted form is read as its 128-bit number.
  pub parse_mapped : parse_ipv6_to_big_int mapped_text ≡ some (pos (0xffff * 2 ^ 32 + ipv4 a b c d))
  parse_mapped =
      through_groups b'f' (codes "fff:" ++ dotted a b c d) (codes "ffff" ∷ dotted a b c d ∷ []) _
        no_second right_groups converted_groups refl
      ∙ ap eight_groups split_all
      ∙ read_all
