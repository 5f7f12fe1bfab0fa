-- ===== src/Prelude/Integers.antt =====
-- Integers over the native numbers, and JavaScript's `parseInt(text, 16)` with its prefix rules.
-- A text with more than 13 significant digits, which JavaScript would round, is read exactly.
use Prim.Native.Nat.{ℕ, zero, suc, ◌+◌, ◌-◌, ◌*◌, ◌<◌}
use mathlib.Core.Path.{◌≡◌, refl, ap, ◌∙◌}
use mathlib.Core.Bool.{false, Bool, ◌&&◌, ◌||◌}
use mathlib.Core.Option
use mathlib.Core.Option.{Option, none, some}
use mathlib.Core.List.{List, [], ◌∷◌, map}
use web_resource_ledger.Prelude.Tests.{leb, ◌==◌, if◌then◌else◌}
use native.Mathlib.Omega.{arith}
use web_resource_ledger.Prelude.Texts.{Text, is_digit, codes, hex_digit}

-- `negsuc n` is -(n + 1).
pub data ℤ : Type 0 where
  pos : ℕ → ℤ
  negsuc : ℕ → ℤ

unfoldable pub hex_value : ℕ → Option ℕ
hex_value c =
    if is_digit c
    then some (c - b'0')
    else if leb b'a' c && leb c b'f'
    then some (c - b'a' + 10)
    else if leb b'A' c && leb c b'F'
    then some (c - b'A' + 10)
    else none

-- The longest run of digits; `none` is NaN, for no digit at all.
unfoldable pub hex_digits : Option ℕ → Text → Option ℕ
hex_digits acc [] = acc
hex_digits acc (c ∷ s) = elim (hex_value c) [
  | none ↦ acc
  | some d ↦ hex_digits (some (Option.get_or acc 0 * 16 + d)) s
]

-- WhiteSpace and LineTerminator of the language.
unfoldable pub is_space : ℕ → Bool
is_space c =
    c == 32
    || leb 9 c && leb c 13
    || c == 0xa0
    || c == 0x1680
    || leb 0x2000 c && leb c 0x200a
    || c == 0x2028
    || c == 0x2029
    || c == 0x202f
    || c == 0x205f
    || c == 0x3000
    || c == 0xfeff

trim_start : Text → Text
trim_start [] = []
trim_start (c ∷ s) = let rest = trim_start s in if is_space c then rest else c ∷ s

without_prefix : Text → Text
without_prefix (a ∷ x ∷ s) = if a == b'0' && (x == b'x' || x == b'X') then s else a ∷ x ∷ s
without_prefix s = s

-- -0 is the number 0 wherever the source goes on with it.
negate : ℕ → ℤ
negate zero = pos 0
negate (suc n) = negsuc n

parse_signed : Text → Option ℤ
parse_signed [] = none
parse_signed (c ∷ s) =
    if c == b'-'
    then Option.map negate (hex_digits none (without_prefix s))
    else Option.map pos
        (hex_digits none (if c == b'+' then without_prefix s else without_prefix (c ∷ s)))

unfoldable pub parse_int_16 : Text → Option ℤ
unfolding hex_digits hex_value is_space trim_start without_prefix negate parse_signed
parse_int_16 s = parse_signed (trim_start s)

parse_int_16_group : parse_int_16 (codes "7f00") ≡ some (pos 0x7f00)
unfolding parse_int_16
parse_int_16_group = refl

parse_int_16_prefix : parse_int_16 (codes " -0x1fg") ≡ some (negsuc 30)
unfolding parse_int_16
parse_int_16_prefix = refl

pub hex_value-hex_digit : (d : ℕ) → d < 16 → hex_value (hex_digit d) ≡ some d
unfolding hex_value hex_digit
hex_value-hex_digit d h = ground arith

hex_digit_plain :
    (d : ℕ)
    → d < 16
    → (is_space (hex_digit d) ≡ false)
      × ((hex_digit d == b'-') ≡ false)
      × ((hex_digit d == b'+') ≡ false)
      × ((hex_digit d == b'x') ≡ false)
      × ((hex_digit d == b'X') ≡ false)
unfolding is_space hex_digit
hex_digit_plain d h = (ground arith, ground arith, ground arith, ground arith, ground arith)

and_false : (b : Bool) → (b && false) ≡ false
and_false b = ground arith

-- A text of digits is read as its digits.
pub parse_int_16-digit :
    (d : ℕ)
    → d < 16
    → parse_int_16 (hex_digit d ∷ []) ≡ Option.map pos (hex_digits none (hex_digit d ∷ []))
unfolding parse_int_16
parse_int_16-digit d h = let (a, b, c, x, y) = hex_digit_plain d h in rw (a, b, c)

pub parse_int_16-digits :
    (d e : ℕ) (s : Text)
    → d < 16
    → e < 16
    → parse_int_16 (hex_digit d ∷ hex_digit e ∷ s)
      ≡ Option.map pos (hex_digits none (hex_digit d ∷ hex_digit e ∷ s))
unfolding parse_int_16
parse_int_16-digits d e s h k =
    let (a, b, c, _, _) = hex_digit_plain d h in
    let (_, _, _, x, y) = hex_digit_plain e k in rw (a, b, c, x, y, and_false (hex_digit d == b'0'))

-- The number of a list of digits below 16.
abbrev pub hex_number : ℕ → List ℕ → ℕ
hex_number n [] = n
hex_number n (d ∷ ds) = hex_number (n * 16 + d) ds

abbrev pub Digits : List ℕ → Type 0
Digits [] = Unit {0}
Digits (d ∷ ds) = (d < 16) × Digits ds

hex_digits-map :
    (n : ℕ) (ds : List ℕ)
    → Digits ds
    → hex_digits (some n) (map hex_digit ds) ≡ some (hex_number n ds)
unfolding hex_digits
hex_digits-map n [] h = refl
hex_digits-map n (d ∷ ds) h =
    rw (hex_value-hex_digit d h.0, hex_digits) (hex_digits-map (n * 16 + d) ds h.1)

hex_digits-first :
    (d : ℕ) (ds : List ℕ)
    → Digits (d ∷ ds)
    → hex_digits none (map hex_digit (d ∷ ds)) ≡ some (hex_number 0 (d ∷ ds))
unfolding hex_digits
hex_digits-first d ds h =
    rw (hex_value-hex_digit d h.0, hex_digits) (hex_digits-map (0 * 16 + d) ds h.1)

-- The digits of a number are read back as the number.
pub parse_int_16-map :
    (d : ℕ) (ds : List ℕ)
    → Digits (d ∷ ds)
    → parse_int_16 (map hex_digit (d ∷ ds)) ≡ some (pos (hex_number 0 (d ∷ ds)))
parse_int_16-map d [] h = parse_int_16-digit d h.0 ∙ ap (Option.map pos) (hex_digits-first d [] h)
parse_int_16-map d (e ∷ ds) h =
    parse_int_16-digits d e (map hex_digit ds) h.0 h.1.0
    ∙ ap (Option.map pos) (hex_digits-first d (e ∷ ds) h)
