-- ===== src/Prelude/Texts.antt =====
-- JavaScript strings as lists of code units, and the string operations that the source calls.
use Prim.Native.Char.{code}
use Prim.Native.String.{String}
use Prim.Native.Nat.{ℕ, ◌+◌, ◌-◌, ◌/◌, ◌%◌, ◌<◌}
use mathlib.Core.Path.{◌≡◌, refl, ap, ◌∙◌}
use mathlib.Core.Logic.{◌↔◌}
use mathlib.Core.Bool.{Bool, true, false, ◌&&◌, ◌||◌}
use mathlib.Core.List.{List, [], ◌∷◌, ◌++◌}
use native.Mathlib.Omega.{arith}
use web_resource_ledger.Prelude.Tests.{ltb, leb, ◌==◌, if◌then◌else◌}

abbrev pub Text : Type 0
Text = List ℕ

abbrev pub codes : String → Text
codes String.[] = []
codes (String.◌∷◌ c s) = code c ∷ codes s

unfoldable pub text_eq : Text → Text → Bool
text_eq [] [] = true
text_eq (a ∷ s) (b ∷ t) = a == b && text_eq s t
text_eq [] (b ∷ t) = false
text_eq (a ∷ s) [] = false

pub text_eq_iff : (s t : Text) → (text_eq s t ≡ true) ↔ (s ≡ t)
unfolding text_eq
text_eq_iff [] [] = ground arith
text_eq_iff (a ∷ s) (b ∷ t) = ground (arith, text_eq_iff s t)
text_eq_iff [] (b ∷ t) = ground arith
text_eq_iff (a ∷ s) [] = ground arith

unfoldable pub starts_with : Text → Text → Bool
starts_with s [] = true
starts_with [] (b ∷ p) = false
starts_with (a ∷ s) (b ∷ p) = a == b && starts_with s p

unfoldable pub includes_char : ℕ → Text → Bool
includes_char c [] = false
includes_char c (a ∷ s) = a == c || includes_char c s

-- The part before the first separator, and the parts after it.
abbrev pub push_first : ℕ → List Text → List Text
push_first c [] = (c ∷ []) ∷ []
push_first c (s ∷ parts) = (c ∷ s) ∷ parts

-- `s.split(c)` for a separator of one character.
unfoldable pub split : ℕ → Text → List Text
split c [] = [] ∷ []
split c (a ∷ s) = if a == c then [] ∷ split c s else push_first a (split c s)

-- `parts.join(c)`.
unfoldable pub join : ℕ → List Text → Text
join c [] = []
join c (s ∷ []) = s
join c (s ∷ t ∷ parts) = s ++ c ∷ join c (t ∷ parts)

abbrev pub is_digit : ℕ → Bool
is_digit c = leb b'0' c && leb c b'9'

-- `b.toString(16).padStart(2, '0')` for a byte, and such digits joined.
unfoldable pub hex_digit : ℕ → ℕ
hex_digit d = if ltb d 10 then b'0' + d else b'a' + (d - 10)

unfoldable pub hex : List ℕ → Text
unfolding hex_digit
hex [] = []
hex (b ∷ bytes) = hex_digit (b / 16) ∷ hex_digit (b % 16) ∷ hex bytes

hex_digit_injective : (a b : ℕ) → a < 16 → b < 16 → hex_digit a ≡ hex_digit b → a ≡ b
unfolding hex_digit
hex_digit_injective a b h k e = ground arith

abbrev pub Bytes : List ℕ → Type 0
Bytes [] = Unit {0}
Bytes (b ∷ bytes) = (b < 256) × Bytes bytes

-- Two byte arrays with the same hexadecimal text are the same.
pub hex_injective : (a b : List ℕ) → Bytes a → Bytes b → hex a ≡ hex b → a ≡ b
unfolding hex
hex_injective [] [] h k e = refl
hex_injective [] (y ∷ b) h k e = cc
hex_injective (x ∷ a) [] h k e = cc
hex_injective (x ∷ a) (y ∷ b) h k e =
    let high : x / 16 ≡ y / 16 =
      hex_digit_injective (x / 16) (y / 16) (omega arith) (omega arith) (cc) in
    let low : x % 16 ≡ y % 16 =
      hex_digit_injective (x % 16) (y % 16) (omega arith) (omega arith) (cc) in
    let same : x ≡ y = omega arith in cc (same, hex_injective a b h.1 k.1 (cc))

-- The character does not occur.
abbrev pub Without : ℕ → Text → Type 0
Without c [] = Unit {0}
Without c (a ∷ s) = ((a == c) ≡ false) × Without c s

abbrev pub AllWithout : ℕ → List Text → Type 0
AllWithout c [] = Unit {0}
AllWithout c (s ∷ parts) = Without c s × AllWithout c parts

pub Without-append : (c : ℕ) (s t : Text) → Without c s → Without c t → Without c (s ++ t)
Without-append c [] t h k = k
Without-append c (a ∷ s) t h k = (h.0, Without-append c s t h.1 k)

pub split-Without : (c : ℕ) (s : Text) → Without c s → split c s ≡ s ∷ []
unfolding split
split-Without c [] h = refl
split-Without c (a ∷ s) h = rw (h.0, split-Without c s h.1)

split_front : (c : ℕ) (s t : Text) → Without c s → split c (s ++ c ∷ t) ≡ s ∷ split c t
unfolding split
split_front c [] t h = let e : (c == c) ≡ true = ground arith in rw e
split_front c (a ∷ s) t h = rw (h.0, split_front c s t h.1)

-- Splitting undoes joining, for parts without the separator.
pub split-join :
    (c : ℕ) (s : Text) (parts : List Text)
    → Without c s
    → AllWithout c parts
    → split c (join c (s ∷ parts)) ≡ s ∷ parts
unfolding join
split-join c s [] h k = split-Without c s h
split-join c s (t ∷ parts) h k =
    split_front c s (join c (t ∷ parts)) h ∙ ap (λ x. s ∷ x) (split-join c t parts k.0 k.1)
