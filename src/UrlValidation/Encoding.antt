-- ===== src/UrlValidation/Encoding.antt =====
-- src/url-validation.js: the pattern of a double-encoded character.
use web_resource_ledger.Prelude.{
  ℕ, ◌≡◌, ◌↔◌, refl, ap, ◌∙◌, [], ◌∷◌, ◌++◌, Bool, true, false, inl, inr, ◌||◌, Bool-cases, arith,
}
use web_resource_ledger.Prelude.Texts.{Text}
use web_resource_ledger.UrlValidation.{has_double_encoding, starts_double_encoded, is_hex}

-- A part "%25" with two hex digits after it.
pub record DoubleEncoded (s : Text) : Type 0 where
  pub before : Text
  pub after : Text
  pub high : ℕ
  pub low : ℕ
  pub cut : s ≡ before ++ (b'%' ∷ b'2' ∷ b'5' ∷ high ∷ low ∷ after)
  pub high_digit : is_hex high ≡ true
  pub low_digit : is_hex low ≡ true

starts_double_encoded-cut : (s : Text) → starts_double_encoded s ≡ true → DoubleEncoded s
unfolding starts_double_encoded
starts_double_encoded-cut [] h = cc
starts_double_encoded-cut (a ∷ []) h = cc
starts_double_encoded-cut (a ∷ b ∷ []) h = cc
starts_double_encoded-cut (a ∷ b ∷ c ∷ []) h = cc
starts_double_encoded-cut (a ∷ b ∷ c ∷ d ∷ []) h = cc
starts_double_encoded-cut (a ∷ b ∷ c ∷ d ∷ e ∷ s) h =
    let ea : a ≡ b'%' = ground arith in
    let eb : b ≡ b'2' = ground arith in
    let ec : c ≡ b'5' = ground arith in
    record {
      before = [];
      after = s;
      high = d;
      low = e;
      cut = rw (ea, eb, ec);
      high_digit = ground arith;
      low_digit = ground arith;
    }

later : (c : ℕ) (s : Text) → DoubleEncoded s → DoubleEncoded (c ∷ s)
later c s found = record {
  before = c ∷ found.before;
  after = found.after;
  high = found.high;
  low = found.low;
  cut = ap (λ t. c ∷ t) found.cut;
  high_digit = found.high_digit;
  low_digit = found.low_digit;
}

has_double_encoding-cut : (s : Text) → has_double_encoding s ≡ true → DoubleEncoded s
unfolding has_double_encoding
has_double_encoding-cut [] h = cc
has_double_encoding-cut (c ∷ s) h = elim (Bool-cases (starts_double_encoded (c ∷ s))) [
  | inl here ↦ starts_double_encoded-cut (c ∷ s) here
  | inr there ↦ later c s (has_double_encoding-cut s (rw there at h))
]

or-true : (b : Bool) → (b || true) ≡ true
or-true true = refl
or-true false = refl

cut-has_double_encoding :
    (before after : Text) (d e : ℕ)
    → is_hex d ≡ true
    → is_hex e ≡ true
    → has_double_encoding (before ++ (b'%' ∷ b'2' ∷ b'5' ∷ d ∷ e ∷ after)) ≡ true
unfolding has_double_encoding starts_double_encoded
cut-has_double_encoding [] after d e hd he = rw (hd, he)
cut-has_double_encoding (c ∷ before) after d e hd he =
    rw (cut-has_double_encoding before after d e hd he) (or-true _)

-- `finalizeResult` finds a double-encoded character in a text exactly when the text has a part "%25"
-- followed by two hex digits.
pub has_double_encoding_iff : (s : Text) → (has_double_encoding s ≡ true) ↔ DoubleEncoded s
has_double_encoding_iff s = (
  has_double_encoding-cut s,
  λ found.
      ap has_double_encoding found.cut
      ∙ cut-has_double_encoding found.before found.after found.high found.low found.high_digit
          found.low_digit,
)
