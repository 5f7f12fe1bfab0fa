-- ===== src/Prelude/Bits.antt =====
-- Shifts and masks as arithmetic: what `&` with a mask and `|` of disjoint fields compute.
use Prim.Native.Nat.{
  ℕ, zero, suc, ◌+◌, ◌-◌, ◌*◌, ◌/◌, ◌%◌, ◌^◌, ◌≤◌, ◌<◌, min, max, bit_and, bit_or, digits,
  bit_and-bitwise, bit_or-bitwise,
}
use mathlib.Core.Logic.{◌⊎◌, inl, inr}
use mathlib.Core.Path.{◌≡◌, refl, sym, ap, ◌∙◌}
use native.Mathlib.Omega.{arith}
use native.Mathlib.Nat.{pow-suc, mul_comm, div-div-eq-div-mul, div-add-mod'}

-- An operation by digits, `edge` where the left side has none left: one round for every digit of
-- the left side is enough, so the number of rounds does not matter.
module _ (edge : ℕ → ℕ) (op : ℕ → ℕ → ℕ) where
  more_rounds :
      (left right rounds more : ℕ)
      → left ≤ rounds
      → rounds ≤ more
      → digits edge op more left right ≡ digits edge op rounds left right
  more_rounds zero right zero zero h k = refl
  more_rounds zero right zero (suc more) h k = refl
  more_rounds zero right (suc rounds) zero h k = refl
  more_rounds zero right (suc rounds) (suc more) h k = refl
  more_rounds (suc left) right zero more h k = absurd (omega arith)
  more_rounds (suc left) right (suc rounds) zero h k = absurd (omega arith)
  more_rounds (suc left) right (suc rounds) (suc more) h k =
      let halves = more_rounds (suc left / 2) (right / 2) rounds more (omega arith) (omega arith) in
      ap (λ t. t * 2 + op (suc left % 2) (right % 2)) halves

  split_digit :
      (left right : ℕ)
      → digits edge op (suc left) (suc left) right
        ≡ digits edge op (suc left / 2) (suc left / 2) (right / 2) * 2
          + op (suc left % 2) (right % 2)
  split_digit left right =
      let half = suc left / 2 in
      ap (λ t. t * 2 + op (suc left % 2) (right % 2))
        (more_rounds half (right / 2) half left (omega arith) (omega arith))

pub zero-bit_and : (right : ℕ) → bit_and 0 right ≡ 0
zero-bit_and right = bit_and-bitwise 0 right

-- Both operations, digit by digit from the lowest.
pub bit_and_lowest :
    (left right : ℕ)
    → bit_and left right ≡ bit_and (left / 2) (right / 2) * 2 + min (left % 2) (right % 2)
bit_and_lowest (suc left) right =
    bit_and-bitwise (suc left) right
    ∙ split_digit (λ right. zero) min left right
    ∙ ap (λ t. t * 2 + min (suc left % 2) (right % 2))
        (sym (bit_and-bitwise (suc left / 2) (right / 2)))
bit_and_lowest zero right = omega (arith, zero-bit_and right, zero-bit_and (right / 2))

pub zero-bit_or : (right : ℕ) → bit_or 0 right ≡ right
zero-bit_or right = bit_or-bitwise 0 right

pub bit_or_lowest :
    (left right : ℕ)
    → bit_or left right ≡ bit_or (left / 2) (right / 2) * 2 + max (left % 2) (right % 2)
bit_or_lowest (suc left) right =
    bit_or-bitwise (suc left) right
    ∙ split_digit (λ right. right) max left right
    ∙ ap (λ t. t * 2 + max (suc left % 2) (right % 2))
        (sym (bit_or-bitwise (suc left / 2) (right / 2)))
bit_or_lowest zero right = omega (arith, zero-bit_or right, zero-bit_or (right / 2))

zero_or_pos : (k : ℕ) → (k ≡ 0) ⊎ (0 < k)
zero_or_pos zero = inl refl
zero_or_pos (suc k) = inr (omega arith)

fill_of_none : (n a : ℕ) → a ≤ n → bit_or a 0 ≡ a
fill_of_none zero a h = let e : a ≡ 0 = omega arith in rw e (zero-bit_or 0)
fill_of_none (suc n) a h = elim (zero_or_pos a) [
  | inl e ↦ rw e (zero-bit_or 0)
  | inr p ↦ omega (arith, bit_or_lowest a 0, fill_of_none n (a / 2) (omega arith))
]

pub bit_or-zero : (a : ℕ) → bit_or a 0 ≡ a
bit_or-zero a = fill_of_none a a (omega arith)

div_double : (a p : ℕ) → a / (p * 2) ≡ a / 2 / p
div_double a p = rw (mul_comm p 2) (sym (div-div-eq-div-mul a 2 p))

mod_double : (a p : ℕ) → a % (p * 2) ≡ a / 2 % p * 2 + a % 2
mod_double a p = omega (
  arith,
  div-add-mod' a (p * 2),
  div-add-mod' (a / 2) p,
  div-add-mod' a 2,
  ap (λ t. t * (p * 2)) (div_double a p),
)

-- One more digit under a shift or a mask, for any power of two `p`.
or_double :
    (a b p : ℕ) → bit_or (a * p) (b / 2) ≡ a * p + b / 2 → bit_or (a * (p * 2)) b ≡ a * (p * 2) + b
or_double a b p ih =
    let half : a * (p * 2) / 2 ≡ a * p = omega arith in
    omega (arith, bit_or_lowest (a * (p * 2)) b, ap (λ t. bit_or t (b / 2)) half, ih)

and_double : (a m p x : ℕ) → bit_and (a / 2) (m * p) ≡ x * p → bit_and a (m * (p * 2)) ≡ x * (p * 2)
and_double a m p x ih =
    let half : m * (p * 2) / 2 ≡ m * p = omega arith in
    omega (arith, bit_and_lowest a (m * (p * 2)), ap (λ t. bit_and (a / 2) t) half, ih)

low_double :
    (a p : ℕ) → 0 < p → bit_and (a / 2) (p - 1) ≡ a / 2 % p → bit_and a (p * 2 - 1) ≡ a % (p * 2)
low_double a p h ih =
    let half : (p * 2 - 1) / 2 ≡ p - 1 = omega arith in
    omega
      (arith, bit_and_lowest a (p * 2 - 1), ap (λ t. bit_and (a / 2) t) half, ih, mod_double a p)

pub pow-pos : (k : ℕ) → 0 < 2 ^ k
pow-pos zero = omega arith
pow-pos (suc k) = omega (arith, pow-suc 2 k, pow-pos k)

-- `(a << k) | b` is a sum when `b` fits below the shift.
pub bit_or-shift : (k a b : ℕ) → b < 2 ^ k → bit_or (a * 2 ^ k) b ≡ a * 2 ^ k + b
bit_or-shift zero a b h = let e : b ≡ 0 = omega arith in rw e (omega (arith, bit_or-zero (a * 1)))
bit_or-shift (suc k) a b h =
    rw (pow-suc 2 k) (or_double a b (2 ^ k) (bit_or-shift k a (b / 2) (omega (arith, pow-suc 2 k))))

mask_of_none : (n a : ℕ) → a ≤ n → bit_and a 0 ≡ 0
mask_of_none zero a h = let e : a ≡ 0 = omega arith in rw e (zero-bit_and 0)
mask_of_none (suc n) a h = elim (zero_or_pos a) [
  | inl e ↦ rw e (zero-bit_and 0)
  | inr p ↦ omega (arith, bit_and_lowest a 0, mask_of_none n (a / 2) (omega arith))
]

pub bit_and-zero : (a : ℕ) → bit_and a 0 ≡ 0
bit_and-zero a = mask_of_none a a (omega arith)

-- `a & ((1 << k) - 1)` keeps the low bits.
pub bit_and-low : (k a : ℕ) → bit_and a (2 ^ k - 1) ≡ a % 2 ^ k
bit_and-low zero a = omega (arith, bit_and-zero a)
bit_and-low (suc k) a = rw (pow-suc 2 k) (low_double a (2 ^ k) (pow-pos k) (bit_and-low k (a / 2)))

-- `a & (m << k)` clears the low bits and masks the others.
pub bit_and-shift : (k a m : ℕ) → bit_and a (m * 2 ^ k) ≡ bit_and (a / 2 ^ k) m * 2 ^ k
bit_and-shift zero a m =
    let e : m * 1 ≡ m = omega arith in let f : a / 1 ≡ a = omega arith in rw (e, f) (omega arith)
bit_and-shift (suc k) a m =
    rw (pow-suc 2 k)
      (and_double a m (2 ^ k) _ (rw (div_double a (2 ^ k)) (bit_and-shift k (a / 2) m)))
