-- ===== src/Prelude/Decimals.antt =====
-- `String(n)` of a number that is not negative.
use mathlib.Core.Path.{◌≡◌, refl, sym, ap, ◌∙◌}
use mathlib.Core.Bool.{Bool, true, false}
use native.Mathlib.Omega.{arith}
use Prim.Native.Nat.{◌*◌, ◌-◌, ◌<◌, ℕ, zero, suc, ◌+◌, ◌/◌, ◌%◌}
use mathlib.Core.List.{[], ◌∷◌}
use web_resource_ledger.Prelude.Tests.{ltb, ltb-eq-false→le, if◌then◌else◌}
use web_resource_ledger.Prelude.Texts.{Text}

-- One round for every digit; a number has fewer digits than `n + 1`.
decimal_loop : ℕ → ℕ → Text → Text
decimal_loop zero n acc = acc
decimal_loop (suc fuel) n acc =
    let rest = decimal_loop fuel (n / 10) ((b'0' + n % 10) ∷ acc) in
    if ltb n 10 then (b'0' + n) ∷ acc else rest

unfoldable pub print_decimal : ℕ → Text
unfolding decimal_loop
print_decimal n = decimal_loop (n + 1) n []

-- The number that digits stand for, after the digits of `n`.
read_digits : Text → ℕ → ℕ
read_digits [] n = n
read_digits (c ∷ t) n = read_digits t (n * 10 + (c - b'0'))

decimal_loop_lem :
    (fuel n : ℕ) (acc : Text)
    → n < fuel
    → read_digits (decimal_loop fuel n acc) 0 ≡ read_digits acc n
unfolding decimal_loop read_digits
decimal_loop_lem zero n acc h = omega arith
decimal_loop_lem (suc fuel) n acc h =
    by_size (ltb n 10) refl (λ small. decimal_loop_lem fuel (n / 10) ((b'0' + n % 10) ∷ acc) small)
  where
    by_size :
        (b : Bool)
        → ltb n 10 ≡ b
        → (n / 10 < fuel
            → read_digits (decimal_loop fuel (n / 10) ((b'0' + n % 10) ∷ acc)) 0
              ≡ read_digits ((b'0' + n % 10) ∷ acc) (n / 10))
        → read_digits
            (if b then (b'0' + n) ∷ acc else decimal_loop fuel (n / 10) ((b'0' + n % 10) ∷ acc))
            0
          ≡ read_digits acc n
    by_size true e rest = ap (read_digits acc) (omega arith)
    by_size false e rest =
        let big = ltb-eq-false→le n 10 e in rest (omega arith) ∙ ap (read_digits acc) (omega arith)

-- Different numbers print differently.
pub print_decimal-injective : (m n : ℕ) → print_decimal m ≡ print_decimal n → m ≡ n
unfolding print_decimal read_digits
print_decimal-injective m n h =
    sym (decimal_loop_lem (m + 1) m [] (omega arith))
    ∙ ap (λ t. read_digits t 0) h
    ∙ decimal_loop_lem (n + 1) n [] (omega arith)
