-- ===== src/Prelude/Results.antt =====
-- Code that may throw: the value, or what was thrown.
use mathlib.Core.Path.{◌≡◌, refl, ap}
use mathlib.Core.Bool.{Bool, true, false}
use mathlib.Core.Option
use mathlib.Core.Option.{Option, none, some, some-injective}

pub data Result {ℓ} (E A : Type ℓ) : Type ℓ where
  ok : A → Result E A
  err : E → Result E A

infixl 5 ◌>>=◌ ◌>>◌
abbrev pub ◌>>=◌ {ℓ} : {E A B : Type ℓ} → Result E A → (A → Result E B) → Result E B
ok a >>= f = f a
err e >>= f = err e

abbrev pub ◌>>◌ {ℓ} : {E A B : Type ℓ} → Result E A → Result E B → Result E B
m >> k = m >>= λ _. k

-- `if (test) throw e`
abbrev pub throw_if {ℓ} : {E : Type ℓ} → Bool → E → Result E (Unit {ℓ})
throw_if true e = err e
throw_if false e = ok tt

-- What a successful chain tells of its first step.
module _ {ℓ} {E B : Type ℓ} where
  pub >>=-eq-ok :
      {A : Type ℓ} (m : Result E A) (f : A → Result E B) {b : B}
      → (m >>= f) ≡ ok b
      → (a : A) × (m ≡ ok a) × (f a ≡ ok b)
  >>=-eq-ok (err e) f h = cc
  >>=-eq-ok (ok a) f h = (a, refl, h)

  pub throw_if-eq-ok :
      (b : Bool) (e : E) (k : Result E B) {v : B}
      → (throw_if b e >> k) ≡ ok v
      → (b ≡ false) × (k ≡ ok v)
  throw_if-eq-ok false e k h = (refl, h)
  throw_if-eq-ok true e k h = cc

pub bind-eq-some {ℓ κ} :
    {A : Type ℓ} {B : Type κ} (m : Option A) (f : A → Option B) {b : B}
    → Option.bind m f ≡ some b
    → (a : A) × (m ≡ some a) × (f a ≡ some b)
unfolding Option.bind
bind-eq-some none f h = cc
bind-eq-some (some a) f h = (a, refl, h)

-- Four values, when all of them are there.
unfoldable pub all_four {ℓ} :
    {A B C D : Type ℓ} → Option A → Option B → Option C → Option D → Option (A × B × C × D)
all_four (some a) (some b) (some c) (some d) = some (a, b, c, d)
all_four none b c d = none
all_four (some a) none c d = none
all_four (some a) (some b) none d = none
all_four (some a) (some b) (some c) none = none

pub all_four-eq-some {ℓ} :
    {A B C D : Type ℓ} (a : Option A) (b : Option B) (c : Option C) (d : Option D) (v : A) (w : B)
    (x : C) (y : D)
    → all_four a b c d ≡ some (v, w, x, y)
    → (a ≡ some v) × (b ≡ some w) × (c ≡ some x) × (d ≡ some y)
unfolding all_four
all_four-eq-some (some a) (some b) (some c) (some d) v w x y h =
    let k = some-injective _ _ h in
    (ap (λ q. some q.0) k, ap (λ q. some q.1) k, ap (λ q. some q.2) k, ap (λ q. some q.3) k)
all_four-eq-some none b c d v w x y h = cc
all_four-eq-some (some a) none c d v w x y h = cc
all_four-eq-some (some a) (some b) none d v w x y h = cc
all_four-eq-some (some a) (some b) (some c) none v w x y h = cc

pub map-eq-some {ℓ} :
    {A B : Type ℓ} (f : A → B) (o : Option A) (b : B)
    → Option.map f o ≡ some b
    → (a : A) × (o ≡ some a) × (f a ≡ b)
map-eq-some f (some a) b h = (a, refl, some-injective _ _ h)
map-eq-some f none b h = cc
