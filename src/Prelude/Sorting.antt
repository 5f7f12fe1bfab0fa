-- ===== src/Prelude/Sorting.antt =====
-- The order of JavaScript strings, by code units, and a stable sort of pairs by a text.

use mathlib.Core.Path.{◌≡◌, refl, ap, ◌∙◌, sym}
use mathlib.Core.Logic.{inl, inr}
use mathlib.Core.Bool.{Bool, true, false}
use mathlib.Core.Logic.Or
use mathlib.Core.List.{List, [], ◌∷◌, Mem, Perm, Pairwise, Pairwise-singleton, mem-cons}
use mathlib.Core.List.Perm
use native.Mathlib.Omega.{arith}
use web_resource_ledger.Prelude.Tests.{ltb, ◌==◌, if◌then◌else◌, Bool-cases}
use web_resource_ledger.Prelude.Texts.{Text, text_eq}

unfoldable pub text_lt : Text → Text → Bool
text_lt [] [] = false
text_lt [] (b ∷ t) = true
text_lt (a ∷ s) [] = false
text_lt (a ∷ s) (b ∷ t) = if a == b then text_lt s t else ltb a b

-- Of two different texts, one comes first.
pub text_lt-total : (s t : Text) → text_eq s t ≡ false → text_lt s t ≡ false → text_lt t s ≡ true
unfolding text_lt text_eq
text_lt-total [] [] d h = cc
text_lt-total [] (b ∷ t) d h = cc
text_lt-total (a ∷ s) [] d h = refl
text_lt-total (a ∷ s) (b ∷ t) d h = ground (arith, text_lt-total s t)

pub text_lt-asym : (s t : Text) → text_lt s t ≡ true → text_lt t s ≡ false
unfolding text_lt
text_lt-asym [] [] h = refl
text_lt-asym [] (b ∷ t) h = refl
text_lt-asym (a ∷ s) [] h = cc
text_lt-asym (a ∷ s) (b ∷ t) h = ground (arith, text_lt-asym s t)

-- What does not come after `r` comes before all that `r` comes before.
pub text_lt-below : (p r q : Text) → text_lt r p ≡ false → text_lt r q ≡ true → text_lt p q ≡ true
unfolding text_lt
text_lt-below [] [] [] h k = cc
text_lt-below [] [] (c ∷ q) h k = refl
text_lt-below [] (b ∷ r) [] h k = cc
text_lt-below [] (b ∷ r) (c ∷ q) h k = refl
text_lt-below (a ∷ p) [] q h k = cc
text_lt-below (a ∷ p) (b ∷ r) [] h k = cc
text_lt-below (a ∷ p) (b ∷ r) (c ∷ q) h k = ground (arith, text_lt-below p r q)

module _ {ℓ} {A : Type ℓ} where
  -- Before the first pair that is not less.
  unfoldable pub insert_pair : Text × A → List (Text × A) → List (Text × A)
  insert_pair p [] = p ∷ []
  insert_pair p (q ∷ pairs) = if text_lt q.0 p.0 then q ∷ insert_pair p pairs else p ∷ q ∷ pairs

  unfoldable pub sort_pairs : List (Text × A) → List (Text × A)
  sort_pairs [] = []
  sort_pairs (p ∷ pairs) = insert_pair p (sort_pairs pairs)

  past :
      (p q : Text × A) (pairs : List (Text × A))
      → text_lt q.0 p.0 ≡ true
      → insert_pair p (q ∷ pairs) ≡ q ∷ insert_pair p pairs
  unfolding insert_pair
  past p q pairs h = rw h

  here :
      (p q : Text × A) (pairs : List (Text × A))
      → text_lt q.0 p.0 ≡ false
      → insert_pair p (q ∷ pairs) ≡ p ∷ q ∷ pairs
  unfolding insert_pair
  here p q pairs h = rw h

  -- `p` goes before `r`, and `q` after it.
  apart :
      (p q r : Text × A) (pairs : List (Text × A))
      → text_lt r.0 p.0 ≡ false
      → text_lt r.0 q.0 ≡ true
      → insert_pair p (insert_pair q (r ∷ pairs)) ≡ insert_pair q (insert_pair p (r ∷ pairs))
  apart p q r pairs p_r r_q =
      ap (insert_pair p) (past q r pairs r_q)
      ∙ here p r (insert_pair q pairs) p_r
      ∙ ap (λ t. p ∷ t) (sym (past q r pairs r_q))
      ∙ sym (past q p (r ∷ pairs) (text_lt-below p.0 r.0 q.0 p_r r_q))
      ∙ ap (insert_pair q) (sym (here p r pairs p_r))

  -- Both go before `r`, `q` first.
  both :
      (p q r : Text × A) (pairs : List (Text × A))
      → text_lt r.0 p.0 ≡ false
      → text_lt r.0 q.0 ≡ false
      → text_lt q.0 p.0 ≡ true
      → insert_pair p (insert_pair q (r ∷ pairs)) ≡ insert_pair q (insert_pair p (r ∷ pairs))
  both p q r pairs p_r q_r less =
      ap (insert_pair p) (here q r pairs q_r)
      ∙ past p q (r ∷ pairs) less
      ∙ ap (λ t. q ∷ t) (here p r pairs p_r)
      ∙ sym (here q p (r ∷ pairs) (text_lt-asym q.0 p.0 less))
      ∙ ap (insert_pair q) (sym (here p r pairs p_r))

  -- Pairs with different texts are inserted in any order.
  pub insert_pair_comm :
      (p q : Text × A) (pairs : List (Text × A))
      → text_eq p.0 q.0 ≡ false
      → text_eq q.0 p.0 ≡ false
      → insert_pair p (insert_pair q pairs) ≡ insert_pair q (insert_pair p pairs)
  unfolding insert_pair
  insert_pair_comm p q [] d e = elim (Bool-cases (text_lt q.0 p.0)) [
    | inl less ↦ past p q [] less ∙ sym (here q p [] (text_lt-asym q.0 p.0 less))
    | inr more ↦ here p q [] more ∙ sym (past q p [] (text_lt-total q.0 p.0 e more))
  ]
  insert_pair_comm p q (r ∷ pairs) d e = elim (Bool-cases (text_lt r.0 q.0)) [
    | inl r_q ↦ elim (Bool-cases (text_lt r.0 p.0)) [
      | inl r_p ↦
          ap (insert_pair p) (past q r pairs r_q)
          ∙ past p r (insert_pair q pairs) r_p
          ∙ ap (λ t. r ∷ t) (insert_pair_comm p q pairs d e)
          ∙ sym (past q r (insert_pair p pairs) r_q)
          ∙ ap (insert_pair q) (sym (past p r pairs r_p))
      | inr p_r ↦ apart p q r pairs p_r r_q
    ]
    | inr q_r ↦ elim (Bool-cases (text_lt r.0 p.0)) [
      | inl r_p ↦ sym (apart q p r pairs q_r r_p)
      | inr p_r ↦ elim (Bool-cases (text_lt q.0 p.0)) [
        | inl less ↦ both p q r pairs p_r q_r less
        | inr more ↦ sym (both q p r pairs q_r p_r (text_lt-total q.0 p.0 e more))
      ]
    ]
  ]

-- The sort keeps the pairs, and puts them in order.
abbrev pub NotAfter {ℓ} : {A : Type ℓ} → Text × A → Text × A → Type 0
NotAfter p q = text_lt q.0 p.0 ≡ false

-- What is not after `p`, and `p` before `r`, is not after `r`.
text_lt-not_after : (p q r : Text) → text_lt q p ≡ false → text_lt r q ≡ false → text_lt r p ≡ false
unfolding text_lt
text_lt-not_after [] [] r h k = k
text_lt-not_after [] (b ∷ q) [] h k = cc
text_lt-not_after [] (b ∷ q) (c ∷ r) h k = refl
text_lt-not_after (a ∷ p) [] r h k = cc
text_lt-not_after (a ∷ p) (b ∷ q) [] h k = cc
text_lt-not_after (a ∷ p) (b ∷ q) (c ∷ r) h k = ground (arith, text_lt-not_after p q r)

module _ {ℓ} {A : Type ℓ} where
  insert_pair-perm :
      (p : Text × A) (pairs : List (Text × A)) → Perm (insert_pair p pairs) (p ∷ pairs)
  unfolding insert_pair
  insert_pair-perm p [] = Perm.rfl
  insert_pair-perm p (q ∷ pairs) = elim (Bool-cases (text_lt q.0 p.0)) [
    | inl less ↦ rw less (Perm.trans (Perm.cons q (insert_pair-perm p pairs)) (Perm.swap p q pairs))
    | inr more ↦ rw more Perm.rfl
  ]

  pub sort_pairs-perm : (pairs : List (Text × A)) → Perm (sort_pairs pairs) pairs
  unfolding sort_pairs
  sort_pairs-perm [] = Perm.rfl
  sort_pairs-perm (p ∷ pairs) =
      Perm.trans (insert_pair-perm p (sort_pairs pairs)) (Perm.cons p (sort_pairs-perm pairs))

  -- `p` is not after any of the pairs.
  abbrev pub First : Text × A → List (Text × A) → Type ℓ
  First p pairs = (q : Text × A) → Mem q pairs → NotAfter p q

  First-cons :
      (p q : Text × A) (pairs : List (Text × A))
      → NotAfter p q
      → First p pairs
      → First p (q ∷ pairs)
  First-cons p q pairs h rest r m =
      Or.elim (hlevel) (mem-cons.0 m) (λ e. ap (λ t. text_lt t.0 p.0) e ∙ h) (rest r)

  insert_pair-Pairwise :
      (p : Text × A) (pairs : List (Text × A))
      → Pairwise NotAfter pairs
      → Pairwise NotAfter (insert_pair p pairs)
  unfolding insert_pair
  insert_pair-Pairwise p [] h = Pairwise-singleton _ p
  insert_pair-Pairwise p (q ∷ pairs) (Pairwise.cons below h) = elim (Bool-cases (text_lt q.0 p.0)) [
    | inl less ↦ rw (past p q pairs less) (
        Pairwise.cons
          (λ r m.
            First-cons q p pairs (text_lt-asym q.0 p.0 less) below r
              ((Perm.mem_iff (insert_pair-perm p pairs)).0 m))
          (insert_pair-Pairwise p pairs h))
    | inr more ↦ rw (here p q pairs more) (
        Pairwise.cons
          (First-cons p q pairs more (λ r m. text_lt-not_after p.0 q.0 r.0 more (below r m)))
          (Pairwise.cons below h))
  ]

  pub sort_pairs-Pairwise : (pairs : List (Text × A)) → Pairwise NotAfter (sort_pairs pairs)
  unfolding sort_pairs
  sort_pairs-Pairwise [] = Pairwise.nil
  sort_pairs-Pairwise (p ∷ pairs) =
      insert_pair-Pairwise p (sort_pairs pairs) (sort_pairs-Pairwise pairs)
