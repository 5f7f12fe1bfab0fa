-- ===== src/Diff/Headers.antt =====
-- src/diff.js: when `diffHeaders` tells of a change.
use mathlib.Core.Option.{some-injective}
use web_resource_ledger.Prelude.{
  ℕ, ◌+◌, ◌≡◌, ◌↔◌, refl, ap, ap₂, sym, ◌∙◌, List, [], ◌∷◌, ◌++◌, map, Option, none, some, Bool,
  true, false, not, ◌&&◌, ◌||◌, if◌then◌else◌, filter, keep_if, All, Bool-cases, inl, inr, subst,
  arith,
}
use web_resource_ledger.Prelude.Texts.{Text, text_eq, text_eq_iff}
use web_resource_ledger.Diff.{
  HeaderSnapshot, HeaderDiff, find_header, compare_header, compare_headers, all_keys, is_empty,
  same_status, with_changed, diff_headers,
}

-- No header is added, removed or modified.
abbrev is_same : HeaderDiff → Bool
is_same d = is_empty d.added && (is_empty d.removed && is_empty d.modified)

compare_header_same :
    (name : Text) (b t : Option Text) (d : HeaderDiff)
    → is_same (compare_header name b t d) ≡ true
    → (b ≡ t) × (is_same d ≡ true)
compare_header_same name none none d h = (refl, h)
compare_header_same name (some b) none d h = ground arith
compare_header_same name none (some t) d h = ground arith
compare_header_same name (some b) (some t) d h = by_value (text_eq b t) refl h
  where
    by_value :
        (v : Bool)
        → text_eq b t ≡ v
        → is_same (
            if v
            then record d { unchanged = d.unchanged + 1 }
            else record d { modified = (name, b, t) ∷ d.modified })
          ≡ true
        → (some b ≡ some t) × (is_same d ≡ true)
    by_value true e h = (ap some ((text_eq_iff b t).0 e), h)
    by_value false e h = ground arith

compare_header_equal :
    (name : Text) (b t : Option Text) (d : HeaderDiff)
    → b ≡ t
    → is_same d ≡ true
    → is_same (compare_header name b t d) ≡ true
compare_header_equal name none none d e h = h
compare_header_equal name (some b) none d e h = cc
compare_header_equal name none (some t) d e h = cc
compare_header_equal name (some b) (some t) d e h =
    let same : text_eq b t ≡ true = (text_eq_iff b t).1 (some-injective b t e) in rw (same) h

unchanged_left : (s b : Bool) → not (not (not s) && b) ≡ false → s ≡ true
unchanged_left s b h = ground arith

unchanged_right : (s b : Bool) → not (not (not s) && b) ≡ false → b ≡ true
unchanged_right s b h = ground arith

-- The headers with these names have the same values.
abbrev SameAt : (base target : List (Text × Text)) → Text → Type 0
SameAt base target name = find_header name base ≡ find_header name target

compare_headers_same :
    (names : List Text) (base target : List (Text × Text))
    → is_same (compare_headers names base target) ≡ true
    → All (SameAt base target) names
unfolding compare_headers
compare_headers_same [] base target h = tt
compare_headers_same (name ∷ names) base target h =
    let here =
      compare_header_same name (find_header name base) (find_header name target)
        (compare_headers names base target) h in
    (here.0, compare_headers_same names base target here.1)

compare_headers_equal :
    (names : List Text) (base target : List (Text × Text))
    → ((name : Text) → SameAt base target name)
    → is_same (compare_headers names base target) ≡ true
unfolding compare_headers
compare_headers_equal [] base target e = refl
compare_headers_equal (name ∷ names) base target e =
    compare_header_equal name (find_header name base) (find_header name target)
      (compare_headers names base target) (e name) (compare_headers_equal names base target e)

All-left {ℓ κ} : {A : Type ℓ} (P : A → Type κ) (xs ys : List A) → All P (xs ++ ys) → All P xs
All-left P [] ys h = tt
All-left P (x ∷ xs) ys h = (h.0, All-left P xs ys h.1)

All-right {ℓ κ} : {A : Type ℓ} (P : A → Type κ) (xs ys : List A) → All P (xs ++ ys) → All P ys
All-right P [] ys h = h
All-right P (x ∷ xs) ys h = All-right P xs ys h.1

-- A header that is found is among those that pass a test that its name passes.
All-found :
    (P : Text → Type 0) (test : Text × Text → Bool) (headers : List (Text × Text)) (name v : Text)
    → ((h : Text × Text) → h.0 ≡ name → test h ≡ true)
    → All P (map (λ h. h.0) (filter test headers))
    → find_header name headers ≡ some v
    → P name
unfolding find_header
All-found P test [] name v t a e = cc
All-found P test (h ∷ headers) name v t a e = elim (Bool-cases (text_eq h.0 name)) [
  | inl f ↦
      let same = (text_eq_iff h.0 name).0 f in
      subst P same
        (subst (λ b. All P (map (λ x. x.0) (keep_if b h (filter test headers)))) (t h same) a).0
  | inr f ↦ All-found P test headers name v t (later (test h) a) (rw (f, find_header) at e)
]
  where
    later :
        (b : Bool)
        → All P (map (λ x. x.0) (keep_if b h (filter test headers)))
        → All P (map (λ x. x.0) (filter test headers))
    later true a = a.1
    later false a = a

filter_all {ℓ} : {A : Type ℓ} (xs : List A) → filter (λ x. true) xs ≡ xs
filter_all [] = refl
filter_all (x ∷ xs) = ap (λ ys. x ∷ ys) (filter_all xs)

same_everywhere :
    (base target : List (Text × Text))
    → All (SameAt base target) (all_keys base target)
    → (name : Text) → SameAt base target name
unfolding all_keys
same_everywhere base target a name =
    by_base (find_header name base) refl (find_header name target) refl
  where
    is_new : Text × Text → Bool
    is_new h = elim (find_header h.0 base) [ none ↦ true | some v ↦ false ]

    by_base :
        (b : Option Text)
        → find_header name base ≡ b
        → (t : Option Text) → find_header name target ≡ t
        → SameAt base target name
    by_base (some v) e t f =
        All-found (SameAt base target) (λ h. true) base name v (λ h s. refl)
          (subst (λ hs. All (SameAt base target) (map (λ h. h.0) hs)) (sym (filter_all base))
            (All-left (SameAt base target) (map (λ h. h.0) base) _ a))
          e
    by_base none e none f = e ∙ sym f
    by_base none e (some v) f =
        All-found (SameAt base target) is_new target name v
          (λ h s.
            ap (λ n. elim (find_header n base) [ none ↦ true | some v ↦ false ]) s
            ∙ ap (λ o. elim o [ none ↦ true | some v ↦ false ]) e)
          (All-right (SameAt base target) (map (λ h. h.0) base) _ a) f

same_status_iff : (s t : Option ℕ) → (same_status s t ≡ true) ↔ (s ≡ t)
same_status_iff none none = (λ h. refl, λ h. refl)
same_status_iff (some s) none = (λ h. cc, λ h. cc)
same_status_iff none (some t) = (λ h. cc, λ h. cc)
same_status_iff (some s) (some t) = (
  (λ h. let e : s ≡ t = ground arith in ap some e),
  (λ h. let e : s ≡ t = some-injective s t h in ground arith),
)

changed_lem :
    (status : Bool) (d : HeaderDiff)
    → (with_changed status d).headers_changed ≡ not (not status && is_same d)
changed_lem status d = by_lists status (is_empty d.added) (is_empty d.removed) (is_empty d.modified)
  where
    by_lists :
        (s a r m : Bool) → (s || (not a || (not r || not m))) ≡ not (not s && (a && (r && m)))
    by_lists s a r m = ground arith

-- For two snapshots with headers, `diffHeaders` tells of no change exactly when the statuses are the same
-- and each name has the same value, or none, in both.
pub diff_headers_iff :
    (base target : HeaderSnapshot)
    → ((diff_headers (some base) (some target)).headers_changed ≡ false) ↔ (
        (base.snapshot_status ≡ target.snapshot_status)
        × ((name : Text)
            → find_header name base.snapshot_headers ≡ find_header name target.snapshot_headers))
unfolding diff_headers
diff_headers_iff base target = (unchanged, equal)
  where
    d : HeaderDiff
    d =
        compare_headers (all_keys base.snapshot_headers target.snapshot_headers)
          base.snapshot_headers target.snapshot_headers

    status : Bool
    status = same_status base.snapshot_status target.snapshot_status

    unchanged :
        (diff_headers (some base) (some target)).headers_changed ≡ false
        → (base.snapshot_status ≡ target.snapshot_status)
          × ((name : Text)
              → find_header name base.snapshot_headers ≡ find_header name target.snapshot_headers)
    unchanged h =
        let all : not (not (not status) && is_same d) ≡ false =
          sym (changed_lem (not status) d) ∙ h in
        let s : status ≡ true = unchanged_left status (is_same d) all in
        let same : is_same d ≡ true = unchanged_right status (is_same d) all in
        (
          (same_status_iff base.snapshot_status target.snapshot_status).0 s,
          same_everywhere base.snapshot_headers target.snapshot_headers (
              compare_headers_same (all_keys base.snapshot_headers target.snapshot_headers)
                base.snapshot_headers target.snapshot_headers same),
        )

    equal :
        (base.snapshot_status ≡ target.snapshot_status)
          × ((name : Text)
              → find_header name base.snapshot_headers ≡ find_header name target.snapshot_headers)
        → (diff_headers (some base) (some target)).headers_changed ≡ false
    equal h =
        changed_lem (not status) d
        ∙ ap₂ (λ s b. not (not (not s) && b))
            ((same_status_iff base.snapshot_status target.snapshot_status).1 h.0)
            (compare_headers_equal (all_keys base.snapshot_headers target.snapshot_headers)
              base.snapshot_headers target.snapshot_headers h.1)
