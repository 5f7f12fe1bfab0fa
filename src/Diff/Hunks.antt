-- ===== src/Diff/Hunks.antt =====
-- src/diff.js: what the hunks show.
use web_resource_ledger.Prelude.{
  ℕ, zero, suc, ◌+◌, ◌-◌, ◌≡◌, ◌≤◌, refl, ap, sym, ◌∙◌, List, [], ◌∷◌, ◌++◌, map, Bool, true, false,
  ◌||◌, ltb, leb, ltb-eq-false→le, if◌then◌else◌, any, filter, keep_if, take, length, Bool-cases,
  inl, inr, arith,
}
use web_resource_ledger.Prelude.Texts.{Text}
use web_resource_ledger.Diff.Lines.{or_left, or_right}
use web_resource_ledger.Diff.{
  Diffs, Line, LineType, is_changed, changed_within, included, add_to_groups, groups_of, Hunk,
  hunk_of, max_hunks, lines_from, build_hunks, build_hunks_of, context, addition, deletion,
}

abbrev pub type_changed : LineType × Text → Bool
type_changed p = elim p.0 [ context ↦ false | addition ↦ true | deletion ↦ true ]

abbrev pub shown : Line → LineType × Text
shown l = (l.line_type, l.content)

-- The lines of all hunks.
unfoldable pub hunk_texts : List Hunk → List (LineType × Text)
hunk_texts [] = []
hunk_texts (h ∷ hunks) = h.hunk_lines ++ hunk_texts hunks

concat_groups : List (List (ℕ × Line)) → List (ℕ × Line)
concat_groups [] = []
concat_groups (g ∷ gs) = g ++ concat_groups gs

add_to_groups_lem :
    (e : ℕ × Line) (gs : List (List (ℕ × Line)))
    → concat_groups (add_to_groups e gs) ≡ e ∷ concat_groups gs
unfolding concat_groups
add_to_groups_lem e [] = refl
add_to_groups_lem e ([] ∷ gs) = refl
add_to_groups_lem e ((next ∷ group) ∷ gs) = by_gap (ltb 6 (next.0 - e.0))
  where
    by_gap :
        (b : Bool)
        → concat_groups (if b then (e ∷ []) ∷ (next ∷ group) ∷ gs else (e ∷ next ∷ group) ∷ gs)
          ≡ e ∷ concat_groups ((next ∷ group) ∷ gs)
    by_gap true = refl
    by_gap false = refl

concat-groups_of : (es : List (ℕ × Line)) → concat_groups (groups_of es) ≡ es
unfolding concat_groups groups_of
concat-groups_of [] = refl
concat-groups_of (e ∷ es) =
    add_to_groups_lem e (groups_of es) ∙ ap (λ xs. e ∷ xs) (concat-groups_of es)

abbrev shown_entry : ℕ × Line → LineType × Text
shown_entry e = shown e.1

map-append {ℓ} :
    {A B : Type ℓ} (f : A → B) (xs ys : List A) → map f (xs ++ ys) ≡ map f xs ++ map f ys
map-append f [] ys = refl
map-append f (x ∷ xs) ys = ap (λ zs. f x ∷ zs) (map-append f xs ys)

hunk_texts-groups :
    (gs : List (List (ℕ × Line))) → hunk_texts (map hunk_of gs) ≡ map shown_entry (concat_groups gs)
unfolding hunk_texts concat_groups
hunk_texts-groups [] = refl
hunk_texts-groups (g ∷ gs) =
    ap (λ ts. map shown_entry g ++ ts) (hunk_texts-groups gs)
    ∙ sym (map-append shown_entry g (concat_groups gs))

take_whole {ℓ} : {A : Type ℓ} (n : ℕ) (xs : List A) → length xs ≤ n → take n xs ≡ xs
take_whole zero [] h = refl
take_whole zero (x ∷ xs) h = absurd (omega arith)
take_whole (suc n) [] h = refl
take_whole (suc n) (x ∷ xs) h = ap (λ ys. x ∷ ys) (take_whole n xs (omega arith))

-- Every changed line is included, in the order of the lines.
included_changed :
    (i since : ℕ) (ls : List Line)
    → filter type_changed (map shown_entry (included i since ls))
      ≡ filter type_changed (map shown ls)
unfolding included
included_changed i since [] = refl
included_changed i since (l ∷ ls) =
    by_change (is_changed l) refl (leb since 3 || changed_within 3 ls)
      (included_changed (i + 1) (if is_changed l then 1 else since + 1) ls)
  where
    later : List (ℕ × Line)
    later = included (i + 1) (if is_changed l then 1 else since + 1) ls

    by_change :
        (c : Bool)
        → is_changed l ≡ c
        → (near : Bool)
        → filter type_changed (map shown_entry later) ≡ filter type_changed (map shown ls)
        → filter type_changed (map shown_entry (if c || near then (i, l) ∷ later else later))
          ≡ keep_if (is_changed l) (shown l) (filter type_changed (map shown ls))
    by_change true e near rest = ap (keep_if (is_changed l) (shown l)) rest
    by_change false e true rest = ap (keep_if (is_changed l) (shown l)) rest
    by_change false e false rest =
        rest ∙ ap (λ b. keep_if b (shown l) (filter type_changed (map shown ls))) (sym e)

no_change : (ls : List Line) → any is_changed ls ≡ false → filter type_changed (map shown ls) ≡ []
no_change [] h = refl
no_change (l ∷ ls) h =
    let here : is_changed l ≡ false = or_left (is_changed l) (any is_changed ls) h in
    let later : any is_changed ls ≡ false = or_right (is_changed l) (any is_changed ls) h in
    ap (λ b. keep_if b (shown l) (filter type_changed (map shown ls))) here ∙ no_change ls later

all_shown :
    (ls : List Line)
    → (build_hunks_of ls).truncated ≡ false
    → filter type_changed (hunk_texts (build_hunks_of ls).hunks)
      ≡ filter type_changed (map shown ls)
all_shown ls h =
    let groups = groups_of (included 0 4 ls) in
    ap (λ gs. filter type_changed (hunk_texts (map hunk_of gs)))
      (take_whole max_hunks groups (ltb-eq-false→le max_hunks (length groups) h))
    ∙ ap (filter type_changed) (hunk_texts-groups groups)
    ∙ ap (λ es. filter type_changed (map shown_entry es)) (concat-groups_of (included 0 4 ls))
    ∙ included_changed 0 4 ls

-- When the hunks are not truncated, they show every changed line once, with its kind and its content, in
-- the order of the lines, and no other changed line.
pub build_hunks_shows :
    (diffs : Diffs)
    → (build_hunks diffs).truncated ≡ false
    → filter type_changed (hunk_texts (build_hunks diffs).hunks)
      ≡ filter type_changed (map shown (lines_from diffs (record { base = 1; target = 1 })))
unfolding build_hunks hunk_texts
build_hunks_shows diffs h =
    let ls = lines_from diffs (record { base = 1; target = 1 }) in
    elim (Bool-cases (any is_changed ls)) [
      | inl e ↦ rw (e, build_hunks) (all_shown ls (rw (e, build_hunks) at h))
      | inr e ↦ rw (e, build_hunks) (sym (no_change ls e))
    ]
