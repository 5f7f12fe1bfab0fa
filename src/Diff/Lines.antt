-- ===== src/Diff/Lines.antt =====
-- src/diff.js: the lines of a difference, and when `diffHtml` tells of a change.
use web_resource_ledger.Prelude.{
  ℕ, ◌≡◌, ◌≢◌, ◌↔◌, refl, ap, ap₂, sym, ◌∙◌, List, [], ◌∷◌, ◌++◌, Bool, true, false, ◌||◌, ◌==◌,
  ltb, if◌then◌else◌, any, filter, keep_if, length, append_assoc, inl, inr, Bool-cases, arith,
}
use web_resource_ledger.Prelude.Texts.{Text, text_eq, text_eq_iff, split, push_first}
use web_resource_ledger.Diff.{
  DiffType, diff_equal, diff_insert, diff_delete, Diffs, Line, LineType, context, addition,
  deletion, Position, segments, next_position, push_segments, lines_from, is_changed, is_addition,
  is_deletion, size_limit, build_hunks, diff_html,
}

pub or_left : (a b : Bool) → (a || b) ≡ false → a ≡ false
or_left a b h = ground arith

pub or_right : (a b : Bool) → (a || b) ≡ false → b ≡ false
or_right a b h = ground arith

concat_texts : List Text → Text
concat_texts [] = []
concat_texts (t ∷ ts) = t ++ concat_texts ts

-- The text of one side of the differences, and of the lines.
abbrev pub in_base : DiffType → Text → Text
in_base diff_insert t = []
in_base diff_delete t = t
in_base diff_equal t = t

abbrev pub in_target : DiffType → Text → Text
in_target diff_insert t = t
in_target diff_delete t = []
in_target diff_equal t = t

unfoldable pub base_text : Diffs → Text
base_text [] = []
base_text ((type, t) ∷ diffs) = in_base type t ++ base_text diffs

unfoldable pub target_text : Diffs → Text
target_text [] = []
target_text ((type, t) ∷ diffs) = in_target type t ++ target_text diffs

abbrev pub line_in_base : Line → Text
line_in_base l = elim l.line_type [ addition ↦ [] | _ ↦ l.content ]

abbrev pub line_in_target : Line → Text
line_in_target l = elim l.line_type [ deletion ↦ [] | _ ↦ l.content ]

-- One side of the lines.
unfoldable pub text_of_lines : (Line → Text) → List Line → Text
text_of_lines side [] = []
text_of_lines side (l ∷ lines) = side l ++ text_of_lines side lines

segments_first :
    (c : ℕ) (parts : List Text)
    → concat_texts (segments (push_first c parts)) ≡ c ∷ concat_texts (segments parts)
unfolding segments concat_texts
segments_first c [] = refl
segments_first c ([] ∷ []) = refl
segments_first c ((d ∷ t) ∷ []) = refl
segments_first c ([] ∷ u ∷ parts) = refl
segments_first c ((d ∷ t) ∷ u ∷ parts) = refl

segments_next :
    (parts : List Text) (t : Text) (ts : List Text)
    → parts ≡ t ∷ ts
    → concat_texts (segments ([] ∷ parts)) ≡ 10 ∷ concat_texts (segments parts)
unfolding segments concat_texts
segments_next [] t ts e = cc
segments_next (u ∷ us) t ts e = refl

split_some : (t : Text) → (u : Text) × (us : List Text) × (split 10 t ≡ u ∷ us)
unfolding split
split_some [] = ([], [], refl)
split_some (a ∷ t) = elim (Bool-cases (a == 10)) [
  | inl e ↦ ([], split 10 t, rw (e, split))
  | inr e ↦ let (u, us, f) = split_some t in (a ∷ u, us, rw (e, f, split))
]

-- The segments of a text are the text.
segments-split : (t : Text) → concat_texts (segments (split 10 t)) ≡ t
unfolding split segments concat_texts
segments-split [] = refl
segments-split (a ∷ t) = elim (Bool-cases (a == 10)) [
  | inl e ↦
      let (u, us, f) = split_some t in
      let newline : 10 ≡ a = ground arith in
      ap (λ b. concat_texts (segments (if b then [] ∷ split 10 t else push_first a (split 10 t)))) e
      ∙ segments_next (split 10 t) u us f
      ∙ ap₂ ◌∷◌ newline (segments-split t)
  | inr e ↦
      ap (λ b. concat_texts (segments (if b then [] ∷ split 10 t else push_first a (split 10 t)))) e
      ∙ segments_first a (split 10 t)
      ∙ ap (λ s. a ∷ s) (segments-split t)
]

pushed_base :
    (type : DiffType) (ss : List Text) (at : Position)
    → text_of_lines line_in_base (push_segments type ss at).0 ≡ in_base type (concat_texts ss)
unfolding text_of_lines push_segments concat_texts
pushed_base diff_insert [] at = refl
pushed_base diff_delete [] at = refl
pushed_base diff_equal [] at = refl
pushed_base diff_insert (s ∷ ss) at = pushed_base diff_insert ss (next_position diff_insert at)
pushed_base diff_delete (s ∷ ss) at =
    ap (λ t. s ++ t) (pushed_base diff_delete ss (next_position diff_delete at))
pushed_base diff_equal (s ∷ ss) at =
    ap (λ t. s ++ t) (pushed_base diff_equal ss (next_position diff_equal at))

pushed_target :
    (type : DiffType) (ss : List Text) (at : Position)
    → text_of_lines line_in_target (push_segments type ss at).0 ≡ in_target type (concat_texts ss)
unfolding text_of_lines push_segments concat_texts
pushed_target diff_insert [] at = refl
pushed_target diff_delete [] at = refl
pushed_target diff_equal [] at = refl
pushed_target diff_delete (s ∷ ss) at = pushed_target diff_delete ss (next_position diff_delete at)
pushed_target diff_insert (s ∷ ss) at =
    ap (λ t. s ++ t) (pushed_target diff_insert ss (next_position diff_insert at))
pushed_target diff_equal (s ∷ ss) at =
    ap (λ t. s ++ t) (pushed_target diff_equal ss (next_position diff_equal at))

text_of_lines-append :
    (side : Line → Text) (xs ys : List Line)
    → text_of_lines side (xs ++ ys) ≡ text_of_lines side xs ++ text_of_lines side ys
unfolding text_of_lines
text_of_lines-append side [] ys = refl
text_of_lines-append side (x ∷ xs) ys =
    ap (λ t. side x ++ t) (text_of_lines-append side xs ys)
    ∙ sym (append_assoc (side x) (text_of_lines side xs) (text_of_lines side ys))

lines_from-base :
    (diffs : Diffs) (at : Position)
    → text_of_lines line_in_base (lines_from diffs at) ≡ base_text diffs
unfolding lines_from base_text text_of_lines
lines_from-base [] at = refl
lines_from-base ((type, t) ∷ diffs) at =
    let pushed = push_segments type (segments (split 10 t)) at in
    text_of_lines-append line_in_base pushed.0 (lines_from diffs pushed.1)
    ∙ ap₂ ◌++◌ (pushed_base type (segments (split 10 t)) at ∙ ap (in_base type) (segments-split t))
        (lines_from-base diffs pushed.1)

lines_from-target :
    (diffs : Diffs) (at : Position)
    → text_of_lines line_in_target (lines_from diffs at) ≡ target_text diffs
unfolding lines_from target_text text_of_lines
lines_from-target [] at = refl
lines_from-target ((type, t) ∷ diffs) at =
    let pushed = push_segments type (segments (split 10 t)) at in
    text_of_lines-append line_in_target pushed.0 (lines_from diffs pushed.1)
    ∙ ap₂ ◌++◌
        (pushed_target type (segments (split 10 t)) at ∙ ap (in_target type) (segments-split t))
        (lines_from-target diffs pushed.1)

-- Lines that are all context are the same on both sides.
same_line : (l : Line) → is_changed l ≡ false → line_in_base l ≡ line_in_target l
same_line l h = by_type l.line_type h
  where
    by_type :
        (t : LineType)
        → (elim t [ context ↦ false | addition ↦ true | deletion ↦ true ]) ≡ false
        → (elim t [ addition ↦ [] | _ ↦ l.content ]) ≡ (elim t [ deletion ↦ [] | _ ↦ l.content ])
    by_type context h = refl
    by_type addition h = cc
    by_type deletion h = cc

same_sides :
    (ls : List Line)
    → any is_changed ls ≡ false
    → text_of_lines line_in_base ls ≡ text_of_lines line_in_target ls
unfolding text_of_lines
same_sides [] h = refl
same_sides (l ∷ ls) h =
    let here : is_changed l ≡ false = or_left (is_changed l) (any is_changed ls) h in
    let later : any is_changed ls ≡ false = or_right (is_changed l) (any is_changed ls) h in
    ap₂ ◌++◌ (same_line l here) (same_sides ls later)

counted_change :
    (ls : List Line)
    → any is_changed ls ≡ true
    → (ltb 0 (length (filter is_addition ls)) || ltb 0 (length (filter is_deletion ls))) ≡ true
counted_change [] h = cc
counted_change (l ∷ ls) h = by_type l.line_type h (counted_change ls)
  where
    by_type :
        (t : LineType)
        → ((elim t [ context ↦ false | addition ↦ true | deletion ↦ true ]) || any is_changed ls)
          ≡ true
        → (any is_changed ls ≡ true
            → (ltb 0 (length (filter is_addition ls)) || ltb 0 (length (filter is_deletion ls)))
              ≡ true)
        → (ltb 0
              (length (keep_if (elim t [ addition ↦ true | _ ↦ false ]) l (filter is_addition ls)))
            || ltb 0 (
                length
                  (keep_if (elim t [ deletion ↦ true | _ ↦ false ]) l (filter is_deletion ls))))
          ≡ true
    by_type context h rest = rest h
    by_type addition h rest = ground arith
    by_type deletion h rest = ground arith

changed_build :
    (diffs : Diffs) → base_text diffs ≢ target_text diffs → (build_hunks diffs).html_changed ≡ true
unfolding build_hunks
changed_build diffs n =
    let ls = lines_from diffs (record { base = 1; target = 1 }) in
    elim (Bool-cases (any is_changed ls)) [
      | inl e ↦ rw (e, build_hunks) (counted_change ls e)
      | inr e ↦ absurd (
          n (
            sym (lines_from-base diffs (record { base = 1; target = 1 }))
            ∙ same_sides ls e
            ∙ lines_from-target diffs (record { base = 1; target = 1 })))
    ]

-- `diffHtml` tells of a change exactly when the texts differ, also for texts over the size limit, when
-- the differences of two texts give each text on its side.
pub diff_html_iff :
    (diff_main : Text → Text → Diffs)
    → ((b t : Text) → (base_text (diff_main b t) ≡ b) × (target_text (diff_main b t) ≡ t))
    → (b t : Text) → ((diff_html diff_main b t).html_changed ≡ true) ↔ (b ≢ t)
unfolding diff_html
diff_html_iff diff_main sides b t = (differs, found)
  where
    differs : (diff_html diff_main b t).html_changed ≡ true → b ≢ t
    differs h e =
        let same : text_eq b t ≡ true = (text_eq_iff b t).1 e in
        let k : false ≡ true = rw (same, diff_html) at h in cc

    found : b ≢ t → (diff_html diff_main b t).html_changed ≡ true
    found n = elim (Bool-cases (text_eq b t)) [
      | inl e ↦ absurd (n ((text_eq_iff b t).0 e))
      | inr e ↦ elim (Bool-cases (ltb size_limit (length b) || ltb size_limit (length t))) [
        | inl f ↦ rw (e, f, diff_html)
        | inr f ↦
            rw (e, f, diff_html)
              (changed_build (diff_main b t) (λ g. n (sym (sides b t).0 ∙ g ∙ (sides b t).1)))
      ]
    ]
