-- ===== src/Diff.antt =====
-- src/diff.js: `diffHtml`, `diffHeaders`, `diffScreenshot` and `computeChangeSummary`. The differences of
-- two texts, after their clean-up, come from another package and are a parameter. Texts are measured in
-- characters.
pub mod Hunks
pub mod Lines
pub mod Headers
mod Tests
use web_resource_ledger.Prelude.{
  ℕ, zero, suc, ◌+◌, ◌-◌, List, [], ◌∷◌, ◌++◌, map, Option, none, some, Bool, true, false, not,
  ◌&&◌, ◌||◌, ◌==◌, ltb, leb, if◌then◌else◌, any, filter, take, length,
}
use web_resource_ledger.Prelude.Texts.{Text, text_eq, split}

abbrev pub size_limit : ℕ
size_limit = 2097152

abbrev pub max_hunks : ℕ
max_hunks = 200

pub data DiffType : Type 0 where
  diff_equal diff_insert diff_delete : DiffType

abbrev pub Diffs : Type 0
Diffs = List (DiffType × Text)

pub data LineType : Type 0 where
  context addition deletion : LineType

pub record Line : Type 0 where
  pub line_type : LineType
  pub content : Text
  pub base_line : Option ℕ
  pub target_line : Option ℕ

-- The counters of both sides.
pub record Position : Type 0 where
  pub base : ℕ
  pub target : ℕ

-- The parts of a text with their newlines; an empty last part gives none.
unfoldable pub segments : List Text → List Text
segments [] = []
segments ([] ∷ []) = []
segments ((c ∷ t) ∷ []) = (c ∷ t) ∷ []
segments (t ∷ u ∷ parts) = (t ++ (10 ∷ [])) ∷ segments (u ∷ parts)

abbrev pub line_at : DiffType → Position → Text → Line
line_at diff_delete at content = record {
  line_type = deletion;
  content = content;
  base_line = some at.base;
  target_line = none;
}
line_at diff_insert at content = record {
  line_type = addition;
  content = content;
  base_line = none;
  target_line = some at.target;
}
line_at diff_equal at content = record {
  line_type = context;
  content = content;
  base_line = some at.base;
  target_line = some at.target;
}

abbrev pub next_position : DiffType → Position → Position
next_position diff_delete at = record { base = at.base + 1; target = at.target }
next_position diff_insert at = record { base = at.base; target = at.target + 1 }
next_position diff_equal at = record { base = at.base + 1; target = at.target + 1 }

-- The records of one difference, with the counters after it.
unfoldable pub push_segments : DiffType → List Text → Position → List Line × Position
push_segments type [] at = ([], at)
push_segments type (s ∷ ss) at =
    let rest = push_segments type ss (next_position type at) in (line_at type at s ∷ rest.0, rest.1)

unfoldable pub lines_from : Diffs → Position → List Line
lines_from [] at = []
lines_from ((type, text) ∷ diffs) at =
    let pushed = push_segments type (segments (split 10 text)) at in
    pushed.0 ++ lines_from diffs pushed.1

abbrev pub is_changed : Line → Bool
is_changed line = elim line.line_type [ context ↦ false | addition ↦ true | deletion ↦ true ]

abbrev pub is_addition : Line → Bool
is_addition line = elim line.line_type [ addition ↦ true | _ ↦ false ]

abbrev pub is_deletion : Line → Bool
is_deletion line = elim line.line_type [ deletion ↦ true | _ ↦ false ]

-- A changed line among the first `n` lines.
abbrev pub changed_within : ℕ → List Line → Bool
changed_within n lines = any is_changed (take n lines)

-- The lines that are included, with their indices in increasing order: those that are changed, or have a
-- changed line among the three before (`since` lines after the last one) or the three after them.
unfoldable pub included : (i since : ℕ) → List Line → List (ℕ × Line)
included i since [] = []
included i since (line ∷ lines) =
    let later = included (i + 1) (if is_changed line then 1 else since + 1) lines in
    if is_changed line || (leb since 3 || changed_within 3 lines) then (i, line) ∷ later else later

-- The groups; a gap of more than six lines starts a new one.
abbrev pub add_to_groups : ℕ × Line → List (List (ℕ × Line)) → List (List (ℕ × Line))
add_to_groups entry [] = (entry ∷ []) ∷ []
add_to_groups entry ([] ∷ groups) = (entry ∷ []) ∷ groups
add_to_groups entry ((next ∷ group) ∷ groups) =
    if ltb 6 (next.0 - entry.0)
    then (entry ∷ []) ∷ (next ∷ group) ∷ groups
    else (entry ∷ next ∷ group) ∷ groups

unfoldable pub groups_of : List (ℕ × Line) → List (List (ℕ × Line))
groups_of [] = []
groups_of (entry ∷ entries) = add_to_groups entry (groups_of entries)

pub record Hunk : Type 0 where
  pub hunk_base_line : Option ℕ
  pub hunk_target_line : Option ℕ
  pub hunk_lines : List (LineType × Text)

abbrev pub or_else : Option ℕ → Option ℕ → Option ℕ
or_else (some n) other = some n
or_else none other = other

abbrev pub first_lines : List (ℕ × Line) → Option ℕ × Option ℕ
first_lines [] = (none, none)
first_lines (entry ∷ group) =
    (or_else entry.1.base_line entry.1.target_line, or_else entry.1.target_line entry.1.base_line)

abbrev pub hunk_of : List (ℕ × Line) → Hunk
hunk_of group = record {
  hunk_base_line = (first_lines group).0;
  hunk_target_line = (first_lines group).1;
  hunk_lines = map (λ e. (e.1.line_type, e.1.content)) group;
}

pub record HtmlDiff : Type 0 where
  pub html_changed : Bool
  pub truncated : Bool
  pub additions : ℕ
  pub deletions : ℕ
  pub hunks : List Hunk

abbrev pub build_hunks_of : List Line → HtmlDiff
build_hunks_of lines =
    let additions = length (filter is_addition lines) in
    let deletions = length (filter is_deletion lines) in
    let groups = groups_of (included 0 4 lines) in
    record {
      html_changed = ltb 0 additions || ltb 0 deletions;
      truncated = ltb max_hunks (length groups);
      additions = additions;
      deletions = deletions;
      hunks = map hunk_of (take max_hunks groups);
    }

abbrev pub no_hunks : Bool → HtmlDiff
no_hunks changed = record {
  html_changed = changed;
  truncated = changed;
  additions = 0;
  deletions = 0;
  hunks = [];
}

-- `buildHunks`, with `changed` as `diffHtml` adds it.
unfoldable pub build_hunks : Diffs → HtmlDiff
build_hunks diffs =
    let lines = lines_from diffs (record { base = 1; target = 1 }) in
    if any is_changed lines then build_hunks_of lines else no_hunks false

unfoldable pub diff_html :
    (diff_main : Text → Text → Diffs) (base_html target_html : Text) → HtmlDiff
diff_html diff_main base_html target_html =
    if text_eq base_html target_html
    then no_hunks false
    else if ltb size_limit (length base_html) || ltb size_limit (length target_html)
    then no_hunks true
    else build_hunks (diff_main base_html target_html)

-- Headers: the status with the headers by name, each name once.
pub record HeaderSnapshot : Type 0 where
  pub snapshot_status : Option ℕ
  pub snapshot_headers : List (Text × Text)

pub record HeaderDiff : Type 0 where
  pub headers_changed : Bool
  pub added : List (Text × Text)
  pub removed : List (Text × Text)
  pub modified : List (Text × Text × Text)
  pub unchanged : ℕ
  pub status_changed : Bool

unfoldable pub find_header : Text → List (Text × Text) → Option Text
find_header name [] = none
find_header name (h ∷ headers) = if text_eq h.0 name then some h.1 else find_header name headers

abbrev pub no_header_diff : HeaderDiff
no_header_diff = record {
  headers_changed = false;
  added = [];
  removed = [];
  modified = [];
  unchanged = 0;
  status_changed = false;
}

-- One name of the loop over all names.
abbrev pub compare_header : Text → Option Text → Option Text → HeaderDiff → HeaderDiff
compare_header name none none d = d
compare_header name (some b) none d = record d { removed = (name, b) ∷ d.removed }
compare_header name none (some t) d = record d { added = (name, t) ∷ d.added }
compare_header name (some b) (some t) d =
    if text_eq b t
    then record d { unchanged = d.unchanged + 1 }
    else record d { modified = (name, b, t) ∷ d.modified }

unfoldable pub compare_headers : List Text → (base target : List (Text × Text)) → HeaderDiff
compare_headers [] base target = no_header_diff
compare_headers (name ∷ names) base target =
    compare_header name (find_header name base) (find_header name target)
      (compare_headers names base target)

-- The names of the base, then those of the target that are new.
unfoldable pub all_keys : (base target : List (Text × Text)) → List Text
all_keys base target =
    map (λ h. h.0) base
    ++ map (λ h. h.0)
        (filter (λ h. elim (find_header h.0 base) [ none ↦ true | some v ↦ false ]) target)

abbrev pub is_empty {ℓ} : {A : Type ℓ} → List A → Bool
is_empty [] = true
is_empty (x ∷ xs) = false

abbrev pub same_status : Option ℕ → Option ℕ → Bool
same_status none none = true
same_status (some s) none = false
same_status none (some t) = false
same_status (some s) (some t) = s == t

abbrev pub with_changed : Bool → HeaderDiff → HeaderDiff
with_changed status d = record d {
  status_changed = status;
  headers_changed =
      status || (not (is_empty d.added) || (not (is_empty d.removed) || not (is_empty d.modified)));
}

-- `none` stands for a snapshot without headers.
unfoldable pub diff_headers : Option HeaderSnapshot → Option HeaderSnapshot → HeaderDiff
diff_headers none target = no_header_diff
diff_headers (some base) none = no_header_diff
diff_headers (some base) (some target) =
    with_changed (not (same_status base.snapshot_status target.snapshot_status)) (
      compare_headers (all_keys base.snapshot_headers target.snapshot_headers) base.snapshot_headers
        target.snapshot_headers)

unfoldable pub diff_screenshot : Option Text → Option Text → Bool
diff_screenshot none none = false
diff_screenshot (some base) none = true
diff_screenshot none (some target) = true
diff_screenshot (some base) (some target) = not (text_eq base target)

pub record ChangeSummary : Type 0 where
  pub summary_changed : Bool
  pub summary_html : Bool × ℕ × ℕ
  pub summary_screenshot : Bool
  pub summary_headers : Bool × ℕ

unfoldable pub compute_change_summary : HtmlDiff → HeaderDiff → Bool → ChangeSummary
compute_change_summary html headers screenshot = record {
  summary_changed = html.html_changed || headers.headers_changed || screenshot;
  summary_html = (html.html_changed, html.additions, html.deletions);
  summary_screenshot = screenshot;
  summary_headers = (
    headers.headers_changed,
    length headers.added
        + length headers.removed
        + length headers.modified
        + (if headers.status_changed then 1 else 0),
  );
}
