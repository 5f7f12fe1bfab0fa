-- ===== src/Diff/Tests.antt =====
-- A page of which the end of a line changed, and headers in another order.
use web_resource_ledger.Prelude.{
  ◌≡◌, ◌≢◌, ◌↔◌, refl, [], ◌∷◌, map, append-nil, filter, some, true, false,
}
use web_resource_ledger.Prelude.Texts.{Text, codes, split}
use web_resource_ledger.Diff.{
  diff_equal, diff_insert, diff_delete, Diffs, HeaderSnapshot, find_header, segments, push_segments,
  lines_from, included, groups_of, build_hunks, diff_html, diff_headers,
}
use web_resource_ledger.Diff.Lines.{base_text, target_text, diff_html_iff}
use web_resource_ledger.Diff.Hunks.{type_changed, shown, hunk_texts, build_hunks_shows}
use web_resource_ledger.Diff.Headers.{diff_headers_iff}

-- The one text is deleted and the other inserted.
abbrev replace_all : Text → Text → Diffs
replace_all b t = (diff_delete, b) ∷ (diff_insert, t) ∷ []

replace_all_sides :
    (b t : Text) → (base_text (replace_all b t) ≡ b) × (target_text (replace_all b t) ≡ t)
unfolding base_text target_text
replace_all_sides b t = (append-nil b, append-nil t)

diff_html_iff_example :
    ((diff_html replace_all (codes "<p>one") (codes "<p>two")).html_changed ≡ true)
    ↔ (codes "<p>one" ≢ codes "<p>two")
diff_html_iff_example =
    diff_html_iff replace_all replace_all_sides (codes "<p>one") (codes "<p>two")

abbrev diffs : Diffs
diffs =
    (diff_equal, codes "ab")
    ∷ (diff_delete, codes "c")
    ∷ (diff_insert, codes "d")
    ∷ (diff_equal, 10 ∷ codes "e")
    ∷ []

build_hunks_shows_example :
    filter type_changed (hunk_texts (build_hunks diffs).hunks)
    ≡ filter type_changed (map shown (lines_from diffs (record { base = 1; target = 1 })))
unfolding build_hunks lines_from push_segments segments split included groups_of
build_hunks_shows_example = build_hunks_shows diffs refl

abbrev base : HeaderSnapshot
base = record {
  snapshot_status = some 200;
  snapshot_headers = (codes "etag", codes "1") ∷ (codes "server", codes "x") ∷ [];
}

abbrev target : HeaderSnapshot
target = record {
  snapshot_status = some 200;
  snapshot_headers = (codes "server", codes "x") ∷ (codes "etag", codes "2") ∷ [];
}

diff_headers_iff_example : ((diff_headers (some base) (some target)).headers_changed ≡ false) ↔ (
    (base.snapshot_status ≡ target.snapshot_status)
    × ((name : Text)
        → find_header name base.snapshot_headers ≡ find_header name target.snapshot_headers))
diff_headers_iff_example = diff_headers_iff base target
