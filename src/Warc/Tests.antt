-- ===== src/Warc/Tests.antt =====
-- A WARC of a page without headers and with both screenshots, in ASCII.
use web_resource_ledger.Prelude.{ℕ, List, [], ◌∷◌, none, some, length, All}
use web_resource_ledger.Prelude.Texts.{Text, codes}
use web_resource_ledger.Warc.{Artifacts, RecordIds, build_record, warcinfo_options, build_warc}
use web_resource_ledger.Warc.Index.{IsEntry, Tiles, build_warc-IsEntry}

abbrev ascii : Text → List ℕ
ascii s = s

abbrev no_digest : List ℕ → List ℕ
no_digest bytes = []

abbrev ids : RecordIds
ids = record {
  warcinfo_id = codes "<a>";
  html_id = codes "<b>";
  headers_id = codes "<c>";
  before_id = codes "<d>";
  after_id = codes "<e>";
}

abbrev page : Artifacts
page = record {
  screenshot_before = 1 ∷ 2 ∷ [];
  screenshot_after = some (3 ∷ []);
  html = codes "<p>";
  headers_json = none;
}

abbrev url : Text
url = codes "https://news.example/"

abbrev date : Text
date = codes "2026-01-02T03:04:05.000Z"

abbrev time : Text
time = codes "20260102030405"

build_warc-IsEntry_example :
    All
      (IsEntry ascii no_digest (build_warc ascii no_digest url date time ids page).0)
      (build_warc ascii no_digest url date time ids page).1
    × Tiles
        (length (build_record ascii no_digest (warcinfo_options ascii no_digest url date time ids)))
        (build_warc ascii no_digest url date time ids page).1
        (length (build_warc ascii no_digest url date time ids page).0)
build_warc-IsEntry_example = build_warc-IsEntry ascii no_digest url date time ids page
