-- ===== src/Cdxj/Tests.antt =====
-- An index of two pages and a screenshot.
use web_resource_ledger.Prelude.{◌≡◌, refl, List, [], ◌∷◌, Option, some}
use web_resource_ledger.Prelude.Texts.{Text, codes, split, join, starts_with}
use web_resource_ledger.Prelude.Decimals.{print_decimal}
use web_resource_ledger.Json.{Json}
use web_resource_ledger.UrlValidation.{Url}
use web_resource_ledger.Warc.{RecordMeta, RecordType, warcinfo, resource}
use web_resource_ledger.Cdxj.{to_surt, to_timestamp14, build_cdxj}
use web_resource_ledger.Cdxj.Order.{IsIndex, build_cdxj-IsIndex}

abbrev parse_page : Text → Option Url
parse_page raw = some (record {
  href = raw;
  protocol = codes "https:";
  username = [];
  password = [];
  hostname = codes "www.news.example";
  pathname = codes "/a";
  search = codes "?q=1";
  hash = [];
})

abbrev braces : Json → Text
braces j = codes "{}"

abbrev meta : Text → RecordType → RecordMeta
meta url type = record {
  meta_url = url;
  offset = 7;
  record_length = 5;
  mime = codes "text/html";
  digest = codes "sha256:";
  meta_type = type;
  meta_status = codes "200";
  ts14 = codes "20260102030405";
}

surt_of_page :
    to_surt parse_page braces (codes "https://www.news.example/a?q=1")
    ≡ codes "example,news,www)/a?q=1"
unfolding to_surt split join starts_with
surt_of_page = refl

timestamp_of_date :
    to_timestamp14
      (record { year = 2026; month = 1; day = 2; hours = 3; minutes = 4; seconds = 59 })
    ≡ codes "20260102030459"
unfolding to_timestamp14 print_decimal
timestamp_of_date = refl

abbrev records : List RecordMeta
records =
    meta (codes "urn:wrl:screenshot:before:x") resource
    ∷ meta (codes "https://www.news.example/a") resource
    ∷ meta [] warcinfo
    ∷ []

build_cdxj-IsIndex_example :
    IsIndex parse_page braces records
      (codes "archive/data.warc")
      (build_cdxj parse_page braces records (codes "archive/data.warc"))
build_cdxj-IsIndex_example =
    build_cdxj-IsIndex parse_page braces records (codes "archive/data.warc")
