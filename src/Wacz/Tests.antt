-- ===== src/Wacz/Tests.antt =====
-- A small capture without headers, a TSA that cannot be reached, and the bundle that is made of it.
use web_resource_ledger.Prelude.{
  ℕ, ◌≡◌, refl, List, [], ◌∷◌, ◌++◌, Option, none, some, Bool, true, length, ap, ◌%◌, if◌then◌else◌,
}
use web_resource_ledger.Prelude.Texts.{Text, codes, text_eq, text_eq_iff}
use web_resource_ledger.UrlValidation.{Url}
use web_resource_ledger.Json.{
  Json, null, boolean, number, string, array, object, no_members, member, canonicalize,
}
use web_resource_ledger.Warc.{Artifacts, RecordIds, sha256}
use web_resource_ledger.Cdxj.{UtcDate}
use web_resource_ledger.Signing.{SigningKeys}
use web_resource_ledger.Verify.{Platform, verify_wacz}
use web_resource_ledger.Verify.Values.{Files, Report}
use web_resource_ledger.Wacz.{
  Contents, TsaRequest, Bundle, datapackage_of, signatures_of, digest_doc_of, contents_of,
  bundle_files, stamp_of, build_wacz,
}
use web_resource_ledger.Wacz.Verified.{verify_wacz-build_wacz}

abbrev ascii : Text → List ℕ
ascii t = t

abbrev digest : List ℕ → List ℕ
digest bytes = (length bytes % 256) ∷ []

abbrev quoted : Text → Text
quoted t = codes "'" ++ t ++ codes "'"

-- The first key of an object, which is another one in each manifest.
abbrev first_key : Json → Text
first_key (object (member key value others)) = key
first_key (object no_members) = []
first_key null = []
first_key (boolean b) = []
first_key (number t) = []
first_key (string t) = []
first_key (array es) = []

abbrev coerced : Json → Text
coerced j = []

abbrev sign : List ℕ → List ℕ → Text
sign key message = key ++ message

abbrev verify_signature : List ℕ → List ℕ → Text → Option Bool
verify_signature key message signature = some (text_eq signature (key ++ message))

abbrev no_millis : Text → Text
no_millis t = t

abbrev decode : Text → Option (List ℕ)
decode t = some t

abbrev no_url : Text → Option Url
no_url t = none

abbrev zip : Files → List ℕ
zip files = 80 ∷ 75 ∷ []

abbrev keys : SigningKeys
keys = record { private_key = codes "key"; public_key = codes "key"; key_id = codes "id" }

abbrev url : Text
url = codes "u:a"

abbrev capture_date : Text
capture_date = codes "2026-01-02"

abbrev date : UtcDate
date = record { year = 2026; month = 1; day = 2; hours = 0; minutes = 0; seconds = 0 }

abbrev ids : RecordIds
ids = record {
  warcinfo_id = codes "<a>";
  html_id = codes "<b>";
  headers_id = codes "<c>";
  before_id = codes "<d>";
  after_id = codes "<e>";
}

abbrev artifacts : Artifacts
artifacts = record {
  screenshot_before = 1 ∷ [];
  screenshot_after = none;
  html = codes "<p>";
  headers_json = none;
}

abbrev tsa : Option TsaRequest
tsa = some (record { fetched = none; nonce_bytes = []; tsa_url = codes "t" })

abbrev contents : Contents
contents =
    contents_of ascii digest quoted first_key first_key sign no_millis ascii zip no_url url
      capture_date date ids artifacts

abbrev manifest : Json
manifest = datapackage_of (sha256 ascii digest) url capture_date none contents

abbrev bundle_hash : Text
bundle_hash = sha256 ascii digest (ascii (canonicalize quoted manifest))

abbrev digest_doc : Json
digest_doc =
    digest_doc_of (sha256 ascii digest (first_key manifest)) bundle_hash capture_date
      (signatures_of (sign (codes "key") bundle_hash) (codes "key") (codes "id") none none)

abbrev files : Files
files =
    bundle_files ascii digest quoted first_key first_key sign no_millis ascii zip keys capture_date
      manifest contents none none

abbrev unzip : List ℕ → Option Files
unzip bytes = some files

abbrev parse_json : List ℕ → Option Json
parse_json bytes = if text_eq bytes (codes "profile") then some manifest else some digest_doc

abbrev platform : Platform
platform = record {
  unzip = unzip;
  parse_json = parse_json;
  encode = ascii;
  sha256_digest = digest;
  quote = quoted;
  coerce = coerced;
  verify_signature = verify_signature;
  millis = no_millis;
  atob = decode;
}

verify_wacz-build_wacz_example :
    (b : Bundle) × (r : Report) × (build_wacz ascii digest quoted first_key first_key sign no_millis
        ascii zip
        (some keys)
        no_url
        url
        capture_date
        date
        ids
        artifacts
        none
        tsa
        none
      ≡ some b)
    × (verify_wacz platform b.wacz_bytes (codes "key") ≡ some r)
    × (r.verified ≡ true)
unfolding text_eq datapackage_of digest_doc_of stamp_of
verify_wacz-build_wacz_example =
    verify_wacz-build_wacz platform first_key first_key sign ascii zip no_url keys url capture_date
      date ids artifacts none tsa none refl refl refl (λ e. cc)
      (ap some
        ((text_eq_iff (sign (codes "key") bundle_hash) (sign (codes "key") bundle_hash)).1 refl))
      tt tt
