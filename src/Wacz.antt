-- ===== src/Wacz.antt =====
-- src/wacz.js: `buildWacz`. The ZIP writer, `JSON.stringify` (on one line, and indented), UTF-8, SHA-256,
-- the signature and Base64 are parameters; logging is left out.
pub mod Checks
pub mod Verified
mod Tests
use web_resource_ledger.Prelude.{
  ℕ, List, [], ◌∷◌, ◌++◌, map, Option, none, some, Bool, true, false, ◌&&◌, if◌then◌else◌, length,
}
use mathlib.Core.Option
use web_resource_ledger.Prelude.Texts.{Text, codes}
use web_resource_ledger.Prelude.Results.{Result, ok, err}
use web_resource_ledger.Prelude.Decimals.{print_decimal}
use web_resource_ledger.UrlValidation.{Url}
use web_resource_ledger.Json.{
  Json, string, number, array, object, Elements, no_elements, element, Members, no_members, member,
  canonicalize,
}
use web_resource_ledger.Warc.{Artifacts, RecordIds, RecordMeta, sha256, build_warc}
use web_resource_ledger.Cdxj.{UtcDate, to_timestamp14, build_cdxj}
use web_resource_ledger.Signing.{SigningKeys}
use web_resource_ledger.Timestamp.Response.{HttpResponse, Stamp, request_timestamp}
use web_resource_ledger.Verify.Values.{Files}

-- The three files that datapackage.json lists.
pub record Contents : Type 0 where
  pub warc_bytes : List ℕ
  pub cdxj_bytes : List ℕ
  pub pages_bytes : List ℕ

-- A request to a TSA; `fetched` is `none` when `fetch` throws.
pub record TsaRequest : Type 0 where
  pub fetched : Option (List ℕ → HttpResponse)
  pub nonce_bytes : List ℕ
  pub tsa_url : Text

pub data StampStatus : Type 0 where
  stamp_present stamp_skipped stamp_error : StampStatus

pub record Bundle : Type 0 where
  pub wacz_bytes : List ℕ
  pub wacz_hash : Text
  pub bundle_hash : Text
  pub public_key_base64 : Text
  pub bundle_key_id : Text
  pub timestamp_status : StampStatus
  pub qualified_timestamp_status : StampStatus

unfoldable pub pages_text : (stringify : Json → Text) (url capture_date : Text) → Text
pages_text stringify url capture_date =
    stringify (
      object (
        member (codes "format") (string (codes "json-pages-1.0")) (
          member (codes "id") (string (codes "pages"))
            (member (codes "title") (string (codes "All Pages")) no_members))))
    ++ (10 ∷ [])
    ++ stringify (
        object (
          member (codes "url") (string url) (
            member (codes "ts") (string capture_date)
              (member (codes "title") (string (codes "WRL capture")) no_members))))
    ++ (10 ∷ [])

abbrev pub resource_of : (name path hash : Text) → List ℕ → Json
resource_of name path hash bytes = object (
    member (codes "name") (string name) (
      member (codes "path") (string path) (
        member (codes "hash") (string hash)
          (member (codes "bytes") (number (print_decimal (length bytes))) no_members))))

-- `...(artifacts.captureSettings ? { captureSettings } : {})`, before the resources.
abbrev pub with_settings : Option Json → Members → Members
with_settings none rest = rest
with_settings (some settings) rest = member (codes "captureSettings") settings rest

-- The three resources.
abbrev pub resources_of : (List ℕ → Text) → Contents → Elements
resources_of hash_of c =
    element
      (resource_of (codes "data.warc") (codes "archive/data.warc") (hash_of c.warc_bytes)
        c.warc_bytes)
      (element
        (resource_of (codes "index.cdxj") (codes "indexes/index.cdxj") (hash_of c.cdxj_bytes)
          c.cdxj_bytes)
        (element
          (resource_of (codes "pages.jsonl") (codes "pages/pages.jsonl") (hash_of c.pages_bytes)
            c.pages_bytes)
          no_elements))

unfoldable pub datapackage_of :
    (List ℕ → Text) → (url capture_date : Text) → Option Json → Contents → Json
datapackage_of hash_of url capture_date settings c = object (
    member (codes "profile") (string (codes "data-package")) (
      member (codes "wacz_version") (string (codes "1.1.1")) (
        member (codes "title") (string (codes "WRL capture of " ++ url)) (
          member (codes "software") (string (codes "WRL/0.1")) (
            member (codes "created") (string capture_date) (
              member (codes "mainPageUrl") (string url) (
                member (codes "mainPageDate") (string capture_date) (
                  with_settings settings
                    (member (codes "resources") (array (resources_of hash_of c)) no_members)))))))))

-- `signatures.push({ type, token, tsa })` for a token that was obtained.
abbrev pub stamp_entry : Text → Option Stamp → Elements → Elements
stamp_entry type none rest = rest
stamp_entry type (some stamp) rest =
    element
      (object (
        member (codes "type") (string type) (
          member (codes "token") (string stamp.token)
            (member (codes "tsa") (string stamp.tsa) no_members))))
      rest

unfoldable pub signatures_of :
    (signature public_key key_id : Text) → Option Stamp → Option Stamp → Elements
signatures_of signature public_key key_id stamp qualified =
    element
      (object (
        member (codes "type") (string (codes "self")) (
          member (codes "signature") (string signature) (
            member (codes "publicKey") (string public_key)
              (member (codes "keyId") (string key_id) no_members)))))
      (stamp_entry (codes "rfc3161") stamp
        (stamp_entry (codes "rfc3161_qualified") qualified no_elements))

abbrev pub signed_data_of : (bundle_hash capture_date : Text) → Elements → Json
signed_data_of bundle_hash capture_date signatures = object (
    member (codes "hash") (string bundle_hash) (
      member (codes "created") (string capture_date) (
        member (codes "software") (string (codes "WRL/0.1")) (
          member (codes "version") (string (codes "0.2.0"))
            (member (codes "signatures") (array signatures) no_members)))))

unfoldable pub digest_doc_of : (datapackage_hash bundle_hash capture_date : Text) → Elements → Json
digest_doc_of datapackage_hash bundle_hash capture_date signatures = object (
    member (codes "path") (string (codes "datapackage.json")) (
      member (codes "hash") (string datapackage_hash) (
        member (codes "signedData") (signed_data_of bundle_hash capture_date signatures)
          no_members)))

unfoldable pub files_of : (datapackage_bytes digest_bytes : List ℕ) → Contents → Files
files_of datapackage_bytes digest_bytes c =
    (codes "datapackage.json", datapackage_bytes)
    ∷ (codes "datapackage-digest.json", digest_bytes)
    ∷ (codes "archive/data.warc", c.warc_bytes)
    ∷ (codes "indexes/index.cdxj", c.cdxj_bytes)
    ∷ (codes "pages/pages.jsonl", c.pages_bytes)
    ∷ []

abbrev pub status_of : Option TsaRequest → Option Stamp → StampStatus
status_of request (some stamp) = stamp_present
status_of (some request) none = stamp_error
status_of none none = stamp_skipped

-- `tsaResult`: null without a TSA, and when `requestTimestamp` throws.
module _ (millis : Text → Text) (btoa : List ℕ → Text) where
  abbrev pub answered : Option (List ℕ → HttpResponse) → TsaRequest → Text → Option Stamp
  answered none request bundle_hash = none
  answered (some post) request bundle_hash =
      elim (request_timestamp millis btoa post request.nonce_bytes request.tsa_url bundle_hash) [
        | ok stamp ↦ some stamp
        | err thrown ↦ none
      ]

  unfoldable pub stamp_of : Option TsaRequest → Text → Option Stamp
  stamp_of none bundle_hash = none
  stamp_of (some request) bundle_hash = answered request.fetched request bundle_hash

module _ (encode : Text → List ℕ) (sha256_digest : List ℕ → List ℕ) (quote : Text → Text)
    (stringify indented : Json → Text) (sign : List ℕ → List ℕ → Text) (millis : Text → Text)
    (btoa : List ℕ → Text) (zip : Files → List ℕ) where
  unfoldable pub contents_of :
      (parse_url : Text → Option Url) (url capture_date : Text)
      → UtcDate
      → RecordIds
      → Artifacts
      → Contents
  contents_of parse_url url capture_date date ids artifacts =
      let warc =
        build_warc encode sha256_digest url capture_date (to_timestamp14 date) ids artifacts in
      record {
        warc_bytes = warc.0;
        cdxj_bytes = encode (build_cdxj parse_url stringify warc.1 (codes "archive/data.warc"));
        pages_bytes = encode (pages_text stringify url capture_date);
      }

  -- The files of the archive, with `bundleHash`.
  unfoldable pub bundle_files :
      SigningKeys
      → (capture_date : Text) (datapackage : Json) → Contents
      → Option Stamp
      → Option Stamp
      → Files
  bundle_files keys capture_date datapackage c stamp qualified =
      let bundle_hash = sha256 encode sha256_digest (encode (canonicalize quote datapackage)) in
      let datapackage_bytes = encode (indented datapackage) in
      files_of datapackage_bytes
        (encode (
          indented (
            digest_doc_of (sha256 encode sha256_digest datapackage_bytes) bundle_hash capture_date (
              signatures_of (sign keys.private_key (encode bundle_hash)) (btoa keys.public_key)
                keys.key_id stamp qualified))))
        c

  abbrev pub bundle_with :
      SigningKeys
      → (capture_date : Text) → Contents
      → Json
      → Option TsaRequest
      → Option TsaRequest
      → Bundle
  bundle_with keys capture_date c datapackage tsa qualified_tsa =
      let bundle_hash = sha256 encode sha256_digest (encode (canonicalize quote datapackage)) in
      let stamp = stamp_of millis btoa tsa bundle_hash in
      let qualified = stamp_of millis btoa qualified_tsa bundle_hash in
      let wacz_bytes = zip (bundle_files keys capture_date datapackage c stamp qualified) in
      record {
        wacz_bytes = wacz_bytes;
        wacz_hash = sha256 encode sha256_digest wacz_bytes;
        bundle_hash = bundle_hash;
        public_key_base64 = btoa keys.public_key;
        bundle_key_id = keys.key_id;
        timestamp_status = status_of tsa stamp;
        qualified_timestamp_status = status_of qualified_tsa qualified;
      }

  -- With what `getSigningKeys` gives; the qualified TSA is there when it is wanted and configured.
  unfoldable pub build_wacz :
      Option SigningKeys
      → (parse_url : Text → Option Url) (url capture_date : Text) → UtcDate
      → RecordIds
      → Artifacts
      → Option Json
      → Option TsaRequest
      → Option TsaRequest
      → Option Bundle
  build_wacz none parse_url url capture_date date ids artifacts settings tsa qualified_tsa = none
  build_wacz (some keys) parse_url url capture_date date ids artifacts settings tsa qualified_tsa =
      let c = contents_of parse_url url capture_date date ids artifacts in
      some (
        bundle_with keys capture_date c
          (datapackage_of (sha256 encode sha256_digest) url capture_date settings c) tsa
          qualified_tsa)
