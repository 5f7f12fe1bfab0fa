-- ===== src/Wacz/Verified.antt =====
-- src/wacz.js with src/verify.js: what `buildWacz` makes, `verifyWacz` verifies.
use mathlib.Core.Option
use web_resource_ledger.Prelude.{
  ℕ, ◌≡◌, ◌≢◌, refl, ◌∙◌, List, [], ◌++◌, Option, none, some, true, all,
}
use web_resource_ledger.Prelude.Texts.{Text, codes, text_eq}
use web_resource_ledger.Prelude.Results.{all_four}
use web_resource_ledger.UrlValidation.{Url}
use web_resource_ledger.Json.{Json, string, find_member}
use web_resource_ledger.Warc.{Artifacts, RecordIds}
use web_resource_ledger.Cdxj.{UtcDate}
use web_resource_ledger.Signing.{SigningKeys}
use web_resource_ledger.Timestamp.Response.{Stamp}
use web_resource_ledger.Verify.{
  Platform, assemble, report_of, check_bundle_hash, check_with, check_manifests, read_manifests,
  verify_files, verify_wacz,
}
use web_resource_ledger.Verify.Values.{
  Files, Check, TimestampData, Report, find_file, prop, is_truthy, passed, artifact_hashes,
  is_tolerated,
}
use web_resource_ledger.Wacz.{
  Contents, TsaRequest, Bundle, datapackage_of, signatures_of, signed_data_of, digest_doc_of,
  files_of, stamp_of, contents_of, bundle_files, bundle_with, build_wacz,
}
use web_resource_ledger.Wacz.Checks.{
  hash_of, bundle_hash_of, artifacts_pass, bundle_hash_pass, self_entry, signature_is_truthy,
  self_found, signature_pass, Stamps, standard_result, qualified_result, standard_stamp,
  qualified_stamp,
}

module _ (p : Platform) where
  results_tolerated :
      (bundle_hash : Text) (stamp qualified : Option Stamp) (v : Stamps p bundle_hash stamp)
      (w : Stamps p bundle_hash qualified)
      → all is_tolerated (
          (standard_result p bundle_hash stamp v).0
          ++ (qualified_result p bundle_hash qualified w).0)
        ≡ true
  results_tolerated bundle_hash none none v w = refl
  results_tolerated bundle_hash none (some q) v w = refl
  results_tolerated bundle_hash (some s) none v w = refl
  results_tolerated bundle_hash (some s) (some q) v w = refl

  -- The checks of a bundle pass, when its files, its signature and its stamps do.
  abbrev Passes : Option Report → Type 0
  Passes o = (r : Report) × (o ≡ some r) × (r.verified ≡ true)

  all_pass :
      (datapackage : Json) (signed_data self_sig : Option Json)
      (std qual : List Check × Option TimestampData)
      → check_bundle_hash p datapackage signed_data ≡ passed (codes "bundleHash")
      → all is_tolerated (std.0 ++ qual.0) ≡ true
      → (assemble p datapackage signed_data self_sig
          (passed artifact_hashes, passed (codes "signature"), std, qual)).verified
        ≡ true
  all_pass datapackage signed_data self_sig std qual b t = rw (b, t, assemble, report_of)

  manifests_pass :
      (key : List ℕ) (url capture_date : Text) (settings : Option Json) (c : Contents)
      (dp_bytes digest_bytes : List ℕ) (signature public_key key_id : Text)
      (stamp qualified : Option Stamp)
      → is_truthy (some (string signature)) ≡ true
      → p.verify_signature key
          (p.encode (bundle_hash_of p (datapackage_of (hash_of p) url capture_date settings c)))
          signature
        ≡ some true
      → Stamps p (bundle_hash_of p (datapackage_of (hash_of p) url capture_date settings c)) stamp
      → Stamps p
          (bundle_hash_of p (datapackage_of (hash_of p) url capture_date settings c))
          qualified
      → Passes (
          check_manifests p key
            (files_of dp_bytes digest_bytes c)
            (datapackage_of (hash_of p) url capture_date settings c)
            (some (
              signed_data_of
                (bundle_hash_of p (datapackage_of (hash_of p) url capture_date settings c))
                capture_date
                (signatures_of signature public_key key_id stamp qualified))))
  unfolding check_manifests check_with all_four Option.bind check_bundle_hash is_truthy
  manifests_pass key url capture_date settings c dp_bytes digest_bytes signature public_key key_id
        stamp qualified t g v w =
      let manifest = datapackage_of (hash_of p) url capture_date settings c in
      let hash = bundle_hash_of p manifest in
      let signatures = signatures_of signature public_key key_id stamp qualified in
      (
        assemble p manifest (some (signed_data_of hash capture_date signatures))
            (some (self_entry p signature public_key key_id))
            (
              passed artifact_hashes,
              passed (codes "signature"),
              standard_result p hash stamp v,
              qualified_result p hash qualified w,
            ),
        rw (
          self_found p hash capture_date signature public_key key_id stamp qualified,
          artifacts_pass p url capture_date settings c dp_bytes digest_bytes,
          signature_pass p key hash capture_date signature public_key key_id signatures t g,
          standard_stamp p hash capture_date signature public_key key_id stamp qualified v,
          qualified_stamp p hash capture_date signature public_key key_id stamp qualified w,
        ),
        all_pass manifest (some (signed_data_of hash capture_date signatures))
            (some (self_entry p signature public_key key_id)) (standard_result p hash stamp v)
            (qualified_result p hash qualified w)
            (bundle_hash_pass p manifest capture_date signatures)
            (results_tolerated hash stamp qualified v w),
      )

  verified_files :
      (key wacz_bytes dp_bytes digest_bytes : List ℕ) (manifest digest : Json) (c : Contents)
      → p.unzip wacz_bytes ≡ some (files_of dp_bytes digest_bytes c)
      → p.parse_json dp_bytes ≡ some manifest
      → p.parse_json digest_bytes ≡ some digest
      → verify_wacz p wacz_bytes key
        ≡ check_manifests p key
            (files_of dp_bytes digest_bytes c)
            manifest
            (prop (codes "signedData") (some digest))
  unfolding verify_wacz verify_files read_manifests files_of find_file text_eq
  verified_files key wacz_bytes dp_bytes digest_bytes manifest digest c u e f =
      rw (u, e, f, verify_wacz, verify_files, read_manifests)

  module _ (stringify indented : Json → Text) (sign : List ℕ → List ℕ → Text) (btoa : List ℕ → Text)
      (zip : Files → List ℕ) (parse_url : Text → Option Url) (keys : SigningKeys)
      (url capture_date : Text) (date : UtcDate) (ids : RecordIds) (artifacts : Artifacts)
      (settings : Option Json) (tsa qualified_tsa : Option TsaRequest) where
    abbrev pub contents : Contents
    contents =
        contents_of p.encode p.sha256_digest p.quote stringify indented sign p.millis btoa zip
          parse_url url capture_date date ids artifacts

    abbrev pub manifest_of : Contents → Json
    manifest_of c = datapackage_of (hash_of p) url capture_date settings c

    -- The token of each TSA.
    abbrev pub obtained : Option TsaRequest → Option Stamp
    obtained request = stamp_of p.millis btoa request (bundle_hash_of p (manifest_of contents))

    abbrev pub digest_of : Contents → Json
    digest_of c =
        digest_doc_of (hash_of p (p.encode (indented (manifest_of c))))
          (bundle_hash_of p (manifest_of c)) capture_date
          (signatures_of (sign keys.private_key (p.encode (bundle_hash_of p (manifest_of c))))
            (btoa keys.public_key) keys.key_id (obtained tsa) (obtained qualified_tsa))

    abbrev pub archived : Files
    archived =
        bundle_files p.encode p.sha256_digest p.quote stringify indented sign p.millis btoa zip keys
          capture_date (manifest_of contents) contents (obtained tsa) (obtained qualified_tsa)

    -- With signing keys `buildWacz` makes a bundle, and `verifyWacz` with the public key of these keys
    -- verifies it, provided that the archive unzips to the files that were zipped, both manifests parse to
    -- what was printed, the signature is no empty text and verifies, and each token that a TSA gave
    -- verifies for the bundle's hash.
    pub verify_wacz-build_wacz :
        p.unzip (zip archived) ≡ some archived
        → p.parse_json (p.encode (indented (manifest_of contents))) ≡ some (manifest_of contents)
        → p.parse_json (p.encode (indented (digest_of contents))) ≡ some (digest_of contents)
        → sign keys.private_key (p.encode (bundle_hash_of p (manifest_of contents))) ≢ []
        → p.verify_signature keys.public_key
            (p.encode (bundle_hash_of p (manifest_of contents)))
            (sign keys.private_key (p.encode (bundle_hash_of p (manifest_of contents))))
          ≡ some true
        → Stamps p (bundle_hash_of p (manifest_of contents)) (obtained tsa)
        → Stamps p (bundle_hash_of p (manifest_of contents)) (obtained qualified_tsa)
        → (b : Bundle) × (r : Report) × (build_wacz p.encode p.sha256_digest p.quote stringify
              indented sign p.millis btoa zip
              (some keys)
              parse_url
              url
              capture_date
              date
              ids
              artifacts
              settings
              tsa
              qualified_tsa
            ≡ some b)
          × (verify_wacz p b.wacz_bytes keys.public_key ≡ some r)
          × (r.verified ≡ true)
    unfolding build_wacz bundle_files digest_doc_of prop find_member text_eq
    verify_wacz-build_wacz u e f n g v w =
        let signature =
          sign keys.private_key (p.encode (bundle_hash_of p (manifest_of contents))) in
        let (r, h, t) =
          manifests_pass keys.public_key url capture_date settings contents
            (p.encode (indented (manifest_of contents))) (p.encode (indented (digest_of contents)))
            signature (btoa keys.public_key) keys.key_id (obtained tsa) (obtained qualified_tsa)
            (signature_is_truthy p signature n) g v w in
        (
          bundle_with p.encode p.sha256_digest p.quote stringify indented sign p.millis btoa zip
              keys capture_date contents (manifest_of contents) tsa qualified_tsa,
          r,
          refl,
          verified_files keys.public_key (zip archived) (p.encode (indented (manifest_of contents)))
                (p.encode (indented (digest_of contents))) (manifest_of contents)
                (digest_of contents) contents u e f
              ∙ h,
          t,
        )
