-- ===== src/Verify.antt =====
-- src/verify.js: `verifyWacz`. The ZIP reader, the JSON parser, the hash function and the check of an
-- Ed25519 signature are parameters; `none` stands for what they throw. JSON values are used as the
-- source uses them: a missing member is undefined, and a member of null throws.
pub mod Authentic
pub mod Listed
pub mod Signed
pub mod Values
mod Tests
use web_resource_ledger.Prelude.{
  ℕ, List, [], ◌∷◌, ◌++◌, Option, none, some, Bool, true, false, not, ◌&&◌, ◌||◌, if◌then◌else◌,
  all,
}
use mathlib.Core.Option
use web_resource_ledger.Prelude.Results.{all_four}
use web_resource_ledger.Prelude.Texts.{Text, codes, text_eq}
use web_resource_ledger.Json.{
  Json, null, boolean, number, string, array, object, Elements, no_elements, element, find_member,
  canonicalize,
}
use web_resource_ledger.Warc.{sha256}
use web_resource_ledger.Timestamp.Response.{Verdict, valid, invalid, verify_timestamp}
use web_resource_ledger.Verify.Values.{
  Files, CheckStatus, Check, TimestampData, CaptureData, Report, find_file, prop, is_null, present,
  is_truthy, is_string, find_type, find_signature, passed, failed, skipped, artifact_hashes,
  unreadable, is_tolerated, is_version_2, text_or, pass, fail, skip,
}

-- What the source takes from elsewhere.
pub record Platform : Type 0 where
  pub unzip : List ℕ → Option Files
  pub parse_json : List ℕ → Option Json
  pub encode : Text → List ℕ
  pub sha256_digest : List ℕ → List ℕ
  pub quote : Text → Text
  pub coerce : Json → Text
  pub verify_signature : List ℕ → List ℕ → Text → Option Bool
  pub millis : Text → Text
  pub atob : Text → Option (List ℕ)

module _ (p : Platform) where
  -- `String(value)`; what an array or an object gives is `coerce`.
  abbrev pub text_of : Option Json → Text
  text_of none = codes "undefined"
  text_of (some j) = text_or (p.coerce j) j

  -- The loop of the first check: true when every listed file is there with its hash.
  unfoldable pub check_resources : Files → Elements → Option Bool
  check_resources files no_elements = some true
  check_resources files (element resource resources) =
      let rest = check_resources files resources in
      if is_null resource
      then none
      else (elim (find_file (text_of (prop (codes "path") (some resource))) files) [
        | none ↦ some false
        | some bytes ↦
            if is_string (prop (codes "hash") (some resource))
              (sha256 p.encode p.sha256_digest bytes)
            then rest
            else some false
      ])

  abbrev pub resources_check : Option Bool → Option Check
  resources_check none = none
  resources_check (some true) = some (passed artifact_hashes)
  resources_check (some false) =
      some (failed artifact_hashes (codes "One or more artifact hashes do not match"))

  unfoldable pub check_artifacts : Files → Json → Option Check
  check_artifacts files datapackage = elim (prop (codes "resources") (some datapackage)) [
    | none ↦ some (failed artifact_hashes (codes "No resources listed in datapackage.json"))
    | some resources ↦ elim resources [
      | array listed ↦ elim listed [
        | no_elements ↦
            some (failed artifact_hashes (codes "No resources listed in datapackage.json"))
        | element first others ↦ resources_check (check_resources files (element first others))
      ]
      | _ ↦ some (failed artifact_hashes (codes "No resources listed in datapackage.json"))
    ]
  ]

  unfoldable pub check_bundle_hash : Json → Option Json → Check
  check_bundle_hash datapackage signed_data =
      if not (is_truthy (prop (codes "hash") signed_data))
      then failed (codes "bundleHash")
          (codes "signedData.hash missing from datapackage-digest.json")
      else if is_string (prop (codes "hash") signed_data)
          (sha256 p.encode p.sha256_digest (p.encode (canonicalize p.quote datapackage)))
      then passed (codes "bundleHash")
      else failed (codes "bundleHash") (codes "Recomputed hash does not match stored bundleHash")

  -- `selfSig`
  unfoldable pub self_signature : Option Json → Option (Option Json)
  self_signature signed_data =
      if is_version_2 signed_data
      then find_signature (codes "self") signed_data
      else some signed_data

  abbrev pub hash_string : Option Json → Text
  hash_string signed_data = elim (present (prop (codes "hash") signed_data)) [
    | none ↦ []
    | some j ↦ text_of (some j)
  ]

  abbrev pub signature_result : Option Bool → Option Check
  signature_result none = none
  signature_result (some true) = some (passed (codes "signature"))
  signature_result (some false) =
      some (failed (codes "signature") (codes "Ed25519 signature verification failed"))

  unfoldable pub check_signature : List ℕ → Option Json → Option Json → Option Check
  check_signature public_key signed_data self_sig =
      let value = prop (codes "signature") self_sig in
      if not (is_truthy value)
      then some (
          failed (codes "signature")
            (codes "signedData.signature missing from datapackage-digest.json"))
      else signature_result
          (p.verify_signature public_key (p.encode (hash_string signed_data)) (text_of value))

  -- `verifyTimestamp(entry.token, signedData.hash)`; with a hash that is no text it finds no match, or
  -- throws and is caught, which is the same to its caller.
  abbrev pub entry_verdict : Option Json → Json → Option Text
  entry_verdict signed_data entry = elim (prop (codes "hash") signed_data) [
    | none ↦ none
    | some hash ↦ elim hash [
      | string h ↦
          elim (verify_timestamp p.millis p.atob (text_of (prop (codes "token") (some entry))) h) [
            | valid gen_time ↦ some gen_time
            | invalid reason ↦ none
          ]
      | _ ↦ none
    ]
  ]

  -- A check of a timestamp entry, with what it adds to the capture.
  abbrev pub entry_check : Text → Text → Option Json → Json → List Check × Option TimestampData
  entry_check name detail signed_data entry = elim (entry_verdict signed_data entry) [
    | some gen_time ↦ (
      passed name ∷ [],
      some (record { gen_time = gen_time; tsa = prop (codes "tsa") (some entry) }),
    )
    | none ↦ (failed name detail ∷ [], none)
  ]

  abbrev pub on_entry :
      List Check
      → Text
      → Text
      → Option Json
      → Option (Option Json)
      → Option (List Check × Option TimestampData)
  on_entry absent name detail signed_data none = none
  on_entry absent name detail signed_data (some none) = some (absent, none)
  on_entry absent name detail signed_data (some (some entry)) =
      some (entry_check name detail signed_data entry)

  unfoldable pub check_timestamp : Option Json → Option (List Check × Option TimestampData)
  check_timestamp signed_data =
      if is_version_2 signed_data
      then on_entry
          (skipped (codes "timestamp")
              (codes "No independent timestamp was obtained for this capture")
            ∷ [])
          (codes "timestamp") (codes "Independent timestamp verification failed") signed_data
          (find_signature (codes "rfc3161") signed_data)
      else some ([], none)

  unfoldable pub check_qualified : Option Json → Option (List Check × Option TimestampData)
  check_qualified signed_data =
      if is_version_2 signed_data
      then on_entry [] (codes "qualifiedTimestamp")
          (codes "Qualified timestamp structurally invalid") signed_data
          (find_signature (codes "rfc3161_qualified") signed_data)
      else some ([], none)

  abbrev pub capture_of :
      Option Json → Option Json → Option TimestampData → Option TimestampData → Option CaptureData
  capture_of signed_data self_sig timestamp qualified =
      if is_truthy signed_data
      then some (record {
        bundle_hash = present (prop (codes "hash") signed_data);
        signature = present (prop (codes "signature") self_sig);
        public_key = present (prop (codes "publicKey") self_sig);
        signed_at = present (prop (codes "created") signed_data);
        timestamp = timestamp;
        qualified_timestamp = qualified;
      })
      else none

  abbrev pub report_of : Option CaptureData → List Check → Report
  report_of capture checks = record {
    verified = all is_tolerated checks;
    checks = checks;
    capture = capture;
  }

  -- The checks with the signature found, in the report's order.
  abbrev pub assemble :
      Json
      → Option Json
      → Option Json
      → Check × Check × (List Check × Option TimestampData) × (List Check × Option TimestampData)
      → Report
  assemble datapackage signed_data self_sig (artifacts, signature, stamped, qualified) =
      report_of (capture_of signed_data self_sig stamped.1 qualified.1) (
        artifacts ∷ check_bundle_hash datapackage signed_data ∷ signature ∷ stamped.0
        ++ qualified.0)

  unfoldable pub check_with : List ℕ → Files → Json → Option Json → Option Json → Option Report
  check_with public_key files datapackage signed_data self_sig =
      Option.map (assemble datapackage signed_data self_sig) (
        all_four (check_artifacts files datapackage)
          (check_signature public_key signed_data self_sig) (check_timestamp signed_data)
          (check_qualified signed_data))

  -- The checks on the two manifests.
  unfoldable pub check_manifests : List ℕ → Files → Json → Option Json → Option Report
  check_manifests public_key files datapackage signed_data =
      Option.bind (self_signature signed_data) (check_with public_key files datapackage signed_data)

  -- Both manifests are parsed in one `try`.
  unfoldable pub read_manifests : List ℕ → Files → List ℕ → List ℕ → Option Report
  read_manifests public_key files dp_raw digest_raw = elim (p.parse_json dp_raw) [
    | none ↦ some (
        unreadable (failed artifact_hashes (codes "Manifest JSON is malformed"))
          (codes "Manifest JSON is malformed"))
    | some datapackage ↦ elim (p.parse_json digest_raw) [
      | none ↦ some (
          unreadable (failed artifact_hashes (codes "Manifest JSON is malformed"))
            (codes "Manifest JSON is malformed"))
      | some digest ↦
          check_manifests public_key files datapackage (prop (codes "signedData") (some digest))
    ]
  ]

  unfoldable pub verify_files : List ℕ → Files → Option Report
  verify_files public_key files = elim (find_file (codes "datapackage.json") files) [
    | none ↦ some (
        unreadable (failed artifact_hashes (codes "datapackage.json missing from WACZ"))
          (codes "datapackage.json missing from WACZ"))
    | some dp_raw ↦ elim (find_file (codes "datapackage-digest.json") files) [
      | none ↦ some (
          unreadable (skipped artifact_hashes [])
            (codes "datapackage-digest.json missing from WACZ"))
      | some digest_raw ↦ read_manifests public_key files dp_raw digest_raw
    ]
  ]

  -- `none` when `verifyWacz` throws.
  unfoldable pub verify_wacz : List ℕ → List ℕ → Option Report
  verify_wacz wacz_bytes public_key = elim (p.unzip wacz_bytes) [
    | none ↦ some (
        unreadable (failed artifact_hashes (codes "WACZ bundle is not a valid ZIP archive"))
          (codes "WACZ bundle is not a valid ZIP archive"))
    | some files ↦ verify_files public_key files
  ]
