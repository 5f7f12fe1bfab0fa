-- ===== src/Verify/Tests.antt =====
-- A small archive with one listed file and a self signature, which is verified.
use web_resource_ledger.Prelude.{
  ℕ, refl, List, [], ◌∷◌, ◌++◌, Option, none, some, Bool, true, length, ◌%◌, if◌then◌else◌,
}
use mathlib.Core.Option
use web_resource_ledger.Prelude.Texts.{Text, codes, text_eq, hex, join}
use web_resource_ledger.Prelude.Results.{all_four}
use web_resource_ledger.Prelude.Sorting.{sort_pairs, insert_pair, text_lt}
use web_resource_ledger.Json.{
  Json, string, array, object, no_elements, element, no_members, member, find_member, canonicalize,
}
use web_resource_ledger.Warc.{sha256}
use web_resource_ledger.Verify.{
  Platform, check_resources, check_artifacts, check_bundle_hash, self_signature, check_signature,
  check_timestamp, check_qualified, check_with, check_manifests, read_manifests, verify_files,
  verify_wacz,
}
use web_resource_ledger.Verify.Values.{
  Files, Report, passed, skipped, artifact_hashes, find_file, prop, is_truthy, is_string, find_type,
  find_signature,
}
use web_resource_ledger.Verify.Authentic.{IsVerified, verify_wacz-IsVerified}

abbrev ascii : Text → List ℕ
ascii t = t

abbrev digest : List ℕ → List ℕ
digest bytes = (length bytes % 256) ∷ []

abbrev plain : Text → Text
plain t = t

abbrev coerced : Json → Text
coerced j = []

abbrev verify_signature : List ℕ → List ℕ → Text → Option Bool
verify_signature key message signature = some (text_eq signature (key ++ message))

abbrev decode : Text → Option (List ℕ)
decode t = some t

abbrev unzip : List ℕ → Option Files
unzip bytes = some (
    (codes "datapackage.json", codes "D")
    ∷ (codes "datapackage-digest.json", codes "S")
    ∷ (codes "a", 1 ∷ 2 ∷ 3 ∷ [])
    ∷ [])

abbrev manifest : Json
manifest = object (
    member (codes "resources")
      (array (
        element
          (object (
            member (codes "path") (string (codes "a"))
              (member (codes "hash") (string (codes "sha256:03")) no_members)))
          no_elements))
      no_members)

abbrev digest_doc : Json
digest_doc = object (
    member (codes "signedData")
      (object (
        member (codes "hash") (string (codes "sha256:25")) (
          member (codes "version") (string (codes "0.2.0")) (
            member (codes "signatures")
              (array (
                element
                  (object (
                    member (codes "type") (string (codes "self"))
                      (member (codes "signature") (string (codes "key-sha256:25")) no_members)))
                  no_elements))
              no_members))))
      no_members)

abbrev parse_json : List ℕ → Option Json
parse_json bytes = if text_eq bytes (codes "D") then some manifest else some digest_doc

abbrev report : Report
report = record {
  verified = true;
  checks =
      passed artifact_hashes
      ∷ passed (codes "bundleHash")
      ∷ passed (codes "signature")
      ∷ skipped (codes "timestamp") (codes "No independent timestamp was obtained for this capture")
      ∷ [];
  capture = some (record {
    bundle_hash = some (string (codes "sha256:25"));
    signature = some (string (codes "key-sha256:25"));
    public_key = none;
    signed_at = none;
    timestamp = none;
    qualified_timestamp = none;
  });
}

abbrev platform : Platform
platform = record {
  unzip = unzip;
  parse_json = parse_json;
  encode = ascii;
  sha256_digest = digest;
  quote = plain;
  coerce = coerced;
  verify_signature = verify_signature;
  millis = plain;
  atob = decode;
}

verify_wacz-IsVerified_example : IsVerified platform (codes "key-") (codes "PK")
unfolding verify_wacz verify_files read_manifests check_manifests check_with check_artifacts
    check_resources check_bundle_hash check_signature check_timestamp check_qualified self_signature
    find_signature find_type find_file prop find_member is_truthy is_string text_eq sha256
    canonicalize sort_pairs all_four Option.bind hex join insert_pair text_lt
verify_wacz-IsVerified_example =
    verify_wacz-IsVerified platform (codes "PK") (codes "key-") report refl refl
