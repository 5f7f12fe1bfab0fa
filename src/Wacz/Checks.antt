-- ===== src/Wacz/Checks.antt =====
-- src/wacz.js with src/verify.js: each check at what `buildWacz` makes.
use web_resource_ledger.Prelude.{ℕ, ◌≡◌, ◌≢◌, refl, List, [], ◌∷◌, Option, none, some, true}
use web_resource_ledger.Prelude.Texts.{Text, codes, text_eq, text_eq_iff}
use web_resource_ledger.Json.{
  Json, string, object, member, find_member, canonicalize, Elements, no_members,
}
use web_resource_ledger.Warc.{sha256}
use web_resource_ledger.Timestamp.Response.{Stamp, valid, verify_timestamp}
use web_resource_ledger.Verify.{
  Platform, check_resources, check_artifacts, check_bundle_hash, self_signature, check_signature,
  entry_verdict, entry_check, check_timestamp, check_qualified,
}
use web_resource_ledger.Verify.Values.{
  Check, TimestampData, find_file, prop, is_truthy, is_string, find_type, find_signature, passed,
  skipped, artifact_hashes,
}
use web_resource_ledger.Wacz.{Contents, datapackage_of, signatures_of, signed_data_of, files_of}

text_eq_refl : (t : Text) → text_eq t t ≡ true
text_eq_refl t = (text_eq_iff t t).1 refl

module _ (p : Platform) where
  abbrev pub hash_of : List ℕ → Text
  hash_of = sha256 p.encode p.sha256_digest

  abbrev pub bundle_hash_of : Json → Text
  bundle_hash_of datapackage = hash_of (p.encode (canonicalize p.quote datapackage))

  pub artifacts_pass :
      (url capture_date : Text) (settings : Option Json) (c : Contents)
      (dp_bytes digest_bytes : List ℕ)
      → check_artifacts p
          (files_of dp_bytes digest_bytes c)
          (datapackage_of hash_of url capture_date settings c)
        ≡ some (passed artifact_hashes)
  unfolding check_artifacts check_resources datapackage_of files_of prop find_member find_file
      is_string text_eq
  artifacts_pass url capture_date none c dp_bytes digest_bytes = rw (
    text_eq_refl (hash_of c.warc_bytes),
    text_eq_refl (hash_of c.cdxj_bytes),
    text_eq_refl (hash_of c.pages_bytes),
  )
  artifacts_pass url capture_date (some s) c dp_bytes digest_bytes = rw (
    text_eq_refl (hash_of c.warc_bytes),
    text_eq_refl (hash_of c.cdxj_bytes),
    text_eq_refl (hash_of c.pages_bytes),
  )

  sha256-is_truthy : (bytes : List ℕ) → is_truthy (some (string (hash_of bytes))) ≡ true
  unfolding is_truthy sha256
  sha256-is_truthy bytes = refl

  pub bundle_hash_pass :
      (datapackage : Json) (capture_date : Text) (signatures : Elements)
      → check_bundle_hash p datapackage
          (some (signed_data_of (bundle_hash_of datapackage) capture_date signatures))
        ≡ passed (codes "bundleHash")
  unfolding check_bundle_hash prop find_member is_string text_eq
  bundle_hash_pass datapackage capture_date signatures = rw (
    sha256-is_truthy (p.encode (canonicalize p.quote datapackage)),
    text_eq_refl (bundle_hash_of datapackage),
  )

  abbrev pub self_entry : (signature public_key key_id : Text) → Json
  self_entry signature public_key key_id = object (
      member (codes "type") (string (codes "self")) (
        member (codes "signature") (string signature) (
          member (codes "publicKey") (string public_key)
            (member (codes "keyId") (string key_id) no_members))))

  pub signature_is_truthy : (t : Text) → t ≢ [] → is_truthy (some (string t)) ≡ true
  unfolding is_truthy
  signature_is_truthy [] n = absurd (n refl)
  signature_is_truthy (c ∷ t) n = refl

  pub self_found :
      (bundle_hash capture_date signature public_key key_id : Text) (stamp qualified : Option Stamp)
      → self_signature p (
          some (
            signed_data_of bundle_hash capture_date
              (signatures_of signature public_key key_id stamp qualified)))
        ≡ some (some (self_entry signature public_key key_id))
  unfolding self_signature find_signature find_type prop find_member is_string text_eq signatures_of
  self_found bundle_hash capture_date signature public_key key_id stamp qualified = refl

  pub signature_pass :
      (key : List ℕ) (bundle_hash capture_date signature public_key key_id : Text)
      (signatures : Elements)
      → is_truthy (some (string signature)) ≡ true
      → p.verify_signature key (p.encode bundle_hash) signature ≡ some true
      → check_signature p key
          (some (signed_data_of bundle_hash capture_date signatures))
          (some (self_entry signature public_key key_id))
        ≡ some (passed (codes "signature"))
  unfolding check_signature prop find_member text_eq
  signature_pass key bundle_hash capture_date signature public_key key_id signatures t v = rw (t, v)

  -- A token that was obtained verifies for the hash.
  abbrev pub Stamps : Text → Option Stamp → Type 0
  Stamps bundle_hash none = Unit {0}
  Stamps bundle_hash (some stamp) =
      (gen_time : Text) × (verify_timestamp p.millis p.atob stamp.token bundle_hash
        ≡ valid gen_time)

  abbrev pub standard_result :
      (bundle_hash : Text)
      → (stamp : Option Stamp) → Stamps bundle_hash stamp
      → List Check × Option TimestampData
  standard_result bundle_hash none v = (
    skipped (codes "timestamp") (codes "No independent timestamp was obtained for this capture")
        ∷ [],
    none,
  )
  standard_result bundle_hash (some stamp) v = (
    passed (codes "timestamp") ∷ [],
    some (record { gen_time = v.0; tsa = some (string stamp.tsa) }),
  )

  abbrev pub qualified_result :
      (bundle_hash : Text)
      → (stamp : Option Stamp) → Stamps bundle_hash stamp
      → List Check × Option TimestampData
  qualified_result bundle_hash none v = ([], none)
  qualified_result bundle_hash (some stamp) v = (
    passed (codes "qualifiedTimestamp") ∷ [],
    some (record { gen_time = v.0; tsa = some (string stamp.tsa) }),
  )

  pub standard_stamp :
      (bundle_hash capture_date signature public_key key_id : Text) (stamp qualified : Option Stamp)
      (v : Stamps bundle_hash stamp)
      → check_timestamp p (
          some (
            signed_data_of bundle_hash capture_date
              (signatures_of signature public_key key_id stamp qualified)))
        ≡ some (standard_result bundle_hash stamp v)
  unfolding check_timestamp find_signature find_type prop find_member is_string text_eq
      signatures_of
  standard_stamp bundle_hash capture_date signature public_key key_id none none v = refl
  standard_stamp bundle_hash capture_date signature public_key key_id none (some q) v = refl
  standard_stamp bundle_hash capture_date signature public_key key_id (some s) qualified v =
      rw (v.1, entry_verdict, entry_check)

  pub qualified_stamp :
      (bundle_hash capture_date signature public_key key_id : Text) (stamp qualified : Option Stamp)
      (v : Stamps bundle_hash qualified)
      → check_qualified p (
          some (
            signed_data_of bundle_hash capture_date
              (signatures_of signature public_key key_id stamp qualified)))
        ≡ some (qualified_result bundle_hash qualified v)
  unfolding check_qualified find_signature find_type prop find_member is_string text_eq
      signatures_of
  qualified_stamp bundle_hash capture_date signature public_key key_id none none v = refl
  qualified_stamp bundle_hash capture_date signature public_key key_id (some s) none v = refl
  qualified_stamp bundle_hash capture_date signature public_key key_id none (some q) v =
      rw (v.1, entry_verdict, entry_check)
  qualified_stamp bundle_hash capture_date signature public_key key_id (some s) (some q) v =
      rw (v.1, entry_verdict, entry_check)
