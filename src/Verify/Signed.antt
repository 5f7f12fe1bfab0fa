-- ===== src/Verify/Signed.antt =====
-- src/verify.js: the checks of the hash, of the signature and of the timestamps.

use web_resource_ledger.Prelude.{
  ℕ, ◌≡◌, refl, ap, ◌∙◌, List, [], ◌∷◌, Option, none, some, Bool, true, false, inl, inr, all,
  Bool-cases, Option-cases,
}
use web_resource_ledger.Prelude.Texts.{Text, codes}
use web_resource_ledger.Json.{Json, string, canonicalize}
use web_resource_ledger.Timestamp.Response.{Verdict, valid, invalid, verify_timestamp}
use web_resource_ledger.Verify.{
  Platform, check_bundle_hash, hash_string, signature_result, check_signature, entry_verdict,
  entry_check, on_entry, check_timestamp, check_qualified,
}
use web_resource_ledger.Verify.Values.{
  Check, TimestampData, prop, is_truthy, is_string, find_signature, failed, is_tolerated,
  is_version_2,
}
use web_resource_ledger.Verify.Listed.{is_string-eq, hash_of, texted}

module _ (p : Platform) where
  -- The hash of the canonical text of the manifest, which is what was signed.
  abbrev pub bundle_hash_of : Json → Text
  bundle_hash_of datapackage = hash_of p (p.encode (canonicalize p.quote datapackage))

  pub bundle_hash_passed :
      (datapackage : Json) (signed_data : Option Json)
      → is_tolerated (check_bundle_hash p datapackage signed_data) ≡ true
      → prop (codes "hash") signed_data ≡ some (string (bundle_hash_of datapackage))
  unfolding check_bundle_hash
  bundle_hash_passed datapackage signed_data t =
      elim (Bool-cases (is_truthy (prop (codes "hash") signed_data))) [
        | inr e ↦ let k : false ≡ true = rw (e, check_bundle_hash) at t in cc
        | inl e ↦
            elim (Bool-cases
              (is_string (prop (codes "hash") signed_data) (bundle_hash_of datapackage))) [
                | inl f ↦ is_string-eq _ _ f
                | inr f ↦ let k : false ≡ true = rw (e, f, check_bundle_hash) at t in cc
              ]
      ]

  signature_passed :
      (r : Option Bool) (c : Check)
      → signature_result p r ≡ some c
      → is_tolerated c ≡ true
      → r ≡ some true
  signature_passed none c h t = cc
  signature_passed (some true) c h t = refl
  signature_passed (some false) c h t =
      let k : failed (codes "signature") (codes "Ed25519 signature verification failed") ≡ c = cc in
      let impossible : false ≡ true = ap is_tolerated k ∙ t in cc

  pub check_signature-signed :
      (public_key : List ℕ) (signed_data self_sig : Option Json) (c : Check)
      → check_signature p public_key signed_data self_sig ≡ some c
      → is_tolerated c ≡ true
      → p.verify_signature public_key
          (p.encode (hash_string p signed_data))
          (texted p (prop (codes "signature") self_sig))
        ≡ some true
  unfolding check_signature
  check_signature-signed public_key signed_data self_sig c h t =
      elim (Bool-cases (is_truthy (prop (codes "signature") self_sig))) [
        | inr e ↦
            let k : some (
                  failed (codes "signature")
                    (codes "signedData.signature missing from datapackage-digest.json"))
                ≡ some c =
              rw (e, check_signature) at h in
            let same : failed (codes "signature")
                  (codes "signedData.signature missing from datapackage-digest.json")
                ≡ c =
              cc in
            let impossible : false ≡ true = ap is_tolerated same ∙ t in cc
        | inl e ↦ signature_passed _ c (rw (e, check_signature) at h) t
      ]

  -- An entry for a timestamp has a token that is valid for the signed hash.
  verdict_valid :
      (signed_data : Option Json) (hash gen_time : Text) (entry : Json)
      → prop (codes "hash") signed_data ≡ some (string hash)
      → entry_verdict p signed_data entry ≡ some gen_time
      → verify_timestamp p.millis p.atob (texted p (prop (codes "token") (some entry))) hash
        ≡ valid gen_time
  verdict_valid signed_data hash gen_time entry e h =
      by_verdict
        (verify_timestamp p.millis p.atob (texted p (prop (codes "token") (some entry))) hash) refl
    where
      by_verdict :
          (v : Verdict)
          → verify_timestamp p.millis p.atob (texted p (prop (codes "token") (some entry))) hash ≡ v
          → verify_timestamp p.millis p.atob (texted p (prop (codes "token") (some entry))) hash
            ≡ valid gen_time
      by_verdict (valid g) f =
          let k : some g ≡ some gen_time = rw (e, f, entry_verdict) at h in f ∙ cc
      by_verdict (invalid reason) f =
          let k : none ≡ some gen_time = rw (e, f, entry_verdict) at h in cc

  entry_passed :
      (absent : List Check) (name detail : Text) (signed_data : Option Json)
      (found : Option (Option Json)) (r : List Check × Option TimestampData) (entry : Json)
      → on_entry p absent name detail signed_data found ≡ some r
      → all is_tolerated r.0 ≡ true
      → found ≡ some (some entry)
      → (gen_time : Text) × (entry_verdict p signed_data entry ≡ some gen_time)
  entry_passed absent name detail signed_data found r entry h t e =
      elim (Option-cases (entry_verdict p signed_data entry)) [
        | inr (gen_time, f) ↦ (gen_time, f)
        | inl f ↦
            let k : some (failed name detail ∷ [], none) ≡ some r =
              rw (e, f, on_entry, entry_check) at h in
            let same : (failed name detail ∷ [], none) ≡ r = cc in
            let impossible : false ≡ true = ap (λ q. all is_tolerated q.0) same ∙ t in cc
      ]

  pub stamps_passed :
      (signed_data : Option Json) (hash : Text)
      → prop (codes "hash") signed_data ≡ some (string hash)
      → is_version_2 signed_data ≡ true
      → (r : List Check × Option TimestampData) (entry : Json)
      → check_timestamp p signed_data ≡ some r
      → all is_tolerated r.0 ≡ true
      → find_signature (codes "rfc3161") signed_data ≡ some (some entry)
      → (gen_time : Text) × (verify_timestamp p.millis p.atob
            (texted p (prop (codes "token") (some entry)))
            hash
          ≡ valid gen_time)
  unfolding check_timestamp
  stamps_passed signed_data hash e v r entry h t f =
      let (gen_time, g) =
        entry_passed _ _ _ signed_data _ r entry (rw (v, check_timestamp) at h) t f in
      (gen_time, verdict_valid signed_data hash gen_time entry e g)

  pub qualified_passed :
      (signed_data : Option Json) (hash : Text)
      → prop (codes "hash") signed_data ≡ some (string hash)
      → is_version_2 signed_data ≡ true
      → (r : List Check × Option TimestampData) (entry : Json)
      → check_qualified p signed_data ≡ some r
      → all is_tolerated r.0 ≡ true
      → find_signature (codes "rfc3161_qualified") signed_data ≡ some (some entry)
      → (gen_time : Text) × (verify_timestamp p.millis p.atob
            (texted p (prop (codes "token") (some entry)))
            hash
          ≡ valid gen_time)
  unfolding check_qualified
  qualified_passed signed_data hash e v r entry h t f =
      let (gen_time, g) =
        entry_passed _ _ _ signed_data _ r entry (rw (v, check_qualified) at h) t f in
      (gen_time, verdict_valid signed_data hash gen_time entry e g)

  pub signed_hash :
      (signed_data : Option Json) (hash : Text)
      → prop (codes "hash") signed_data ≡ some (string hash)
      → hash_string p signed_data ≡ hash
  signed_hash signed_data hash e = rw (e, hash_string)
