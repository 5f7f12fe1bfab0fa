-- ===== src/Verify/Authentic.antt =====
-- src/verify.js: what a verified bundle is known to be.
use mathlib.Core.Option.{some-injective}
use web_resource_ledger.Prelude.{
  ℕ, ◌≡◌, refl, ap, ap₂, ◌∙◌, subst, List, [], ◌∷◌, ◌++◌, Option, some, Bool, true, false, ◌⊎◌, inl,
  inr, ◌&&◌, all, Option-cases, arith,
}
use web_resource_ledger.Prelude.Results.{bind-eq-some, map-eq-some, all_four-eq-some}
use web_resource_ledger.Prelude.Texts.{Text, codes}
use web_resource_ledger.Json.{Json}
use web_resource_ledger.Timestamp.Response.{valid, verify_timestamp}
use web_resource_ledger.Verify.{
  Platform, check_bundle_hash, self_signature, assemble, check_with, check_manifests,
  read_manifests, verify_files, verify_wacz,
}
use web_resource_ledger.Verify.Values.{
  Files, Check, Report, find_file, prop, find_signature, unreadable, is_tolerated, is_version_2,
}
use web_resource_ledger.Verify.Listed.{texted, IsIntact, check_artifacts-IsIntact}
use web_resource_ledger.Verify.Signed.{
  bundle_hash_of, bundle_hash_passed, check_signature-signed, stamps_passed, qualified_passed,
  signed_hash,
}

and-left : (a b : Bool) → (a && b) ≡ true → a ≡ true
and-left a b h = ground arith

and-right : (a b : Bool) → (a && b) ≡ true → b ≡ true
and-right a b h = ground arith

module _ (p : Platform) where
  -- What the operator's key and the manifests say of a verified bundle.
  pub record IsAuthentic (public_key : List ℕ) (files : Files) (datapackage : Json)
      (signed_data : Option Json) : Type 0 where
    pub intact : IsIntact p files datapackage
    pub self_sig : Option Json
    pub is_self : self_signature p signed_data ≡ some self_sig
    pub signed :
        p.verify_signature public_key
          (p.encode (bundle_hash_of p datapackage))
          (texted p (prop (codes "signature") self_sig))
        ≡ some true
    pub timestamped :
        (type : Text)
        → (type ≡ codes "rfc3161") ⊎ (type ≡ codes "rfc3161_qualified")
        → (entry : Json) → is_version_2 signed_data ≡ true
        → find_signature type signed_data ≡ some (some entry)
        → (gen_time : Text) × (verify_timestamp p.millis p.atob
              (texted p (prop (codes "token") (some entry)))
              (bundle_hash_of p datapackage)
            ≡ valid gen_time)

  pub checks_passed :
      (xs ys : List Check)
      → all is_tolerated (xs ++ ys) ≡ true
      → (all is_tolerated xs ≡ true) × (all is_tolerated ys ≡ true)
  checks_passed [] ys h = (refl, h)
  checks_passed (x ∷ xs) ys h =
      let rest = checks_passed xs ys (and-right (is_tolerated x) (all is_tolerated (xs ++ ys)) h) in
      let here = and-left (is_tolerated x) (all is_tolerated (xs ++ ys)) h in
      (ap₂ (λ a b. a && b) here rest.0, rest.1)

  pub parts_passed :
      (a b c : Check) (xs ys : List Check)
      → all is_tolerated (a ∷ b ∷ c ∷ xs ++ ys) ≡ true
      → (is_tolerated a ≡ true)
        × (is_tolerated b ≡ true)
        × (is_tolerated c ≡ true)
        × (all is_tolerated xs ≡ true)
        × (all is_tolerated ys ≡ true)
  parts_passed a b c xs ys h =
      let rest = all is_tolerated (xs ++ ys) in
      let h1 = and-right (is_tolerated a) (is_tolerated b && (is_tolerated c && rest)) h in
      let h2 = and-right (is_tolerated b) (is_tolerated c && rest) h1 in
      let h3 = and-right (is_tolerated c) rest h2 in
      let split = checks_passed xs ys h3 in
      (
        and-left (is_tolerated a) (is_tolerated b && (is_tolerated c && rest)) h,
        and-left (is_tolerated b) (is_tolerated c && rest) h1,
        and-left (is_tolerated c) rest h2,
        split.0,
        split.1,
      )

  check_with-IsAuthentic :
      (public_key : List ℕ) (files : Files) (datapackage : Json)
      (signed_data self_sig : Option Json) (r : Report)
      → self_signature p signed_data ≡ some self_sig
      → check_with p public_key files datapackage signed_data self_sig ≡ some r
      → r.verified ≡ true
      → IsAuthentic public_key files datapackage signed_data
  unfolding check_with
  check_with-IsAuthentic public_key files datapackage signed_data self_sig r s h v =
      let ((artifacts, signature, stamped, qualified), h4, e) =
        map-eq-some (assemble p datapackage signed_data self_sig) _ r h in
      let (ha, hs, ht, hq) = all_four-eq-some _ _ _ _ artifacts signature stamped qualified h4 in
      let bundle = check_bundle_hash p datapackage signed_data in
      let (pa, pb, ps, pt, pq) =
        parts_passed artifacts bundle signature stamped.0 qualified.0 (ap Report.verified e ∙ v) in
      let hash = bundle_hash_passed p datapackage signed_data pb in
      record {
        intact = check_artifacts-IsIntact p files datapackage artifacts ha pa;
        self_sig = self_sig;
        is_self = s;
        signed =
            subst
              (λ t.
                p.verify_signature public_key (p.encode t)
                  (texted p (prop (codes "signature") self_sig))
                ≡ some true)
              (signed_hash p signed_data _ hash)
              (check_signature-signed p public_key signed_data self_sig signature hs ps);
        timestamped = λ type which entry version found. elim which [
          | inl w ↦
              stamps_passed p signed_data _ hash version stamped entry ht pt
                (subst (λ t. find_signature t signed_data ≡ some (some entry)) w found)
          | inr w ↦
              qualified_passed p signed_data _ hash version qualified entry hq pq
                (subst (λ t. find_signature t signed_data ≡ some (some entry)) w found)
        ];
      }

  -- What a report says of an archive when it is verified.
  pub record IsVerified (public_key : List ℕ) (wacz_bytes : List ℕ) : Type 0 where
    pub files : Files
    pub unzipped : p.unzip wacz_bytes ≡ some files
    pub dp_raw : List ℕ
    pub digest_raw : List ℕ
    pub has_datapackage : find_file (codes "datapackage.json") files ≡ some dp_raw
    pub has_digest : find_file (codes "datapackage-digest.json") files ≡ some digest_raw
    pub datapackage : Json
    pub digest : Json
    pub datapackage_parsed : p.parse_json dp_raw ≡ some datapackage
    pub digest_parsed : p.parse_json digest_raw ≡ some digest
    pub authentic :
        IsAuthentic public_key files datapackage (prop (codes "signedData") (some digest))

  not_verified :
      {A : Type 0} (first : Check) (detail : Text) (r : Report)
      → some (unreadable first detail) ≡ some r
      → r.verified ≡ true
      → A
  not_verified first detail r h v =
      let k : false ≡ true = ap Report.verified (some-injective _ _ h) ∙ v in cc

  -- When `verifyWacz` reports an archive as verified, the archive unzips and both of its manifests are
  -- there and parse; datapackage.json lists at least one file, and every file it lists is in the
  -- archive with the SHA-256 listed for it; the self signature is one by the operator's key over the
  -- hash of the canonical datapackage.json; and in version 0.2.0 each of the two timestamps that is
  -- there has a token that is valid for that same hash.
  pub verify_wacz-IsVerified :
      (wacz_bytes public_key : List ℕ) (r : Report)
      → verify_wacz p wacz_bytes public_key ≡ some r
      → r.verified ≡ true
      → IsVerified public_key wacz_bytes
  unfolding verify_wacz verify_files read_manifests check_manifests
  verify_wacz-IsVerified wacz_bytes public_key r h v = elim (Option-cases (p.unzip wacz_bytes)) [
    | inl e ↦ not_verified _ _ r (rw (e, verify_wacz, verify_files, read_manifests) at h) v
    | inr (files, e) ↦ elim (Option-cases (find_file (codes "datapackage.json") files)) [
      | inl f ↦ not_verified _ _ r (rw (e, f, verify_wacz, verify_files, read_manifests) at h) v
      | inr (dp_raw, f) ↦ elim (Option-cases (find_file (codes "datapackage-digest.json") files)) [
        | inl g ↦
            not_verified _ _ r (rw (e, f, g, verify_wacz, verify_files, read_manifests) at h) v
        | inr (digest_raw, g) ↦ elim (Option-cases (p.parse_json dp_raw)) [
          | inl i ↦
              not_verified _ _ r (rw (e, f, g, i, verify_wacz, verify_files, read_manifests) at h) v
          | inr (datapackage, i) ↦ elim (Option-cases (p.parse_json digest_raw)) [
            | inl j ↦
                not_verified _ _ r
                  (rw (e, f, g, i, j, verify_wacz, verify_files, read_manifests) at h) v
            | inr (digest, j) ↦
                let k : check_manifests p public_key files datapackage
                      (prop (codes "signedData") (some digest))
                    ≡ some r =
                  rw (e, f, g, i, j, verify_wacz, verify_files, read_manifests) at h in
                let (self_sig, s, rest) = bind-eq-some _ _ k in
                record {
                  files = files;
                  unzipped = e;
                  dp_raw = dp_raw;
                  digest_raw = digest_raw;
                  has_datapackage = f;
                  has_digest = g;
                  datapackage = datapackage;
                  digest = digest;
                  datapackage_parsed = i;
                  digest_parsed = j;
                  authentic =
                      check_with-IsAuthentic public_key files datapackage _ self_sig r s rest v;
                }
          ]
        ]
      ]
    ]
  ]
