-- ===== src/Verify/Listed.antt =====
-- src/verify.js: the check of the listed files.

use web_resource_ledger.Prelude.{
  ℕ, ◌≡◌, refl, ap, ◌∙◌, List, Option, none, some, Bool, true, false, inl, inr, Bool-cases,
  Option-cases,
}
use web_resource_ledger.Prelude.Texts.{Text, codes, text_eq_iff}
use web_resource_ledger.Json.{
  Json, null, boolean, number, string, array, object, Elements, no_elements, element,
}
use web_resource_ledger.Warc.{sha256}
use web_resource_ledger.Verify.{
  Platform, text_of, check_resources, resources_check, check_artifacts,
}
use web_resource_ledger.Verify.Values.{
  Files, Check, find_file, prop, is_null, is_string, failed, artifact_hashes, is_tolerated,
}

-- A JSON value that is a given text.
pub is_string-eq : (v : Option Json) (t : Text) → is_string v t ≡ true → v ≡ some (string t)
unfolding is_string
is_string-eq none t h = cc
is_string-eq (some (string s)) t h = ap (λ u. some (string u)) ((text_eq_iff s t).0 h)
is_string-eq (some null) t h = cc
is_string-eq (some (boolean b)) t h = cc
is_string-eq (some (number s)) t h = cc
is_string-eq (some (array es)) t h = cc
is_string-eq (some (object ms)) t h = cc

module _ (p : Platform) where
  abbrev pub hash_of : List ℕ → Text
  hash_of = sha256 p.encode p.sha256_digest

  abbrev pub texted : Option Json → Text
  texted = text_of p

  -- Every listed file is in the archive, with the hash that is listed for it.
  abbrev pub AllListed : Files → Elements → Type 0
  AllListed files no_elements = Unit {0}
  AllListed files (element resource resources) =
      ((bytes : List ℕ) × (find_file (texted (prop (codes "path") (some resource))) files
          ≡ some bytes)
        × (prop (codes "hash") (some resource) ≡ some (string (hash_of bytes))))
      × AllListed files resources

  check_resources-AllListed :
      (files : Files) (resources : Elements)
      → check_resources p files resources ≡ some true
      → AllListed files resources
  unfolding check_resources
  check_resources-AllListed files no_elements h = tt
  check_resources-AllListed files (element resource resources) h =
      elim (Bool-cases (is_null resource)) [
        | inl e ↦ let k : none ≡ some true = rw (e, check_resources) at h in cc
        | inr e ↦
            elim (Option-cases (find_file (texted (prop (codes "path") (some resource))) files)) [
              | inl f ↦ let k : some false ≡ some true = rw (e, f, check_resources) at h in cc
              | inr (bytes, f) ↦
                  elim (Bool-cases
                    (is_string (prop (codes "hash") (some resource)) (hash_of bytes))) [
                      | inr g ↦
                          let k : some false ≡ some true = rw (e, f, g, check_resources) at h in cc
                      | inl g ↦ (
                        (bytes, f, is_string-eq _ _ g),
                        check_resources-AllListed files resources
                            (rw (e, f, g, check_resources) at h),
                      )
                    ]
            ]
      ]

  -- The archive lists files, and they are as listed.
  pub record IsIntact (files : Files) (datapackage : Json) : Type 0 where
    pub first : Json
    pub others : Elements
    pub listed : prop (codes "resources") (some datapackage) ≡ some (array (element first others))
    pub as_listed : AllListed files (element first others)

  resources_passed :
      (r : Option Bool) (c : Check)
      → resources_check p r ≡ some c
      → is_tolerated c ≡ true
      → r ≡ some true
  resources_passed none c h t = cc
  resources_passed (some true) c h t = refl
  resources_passed (some false) c h t =
      let k : failed artifact_hashes (codes "One or more artifact hashes do not match") ≡ c = cc in
      let impossible : false ≡ true = ap is_tolerated k ∙ t in cc

  pub check_artifacts-IsIntact :
      (files : Files) (datapackage : Json) (c : Check)
      → check_artifacts p files datapackage ≡ some c
      → is_tolerated c ≡ true
      → IsIntact files datapackage
  unfolding check_artifacts
  check_artifacts-IsIntact files datapackage c h t =
      by_resources (prop (codes "resources") (some datapackage)) refl
    where
      not_listed :
          some (failed artifact_hashes (codes "No resources listed in datapackage.json")) ≡ some c
          → IsIntact files datapackage
      not_listed k =
          let same : failed artifact_hashes (codes "No resources listed in datapackage.json") ≡ c =
            cc in
          let impossible : false ≡ true = ap is_tolerated same ∙ t in cc

      by_resources :
          (v : Option Json)
          → prop (codes "resources") (some datapackage) ≡ v
          → IsIntact files datapackage
      by_resources none e = not_listed (rw (e, check_artifacts) at h)
      by_resources (some null) e = not_listed (rw (e, check_artifacts) at h)
      by_resources (some (boolean b)) e = not_listed (rw (e, check_artifacts) at h)
      by_resources (some (number s)) e = not_listed (rw (e, check_artifacts) at h)
      by_resources (some (string s)) e = not_listed (rw (e, check_artifacts) at h)
      by_resources (some (object ms)) e = not_listed (rw (e, check_artifacts) at h)
      by_resources (some (array no_elements)) e = not_listed (rw (e, check_artifacts) at h)
      by_resources (some (array (element first others))) e = record {
        first = first;
        others = others;
        listed = e;
        as_listed =
            check_resources-AllListed files (element first others)
              (resources_passed _ c (rw (e, check_artifacts) at h) t);
      }
