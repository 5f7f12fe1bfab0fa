-- ===== src/Signing/Rotation.antt =====
-- src/signing.js: the cache is never seen.
use web_resource_ledger.Prelude.{
  ℕ, ◌≡◌, refl, ap, ap₂, sym, ◌∙◌, List, [], ◌∷◌, map, Option, none, some, Bool, true, false,
}
use web_resource_ledger.Prelude.Texts.{Text, text_eq, text_eq_iff}
use web_resource_ledger.Signing.{
  SigningKeys, Cache, import_keys, stored, refreshed, lookup_keys, get_signing_keys,
}

module _ (atob : Text → Option (List ℕ)) (export_spki : List ℕ → Option (List ℕ))
    (sha256_digest : List ℕ → List ℕ) where
  -- What a cache holds was imported.
  abbrev pub IsValid : Cache → Type 0
  IsValid none = Unit {0}
  IsValid (some (cached, keys)) = import_keys atob export_spki sha256_digest cached ≡ some keys

  -- The keys without a cache.
  abbrev pub keys_in : Option Text → Option SigningKeys
  keys_in none = none
  keys_in (some []) = none
  keys_in (some (c ∷ rest)) = import_keys atob export_spki sha256_digest (c ∷ rest)

  -- The results of a sequence of calls, each with the SIGNING_KEY of its time.
  unfoldable pub get_all : Cache → List (Option Text) → List (Option SigningKeys)
  get_all cache [] = []
  get_all cache (env ∷ envs) =
      let r = get_signing_keys atob export_spki sha256_digest cache env in r.1 ∷ get_all r.0 envs

  stored_lem :
      (cache : Cache) (t : Text) (k : Option SigningKeys)
      → IsValid cache
      → import_keys atob export_spki sha256_digest t ≡ k
      → IsValid (stored atob export_spki sha256_digest cache t k).0
        × ((stored atob export_spki sha256_digest cache t k).1 ≡ k)
  stored_lem cache t none v e = (v, refl)
  stored_lem cache t (some keys) v e = (e, refl)

  refreshed_lem :
      (b : Bool) (cached : Text) (keys : SigningKeys) (t : Text)
      → text_eq t cached ≡ b
      → IsValid (some (cached, keys))
      → IsValid (refreshed atob export_spki sha256_digest b cached keys t).0
        × ((refreshed atob export_spki sha256_digest b cached keys t).1
            ≡ import_keys atob export_spki sha256_digest t)
  refreshed_lem true cached keys t e v = (
    v,
    sym v ∙ ap (import_keys atob export_spki sha256_digest) (sym ((text_eq_iff t cached).0 e)),
  )
  refreshed_lem false cached keys t e v =
      stored_lem (some (cached, keys)) t (import_keys atob export_spki sha256_digest t) v refl

  lookup_keys_lem :
      (cache : Cache) (t : Text)
      → IsValid cache
      → IsValid (lookup_keys atob export_spki sha256_digest cache t).0
        × ((lookup_keys atob export_spki sha256_digest cache t).1
            ≡ import_keys atob export_spki sha256_digest t)
  lookup_keys_lem none t v = stored_lem none t (import_keys atob export_spki sha256_digest t) v refl
  lookup_keys_lem (some (cached, keys)) t v = refreshed_lem (text_eq t cached) cached keys t refl v

  get_signing_keys_lem :
      (cache : Cache) (env : Option Text)
      → IsValid cache
      → IsValid (get_signing_keys atob export_spki sha256_digest cache env).0
        × ((get_signing_keys atob export_spki sha256_digest cache env).1 ≡ keys_in env)
  unfolding get_signing_keys
  get_signing_keys_lem cache none v = (v, refl)
  get_signing_keys_lem cache (some []) v = (v, refl)
  get_signing_keys_lem cache (some (c ∷ rest)) v = lookup_keys_lem cache (c ∷ rest) v

  get_all_from :
      (cache : Cache) (envs : List (Option Text))
      → IsValid cache
      → get_all cache envs ≡ map keys_in envs
  unfolding get_all
  get_all_from cache [] v = refl
  get_all_from cache (env ∷ envs) v =
      let step = get_signing_keys_lem cache env v in
      ap₂ ◌∷◌ step.1
        (get_all_from (get_signing_keys atob export_spki sha256_digest cache env).0 envs step.0)

  -- However often `getSigningKeys` is called and however SIGNING_KEY changes between the calls, each call
  -- gives the keys that an import of the SIGNING_KEY of that call gives, with no keys where the import
  -- fails: the cache, which is empty at first, is never seen.
  pub get_all-keys_in : (envs : List (Option Text)) → get_all none envs ≡ map keys_in envs
  get_all-keys_in envs = get_all_from none envs tt
