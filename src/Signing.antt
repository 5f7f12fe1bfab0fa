-- ===== src/Signing.antt =====
-- src/signing.js: `getSigningKeys` with its cache, and `computeKeyId`. Base64, the import of a private
-- key with the export of its public key, and SHA-256 are parameters, `none` where they throw.
pub mod Rotation
mod Tests
use web_resource_ledger.Prelude.{
  ℕ, List, [], ◌∷◌, Option, none, some, Bool, true, false, ◌==◌, if◌then◌else◌, take, drop, length,
}
use web_resource_ledger.Prelude.Texts.{Text, text_eq, hex}

pub record SigningKeys : Type 0 where
  pub private_key : List ℕ
  pub public_key : List ℕ
  pub key_id : Text

-- The module's variables: the text of the key with its keys.
abbrev pub Cache : Type 0
Cache = Option (Text × SigningKeys)

module _ (atob : Text → Option (List ℕ)) (export_spki : List ℕ → Option (List ℕ))
    (sha256_digest : List ℕ → List ℕ) where
  unfoldable pub compute_key_id : List ℕ → Text
  compute_key_id public_key = take 8 (hex (sha256_digest public_key))

  -- The 32 bytes after the header of the public key; fewer throw.
  abbrev pub keys_of : List ℕ → List ℕ → Option SigningKeys
  keys_of pkcs8_bytes public_key =
      if length public_key == 32
      then some (record {
        private_key = pkcs8_bytes;
        public_key = public_key;
        key_id = compute_key_id public_key;
      })
      else none

  abbrev pub derived : List ℕ → Option (List ℕ) → Option SigningKeys
  derived pkcs8_bytes none = none
  derived pkcs8_bytes (some spki_der) = keys_of pkcs8_bytes (take 32 (drop 12 spki_der))

  abbrev pub decoded : Option (List ℕ) → Option SigningKeys
  decoded none = none
  decoded (some pkcs8_bytes) = derived pkcs8_bytes (export_spki pkcs8_bytes)

  -- What the `try` block imports.
  unfoldable pub import_keys : Text → Option SigningKeys
  import_keys signing_key = decoded (atob signing_key)

  abbrev pub stored : Cache → Text → Option SigningKeys → Cache × Option SigningKeys
  stored cache signing_key none = (cache, none)
  stored cache signing_key (some keys) = (some (signing_key, keys), some keys)

  -- The cached keys when their text is the same, else an import.
  abbrev pub refreshed : Bool → Text → SigningKeys → Text → Cache × Option SigningKeys
  refreshed true cached keys signing_key = (some (cached, keys), some keys)
  refreshed false cached keys signing_key =
      stored (some (cached, keys)) signing_key (import_keys signing_key)

  -- A key text that is not empty.
  abbrev pub lookup_keys : Cache → Text → Cache × Option SigningKeys
  lookup_keys none signing_key = stored none signing_key (import_keys signing_key)
  lookup_keys (some (cached, keys)) signing_key =
      refreshed (text_eq signing_key cached) cached keys signing_key

  -- The cache afterwards, with what is returned.
  unfoldable pub get_signing_keys : Cache → Option Text → Cache × Option SigningKeys
  get_signing_keys cache none = (cache, none)
  get_signing_keys cache (some []) = (cache, none)
  get_signing_keys cache (some (c ∷ rest)) = lookup_keys cache (c ∷ rest)
