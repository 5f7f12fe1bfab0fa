-- ===== src/Verify/Values.antt =====
-- src/verify.js: the JSON values that are read, and the checks that are reported.
use web_resource_ledger.Prelude.{
  ℕ, List, [], ◌∷◌, Option, none, some, Bool, true, false, not, if◌then◌else◌,
}
use web_resource_ledger.Prelude.Texts.{Text, codes, text_eq}
use web_resource_ledger.Json.{
  Json, null, boolean, number, string, array, object, Elements, no_elements, element, find_member,
}

abbrev pub Files : Type 0
Files = List (Text × List ℕ)

pub data CheckStatus : Type 0 where
  pass fail skip : CheckStatus

pub record Check : Type 0 where
  pub name : Text
  pub check_status : CheckStatus
  pub detail : Text

pub record TimestampData : Type 0 where
  pub gen_time : Text
  pub tsa : Option Json

pub record CaptureData : Type 0 where
  pub bundle_hash : Option Json
  pub signature : Option Json
  pub public_key : Option Json
  pub signed_at : Option Json
  pub timestamp : Option TimestampData
  pub qualified_timestamp : Option TimestampData

pub record Report : Type 0 where
  pub verified : Bool
  pub checks : List Check
  pub capture : Option CaptureData

-- `files[path]`; an archive that was read names each file once.
unfoldable pub find_file : Text → Files → Option (List ℕ)
find_file path [] = none
find_file path (f ∷ files) = if text_eq f.0 path then some f.1 else find_file path files

-- `value?.name`, and the value that `?? null` gives.
unfoldable pub prop : Text → Option Json → Option Json
prop name (some (object members)) = find_member name members
prop name (some null) = none
prop name (some (boolean b)) = none
prop name (some (number t)) = none
prop name (some (string t)) = none
prop name (some (array es)) = none
prop name none = none

-- `value ?? undefined`: null counts as missing.
abbrev pub is_null : Json → Bool
is_null j = elim j [ null ↦ true | _ ↦ false ]

abbrev pub present : Option Json → Option Json
present none = none
present (some j) = if is_null j then none else some j

unfoldable pub is_truthy : Option Json → Bool
is_truthy none = false
is_truthy (some null) = false
is_truthy (some (boolean b)) = b
is_truthy (some (number t)) = not (text_eq t (codes "0"))
is_truthy (some (string [])) = false
is_truthy (some (string (c ∷ t))) = true
is_truthy (some (array es)) = true
is_truthy (some (object ms)) = true

-- `value === text`
unfoldable pub is_string : Option Json → Text → Bool
is_string (some (string t)) text = text_eq t text
is_string (some null) text = false
is_string (some (boolean b)) text = false
is_string (some (number t)) text = false
is_string (some (array es)) text = false
is_string (some (object ms)) text = false
is_string none text = false

-- `entries.find(s => s.type === type)`: `none` when an entry before the one found is null.
unfoldable pub find_type : Text → Elements → Option (Option Json)
find_type type no_elements = some none
find_type type (element j entries) =
    let rest = find_type type entries in
    if is_null j
    then none
    else if is_string (prop (codes "type") (some j)) type
    then some (some j)
    else rest

-- `(signedData?.signatures ?? []).find(...)`, which throws on what is no array.
unfoldable pub find_signature : Text → Option Json → Option (Option Json)
find_signature type signed_data = elim (present (prop (codes "signatures") signed_data)) [
  | none ↦ some none
  | some signatures ↦ elim signatures [ array entries ↦ find_type type entries | _ ↦ none ]
]

abbrev pub passed : Text → Check
passed name = record { name = name; check_status = pass; detail = [] }

abbrev pub failed : Text → Text → Check
failed name detail = record { name = name; check_status = fail; detail = detail }

abbrev pub skipped : Text → Text → Check
skipped name detail = record { name = name; check_status = skip; detail = detail }

abbrev pub artifact_hashes : Text
artifact_hashes = codes "artifactHashes"

abbrev pub unreadable : Check → Text → Report
unreadable first detail = record {
  verified = false;
  checks = first ∷ failed (codes "bundleHash") detail ∷ failed (codes "signature") detail ∷ [];
  capture = none;
}

-- A check that does not fail.
abbrev pub is_tolerated : Check → Bool
is_tolerated c = elim c.check_status [ pass ↦ true | fail ↦ false | skip ↦ true ]

-- Two versions of the format.
abbrev pub is_version_2 : Option Json → Bool
is_version_2 signed_data = is_string (prop (codes "version") signed_data) (codes "0.2.0")

abbrev pub text_or : Text → Json → Text
text_or other j = elim j [ string t ↦ t | number t ↦ t | _ ↦ other ]
