-- ===== src/Json.antt =====
-- src/canonical-json.js: `canonicalize`, on JSON values. What `JSON.stringify` makes of a string is a
-- parameter; a number is the text it prints.
pub mod KeyOrder
mod Tests
use web_resource_ledger.Prelude.{
  ℕ, List, [], ◌∷◌, ◌++◌, map, Option, none, some, Bool, true, false, if◌then◌else◌,
}
use web_resource_ledger.Prelude.Texts.{Text, codes, text_eq, join}
use web_resource_ledger.Prelude.Sorting.{sort_pairs}

mutual
  pub data Json : Type 0 where
    null : Json
    boolean : Bool → Json
    number string : Text → Json
    array : Elements → Json
    object : Members → Json

  pub data Elements : Type 0 where
    no_elements : Elements
    element : Json → Elements → Elements

  pub data Members : Type 0 where
    no_members : Members
    member : Text → Json → Members → Members

-- `obj[name]` of a member of an object; what has no such member gives undefined.
unfoldable pub find_member : Text → Members → Option Json
find_member name no_members = none
find_member name (member key value members) =
    if text_eq key name then some value else find_member name members

module _ (quote : Text → Text) where
  -- The canonical texts of the elements, and those of the members with their keys. The keys of an object
  -- are different, so that sorting the members is sorting their keys.
  unfoldable mutual
    pub canonicalize : Json → Text
    canonicalize null = codes "null"
    canonicalize (boolean true) = codes "true"
    canonicalize (boolean false) = codes "false"
    canonicalize (number text) = text
    canonicalize (string text) = quote text
    canonicalize (array elements) =
        codes "[" ++ join b',' (canonical_elements elements) ++ codes "]"
    canonicalize (object members) =
        codes "{"
        ++ join b','
            (map (λ p. quote p.0 ++ codes ":" ++ p.1) (sort_pairs (canonical_members members)))
        ++ codes "}"

    pub canonical_elements : Elements → List Text
    canonical_elements no_elements = []
    canonical_elements (element j elements) = canonicalize j ∷ canonical_elements elements

    pub canonical_members : Members → List (Text × Text)
    canonical_members no_members = []
    canonical_members (member key value members) =
        (key, canonicalize value) ∷ canonical_members members
