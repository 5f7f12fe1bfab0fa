-- ===== src/Json/KeyOrder.antt =====
-- src/canonical-json.js: the canonical text does not depend on the order of the keys.
use web_resource_ledger.Prelude.{◌≡◌, refl, ap, ap₂, ◌∙◌, ◌∷◌, ◌++◌, map, false}
use web_resource_ledger.Prelude.Texts.{Text, codes, text_eq, join}
use web_resource_ledger.Prelude.Sorting.{sort_pairs, insert_pair, insert_pair_comm}
use web_resource_ledger.Json.{
  Json, array, object, Elements, no_elements, element, Members, no_members, member, canonicalize,
  canonical_elements, canonical_members,
}

-- The same JSON value, up to the order of the members of its objects, at any depth.
mutual
  pub data Same : Json → Json → Type 0 where
    same : (j : Json) → Same j j
    same_array : {es fs : Elements} → SameElements es fs → Same (array es) (array fs)
    same_object : {ms ns : Members} → SameMembers ms ns → Same (object ms) (object ns)

  pub data SameElements : Elements → Elements → Type 0 where
    no_more : SameElements no_elements no_elements
    next :
        {j k : Json} {es fs : Elements}
        → Same j k
        → SameElements es fs
        → SameElements (element j es) (element k fs)

  pub data SameMembers : Members → Members → Type 0 where
    no_more_members : SameMembers no_members no_members
    keep :
        {j k : Json} {ms ns : Members} (key : Text)
        → Same j k
        → SameMembers ms ns
        → SameMembers (member key j ms) (member key k ns)
    swap :
        (key other : Text) (j k : Json) (ms : Members)
        → text_eq key other ≡ false
        → text_eq other key ≡ false
        → SameMembers (member key j (member other k ms)) (member other k (member key j ms))
    after : {ms ns os : Members} → SameMembers ms ns → SameMembers ns os → SameMembers ms os

module _ (quote : Text → Text) where
  mutual
    unfolding canonicalize canonical_elements canonical_members sort_pairs

    canonical_text-Same : {j k : Json} → Same j k → canonicalize quote j ≡ canonicalize quote k
    canonical_text-Same (same j) = refl
    canonical_text-Same (same_array h) =
        ap (λ texts. codes "[" ++ join b',' texts ++ codes "]") (canonical_elements_same h)
    canonical_text-Same (same_object h) =
        ap
          (λ pairs.
            codes "{" ++ join b',' (map (λ p. quote p.0 ++ codes ":" ++ p.1) pairs) ++ codes "}")
          (sorted_members_same h)

    canonical_elements_same :
        {es fs : Elements}
        → SameElements es fs
        → canonical_elements quote es ≡ canonical_elements quote fs
    canonical_elements_same no_more = refl
    canonical_elements_same (next h hs) =
        ap₂ ◌∷◌ (canonical_text-Same h) (canonical_elements_same hs)

    sorted_members_same :
        {ms ns : Members}
        → SameMembers ms ns
        → sort_pairs (canonical_members quote ms) ≡ sort_pairs (canonical_members quote ns)
    sorted_members_same no_more_members = refl
    sorted_members_same (keep key h hs) =
        ap₂ (λ value pairs. insert_pair (key, value) pairs) (canonical_text-Same h)
          (sorted_members_same hs)
    sorted_members_same (swap key other j k ms d e) =
        insert_pair_comm (key, canonicalize quote j) (other, canonicalize quote k)
          (sort_pairs (canonical_members quote ms)) d e
    sorted_members_same (after h k) = sorted_members_same h ∙ sorted_members_same k

  -- JSON values that are the same up to the order of the members of their objects, at any depth, have the
  -- same canonical text, whatever `JSON.stringify` makes of a string.
  pub canonicalize-Same : (j k : Json) → Same j k → canonicalize quote j ≡ canonicalize quote k
  canonicalize-Same j k h = canonical_text-Same h
