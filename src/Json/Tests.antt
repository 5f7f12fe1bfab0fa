-- ===== src/Json/Tests.antt =====
-- A value whose objects list their keys in two orders.
use web_resource_ledger.Prelude.{◌≡◌, refl, ◌++◌}
use web_resource_ledger.Prelude.Texts.{Text, codes, text_eq}
use web_resource_ledger.Json.{
  Json, null, string, array, object, no_members, member, canonicalize, no_elements, element,
}
use web_resource_ledger.Json.KeyOrder.{
  same_object, same_array, next, no_more, swap, canonicalize-Same,
}

abbrev quoted : Text → Text
quoted t = codes "'" ++ t ++ codes "'"

abbrev inner : Json → Json
inner j = object (member (codes "b") j (member (codes "a") null no_members))

abbrev inner_sorted : Json → Json
inner_sorted j = object (member (codes "a") null (member (codes "b") j no_members))

canonicalize-Same_example :
    canonicalize quoted (array (element (inner (string (codes "x"))) no_elements))
    ≡ canonicalize quoted (array (element (inner_sorted (string (codes "x"))) no_elements))
unfolding text_eq
canonicalize-Same_example =
    canonicalize-Same quoted (array (element (inner (string (codes "x"))) no_elements))
      (array (element (inner_sorted (string (codes "x"))) no_elements))
      (same_array (
        next
          (same_object
            (swap (codes "b") (codes "a") (string (codes "x")) null no_members refl refl))
          no_more))
