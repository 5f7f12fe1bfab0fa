-- ===== src/Signing/Tests.antt =====
-- Calls of `getSigningKeys` between which the key changes, goes and does not import.
use web_resource_ledger.Prelude.{ℕ, ◌≡◌, List, [], ◌∷◌, map, Option, none, some, replicate}
use web_resource_ledger.Prelude.Texts.{Text, codes}
use web_resource_ledger.Signing.Rotation.{keys_in, get_all, get_all-keys_in}

abbrev decode : Text → Option (List ℕ)
decode [] = none
decode (c ∷ t) = some (c ∷ t)

abbrev export : List ℕ → Option (List ℕ)
export [] = none
export (c ∷ key) = some (replicate c 7)

abbrev digest : List ℕ → List ℕ
digest bytes = bytes

abbrev calls : List (Option Text)
calls = some (codes "key") ∷ some (codes "key") ∷ none ∷ some (codes "8") ∷ some (codes "!") ∷ []

get_all-keys_in_example :
    get_all decode export digest none calls ≡ map (keys_in decode export digest) calls
get_all-keys_in_example = get_all-keys_in decode export digest calls
