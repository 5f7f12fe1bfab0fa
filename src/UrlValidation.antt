-- ===== src/UrlValidation.antt =====
-- src/url-validation.js: `parseIPv4`, `isPrivateIP`, `validateUrl` and `finalizeResult`. The WHATWG
-- URL parser of the platform and the DNS resolvers are parameters.
pub mod Encoding
pub mod Accepts
mod Tests
use web_resource_ledger.Prelude.{
  ℕ, zero, suc, ◌-◌, List, [], ◌∷◌, ◌++◌, Option, none, some, Bool, true, false, not, ◌&&◌, ◌||◌,
  ltb, leb, ◌==◌, if◌then◌else◌, length, get_or, take, drop, any, filter,
}
use mathlib.Core.Option
use web_resource_ledger.Prelude.Texts.{Text, codes, text_eq, includes_char, is_digit}
use web_resource_ledger.Prelude.Integers.{ℤ, hex_value}
use web_resource_ledger.Address.{
  is_dotted_decimal, ipv4_to_int, parse_ipv6_to_big_int, is_private_ipv4, is_private_ipv6,
}

-- The properties of a parsed URL that the code reads.
pub record Url : Type 0 where
  pub href : Text
  pub protocol : Text
  pub username : Text
  pub password : Text
  pub hostname : Text
  pub pathname : Text
  pub search : Text
  pub hash : Text

pub data Detail : Type 0 where
  too_long not_valid : Detail
  scheme_not_allowed : Text → Detail
  embedded_credentials private_address unresolved double_encoded : Detail
  -- src/webhooks.js, which refuses what `validateUrl` accepts when it is not HTTPS.
  must_use_https : Detail

pub data Outcome : Type 0 where
  accepted : Text → Text → Outcome
  rejected : ℕ → Detail → Outcome

-- `/%25[0-9a-fA-F]{2}/`, anywhere in the text.
abbrev pub is_hex : ℕ → Bool
is_hex c = is_digit c || leb b'a' c && leb c b'f' || leb b'A' c && leb c b'F'

unfoldable pub starts_double_encoded : Text → Bool
starts_double_encoded (a ∷ b ∷ c ∷ d ∷ e ∷ s) =
    a == b'%' && (b == b'2' && (c == b'5' && (is_hex d && is_hex e)))
starts_double_encoded s = false

unfoldable pub has_double_encoding : Text → Bool
has_double_encoding [] = false
has_double_encoding (c ∷ s) = starts_double_encoded (c ∷ s) || has_double_encoding s

unfoldable pub finalize_result : Url → Text → Outcome
finalize_result parsed ip =
    if has_double_encoding (parsed.pathname ++ parsed.search)
    then rejected 422 double_encoded
    else accepted parsed.href ip

-- `hostname.startsWith('[') && hostname.endsWith(']') ? hostname.slice(1, -1) : hostname`
unfoldable pub without_brackets : Text → Text
without_brackets hostname =
    if get_or hostname 0 0 == b'[' && get_or hostname (length hostname - 1) 0 == b']'
    then take (length hostname - 1 - 1) (drop 1 hostname)
    else hostname

abbrev pub is_address : Text → Bool
is_address s = is_dotted_decimal s || includes_char b':' s

-- A resolver that rejects gives no answers.
abbrev pub answers : Option (List Text) → List Text
answers none = []
answers (some ips) = ips

abbrev pub is_rejected : Option (List Text) → Bool
is_rejected none = true
is_rejected (some ips) = false

abbrev pub is_web : Url → Bool
is_web parsed = text_eq parsed.protocol (codes "http:") || text_eq parsed.protocol (codes "https:")

module _ (parse_url : Text → Option Url) where
  unfoldable pub parse_ipv4 : Text → Option Text
  parse_ipv4 hostname =
      if includes_char b'@' hostname
      then none
      else (elim (parse_url (codes "http://" ++ hostname)) [
        | none ↦ none
        | some url ↦ if is_dotted_decimal url.hostname then some url.hostname else none
      ])

  -- Fail closed: what is no address counts as private.
  unfoldable pub is_private_ip : Text → Bool
  is_private_ip ip_string = elim (parse_ipv4 ip_string) [
    | some v4 ↦ is_private_ipv4 (ipv4_to_int v4)
    | none ↦ elim (parse_ipv6_to_big_int ip_string) [ some v6 ↦ is_private_ipv6 v6 | none ↦ true ]
  ]

  -- Steps 6 and 7 on the answers of the resolvers.
  unfoldable pub validate_resolved : Url → Option (List Text) → Option (List Text) → Outcome
  validate_resolved parsed v4 v6 =
      let v4_results = answers v4 in
      let v6_results = answers v6 in
      let all_ips = filter is_address (v4_results ++ v6_results) in
      let none_found = length v4_results == 0 && length v6_results == 0 in
      let first_public_ip =
        if ltb 0 (length v4_results) then get_or v4_results 0 [] else get_or v6_results 0 [] in
      if none_found || is_rejected v4 && is_rejected v6
      then rejected 422 unresolved
      else if length all_ips == 0
      then rejected 422 unresolved
      else if any is_private_ip all_ips
      then rejected 422 private_address
      else finalize_result parsed first_public_ip

  module _ (resolve4 resolve6 : Text → Option (List Text)) where
    -- Steps 5 to 9.
    unfoldable pub validate_host : Url → Outcome
    validate_host parsed =
        let raw_hostname = without_brackets parsed.hostname in
        elim (parse_ipv4 raw_hostname) [
          | some direct_ipv4 ↦
              if is_private_ipv4 (ipv4_to_int direct_ipv4)
              then rejected 422 private_address
              else finalize_result parsed direct_ipv4
          | none ↦ elim (parse_ipv6_to_big_int raw_hostname) [
            | some direct_ipv6 ↦
                if is_private_ipv6 direct_ipv6
                then rejected 422 private_address
                else finalize_result parsed raw_hostname
            | none ↦ validate_resolved parsed (resolve4 parsed.hostname) (resolve6 parsed.hostname)
          ]
        ]

    unfoldable pub validate_url : Text → Outcome
    validate_url raw_url =
        if ltb 2048 (length raw_url) then rejected 400 too_long else (elim (parse_url raw_url) [
          | none ↦ rejected 400 not_valid
          | some parsed ↦
              if not (is_web parsed)
              then rejected 400 (scheme_not_allowed parsed.protocol)
              else if not (length parsed.username == 0) || not (length parsed.password == 0)
              then rejected 422 embedded_credentials
              else validate_host parsed
        ])
