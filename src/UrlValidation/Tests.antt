-- ===== src/UrlValidation/Tests.antt =====
-- `validateUrl` on a parser that knows three URLs and resolvers that know one name.
use web_resource_ledger.Prelude.{
  ◌≡◌, ◌↔◌, refl, List, [], ◌∷◌, ◌++◌, Option, none, some, if◌then◌else◌,
}
use web_resource_ledger.Prelude.Texts.{Text, codes, text_eq, split, includes_char}
use web_resource_ledger.UrlValidation.{
  Url, accepted, rejected, private_address, double_encoded, validate_url, validate_host,
  validate_resolved, finalize_result, has_double_encoding, starts_double_encoded, parse_ipv4,
  is_private_ip, without_brackets,
}
use web_resource_ledger.UrlValidation.Accepts.{IsAccepted, validate_url_iff}
use web_resource_ledger.Address.{
  is_dotted_decimal, ipv4_to_int, four_to_int, number, is_private_ipv4, ipv4_blocked_ranges,
  parse_ipv6_to_big_int, eight_groups, cut_double_colon,
}

abbrev url_of : Text → Text → Url
url_of host path = record {
  href = codes "http://" ++ host ++ path;
  protocol = codes "http:";
  username = [];
  password = [];
  hostname = host;
  pathname = path;
  search = [];
  hash = [];
}

abbrev parse_known : Text → Option Url
parse_known raw =
    if text_eq raw (codes "HTTP://example.org/a")
    then some (url_of (codes "example.org") (codes "/a"))
    else if text_eq raw (codes "http://example.org/%2541")
    then some (url_of (codes "example.org") (codes "/%2541"))
    else if text_eq raw (codes "http://93.184.216.34")
    then some (url_of (codes "93.184.216.34") (codes "/"))
    else if text_eq raw (codes "http://10.1.2.3")
    then some (url_of (codes "10.1.2.3") (codes "/"))
    else none

abbrev one_public : Text → Option (List Text)
one_public host = some (codes "93.184.216.34" ∷ [])

abbrev one_private : Text → Option (List Text)
one_private host = some (codes "93.184.216.34" ∷ codes "10.1.2.3" ∷ [])

abbrev failing : Text → Option (List Text)
failing host = none

validate_url-public :
    validate_url parse_known one_public failing (codes "HTTP://example.org/a")
    ≡ accepted (codes "http://example.org/a") (codes "93.184.216.34")
unfolding validate_url validate_host validate_resolved finalize_result has_double_encoding
    starts_double_encoded parse_ipv4 is_private_ip without_brackets is_dotted_decimal ipv4_to_int
    four_to_int number is_private_ipv4 ipv4_blocked_ranges parse_ipv6_to_big_int eight_groups
    cut_double_colon text_eq includes_char split
validate_url-public = refl

validate_url-private :
    validate_url parse_known one_private failing (codes "HTTP://example.org/a")
    ≡ rejected 422 private_address
unfolding validate_url validate_host validate_resolved parse_ipv4 is_private_ip without_brackets
    is_dotted_decimal ipv4_to_int four_to_int number is_private_ipv4 ipv4_blocked_ranges
    parse_ipv6_to_big_int eight_groups cut_double_colon text_eq includes_char split
validate_url-private = refl

validate_url-double_encoded :
    validate_url parse_known one_public failing (codes "http://example.org/%2541")
    ≡ rejected 422 double_encoded
unfolding validate_url validate_host validate_resolved finalize_result has_double_encoding
    starts_double_encoded parse_ipv4 is_private_ip without_brackets is_dotted_decimal ipv4_to_int
    four_to_int number is_private_ipv4 ipv4_blocked_ranges parse_ipv6_to_big_int eight_groups
    cut_double_colon text_eq includes_char split
validate_url-double_encoded = refl

validate_url_iff_example :
    (validate_url parse_known one_public failing (codes "HTTP://example.org/a")
      ≡ accepted (codes "http://example.org/a") (codes "93.184.216.34"))
    ↔ IsAccepted parse_known one_public failing
        (codes "HTTP://example.org/a")
        (codes "http://example.org/a")
        (codes "93.184.216.34")
validate_url_iff_example =
    validate_url_iff parse_known one_public failing (codes "HTTP://example.org/a")
      (codes "http://example.org/a") (codes "93.184.216.34")
