-- ===== src/UrlValidation/Accepts.antt =====
-- src/url-validation.js: what `validateUrl` accepts.
use web_resource_ledger.Prelude.{
  ℕ, suc, ◌≤◌, ◌≡◌, ◌↔◌, refl, ap, sym, ◌∙◌, List, [], ◌∷◌, ◌++◌, Option, none, some, Bool, true,
  false, ◌⊎◌, inl, inr, not, ◌&&◌, ◌||◌, ltb, ◌==◌, if◌then◌else◌, length, get_or, any, All, filter,
  Bool-cases, Option-cases, arith, ltb-eq-false→le,
}
use web_resource_ledger.Prelude.Texts.{Text, codes, text_eq, text_eq_iff}
use web_resource_ledger.Prelude.Integers.{ℤ}
use web_resource_ledger.Address.{
  ipv4_to_int, parse_ipv6_to_big_int, is_private_ipv4, is_private_ipv6,
}
use web_resource_ledger.UrlValidation.{
  Url, Detail, Outcome, accepted, rejected, is_address, answers, is_rejected, has_double_encoding,
  finalize_result, without_brackets, parse_ipv4, is_private_ip, validate_resolved, validate_host,
  is_web, validate_url, double_encoded, private_address, unresolved, not_valid, too_long,
  embedded_credentials, scheme_not_allowed,
}

-- A test that rejects has not fired when the outcome is an acceptance, and the converse.
passed :
    (b : Bool) (s : ℕ) (d : Detail) (o : Outcome) {u ip : Text}
    → (if b then rejected s d else o) ≡ accepted u ip
    → (b ≡ false) × (o ≡ accepted u ip)
passed true s d o h = cc
passed false s d o h = (refl, h)

skip :
    (b : Bool) (s : ℕ) (d : Detail) (o : Outcome) → b ≡ false → (if b then rejected s d else o) ≡ o
skip b s d o h = rw h

-- The answers of a resolver that are addresses are not private.
module _ (parse_url : Text → Option Url) where
  abbrev pub Public : Text → Type 0
  Public answer = is_address answer ≡ true → is_private_ip parse_url answer ≡ false

  none_private :
      (ips : List Text)
      → any (is_private_ip parse_url) (filter is_address ips) ≡ false
      → All Public ips
  none_private [] h = tt
  none_private (ip ∷ ips) h = elim (Bool-cases (is_address ip)) [
    | inl address ↦
        let here : (is_private_ip parse_url ip
              || any (is_private_ip parse_url) (filter is_address ips))
            ≡ false =
          rw address at h in
        let this : is_private_ip parse_url ip ≡ false = ground arith in
        let others : any (is_private_ip parse_url) (filter is_address ips) ≡ false = ground arith in
        (λ _. this, none_private ips others)
    | inr other ↦
        let others : any (is_private_ip parse_url) (filter is_address ips) ≡ false =
          rw other at h in
        (λ address. cc, none_private ips others)
  ]

  publics_pass :
      (ips : List Text)
      → All Public ips
      → any (is_private_ip parse_url) (filter is_address ips) ≡ false
  publics_pass [] h = refl
  publics_pass (ip ∷ ips) (this, others) = elim (Bool-cases (is_address ip)) [
    | inl address ↦ rw (address, this address) (publics_pass ips others)
    | inr other ↦ rw other (publics_pass ips others)
  ]

suc_is_not_zero : (n : ℕ) → (suc n == 0) ≡ false
suc_is_not_zero n = ground arith

some_kept : (ips : List Text) → (length (filter is_address ips) == 0) ≡ not (any is_address ips)
some_kept [] = refl
some_kept (ip ∷ ips) = elim (Bool-cases (is_address ip)) [
  | inl address ↦ rw address (suc_is_not_zero (length (filter is_address ips)))
  | inr other ↦ rw other (some_kept ips)
]

not-eq-false→true : (b : Bool) → not b ≡ false → b ≡ true
not-eq-false→true b h = ground arith

first_of :
    (v4 v6 : List Text)
    → (if ltb 0 (length v4) then get_or v4 0 [] else get_or v6 0 []) ≡ get_or (v4 ++ v6) 0 []
first_of [] v6 = refl
first_of (ip ∷ v4) v6 = let h : ltb 0 (suc (length v4)) ≡ true = ground arith in rw h

-- An answer that is an address shows that there is an answer, and that not both resolvers failed.
resolved_one :
    (v4 v6 : Option (List Text))
    → any is_address (answers v4 ++ answers v6) ≡ true
    → (length (answers v4) == 0 && length (answers v6) == 0 || is_rejected v4 && is_rejected v6)
      ≡ false
resolved_one none none h = cc
resolved_one none (some []) h = cc
resolved_one none (some (ip ∷ v6)) h = rw (suc_is_not_zero (length v6))
resolved_one (some []) none h = cc
resolved_one (some []) (some []) h = cc
resolved_one (some []) (some (ip ∷ v6)) h = rw (suc_is_not_zero (length v6))
resolved_one (some (ip ∷ v4)) v6 h = rw (suc_is_not_zero (length v4))

module _ (parse_url : Text → Option Url) where
  -- A name whose answers have an address, and no private one.
  pub record IsResolved (v4 v6 : Option (List Text)) (ip : Text) : Type 0 where
    pub has_address : any is_address (answers v4 ++ answers v6) ≡ true
    pub no_private : All (Public parse_url) (answers v4 ++ answers v6)
    pub first : ip ≡ get_or (answers v4 ++ answers v6) 0 []

  finalized :
      (p : Url) (known : Text) {u ip : Text}
      → finalize_result p known ≡ accepted u ip
      → (has_double_encoding (p.pathname ++ p.search) ≡ false) × (u ≡ p.href) × (ip ≡ known)
  unfolding finalize_result
  finalized p known h =
      let (single, same) = passed _ 422 double_encoded (accepted p.href known) h in (single, cc, cc)

  validate_resolved-accepted :
      (p : Url) (v4 v6 : Option (List Text)) {u ip : Text}
      → validate_resolved parse_url p v4 v6 ≡ accepted u ip
      → IsResolved v4 v6 ip × (has_double_encoding (p.pathname ++ p.search) ≡ false) × (u ≡ p.href)
  unfolding validate_resolved
  validate_resolved-accepted p v4 v6 h =
      let (answered, h1) = passed _ 422 unresolved _ h in
      let (addresses, h2) = passed _ 422 unresolved _ h1 in
      let (public, h3) = passed _ 422 private_address _ h2 in
      let (single, same, known) = finalized p _ h3 in
      let kept = some_kept (answers v4 ++ answers v6) in
      (
        record {
          has_address = not-eq-false→true _ (sym kept ∙ addresses);
          no_private = none_private parse_url (answers v4 ++ answers v6) public;
          first = known ∙ first_of (answers v4) (answers v6);
        },
        single,
        same,
      )

  accepted-validate_resolved :
      (p : Url) (v4 v6 : Option (List Text)) {ip : Text}
      → IsResolved v4 v6 ip
      → has_double_encoding (p.pathname ++ p.search) ≡ false
      → validate_resolved parse_url p v4 v6 ≡ accepted p.href ip
  unfolding validate_resolved finalize_result
  accepted-validate_resolved p v4 v6 host single =
      let kept = some_kept (answers v4 ++ answers v6) ∙ ap not host.has_address in
      skip _ 422 unresolved _ (resolved_one v4 v6 host.has_address)
      ∙ skip _ 422 unresolved _ kept
      ∙ skip _ 422 private_address _
          (publics_pass parse_url (answers v4 ++ answers v6) host.no_private)
      ∙ skip _ 422 double_encoded _ single
      ∙ ap (accepted p.href) (first_of (answers v4) (answers v6) ∙ sym host.first)

module _ (parse_url : Text → Option Url) (resolve4 resolve6 : Text → Option (List Text)) where
  -- How the host of an accepted URL is known to be public, and the address reported for it.
  pub data PublicHost (p : Url) (ip : Text) : Type 0 where
    at_ipv4 :
        parse_ipv4 parse_url (without_brackets p.hostname) ≡ some ip
        → is_private_ipv4 (ipv4_to_int ip) ≡ false
        → PublicHost p ip
    at_ipv6 :
        parse_ipv4 parse_url (without_brackets p.hostname) ≡ none
        → (v6 : ℤ) → parse_ipv6_to_big_int (without_brackets p.hostname) ≡ some v6
        → is_private_ipv6 v6 ≡ false
        → ip ≡ without_brackets p.hostname
        → PublicHost p ip
    by_name :
        parse_ipv4 parse_url (without_brackets p.hostname) ≡ none
        → parse_ipv6_to_big_int (without_brackets p.hostname) ≡ none
        → IsResolved parse_url (resolve4 p.hostname) (resolve6 p.hostname) ip
        → PublicHost p ip

  -- All that an accepted URL satisfies.
  pub record IsAccepted (raw_url u ip : Text) : Type 0 where
    pub parsed : Url
    pub short : length raw_url ≤ 2048
    pub is_parsed : parse_url raw_url ≡ some parsed
    pub web_scheme : (parsed.protocol ≡ codes "http:") ⊎ (parsed.protocol ≡ codes "https:")
    pub no_username : parsed.username ≡ []
    pub no_password : parsed.password ≡ []
    pub public_host : PublicHost parsed ip
    pub single : has_double_encoding (parsed.pathname ++ parsed.search) ≡ false
    pub same_href : u ≡ parsed.href

  validate_host-accepted :
      (p : Url) {u ip : Text}
      → validate_host parse_url resolve4 resolve6 p ≡ accepted u ip
      → PublicHost p ip × (has_double_encoding (p.pathname ++ p.search) ≡ false) × (u ≡ p.href)
  unfolding validate_host
  validate_host-accepted p {u} {ip} h =
      elim (Option-cases (parse_ipv4 parse_url (without_brackets p.hostname))) [
        | inr (v4, e) ↦
            let (public, h1) =
              passed _ 422 private_address (finalize_result p v4) (rw (e, validate_host) at h) in
            let (single, same, known) = finalized parse_url p v4 h1 in
            (
              at_ipv4 (e ∙ ap some (sym known))
                  (ap (λ t. is_private_ipv4 (ipv4_to_int t)) known ∙ public),
              single,
              same,
            )
        | inl e ↦ elim (Option-cases (parse_ipv6_to_big_int (without_brackets p.hostname))) [
          | inr (v6, e6) ↦
              let (public, h1) =
                passed _ 422 private_address (finalize_result p (without_brackets p.hostname))
                  (rw (e, e6, validate_host) at h) in
              let (single, same, known) = finalized parse_url p _ h1 in
              (at_ipv6 e v6 e6 public known, single, same)
          | inl e6 ↦
              let h1 : validate_resolved parse_url p (resolve4 p.hostname) (resolve6 p.hostname)
                  ≡ accepted u ip =
                rw (e, e6, validate_host) at h in
              let (resolved, single, same) = validate_resolved-accepted parse_url p _ _ h1 in
              (by_name e e6 resolved, single, same)
        ]
      ]

  accepted-validate_host :
      (p : Url) {ip : Text}
      → PublicHost p ip
      → has_double_encoding (p.pathname ++ p.search) ≡ false
      → validate_host parse_url resolve4 resolve6 p ≡ accepted p.href ip
  unfolding validate_host finalize_result
  accepted-validate_host p (at_ipv4 e public) single = rw (e, public, single, validate_host)
  accepted-validate_host p (at_ipv6 e v6 e6 public known) single =
      rw (e, e6, public, single, known, validate_host)
  accepted-validate_host p (by_name e e6 resolved) single =
      rw (e, e6, validate_host) (accepted-validate_resolved parse_url p _ _ resolved single)

is_empty : (s : Text) → not (length s == 0) ≡ false → s ≡ []
is_empty [] h = refl
is_empty (c ∷ s) h = let e = suc_is_not_zero (length s) in ground arith

no_credentials :
    (p : Url)
    → (not (length p.username == 0) || not (length p.password == 0)) ≡ false
    → (p.username ≡ []) × (p.password ≡ [])
no_credentials p h = (is_empty p.username (ground arith), is_empty p.password (ground arith))

anonymous :
    (p : Url)
    → p.username ≡ []
    → p.password ≡ []
    → (not (length p.username == 0) || not (length p.password == 0)) ≡ false
anonymous p h k = rw (h, k)

web_protocol :
    (p : Url)
    → not (is_web p) ≡ false
    → (p.protocol ≡ codes "http:") ⊎ (p.protocol ≡ codes "https:")
web_protocol p h =
    let one = text_eq_iff p.protocol (codes "http:") in
    let two = text_eq_iff p.protocol (codes "https:") in
    elim (Bool-cases (text_eq p.protocol (codes "http:"))) [
      | inl same ↦ inl (one.0 same)
      | inr other ↦ inr (two.0 (ground arith))
    ]

protocol_web :
    (p : Url)
    → (p.protocol ≡ codes "http:") ⊎ (p.protocol ≡ codes "https:")
    → not (is_web p) ≡ false
protocol_web p (inl h) = let same = (text_eq_iff p.protocol (codes "http:")).1 h in ground arith
protocol_web p (inr h) = let same = (text_eq_iff p.protocol (codes "https:")).1 h in ground arith

le→ltb-eq-false : (a b : ℕ) → b ≤ a → ltb a b ≡ false
le→ltb-eq-false a b h = ground arith

module _ (parse_url : Text → Option Url) (resolve4 resolve6 : Text → Option (List Text)) where
  abbrev parsed_outcome : Url → Outcome
  parsed_outcome parsed =
      if not (is_web parsed)
      then rejected 400 (scheme_not_allowed parsed.protocol)
      else if not (length parsed.username == 0) || not (length parsed.password == 0)
      then rejected 422 embedded_credentials
      else validate_host parse_url resolve4 resolve6 parsed

  abbrev parsed_option : Option Url → Outcome
  parsed_option none = rejected 400 not_valid
  parsed_option (some p) = parsed_outcome p

  validate_url-accepted :
      (raw_url u ip : Text)
      → validate_url parse_url resolve4 resolve6 raw_url ≡ accepted u ip
      → IsAccepted parse_url resolve4 resolve6 raw_url u ip
  unfolding validate_url
  validate_url-accepted raw_url u ip h =
      let (short, h1) = passed _ 400 too_long (parsed_option (parse_url raw_url)) h in
      elim (Option-cases (parse_url raw_url)) [
        | inl e ↦ let h2 : rejected 400 not_valid ≡ accepted u ip = rw e at h1 in cc
        | inr (p, e) ↦
            let h2 : parsed_outcome p ≡ accepted u ip = rw e at h1 in
            let (web, h3) = passed (not (is_web p)) 400 (scheme_not_allowed p.protocol) _ h2 in
            let (anonymous, h4) =
              passed _ 422 embedded_credentials (validate_host parse_url resolve4 resolve6 p) h3 in
            let (host, single, same) = validate_host-accepted parse_url resolve4 resolve6 p h4 in
            record {
              parsed = p;
              short = ltb-eq-false→le _ _ short;
              is_parsed = e;
              web_scheme = web_protocol p web;
              no_username = (no_credentials p anonymous).0;
              no_password = (no_credentials p anonymous).1;
              public_host = host;
              single = single;
              same_href = same;
            }
      ]

  accepted-validate_url :
      (raw_url u ip : Text)
      → IsAccepted parse_url resolve4 resolve6 raw_url u ip
      → validate_url parse_url resolve4 resolve6 raw_url ≡ accepted u ip
  unfolding validate_url
  accepted-validate_url raw_url u ip facts =
      skip _ 400 too_long _ (le→ltb-eq-false _ _ facts.short)
      ∙ ap parsed_option facts.is_parsed
      ∙ skip _ 400 _ _ (protocol_web facts.parsed facts.web_scheme)
      ∙ skip _ 422 embedded_credentials _
          (anonymous facts.parsed facts.no_username facts.no_password)
      ∙ accepted-validate_host parse_url resolve4 resolve6 facts.parsed facts.public_host
          facts.single
      ∙ ap (λ t. accepted t ip) (sym facts.same_href)

  -- A URL is accepted, with the text and the address returned, exactly when it has at most 2048
  -- characters, is a URL of scheme http or https without credentials and without a double-encoded part in
  -- its path or query, and its host is a public IPv4 address, a public IPv6 address, or a name with an
  -- address among its answers and no private one; the text is the URL as the parser prints it, the
  -- address that of the host or the first answer.
  pub validate_url_iff :
      (raw_url u ip : Text)
      → (validate_url parse_url resolve4 resolve6 raw_url ≡ accepted u ip)
        ↔ IsAccepted parse_url resolve4 resolve6 raw_url u ip
  validate_url_iff raw_url u ip =
      (validate_url-accepted raw_url u ip, accepted-validate_url raw_url u ip)
