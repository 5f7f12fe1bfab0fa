-- ===== src/Sessions/Issued.antt =====
-- src/session.js: a cookie that was issued signs in.

use web_resource_ledger.Prelude.{
  ℕ, ◌/◌, ◌%◌, ◌≡◌, ◌<◌, refl, ap, ap₂, ◌∙◌, List, [], ◌∷◌, ◌++◌, none, some, Bool, true, false,
  not, ◌&&◌, ◌==◌, if◌then◌else◌, all, arith,
}
use web_resource_ledger.Prelude.Texts.{
  Text, codes, starts_with, split, split-Without, Without, hex, hex_digit, Bytes,
}
use web_resource_ledger.Prelude.Integers.{parse_int_16, parse_int_16-map, is_space}
use web_resource_ledger.Prelude.Results.{ok, err}
use web_resource_ledger.Timestamp.Response.{to_uint8}
use web_resource_ledger.Sessions.{
  Secrets, SessionTables, Session, session_expired, cookie_name, byte_pairs, match_pairs, trim_left,
  trim_right, find_cookie, split_last_dot, get_session, hash_api_key, import_hmac_key,
  create_session_cookie, is_expired, accept_session, check_hmac, after_hmac, with_parts,
  with_cookie, verify_session, first_of,
}

-- No white space and no semicolon, as in a session id.
abbrev pub Plain : Text → Type 0
Plain [] = Unit {0}
Plain (c ∷ t) = ((is_space c ≡ false) × ((c == b';') ≡ false)) × Plain t

Plain-append : (t u : Text) → Plain t → Plain u → Plain (t ++ u)
Plain-append [] u h k = k
Plain-append (c ∷ t) u h k = (h.0, Plain-append t u h.1 k)

Plain-Without : (t : Text) → Plain t → Without b';' t
Plain-Without [] h = tt
Plain-Without (c ∷ t) h = (h.0.1, Plain-Without t h.1)

trim_right-Plain : (t : Text) → Plain t → trim_right t ≡ t
unfolding trim_right
trim_right-Plain [] h = refl
trim_right-Plain (c ∷ t) h = rw (h.0.0, trim_right) (ap (λ u. c ∷ u) (trim_right-Plain t h.1))

trim_left-Plain : (t : Text) → Plain t → trim_left t ≡ t
unfolding trim_left
trim_left-Plain [] h = refl
trim_left-Plain (c ∷ t) h = rw (h.0.0, trim_left)

hex_digit-plain :
    (d : ℕ)
    → d < 16
    → (is_space (hex_digit d) ≡ false)
      × ((hex_digit d == b';') ≡ false)
      × ((hex_digit d == b'.') ≡ false)
unfolding is_space hex_digit
hex_digit-plain d h = (ground arith, ground arith, ground arith)

Plain-hex : (bytes : List ℕ) → Bytes bytes → Plain (hex bytes)
unfolding hex
Plain-hex [] h = tt
Plain-hex (b ∷ bytes) h =
    let high = hex_digit-plain (b / 16) (omega arith) in
    let low = hex_digit-plain (b % 16) (omega arith) in
    ((high.0, high.1), ((low.0, low.1), Plain-hex bytes h.1))

no_dot : (bytes : List ℕ) → Bytes bytes → split_last_dot (hex bytes) ≡ none
unfolding hex split_last_dot
no_dot [] h = refl
no_dot (b ∷ bytes) h =
    let high = hex_digit-plain (b / 16) (omega arith) in
    let low = hex_digit-plain (b % 16) (omega arith) in
    rw (no_dot bytes h.1, low.2, high.2, split_last_dot)

split_last_dot-hex :
    (id : Text) (bytes : List ℕ)
    → Bytes bytes
    → split_last_dot (id ++ (b'.' ∷ hex bytes)) ≡ some (id, hex bytes)
unfolding split_last_dot
split_last_dot-hex [] bytes h = rw (no_dot bytes h, split_last_dot)
split_last_dot-hex (c ∷ id) bytes h = rw (split_last_dot-hex id bytes h, split_last_dot)

-- Two digits are read as the byte they print.
read_byte :
    (b : ℕ) → b < 256 → to_uint8 (parse_int_16 (hex_digit (b / 16) ∷ hex_digit (b % 16) ∷ [])) ≡ b
read_byte b h =
    ap to_uint8 (parse_int_16-map (b / 16) (b % 16 ∷ []) (omega arith, (omega arith, tt)))
    ∙ (omega arith)

byte_pairs-hex : (bytes : List ℕ) → Bytes bytes → byte_pairs (hex bytes) ≡ bytes
unfolding byte_pairs hex
byte_pairs-hex [] h = refl
byte_pairs-hex (b ∷ bytes) h = ap₂ ◌∷◌ (read_byte b h.0) (byte_pairs-hex bytes h.1)

abbrev is_plain : ℕ → Bool
is_plain c = not (is_space c) && not (c == b';')

plain_char :
    (c : ℕ) (b : Bool)
    → (is_plain c && b) ≡ true
    → ((is_space c ≡ false) × ((c == b';') ≡ false)) × (b ≡ true)
plain_char c b h = (ground arith, ground arith)

all-Plain : (t : Text) → all is_plain t ≡ true → Plain t
all-Plain [] h = tt
all-Plain (c ∷ t) h = let here = plain_char c (all is_plain t) h in (here.0, all-Plain t here.1)

abbrev prefix : Text
prefix = cookie_name ++ codes "="

Plain-prefix : Plain prefix
unfolding is_space
Plain-prefix = all-Plain prefix refl

starts_with-prefix : (value : Text) → starts_with (prefix ++ value) prefix ≡ true
unfolding starts_with
starts_with-prefix value = refl

found_cookie :
    (value : Text)
    → Plain value
    → find_cookie (split b';' (prefix ++ value)) ≡ some (prefix ++ value)
unfolding find_cookie
found_cookie value h =
    let plain = Plain-append prefix value Plain-prefix h in
    let trimmed : trim_left (trim_right (prefix ++ value)) ≡ prefix ++ value =
      ap trim_left (trim_right-Plain (prefix ++ value) plain)
      ∙ trim_left-Plain (prefix ++ value) plain in
    ap find_cookie (split-Without b';' (prefix ++ value) (Plain-Without (prefix ++ value) plain))
    ∙ ap (λ t. if starts_with t prefix then some t else none) trimmed
    ∙ ap (λ b. if b then some (prefix ++ value) else none) (starts_with-prefix value)

dot_plain : (is_space b'.' ≡ false) × ((b'.' == b';') ≡ false)
unfolding is_space
dot_plain = (refl, refl)

module _ (s : Secrets) where
  check_hmac_lem :
      (secret id received : Text) (key bytes : List ℕ)
      → import_hmac_key s secret ≡ some key
      → match_pairs received ≡ some bytes
      → check_hmac s secret id received ≡ some (s.verify key bytes (s.encode id))
  check_hmac_lem secret id received key bytes i f = rw (i, f, check_hmac)

  -- A session id with a cookie whose signature has at least one byte.
  issued_parts :
      (secret : Text) (now : ℕ) (tables : SessionTables) (a : ℕ) (id : Text) (key : List ℕ) (b : ℕ)
      (bytes : List ℕ) (session : Session)
      → Bytes (b ∷ bytes)
      → import_hmac_key s secret ≡ some key
      → s.verify key (b ∷ bytes) (s.encode (a ∷ id)) ≡ true
      → get_session tables (hash_api_key s (a ∷ id)) ≡ some session
      → is_expired s now (s.time_of session.row.expires_at) ≡ false
      → with_parts s secret now (some tables) (some (a ∷ id, hex (b ∷ bytes)))
        ≡ ok (record {
          signed_in = session;
          display_name = first_of session.login session.row.session_email;
        })
  unfolding hex
  issued_parts secret now tables a id key b bytes session h i v g e =
      let pairs : match_pairs (hex (b ∷ bytes)) ≡ some (b ∷ bytes) =
        ap some (byte_pairs-hex (b ∷ bytes) h) in
      let checked : check_hmac s secret (a ∷ id) (hex (b ∷ bytes)) ≡ some true =
        check_hmac_lem secret (a ∷ id) (hex (b ∷ bytes)) key (b ∷ bytes) i pairs ∙ ap some v in
      ap (λ o. after_hmac s o now (some tables) (a ∷ id)) checked
      ∙ ap (accept_session s now) g
      ∙ ap
          (λ x.
            if x
            then err session_expired
            else ok (record {
              signed_in = session;
              display_name = first_of session.login session.row.session_email;
            }))
          e

  -- The cookie that `createSessionCookie` issues for a session id, sent back as it is, signs in whom the
  -- session with the hash of the id belongs to, as long as it has not ended. The secret gives a key, the
  -- signature is some bytes and verifies, and the id has no white space and no semicolon.
  pub verify_session-create_session_cookie :
      (c : ℕ) (t : Text) (now : ℕ) (tables : SessionTables) (a : ℕ) (id : Text) (key : List ℕ)
      (b : ℕ) (bytes : List ℕ) (session : Session)
      → Plain (a ∷ id)
      → import_hmac_key s (c ∷ t) ≡ some key
      → s.sign key (s.encode (a ∷ id)) ≡ b ∷ bytes
      → Bytes (b ∷ bytes)
      → s.verify key (b ∷ bytes) (s.encode (a ∷ id)) ≡ true
      → get_session tables (hash_api_key s (a ∷ id)) ≡ some session
      → is_expired s now (s.time_of session.row.expires_at) ≡ false
      → (value : Text) × (create_session_cookie s (c ∷ t) (a ∷ id)
          ≡ some (
              cookie_name
              ++ codes "="
              ++ value
              ++ codes "; Secure; HttpOnly; SameSite=Lax; Path=/; Max-Age=604800"))
        × (verify_session s
              (some (c ∷ t))
              true
              now
              (some tables)
              (some (cookie_name ++ codes "=" ++ value))
            ≡ ok (record {
              signed_in = session;
              display_name = first_of session.login session.row.session_email;
            }))
  unfolding verify_session create_session_cookie
  verify_session-create_session_cookie c t now tables a id key b bytes session p i g h v k e =
      let value : Text = (a ∷ id) ++ (b'.' ∷ hex (b ∷ bytes)) in
      let plain : Plain value =
        Plain-append (a ∷ id) (b'.' ∷ hex (b ∷ bytes)) p (dot_plain, Plain-hex (b ∷ bytes) h) in
      (
        value,
        rw (i, g, create_session_cookie),
        ap (with_cookie s (c ∷ t) now (some tables)) (found_cookie value plain)
            ∙ ap (with_parts s (c ∷ t) now (some tables))
                (split_last_dot-hex (a ∷ id) (b ∷ bytes) h)
            ∙ issued_parts (c ∷ t) now tables a id key b bytes session h i v k e,
      )
