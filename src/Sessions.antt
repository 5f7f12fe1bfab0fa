-- ===== src/Sessions.antt =====
-- src/session.js: `createSessionCookie` and `verifySession`; src/auth.js: `hashApiKey`; src/db.js:
-- `getSession`. HMAC, SHA-256, UTF-8 and the time of a date text are parameters; `none` stands for what
-- they throw. Responses are their reasons; log lines are left out.
pub mod Cookies
pub mod Issued
mod Tests
use web_resource_ledger.Prelude.{
  ℕ, List, [], ◌∷◌, ◌++◌, map, Option, none, some, Bool, true, false, not, ◌&&◌, ◌||◌, ◌==◌, ltb,
  if◌then◌else◌, take, drop, length,
}
use web_resource_ledger.Prelude.Texts.{Text, codes, text_eq, starts_with, split, hex}
use web_resource_ledger.Prelude.Integers.{parse_int_16, is_space}
use web_resource_ledger.Prelude.Results.{Result, ok, err}
use web_resource_ledger.Timestamp.Response.{to_uint8}

abbrev pub cookie_name : Text
cookie_name = codes "__Host-wrl_session"

pub record SessionRow : Type 0 where
  pub id_hash : Text
  pub github_id : Option Text
  pub session_email : Option Text
  pub session_tenant : Text
  pub expires_at : Text

pub record GithubUser : Type 0 where
  pub user_github_id : Text
  pub github_login : Option Text
  pub github_tos_accepted_at : Option Text

pub record EmailUser : Type 0 where
  pub user_email : Text
  pub email_tos_accepted_at : Option Text

pub record SessionTables : Type 0 where
  pub sessions : List SessionRow
  pub github_users : List GithubUser
  pub email_users : List EmailUser

-- A session with what the joined rows give.
pub record Session : Type 0 where
  pub row : SessionRow
  pub login : Option Text
  pub tos_accepted_at : Option Text

unfoldable pub find_github : Option Text → List GithubUser → Option GithubUser
find_github none users = none
find_github (some id) [] = none
find_github (some id) (u ∷ users) =
    if text_eq u.user_github_id id then some u else find_github (some id) users

unfoldable pub find_email : Option Text → List EmailUser → Option EmailUser
find_email none users = none
find_email (some email) [] = none
find_email (some email) (u ∷ users) =
    if text_eq u.user_email email then some u else find_email (some email) users

-- `value ?? other`
abbrev pub first_of : Option Text → Option Text → Option Text
first_of (some t) other = some t
first_of none other = other

-- `none` for a row without a user.
abbrev pub joined : SessionRow → Option GithubUser → Option EmailUser → Option Session
joined row none none = none
joined row (some u) none =
    some (record { row = row; login = u.github_login; tos_accepted_at = u.github_tos_accepted_at })
joined row none (some e) =
    some (record { row = row; login = none; tos_accepted_at = e.email_tos_accepted_at })
joined row (some u) (some e) = some (record {
  row = row;
  login = u.github_login;
  tos_accepted_at = first_of u.github_tos_accepted_at e.email_tos_accepted_at;
})

-- The hash is the primary key of the sessions.
unfoldable pub find_session : Text → List SessionRow → Option SessionRow
find_session id_hash [] = none
find_session id_hash (row ∷ rows) =
    if text_eq row.id_hash id_hash then some row else find_session id_hash rows

unfoldable pub get_session : SessionTables → Text → Option Session
get_session tables id_hash = elim (find_session id_hash tables.sessions) [
  | none ↦ none
  | some row ↦
      joined row (find_github row.github_id tables.github_users)
        (find_email row.session_email tables.email_users)
]

pub data SessionReason : Type 0 where
  service_not_configured missing_cookie malformed_cookie signature_error invalid_signature :
      SessionReason
  db_error session_not_found session_expired : SessionReason

pub record SignedIn : Type 0 where
  pub signed_in : Session
  pub display_name : Option Text

-- `hex.match(/.{2}/g).map(...)`: whole pairs only, and null without a pair. A header has no line breaks.
unfoldable pub byte_pairs : Text → List ℕ
byte_pairs [] = []
byte_pairs (a ∷ []) = []
byte_pairs (a ∷ b ∷ t) = to_uint8 (parse_int_16 (a ∷ b ∷ [])) ∷ byte_pairs t

abbrev pub match_pairs : Text → Option (List ℕ)
match_pairs [] = none
match_pairs (a ∷ []) = none
match_pairs (a ∷ b ∷ t) = some (byte_pairs (a ∷ b ∷ t))

-- `s.trim()`
unfoldable pub trim_left : Text → Text
trim_left [] = []
trim_left (c ∷ t) = let rest = trim_left t in if is_space c then rest else c ∷ t

unfoldable pub trim_right : Text → Text
trim_right [] = []
trim_right (c ∷ t) =
    let rest = trim_right t in if is_space c && length rest == 0 then [] else c ∷ rest

-- The first part that is the session's cookie.
unfoldable pub find_cookie : List Text → Option Text
find_cookie [] = none
find_cookie (part ∷ parts) =
    if starts_with (trim_left (trim_right part)) (cookie_name ++ codes "=")
    then some (trim_left (trim_right part))
    else find_cookie parts

-- The parts before and after the last dot.
unfoldable pub split_last_dot : Text → Option (Text × Text)
split_last_dot [] = none
split_last_dot (c ∷ t) = elim (split_last_dot t) [
  | some (a, b) ↦ some (c ∷ a, b)
  | none ↦ if c == b'.' then some ([], t) else none
]

pub record Secrets : Type 0 where
  pub encode : Text → List ℕ
  pub sha256_digest : List ℕ → List ℕ
  pub import_key : List ℕ → Option (List ℕ)
  pub sign : List ℕ → List ℕ → List ℕ
  pub verify : List ℕ → List ℕ → List ℕ → Bool
  pub time_of : Text → Option ℕ

module _ (s : Secrets) where
  unfoldable pub hash_api_key : Text → Text
  hash_api_key raw_key = hex (s.sha256_digest (s.encode raw_key))

  -- `importHmacKey`
  unfoldable pub import_hmac_key : Text → Option (List ℕ)
  import_hmac_key secret_hex = elim (match_pairs secret_hex) [
    | none ↦ none
    | some bytes ↦ s.import_key bytes
  ]

  -- The value of the cookie, without its attributes.
  abbrev pub cookie_with : List ℕ → Text → Text
  cookie_with key session_id = session_id ++ (b'.' ∷ hex (s.sign key (s.encode session_id)))

  unfoldable pub create_session_cookie : (secret session_id : Text) → Option Text
  create_session_cookie secret session_id = elim (import_hmac_key secret) [
    | none ↦ none
    | some key ↦ some (
        cookie_name
        ++ codes "="
        ++ cookie_with key session_id
        ++ codes "; Secure; HttpOnly; SameSite=Lax; Path=/; Max-Age=604800")
  ]

  -- A date that is not valid compares as false.
  abbrev pub is_expired : ℕ → Option ℕ → Bool
  is_expired now none = false
  is_expired now (some expires) = ltb expires now

  abbrev pub accept_session : ℕ → Option Session → Result SessionReason SignedIn
  accept_session now none = err session_not_found
  accept_session now (some session) =
      if is_expired now (s.time_of session.row.expires_at)
      then err session_expired
      else ok (record {
        signed_in = session;
        display_name = first_of session.login session.row.session_email;
      })

  -- The lookup; `tables` is `none` when the query throws.
  abbrev pub look_up : ℕ → Option SessionTables → Text → Result SessionReason SignedIn
  look_up now none session_id = err db_error
  look_up now (some tables) session_id =
      accept_session now (get_session tables (hash_api_key session_id))

  -- The `try` block around the signature.
  abbrev pub check_hmac : Text → Text → Text → Option Bool
  check_hmac secret session_id received = elim (import_hmac_key secret) [
    | none ↦ none
    | some key ↦ elim (match_pairs received) [
      | none ↦ none
      | some bytes ↦ some (s.verify key bytes (s.encode session_id))
    ]
  ]

  abbrev pub after_hmac :
      Option Bool → ℕ → Option SessionTables → Text → Result SessionReason SignedIn
  after_hmac none now tables session_id = err signature_error
  after_hmac (some false) now tables session_id = err invalid_signature
  after_hmac (some true) now tables session_id = look_up now tables session_id

  abbrev pub with_parts :
      Text → ℕ → Option SessionTables → Option (Text × Text) → Result SessionReason SignedIn
  with_parts secret now tables none = err malformed_cookie
  with_parts secret now tables (some ([], received)) = err malformed_cookie
  with_parts secret now tables (some (c ∷ t, [])) = err malformed_cookie
  with_parts secret now tables (some (c ∷ t, d ∷ u)) =
      after_hmac (check_hmac secret (c ∷ t) (d ∷ u)) now tables (c ∷ t)

  abbrev pub with_cookie :
      Text → ℕ → Option SessionTables → Option Text → Result SessionReason SignedIn
  with_cookie secret now tables none = err missing_cookie
  with_cookie secret now tables (some cookie) =
      with_parts secret now tables (split_last_dot (drop 19 cookie))

  -- A secret that is set and not empty, with the header of the cookies.
  abbrev pub with_header :
      Text → ℕ → Option SessionTables → Option Text → Result SessionReason SignedIn
  with_header secret now tables none = err missing_cookie
  with_header secret now tables (some []) = err missing_cookie
  with_header secret now tables (some (c ∷ t)) =
      with_cookie secret now tables (find_cookie (split b';' (c ∷ t)))

  unfoldable pub verify_session :
      (secret : Option Text) (has_db : Bool) (now : ℕ)
      → Option SessionTables
      → Option Text
      → Result SessionReason SignedIn
  verify_session none has_db now tables header = err service_not_configured
  verify_session (some []) has_db now tables header = err service_not_configured
  verify_session (some (c ∷ t)) false now tables header = err service_not_configured
  verify_session (some (c ∷ t)) true now tables header = with_header (c ∷ t) now tables header
