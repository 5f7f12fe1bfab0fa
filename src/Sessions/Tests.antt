-- ===== src/Sessions/Tests.antt =====
-- A session of an e-mail user, with a signature that is the key and the id.
use web_resource_ledger.Prelude.{◌≡◌, refl, [], ◌∷◌, ◌++◌, none, some, true, arith}
use web_resource_ledger.Prelude.Texts.{Text, codes, text_eq, starts_with, split, hex, hex_digit}
use web_resource_ledger.Prelude.Results.{ok}
use web_resource_ledger.Prelude.Integers.{parse_int_16, is_space}
use web_resource_ledger.Sessions.{
  Secrets, SessionTables, SessionRow, Session, SignedIn, byte_pairs, trim_left, trim_right,
  find_cookie, split_last_dot, find_session, find_email, find_github, get_session, hash_api_key,
  import_hmac_key, create_session_cookie, verify_session, cookie_name,
}
use web_resource_ledger.Sessions.Cookies.{IsSigned, verify_session-IsSigned}
use web_resource_ledger.Sessions.Issued.{verify_session-create_session_cookie}

abbrev secrets : Secrets
secrets = record {
  encode = λ t. t;
  sha256_digest = λ bytes. bytes;
  import_key = λ bytes. some bytes;
  sign = λ key message. 66 ∷ [];
  verify = λ key signature message. true;
  time_of = λ t. some 1000;
}

abbrev row : SessionRow
row = record {
  id_hash = codes "61";
  github_id = none;
  session_email = some (codes "m");
  session_tenant = codes "t";
  expires_at = codes "2026";
}

abbrev tables : SessionTables
tables = record {
  sessions = row ∷ [];
  github_users = [];
  email_users = record { user_email = codes "m"; email_tos_accepted_at = none } ∷ [];
}

abbrev session : Session
session = record { row = row; login = none; tos_accepted_at = none }

abbrev signed_in : SignedIn
signed_in = record { signed_in = session; display_name = some (codes "m") }

verify_session-IsSigned_example :
    IsSigned secrets (codes "00") 500 (some tables) (codes "__Host-wrl_session=a.42") signed_in
unfolding verify_session find_cookie split starts_with trim_left trim_right is_space split_last_dot
    import_hmac_key byte_pairs parse_int_16 get_session hash_api_key hex hex_digit find_session
    find_email find_github text_eq
verify_session-IsSigned_example =
    verify_session-IsSigned secrets (codes "00") true 500 (some tables)
      (codes "__Host-wrl_session=a.42") signed_in refl

verify_session-create_session_cookie_example :
    (value : Text) × (create_session_cookie secrets (codes "00") (codes "a")
      ≡ some (
          cookie_name
          ++ codes "="
          ++ value
          ++ codes "; Secure; HttpOnly; SameSite=Lax; Path=/; Max-Age=604800"))
    × (verify_session secrets
          (some (codes "00"))
          true
          500
          (some tables)
          (some (cookie_name ++ codes "=" ++ value))
        ≡ ok signed_in)
unfolding is_space import_hmac_key byte_pairs parse_int_16 get_session hash_api_key hex hex_digit
    find_session find_email find_github text_eq
verify_session-create_session_cookie_example =
    verify_session-create_session_cookie secrets 48 (codes "0") 500 tables 97 [] (0 ∷ []) 66 []
      session ((refl, refl), tt) refl refl (omega arith, tt) refl refl refl
