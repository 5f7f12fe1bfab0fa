-- ===== src/Sessions/Cookies.antt =====
-- src/session.js: whom `verifySession` lets in.
use mathlib.Core.Option.{some-injective}
use web_resource_ledger.Prelude.{
  ℕ, ◌≡◌, refl, ap, sym, ◌∙◌, List, [], ◌∷◌, Option, none, some, Bool, true, false, if◌then◌else◌,
  drop,
}
use web_resource_ledger.Prelude.Texts.{Text, split}
use web_resource_ledger.Prelude.Results.{Result, ok, err}
use web_resource_ledger.Sessions.{
  Secrets, SessionTables, Session, SessionReason, session_expired, SignedIn, match_pairs,
  find_cookie, split_last_dot, get_session, hash_api_key, import_hmac_key, is_expired,
  accept_session, look_up, check_hmac, after_hmac, with_parts, with_cookie, with_header,
  verify_session, first_of,
}

-- A signed-in session of a result.
signed_or : Session → Result SessionReason SignedIn → Session
signed_or other (ok r) = r.signed_in
signed_or other (err e) = other

module _ (s : Secrets) where
  -- A cookie that was signed with the secret, for a session that the given database has and that has not ended.
  pub record IsSigned (secret : Text) (now : ℕ) (given : Option SessionTables) (header : Text)
      (r : SignedIn) : Type 0 where
    pub cookie : Text
    pub has_cookie : find_cookie (split b';' header) ≡ some cookie
    pub session_id : Text
    pub received : Text
    pub parts : split_last_dot (drop 19 cookie) ≡ some (session_id, received)
    pub key : List ℕ
    pub imported : import_hmac_key s secret ≡ some key
    pub bytes : List ℕ
    pub decoded : match_pairs received ≡ some bytes
    pub signed : s.verify key bytes (s.encode session_id) ≡ true
    pub tables : SessionTables
    pub available : given ≡ some tables
    pub known : get_session tables (hash_api_key s session_id) ≡ some r.signed_in
    pub lasts : is_expired s now (s.time_of r.signed_in.row.expires_at) ≡ false

  accept_session-ok :
      (now : ℕ) (o : Option Session) (r : SignedIn)
      → accept_session s now o ≡ ok r
      → (o ≡ some r.signed_in) × (is_expired s now (s.time_of r.signed_in.row.expires_at) ≡ false)
  unfolding signed_or
  accept_session-ok now none r h = cc
  accept_session-ok now (some session) r h =
      by_time (is_expired s now (s.time_of session.row.expires_at)) refl h
    where
      by_time :
          (b : Bool)
          → is_expired s now (s.time_of session.row.expires_at) ≡ b
          → (if b
              then err session_expired
              else ok (record {
                signed_in = session;
                display_name = first_of session.login session.row.session_email;
              }))
            ≡ ok r
          → (some session ≡ some r.signed_in)
            × (is_expired s now (s.time_of r.signed_in.row.expires_at) ≡ false)
      by_time true e k = cc
      by_time false e k =
          let same : session ≡ r.signed_in = ap (signed_or session) k in
          (ap some same, ap (λ x. is_expired s now (s.time_of x.row.expires_at)) (sym same) ∙ e)

  check_hmac-some :
      (secret session_id received : Text)
      → check_hmac s secret session_id received ≡ some true
      → (key bytes : List ℕ) × (import_hmac_key s secret ≡ some key)
        × (match_pairs received ≡ some bytes)
        × (s.verify key bytes (s.encode session_id) ≡ true)
  check_hmac-some secret session_id received h =
      by_key (import_hmac_key s secret) refl (match_pairs received) refl
    where
      by_key :
          (k : Option (List ℕ))
          → import_hmac_key s secret ≡ k
          → (m : Option (List ℕ)) → match_pairs received ≡ m
          → (key bytes : List ℕ) × (import_hmac_key s secret ≡ some key)
            × (match_pairs received ≡ some bytes)
            × (s.verify key bytes (s.encode session_id) ≡ true)
      by_key none e m f = let k : none ≡ some true = rw (e, check_hmac) at h in cc
      by_key (some key) e none f = let k : none ≡ some true = rw (e, f, check_hmac) at h in cc
      by_key (some key) e (some bytes) f =
          let k : some (s.verify key bytes (s.encode session_id)) ≡ some true =
            rw (e, f, check_hmac) at h in
          (key, bytes, e, f, some-injective _ _ k)

  with_header-IsSigned :
      (secret : Text) (now : ℕ) (tables : Option SessionTables) (header : Text) (r : SignedIn)
      → with_header s secret now tables (some header) ≡ ok r
      → IsSigned secret now tables header r
  with_header-IsSigned secret now tables [] r h = cc
  with_header-IsSigned secret now tables (c ∷ t) r h =
      by_cookie (find_cookie (split b';' (c ∷ t))) refl h
    where
      by_tables :
          (o : Option SessionTables) (cookie id received : Text)
          → find_cookie (split b';' (c ∷ t)) ≡ some cookie
          → split_last_dot (drop 19 cookie) ≡ some (id, received)
          → (key bytes : List ℕ) × (import_hmac_key s secret ≡ some key)
            × (match_pairs received ≡ some bytes)
            × (s.verify key bytes (s.encode id) ≡ true)
          → tables ≡ o
          → look_up s now o id ≡ ok r
          → IsSigned secret now tables (c ∷ t) r
      by_tables none cookie id received e f g w k = cc
      by_tables (some given) cookie id received e f (key, bytes, i, d, v) w k =
          let found = accept_session-ok now (get_session given (hash_api_key s id)) r k in
          record {
            cookie = cookie;
            has_cookie = e;
            session_id = id;
            received = received;
            parts = f;
            key = key;
            imported = i;
            bytes = bytes;
            decoded = d;
            signed = v;
            tables = given;
            available = w;
            known = found.0;
            lasts = found.1;
          }

      by_hmac :
          (b : Option Bool) (cookie id received : Text)
          → find_cookie (split b';' (c ∷ t)) ≡ some cookie
          → split_last_dot (drop 19 cookie) ≡ some (id, received)
          → check_hmac s secret id received ≡ b
          → after_hmac s b now tables id ≡ ok r
          → IsSigned secret now tables (c ∷ t) r
      by_hmac none cookie id received e f g k = cc
      by_hmac (some false) cookie id received e f g k = cc
      by_hmac (some true) cookie id received e f g k =
          by_tables tables cookie id received e f (check_hmac-some secret id received g) refl k

      by_parts :
          (p : Option (Text × Text)) (cookie : Text)
          → find_cookie (split b';' (c ∷ t)) ≡ some cookie
          → split_last_dot (drop 19 cookie) ≡ p
          → with_parts s secret now tables p ≡ ok r
          → IsSigned secret now tables (c ∷ t) r
      by_parts none cookie e f k = cc
      by_parts (some ([], received)) cookie e f k = cc
      by_parts (some (a ∷ id, [])) cookie e f k = cc
      by_parts (some (a ∷ id, d ∷ received)) cookie e f k =
          by_hmac (check_hmac s secret (a ∷ id) (d ∷ received)) cookie (a ∷ id) (d ∷ received) e f
            refl k

      by_cookie :
          (o : Option Text)
          → find_cookie (split b';' (c ∷ t)) ≡ o
          → with_cookie s secret now tables o ≡ ok r
          → IsSigned secret now tables (c ∷ t) r
      by_cookie none e k = cc
      by_cookie (some cookie) e k = by_parts (split_last_dot (drop 19 cookie)) cookie e refl k

  -- Whoever is let in came with a session cookie of which the last dot divides a session id from the
  -- bytes of a signature of that id under the secret, and the session that the
  -- database given has with the hash of the id is the one that is returned, has a user, and has not ended; a date that is not valid never ends.
  pub verify_session-IsSigned :
      (secret : Text) (has_db : Bool) (now : ℕ) (tables : Option SessionTables) (header : Text)
      (r : SignedIn)
      → verify_session s (some secret) has_db now tables (some header) ≡ ok r
      → IsSigned secret now tables header r
  unfolding verify_session
  verify_session-IsSigned [] has_db now tables header r h = cc
  verify_session-IsSigned (c ∷ t) false now tables header r h = cc
  verify_session-IsSigned (c ∷ t) true now tables header r h =
      with_header-IsSigned (c ∷ t) now tables header r h
