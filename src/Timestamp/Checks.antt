-- ===== src/Timestamp/Checks.antt =====
-- What an accepted response and a valid stored token are known to hold.
use web_resource_ledger.Prelude.{
  ℕ, ◌+◌, ◌-◌, ◌*◌, ◌^◌, ◌%◌, ◌<◌, ◌≤◌, ◌≡◌, refl, ap, sym, ◌∙◌, List, [], ◌∷◌, Option, none, some,
  not, Bool, true, false, ◌==◌, bit_or, ==_iff, length, drop, arith, ◌↔◌, ◌⊎◌, inl, inr,
  Option-cases, subst, ltb, ltb-eq-false→le,
}
use web_resource_ledger.Prelude.Texts.{Text, codes, text_eq, text_eq_iff, starts_with, hex, Bytes}
use web_resource_ledger.Prelude.Bits.{bit_or-shift}
use web_resource_ledger.Prelude.Results.{Result, ok, ◌>>◌, throw_if, >>=-eq-ok, throw_if-eq-ok}
use web_resource_ledger.Der.{Tlv, shift_byte, subarray, read_tlv, child_at}
use web_resource_ledger.Timestamp.{
  TstInfo, build_time_stamp_req, expect_tag, status_loop, check_nonce, strip_sign_extension,
  extract_tst_info,
}
use web_resource_ledger.Der.Children.{Result-cases}
use web_resource_ledger.Der.Errors.{Thrown}
use web_resource_ledger.Timestamp.Response.{
  Stamp, check_status, locate_token, check_info, token_offset, parse_and_validate, verify_timestamp,
  valid, HttpResponse, request_timestamp, hash_loop,
}

not-eq-false→true : (b : Bool) → not b ≡ false → b ≡ true
not-eq-false→true b h = ground arith

ok-injective : {E A : Type 0} {a b : A} → ◌≡◌ {A = Result E A} (ok a) (ok b) → a ≡ b
ok-injective h = cc

throw_if_passed : {E : Type 0} (b : Bool) (e : E) {u : Unit {0}} → throw_if b e ≡ ok u → b ≡ false
throw_if_passed true e h = cc
throw_if_passed false e h = refl

zero_status : (n : ℕ) → not (n == 0) ≡ false → n ≡ 0
zero_status n h = ground arith

-- The status INTEGER of the response, read as 0.
pub record IsGranted (der : List ℕ) (outer : Tlv) : Type 0 where
  pub pki_info : Tlv
  pub status : Tlv
  pub is_pki : child_at der (outer.end - outer.length) outer.end 0 ≡ ok pki_info
  pub is_status : child_at der (pki_info.end - pki_info.length) pki_info.end 0 ≡ ok status
  pub pki_tag : pki_info.tag ≡ 0x30
  pub status_tag : status.tag ≡ 0x02
  pub granted : status_loop 0 status.value ≡ 0

-- The second child of the response, and the offset at which the code reads it again.
pub record IsToken (der : List ℕ) (outer token : Tlv) (offset : ℕ) : Type 0 where
  pub is_token : child_at der (outer.end - outer.length) outer.end 1 ≡ ok token
  pub token_tag : token.tag ≡ 0x30
  pub at_offset : token_offset token ≡ ok offset

-- The content of the token fits what was sent.
pub record Fits (millis : Text → Text) (der : List ℕ) (offset : ℕ) (nonce : List ℕ)
    (bundle_hash : Text) (info : TstInfo) : Type 0 where
  pub extracted : extract_tst_info millis der offset ≡ ok info
  pub same_imprint : info.message_imprint_hex ≡ drop 7 bundle_hash
  pub same_nonce :
      (info.nonce_hex ≡ none)
      ⊎ ((sent : Text) × (info.nonce_hex ≡ some sent) × (strip_sign_extension sent ≡ hex nonce))

-- What `parseAndValidate` has established when it returns.
pub record IsAccepted (millis : Text → Text) (btoa : List ℕ → Text) (der nonce : List ℕ)
    (bundle_hash tsa : Text) (s : Stamp) : Type 0 where
  pub outer : Tlv
  pub token : Tlv
  pub offset : ℕ
  pub info : TstInfo
  pub is_outer : read_tlv der 0 ≡ ok outer
  pub outer_tag : outer.tag ≡ 0x30
  pub status : IsGranted der outer
  pub located : IsToken der outer token offset
  pub fits : Fits millis der offset nonce bundle_hash info
  pub stamp_is :
      s
      ≡ record { token = btoa (subarray der offset token.end); gen_time = info.gen_time; tsa = tsa }

check_nonce_sound :
    (o : Option Text) (nonce : List ℕ)
    → check_nonce o nonce ≡ ok tt
    → (o ≡ none) ⊎ ((sent : Text) × (o ≡ some sent) × (strip_sign_extension sent ≡ hex nonce))
unfolding check_nonce
check_nonce_sound none nonce h = inl refl
check_nonce_sound (some sent) nonce h = inr (sent, refl, (text_eq_iff _ _).0 (ground arith))

module _ {B : Type 0} where
  -- A chain that went on past a check of the tag.
  expect_tag_sound :
      (t : Tlv) (tag : ℕ) (e : Thrown) (k : Result Thrown B) {v : B}
      → (expect_tag t tag e >> k) ≡ ok v
      → (t.tag ≡ tag) × (k ≡ ok v)
  expect_tag_sound t tag e k h = (ground arith, ground arith)

check_status-IsGranted :
    (der : List ℕ) (outer : Tlv) {u : Unit {0}}
    → check_status der outer ≡ ok u
    → IsGranted der outer
unfolding check_status
check_status-IsGranted der outer h =
    let (pki, h2, k3) = >>=-eq-ok (child_at der (outer.end - outer.length) outer.end 0) _ h in
    let (t2, k4) = expect_tag_sound pki _ _ _ k3 in
    let (st, h3, k5) = >>=-eq-ok (child_at der (pki.end - pki.length) pki.end 0) _ k4 in
    let (t3, k6) = expect_tag_sound st _ _ _ k5 in
    record {
      pki_info = pki;
      status = st;
      is_pki = h2;
      is_status = h3;
      pki_tag = t2;
      status_tag = t3;
      granted = zero_status _ (throw_if_passed _ _ k6);
    }

locate_token-IsToken :
    (der : List ℕ) (outer token : Tlv) (offset : ℕ)
    → locate_token der outer ≡ ok (token, offset)
    → IsToken der outer token offset
unfolding locate_token
locate_token-IsToken der outer token offset h =
    let (t, h1, k1) = >>=-eq-ok (child_at der (outer.end - outer.length) outer.end 1) _ h in
    let (tag, k2) = expect_tag_sound t _ _ _ k1 in
    let (o, h2, k3) = >>=-eq-ok (token_offset t) _ k2 in
    let same_token : t ≡ token = ground arith in
    let same_offset : o ≡ offset = ground arith in
    record {
      is_token = h1 ∙ ap ok same_token;
      token_tag = ap (λ (x : Tlv). x.tag) (sym same_token) ∙ tag;
      at_offset = ap token_offset (sym same_token) ∙ h2 ∙ ap ok same_offset;
    }

check_info-Fits :
    (millis : Text → Text) (der : List ℕ) (offset : ℕ) (nonce : List ℕ) (bundle_hash : Text)
    (info : TstInfo)
    → check_info millis der offset nonce bundle_hash ≡ ok info
    → Fits millis der offset nonce bundle_hash info
unfolding check_info
check_info-Fits millis der offset nonce bundle_hash info h =
    let (i, h1, k1) = >>=-eq-ok (extract_tst_info millis der offset) _ h in
    let (u, h2, k2) = >>=-eq-ok (check_nonce i.nonce_hex nonce) _ k1 in
    let (same, k3) =
      throw_if-eq-ok (not (text_eq i.message_imprint_hex (drop 7 bundle_hash))) _ _ k2 in
    let is_info : i ≡ info = ok-injective k3 in
    subst (Fits millis der offset nonce bundle_hash) is_info (record {
      extracted = h1;
      same_imprint = (text_eq_iff _ _).0 (not-eq-false→true _ same);
      same_nonce = check_nonce_sound i.nonce_hex nonce h2;
    })

module _ (millis : Text → Text) (btoa : List ℕ → Text) (der nonce : List ℕ) (bundle_hash tsa : Text)
    (s : Stamp) where
  -- If `parseAndValidate` returns, the status INTEGER was read as 0, the token's imprint is the
  -- submitted hash, its nonce is absent or the one that was sent, and the token, the time and the
  -- TSA that it returns are those of the response.
  pub parse_and_validate-IsAccepted :
      parse_and_validate millis btoa der nonce bundle_hash tsa ≡ ok s
      → IsAccepted millis btoa der nonce bundle_hash tsa s
  unfolding parse_and_validate
  parse_and_validate-IsAccepted h =
      let (outer, h1, k1) = >>=-eq-ok (read_tlv der 0) _ h in
      let (t1, k2) = expect_tag_sound outer _ _ _ k1 in
      let (u, h2, k3) = >>=-eq-ok (check_status der outer) _ k2 in
      let ((token, offset), h3, k4) = >>=-eq-ok (locate_token der outer) _ k3 in
      let (info, h4, k5) = >>=-eq-ok (check_info millis der offset nonce bundle_hash) _ k4 in
      record {
        outer = outer;
        token = token;
        offset = offset;
        info = info;
        is_outer = h1;
        outer_tag = t1;
        status = check_status-IsGranted der outer h2;
        located = locate_token-IsToken der outer token offset h3;
        fits = check_info-Fits millis der offset nonce bundle_hash info h4;
        stamp_is = sym (ok-injective k5);
      }

-- If `requestTimestamp` returns, the hash was well formed, the request that was posted is the one
-- built for that hash and nonce, the response was small enough and `parseAndValidate` accepted it.
pub request_timestamp-IsAccepted :
    (millis : Text → Text) (btoa : List ℕ → Text) (post : List ℕ → HttpResponse) (nonce : List ℕ)
    (tsa bundle_hash : Text) (s : Stamp)
    → request_timestamp millis btoa post nonce tsa bundle_hash ≡ ok s
    → (req : List ℕ) × (starts_with bundle_hash (codes "sha256:") ≡ true)
      × (length (drop 7 bundle_hash) ≡ 64)
      × (build_time_stamp_req (hash_loop 32 (drop 7 bundle_hash)) nonce ≡ ok req)
      × ((post req).is_ok ≡ true)
      × (length (post req).body ≤ 65536)
      × IsAccepted millis btoa (post req).body nonce bundle_hash tsa s
unfolding request_timestamp
request_timestamp-IsAccepted millis btoa post nonce tsa bundle_hash s h =
    let (prefix, k1) = throw_if-eq-ok (not (starts_with bundle_hash (codes "sha256:"))) _ _ h in
    let (size, k2) = throw_if-eq-ok (not (length (drop 7 bundle_hash) == 64)) _ _ k1 in
    let (req, built, k3) =
      >>=-eq-ok (build_time_stamp_req (hash_loop 32 (drop 7 bundle_hash)) nonce) _ k2 in
    let (good, k4) = throw_if-eq-ok (not (post req).is_ok) _ _ k3 in
    let (small, k5) = throw_if-eq-ok (ltb 65536 (length (post req).body)) _ _ k4 in
    (
      req,
      not-eq-false→true _ prefix,
      (==_iff _ _).0 (not-eq-false→true _ size),
      built,
      not-eq-false→true _ good,
      ltb-eq-false→le _ _ small,
      parse_and_validate-IsAccepted millis btoa (post req).body nonce bundle_hash tsa s k5,
    )

module _ (millis : Text → Text) (atob : Text → Option (List ℕ))
    (token expected gen_time : Text) where
  -- A stored token is reported as valid with a time exactly when it decodes to a TSTInfo with that
  -- time, the expected hash has its prefix, and the token's imprint is the hash behind the prefix.
  pub verify_timestamp_iff : (verify_timestamp millis atob token expected ≡ valid gen_time) ↔ (
      (der : List ℕ) × (info : TstInfo) × (atob token ≡ some der)
      × (extract_tst_info millis der 0 ≡ ok info)
      × (starts_with expected (codes "sha256:") ≡ true)
      × (info.message_imprint_hex ≡ drop 7 expected)
      × (info.gen_time ≡ gen_time))
  unfolding verify_timestamp
  verify_timestamp_iff = (
    (λ h. elim (Option-cases (atob token)) [
      | inl e ↦ absurd (ground (arith, e))
      | inr (der, e) ↦ elim (Result-cases (extract_tst_info millis der 0)) [
        | inl (info, x) ↦
            let (p, q) = text_eq_iff info.message_imprint_hex (drop 7 expected) in
            (der, info, e, x, ground arith, ground arith, ground arith)
        | inr (t, x) ↦ absurd (ground (arith, e, x))
      ]
    ]),
    (λ (der, info, e, x, prefix, same, time).
        let eq = (text_eq_iff info.message_imprint_hex (drop 7 expected)).1 same in
        ground (arith, e, x, prefix, eq, time)),
  )

-- The number that the bytes of an INTEGER stand for, most significant byte first.
abbrev pub big_endian : ℕ → List ℕ → ℕ
big_endian n [] = n
big_endian n (b ∷ bytes) = big_endian (n * 256 + b) bytes

status_byte : (n b : ℕ) → b < 256 → bit_or (shift_byte (n % 2 ^ 32)) b ≡ (n * 256 + b) % 2 ^ 32
status_byte n b h =
    let e : n % 2 ^ 32 * 2 ^ 8 % 2 ^ 32 ≡ n % 2 ^ 24 * 2 ^ 8 = omega arith in
    rw e (omega (arith, bit_or-shift 8 (n % 2 ^ 24) b (omega arith)))

status_loop_mod :
    (n : ℕ) (bytes : List ℕ)
    → Bytes bytes
    → status_loop (n % 2 ^ 32) bytes ≡ big_endian n bytes % 2 ^ 32
unfolding status_loop
status_loop_mod n [] h = refl
status_loop_mod n (b ∷ bytes) h = rw (status_byte n b h.0) (status_loop_mod (n * 256 + b) bytes h.1)

-- The PKIStatus that the code reads is the number of the INTEGER's bytes modulo 2^32, so a status
-- of more than four bytes counts as granted when its low 32 bits are 0.
pub status_loop_lem :
    (bytes : List ℕ) → Bytes bytes → status_loop 0 bytes ≡ big_endian 0 bytes % 2 ^ 32
status_loop_lem bytes h = status_loop_mod 0 bytes h
