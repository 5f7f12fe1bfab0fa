-- ===== src/Timestamp/Response.antt =====
-- src/rfc3161.js: `parseAndValidate`, `verifyTimestamp` and `requestTimestamp`.
use web_resource_ledger.Prelude.{
  ℕ, zero, suc, ◌+◌, ◌-◌, ◌%◌, List, [], ◌∷◌, Option, none, some, Bool, not, ltb, ◌==◌,
  if◌then◌else◌, length, take, drop,
}
use web_resource_ledger.Prelude.Texts.{Text, codes, text_eq, starts_with}
use web_resource_ledger.Prelude.Integers.{ℤ, pos, negsuc, parse_int_16}
use web_resource_ledger.Prelude.Results.{Result, ok, err, ◌>>=◌, ◌>>◌, throw_if}
use web_resource_ledger.Der.{Tlv, subarray, write_length, read_tlv, child_at}
use web_resource_ledger.Der.Errors.{
  Thrown, bundle_hash_prefix, bundle_hash_length, http_status, response_too_large,
  response_not_sequence, status_info_not_sequence, status_not_integer, rejected_with_status,
  token_not_sequence, imprint_mismatch,
}
use web_resource_ledger.Timestamp.{
  TstInfo, max_response_bytes, expect_tag, build_time_stamp_req, status_loop, check_nonce,
  extract_tst_info,
}

pub record Stamp : Type 0 where
  pub token : Text
  pub gen_time : Text
  pub tsa : Text

-- A response of `fetch`, read to its end.
pub record HttpResponse : Type 0 where
  pub is_ok : Bool
  pub status : ℕ
  pub body : List ℕ

-- The offset of the token's tag byte, recomputed from the end, the length and the length's encoding.
unfoldable pub token_offset : Tlv → Result Thrown ℕ
token_offset token = do
  len_bytes ← write_length token.length
  ok (token.end - token.length - length len_bytes - 1)

-- One element of a Uint8Array set from `parseInt`: NaN becomes 0, a number is reduced.
abbrev pub to_uint8 : Option ℤ → ℕ
to_uint8 none = 0
to_uint8 (some (pos n)) = n % 256
to_uint8 (some (negsuc n)) = (256 - (n + 1) % 256) % 256

-- The loop over the 32 pairs of digits.
unfoldable pub hash_loop : ℕ → Text → List ℕ
hash_loop zero hex_hash = []
hash_loop (suc rounds) hex_hash =
    to_uint8 (parse_int_16 (take 2 hex_hash)) ∷ hash_loop rounds (drop 2 hex_hash)

pub data Reason : Type 0 where
  bad_base64 expected_prefix imprint_differs : Reason
  thrown : Thrown → Reason

pub data Verdict : Type 0 where
  valid : Text → Verdict
  invalid : Reason → Verdict

-- The stages of `parseAndValidate`: the status, the token and its offset, the checked TSTInfo.
unfoldable pub check_status : List ℕ → Tlv → Result Thrown (Unit {0})
check_status der outer = do
  pki_info ← child_at der (outer.end - outer.length) outer.end 0
  expect_tag pki_info 0x30 status_info_not_sequence
  status_tlv ← child_at der (pki_info.end - pki_info.length) pki_info.end 0
  expect_tag status_tlv 0x02 status_not_integer
  let status = status_loop 0 status_tlv.value
  throw_if (not (status == 0)) (rejected_with_status status)

unfoldable pub locate_token : List ℕ → Tlv → Result Thrown (Tlv × ℕ)
locate_token der outer = do
  token_tlv ← child_at der (outer.end - outer.length) outer.end 1
  expect_tag token_tlv 0x30 token_not_sequence
  token_tag_offset ← token_offset token_tlv
  ok (token_tlv, token_tag_offset)

unfoldable pub check_info : (Text → Text) → List ℕ → ℕ → List ℕ → Text → Result Thrown TstInfo
check_info millis der token_tag_offset sent_nonce_bytes bundle_hash = do
  info ← extract_tst_info millis der token_tag_offset
  check_nonce info.nonce_hex sent_nonce_bytes
  throw_if (not (text_eq info.message_imprint_hex (drop 7 bundle_hash))) imprint_mismatch
  ok info

module _ (millis : Text → Text) (btoa : List ℕ → Text) where
  unfoldable pub parse_and_validate : List ℕ → List ℕ → Text → Text → Result Thrown Stamp
  parse_and_validate der sent_nonce_bytes bundle_hash tsa_url = do
    outer ← read_tlv der 0
    expect_tag outer 0x30 response_not_sequence
    check_status der outer
    (token_tlv, token_tag_offset) ← locate_token der outer
    info ← check_info millis der token_tag_offset sent_nonce_bytes bundle_hash
    ok (record {
      token = btoa (subarray der token_tag_offset token_tlv.end);
      gen_time = info.gen_time;
      tsa = tsa_url;
    })

  unfoldable pub request_timestamp :
      (post : List ℕ → HttpResponse) (nonce_bytes : List ℕ) (tsa_url bundle_hash : Text)
      → Result Thrown Stamp
  request_timestamp post nonce_bytes tsa_url bundle_hash = do
    throw_if (not (starts_with bundle_hash (codes "sha256:"))) bundle_hash_prefix
    let hex_hash = drop 7 bundle_hash
    throw_if (not (length hex_hash == 64)) bundle_hash_length
    req_der ← build_time_stamp_req (hash_loop 32 hex_hash) nonce_bytes
    let resp = post req_der
    throw_if (not resp.is_ok) (http_status resp.status)
    throw_if (ltb max_response_bytes (length resp.body)) (response_too_large (length resp.body))
    parse_and_validate resp.body nonce_bytes bundle_hash tsa_url

module _ (millis : Text → Text) (atob : Text → Option (List ℕ)) where
  unfoldable pub verify_token : List ℕ → Text → Result Thrown Verdict
  verify_token token_der expected_bundle_hash = do
    info ← extract_tst_info millis token_der 0
    let expected_hex = drop 7 expected_bundle_hash
    let same = text_eq info.message_imprint_hex expected_hex
    let checked = if same then valid info.gen_time else invalid imprint_differs
    let has_prefix = starts_with expected_bundle_hash (codes "sha256:")
    ok (if has_prefix then checked else invalid expected_prefix)

  -- The `catch` of `verifyTimestamp`.
  abbrev caught : Result Thrown Verdict → Verdict
  caught (ok v) = v
  caught (err e) = invalid (thrown e)

  unfoldable pub verify_timestamp : Text → Text → Verdict
  unfolding verify_token
  verify_timestamp token_base64 expected_bundle_hash = elim (atob token_base64) [
    | none ↦ invalid bad_base64
    | some token_der ↦ caught (verify_token token_der expected_bundle_hash)
  ]
