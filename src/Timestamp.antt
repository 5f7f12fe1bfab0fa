-- ===== src/Timestamp.antt =====
-- src/rfc3161.js above the DER primitives: the request, the response and its checks, the stored
-- token. `millis` is the fraction of a second as the source rounds it with floating point, `atob`
-- and `btoa` are the platform's base64, and `post` is the TSA behind `fetch`.
pub mod Checks
pub mod Request
pub mod Response
pub mod Info
mod Tests
use web_resource_ledger.Prelude.{
  ℕ, zero, suc, ◌+◌, ◌-◌, ◌*◌, ◌%◌, ◌^◌, String, List, [], ◌∷◌, ◌++◌, Option, none, some, Bool,
  true, false, not, ◌&&◌, bit_or, ltb, leb, ◌==◌, if◌then◌else◌, length, get_or, take, drop,
}
use web_resource_ledger.Prelude.Texts.{Text, codes, text_eq, starts_with, hex}
use web_resource_ledger.Prelude.Results.{Result, ok, err, ◌>>=◌, ◌>>◌, throw_if}
use web_resource_ledger.Der.{
  Tlv, shift_byte, subarray, write_length, write_tlv, read_tlv, child_at, concat,
  encode_unsigned_integer,
}
use web_resource_ledger.Der.Errors.{
  Thrown, unfinished, bundle_hash_prefix, bundle_hash_length, http_status, response_too_large,
  response_not_sequence, status_info_not_sequence, status_not_integer, rejected_with_status,
  token_not_sequence, content_info_not_sequence, content_info_context, signed_data_not_sequence,
  encap_not_sequence, e_content_context, e_content_not_octets, tst_info_not_sequence,
  imprint_not_sequence, hashed_message_not_octets, gen_time_tag, gen_time_not_utc, missing_imprint,
  missing_gen_time, nonce_mismatch, imprint_mismatch,
}

abbrev pub max_response_bytes : ℕ
max_response_bytes = 65536

abbrev pub oid_sha256 : List ℕ
oid_sha256 = 0x60 ∷ 0x86 ∷ 0x48 ∷ 0x01 ∷ 0x65 ∷ 0x03 ∷ 0x04 ∷ 0x02 ∷ 0x01 ∷ []

-- `if (tlv.tag !== tag) throw e`
abbrev pub expect_tag : Tlv → ℕ → Thrown → Result Thrown (Unit {0})
expect_tag t tag e = throw_if (not (t.tag == tag)) e

unfoldable pub build_time_stamp_req : List ℕ → List ℕ → Result Thrown (List ℕ)
build_time_stamp_req hash_bytes nonce_bytes = do
  version ← write_tlv 0x02 (1 ∷ [])
  oid ← write_tlv 0x06 oid_sha256
  null_parameters ← write_tlv 0x05 []
  alg_id ← write_tlv 0x30 (concat (oid ∷ null_parameters ∷ []))
  hashed_message ← write_tlv 0x04 hash_bytes
  msg_imprint ← write_tlv 0x30 (concat (alg_id ∷ hashed_message ∷ []))
  nonce ← encode_unsigned_integer nonce_bytes
  cert_req ← write_tlv 0x01 (0xff ∷ [])
  write_tlv 0x30 (concat (version ∷ msg_imprint ∷ nonce ∷ cert_req ∷ []))

-- `status = (status << 8) | b` over the bytes, on 32-bit integers.
unfoldable pub status_loop : ℕ → List ℕ → ℕ
status_loop status [] = status
status_loop status (b ∷ bytes) = status_loop (bit_or (shift_byte status) b) bytes

pub record TstInfo : Type 0 where
  pub message_imprint_hex : Text
  pub gen_time : Text
  pub nonce_hex : Option Text

-- The variables that the loop of `parseTSTInfo` fills in.
pub record TstFields : Type 0 where
  pub imprint_so_far : Option Text
  pub gen_time_so_far : Option Text
  pub nonce_so_far : Option Text

-- `respHex` after its sign-extension byte is stripped.
unfoldable pub strip_sign_extension : Text → Text
strip_sign_extension resp_hex =
    if length resp_hex == 34 && starts_with resp_hex (codes "00") then drop 2 resp_hex else resp_hex

unfoldable pub check_nonce : Option Text → List ℕ → Result Thrown (Unit {0})
check_nonce none sent_nonce_bytes = ok tt
check_nonce (some nonce_hex) sent_nonce_bytes =
    throw_if (not (text_eq (strip_sign_extension nonce_hex) (hex sent_nonce_bytes))) nonce_mismatch

abbrev ends_with_z : Text → Bool
ends_with_z gt = if length gt == 0 then false else get_or gt (length gt - 1) 0 == b'Z'

module _ (millis : Text → Text) where
  unfoldable pub parse_generalized_time : Text → Result Thrown Text
  parse_generalized_time gt = do
    throw_if (not (ends_with_z gt)) gen_time_not_utc
    let s = take (length gt - 1) gt
    let frac = if ltb 14 (length s) then drop 14 s else []
    let ms = if length frac == 0 then codes "000" else millis frac
    let date = subarray s 0 4 ++ codes "-" ++ subarray s 4 6 ++ codes "-" ++ subarray s 6 8
    let time = subarray s 8 10 ++ codes ":" ++ subarray s 10 12 ++ codes ":" ++ subarray s 12 14
    ok (date ++ codes "T" ++ time ++ codes "." ++ ms ++ codes "Z")

  -- The `switch` of `parseTSTInfo`: what one child at index `child_idx` sets.
  unfoldable pub tst_child : List ℕ → ℕ → Tlv → TstFields → Result Thrown TstFields
  tst_child buf child_idx child fields =
      if child_idx == 2
      then (do
        expect_tag child 0x30 imprint_not_sequence
        let start = child.end - child.length
        alg_id ← child_at buf start child.end 0
        hash_octet ← child_at buf start child.end 1
        expect_tag hash_octet 0x04 hashed_message_not_octets
        ok (record fields { imprint_so_far = some (hex hash_octet.value) }))
      else if child_idx == 4
      then (do
        expect_tag child 0x18 gen_time_tag
        gen_time ← parse_generalized_time child.value
        ok (record fields { gen_time_so_far = some gen_time }))
      else if ltb 4 child_idx && child.tag == 0x02
      then ok (record fields { nonce_so_far = some (hex child.value) })
      else ok fields

  unfoldable pub tst_loop : ℕ → List ℕ → ℕ → ℕ → ℕ → TstFields → Result Thrown TstFields
  tst_loop zero buf pos end child_idx fields = err unfinished
  tst_loop (suc fuel) buf pos end child_idx fields =
      let next = (do
        child ← read_tlv buf pos
        fields' ← tst_child buf child_idx child fields
        tst_loop fuel buf child.end end (child_idx + 1) fields') in
      if ltb pos end then next else ok fields

  abbrev finish_tst : TstFields → Result Thrown TstInfo
  finish_tst fields = elim fields.imprint_so_far [
    | none ↦ err missing_imprint
    | some imprint ↦ elim fields.gen_time_so_far [
      | none ↦ err missing_gen_time
      | some gen_time ↦ ok (record {
        message_imprint_hex = imprint;
        gen_time = gen_time;
        nonce_hex = fields.nonce_so_far;
      })
    ]
  ]

  abbrev no_fields : TstFields
  no_fields = record { imprint_so_far = none; gen_time_so_far = none; nonce_so_far = none }

  unfoldable pub parse_tst_info : List ℕ → Result Thrown TstInfo
  parse_tst_info buf = do
    tst_info ← read_tlv buf 0
    expect_tag tst_info 0x30 tst_info_not_sequence
    let start = tst_info.end - tst_info.length
    fields ← tst_loop (tst_info.end + 1) buf start tst_info.end 0 no_fields
    finish_tst fields

  unfoldable pub extract_tst_info : List ℕ → ℕ → Result Thrown TstInfo
  extract_tst_info buf tag_offset = do
    content_info ← read_tlv buf tag_offset
    expect_tag content_info 0x30 content_info_not_sequence
    ctx ← child_at buf (content_info.end - content_info.length) content_info.end 1
    expect_tag ctx 0xa0 content_info_context
    signed_data ← child_at buf (ctx.end - ctx.length) ctx.end 0
    expect_tag signed_data 0x30 signed_data_not_sequence
    encap_info ← child_at buf (signed_data.end - signed_data.length) signed_data.end 2
    expect_tag encap_info 0x30 encap_not_sequence
    e_content ← child_at buf (encap_info.end - encap_info.length) encap_info.end 1
    expect_tag e_content 0xa0 e_content_context
    octet_str ← child_at buf (e_content.end - e_content.length) e_content.end 0
    expect_tag octet_str 0x04 e_content_not_octets
    parse_tst_info octet_str.value
