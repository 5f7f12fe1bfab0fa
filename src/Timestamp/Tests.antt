-- ===== src/Timestamp/Tests.antt =====
-- A whole response of a TSA, built block by block, and the theorems of this module at it.
use web_resource_ledger.Prelude.{
  ℕ, ◌≢◌, ◌≡◌, ◌↔◌, refl, List, [], ◌∷◌, ◌++◌, some, length, replicate, arith, drop, Option, ◌%◌,
  ◌^◌, true, ◌≤◌,
}
use web_resource_ledger.Prelude.Texts.{Text, codes, text_eq, starts_with, hex}
use web_resource_ledger.Prelude.Integers.{parse_int_16}
use web_resource_ledger.Prelude.Results.{ok, err}
use web_resource_ledger.Der.{
  Tlv, write_length, write_tlv, read_length, read_tlv, length_loop, child_at, concat,
  encode_unsigned_integer,
}
use web_resource_ledger.Der.Errors.{unfinished}
use web_resource_ledger.Der.Blocks.{IsBlock, read_tlv-IsBlock, read_tlv-write_tlv}
use web_resource_ledger.Der.Children.{write_blocks, Holds, child_at_finishes, child_at-write_blocks}
use web_resource_ledger.Timestamp.{
  TstInfo, build_time_stamp_req, status_loop, tst_loop, tst_child, parse_tst_info, extract_tst_info,
  parse_generalized_time, check_nonce, strip_sign_extension,
}
use web_resource_ledger.Timestamp.Response.{
  Stamp, HttpResponse, token_offset, hash_loop, check_status, locate_token, check_info,
  parse_and_validate, request_timestamp, verify_timestamp, valid,
}
use web_resource_ledger.Timestamp.Checks.{
  IsAccepted, parse_and_validate-IsAccepted, request_timestamp-IsAccepted, verify_timestamp_iff,
  status_loop_lem, big_endian,
}
use web_resource_ledger.Timestamp.Info.{parse_tst_info-written}
use web_resource_ledger.Timestamp.Request.{IsRequest, build_time_stamp_req-IsRequest}

abbrev block : ℕ → List ℕ → List ℕ
block tag content = tag ∷ length content ∷ content

abbrev no_millis : Text → Text
no_millis frac = frac

abbrev plain_base64 : List ℕ → Text
plain_base64 bytes = bytes

abbrev plain_decode : Text → Option (List ℕ)
plain_decode text = some text

abbrev nonce : List ℕ
nonce = replicate 16 0x81

abbrev hash : List ℕ
hash = replicate 32 0x2a

abbrev bundle_hash : Text
bundle_hash =
    codes "sha256:" ++ codes "2a2a2a2a2a2a2a2a2a2a2a2a2a2a2a2a2a2a2a2a2a2a2a2a2a2a2a2a2a2a2a2a"

abbrev time : Text
time = codes "20260102030405Z"

abbrev iso_time : Text
iso_time = codes "2026-01-02T03:04:05.000Z"

abbrev imprint : List ℕ
imprint = block 0x30 [] ++ block 0x04 hash

abbrev tst_content : List ℕ
tst_content =
    block 0x02 (1 ∷ [])
    ++ (block 0x06 []
        ++ (block 0x30 imprint
            ++ (block 0x02 (7 ∷ []) ++ (block 0x18 time ++ block 0x02 (0 ∷ nonce)))))

abbrev token : List ℕ
token = block 0x30 (
    block 0x06 []
    ++ block 0xa0 (
        block 0x30 (
          block 0x02 (1 ∷ [])
          ++ (block 0x31 []
              ++ block 0x30 (block 0x06 [] ++ block 0xa0 (block 0x04 (block 0x30 tst_content)))))))

abbrev response : List ℕ
response = block 0x30 (block 0x30 (block 0x02 (0 ∷ [])) ++ token)

abbrev stamp : Stamp
stamp = record { token = token; gen_time = iso_time; tsa = codes "tsa" }

accepted :
    parse_and_validate no_millis plain_base64 response nonce bundle_hash (codes "tsa") ≡ ok stamp
unfolding parse_and_validate check_status locate_token check_info token_offset write_length read_tlv
    read_length length_loop child_at extract_tst_info parse_tst_info tst_loop tst_child
    parse_generalized_time check_nonce strip_sign_extension status_loop hex text_eq starts_with
accepted = refl

parse_and_validate_example :
    IsAccepted no_millis plain_base64 response nonce bundle_hash (codes "tsa") stamp
parse_and_validate_example =
    parse_and_validate-IsAccepted no_millis plain_base64 response nonce bundle_hash (codes "tsa")
      stamp accepted

abbrev granting_tsa : List ℕ → HttpResponse
granting_tsa req = record { is_ok = true; status = 200; body = response }

requested :
    request_timestamp no_millis plain_base64 granting_tsa nonce (codes "tsa") bundle_hash ≡ ok stamp
unfolding request_timestamp hash_loop parse_int_16 build_time_stamp_req encode_unsigned_integer
    concat write_tlv parse_and_validate check_status locate_token check_info token_offset
    write_length read_tlv read_length length_loop child_at extract_tst_info parse_tst_info tst_loop
    tst_child parse_generalized_time check_nonce strip_sign_extension status_loop hex text_eq
    starts_with
requested = refl

request_timestamp_example :
    (req : List ℕ) × (starts_with bundle_hash (codes "sha256:") ≡ true)
    × (length (drop 7 bundle_hash) ≡ 64)
    × (build_time_stamp_req (hash_loop 32 (drop 7 bundle_hash)) nonce ≡ ok req)
    × ((granting_tsa req).is_ok ≡ true)
    × (length (granting_tsa req).body ≤ 65536)
    × IsAccepted no_millis plain_base64
        (granting_tsa req).body
        nonce
        bundle_hash
        (codes "tsa")
        stamp
request_timestamp_example =
    request_timestamp-IsAccepted no_millis plain_base64 granting_tsa nonce (codes "tsa") bundle_hash
      stamp requested

verify_timestamp_example :
    (verify_timestamp no_millis plain_decode token bundle_hash ≡ valid iso_time) ↔ (
      (der : List ℕ) × (info : TstInfo) × (plain_decode token ≡ some der)
      × (extract_tst_info no_millis der 0 ≡ ok info)
      × (starts_with bundle_hash (codes "sha256:") ≡ true)
      × (info.message_imprint_hex ≡ drop 7 bundle_hash)
      × (info.gen_time ≡ iso_time))
verify_timestamp_example = verify_timestamp_iff no_millis plain_decode token bundle_hash iso_time

verified : verify_timestamp no_millis plain_decode token bundle_hash ≡ valid iso_time
unfolding verify_timestamp read_tlv read_length length_loop child_at extract_tst_info parse_tst_info
    tst_loop tst_child parse_generalized_time hex text_eq starts_with
verified = refl

-- A status of five bytes that is not 0 and is read as 0.
status_loop_example :
    status_loop 0 (1 ∷ 0 ∷ 0 ∷ 0 ∷ 0 ∷ []) ≡ big_endian 0 (1 ∷ 0 ∷ 0 ∷ 0 ∷ 0 ∷ []) % 2 ^ 32
status_loop_example = status_loop_lem (1 ∷ 0 ∷ 0 ∷ 0 ∷ 0 ∷ []) (omega arith)

build_time_stamp_req_example :
    (req : List ℕ) × (build_time_stamp_req hash nonce ≡ ok req) × IsRequest hash nonce req
build_time_stamp_req_example = build_time_stamp_req-IsRequest hash nonce refl refl

abbrev extras : List (ℕ × List ℕ)
extras = (0x02, 0 ∷ nonce) ∷ []

imprint_bytes : write_blocks ((0x30, []) ∷ (0x04, hash) ∷ []) ≡ ok imprint
unfolding write_blocks write_tlv write_length
imprint_bytes = refl

tst_bytes :
    write_blocks
      ((0x02, 1 ∷ []) ∷ (0x06, []) ∷ (0x30, imprint) ∷ (0x02, 7 ∷ []) ∷ (0x18, time) ∷ extras)
    ≡ ok tst_content
unfolding write_blocks write_tlv write_length
tst_bytes = refl

tst_enc : write_tlv 0x30 tst_content ≡ ok (block 0x30 tst_content)
unfolding write_tlv write_length
tst_enc = refl

time_ok : parse_generalized_time no_millis time ≡ ok iso_time
unfolding parse_generalized_time
time_ok = refl

parse_tst_info_example :
    parse_tst_info no_millis (block 0x30 tst_content ++ 0xff ∷ [])
    ≡ ok (record {
      message_imprint_hex = hex hash;
      gen_time = iso_time;
      nonce_hex = some (hex (0 ∷ nonce));
    })
parse_tst_info_example =
    parse_tst_info-written no_millis (0x02, 1 ∷ []) (0x06, []) (0x02, 7 ∷ []) 0x30 [] hash time
      extras iso_time imprint tst_content (block 0x30 tst_content) (0xff ∷ []) imprint_bytes
      tst_bytes tst_enc time_ok

read_tlv_example :
    read_tlv (9 ∷ block 0x04 (7 ∷ 8 ∷ []) ++ 1 ∷ []) 1
    ≡ ok (record { tag = 0x04; length = 2; value = 7 ∷ 8 ∷ []; end = 5 })
unfolding write_tlv write_length
read_tlv_example =
    read_tlv-write_tlv 0x04 (7 ∷ 8 ∷ []) (block 0x04 (7 ∷ 8 ∷ [])) refl
      (9 ∷ block 0x04 (7 ∷ 8 ∷ []) ++ 1 ∷ []) 1 (1 ∷ []) refl

read_tlv-IsBlock_example :
    IsBlock (4 ∷ 0x81 ∷ 1 ∷ 5 ∷ 6 ∷ []) 0 (record { tag = 4; length = 1; value = 5 ∷ []; end = 4 })
unfolding read_tlv read_length length_loop
read_tlv-IsBlock_example =
    read_tlv-IsBlock (4 ∷ 0x81 ∷ 1 ∷ 5 ∷ 6 ∷ []) 0
      (record { tag = 4; length = 1; value = 5 ∷ []; end = 4 }) refl

child_at_example : (t : Tlv) × (child_at imprint 0 (length imprint) 1 ≡ ok t) × Holds t 0x04 hash
child_at_example =
    child_at-write_blocks imprint [] (length imprint) ((0x30, []) ∷ (0x04, hash) ∷ []) 0 1 imprint
      0x04 hash imprint_bytes refl refl refl

child_at_finishes_example : child_at imprint 0 (length imprint) 2 ≢ err unfinished
child_at_finishes_example = child_at_finishes imprint 0 (length imprint) 2
