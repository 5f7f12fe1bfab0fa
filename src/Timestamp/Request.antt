-- ===== src/Timestamp/Request.antt =====
-- The TimeStampReq that `buildTimeStampReq` builds, read back with the module's own reader.
use web_resource_ledger.Prelude.{
  ℕ, ◌+◌, ◌-◌, ◌≤◌, ◌≡◌, refl, ap, sym, List, [], ◌∷◌, ◌++◌, some, ◌==◌, if◌then◌else◌, length,
  arith, length-append, append-nil, Bool-cases, inl, inr,
}
use web_resource_ledger.Prelude.Texts.{hex, hex_digit, starts_with, text_eq_iff}
use web_resource_ledger.Prelude.Results.{ok}
use web_resource_ledger.Der.{
  Tlv, write_tlv, read_tlv, child_at, concat, encode_unsigned_integer, high_bit,
}
use web_resource_ledger.Der.Blocks.{read_tlv-write_tlv, content_of_written, write_tlv-total}
use web_resource_ledger.Der.Children.{write_blocks, Holds, child_at-write_blocks}
use web_resource_ledger.Timestamp.{
  build_time_stamp_req, oid_sha256, check_nonce, strip_sign_extension,
}

-- The content bytes of the nonce's INTEGER.
abbrev pub nonce_content : List ℕ → List ℕ
nonce_content nonce = if high_bit nonce == 0 then nonce else 0 ∷ nonce ++ []

-- What a TSA reads in the request: the hash, the nonce and the wish for a certificate.
pub record IsRequest (hash nonce req : List ℕ) : Type 0 where
  pub outer : Tlv
  pub imprint : Tlv
  pub hashed : Tlv
  pub nonce_tlv : Tlv
  pub cert_req : Tlv
  pub is_outer : read_tlv req 0 ≡ ok outer
  pub outer_tag : outer.tag ≡ 0x30
  pub outer_whole : outer.end ≡ length req
  pub is_imprint : child_at req (outer.end - outer.length) outer.end 1 ≡ ok imprint
  pub imprint_tag : imprint.tag ≡ 0x30
  pub is_hashed : child_at imprint.value 0 imprint.length 1 ≡ ok hashed
  pub hashed_holds : Holds hashed 0x04 hash
  pub is_nonce : child_at req (outer.end - outer.length) outer.end 2 ≡ ok nonce_tlv
  pub nonce_holds : Holds nonce_tlv 0x02 (nonce_content nonce)
  pub nonce_echoes : check_nonce (some (hex nonce_tlv.value)) nonce ≡ ok tt
  pub is_cert_req : child_at req (outer.end - outer.length) outer.end 3 ≡ ok cert_req
  pub cert_req_holds : Holds cert_req 0x01 (0xff ∷ [])

length-hex : (bytes : List ℕ) → length (hex bytes) ≡ length bytes + length bytes
unfolding hex
length-hex [] = omega arith
length-hex (b ∷ bytes) = omega (arith, length-hex bytes)

-- A TSA that returns the nonce as it was encoded passes the nonce check.
nonce_echo :
    (nonce : List ℕ)
    → length nonce ≡ 16
    → check_nonce (some (hex (nonce_content nonce))) nonce ≡ ok tt
unfolding check_nonce strip_sign_extension hex hex_digit starts_with
nonce_echo nonce h = elim (Bool-cases (high_bit nonce == 0)) [
  | inl clear ↦ ground (arith, clear, length-hex nonce, text_eq_iff (hex nonce) (hex nonce))
  | inr set ↦ ground (
    arith,
    set,
    length-hex nonce,
    ap hex (append-nil nonce),
    text_eq_iff (hex nonce) (hex nonce),
    ap length (ap hex (append-nil nonce)),
  )
]

-- The blocks of a request, as they were written one inside the other.
record Parts (hash nonce req : List ℕ) : Type 0 where
  version : List ℕ
  oid : List ℕ
  null_parameters : List ℕ
  alg_id : List ℕ
  hashed : List ℕ
  msg_imprint : List ℕ
  nonce_enc : List ℕ
  cert_req : List ℕ
  version_is : write_tlv 0x02 (1 ∷ []) ≡ ok version
  oid_is : write_tlv 0x06 oid_sha256 ≡ ok oid
  null_is : write_tlv 0x05 [] ≡ ok null_parameters
  alg_is : write_tlv 0x30 (concat (oid ∷ null_parameters ∷ [])) ≡ ok alg_id
  hashed_is : write_tlv 0x04 hash ≡ ok hashed
  imprint_is : write_tlv 0x30 (concat (alg_id ∷ hashed ∷ [])) ≡ ok msg_imprint
  nonce_is : write_tlv 0x02 (nonce_content nonce) ≡ ok nonce_enc
  cert_is : write_tlv 0x01 (0xff ∷ []) ≡ ok cert_req
  req_is : write_tlv 0x30 (concat (version ∷ msg_imprint ∷ nonce_enc ∷ cert_req ∷ [])) ≡ ok req

length-concat₂ : (a b : List ℕ) → length (concat (a ∷ b ∷ [])) ≡ length a + length b
unfolding concat
length-concat₂ a b = omega (arith, length-append {0} a (b ++ []), length-append {0} b [])

length-concat₄ :
    (a b c d : List ℕ)
    → length (concat (a ∷ b ∷ c ∷ d ∷ [])) ≡ length a + length b + length c + length d
unfolding concat
length-concat₄ a b c d = omega (
  arith,
  length-append {0} a (b ++ (c ++ (d ++ []))),
  length-append {0} b (c ++ (d ++ [])),
  length-append {0} c (d ++ []),
  length-append {0} d [],
)

length-nonce_content : (nonce : List ℕ) → length (nonce_content nonce) ≤ length nonce + 1
length-nonce_content nonce = ground (arith, length-append {0} nonce [])

every_part :
    (hash nonce : List ℕ)
    → length hash ≡ 32
    → length nonce ≡ 16
    → (req : List ℕ) × Parts hash nonce req
every_part hash nonce h k =
    let (version, e1, s1) = write_tlv-total 0x02 (1 ∷ []) (omega arith) in
    let (oid, e2, s2) = write_tlv-total 0x06 oid_sha256 (omega arith) in
    let (null_parameters, e3, s3) = write_tlv-total 0x05 [] (omega arith) in
    let (alg_id, e4, s4) =
      write_tlv-total 0x30 (concat (oid ∷ null_parameters ∷ []))
        (omega (arith, length-concat₂ oid null_parameters)) in
    let (hashed, e5, s5) = write_tlv-total 0x04 hash (omega arith) in
    let (imprint, e6, s6) =
      write_tlv-total 0x30 (concat (alg_id ∷ hashed ∷ []))
        (omega (arith, length-concat₂ alg_id hashed, length-concat₂ oid null_parameters)) in
    let (nonce_enc, e7, s7) =
      write_tlv-total 0x02 (nonce_content nonce) (omega (arith, length-nonce_content nonce)) in
    let (cert_req, e8, s8) = write_tlv-total 0x01 (0xff ∷ []) (omega arith) in
    let (req, e9, s9) =
      write_tlv-total 0x30 (concat (version ∷ imprint ∷ nonce_enc ∷ cert_req ∷ [])) (
        omega (
          arith,
          length-concat₄ version imprint nonce_enc cert_req,
          length-concat₂ alg_id hashed,
          length-concat₂ oid null_parameters,
          length-nonce_content nonce,
        )) in
    (
      req,
      record {
        version = version;
        oid = oid;
        null_parameters = null_parameters;
        alg_id = alg_id;
        hashed = hashed;
        msg_imprint = imprint;
        nonce_enc = nonce_enc;
        cert_req = cert_req;
        version_is = e1;
        oid_is = e2;
        null_is = e3;
        alg_is = e4;
        hashed_is = e5;
        imprint_is = e6;
        nonce_is = e7;
        cert_is = e8;
        req_is = e9;
      },
    )

encode_unsigned_integer_lem :
    (nonce : List ℕ) → encode_unsigned_integer nonce ≡ write_tlv 0x02 (nonce_content nonce)
unfolding encode_unsigned_integer concat
encode_unsigned_integer_lem nonce = refl

Parts-built :
    {hash nonce req : List ℕ} → Parts hash nonce req → build_time_stamp_req hash nonce ≡ ok req
unfolding build_time_stamp_req
Parts-built {nonce} p =
    rw
      (
        p.version_is,
        p.oid_is,
        p.null_is,
        p.alg_is,
        p.hashed_is,
        p.imprint_is,
        encode_unsigned_integer_lem nonce,
        p.nonce_is,
        p.cert_is,
      )
      p.req_is

-- The fields of the request, and of its imprint, as blocks.
abbrev fields : {hash nonce req : List ℕ} → Parts hash nonce req → List (ℕ × List ℕ)
fields {nonce} p =
    (0x02, 1 ∷ [])
    ∷ (0x30, concat (p.alg_id ∷ p.hashed ∷ []))
    ∷ (0x02, nonce_content nonce)
    ∷ (0x01, 0xff ∷ [])
    ∷ []

fields_written :
    {hash nonce req : List ℕ} (p : Parts hash nonce req)
    → write_blocks (fields p)
      ≡ ok (concat (p.version ∷ p.msg_imprint ∷ p.nonce_enc ∷ p.cert_req ∷ []))
unfolding write_blocks concat
fields_written p = rw (p.version_is, p.imprint_is, p.nonce_is, p.cert_is)

imprint_written :
    {hash nonce req : List ℕ} (p : Parts hash nonce req)
    → write_blocks ((0x30, concat (p.oid ∷ p.null_parameters ∷ [])) ∷ (0x04, hash) ∷ [])
      ≡ ok (concat (p.alg_id ∷ p.hashed ∷ []))
unfolding write_blocks concat
imprint_written p = rw (p.alg_is, p.hashed_is)

Parts-IsRequest :
    {hash nonce req : List ℕ} → length nonce ≡ 16 → Parts hash nonce req → IsRequest hash nonce req
Parts-IsRequest {hash} {nonce} {req} k p =
    let content = concat (p.version ∷ p.msg_imprint ∷ p.nonce_enc ∷ p.cert_req ∷ []) in
    let inside = concat (p.alg_id ∷ p.hashed ∷ []) in
    let whole : req ≡ req ++ [] = sym (append-nil req) in
    let (there, larger) = content_of_written 0x30 content req p.req_is req 0 [] whole in
    let start = 0 + length req - length content in
    let child = child_at-write_blocks req [] (0 + length req) (fields p) start in
    let (imprint, found1, holds1) =
      child 1 content 0x30 inside (fields_written p) there (omega arith) refl in
    let (nonce_tlv, found2, holds2) =
      child 2 content 0x02 (nonce_content nonce) (fields_written p) there (omega arith) refl in
    let (cert, found3, holds3) =
      child 3 content 0x01 (0xff ∷ []) (fields_written p) there (omega arith) refl in
    let (hashed, found4, holds4) =
      child_at-write_blocks inside [] (length inside)
        ((0x30, concat (p.oid ∷ p.null_parameters ∷ [])) ∷ (0x04, hash) ∷ []) 0 1 inside 0x04 hash
        (imprint_written p) (sym (append-nil inside)) (omega arith) refl in
    let in_imprint : child_at imprint.value 0 imprint.length 1 ≡ ok hashed =
      rw (holds1.value_is, holds1.length_is) found4 in
    record {
      outer = record { tag = 0x30; length = length content; value = content; end = 0 + length req };
      imprint = imprint;
      hashed = hashed;
      nonce_tlv = nonce_tlv;
      cert_req = cert;
      is_outer = read_tlv-write_tlv 0x30 content req p.req_is req 0 [] whole;
      outer_tag = refl;
      outer_whole = omega arith;
      is_imprint = found1;
      imprint_tag = holds1.tag_is;
      is_hashed = in_imprint;
      hashed_holds = holds4;
      is_nonce = found2;
      nonce_holds = holds2;
      nonce_echoes = rw holds2.value_is (nonce_echo nonce k);
      is_cert_req = found3;
      cert_req_holds = holds3;
    }

-- For a hash of 32 bytes and a nonce of 16 the request is built, and the module's own reader finds
-- in it the hash, the nonce with its sign extension and the wish for a certificate; a TSA that
-- returns the nonce as it stands there passes the nonce check.
pub build_time_stamp_req-IsRequest :
    (hash nonce : List ℕ)
    → length hash ≡ 32
    → length nonce ≡ 16
    → (req : List ℕ) × (build_time_stamp_req hash nonce ≡ ok req) × IsRequest hash nonce req
build_time_stamp_req-IsRequest hash nonce h k =
    let (req, p) = every_part hash nonce h k in (req, Parts-built p, Parts-IsRequest k p)
