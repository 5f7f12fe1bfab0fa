-- ===== src/Der.antt =====
-- The DER primitives of src/rfc3161.js: lengths, tag-length-value blocks, children of a block.
-- A Uint8Array is a list of numbers below 256; what the code throws is a `Thrown`.
pub mod Errors
pub mod Length
pub mod Blocks
pub mod Children
use web_resource_ledger.Prelude.{
  ℕ, zero, suc, ◌+◌, ◌-◌, ◌*◌, ◌/◌, ◌%◌, ◌^◌, List, [], ◌∷◌, ◌++◌, bit_and, bit_or, ltb, leb, ◌==◌,
  if◌then◌else◌, length, get_or, take, drop,
}
use web_resource_ledger.Prelude.Results.{Result, ok, err, ◌>>=◌, ◌>>◌, throw_if}
use Errors.{
  Thrown, length_too_large, length_past_end, indefinite_length, too_many_length_bytes,
  length_bytes_past_end, read_past_end, value_past_end, child_not_found, unfinished,
}

-- What `readTLV` returns.
pub record Tlv : Type 0 where
  pub tag : ℕ
  pub length : ℕ
  pub value : List ℕ
  pub end : ℕ

-- `x << 8` on a 32-bit integer, as its bit pattern.
abbrev pub shift_byte : ℕ → ℕ
shift_byte x = x * 2 ^ 8 % 2 ^ 32

abbrev pub subarray : List ℕ → ℕ → ℕ → List ℕ
subarray buf start end = take (end - start) (drop start buf)

unfoldable pub write_length : ℕ → Result Thrown (List ℕ)
write_length n =
    if ltb n 0x80
    then ok (n ∷ [])
    else if leb n 0xff
    then ok (0x81 ∷ n ∷ [])
    else if leb n 0xffff
    then ok (0x82 ∷ n / 2 ^ 8 ∷ bit_and n 0xff ∷ [])
    else if leb n 0xffffff
    then ok (0x83 ∷ bit_and (n / 2 ^ 16) 0xff ∷ bit_and (n / 2 ^ 8) 0xff ∷ bit_and n 0xff ∷ [])
    else err (length_too_large n)

unfoldable pub write_tlv : ℕ → List ℕ → Result Thrown (List ℕ)
write_tlv tag content = do
  len_bytes ← write_length (length content)
  ok (tag ∷ len_bytes ++ content)

-- The loop of `readLength` over the bytes at `pos`.
unfoldable pub length_loop : List ℕ → ℕ → ℕ → ℕ → ℕ
length_loop buf pos zero len = len
length_loop buf pos (suc rounds) len =
    length_loop buf (pos + 1) rounds (bit_or (shift_byte len) (get_or buf pos 0))

-- The length, and the offset of the first value byte.
unfoldable pub read_length : List ℕ → ℕ → Result Thrown (ℕ × ℕ)
read_length buf offset =
    let first = get_or buf offset 0 in
    let num_bytes = bit_and first 0x7f in
    if leb (length buf) offset
    then err length_past_end
    else if first == 0x80
    then err indefinite_length
    else if ltb first 0x80
    then ok (first, offset + 1)
    else if ltb 3 num_bytes
    then err (too_many_length_bytes num_bytes)
    else if ltb (length buf) (offset + 1 + num_bytes)
    then err length_bytes_past_end
    else ok (length_loop buf (offset + 1) num_bytes 0, offset + 1 + num_bytes)

-- The last check of `readTLV`, and its result.
unfoldable pub tlv_at : List ℕ → ℕ → ℕ → ℕ → Result Thrown Tlv
tlv_at buf tag len value_start =
    if ltb (length buf) (value_start + len)
    then err value_past_end
    else ok (record {
      tag = tag;
      length = len;
      value = subarray buf value_start (value_start + len);
      end = value_start + len;
    })

unfoldable pub read_tlv : List ℕ → ℕ → Result Thrown Tlv
unfolding tlv_at
read_tlv buf offset = do
  throw_if (leb (length buf) offset) read_past_end
  (len, value_start) ← read_length buf (offset + 1)
  tlv_at buf (get_or buf offset 0) len value_start

-- The loop of `childAt`. Every round moves `pos` on, so fuel above `value_end` is never used up.
unfoldable pub child_loop : ℕ → List ℕ → ℕ → ℕ → ℕ → ℕ → Result Thrown Tlv
child_loop zero buf pos value_end i index = err unfinished
child_loop (suc fuel) buf pos value_end i index =
    let next = (do
      tlv ← read_tlv buf pos
      let rest = child_loop fuel buf tlv.end value_end (i + 1) index
      if i == index then ok tlv else rest) in
    if ltb pos value_end then next else err (child_not_found index i)

unfoldable pub child_at : List ℕ → ℕ → ℕ → ℕ → Result Thrown Tlv
unfolding child_loop
child_at buf value_start value_end index =
    child_loop (value_end + 1) buf value_start value_end 0 index

unfoldable pub concat : List (List ℕ) → List ℕ
concat [] = []
concat (a ∷ arrays) = a ++ concat arrays

-- `bytes[0] & 0x80`, which is 0 on an empty array.
abbrev pub high_bit : List ℕ → ℕ
high_bit bytes = bit_and (get_or bytes 0 0) 0x80

unfoldable pub encode_unsigned_integer : List ℕ → Result Thrown (List ℕ)
encode_unsigned_integer bytes =
    write_tlv 0x02 (if high_bit bytes == 0 then bytes else concat ((0 ∷ []) ∷ bytes ∷ []))
