-- ===== src/Der/Blocks.antt =====
-- Tag-length-value blocks: reading back what `writeTLV` writes, and the bounds of what is read.
use web_resource_ledger.Prelude.{
  ℕ, suc, ◌<◌, ◌+◌, ◌-◌, ◌≤◌, ◌≡◌, ap, ◌∙◌, List, [], ◌∷◌, ◌++◌, drop, take, length, arith,
  length-append, get_or, length-take, length-drop, append_assoc, leb, take-append, drop_past,
}
use web_resource_ledger.Prelude.Results.{ok, >>=-eq-ok, throw_if-eq-ok}
use web_resource_ledger.Der.{Tlv, write_length, write_tlv, read_length, read_tlv, tlv_at, subarray}
use web_resource_ledger.Der.Errors.{read_past_end}
use web_resource_ledger.Der.Length.{
  write_length-total, read_length-write_length, peek_at, length_of_there,
}

-- A block that stands in the buffer at `offset`.
pub record IsBlock (buf : List ℕ) (offset : ℕ) (t : Tlv) : Type 0 where
  pub header : offset + 2 + t.length ≤ t.end
  pub in_buffer : t.end ≤ length buf
  pub value_is : t.value ≡ subarray buf (t.end - t.length) t.end
  pub value_length : length t.value ≡ t.length
  pub tag_is : t.tag ≡ get_or buf offset 0

read_length_bounds :
    (buf : List ℕ) (offset len start : ℕ)
    → read_length buf offset ≡ ok (len, start)
    → offset + 1 ≤ start
unfolding read_length
read_length_bounds buf offset len start h = ground arith

value_lem :
    (buf : List ℕ) (tag len start : ℕ) {t : Tlv}
    → tlv_at buf tag len start ≡ ok t
    → t.value ≡ take len (drop start buf)
unfolding tlv_at
value_lem buf tag len start {t} h =
    let e : start + len - start ≡ len = omega arith in
    let v : t.value ≡ subarray buf start (start + len) = ground arith in
    v ∙ ap (λ k. take k (drop start buf)) e

tlv_at-IsBlock :
    (buf : List ℕ) (offset len start : ℕ) (t : Tlv)
    → offset + 2 ≤ start
    → tlv_at buf (get_or buf offset 0) len start ≡ ok t
    → IsBlock buf offset t
unfolding tlv_at
tlv_at-IsBlock buf offset len start t p h = record {
  header = ground arith;
  in_buffer = ground arith;
  value_is = ground arith;
  value_length = ground (
    arith,
    length-take len (drop start buf),
    length-drop start buf,
    ap length (value_lem buf _ len start h),
  );
  tag_is = ground arith;
}

-- Whatever the bytes, a block that `readTLV` returns lies within the buffer, its value is the
-- declared slice, and it is at least two bytes long.
pub read_tlv-IsBlock :
    (buf : List ℕ) (offset : ℕ) (t : Tlv) → read_tlv buf offset ≡ ok t → IsBlock buf offset t
unfolding read_tlv
read_tlv-IsBlock buf offset t h =
    let (_, k) = throw_if-eq-ok (leb (length buf) offset) read_past_end _ h in
    let ((len, start), first, second) =
      >>=-eq-ok (read_length buf (offset + 1)) (λ x. tlv_at buf (get_or buf offset 0) x.0 x.1) k in
    tlv_at-IsBlock buf offset len start t
      (omega (arith, read_length_bounds buf (offset + 1) len start first)) second

-- A block of which the parts are known.
read_parts :
    (buf : List ℕ) (offset tag : ℕ) (bs content rest : List ℕ)
    → drop offset buf ≡ tag ∷ (bs ++ (content ++ rest))
    → read_length buf (offset + 1) ≡ ok (length content, offset + 1 + length bs)
    → read_tlv buf offset
      ≡ ok (record {
        tag = tag;
        length = length content;
        value = content;
        end = offset + 1 + length bs + length content;
      })
unfolding read_tlv
read_parts buf offset tag bs content rest there reads =
    let at_value : drop (offset + 1 + length bs) buf ≡ content ++ rest =
      drop_past (offset + 1) buf bs _ (drop_past offset buf (tag ∷ []) _ there) in
    let inside : take (length content) (drop (offset + 1 + length bs) buf) ≡ content =
      ap (take (length content)) at_value ∙ take-append content rest in
    let fits : offset + 1 + length bs + length content - (offset + 1 + length bs) ≡ length content =
      omega arith in
    ground (
      arith,
      reads,
      inside,
      fits,
      peek_at buf offset _ there 0 offset (omega arith),
      length_of_there buf offset _ there,
      length-append {0} bs (content ++ rest),
      length-append {0} content rest,
    )

-- A block that was written is read back, wherever it stands.
pub read_tlv-write_tlv :
    (tag : ℕ) (content enc : List ℕ)
    → write_tlv tag content ≡ ok enc
    → (buf : List ℕ) (offset : ℕ) (rest : List ℕ) → drop offset buf ≡ enc ++ rest
    → read_tlv buf offset
      ≡ ok (record {
        tag = tag;
        length = length content;
        value = content;
        end = offset + length enc;
      })
unfolding write_tlv
read_tlv-write_tlv tag content enc h buf offset rest there =
    let (bs, written, whole) =
      >>=-eq-ok (write_length (length content)) (λ b. ok (tag ∷ b ++ content)) h in
    let is_enc : enc ≡ tag ∷ (bs ++ content) = ground arith in
    let parts : drop offset buf ≡ tag ∷ (bs ++ (content ++ rest)) =
      there ∙ ap (λ e. e ++ rest) is_enc ∙ ap (λ t. tag ∷ t) (append_assoc bs content rest) in
    let end_is : offset + 1 + length bs + length content ≡ offset + length enc =
      omega (arith, ap length is_enc, length-append {0} bs content) in
    rw (← end_is) (
      read_parts buf offset tag bs content rest parts (
        read_length-write_length _ bs written buf (offset + 1) (content ++ rest)
          (drop_past offset buf (tag ∷ []) _ parts)))

-- The content of a block that was written stands before its end.
pub content_of_written :
    (tag : ℕ) (content enc : List ℕ)
    → write_tlv tag content ≡ ok enc
    → (buf : List ℕ) (offset : ℕ) (rest : List ℕ) → drop offset buf ≡ enc ++ rest
    → (drop (offset + length enc - length content) buf ≡ content ++ rest)
      × (length content < length enc)
unfolding write_tlv
content_of_written tag content enc h buf offset rest there =
    let (bs, written, whole) =
      >>=-eq-ok (write_length (length content)) (λ b. ok (tag ∷ b ++ content)) h in
    let is_enc : enc ≡ (tag ∷ bs) ++ content = ground arith in
    let size : length enc ≡ suc (length bs) + length content =
      ap length is_enc ∙ length-append (tag ∷ bs) content in
    let start : offset + length enc - length content ≡ offset + length (tag ∷ bs) = omega arith in
    let parts : drop offset buf ≡ (tag ∷ bs) ++ (content ++ rest) =
      there ∙ ap (λ e. e ++ rest) is_enc ∙ append_assoc (tag ∷ bs) content rest in
    (ap (λ k. drop k buf) start ∙ drop_past offset buf (tag ∷ bs) _ parts, omega arith)

-- Content up to the limit of the encoder is written, with at most five bytes before it.
pub write_tlv-total :
    (tag : ℕ) (content : List ℕ)
    → length content ≤ 0xffffff
    → (enc : List ℕ) × (write_tlv tag content ≡ ok enc) × (length enc ≤ length content + 5)
unfolding write_tlv
write_tlv-total tag content h =
    let (bs, e, small) = write_length-total (length content) h in
    (tag ∷ bs ++ content, rw e, omega (arith, length-append {0} bs content))
