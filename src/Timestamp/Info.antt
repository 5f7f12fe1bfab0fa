-- ===== src/Timestamp/Info.antt =====
-- Reading a TSTInfo that was written block by block.
use web_resource_ledger.Prelude.{
  ℕ, zero, suc, ◌+◌, ◌-◌, ◌<◌, ◌≤◌, ◌≡◌, ◌≢◌, refl, ap, ◌∙◌, List, [], ◌∷◌, ◌++◌, Option, none,
  some, ◌==◌, if◌then◌else◌, length, drop, arith,
}
use web_resource_ledger.Prelude.Texts.{Text, hex}
use web_resource_ledger.Prelude.Results.{Result, ok}
use web_resource_ledger.Der.{Tlv, write_tlv, read_tlv, child_at}
use web_resource_ledger.Der.Errors.{Thrown}
use web_resource_ledger.Der.Blocks.{read_tlv-write_tlv, content_of_written}
use web_resource_ledger.Der.Children.{write_blocks, Holds, Peeled, peel, child_at-write_blocks}
use web_resource_ledger.Timestamp.{
  TstFields, tst_child, tst_loop, parse_tst_info, parse_generalized_time, no_fields,
}

-- The last INTEGER of the optional fields, in hexadecimal.
abbrev pub last_integer : Option Text → List (ℕ × List ℕ) → Option Text
last_integer found [] = found
last_integer found ((tag, content) ∷ blocks) =
    last_integer (if tag == 0x02 then some (hex content) else found) blocks

nothing_written : (bytes : List ℕ) → write_blocks [] ≡ ok bytes → bytes ≡ []
unfolding write_blocks
nothing_written bytes h = cc

module _ (millis : Text → Text) where
  tst_loop_step :
      (fuel : ℕ) (buf : List ℕ) (pos end i : ℕ) (f f' : TstFields) (t : Tlv)
      → pos < end
      → read_tlv buf pos ≡ ok t
      → tst_child millis buf i t f ≡ ok f'
      → tst_loop millis (suc fuel) buf pos end i f ≡ tst_loop millis fuel buf t.end end (i + 1) f'
  unfolding tst_loop
  tst_loop_step fuel buf pos end i f f' t h r c = ground (arith, r, c)

  tst_loop_done :
      (fuel : ℕ) (buf : List ℕ) (pos end i : ℕ) (f : TstFields)
      → end ≤ pos
      → tst_loop millis (suc fuel) buf pos end i f ≡ ok f
  unfolding tst_loop
  tst_loop_done fuel buf pos end i f h = ground arith

  -- What a child sets that is none of the fields with a fixed index.
  tst_child_other :
      (buf : List ℕ) (i : ℕ) (t : Tlv) (f : TstFields) (tag : ℕ) (content : List ℕ)
      → 4 < i
      → Holds t tag content
      → tst_child millis buf i t f
        ≡ ok
            (record f { nonce_so_far = if tag == 0x02 then some (hex content) else f.nonce_so_far })
  unfolding tst_child
  tst_child_other buf i t f tag content h holds = ground (arith, ap hex holds.value_is)

  tst_child_skipped :
      (buf : List ℕ) (i : ℕ) (t : Tlv) (f : TstFields)
      → i < 4
      → i ≢ 2
      → tst_child millis buf i t f ≡ ok f
  unfolding tst_child
  tst_child_skipped buf i t f h k = ground arith

  tst_child_time :
      (buf : List ℕ) (t : Tlv) (f : TstFields) (gen_time : Text)
      → t.tag ≡ 0x18
      → parse_generalized_time millis t.value ≡ ok gen_time
      → tst_child millis buf 4 t f ≡ ok (record f { gen_time_so_far = some gen_time })
  unfolding tst_child
  tst_child_time buf t f gen_time h k = ground arith

  tst_child_imprint :
      (buf : List ℕ) (t alg hash : Tlv) (f : TstFields)
      → t.tag ≡ 0x30
      → child_at buf (t.end - t.length) t.end 0 ≡ ok alg
      → child_at buf (t.end - t.length) t.end 1 ≡ ok hash
      → hash.tag ≡ 0x04
      → tst_child millis buf 2 t f ≡ ok (record f { imprint_so_far = some (hex hash.value) })
  unfolding tst_child
  tst_child_imprint buf t alg hash f h a b k = ground arith

  module _ (buf rest : List ℕ) (end : ℕ) where
    tst_loop_extras :
        (blocks : List (ℕ × List ℕ)) (bytes : List ℕ) (fuel pos i : ℕ) (f : TstFields)
        → write_blocks blocks ≡ ok bytes
        → drop pos buf ≡ bytes ++ rest
        → end ≡ pos + length bytes
        → length bytes < fuel
        → 4 < i
        → tst_loop millis fuel buf pos end i f
          ≡ ok (record f { nonce_so_far = last_integer f.nonce_so_far blocks })
    tst_loop_extras blocks bytes zero pos i f w there e room h = absurd (omega arith)
    tst_loop_extras [] bytes (suc fuel) pos i f w there e room h =
        tst_loop_done fuel buf pos end i f (omega (arith, ap length (nothing_written bytes w)))
    tst_loop_extras ((tag, content) ∷ bs) bytes (suc fuel) pos i f w there e room h =
        let p = peel buf pos tag content bs bytes rest w there in
        let step =
          tst_loop_step fuel buf pos end i f _ p.block (omega arith) p.reads
            (tst_child_other buf i p.block f tag content h p.holds) in
        let f' = record f {
          nonce_so_far = if tag == 0x02 then some (hex content) else f.nonce_so_far;
        } in
        step
        ∙ tst_loop_extras bs p.others fuel p.block.end (i + 1) f' p.others_written p.others_there
            (omega arith) (omega arith) (omega arith)

    -- One round of the loop over blocks that were written: what remains is the loop from there.
    round :
        (tag : ℕ) (content : List ℕ) (bs : List (ℕ × List ℕ)) (bytes : List ℕ) (fuel pos i : ℕ)
        (f f' : TstFields) {r : Result Thrown TstFields}
        (p : Peeled buf pos tag content bs bytes rest)
        → end ≡ pos + length bytes
        → length bytes < fuel
        → tst_child millis buf i p.block f ≡ ok f'
        → tst_loop millis (fuel - 1) buf p.block.end end (i + 1) f' ≡ r
        → tst_loop millis fuel buf pos end i f ≡ r
    round tag content bs bytes zero pos i f f' p e room c k = absurd (omega arith)
    round tag content bs bytes (suc fuel) pos i f f' p e room c k =
        let back : suc fuel - 1 ≡ fuel = omega arith in
        tst_loop_step fuel buf pos end i f f' p.block (omega arith) p.reads c ∙ (rw back at k)

    -- From the serial number on.
    tst_loop_tail :
        (serial : ℕ × List ℕ) (time : List ℕ) (extras : List (ℕ × List ℕ)) (gen_time : Text)
        (bytes : List ℕ) (fuel pos : ℕ) (f : TstFields)
        → write_blocks (serial ∷ (0x18, time) ∷ extras) ≡ ok bytes
        → drop pos buf ≡ bytes ++ rest
        → end ≡ pos + length bytes
        → length bytes < fuel
        → parse_generalized_time millis time ≡ ok gen_time
        → tst_loop millis fuel buf pos end 3 f
          ≡ ok (record f {
            gen_time_so_far = some gen_time;
            nonce_so_far = last_integer f.nonce_so_far extras;
          })
    tst_loop_tail (t3, c3) time extras gen_time bytes fuel pos f w there e room time_ok =
        let p3 = peel buf pos t3 c3 _ bytes rest w there in
        let p4 =
          peel buf p3.block.end 0x18 time extras p3.others rest p3.others_written p3.others_there in
        let time_read : parse_generalized_time millis p4.block.value ≡ ok gen_time =
          ap (parse_generalized_time millis) p4.holds.value_is ∙ time_ok in
        let f4 = record f { gen_time_so_far = some gen_time } in
        round t3 c3 _ bytes fuel pos 3 f f p3 e room
          (tst_child_skipped buf 3 p3.block f (omega arith) (omega arith))
          (round 0x18 time _ p3.others (fuel - 1) p3.block.end 4 f f4 p4 (omega arith) (omega arith)
            (tst_child_time buf p4.block f gen_time p4.holds.tag_is time_read)
            (tst_loop_extras extras p4.others (fuel - 1 - 1) p4.block.end 5 f4 p4.others_written
              p4.others_there (omega arith) (omega arith) (omega arith)))

    -- What the third child sets, when its content was written as an algorithm and a hash.
    tst_child_imprint-written :
        (alg_tag : ℕ) (alg hash imprint : List ℕ) (bs : List (ℕ × List ℕ)) (bytes : List ℕ)
        (pos : ℕ) (f : TstFields) (p : Peeled buf pos 0x30 imprint bs bytes rest)
        → write_blocks ((alg_tag, alg) ∷ (0x04, hash) ∷ []) ≡ ok imprint
        → tst_child millis buf 2 p.block f ≡ ok (record f { imprint_so_far = some (hex hash) })
    tst_child_imprint-written alg_tag alg hash imprint bs bytes pos f p w =
        let start = p.block.end - p.block.length in
        let fits : p.block.end ≡ start + length imprint =
          omega (arith, p.holds.length_is, p.content_fits) in
        let found = child_at-write_blocks buf (p.others ++ rest) p.block.end _ start in
        let (a, found_a, _) = found 0 imprint alg_tag alg w p.content_there fits refl in
        let (h, found_h, holds_h) = found 1 imprint 0x04 hash w p.content_there fits refl in
        tst_child_imprint buf p.block a h f p.holds.tag_is found_a found_h holds_h.tag_is
        ∙ ap (λ x. ok (record f { imprint_so_far = some (hex x) })) holds_h.value_is

    tst_loop-written :
        (version policy serial : ℕ × List ℕ) (alg_tag : ℕ) (alg hash time : List ℕ)
        (extras : List (ℕ × List ℕ)) (gen_time : Text) (imprint bytes : List ℕ) (fuel pos : ℕ)
        → write_blocks ((alg_tag, alg) ∷ (0x04, hash) ∷ []) ≡ ok imprint
        → write_blocks (version ∷ policy ∷ (0x30, imprint) ∷ serial ∷ (0x18, time) ∷ extras)
          ≡ ok bytes
        → drop pos buf ≡ bytes ++ rest
        → end ≡ pos + length bytes
        → length bytes < fuel
        → parse_generalized_time millis time ≡ ok gen_time
        → tst_loop millis fuel buf pos end 0 (no_fields millis)
          ≡ ok (record {
            imprint_so_far = some (hex hash);
            gen_time_so_far = some gen_time;
            nonce_so_far = last_integer none extras;
          })
    tst_loop-written (t0, c0) (t1, c1) serial alg_tag alg hash time extras gen_time imprint bytes
          fuel pos w_imprint w there e room time_ok =
        let f = no_fields millis in
        let p0 = peel buf pos t0 c0 _ bytes rest w there in
        let p1 = peel buf p0.block.end t1 c1 _ p0.others rest p0.others_written p0.others_there in
        let p2 =
          peel buf p1.block.end 0x30 imprint _ p1.others rest p1.others_written p1.others_there in
        let f2 = record f { imprint_so_far = some (hex hash) } in
        round t0 c0 _ bytes fuel pos 0 f f p0 e room
          (tst_child_skipped buf 0 p0.block f (omega arith) (omega arith))
          (round t1 c1 _ p0.others (fuel - 1) p0.block.end 1 f f p1 (omega arith) (omega arith)
            (tst_child_skipped buf 1 p1.block f (omega arith) (omega arith))
            (round 0x30 imprint _ p1.others (fuel - 1 - 1) p1.block.end 2 f f2 p2 (omega arith)
              (omega arith)
              (tst_child_imprint-written alg_tag alg hash imprint _ p1.others p1.block.end f p2
                w_imprint)
              (tst_loop_tail serial time extras gen_time p2.others (fuel - 1 - 1 - 1) p2.block.end
                f2 p2.others_written p2.others_there (omega arith) (omega arith) time_ok)))

  -- A TSTInfo that was written as DER, with the imprint of a hash, a time that `parseGeneralizedTime`
  -- accepts and any optional fields, is parsed to that hash, that time and the last INTEGER among
  -- the optional fields; bytes after it are ignored.
  pub parse_tst_info-written :
      (version policy serial : ℕ × List ℕ) (alg_tag : ℕ) (alg hash time : List ℕ)
      (extras : List (ℕ × List ℕ)) (gen_time : Text) (imprint bytes enc trailing : List ℕ)
      → write_blocks ((alg_tag, alg) ∷ (0x04, hash) ∷ []) ≡ ok imprint
      → write_blocks (version ∷ policy ∷ (0x30, imprint) ∷ serial ∷ (0x18, time) ∷ extras)
        ≡ ok bytes
      → write_tlv 0x30 bytes ≡ ok enc
      → parse_generalized_time millis time ≡ ok gen_time
      → parse_tst_info millis (enc ++ trailing)
        ≡ ok (record {
          message_imprint_hex = hex hash;
          gen_time = gen_time;
          nonce_hex = last_integer none extras;
        })
  unfolding parse_tst_info
  parse_tst_info-written version policy serial alg_tag alg hash time extras gen_time imprint bytes
        enc trailing w_imprint w_bytes w_enc time_ok =
      let buf = enc ++ trailing in
      let read = read_tlv-write_tlv 0x30 bytes enc w_enc buf 0 trailing refl in
      let (there, larger) = content_of_written 0x30 bytes enc w_enc buf 0 trailing refl in
      let loop =
        tst_loop-written buf trailing (0 + length enc) version policy serial alg_tag alg hash time
          extras gen_time imprint bytes (0 + length enc + 1) (0 + length enc - length bytes)
          w_imprint w_bytes there (omega arith) (omega arith) time_ok in
      rw read (rw loop)
