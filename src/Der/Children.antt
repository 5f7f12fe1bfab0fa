-- ===== src/Der/Children.antt =====
-- Walking the children of a constructed block: the walk ends, and finds what was written.
use web_resource_ledger.Prelude.{
  ℕ, ◌-◌, zero, suc, ◌+◌, ◌≤◌, ◌<◌, ◌≡◌, ◌≢◌, refl, ap, ◌∙◌, List, [], ◌∷◌, ◌++◌, some, drop,
  length, get_elem?, arith, length-append, append_assoc, ◌==◌, drop_past, Bool-cases, inl, inr, ◌⊎◌,
  subst,
}
use web_resource_ledger.Prelude.Results.{Result, ok, err, ◌>>=◌, >>=-eq-ok}
use web_resource_ledger.Der.{Tlv, write_tlv, read_length, read_tlv, child_loop, child_at}
use web_resource_ledger.Der.Errors.{Thrown, unfinished}
use web_resource_ledger.Der.Blocks.{
  content_of_written, IsBlock, read_tlv-IsBlock, read_tlv-write_tlv,
}

read_tlv_finishes : (buf : List ℕ) (offset : ℕ) → read_tlv buf offset ≢ err unfinished
unfolding read_tlv read_length
read_tlv_finishes buf offset = ground arith

pub Result-cases {ℓ} :
    {E A : Type ℓ} (r : Result E A) → ((a : A) × (r ≡ ok a)) ⊎ ((e : E) × (r ≡ err e))
Result-cases (ok a) = inl (a, refl)
Result-cases (err e) = inr (e, refl)

child_loop_finishes :
    (fuel : ℕ) (buf : List ℕ) (pos value_end i index : ℕ)
    → 0 < fuel
    → value_end < pos + fuel
    → child_loop fuel buf pos value_end i index ≢ err unfinished
unfolding child_loop
child_loop_finishes zero buf pos value_end i index z h = absurd (omega arith)
child_loop_finishes (suc fuel) buf pos value_end i index z h =
    elim (Result-cases (read_tlv buf pos)) [
      | inl (t, e) ↦
          let block = read_tlv-IsBlock buf pos t e in
          let further : value_end < t.end + fuel = omega arith in
          ground (arith, e, child_loop_finishes fuel buf t.end value_end (i + 1) index)
      | inr (t, e) ↦ ground (arith, read_tlv_finishes buf pos)
    ]

-- `childAt` always ends: it returns a child or throws, and the fuel of the model is enough.
pub child_at_finishes :
    (buf : List ℕ) (value_start value_end index : ℕ)
    → child_at buf value_start value_end index ≢ err unfinished
unfolding child_at
child_at_finishes buf value_start value_end index =
    child_loop_finishes (value_end + 1) buf value_start value_end 0 index (omega arith)
      (omega arith)

-- What a found child is: a block of the buffer.
child_loop-IsBlock :
    (fuel : ℕ) (buf : List ℕ) (pos value_end i index : ℕ) (t : Tlv)
    → child_loop fuel buf pos value_end i index ≡ ok t
    → (at : ℕ) × IsBlock buf at t × (pos ≤ at)
unfolding child_loop
child_loop-IsBlock zero buf pos value_end i index t h = cc
child_loop-IsBlock (suc fuel) buf pos value_end i index t h =
    elim (Result-cases (read_tlv buf pos)) [
      | inl (u, e) ↦ elim (Bool-cases (i == index)) [
        | inl same ↦
            let is_t : u ≡ t = ground arith in
            (pos, subst (IsBlock buf pos) is_t (read_tlv-IsBlock buf pos u e), omega arith)
        | inr other ↦
            let later : child_loop fuel buf u.end value_end (i + 1) index ≡ ok t = ground arith in
            let (at, block, after) =
              child_loop-IsBlock fuel buf u.end value_end (i + 1) index t later in
            let here = read_tlv-IsBlock buf pos u e in (at, block, omega arith)
      ]
      | inr (x, e) ↦ absurd (ground arith)
    ]

-- A child that `childAt` returns is a block of the buffer, and starts within the parent or after.
pub child_at-IsBlock :
    (buf : List ℕ) (value_start value_end index : ℕ) (t : Tlv)
    → child_at buf value_start value_end index ≡ ok t
    → (at : ℕ) × IsBlock buf at t × (value_start ≤ at)
unfolding child_at
child_at-IsBlock buf value_start value_end index t h =
    child_loop-IsBlock (value_end + 1) buf value_start value_end 0 index t h

-- Several blocks, one after the other.
unfoldable pub write_blocks : List (ℕ × List ℕ) → Result Thrown (List ℕ)
write_blocks [] = ok []
write_blocks ((tag, content) ∷ blocks) = do
  first ← write_tlv tag content
  others ← write_blocks blocks
  ok (first ++ others)

-- The block `t` holds `content`, and ends where its bytes `enc` end.
pub record Holds (t : Tlv) (tag : ℕ) (content : List ℕ) : Type 0 where
  pub tag_is : t.tag ≡ tag
  pub value_is : t.value ≡ content
  pub length_is : t.length ≡ length content

module _ (fuel : ℕ) (buf : List ℕ) (pos value_end i index : ℕ) (t : Tlv) where
  child_loop_here :
      read_tlv buf pos ≡ ok t
      → pos < value_end
      → index ≡ i
      → child_loop (suc fuel) buf pos value_end i index ≡ ok t
  unfolding child_loop
  child_loop_here e p q = ground arith

  child_loop_next :
      read_tlv buf pos ≡ ok t
      → pos < value_end
      → index ≢ i
      → child_loop (suc fuel) buf pos value_end i index
        ≡ child_loop fuel buf t.end value_end (i + 1) index
  unfolding child_loop
  child_loop_next e p q = ground arith

-- The parts of what `write_blocks` writes.
write_blocks-cons :
    (tag : ℕ) (content : List ℕ) (blocks : List (ℕ × List ℕ)) (bytes : List ℕ)
    → write_blocks ((tag, content) ∷ blocks) ≡ ok bytes
    → (first : List ℕ) × (others : List ℕ) × (write_tlv tag content ≡ ok first)
      × (write_blocks blocks ≡ ok others)
      × (bytes ≡ first ++ others)
unfolding write_blocks
write_blocks-cons tag content blocks bytes w =
    let (first, w1, more) = >>=-eq-ok (write_tlv tag content) _ w in
    let (others, w2, whole) = >>=-eq-ok (write_blocks blocks) _ more in
    (first, others, w1, w2, ground arith)

-- The first of several written blocks, as it is read, and where the others stand.
pub record Peeled (buf : List ℕ) (offset : ℕ) (tag : ℕ) (content : List ℕ)
    (blocks : List (ℕ × List ℕ)) (bytes rest : List ℕ) : Type 0 where
  pub first : List ℕ
  pub others : List ℕ
  pub block : Tlv
  pub others_written : write_blocks blocks ≡ ok others
  pub size : length bytes ≡ length first + length others
  pub reads : read_tlv buf offset ≡ ok block
  pub holds : Holds block tag content
  pub ends : block.end ≡ offset + length first
  pub grows : offset < block.end
  pub others_there : drop block.end buf ≡ others ++ rest
  pub content_there : drop (block.end - block.length) buf ≡ content ++ (others ++ rest)
  pub content_fits : block.length ≤ block.end

pub peel :
    (buf : List ℕ) (offset tag : ℕ) (content : List ℕ) (blocks : List (ℕ × List ℕ))
    (bytes rest : List ℕ)
    → write_blocks ((tag, content) ∷ blocks) ≡ ok bytes
    → drop offset buf ≡ bytes ++ rest
    → Peeled buf offset tag content blocks bytes rest
peel buf offset tag content blocks bytes rest w there =
    let (first, others, w1, w2, is_bytes) = write_blocks-cons tag content blocks bytes w in
    let parts : drop offset buf ≡ first ++ (others ++ rest) =
      there ∙ ap (λ b. b ++ rest) is_bytes ∙ append_assoc first others rest in
    let (inside, larger) = content_of_written tag content first w1 buf offset _ parts in
    record {
      first = first;
      others = others;
      block = record {
        tag = tag;
        length = length content;
        value = content;
        end = offset + length first;
      };
      others_written = w2;
      size = ap length is_bytes ∙ length-append first others;
      reads = read_tlv-write_tlv tag content first w1 buf offset _ parts;
      holds = record { tag_is = refl; value_is = refl; length_is = refl };
      ends = refl;
      grows = omega arith;
      others_there = drop_past offset buf first _ parts;
      content_there = inside;
      content_fits = omega arith;
    }

module _ (buf rest : List ℕ) (value_end : ℕ) where
  child_loop-write_blocks :
      (blocks : List (ℕ × List ℕ)) (fuel pos i k index : ℕ) (bytes : List ℕ) (tag : ℕ)
      (content : List ℕ)
      → length bytes < fuel
      → write_blocks blocks ≡ ok bytes
      → drop pos buf ≡ bytes ++ rest
      → value_end ≡ pos + length bytes
      → index ≡ i + k
      → get_elem? blocks k ≡ some (tag, content)
      → (t : Tlv) × (child_loop fuel buf pos value_end i index ≡ ok t) × Holds t tag content
  child_loop-write_blocks [] fuel pos i k index bytes tag content f w there e at got = cc
  child_loop-write_blocks (b ∷ bs) zero pos i k index bytes tag content f w there e at got =
      absurd (omega arith)
  child_loop-write_blocks ((tag0, c0) ∷ bs) (suc fuel) pos i zero index bytes tag content f w there
        e at got =
      let p = peel buf pos tag0 c0 bs bytes rest w there in
      let same_tag : tag0 ≡ tag = ground arith in
      let same_content : c0 ≡ content = ground arith in
      (
        p.block,
        child_loop_here fuel buf pos value_end i index _ p.reads (omega arith) (omega arith),
        record {
          tag_is = p.holds.tag_is ∙ same_tag;
          value_is = p.holds.value_is ∙ same_content;
          length_is = p.holds.length_is ∙ ap length same_content;
        },
      )
  child_loop-write_blocks ((tag0, c0) ∷ bs) (suc fuel) pos i (suc k) index bytes tag content f w
        there e at got =
      let p = peel buf pos tag0 c0 bs bytes rest w there in
      let (t, found, holds) =
        child_loop-write_blocks bs fuel p.block.end (i + 1) k index p.others tag content
          (omega arith) p.others_written p.others_there (omega arith) (omega arith) got in
      (
        t,
        child_loop_next fuel buf pos value_end i index _ p.reads (omega arith) (omega arith)
            ∙ found,
        holds,
      )

  -- `childAt` finds the block that was written at each index.
  pub child_at-write_blocks :
      (blocks : List (ℕ × List ℕ)) (value_start index : ℕ) (bytes : List ℕ) (tag : ℕ)
      (content : List ℕ)
      → write_blocks blocks ≡ ok bytes
      → drop value_start buf ≡ bytes ++ rest
      → value_end ≡ value_start + length bytes
      → get_elem? blocks index ≡ some (tag, content)
      → (t : Tlv) × (child_at buf value_start value_end index ≡ ok t) × Holds t tag content
  unfolding child_at
  child_at-write_blocks blocks start index bytes tag content w there e got =
      child_loop-write_blocks blocks (value_end + 1) start 0 index index bytes tag content
        (omega arith) w there e (omega arith) got
