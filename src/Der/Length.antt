-- ===== src/Der/Length.antt =====
-- Reading back the length field that `writeLength` writes, and what `readLength` returns at all.
use web_resource_ledger.Prelude.{
  ℕ, ◌+◌, ◌*◌, ◌/◌, ◌%◌, ◌^◌, ◌≤◌, ◌<◌, ◌≡◌, sym, ap, ◌∙◌, inl, inr, List, [], ◌∷◌, ◌++◌, drop,
  bit_and, bit_or, length, get_or, arith, Bool-cases, ltb, leb, ltb→lt, leb→le, ltb-eq-false→le,
  subst, get_or-drop, length-drop,
}
use web_resource_ledger.Prelude.Bits.{bit_and-low, bit_or-shift}
use web_resource_ledger.Prelude.Results.{ok}
use web_resource_ledger.Der.{write_length, read_length, length_loop, shift_byte}

-- One round of the loop appends a byte to the number.
pub push_byte : (len b : ℕ) → len < 2 ^ 24 → b < 256 → bit_or (shift_byte len) b ≡ len * 256 + b
push_byte len b h k =
    let e : len * 2 ^ 8 % 2 ^ 32 ≡ len * 2 ^ 8 = omega arith in
    rw e (omega (arith, bit_or-shift 8 len b (omega arith)))

pub low7 : (x : ℕ) → bit_and x 0x7f ≡ x % 128
low7 x = bit_and-low 7 x

pub low8 : (x : ℕ) → bit_and x 0xff ≡ x % 256
low8 x = bit_and-low 8 x

-- The bytes from `offset` on are `bs`.
module _ (buf : List ℕ) (offset : ℕ) (bs : List ℕ) (there : drop offset buf ≡ bs) where
  pub peek : (i : ℕ) → get_or buf (offset + i) 0 ≡ get_or bs i 0
  peek i = sym (get_or-drop offset i buf 0) ∙ ap (λ t. get_or t i 0) there

  pub peek_at : (i p : ℕ) → p ≡ offset + i → get_or buf p 0 ≡ get_or bs i 0
  peek_at i p e = ap (λ t. get_or buf t 0) e ∙ peek i

  pub length_of_there : 0 < length bs → length buf ≡ offset + length bs
  length_of_there h = omega (arith, length-drop offset buf, ap length there)

module _ (buf : List ℕ) (offset n : ℕ) (rest : List ℕ) where
  read_short : n < 0x80 → drop offset buf ≡ n ∷ rest → read_length buf offset ≡ ok (n, offset + 1)
  unfolding read_length
  read_short h there =
      ground (
        arith,
        peek_at buf offset _ there 0 offset (omega arith),
        length_of_there buf offset _ there,
      )

  read_long1 :
      0x80 ≤ n
      → n ≤ 0xff
      → drop offset buf ≡ 0x81 ∷ n ∷ rest
      → read_length buf offset ≡ ok (n, offset + 2)
  unfolding read_length length_loop
  read_long1 h k there = ground (
    arith,
    peek_at buf offset _ there 0 offset (omega arith),
    peek_at buf offset _ there 1 (offset + 1) (omega arith),
    length_of_there buf offset _ there,
    push_byte 0 n,
  )

  read_long2 :
      n ≤ 0xffff
      → drop offset buf ≡ 0x82 ∷ n / 2 ^ 8 ∷ n % 256 ∷ rest
      → read_length buf offset ≡ ok (n, offset + 3)
  unfolding read_length length_loop
  read_long2 k there = ground (
    arith,
    peek_at buf offset _ there 0 offset (omega arith),
    peek_at buf offset _ there 1 (offset + 1) (omega arith),
    peek_at buf offset _ there 2 (offset + 1 + 1) (omega arith),
    length_of_there buf offset _ there,
    push_byte 0 (n / 2 ^ 8),
    push_byte (n / 2 ^ 8) (n % 256),
  )

  read_long3 :
      n ≤ 0xffffff
      → drop offset buf ≡ 0x83 ∷ n / 2 ^ 16 % 256 ∷ n / 2 ^ 8 % 256 ∷ n % 256 ∷ rest
      → read_length buf offset ≡ ok (n, offset + 4)
  unfolding read_length length_loop
  read_long3 k there = ground (
    arith,
    peek_at buf offset _ there 0 offset (omega arith),
    peek_at buf offset _ there 1 (offset + 1) (omega arith),
    peek_at buf offset _ there 2 (offset + 1 + 1) (omega arith),
    peek_at buf offset _ there 3 (offset + 1 + 1 + 1) (omega arith),
    length_of_there buf offset _ there,
    push_byte 0 (n / 2 ^ 16),
    push_byte (n / 2 ^ 16) (n / 2 ^ 8 % 256),
    push_byte (n / 2 ^ 8) (n % 256),
  )

-- The bytes that `writeLength` writes, by the size of the number.
data Written (n : ℕ) : List ℕ → Type 0 where
  short : n < 0x80 → Written n (n ∷ [])
  long1 : 0x80 ≤ n → n ≤ 0xff → Written n (0x81 ∷ n ∷ [])
  long2 : n ≤ 0xffff → Written n (0x82 ∷ n / 2 ^ 8 ∷ n % 256 ∷ [])
  long3 : n ≤ 0xffffff → Written n (0x83 ∷ n / 2 ^ 16 % 256 ∷ n / 2 ^ 8 % 256 ∷ n % 256 ∷ [])

write_length-Written : (n : ℕ) (bs : List ℕ) → write_length n ≡ ok bs → Written n bs
unfolding write_length
write_length-Written n bs h = elim (Bool-cases (ltb n 0x80)) [
  | inl a ↦ subst (Written n) (ground (arith, a)) (short (ltb→lt n _ a))
  | inr a ↦ elim (Bool-cases (leb n 0xff)) [
    | inl b ↦ subst (Written n) (ground (arith, a)) (long1 (ltb-eq-false→le n _ a) (leb→le n _ b))
    | inr b ↦ elim (Bool-cases (leb n 0xffff)) [
      | inl c ↦ subst (Written n) (ground (arith, a, low8 n)) (long2 (leb→le n _ c))
      | inr c ↦ elim (Bool-cases (leb n 0xffffff)) [
        | inl d ↦
            subst (Written n) (ground (arith, low8 n, low8 (n / 2 ^ 8), low8 (n / 2 ^ 16)))
              (long3 (leb→le n _ d))
        | inr d ↦ cc
      ]
    ]
  ]
]

-- The length field that was written is read back, wherever it stands.
pub read_length-write_length :
    (n : ℕ) (bs : List ℕ)
    → write_length n ≡ ok bs
    → (buf : List ℕ) (offset : ℕ) (rest : List ℕ) → drop offset buf ≡ bs ++ rest
    → read_length buf offset ≡ ok (n, offset + length bs)
read_length-write_length n bs h buf offset rest = by_size (write_length-Written n bs h)
  where
    by_size :
        {cs : List ℕ}
        → Written n cs
        → drop offset buf ≡ cs ++ rest
        → read_length buf offset ≡ ok (n, offset + length cs)
    by_size (short p) there = read_short buf offset n rest p there
    by_size (long1 p q) there = read_long1 buf offset n rest p q there
    by_size (long2 p) there = read_long2 buf offset n rest p there
    by_size (long3 p) there = read_long3 buf offset n rest p there

-- Lengths up to the limit of the encoder are written in at most four bytes.
pub write_length-total :
    (n : ℕ) → n ≤ 0xffffff → (bs : List ℕ) × (write_length n ≡ ok bs) × (length bs ≤ 4)
unfolding write_length
write_length-total n h = elim (Bool-cases (ltb n 0x80)) [
  | inl a ↦ (n ∷ [], ground (arith, a), omega arith)
  | inr a ↦ elim (Bool-cases (leb n 0xff)) [
    | inl b ↦ (0x81 ∷ n ∷ [], ground (arith, a, b), omega arith)
    | inr b ↦ elim (Bool-cases (leb n 0xffff)) [
      | inl c ↦ (0x82 ∷ n / 2 ^ 8 ∷ bit_and n 0xff ∷ [], ground (arith, a, b, c), omega arith)
      | inr c ↦ (
        0x83 ∷ bit_and (n / 2 ^ 16) 0xff ∷ bit_and (n / 2 ^ 8) 0xff ∷ bit_and n 0xff ∷ [],
        ground (arith, a, b, c),
        omega arith,
      )
    ]
  ]
]
