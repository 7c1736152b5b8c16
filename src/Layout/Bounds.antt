-- ===== src/Layout/Bounds.antt =====
-- slot_array.h and metaprog.h: the integer types that the templates choose hold every position.
use foster_btree.Prelude.{
  ℕ, zero, suc, ◌+◌, ◌-◌, ◌*◌, ◌/◌, ◌%◌, ◌^◌, ◌≤◌, ◌<◌, ◌≡◌, ◌↔◌, arith, ltb, ltb→ge, ltb→lt,
  dec_lt, if◌then◌else◌, inl, inr, Bool-cases, true, false,
}
use native.Mathlib.Nat.{
  pow-le-pow_right, one-le-pow, div-eq_of_lt, le_trans, div-add-mod', div-le_self, div-mul-le_self,
  mul-sub, div-eq_of_eq-mul_left, le-div_iff_mul-le,
}
use foster_btree.Metaprog.{pointer_size_from, get_pointer_size, unsigned_integer_size}
use foster_btree.Layout.{
  Layout, IsLayout, size_word, array_bytes, max_payload_count, payload_ptr_size, max_slot_count,
  slot_ptr_size, slot_limit, payload_count, ptr_word, slot_word,
}

bits-lt : (n i : ℕ) → ltb 0 (n / 2 ^ i) ≡ false → n < 2 ^ i
bits-lt n i h = grind (arith, one-le-pow i 2 (omega arith), ltb→ge 0 (n / 2 ^ i) h)

-- A number of `iter` bits fits in the bytes that those bits take.
round_up : (n i : ℕ) → n < 2 ^ i → n < 2 ^ (8 * (i / 8 + (if ltb 0 (i % 8) then 1 else 0)))
round_up n i h = le_trans h (pow-le-pow_right {n = 2} (omega arith) (ground arith))

pointer_size_from-bound :
    (rounds n iter : ℕ) → n < 2 ^ (rounds + iter) → n < 2 ^ (8 * pointer_size_from rounds n iter)
unfolding pointer_size_from
pointer_size_from-bound zero n iter h =
    round_up n iter (let e : 0 + iter ≡ iter = omega arith in rw e at h)
pointer_size_from-bound (suc rounds) n iter h = elim (Bool-cases (ltb 0 (n / 2 ^ iter))) [
  | inl more ↦ rw more (
      pointer_size_from-bound rounds n (iter + 1)
        (let e : suc rounds + iter ≡ rounds + (iter + 1) = omega arith in rw e at h))
  | inr last ↦ rw last (round_up n iter (bits-lt n iter last))
]

pointer_size-holds : (n : ℕ) → n < 2 ^ 64 → n < 2 ^ (8 * get_pointer_size n)
unfolding get_pointer_size
pointer_size-holds n h = pointer_size_from-bound 64 n 0 h

deeper :
    (n iter k : ℕ) → n < 2 ^ (8 * k) → iter ≤ 8 * k → ltb 0 (n / 2 ^ iter) ≡ true → iter + 1 ≤ 8 * k
deeper n iter k h p more = elim (dec_lt iter (8 * k)) [
  | yes below ↦ omega arith
  | no above ↦
      let e : 8 * k ≡ iter = omega arith in
      let none_left : n / 2 ^ iter ≡ 0 = div-eq_of_lt (rw e at h) in
      absurd (omega (arith, ltb→lt _ _ more))
]

-- They are no more bytes than needed.
pointer_size_from-least :
    (rounds n iter k : ℕ)
    → n < 2 ^ (8 * k)
    → iter ≤ 8 * k
    → 8 * k ≤ iter + rounds
    → pointer_size_from rounds n iter ≤ k
unfolding pointer_size_from
pointer_size_from-least zero n iter k h p q = ground arith
pointer_size_from-least (suc rounds) n iter k h p q = elim (Bool-cases (ltb 0 (n / 2 ^ iter))) [
  | inl more ↦
      rw more
        (pointer_size_from-least rounds n (iter + 1) k h (deeper n iter k h p more) (omega arith))
  | inr last ↦ rw last (ground arith)
]

pointer_size-least : (n k : ℕ) → k ≤ 8 → n < 2 ^ (8 * k) → get_pointer_size n ≤ k
unfolding get_pointer_size
pointer_size-least n k few h = pointer_size_from-least 64 n 0 k h (omega arith) (omega arith)

-- For `n` below 2 ^ 63, unsigned numbers of `k` bytes can hold `n` exactly if `k` is at least
-- `get_pointer_size(n)`.
pub get_pointer_size_le_iff : (n k : ℕ) → n < 2 ^ 63 → (get_pointer_size n ≤ k) ↔ (n < 2 ^ (8 * k))
get_pointer_size_le_iff n k small = (
  λ le.
      le_trans (pointer_size-holds n (omega arith))
        (pow-le-pow_right {n = 2} (omega arith) (omega arith)),
  λ h. elim (dec_lt 8 k) [
    | yes large ↦ omega (arith, pointer_size-least n 8 (omega arith) (omega arith))
    | no few ↦ pointer_size-least n k (omega arith) h
  ],
)

-- `UnsignedInteger<N>` has at least `N` bytes.
unsigned_integer_size-ge : (n : ℕ) → n ≤ 8 → n ≤ unsigned_integer_size n
unfolding unsigned_integer_size
unsigned_integer_size-ge n h = ground arith

-- An unsigned type chosen for `n` has room for `n`.
chosen_type-holds :
    (n : ℕ) → n < size_word → n < 2 ^ (8 * unsigned_integer_size (get_pointer_size n))
chosen_type-holds n h = le_trans (pointer_size-holds n h) (
    pow-le-pow_right {n = 2} (omega arith) (
      omega (
        arith,
        unsigned_integer_size-ge (get_pointer_size n) (pointer_size-least n 8 (omega arith) h),
      )))

-- Taking a whole number of blocks off a whole number of blocks.
blocks_left :
    (q header a : ℕ)
    → 0 < a
    → header % a ≡ 0
    → header ≤ q * a
    → (q * a - header) / a * a + header ≡ q * a
blocks_left q header a pos aligned fits =
    let h = header / a in
    let whole : header ≡ h * a = omega (arith, div-add-mod' header a) in
    let left : q * a - header ≡ (q - h) * a = omega (arith, mul-sub a q h) in
    rw (div-eq_of_eq-mul_left pos left) (omega arith)

div_mono : (x y a : ℕ) → 0 < a → x ≤ y → x / a ≤ y / a
div_mono x y a pos le = (le-div_iff_mul-le pos).1 (omega (arith, div-mul-le_self x a))

module _ (l : Layout) (is : IsLayout l) where
  open is use {alignment_pos, slot_size_pos, header_aligned, header_fits, total_small}

  pub array_bytes-small : array_bytes l < size_word
  unfolding array_bytes
  array_bytes-small = omega (arith, div-mul-le_self (l.total_size - l.super_size) l.alignment)

  pub max_payload_count-small : max_payload_count l < size_word
  unfolding max_payload_count
  max_payload_count-small =
      omega (arith, div-le_self (array_bytes l) l.alignment, array_bytes-small)

  max_slot_count-small : max_slot_count l < size_word
  unfolding max_slot_count
  max_slot_count-small = omega (arith, div-le_self (array_bytes l) l.slot_size, array_bytes-small)

  slot_limit-le-max : slot_limit l ≤ max_slot_count l
  unfolding slot_limit max_slot_count
  slot_limit-le-max = div_mono _ _ _ slot_size_pos (omega arith)

  -- Under the static assertions, the payload blocks and the header fill `ArrayBytes` exactly.
  pub blocks_fill_array : payload_count l * l.alignment + l.header_size ≡ array_bytes l
  unfolding payload_count array_bytes
  blocks_fill_array = blocks_left _ l.header_size l.alignment alignment_pos header_aligned header_le
    where
      header_le : l.header_size ≤ (l.total_size - l.super_size) / l.alignment * l.alignment
      header_le = header_fits

  pub payload_count-le-max : payload_count l ≤ max_payload_count l
  unfolding payload_count max_payload_count
  payload_count-le-max = div_mono _ _ _ alignment_pos (omega arith)

  -- Under the static assertions, every block position, the end of the payload area included, is a
  -- value of `PayloadPtr`.
  pub payload_count-lt-ptr_word : payload_count l < ptr_word l
  unfolding ptr_word payload_ptr_size
  payload_count-lt-ptr_word =
      le_trans (omega (arith, payload_count-le-max))
        (chosen_type-holds (max_payload_count l) max_payload_count-small)

  -- Under the static assertions, every slot number, the end of a full slot vector included, is a
  -- value of `SlotNumber`.
  pub slot_limit-lt-slot_word : slot_limit l < slot_word l
  unfolding slot_word slot_ptr_size
  slot_limit-lt-slot_word =
      le_trans (omega (arith, slot_limit-le-max))
        (chosen_type-holds (max_slot_count l) max_slot_count-small)
