-- ===== src/SlotArray/Regions.antt =====
-- slot_array.h: freeing a payload, or allocating one at the end, keeps every other payload readable
-- through its slot.
use foster_btree.Prelude.{
  ℕ, ◌+◌, ◌-◌, ◌*◌, ◌≤◌, ◌<◌, ◌≡◌, refl, none, some, arith, fun_ext, le→leb, lt→ltb, ge→ltb,
}
use foster_btree.Prelude.Words.{cast-small, sub_mod-small}
use foster_btree.Prelude.Outcome.{ok}
use foster_btree.Layout.{
  Layout, IsLayout, IsAddressable, array_bytes, payload_count, ptr_word, size_word,
}
use foster_btree.Layout.Bounds.{
  payload_count-lt-ptr_word, payload_count-le-max, max_payload_count-small,
}
use foster_btree.SlotArray.Defs.{SlotArray, get_payload_count, free_payload, allocate_end_payload}
use foster_btree.SlotArray.Invariant.{IsWellFormed, allocated, gap, blocks-le, free_space-exact}
use foster_btree.SlotArray.Payloads.{
  shifted_up, shift_payloads-up, shifted_down, shift_payloads-down,
}

-- The state after the `d` blocks of a payload are freed.
abbrev pub freed : (l : Layout) {K : Type 0} → (ptr d : ℕ) → SlotArray K → SlotArray K
freed l ptr d s = shifted_up l d (ptr - s.payload_begin) s

module _ (l : Layout) (is : IsLayout l) (addressable : IsAddressable l) {K : Type 0}
    (s : SlotArray K) (w : IsWellFormed l s) where
  open w use {begin_le, apart}

  module _ (ptr length : ℕ) (short : length ≤ array_bytes l) (used : s.payload_begin ≤ ptr)
      (inside : ptr + get_payload_count l length ≤ payload_count l) where
    pub free_payload-eq :
        free_payload l ptr length s ≡ ok (freed l ptr (get_payload_count l length) s)
    unfolding free_payload
    free_payload-eq = rw (
      le→leb length (array_bytes l) short,
      le→leb s.payload_begin ptr used,
      cast-small (ptr_word l) (s.payload_begin + get_payload_count l length)
          (omega (arith, payload_count-lt-ptr_word l is)),
      cast-small (ptr_word l) (ptr - s.payload_begin)
          (omega (arith, payload_count-lt-ptr_word l is)),
      shift_payloads-up l is addressable s w (get_payload_count l length) (ptr - s.payload_begin)
          (omega arith),
    )

  module _ (length : ℕ) (some_blocks : 0 < get_payload_count l length) where
    abbrev needed : ℕ
    needed = get_payload_count l length

    -- The blocks in use, all of which `allocate_end_payload` moves.
    abbrev pub used_blocks : ℕ
    used_blocks = payload_count l - s.payload_begin

    pub allocate_end_payload-full :
        gap l s < needed * l.alignment → allocate_end_payload l length s ≡ ok (s, none)
    unfolding allocate_end_payload
    allocate_end_payload-full full =
        rw (free_space-exact l is w, lt→ltb (gap l s) (needed * l.alignment) full) refl

    pub allocate_end_payload-room :
        needed * l.alignment ≤ gap l s
        → allocate_end_payload l length s
          ≡ ok (shifted_down l needed used_blocks s, some (payload_count l - needed))
    unfolding allocate_end_payload
    allocate_end_payload-room room =
        let enough : needed ≤ s.payload_begin =
          blocks-le needed s.payload_begin l.alignment _ is.alignment_pos room in
        let small = payload_count-lt-ptr_word l is in
        let word : payload_count l < size_word =
          omega (arith, payload_count-le-max l is, max_payload_count-small l is) in
        rw
          (
            free_space-exact l is w,
            ge→ltb (gap l s) (needed * l.alignment) room,
            sub_mod-small size_word s.payload_begin needed enough (omega arith),
            cast-small (ptr_word l) (s.payload_begin - needed) (omega arith),
            sub_mod-small (ptr_word l) (payload_count l) s.payload_begin begin_le small,
            shift_payloads-down l is addressable s w needed used_blocks some_blocks enough
                (omega arith) room,
            le→leb (s.payload_begin - needed) (payload_count l) (omega arith),
            sub_mod-small size_word (payload_count l) needed (omega arith) (omega arith),
            cast-small (ptr_word l) (payload_count l - needed) (omega arith),
          )
          refl

-- Freeing a payload that was just allocated undoes the allocation.
module _ (l : Layout) {K : Type 0} (s : SlotArray K) (n : ℕ) (few : n ≤ s.payload_begin) where
  begin_back : s.payload_begin - n + n ≡ s.payload_begin
  begin_back = omega arith

  nothing_between : (s.payload_begin - n) - (s.payload_begin - n) ≡ 0
  nothing_between = omega arith

  pub freed-allocated : freed l (s.payload_begin - n) n (allocated n s) ≡ s
  freed-allocated = λ d. record s {
    payload_begin = begin_back d;
    slots = same_slots d;
    payloads = same_payloads d;
  }
    where
      same_slots : (freed l (s.payload_begin - n) n (allocated n s)).slots ≡ s.slots
      same_slots = fun_ext (λ i. ground arith)

      same_payloads : (freed l (s.payload_begin - n) n (allocated n s)).payloads ≡ s.payloads
      same_payloads = fun_ext (λ i. ground arith)
