-- ===== src/SlotArray/Invariant.antt =====
-- slot_array.h: used slots and used payload blocks lie apart; what each method does then.
use foster_btree.Prelude.{ℕ, ◌-◌, ◌*◌, ◌≤◌, ◌<◌, ◌≡◌, none, some, arith, le→leb, lt→ltb, ge→ltb}
use native.Mathlib.Nat.{mul-sub, le-div_iff_mul-le}
use foster_btree.Prelude.Words.{cast-small, sub_mod-small}
use foster_btree.Prelude.Outcome.{ok}
use foster_btree.Layout.{Layout, IsLayout, size_word, slot_limit, payload_count, ptr_word}
use foster_btree.Layout.Bounds.{array_bytes-small, blocks_fill_array, payload_count-lt-ptr_word}
use foster_btree.SlotArray.Defs.{SlotArray, free_space, get_payload_count, allocate_payload}

-- The used slots end before the used payload blocks begin, and those lie in the array.
pub record IsWellFormed (l : Layout) {K : Type 0} (s : SlotArray K) : Type 0 where
  pub begin_le : s.payload_begin ≤ payload_count l
  pub apart : s.slot_end * l.slot_size ≤ s.payload_begin * l.alignment

-- The bytes between the used slots and the used payload blocks.
abbrev pub gap : (l : Layout) {K : Type 0} → SlotArray K → ℕ
gap l s = s.payload_begin * l.alignment - s.slot_end * l.slot_size

module _ (l : Layout) (is : IsLayout l) {K : Type 0} {s : SlotArray K} (w : IsWellFormed l s) where
  open w use {begin_le, apart}

  begin_bytes : s.payload_begin * l.alignment ≤ payload_count l * l.alignment
  begin_bytes = grind (arith, begin_le)

  begin_bytes-small : s.payload_begin * l.alignment < size_word
  begin_bytes-small = omega (arith, begin_bytes, blocks_fill_array l is, array_bytes-small l is)

  pub begin-lt-ptr_word : s.payload_begin < ptr_word l
  begin-lt-ptr_word = omega (arith, begin_le, payload_count-lt-ptr_word l is)

  -- The used slots fit in the slot vector.
  pub slot_end-le-limit : s.slot_end ≤ slot_limit l
  unfolding slot_limit
  slot_end-le-limit =
      (le-div_iff_mul-le is.slot_size_pos).1
        (omega (arith, apart, begin_bytes, blocks_fill_array l is))

  -- On a well-formed array, `free_space`, computed in `size_t`, is the number of bytes between the
  -- used slots and the used payload blocks: nothing wraps around.
  pub free_space-exact : free_space l s ≡ gap l s
  unfolding free_space
  free_space-exact =
      rw
        (
          cast-small size_word (s.payload_begin * l.alignment) begin_bytes-small,
          cast-small size_word (s.slot_end * l.slot_size) (omega (arith, apart, begin_bytes-small)),
        )
        (sub_mod-small size_word _ _ apart begin_bytes-small)

-- Blocks that fit in bytes before position `b` start at a position.
pub blocks-le : (n b a rest : ℕ) → 0 < a → n * a ≤ b * a - rest → n ≤ b
blocks-le n b a rest pos h = grind arith

pub bytes_left : (b n a used : ℕ) → used ≤ b * a → n * a ≤ b * a - used → used ≤ (b - n) * a
bytes_left b n a used fits h = omega (arith, mul-sub a b n)

-- `allocate_payload`, where it finds room: the blocks right before the used ones.
abbrev pub allocated : {K : Type 0} → ℕ → SlotArray K → SlotArray K
allocated n s = record s { payload_begin = s.payload_begin - n }

module _ (l : Layout) (is : IsLayout l) {K : Type 0} (s : SlotArray K) (w : IsWellFormed l s)
    (length : ℕ) where
  open w use {begin_le, apart}

  abbrev needed : ℕ
  needed = get_payload_count l length

  pub allocate_payload-full :
      gap l s < needed * l.alignment → allocate_payload l length s ≡ ok (s, none)
  unfolding allocate_payload
  allocate_payload-full full = rw (
    le→leb s.payload_begin (payload_count l) begin_le,
    free_space-exact l is w,
    lt→ltb (gap l s) (needed * l.alignment) full,
  )

  pub allocate_payload-room :
      needed * l.alignment ≤ gap l s
      → allocate_payload l length s ≡ ok (allocated needed s, some (s.payload_begin - needed))
  unfolding allocate_payload
  allocate_payload-room room =
      let few : needed ≤ s.payload_begin =
        blocks-le needed s.payload_begin l.alignment _ is.alignment_pos room in
      let small = begin-lt-ptr_word l is w in
      rw (
        le→leb s.payload_begin (payload_count l) begin_le,
        free_space-exact l is w,
        ge→ltb (gap l s) (needed * l.alignment) room,
        cast-small (ptr_word l) needed (omega arith),
        sub_mod-small (ptr_word l) s.payload_begin needed few small,
        le→leb (s.payload_begin - needed) (payload_count l) (omega arith),
      )

  pub allocated-IsWellFormed : needed * l.alignment ≤ gap l s → IsWellFormed l (allocated needed s)
  allocated-IsWellFormed room = record {
    begin_le = omega arith;
    apart = bytes_left _ needed _ _ apart room;
  }
