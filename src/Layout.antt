-- ===== src/Layout.antt =====
-- slot_array.h: the template parameters of `SlotArray`, and its compile-time constants.
pub mod Bounds
use foster_btree.Prelude.{ℕ, ◌+◌, ◌-◌, ◌*◌, ◌/◌, ◌%◌, ◌^◌, ◌≤◌, ◌<◌, ◌≡◌}
use foster_btree.Metaprog.{get_pointer_size, unsigned_integer_size}

-- The parameters, and the sizes that the compiler's data layout decides: `super_size` is
-- `SizeOfTypePack<SuperTypes...>()`, `slot_size` is `sizeof(Slot)`, and `header_size` is
-- `sizeof(HeaderData)`.
pub record Layout : Type 0 where
  pub total_size : ℕ
  pub alignment : ℕ
  pub super_size : ℕ
  pub slot_size : ℕ
  pub header_size : ℕ

-- The number of values of a `size_t`.
abbrev pub size_word : ℕ
size_word = 2 ^ 64

module _ (l : Layout) where
  open l use {total_size, alignment, super_size, slot_size, header_size}

  -- `ArrayBytes`
  unfoldable pub array_bytes : ℕ
  array_bytes = (total_size - super_size) / alignment * alignment

  -- `MaxPayloadCount`
  unfoldable pub max_payload_count : ℕ
  max_payload_count = array_bytes / alignment

  -- `PayloadPtrSize`
  unfoldable pub payload_ptr_size : ℕ
  payload_ptr_size = get_pointer_size max_payload_count

  -- `MaxSlotCount` and `SlotPtrSize`
  unfoldable pub max_slot_count : ℕ
  max_slot_count = array_bytes / slot_size

  unfoldable pub slot_ptr_size : ℕ
  slot_ptr_size = get_pointer_size max_slot_count

  -- `SlotCount` and `PayloadCount`: what the header leaves.
  unfoldable pub slot_limit : ℕ
  slot_limit = (array_bytes - header_size) / slot_size

  unfoldable pub payload_count : ℕ
  payload_count = (array_bytes - header_size) / alignment

  -- The numbers of values of `PayloadPtr`, of `SlotNumber`, and of the bit field `ptr` of a slot,
  -- which leaves one bit to `ghost`.
  unfoldable pub ptr_word : ℕ
  ptr_word = 2 ^ (8 * unsigned_integer_size payload_ptr_size)

  unfoldable pub slot_word : ℕ
  slot_word = 2 ^ (8 * unsigned_integer_size slot_ptr_size)

  unfoldable pub slot_ptr_word : ℕ
  slot_ptr_word = 2 ^ (payload_ptr_size * 8 - 1)

  -- Every position of a block can be stored in a slot, and the distance of two in an `int`.
  abbrev pub IsAddressable : Type 0
  IsAddressable = (payload_count ≤ slot_ptr_word) × (payload_count < 2 ^ 31)

  -- The static assertions of the class, and sizes that a program can have.
  pub record IsLayout : Type 0 where
    pub alignment_pos : 0 < alignment
    pub slot_size_pos : 0 < slot_size
    pub header_aligned : header_size % alignment ≡ 0
    pub header_fits : header_size ≤ array_bytes
    pub total_small : total_size < size_word
