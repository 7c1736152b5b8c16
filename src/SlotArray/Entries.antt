-- ===== src/SlotArray/Entries.antt =====
-- slot_array.h: an array as the sequence of its entries, each a key, a ghost bit and a string of
-- bytes, with the memory layout forgotten.
pub mod Insertion
pub mod Removal
pub mod Shifting
use Prim.Native.Nat.{min, max}
use native.Mathlib.Nat.{
  div-add-mod', mod-lt, div-lt_iff_lt-mul, mul-add-div_right, mul-add-mod_self_right,
}
use mathlib.Core.Path.{ap₂}
use foster_btree.Prelude.{
  ℕ, ◌+◌, ◌-◌, ◌*◌, ◌/◌, ◌%◌, ◌≤◌, ◌<◌, ◌≡◌, ◌≢◌, refl, ap, ◌⊎◌, inl, inr, Bool, true, false, ◌&&◌,
  leb, ltb, ◌==◌, if◌then◌else◌, arith,
}
use foster_btree.Prelude.Words.{cast, cast-small}
use foster_btree.Layout.{Layout, IsLayout, array_bytes, payload_count}
use foster_btree.Layout.Bounds.{blocks_fill_array}
use foster_btree.SlotArray.Defs.{Slot, SlotArray, get_payload_count, byte_at, memory, with_memory}
use foster_btree.SlotArray.Invariant.{IsWellFormed}

pub record Entry (K : Type 0) : Type 0 where
  pub key : K
  pub ghost : Bool
  pub size : ℕ
  pub bytes : ℕ → ℕ

module _ (l : Layout) {K : Type 0} where
  abbrev pub blocks : Entry K → ℕ
  blocks e = get_payload_count l e.size

  -- A slot with its payload below block `floor` stands for an entry.
  pub record Stores (floor : ℕ) (s : SlotArray K) (slot : Slot K) (e : Entry K) : Type 0 where
    pub key_eq : slot.key ≡ e.key
    pub ghost_eq : slot.ghost ≡ e.ghost
    pub after_begin : s.payload_begin ≤ slot.ptr
    pub before_floor : slot.ptr + blocks e ≤ floor
    pub bytes_eq : (o : ℕ) → o < e.size → byte_at l s slot.ptr o ≡ e.bytes o

  -- Two payloads have no block in common.
  abbrev pub Apart : (slot slot' : Slot K) (e e' : Entry K) → Type 0
  Apart slot slot' e e' = (slot.ptr + blocks e ≤ slot'.ptr) ⊎ (slot'.ptr + blocks e' ≤ slot.ptr)

  -- The array holds `count` entries; the blocks from `floor` on belong to others.
  pub record Represents (floor : ℕ) (s : SlotArray K) (count : ℕ) (entries : ℕ → Entry K)
      : Type 0 where
    pub well_formed : IsWellFormed l s
    pub count_eq : s.slot_end ≡ count
    pub floor_ge : s.payload_begin ≤ floor
    pub floor_le : floor ≤ payload_count l
    pub stores : (i : ℕ) → i < count → Stores floor s (s.slots i) (entries i)
    pub sized : (i : ℕ) → i < count → 0 < (entries i).size
    pub apart :
        (i j : ℕ)
        → i < count
        → j < count
        → i ≢ j
        → Apart (s.slots i) (s.slots j) (entries i) (entries j)

module _ (l : Layout) (is : IsLayout l) where
  pub size-le-blocks : (size : ℕ) → size ≤ get_payload_count l size * l.alignment
  unfolding get_payload_count
  size-le-blocks size = grind (arith, div-add-mod' size l.alignment, mod-lt size is.alignment_pos)

  pub block-lt : (size o : ℕ) → o < size → o / l.alignment < get_payload_count l size
  block-lt size o h = (div-lt_iff_lt-mul is.alignment_pos).1 (omega (arith, size-le-blocks size))

  pub blocks_pos : (size : ℕ) → 0 < size → 0 < get_payload_count l size
  blocks_pos size h = grind (arith, block-lt size 0 h)

  -- A payload in the array is no longer than the array.
  pub size-le-array :
      (ptr size : ℕ) → ptr + get_payload_count l size ≤ payload_count l → size ≤ array_bytes l
  size-le-array ptr size h = grind (arith, size-le-blocks size, blocks_fill_array l is)

module _ (l : Layout) {K : Type 0} {floor : ℕ} {s : SlotArray K} {slot : Slot K} {e : Entry K}
    (st : Stores l floor s slot e) where
  -- What a slot stands for depends on the payload area alone.
  pub Stores-slots :
      (slot_end : ℕ) (slots : ℕ → Slot K)
      → Stores l floor (record s { slot_end = slot_end; slots = slots }) slot e
  Stores-slots slot_end slots = record {
    key_eq = st.key_eq;
    ghost_eq = st.ghost_eq;
    after_begin = st.after_begin;
    before_floor = st.before_floor;
    bytes_eq = st.bytes_eq;
  }

module _ (l : Layout) (is : IsLayout l) {K : Type 0} where
  -- The two views of the payload area, as blocks and as bytes.
  pub byte_at-with_memory :
      (bytes : ℕ → ℕ) (s : SlotArray K) (ptr o : ℕ)
      → byte_at l (with_memory l bytes s) ptr o ≡ bytes (ptr * l.alignment + o)
  unfolding with_memory
  byte_at-with_memory bytes s ptr o = ap bytes (omega (arith, div-add-mod' o l.alignment))

  pub memory-byte_at :
      (s : SlotArray K) (ptr o : ℕ) → memory l s (ptr * l.alignment + o) ≡ byte_at l s ptr o
  unfolding memory
  memory-byte_at s ptr o =
      ap₂ s.payloads (mul-add-div_right is.alignment_pos ptr o)
        (mul-add-mod_self_right ptr l.alignment o)
