-- ===== src/Tests/Sample.antt =====
-- A small node type: 32-bit keys with their high halves as normalized keys, 64-bit values, and 24
-- payload blocks of 8 bytes; and two nodes of it.
use native.Mathlib.Nat.{le-div_iff_mul-le, div-mul-le_self}
use foster_btree.Prelude.{
  ℕ, ◌/◌, ◌<◌, ◌≡◌, refl, true, false, none, List, ◌++◌, ltb, arith, ltb→lt, ge→ltb,
}
use foster_btree.Layout.{
  Layout, IsLayout, array_bytes, payload_count, payload_ptr_size, max_payload_count, slot_ptr_word,
}
use foster_btree.Prelude.KeyOrder.{nat_order}
use foster_btree.Bytes.{to_bytes}
use foster_btree.SlotArray.Defs.{SlotArray, clear, get_payload_count, set_slot, with_memory}
use foster_btree.SlotArray.Slots.{slot_inserted}
use foster_btree.Layout.{IsAddressable}
use foster_btree.Encoding.Scalar.{scalar_encoder, IsScalar, scalar-IsEncoder, scalar-Measures}
use foster_btree.Encoding.Text.{Text, text_encoder}
use foster_btree.Encoding.Compound.{RecordEncoder, compound_encoder, encoding-IsRecordEncoder}
use foster_btree.Node.Defs.{NodeType}
use foster_btree.Node.Rep.{IsNodeType, IsNode}
use foster_btree.Node.Empty.{clear-IsNode}
use foster_btree.Node.Insert.{HasRoom}
use foster_btree.Node.Lookup.{Place}
use foster_btree.Node.Written.{written, written-IsNode}

abbrev pub small_layout : Layout
small_layout = record {
  total_size = 200;
  alignment = 8;
  super_size = 0;
  slot_size = 4;
  header_size = 8;
}

pub small_layout-IsLayout : IsLayout small_layout
unfolding array_bytes
small_layout-IsLayout = record {
  alignment_pos = omega arith;
  slot_size_pos = omega arith;
  header_aligned = refl;
  header_fits = omega arith;
  total_small = omega arith;
}

pub small_layout-IsAddressable : IsAddressable small_layout
unfolding payload_count array_bytes slot_ptr_word payload_ptr_size max_payload_count
    foster_btree.Metaprog.get_pointer_size foster_btree.Metaprog.pointer_size_from
small_layout-IsAddressable = (omega arith, omega arith)

abbrev pub high_half : ℕ → ℕ
high_half k = k / 65536

abbrev pub pair_encoder : RecordEncoder ℕ ℕ ℕ
pair_encoder = compound_encoder (scalar_encoder 4) (scalar_encoder 8) high_half none

pub value_pos : (v : ℕ) → 0 < (scalar_encoder 8).length_of v
unfolding scalar_encoder
value_pos v = omega arith

pub text_pos : (v : Text) → 0 < text_encoder.length_of v
unfolding text_encoder
text_pos v = omega arith

pub half_mono : (a b : ℕ) → ltb a b ≡ true → ltb (high_half b) (high_half a) ≡ false
half_mono a b h = ge→ltb (b / 65536) (a / 65536) (
    (le-div_iff_mul-le {k = 65536} (omega arith)).1
      (omega (arith, ltb→lt a b h, div-mul-le_self a 65536)))

abbrev pub pair_node : NodeType ℕ ℕ ℕ
pair_node = record {
  layout = small_layout;
  key_order = nat_order;
  pmnk_order = nat_order;
  encoder = pair_encoder;
  blank = 0;
  construct = none;
  sorted = true;
}

abbrev pub PairFits : ℕ → ℕ → Type 0
PairFits k v = IsScalar 4 k × IsScalar 8 v

abbrev pub pair_image : ℕ → ℕ → List ℕ
pair_image k v = to_bytes 4 k ++ to_bytes 8 v

pub pair_node-IsNodeType : IsNodeType pair_node PairFits pair_image (scalar_encoder 4).length_of
unfolding compound_encoder
pair_node-IsNodeType = record {
  is_layout = small_layout-IsLayout;
  addressable = small_layout-IsAddressable;
  is_encoder =
      encoding-IsRecordEncoder (scalar-IsEncoder 8) (scalar-Measures 8) value_pos
        (scalar-IsEncoder 4) (scalar-Measures 4) high_half;
  pmnk_mono = half_mono;
}

-- The node without keys, one with the key 5, and one with the keys 5 and 70000.
abbrev pub no_keys : SlotArray ℕ
no_keys = clear small_layout (record {
  slot_end = 0;
  payload_begin = 0;
  slots = λ _. record { key = 0; ptr = 0; ghost = false };
  payloads = λ _ _. 0;
})

abbrev pub no_keys-IsNode :
    IsNode pair_node PairFits pair_image (payload_count small_layout) no_keys 0 (λ _. 0) (λ _. 0)
no_keys-IsNode = clear-IsNode pair_node PairFits pair_image (λ _. 0) (λ _. 0) _

pub five_room : HasRoom pair_node-IsNodeType no_keys-IsNode 5 50
unfolding clear payload_count array_bytes get_payload_count compound_encoder scalar_encoder
five_room = (omega arith, omega arith)

pub five_Place : Place pair_node-IsNodeType no_keys-IsNode 5 (false, 0)
five_Place = (omega arith, (λ i h. absurd (omega arith)), λ i h h'. absurd (omega arith))

abbrev pub one_key : SlotArray ℕ
one_key = written pair_node-IsNodeType no_keys-IsNode 5 50 0 five_Place five_room.0 five_room.1

abbrev pub one_key-IsNode :
    IsNode pair_node PairFits pair_image
      (payload_count small_layout)
      one_key
      1
      (slot_inserted 0 5 (λ _. 0))
      (slot_inserted 0 50 (λ _. 0))
one_key-IsNode =
    written-IsNode pair_node-IsNodeType no_keys-IsNode 5 50 0 five_Place five_room.0 five_room.1
      (omega arith, omega arith)

pub big_room : HasRoom pair_node-IsNodeType one_key-IsNode 70000 700
unfolding clear payload_count array_bytes get_payload_count compound_encoder scalar_encoder set_slot
    with_memory
big_room = (omega arith, omega arith)

pub big_Place : Place pair_node-IsNodeType one_key-IsNode 70000 (false, 1)
big_Place = (omega arith, (λ i h. ground arith), λ i h h'. absurd (omega arith))

abbrev pub two_keys : SlotArray ℕ
two_keys = written pair_node-IsNodeType one_key-IsNode 70000 700 1 big_Place big_room.0 big_room.1

abbrev pub key_at : ℕ → ℕ
key_at = slot_inserted 1 70000 (slot_inserted 0 5 (λ _. 0))

abbrev pub value_at : ℕ → ℕ
value_at = slot_inserted 1 700 (slot_inserted 0 50 (λ _. 0))

abbrev pub two_keys-IsNode :
    IsNode pair_node PairFits pair_image (payload_count small_layout) two_keys 2 key_at value_at
two_keys-IsNode =
    written-IsNode pair_node-IsNodeType one_key-IsNode 70000 700 1 big_Place big_room.0 big_room.1
      (omega arith, omega arith)
