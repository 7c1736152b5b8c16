-- ===== src/Tests/ArrayExamples.antt =====
-- Runs, and the theorems on slot arrays, layouts and field ranges at inputs that meet their hypotheses.
use foster_btree.Prelude.{ℕ, ◌↔◌, ◌≤◌, ◌+◌, ◌*◌, ◌^◌, ◌<◌, ◌≡◌, refl, true, arith}
use foster_btree.Prelude.Outcome.{ok}
use foster_btree.Prelude.KeyOrder.{nat_order}
use foster_btree.Metaprog.{get_pointer_size}
use foster_btree.Layout.{payload_count, array_bytes, slot_limit, ptr_word, slot_word}
use foster_btree.Layout.Bounds.{
  payload_count-lt-ptr_word, slot_limit-lt-slot_word, get_pointer_size_le_iff,
}
use foster_btree.SlotArray.Defs.{
  clear, free_space, get_payload_count, shift_payloads, free_payload, delete_slot, set_slot,
  with_memory,
}
use foster_btree.SlotArray.Invariant.{gap, free_space-exact}
use foster_btree.SlotArray.Payloads.{shifted_up, shift_payloads-up}
use foster_btree.SlotArray.Slots.{slot_deleted, room_closed}
use foster_btree.SlotArray.Regions.{freed}
use foster_btree.SlotArray.Entries.{Represents}
use foster_btree.SlotArray.Entries.Removal.{remove_entry-Represents}
use foster_btree.Encoding.Scalar.{scalar_encoder}
use foster_btree.Encoding.Compound.{compound_encoder}
use foster_btree.Node.Rep.{entry_of}
use foster_btree.Foster.{
  FosterNode, set_field, no_foster_fields, low_key_field, high_key_field, foster_key_field,
  key_range_contains, get_foster_child,
}
use foster_btree.Foster.Fence.{
  field_value, not_below, not_above, is_below, key_range_contains-bounds,
}
use foster_btree.Prelude.{◌&&◌, if◌then◌else◌}
use foster_btree.Tests.Sample.{
  small_layout, small_layout-IsLayout, small_layout-IsAddressable, pair_node, PairFits, pair_image,
  two_keys, two_keys-IsNode, key_at, value_at,
}

pointer_size_runs : get_pointer_size 1024 ≡ 2
unfolding get_pointer_size
pointer_size_runs = refl

remove_entry_example :
    (free_payload small_layout (two_keys.slots 0).ptr 12 two_keys
      ≡ ok (freed small_layout (two_keys.slots 0).ptr 2 two_keys))
    × (delete_slot small_layout 0 (freed small_layout (two_keys.slots 0).ptr 2 two_keys)
        ≡ ok (room_closed 0 (freed small_layout (two_keys.slots 0).ptr 2 two_keys)))
    × Represents small_layout
        (payload_count small_layout)
        (room_closed 0 (freed small_layout (two_keys.slots 0).ptr 2 two_keys))
        1
        (slot_deleted 0 (λ i. entry_of pair_node PairFits pair_image (key_at i) (value_at i)))
unfolding get_payload_count compound_encoder scalar_encoder
remove_entry_example =
    remove_entry-Represents small_layout small_layout-IsLayout small_layout-IsAddressable
      two_keys-IsNode.represents 0 (omega arith)

free_space_example : free_space small_layout two_keys ≡ gap small_layout two_keys
free_space_example =
    free_space-exact small_layout small_layout-IsLayout two_keys-IsNode.represents.well_formed

shift_example :
    shift_payloads small_layout (two_keys.payload_begin + 2) two_keys.payload_begin 2 two_keys
    ≡ ok (shifted_up small_layout 2 2 two_keys, true)
unfolding clear payload_count array_bytes get_payload_count compound_encoder scalar_encoder set_slot
    with_memory
shift_example =
    shift_payloads-up small_layout small_layout-IsLayout small_layout-IsAddressable two_keys
      two_keys-IsNode.represents.well_formed 2 2 (omega arith)

ptr_word_example : payload_count small_layout < ptr_word small_layout
ptr_word_example = payload_count-lt-ptr_word small_layout small_layout-IsLayout

slot_word_example : slot_limit small_layout < slot_word small_layout
slot_word_example = slot_limit-lt-slot_word small_layout small_layout-IsLayout

pointer_size_example : (get_pointer_size 1024 ≤ 2) ↔ (1024 < 2 ^ (8 * 2))
pointer_size_example = get_pointer_size_le_iff 1024 2 (omega arith)

-- A node with a low fence key, read from the last payload block, and without the other fields.
abbrev fenced : FosterNode ℕ
fenced = record { array = two_keys; fields = set_field low_key_field 23 no_foster_fields }

key_range_example :
    key_range_contains small_layout nat_order
      (scalar_encoder 4)
      (scalar_encoder 8)
      3
      4
      5
      6
      70000
      fenced
    ≡ (not_below nat_order
          (field_value small_layout (scalar_encoder 4) low_key_field 3 fenced)
          70000
        && (not_above nat_order
              (field_value small_layout (scalar_encoder 4) high_key_field 4 fenced)
              70000
            && (if (get_foster_child small_layout nat_order
                  (scalar_encoder 4)
                  (scalar_encoder 8)
                  6
                  fenced).0
                then is_below nat_order
                    (field_value small_layout (scalar_encoder 4) foster_key_field 5 fenced)
                    70000
                else true)))
key_range_example =
    key_range_contains-bounds small_layout nat_order (scalar_encoder 4) (scalar_encoder 8) 3 4 70000
      fenced 5 6
