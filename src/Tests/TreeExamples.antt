-- ===== src/Tests/TreeExamples.antt =====
-- The theorems on trees, fields and the sequential latch at inputs that meet their hypotheses, and runs
-- of a tree.
use foster_btree.Prelude.{
  ℕ, ◌+◌, ◌≡◌, refl, Bool, true, List, arith, inl, inr, ◌<◌, ◌≤◌, ◌≢◌, [], ◌∷◌, ◌*◌,
}
use foster_btree.Prelude.Outcome.{ok}
use foster_btree.Layout.{payload_count, array_bytes}
use foster_btree.Encoding.Scalar.{scalar_encoder, scalar-IsEncoder}
use foster_btree.Node.Lookup.{Fetched}
use foster_btree.Latch.Alone.{
  acquire_read, release_read, acquire_write, release_write, attempt_upgrade, downgrade,
}
use foster_btree.Latch.Alone.Runs.{Goes, upgraded, alone-Run}
use foster_btree.Latch.{idle, reading, writing}
use foster_btree.Foster.{set_foster_field, high_key_field, foster_ptr_field, field_word}
use foster_btree.Foster.Set.{IsWritten, set_foster_field-new}
use foster_btree.Foster.Set.Resized.{set_foster_field-old}
use foster_btree.SlotArray.Defs.{get_payload_count}
use foster_btree.Encoding.Text.{text_encoder, text-IsEncoder}
use foster_btree.Tree.{Store}
use foster_btree.Tree.Held.{held}
use foster_btree.Tree.Traversal.{traverse}
use foster_btree.Tree.Traversal.Route.Reaches.{traverse-Route}
use foster_btree.Tree.Btree.{construct_tree, put, get, remove_key}
use foster_btree.Tree.Btree.First.{construct_tree-put}
use foster_btree.Tree.Btree.Remove.{IsTaken, remove_key-IsTaken}
use foster_btree.Tree.Btree.Get.{get-Route}
use foster_btree.Tree.Btree.Put.{put-get}
use foster_btree.Encoding.Compound.{compound_encoder}
use foster_btree.Tests.Sample.{
  pair_node, small_layout, small_layout-IsLayout, small_layout-IsAddressable, pair_node-IsNodeType,
  two_keys, two_keys-IsNode, text_pos,
}
use foster_btree.Tests.SampleTree.{
  pair_type, pair_tree, at_level, two_levels, IsPlain-node, leaf_leads, any_key, no_fields,
  seven_room, seven_absent, text_node, low_array-Represents, text_node-Carries,
}

short_layout : payload_count small_layout < field_word
unfolding payload_count array_bytes
short_layout = omega arith

four_bytes : 0 < (scalar_encoder 4).length_of 9
unfolding scalar_encoder
four_bytes = omega arith

is_key : high_key_field ≢ foster_ptr_field
is_key e = absurd (omega (arith, e))

-- The empty string makes way for one that takes a block more.
abbrev long_text : List ℕ
long_text = 1 ∷ 2 ∷ 3 ∷ 4 ∷ 5 ∷ 6 ∷ 7 ∷ 8 ∷ []

fits_below :
    get_payload_count small_layout (text_encoder.length_of long_text)
    ≤ 23 + get_payload_count small_layout (text_encoder.length_of [])
unfolding get_payload_count text_encoder
fits_below = omega arith

traverse_example : traverse pair_type true true 7 3 1 0 two_levels ≡ ok (2, held 2 1 two_levels)
traverse_example =
    traverse-Route pair_node-IsNodeType refl true true 7 3 0 (any_key 7) (omega arith)

get_example :
    (r : Bool × ℕ) × (get pair_tree 3 1 70000 0 two_levels ≡ ok (r, two_levels))
    × Fetched pair_node-IsNodeType two_keys-IsNode 70000 r
get_example =
    get-Route pair_tree pair_node-IsNodeType pair_node-IsNodeType refl refl (any_key 70000)
      leaf_leads refl two_keys-IsNode 3 0 (omega arith) (omega arith) refl

put-get_example :
    (σ' : Store ℕ) × (put pair_tree 3 1 7 77 true two_levels ≡ ok (tt, σ'))
    × (get pair_tree 3 1 7 0 σ' ≡ ok ((true, 77), σ'))
put-get_example =
    put-get pair_tree pair_node-IsNodeType pair_node-IsNodeType (scalar-IsEncoder 4)
      (scalar-IsEncoder 8) refl refl refl (any_key 7) leaf_leads (IsPlain-node 7 0 two_keys)
      two_keys-IsNode (no_fields 0 two_keys (payload_count small_layout)) (inl refl) (inl refl)
      (inl refl) 77 (omega arith, omega arith) seven_absent seven_room 3 true 0 (omega arith)

-- No nodes yet.
abbrev no_nodes : Store ℕ
no_nodes = record { nodes = two_levels.nodes; next = 1 }

first_room :
    (get_payload_count small_layout (pair_node.encoder.length_of 7 77)
          + get_payload_count small_layout ((scalar_encoder 8).length_of 0))
        * 8
      + 4
    ≤ payload_count small_layout * 8
unfolding payload_count array_bytes get_payload_count compound_encoder scalar_encoder
first_room = omega arith

eight_bytes : 0 < (scalar_encoder 8).length_of 0
unfolding scalar_encoder
eight_bytes = omega arith

construct_tree-put_example :
    (root : ℕ) × (σ' : Store ℕ) × (construct_tree pair_tree no_nodes ≡ ok (root, σ'))
    × (σ'' : Store ℕ) × (put pair_tree 2 root 7 77 true σ' ≡ ok (tt, σ''))
    × (get pair_tree 2 root 7 0 σ'' ≡ ok ((true, 77), σ''))
construct_tree-put_example =
    construct_tree-put pair_tree pair_node-IsNodeType pair_node-IsNodeType (scalar-IsEncoder 4)
      (scalar-IsEncoder 8) (omega arith) eight_bytes refl short_layout refl refl no_nodes 7 77
      (omega arith, omega arith) first_room (omega arith) 2 true 0 (omega arith)

alone_example :
    (acquire_read 2 ≡ ok 4 → Goes 2 idle 4 reading)
    × (release_read 2 ≡ ok 4 → Goes 2 reading 4 idle)
    × (acquire_write 2 ≡ ok 4 → Goes 2 idle 4 writing)
    × (release_write 2 ≡ ok 4 → Goes 2 writing 4 idle)
    × (downgrade 2 ≡ ok 4 → Goes 2 writing 4 reading)
    × ((success : Bool) → attempt_upgrade 2 ≡ ok (4, success) → Goes 2 reading 4 (upgraded success))
alone_example = alone-Run 2 4

set_new_example :
    IsWritten small_layout small_layout-IsLayout small_layout-IsAddressable short_layout
      (scalar-IsEncoder 4)
      two_keys-IsNode.represents
      (no_fields 0 two_keys (payload_count small_layout))
      high_key_field
      (omega arith)
      9
      four_bytes
      0
      (set_foster_field small_layout (scalar_encoder 4) high_key_field 9 0 (at_level 0 two_keys))
set_new_example =
    set_foster_field-new small_layout small_layout-IsLayout small_layout-IsAddressable short_layout
      (scalar-IsEncoder 4) two_keys-IsNode.represents
      (no_fields 0 two_keys (payload_count small_layout)) high_key_field (omega arith) 9 four_bytes
      refl 0

set_old_example :
    IsWritten small_layout small_layout-IsLayout small_layout-IsAddressable short_layout
      text-IsEncoder low_array-Represents text_node-Carries high_key_field
      (omega arith)
      long_text
      (text_pos long_text)
      (get_payload_count small_layout (text_encoder.length_of []))
      (set_foster_field small_layout text_encoder high_key_field long_text [] text_node)
set_old_example =
    set_foster_field-old small_layout small_layout-IsLayout small_layout-IsAddressable short_layout
      text-IsEncoder low_array-Represents text_node-Carries high_key_field (omega arith) long_text
      (text_pos long_text) [] (omega arith) refl fits_below [] (inr is_key)

remove_key_example :
    IsTaken pair_tree pair_node-IsNodeType pair_node-IsNodeType refl refl
      (any_key 5)
      leaf_leads
      refl
      two_keys-IsNode
      (remove_key pair_tree 3 1 5 two_levels)
remove_key_example =
    remove_key-IsTaken pair_tree pair_node-IsNodeType pair_node-IsNodeType refl refl (any_key 5)
      leaf_leads refl two_keys-IsNode 3 (omega arith)
