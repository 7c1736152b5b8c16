-- ===== src/Tests/TwoLeaves.antt =====
-- A tree with two leaves over the small node type: its root sends the keys from 100 on to the second.
use foster_btree.Prelude.{ℕ, ◌≡◌, refl, Bool, true, false, arith, inl, ◌==◌, if◌then◌else◌}
use foster_btree.Prelude.Outcome.{ok}
use foster_btree.Layout.{payload_count, array_bytes}
use foster_btree.SlotArray.Defs.{SlotArray, clear, get_payload_count, set_slot, with_memory}
use foster_btree.SlotArray.Slots.{slot_inserted}
use foster_btree.Encoding.Scalar.{scalar_encoder, scalar-IsEncoder}
use foster_btree.Encoding.Compound.{compound_encoder}
use foster_btree.Node.Rep.{IsNode}
use foster_btree.Node.Insert.{HasRoom}
use foster_btree.Node.Lookup.{Place, Fetched}
use foster_btree.Node.Written.{written, written-IsNode}
use foster_btree.Tree.{Store}
use foster_btree.Tree.Held.{Leads}
use foster_btree.Tree.Traversal.Route.{Serves, Route, at_leaf, through}
use foster_btree.Tree.Btree.{put, get}
use foster_btree.Tree.Btree.Others.{Agrees, put-get_other, put-get_elsewhere}
use foster_btree.Tests.Sample.{
  small_layout, pair_node, PairFits, pair_image, pair_node-IsNodeType, two_keys, two_keys-IsNode,
}
use foster_btree.Tests.SampleTree.{
  pair_type, pair_tree, root_array-IsNode, at_level, IsPlain-node, two_levels, leaf_leads, any_key,
  no_fields, seven_room, seven_absent,
}

put-get_other_example :
    (σ' : Store ℕ) × (put pair_tree 3 1 7 77 true two_levels ≡ ok (tt, σ'))
    × (r : Bool × ℕ) × (get pair_tree 3 1 70000 0 two_levels ≡ ok (r, two_levels))
    × (r' : Bool × ℕ) × (get pair_tree 3 1 70000 0 σ' ≡ ok (r', σ'))
    × Agrees r r'
put-get_other_example =
    put-get_other pair_tree pair_node-IsNodeType pair_node-IsNodeType (scalar-IsEncoder 4)
      (scalar-IsEncoder 8) refl refl refl (any_key 7) leaf_leads (IsPlain-node 7 0 two_keys)
      two_keys-IsNode (no_fields 0 two_keys (payload_count small_layout)) (inl refl) (inl refl)
      (inl refl) 77 (omega arith, omega arith) seven_absent seven_room 70000
      (λ e. absurd (omega (arith, e))) (any_key 70000) (IsPlain-node 70000 0 two_keys) (omega arith)
      refl 3 true 0 0 (omega arith)

second_room : HasRoom pair_node-IsNodeType root_array-IsNode 100 3
unfolding clear payload_count array_bytes get_payload_count compound_encoder scalar_encoder set_slot
    with_memory
second_room = (omega arith, omega arith)

second_Place : Place pair_node-IsNodeType root_array-IsNode 100 (false, 1)
second_Place = (omega arith, (λ i h. ground arith), λ i h h'. absurd (omega arith))

abbrev wide_root : SlotArray ℕ
wide_root =
    written pair_node-IsNodeType root_array-IsNode 100 3 1 second_Place second_room.0 second_room.1

wide_root-IsNode :
    IsNode pair_node PairFits pair_image
      (payload_count small_layout)
      wide_root
      2
      (slot_inserted 1 100 (slot_inserted 0 0 (λ _. 0)))
      (slot_inserted 1 3 (slot_inserted 0 2 (λ _. 0)))
wide_root-IsNode =
    written-IsNode pair_node-IsNodeType root_array-IsNode 100 3 1 second_Place second_room.0
      second_room.1 (omega arith, omega arith)

abbrev two_leaves : Store ℕ
two_leaves = record {
  nodes = λ i. record {
    node = if i == 1 then at_level 1 wide_root else at_level 0 two_keys;
    counter = 0;
  };
  next = 4;
}

top_leads : Leads two_leaves 1 (at_level 1 wide_root) 0
top_leads = record { allocated = refl; node_eq = refl }

first_leads : Leads two_leaves 2 (at_level 0 two_keys) 0
first_leads = record { allocated = refl; node_eq = refl }

second_leads : Leads two_leaves 3 (at_level 0 two_keys) 0
second_leads = record { allocated = refl; node_eq = refl }

seven_first : Route pair_type PairFits pair_image 7 two_leaves 1 1 2
seven_first =
    through top_leads (IsPlain-node 7 1 wide_root) serves
      (at_leaf first_leads (IsPlain-node 7 0 two_keys))
  where
    serves : Serves pair_type PairFits pair_image 7 (at_level 1 wide_root) 2
    serves = record {
      floor = payload_count small_layout;
      count = 2;
      keys = slot_inserted 1 100 (slot_inserted 0 0 (λ _. 0));
      children = slot_inserted 1 3 (slot_inserted 0 2 (λ _. 0));
      holds = wide_root-IsNode;
      at = 0;
      used = omega arith;
      not_below = ground arith;
      above = λ i h h'. ground arith;
      child_eq = refl;
    }

big_second : Route pair_type PairFits pair_image 70000 two_leaves 1 1 3
big_second =
    through top_leads (IsPlain-node 70000 1 wide_root) serves
      (at_leaf second_leads (IsPlain-node 70000 0 two_keys))
  where
    serves : Serves pair_type PairFits pair_image 70000 (at_level 1 wide_root) 3
    serves = record {
      floor = payload_count small_layout;
      count = 2;
      keys = slot_inserted 1 100 (slot_inserted 0 0 (λ _. 0));
      children = slot_inserted 1 3 (slot_inserted 0 2 (λ _. 0));
      holds = wide_root-IsNode;
      at = 1;
      used = omega arith;
      not_below = ground arith;
      above = λ i h h'. absurd (omega arith);
      child_eq = refl;
    }

put-get_elsewhere_example :
    (σ' : Store ℕ) × (put pair_tree 3 1 7 77 true two_leaves ≡ ok (tt, σ'))
    × (r : Bool × ℕ) × Fetched pair_node-IsNodeType two_keys-IsNode 70000 r
    × (get pair_tree 3 1 70000 0 two_leaves ≡ ok (r, two_leaves))
    × (get pair_tree 3 1 70000 0 σ' ≡ ok (r, σ'))
put-get_elsewhere_example =
    put-get_elsewhere pair_tree pair_node-IsNodeType pair_node-IsNodeType (scalar-IsEncoder 4)
      (scalar-IsEncoder 8) refl refl refl seven_first first_leads (IsPlain-node 7 0 two_keys)
      two_keys-IsNode (no_fields 0 two_keys (payload_count small_layout)) (inl refl) (inl refl)
      (inl refl) 77 (omega arith, omega arith) seven_absent seven_room 70000
      (λ e. absurd (omega (arith, e))) big_second second_leads refl two_keys-IsNode (omega arith)
      refl 3 true 0 (omega arith)
