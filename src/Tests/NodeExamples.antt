-- ===== src/Tests/NodeExamples.antt =====
-- Runs, and the theorems on nodes and on moves between them at inputs that meet their hypotheses.
use foster_btree.Prelude.{ℕ, ◌*◌, ◌<◌, ◌≡◌, ◌↔◌, refl, true, arith}
use foster_btree.Prelude.Words.{cast}
use foster_btree.Prelude.Outcome.{ok, throw, undefined_behavior, Returns}
use foster_btree.Prelude.KeyOrder.{nat_order}
use foster_btree.Metaprog.{get_pointer_size}
use foster_btree.Layout.{payload_count, array_bytes, slot_word}
use foster_btree.Search.{binary_search}
use foster_btree.Search.Correct.{Locates, binary_search-Locates}
use foster_btree.Encoding.Scalar.{scalar_encoder}
use foster_btree.Encoding.Compound.{compound_encoder}
use foster_btree.Node.Defs.{find_slot, find_value, find, insert, remove}
use foster_btree.Node.Rep.{IsStored, entry_of}
use foster_btree.Node.Lookup.{
  Located, Fetched, find_slot-Located, find_value-Fetched, find_value-undefined, IsMember,
  find-IsMember,
}
use foster_btree.Node.Insert.{IsInserted, insert-IsInserted}
use foster_btree.Node.Remove.{IsRemoved, remove-IsRemoved}
use foster_btree.Node.Defs.{iterate}
use foster_btree.Node.Whole.{is_sorted}
use foster_btree.Node.Sorted.{is_sorted-Ascends, AscendsFrom, iterate-pairs, next_calls, pairs_from}
use foster_btree.Mover.{move_records}
use foster_btree.Mover.Drop.{IsMeasured}
use foster_btree.Mover.Move.{IsMoved, move_records-IsMoved}
use foster_btree.Layout.{slot_ptr_size, max_slot_count}
use foster_btree.Metaprog.{pointer_size_from, unsigned_integer_size}
use foster_btree.Prelude.{none}
use foster_btree.Tests.Sample.{
  pair_encoder, small_layout, small_layout-IsLayout, small_layout-IsAddressable, pair_node,
  PairFits, pair_image, pair_node-IsNodeType, no_keys, no_keys-IsNode, two_keys, two_keys-IsNode,
  key_at, value_at,
}

search_runs : binary_search nat_order 256 (λ i. i * 2) 10 6 0 0 10 ≡ ok (true, 3)
unfolding binary_search cast
search_runs = refl

insert_example :
    IsInserted pair_node-IsNodeType two_keys-IsNode 7 77 (insert pair_node 7 77 two_keys)
insert_example =
    insert-IsInserted pair_node-IsNodeType two_keys-IsNode 7 77 (omega arith, omega arith) refl

remove_example :
    IsRemoved pair_node-IsNodeType two_keys-IsNode 5 true (remove pair_node 5 true two_keys)
remove_example = remove-IsRemoved pair_node-IsNodeType two_keys-IsNode 5 true refl

find_slot_example :
    Returns
      (find_slot pair_node true 70000 0 two_keys)
      (Located pair_node-IsNodeType two_keys-IsNode 70000 true)
find_slot_example = find_slot-Located pair_node-IsNodeType two_keys-IsNode 70000 true 0 refl

find_example :
    Returns
      (find pair_node 6 two_keys)
      (λ b. (b ≡ true) ↔ IsMember pair_node-IsNodeType two_keys-IsNode 6)
find_example = find-IsMember pair_node-IsNodeType two_keys-IsNode 6 refl

find_value_example :
    Returns (find_value pair_node 6 0 two_keys) (Fetched pair_node-IsNodeType two_keys-IsNode 6)
find_value_example =
    find_value-Fetched pair_node-IsNodeType two_keys-IsNode 6 0 (omega arith) refl refl

undefined_example : find_value pair_node 6 0 no_keys ≡ throw undefined_behavior
undefined_example =
    find_value-undefined pair_node-IsNodeType no_keys-IsNode 6 0 refl (λ i h. absurd (omega arith))

binary_search_example :
    Returns
      (binary_search nat_order 256 (λ i. i * 2) 10 7 0 0 10)
      (Locates nat_order (λ i. i * 2) 10 7)
binary_search_example =
    binary_search-Locates nat_order 256 (λ i. i * 2) 10 (λ i j le h. ground arith) (omega arith) 7 0

-- Both nodes of the sample hold entries that the encoder measures.
two_keys-measured :
    (k : ℕ)
    → k < 2
    → IsMeasured pair_encoder.length_at
        (entry_of pair_node PairFits pair_image (key_at k) (value_at k))
unfolding compound_encoder scalar_encoder
two_keys-measured k h m a holds = refl

no_keys-measured :
    (k : ℕ) → k < 0 → IsMeasured pair_encoder.length_at (entry_of pair_node PairFits pair_image 0 0)
no_keys-measured k h m a holds = absurd (omega arith)

two_keys-narrow : 2 < slot_word small_layout
unfolding slot_word slot_ptr_size max_slot_count array_bytes get_pointer_size pointer_size_from
    unsigned_integer_size
two_keys-narrow = omega arith

move_example :
    Returns
      (move_records pair_encoder.length_at small_layout small_layout none two_keys no_keys 0 1 1
        true)
      (IsMoved pair_encoder.length_at small_layout small_layout small_layout-IsLayout
        small_layout-IsLayout small_layout-IsAddressable small_layout-IsAddressable none
        (payload_count small_layout)
        two_keys-IsNode.represents
        two_keys-measured
        two_keys-narrow
        (λ _. entry_of pair_node PairFits pair_image 0 0)
        1
        0
        (omega arith)
        no_keys-measured
        1
        (omega arith)
        (omega arith)
        true)
move_example =
    move_records-IsMoved pair_encoder.length_at small_layout small_layout small_layout-IsLayout
      small_layout-IsLayout small_layout-IsAddressable small_layout-IsAddressable none
      (payload_count small_layout) two_keys-IsNode.represents two_keys-measured two_keys-narrow
      (λ _. entry_of pair_node PairFits pair_image 0 0) 1 0 (omega arith) no_keys-measured 1
      (omega arith) (omega arith) no_keys true no_keys-IsNode.represents

stored_keys :
    IsStored pair_node PairFits pair_image (payload_count small_layout) two_keys 2 key_at value_at
stored_keys = record { represents = two_keys-IsNode.represents; fits = two_keys-IsNode.fits }

sorted_example :
    Returns
      (is_sorted pair_node two_keys)
      (λ b. (b ≡ true) ↔ AscendsFrom pair_node-IsNodeType stored_keys 0)
sorted_example = is_sorted-Ascends pair_node-IsNodeType stored_keys

iterate_example :
    next_calls pair_node 4 (iterate pair_node) 1 1 two_keys ≡ ok (pairs_from 4 0 2 key_at value_at)
iterate_example = iterate-pairs pair_node-IsNodeType two_keys-IsNode 4 1 1
