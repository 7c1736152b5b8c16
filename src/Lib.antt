-- ===== src/Lib.antt =====
-- The Foster B-tree: nodes, slot arrays, search and encoders.
--
-- A slot array (src/slot_array.h) is a fixed piece of memory with a vector of slots that grows up
-- from its start and payload blocks that grow down from its end. A node (src/node.h) keeps pairs of
-- key and value in it: the slot holds the key's poor man's normalized key, the payload what the
-- encoder (src/encoding.h) makes of the pair. To find a key, the node has `BinarySearch`
-- (src/search.h) find the first slot with the normalized key, and decodes the keys from there on.
-- The integer types of all positions are chosen by src/metaprog.h. A foster node (src/node_foster.h)
-- is a node with fence keys and a pointer to a foster child, which takes over its upper half when it
-- is split. The tree (src/btree.h) descends over foster nodes under their latches
-- (src/latch_mutex.h); on the way, foster children are adopted by their parent's parent, or the tree
-- grows at its root (src/adoption.h).
--
-- Prelude: library names and numbers; Prelude.Words is arithmetic of unsigned types, modulo the
--   number of their values. Prelude.Outcome is how calls end: a return, a failed assertion
--   (src/assertions.h, compiled in at debug level 1), an exception (src/exceptions.h), a use of an
--   uninitialised pointer, or, in the model alone, too little fuel. Prelude.KeyOrder is the order of
--   a key type, which the client of the templates supplies.
-- Metaprog: `get_pointer_size`, `UnsignedInteger`, `SizeOfTypePack`, `AlignedSizeOf`,
--   `TypePadding`.
-- Search: `BinarySearch::operator()`; Search.Correct is its theorem.
-- Layout: the template parameters and compile-time constants of `SlotArray`. `sizeof(Slot)`,
--   `sizeof(HeaderData)` and `sizeof` of the super types are parameters, since the compiler decides
--   them. Layout.Bounds shows that every position has a representation.
-- SlotArray.Defs: the methods of `SlotArray`, from a state to a state. The state is the header and
--   two arrays: though the source has slots and payloads share memory in a union, each used slot and
--   each used block has memory of its own, which is the invariant of SlotArray.Invariant.
--   SlotArray.Moves, Slots, Payloads and Regions say what single methods do to the arrays.
--   SlotArray.Entries forgets the layout: an array represents a sequence of entries.
-- Bytes: memory, `memcpy` and the little-endian bytes of integers.
-- Encoding: an encoder as a record of its static methods, the laws a user relies on, and each
--   encoder: Scalar (`InlineEncoder<T>`, `DummyEncoder`), Text (`InlineEncoder<string>`), Fields
--   (`TupleEncodingHelper`, `VariadicEncodingHelper`), Compound (`CompoundEncoder`). Encoding.Prefix
--   is `swap_endianness`, `NoPrefixing` and `PoormanPrefixing`.
-- Node.Defs: the methods of `Node`, without a logger. Node.Rep: what a sorted node holds, as keys in
--   increasing order and their values. Node.Find, Lookup, Written, Insert, Remove, Empty, Sorted: the
--   theorems on the methods. Node.Whole: `truncate_keys` and `is_sorted`.
-- Mover: src/move_records.h, `RecordMover::move_records`, `copy_records_prealloc` and
--   `preallocate_slots`; Mover.Drop, Copy and Move follow the loops of `move_records`.
-- Latch: src/latch_mutex.h, `MutexLatch` as a relation of steps that threads take in any order, each
--   one access of the counter or the mutex; Latch.Marks says what a thread holds, and
--   Latch.Invariant that this agrees with the counter in every state that is reached.
--   Latch.Alone has the methods as one thread runs them by itself, Latch.Alone.Runs compares the two.
-- Foster: src/node_foster.h, the foster payload fields of `FosterNodePayloads`, how `FosterNode` reads,
--   sets and unsets them, and the range tests `fence_contains` and `key_range_contains`;
--   Foster.Fence is about these tests. Foster.Carries forgets where the payloads of fields lie;
--   Foster.Reserved, Moved, Shifted, Refitted and Set follow `set_foster_field`, and Foster.Same
--   compares nodes whose fields hold the same.
-- Tree: nodes in memory. A `Store` maps numbers, which stand for the pointers of src/pointers.h, to
--   nodes, each an array, its fields and the counter of its latch; an `Action` is a call that changes
--   the store. Tree.Methods is the rest of `FosterNode` but for the traversal, Tree.Traversal
--   `traverse` and `descend_to_child`, Tree.Adoption src/node_mgr.h and `EagerAdoption` of
--   src/adoption.h, Tree.Btree `GenericBtree` of src/btree.h. Tree.Held is about stores that differ in
--   latches; Tree.Traversal.Route says where a key belongs in terms of what the branches hold, and
--   Tree.Traversal.Route.Reaches that the traversal goes there. Tree.Btree.Get, Put and Remove are
--   about the methods of the tree, Tree.Btree.Changed about the leaf that they change,
--   Tree.Btree.Others about keys other than the one that is put. Tree.Fresh is about what
--   `construct_node` makes, and Tree.Btree.First about the first `put` into a new tree.
--
-- A method of the source that changes its object is a function to the new state, with its result
-- beside it; an out-parameter is part of the result. Pointers into payload memory are distances from
-- the start of the payload area. A theorem about a node holds of every layout that passes the static
-- assertions, whose slots can store a pointer to every block and whose blocks an `int` can count
-- (`IsAddressable`), of every encoder with the laws, and of every order of normalized keys that
-- follows the order of keys.
--
-- The loop of `BinarySearch` gets one round more than its range is wide, plus one; the loop of
-- `find_slot` gets one round for each slot from the found one on, plus one. The theorems on both show
-- that they return, so that is enough. The loops and the recursion of the traversal, of adoption and of
-- `put` share one number of rounds; the theorems on trees show that two more than there are levels are
-- enough where no node has a foster child. The other loops are bounded by a count.
--
-- On a store one thread runs: a wait for a latch that it could not end itself is the error `blocked`,
-- and `compare_exchange_weak` and `try_lock` do not fail without a reason. What an uninitialised key
-- variable holds is the parameter `blank`. The number of blocks of a value is taken to fit an `int`
-- where `set_foster_field` subtracts two of them.
--
-- Not modelled: `sort_slots` and the stream output of src/slot_array.h; `print` and logging of
-- src/node.h; `print_node` of src/node_foster.h and its variants without latches; the tree with more
-- than one thread at a time; the texts of exceptions and of src/lrtype.h. The memory orders of
-- src/latch_mutex.h are not modelled: all accesses are taken to be sequentially consistent.
pub mod Prelude
pub mod Metaprog
pub mod Search
pub mod Layout
pub mod SlotArray
pub mod Bytes
pub mod Encoding
pub mod Node
pub mod Mover
pub mod Latch
pub mod Foster
pub mod Tree
mod Tests
