-- ===== src/Tree/Adoption.antt =====
-- node_mgr.h: `BtreeNodeManager`; adoption.h: `EagerAdoption`.
use foster_btree.Prelude.{ℕ, zero, suc, ◌+◌, Bool, true, false, not, ◌||◌, ◌==◌, if◌then◌else◌}
use foster_btree.Prelude.Outcome.{ok, out_of_fuel}
use foster_btree.Prelude.Outcome
use foster_btree.SlotArray.Defs.{empty}
use foster_btree.Node.Defs.{insert}
use foster_btree.Latch.Alone.{
  fresh_counter, has_reader, has_writer, acquire_write, release_write, attempt_upgrade, downgrade,
}
use foster_btree.Foster.{no_foster_fields, foster_key_field}
use foster_btree.Tree.{
  TreeNode, Action, ◌>>=◌, ◌>>◌, pure, fail, require, put_node, change, inspect, change_latch,
  change_array,
}
use foster_btree.Tree.Methods.{
  FosterType, latch_pointer, get_key_field, set_key_field, foster_child, contains, initialize,
  unset_foster_child, split, grow,
}
use foster_btree.Foster.{high_key_field}

module _ {K V P : Type 0} (t : FosterType K V P) where
  open t use {base}

  -- The constructors, on the memory that the allocator returns.
  abbrev pub constructed : TreeNode P → TreeNode P
  constructed raw = record {
    node = record {
      array = empty base.layout raw.node.array.slots raw.node.array.payloads;
      fields = no_foster_fields;
    };
    counter = fresh_counter;
  }

  unfoldable pub allocate : Action P ℕ
  allocate σ =
      ok (σ.next, record (put_node σ.next (constructed (σ.nodes σ.next)) σ) { next = σ.next + 1 })

  -- `construct_node`
  unfoldable pub construct_node : Action P ℕ
  construct_node = do node ← allocate; initialize t node 0; pure node

-- `N` of all methods is the pointer type of a branch node. Loops get `rounds` rounds.
module _ {K P : Type 0} (t : FosterType K ℕ P) where
  open t use {base, min_key}

  -- The choice between the old and the new node after a split in `do_adopt`: where the parent is then.
  unfoldable pub choose_parent : (parent new_node : ℕ) (foster_key : K) → Action P ℕ
  choose_parent parent new_node foster_key = do
    inside ← contains t parent foster_key
    if inside then pure parent else (do
      inside' ← contains t new_node foster_key
      require inside'
      change_latch new_node acquire_write
      change_latch parent release_write
      pure new_node)

  -- The loop of `do_adopt`; it ends with the parent.
  unfoldable pub insert_foster :
      (rounds parent foster : ℕ) (foster_key : K) (inserted : Bool) → Action P ℕ
  insert_foster rounds parent foster foster_key true = pure parent
  insert_foster zero parent foster foster_key false = fail out_of_fuel
  insert_foster (suc rounds) parent foster foster_key false = do
    new_node ← construct_node t
    split t parent new_node
    parent' ← choose_parent parent new_node foster_key
    inserted ← change_array parent' (insert base foster_key foster)
    insert_foster rounds parent' foster foster_key inserted

  -- `do_adopt`: the parent afterwards, and the result, which is true.
  unfoldable pub do_adopt : (rounds parent child foster : ℕ) → Action P (ℕ × Bool)
  do_adopt rounds parent child foster = do
    (has_key, foster_key) ← get_key_field t foster_key_field child
    inserted ← change_array parent (insert base foster_key foster)
    parent' ← insert_foster rounds parent foster foster_key inserted
    unset_foster_child t child
    ignored ← set_key_field t high_key_field child foster_key
    pure (parent', true)

  -- `attempt_upgrade()` of a node's latch
  unfoldable pub upgrade : ℕ → Action P Bool
  upgrade p = change p (λ n.
      Outcome.◌>>=◌ (attempt_upgrade n.counter)
        (λ (r : ℕ × Bool). ok (record n { counter = r.0 }, r.1)))

  -- The rest of `try_adopt` once the latches are held.
  unfoldable pub adopt_latched :
      (rounds parent child foster : ℕ) (child_latch_upgraded : Bool) → Action P (ℕ × Bool)
  adopt_latched rounds parent child foster child_latch_upgraded = do
    (parent', success) ← do_adopt rounds parent child foster
    change_latch parent' downgrade
    if child_latch_upgraded then change_latch child downgrade else pure tt
    pure (parent', success)

  -- The upgrade of the child's latch, if that is held for reading.
  unfoldable pub adopt_from :
      (rounds parent child foster : ℕ) (child_has_reader : Bool) → Action P (ℕ × Bool)
  adopt_from rounds parent child foster false = adopt_latched rounds parent child foster false
  adopt_from rounds parent child foster true = do
    upgraded ← upgrade child
    if upgraded
        then adopt_latched rounds parent child foster true
        else (do change_latch parent downgrade; pure (parent, false))

  -- `try_adopt`: the parent afterwards, and the result.
  unfoldable pub try_adopt : (rounds parent child : ℕ) → Action P (ℕ × Bool)
  try_adopt rounds parent child = if child == 0 then pure (parent, false) else (do
    (has_foster, foster) ← foster_child t child
    if not has_foster then pure (parent, false) else (do
      upgraded ← upgrade parent
      if not upgraded then pure (parent, false) else (do
        child_has_reader ← inspect child (λ n. ok (has_reader n.counter))
        adopt_from rounds parent child foster child_has_reader)))

  -- `while (!root->has_writer()) { root->attempt_upgrade(); }`
  unfoldable pub upgrade_root : (rounds root : ℕ) → Action P (Unit {0})
  upgrade_root zero root = fail out_of_fuel
  upgrade_root (suc rounds) root = do
    writer ← inspect root (λ n. ok (has_writer n.counter))
    let again = (do ignored ← upgrade root; upgrade_root rounds root)
    if writer then pure tt else again

  -- `try_grow`: where the records of the root are afterwards; the result is true.
  unfoldable pub try_grow : (rounds root : ℕ) → Action P ℕ
  try_grow rounds root = do
    was_x_latch ← inspect root (λ n. ok (has_writer n.counter))
    latched ← inspect root (λ n. ok (has_reader n.counter || has_writer n.counter))
    require latched
    upgrade_root rounds root
    writer ← inspect root (λ n. ok (has_writer n.counter))
    require writer
    new_child ← construct_node t
    latch_pointer new_child was_x_latch
    grow t root new_child
    change_latch root release_write
    pure new_child
