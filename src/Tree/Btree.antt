-- ===== src/Tree/Btree.antt =====
-- btree.h: `GenericBtree`. The numbers `rounds` bound the loops.
pub mod Changed
pub mod Get
pub mod Put
pub mod Remove
pub mod First
pub mod Others
use foster_btree.Prelude.{ℕ, zero, suc, ◌+◌, Bool, true, false, not, ◌&&◌, ltb, ◌==◌, if◌then◌else◌}
use foster_btree.Prelude.Outcome.{ok, out_of_fuel}
use foster_btree.Node.Defs.{find, find_value, insert, remove}
use foster_btree.Tree.{Action, ◌>>=◌, ◌>>◌, pure, fail, require, inspect_array, change_array}
use foster_btree.Tree.Methods.{
  FosterType, latch_pointer, unlatch_pointer, is_latched, contains, split,
}
use foster_btree.Tree.Adoption.{construct_node}
use foster_btree.Tree.Traversal.{traverse}

-- `BranchNode` and `LeafNode`
pub record TreeType (K V P : Type 0) : Type 0 where
  pub branch : FosterType K ℕ P
  pub leaf : FosterType K V P

module _ {K V P : Type 0} (t : TreeType K V P) where
  open t use {branch, leaf}

  -- The constructor: the root.
  unfoldable pub construct_tree : Action P ℕ
  construct_tree = construct_node branch

  -- The choice between the old and the new node after a split in `put`.
  unfoldable pub choose_leaf : (old new_node : ℕ) (key : K) → Action P ℕ
  choose_leaf old new_node key = do
    inside ← contains leaf old key
    if inside then pure old else (do
      inside' ← contains leaf new_node key
      require inside'
      latched ← is_latched old true
      require latched
      latch_pointer new_node true
      unlatch_pointer old true
      pure new_node)

  -- `while (!inserted)`; it ends with the leaf.
  unfoldable pub insert_split : (rounds p : ℕ) (key : K) (value : V) (inserted : Bool) → Action P ℕ
  insert_split rounds p key value true = pure p
  insert_split zero p key value false = fail out_of_fuel
  insert_split (suc rounds) p key value false = do
    latched ← is_latched p true
    require latched
    new_node ← construct_node leaf
    split leaf p new_node
    p' ← choose_leaf p new_node key
    latched' ← is_latched p' true
    require latched'
    inserted ← change_array p' (insert leaf.base key value)
    insert_split rounds p' key value inserted

  -- A key that exists already is removed first.
  unfoldable pub remove_old : (p : ℕ) (key : K) → Action P (Unit {0})
  remove_old p key = do
    found ← inspect_array p (find leaf.base key)
    if found then (do removed ← change_array p (remove leaf.base key true); pure tt) else pure tt

  unfoldable pub put : (rounds root : ℕ) (key : K) (value : V) (upsert : Bool) → Action P (Unit {0})
  put rounds root key value upsert = do
    p ← traverse branch true true key rounds root 0
    latched ← is_latched p true
    require latched
    if upsert then remove_old p key else pure tt
    inserted ← change_array p (insert leaf.base key value)
    latched' ← is_latched p true
    require latched'
    p' ← insert_split rounds p key value inserted
    unlatch_pointer p' true

  -- `get`: the result, and the new content of `value`.
  unfoldable pub get : (rounds root : ℕ) (key : K) (value : V) → Action P (Bool × V)
  get rounds root key value = do
    p ← traverse branch false true key rounds root 0
    res ← inspect_array p (find_value leaf.base key value)
    unlatch_pointer p false
    pure res

  -- `remove`
  unfoldable pub remove_key : (rounds root : ℕ) (key : K) → Action P Bool
  remove_key rounds root key = do
    p ← traverse branch true true key rounds root 0
    res ← change_array p (remove leaf.base key true)
    unlatch_pointer p true
    pure res
