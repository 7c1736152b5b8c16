-- ===== src/Tree/Traversal.antt =====
-- node_foster.h: `traverse` and `descend_to_child`. Loops and recursion get `rounds` rounds.
pub mod Route
use foster_btree.Prelude.{
  ℕ, zero, suc, ◌+◌, Bool, true, false, not, ◌&&◌, ◌||◌, ltb, ◌==◌, if◌then◌else◌,
}
use foster_btree.Prelude.Outcome.{ok, out_of_fuel, undefined_behavior}
use foster_btree.Node.Defs.{find_value}
use foster_btree.Tree.{Action, ◌>>=◌, ◌>>◌, pure, fail, require, inspect_array, get_level}
use foster_btree.Tree.Methods.{
  FosterType, latch_pointer, unlatch_pointer, is_latched, has_foster_child, foster_child, contains,
  within_fences,
}
use foster_btree.Tree.Adoption.{try_adopt, try_grow}

-- `adopts` says whether the pointer `adoption` is not null.
module _ {K P : Type 0} (t : FosterType K ℕ P) (for_update adopts : Bool) (key : K) where
  open t use {base}

  -- `adoption->try_grow(root)`
  unfoldable pub grow_root : (rounds root : ℕ) → Action P ℕ
  grow_root rounds root = if adopts then try_grow t rounds root else fail undefined_behavior

  -- From a node to its foster child, which `descend_to_child` asserts to exist.
  unfoldable pub move_to_foster : (branch : ℕ) → Action P ℕ
  move_to_foster branch = do
    (has, foster) ← foster_child t branch
    require (not (foster == 0))
    latch_pointer foster for_update
    unlatch_pointer branch for_update
    pure foster

  -- The end of a round: the child is latched, and its foster child adopted if it has one. The result
  -- is the parent, and whether the search for the child starts again.
  unfoldable pub adopt_child : (rounds branch child : ℕ) → Action P (ℕ × Bool)
  adopt_child rounds branch child = do
    latch_pointer child for_update
    (branch', adopted) ← if adopts then try_adopt t rounds branch child else pure (branch, false)
    if adopted then unlatch_pointer child for_update else pure tt
    pure (branch', adopted)

  -- The loop of `descend_to_child`, with what the variable `child` holds before.
  unfoldable pub descend_to_child : (rounds branch child depth : ℕ) → Action P ℕ
  descend_to_child zero branch child depth = fail out_of_fuel
  descend_to_child (suc rounds) branch child depth = do
    latched ← is_latched branch false
    require latched
    count ← inspect_array branch (λ s. ok s.slot_end)
    has_foster ← has_foster_child t branch
    require (ltb 0 count || has_foster)
    (found, child') ← inspect_array branch (find_value base key child)
    require (not (child' == 0))
    inside ← contains t branch key
    let next = (do
      branch' ← if depth == 0 then grow_root rounds branch else pure branch
      foster ← move_to_foster branch'
      descend_to_child rounds foster child' (if depth == 0 then depth + 1 else depth))
    let here = (do
      (branch', adopted) ← adopt_child rounds branch child'
      let again = descend_to_child rounds branch' child' depth
      if adopted
          then again
          else (do latched' ← is_latched child' false; require latched'; pure child'))
    if inside then here else next

  -- What `traverse` does to find the node in the foster chain from `child` on: `none` of the results
  -- is a growth of the root `branch`. The result is the node, and whether the root grew.
  unfoldable pub follow_chain : (rounds branch child depth : ℕ) → Action P (ℕ × Bool)
  follow_chain zero branch child depth = fail out_of_fuel
  follow_chain (suc rounds) branch child depth = do
    inside ← if child == 0 then pure true else contains t child key
    let next = (do foster ← chain_child child; follow_chain rounds branch foster depth)
    if inside then pure (child, false) else (do
      latched ← is_latched child false
      require latched
      if (child == branch) && (depth == 0)
          then (do child' ← grow_root rounds child; pure (child', true))
          else next)
    where
      chain_child : ℕ → Action P ℕ
      chain_child child = do
        (has, foster) ← foster_child t child
        require has
        latch_pointer foster for_update
        unlatch_pointer child for_update
        pure foster

  -- The first half of `traverse`: the root is latched, and the child entered.
  unfoldable pub enter_child : (rounds branch depth : ℕ) → Action P ℕ
  enter_child rounds branch depth = do
    if depth == 0 then latch_pointer branch for_update else pure tt
    level ← get_level branch
    child ← if level == 0 then pure branch else descend_to_child rounds branch 0 depth
    level' ← get_level branch
    if ltb 0 level' then unlatch_pointer branch for_update else pure tt
    pure child

  -- The second half; `again` is the recursive call on a node.
  unfoldable pub reach_target :
      (rounds branch child depth : ℕ) (again : ℕ → Action P ℕ) → Action P ℕ
  reach_target rounds branch child depth again = do
    fenced ← within_fences t child key
    require fenced
    (target, grew) ← follow_chain rounds branch child depth
    if grew then again target else (do
      require (not (target == 0))
      inside ← contains t target key
      require inside
      level ← get_level target
      if level == 0 then pure target else again target)

  unfoldable pub traverse : (rounds branch depth : ℕ) → Action P ℕ
  traverse zero branch depth = fail out_of_fuel
  traverse (suc rounds) branch depth = do
    child ← enter_child rounds branch depth
    reach_target rounds branch child depth (λ target. traverse rounds target (depth + 1))
