-- ===== src/Tree/Btree/Remove.antt =====
-- btree.h: `remove`, along a route of its key.
use foster_btree.Prelude.{ℕ, ◌+◌, ◌-◌, ◌≤◌, ◌<◌, ◌≡◌, refl, Bool, true, false, List, arith}
use foster_btree.Prelude.Outcome.{Outcome, ok, throw, key_not_found}
use foster_btree.SlotArray.Defs.{SlotArray}
use foster_btree.SlotArray.Slots.{slot_deleted}
use foster_btree.Node.Defs.{remove}
use foster_btree.Node.Rep.{IsNodeType, IsNode}
use foster_btree.Node.Lookup.{IsMember}
use foster_btree.Node.Remove.{IsRemoved, remove-IsRemoved}
use foster_btree.Foster.{FosterNode}
use foster_btree.Tree.{Store, put_node, change}
use foster_btree.Tree.Held.{held, Leads, held-Leads, unlatch_held}
use foster_btree.Tree.Traversal.Route.{Route}
use foster_btree.Tree.Traversal.Route.Reaches.{traverse-Route}
use foster_btree.Tree.Btree.{TreeType, remove_key}
use foster_btree.Tree.Btree.Changed.{stored, change_array-Leads, stored-Leads, released}

module _ {K V P : Type 0} (t : TreeType K V P) {Fits : K → ℕ → Type 0} {image : K → ℕ → List ℕ}
    {key_length : K → ℕ} {LeafFits : K → V → Type 0} {leaf_image : K → V → List ℕ}
    {leaf_key_length : K → ℕ} (is : IsNodeType t.branch.base Fits image key_length)
    (is_leaf : IsNodeType t.leaf.base LeafFits leaf_image leaf_key_length)
    (sorted : t.branch.base.sorted ≡ true) (leaf_sorted : t.leaf.base.sorted ≡ true) {σ : Store P}
    {key : K} {level root leaf : ℕ} (route : Route t.branch Fits image key σ level root leaf)
    {n : FosterNode P} (leads : Leads σ leaf n 0) (is_level : n.fields.level ≡ 0) {floor count : ℕ}
    {keys : ℕ → K} {values : ℕ → V}
    (holds : IsNode t.leaf.base LeafFits leaf_image floor n.array count keys values) where
  -- What a call may answer.
  abbrev pub IsTaken : Outcome (Bool × Store P) → Type 0
  IsTaken (ok (true, σ')) =
      (s : SlotArray P) × (σ' ≡ put_node leaf (stored leads s 0) σ)
      × (at : ℕ) × (at < count)
      × (keys at ≡ key)
      × IsNode t.leaf.base LeafFits leaf_image floor s (count - 1) (slot_deleted at keys)
          (slot_deleted at values)
  IsTaken (ok (false, σ')) = ⊥
  IsTaken (throw e) = (e ≡ key_not_found) × (IsMember is_leaf holds key → ⊥)

  latched : Leads (held leaf 1 σ) leaf n 1
  latched = held-Leads leads 1

  answered :
      (rounds : ℕ) (m : Outcome (SlotArray P × Bool))
      → level + 2 ≤ rounds
      → remove t.leaf.base key true n.array ≡ m
      → IsRemoved is_leaf holds key true m
      → IsTaken (remove_key t rounds root key σ)
  unfolding remove_key change
  answered rounds (ok (s, true)) enough e (at, used, same, holds') =
      rw
        (
          traverse-Route is sorted true true key rounds 0 route enough,
          change_array-Leads latched (remove t.leaf.base key true) s true e,
          unlatch_held 0 true is_level (stored-Leads latched s 1),
          released σ leaf 1 (stored leads s 1),
        )
        (s, refl, at, used, same, holds')
  answered rounds (ok (s, false)) enough e (same, may, absent) = absurd (ground arith)
  answered rounds (throw error) enough e (is_missing, must, absent) =
      rw
        (
          traverse-Route is sorted true true key rounds 0 route enough,
          latched.allocated,
          latched.node_eq,
          e,
        )
        (is_missing, absent)

  -- For a key with a route to a leaf, and two rounds more than there are levels: `remove` returns
  -- true, if the leaf holds the key, and the leaf then holds its other pairs, while all other nodes
  -- and all latches are as they were; else it throws KeyNotFoundException. It never returns false.
  pub remove_key-IsTaken :
      (rounds : ℕ) → level + 2 ≤ rounds → IsTaken (remove_key t rounds root key σ)
  remove_key-IsTaken rounds enough =
      answered rounds (remove t.leaf.base key true n.array) enough refl
        (remove-IsRemoved is_leaf holds key true leaf_sorted)
