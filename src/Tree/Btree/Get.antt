-- ===== src/Tree/Btree/Get.antt =====
-- btree.h: `get`, along a route of its key.
use foster_btree.Prelude.{ℕ, ◌+◌, ◌≤◌, ◌<◌, ◌≡◌, refl, Bool, true, false, List}
use foster_btree.Prelude.Outcome.{ok, Returns-inv}
use foster_btree.Node.Defs.{find_value}
use foster_btree.Node.Rep.{IsNodeType, IsNode}
use foster_btree.Node.Lookup.{Fetched, find_value-Fetched}
use foster_btree.Foster.{FosterNode}
use foster_btree.Tree.{Store}
use foster_btree.Tree.Held.{mark, Leads, held-Leads, held-held, inspect-Leads, unlatch_held}
use foster_btree.Tree.Traversal.Route.{Route}
use foster_btree.Tree.Traversal.Route.Reaches.{traverse-Route}
use foster_btree.Tree.Btree.{TreeType, get}

module _ {K V P : Type 0} (t : TreeType K V P) {Fits : K → ℕ → Type 0} {image : K → ℕ → List ℕ}
    {key_length : K → ℕ} {LeafFits : K → V → Type 0} {leaf_image : K → V → List ℕ}
    {leaf_key_length : K → ℕ} (is : IsNodeType t.branch.base Fits image key_length)
    (is_leaf : IsNodeType t.leaf.base LeafFits leaf_image leaf_key_length)
    (sorted : t.branch.base.sorted ≡ true) (leaf_sorted : t.leaf.base.sorted ≡ true) {σ : Store P}
    {key : K} {level root leaf : ℕ} (route : Route t.branch Fits image key σ level root leaf)
    {n : FosterNode P} (leads : Leads σ leaf n 0) (is_level : n.fields.level ≡ 0) where
  -- `get` returns what `find` returns of the leaf.
  pub get-find_value :
      (rounds : ℕ) (old : V) (r : Bool × V)
      → level + 2 ≤ rounds
      → find_value t.leaf.base key old n.array ≡ ok r
      → get t rounds root key old σ ≡ ok (r, σ)
  unfolding get
  get-find_value rounds old r enough e =
      let h = held-Leads leads (mark 0 false) in
      rw
        (
          traverse-Route is sorted false true key rounds 0 route enough,
          inspect-Leads h (λ m. find_value t.leaf.base key old m.node.array) r e,
          unlatch_held 0 false is_level h,
          held-held leads (mark 0 false),
        )
        refl

  module _ {floor count : ℕ} {keys : ℕ → K} {values : ℕ → V}
      (holds : IsNode t.leaf.base LeafFits leaf_image floor n.array count keys values) where
    -- For a key with a route to a leaf, not below the first key of the leaf, and two rounds more
    -- than there are levels: `get` returns what the leaf holds of the key, true and its value if it
    -- is there, else false, and leaves all nodes and latches as they were.
    pub get-Route :
        (rounds : ℕ) (old : V)
        → level + 2 ≤ rounds
        → 0 < count
        → t.leaf.base.key_order.lt key (keys 0) ≡ false
        → (r : Bool × V) × (get t rounds root key old σ ≡ ok (r, σ)) × Fetched is_leaf holds key r
    get-Route rounds old enough some_key not_first =
        let (r, e, fetched) =
          Returns-inv _ _
            (find_value-Fetched is_leaf holds key old some_key not_first leaf_sorted) in
        (r, get-find_value rounds old r enough e, fetched)
