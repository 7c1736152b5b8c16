-- ===== src/Tree/Btree/Others.antt =====
-- btree.h: what `put` of a key does to the other keys.
use foster_btree.Prelude.{
  ℕ, ◌+◌, ◌≤◌, ◌<◌, ◌≡◌, ◌≢◌, ap, subst, sym, ◌∙◌, Bool, Bool-cases, true, false, List, arith,
  dec_lt, inl, inr,
}
use foster_btree.Prelude.Outcome.{ok, Returns-inv}
use foster_btree.SlotArray.Defs.{SlotArray}
use foster_btree.SlotArray.Slots.{slot_inserted}
use foster_btree.Node.Rep.{IsNodeType, IsNode}
use foster_btree.Node.Lookup.{Place, IsMember, Fetched, find_value-Fetched}
use foster_btree.Node.Fetched.{Fetched-member, Fetched-stranger, member_shifted, member_before}
use foster_btree.Node.Insert.{HasRoom}
use foster_btree.Encoding.{IsEncoder}
use foster_btree.Foster.{FosterNode, low_key_field, high_key_field, foster_ptr_field}
use foster_btree.Foster.Carries.{View, Carries}
use foster_btree.Foster.Same.{IsReadable}
use foster_btree.Tree.{Store, put_node}
use foster_btree.Tree.Held.{Leads, IsPlain}
use foster_btree.Tree.Traversal.Route.{Route}
use foster_btree.Tree.Btree.{TreeType, put, get}
use foster_btree.Tree.Btree.Get.{get-find_value, get-Route}
use foster_btree.Tree.Btree.Changed.{stored, stored-Leads, changed-Route, other-Leads, other-Route}
use foster_btree.Tree.Btree.Put.{still-IsPlain, put-Put}

-- The same answer, but for what an absent key leaves in the value.
abbrev pub Agrees : {V : Type 0} → Bool × V → Bool × V → Type 0
Agrees (true, v) r = r ≡ (true, v)
Agrees (false, v) r = r.0 ≡ false

module _ {K V P : Type 0} (t : TreeType K V P) {Fits : K → ℕ → Type 0} {image : K → ℕ → List ℕ}
    {key_length : K → ℕ} {LeafFits : K → V → Type 0} {leaf_image : K → V → List ℕ}
    {leaf_key_length : K → ℕ} {KeyFits : K → Type 0} {key_image : K → List ℕ} {PtrFits : ℕ → Type 0}
    {ptr_image : ℕ → List ℕ} (is : IsNodeType t.branch.base Fits image key_length)
    (is_leaf : IsNodeType t.leaf.base LeafFits leaf_image leaf_key_length)
    (is_key : IsEncoder t.branch.key_encoder KeyFits key_image)
    (is_ptr : IsEncoder t.branch.ptr_encoder PtrFits ptr_image)
    (same_layout : t.leaf.base.layout ≡ t.branch.base.layout) (sorted : t.branch.base.sorted ≡ true)
    (leaf_sorted : t.leaf.base.sorted ≡ true) {σ : Store P} {key : K} {level root leaf : ℕ}
    (route : Route t.branch Fits image key σ level root leaf) {n : FosterNode P}
    (leads : Leads σ leaf n 0) (plain : IsPlain t.branch key n 0) {floor count : ℕ} {keys : ℕ → K}
    {values : ℕ → V}
    (holds : IsNode t.leaf.base LeafFits leaf_image floor n.array count keys values) {view : View}
    (carries : Carries t.branch.base.layout floor n view)
    (low_readable : IsReadable KeyFits key_image view low_key_field)
    (high_readable : IsReadable KeyFits key_image view high_key_field)
    (child_readable : IsReadable PtrFits ptr_image view foster_ptr_field) where
  open t.leaf.base use {key_order}

  module _ (value : V) (fits : LeafFits key value) (absent : IsMember is_leaf holds key → ⊥)
      (room : HasRoom is_leaf holds key value) (other : K) where
    -- For a key with a route to a leaf whose fields can be read, that the leaf does not hold and
    -- has room for, and for one with a route of the same number of levels to another leaf, which
    -- holds keys and whose first key is not above that key, with `upsert` or without, and with two
    -- rounds more than there are levels: `put` returns, and `get` of the second key returns what
    -- its leaf holds of it, the same before and after the `put`, and changes nothing.
    pub put-get_elsewhere :
        {leaf' : ℕ}
        → leaf ≢ leaf'
        → Route t.branch Fits image other σ level root leaf'
        → {n' : FosterNode P} → Leads σ leaf' n' 0
        → n'.fields.level ≡ 0
        → {floor' count' : ℕ} {keys' : ℕ → K} {values' : ℕ → V}
        → (holds' : IsNode t.leaf.base LeafFits leaf_image floor' n'.array count' keys' values')
        → 0 < count'
        → key_order.lt other (keys' 0) ≡ false
        → (rounds : ℕ) (upsert : Bool) (old : V) → level + 2 ≤ rounds
        → (σ' : Store P) × (put t rounds root key value upsert σ ≡ ok (tt, σ'))
          × (r : Bool × V) × Fetched is_leaf holds' other r
          × (get t rounds root other old σ ≡ ok (r, σ))
          × (get t rounds root other old σ' ≡ ok (r, σ'))
    put-get_elsewhere {leaf' = leaf'} differs route' {n' = n'} leads' is_level holds' some_key
          not_first rounds upsert old enough =
        let (r, e, fetched) =
          Returns-inv _ _
            (find_value-Fetched is_leaf holds' other old some_key not_first leaf_sorted) in
        let (s, filled, done) =
          put-Put t is is_leaf is_key is_ptr same_layout sorted leaf_sorted route leads plain holds
            carries low_readable high_readable child_readable value fits absent room rounds upsert
            enough in
        let m = stored leads s 0 in
        (
          put_node leaf m σ,
          done,
          r,
          fetched,
          get-find_value t is is_leaf sorted leaf_sorted route' leads' is_level rounds old r enough
              e,
          get-find_value t is is_leaf sorted leaf_sorted
              (other-Route m leads plain.level_eq differs route') (other-Leads m differs leads')
              is_level rounds old r enough e,
        )

    -- A key that belongs to the same leaf.
    module _ (differs : other ≢ key) (route' : Route t.branch Fits image other σ level root leaf)
        (plain' : IsPlain t.branch other n 0) (some_key : 0 < count)
        (not_first : key_order.lt other (keys 0) ≡ false) where
      still_not_first :
          (at : ℕ)
          → Place is_leaf holds key (false, at)
          → key_order.lt other (slot_inserted at key keys 0) ≡ false
      still_not_first at place = elim (dec_lt 0 at) [
        | yes pos ↦ ground (arith, not_first)
        | no z ↦
            let larger = place.2 0 (omega arith) some_key in
            elim (Bool-cases (key_order.lt other key)) [
              | inl e ↦
                  let smaller = key_order.lt_trans other key (keys 0) e larger in
                  absurd (ground (arith, not_first))
              | inr e ↦ subst (λ k. key_order.lt other k ≡ false) {x = key} (ground arith) e
            ]
      ]

      module _ {s : SlotArray P} {floor' at : ℕ}
          (holds' : IsNode t.leaf.base LeafFits leaf_image floor' s
            (count + 1)
            (slot_inserted at key keys)
            (slot_inserted at value values))
          (inside : at ≤ count) where
        agree :
            (r r' : Bool × V)
            → Fetched is_leaf holds other r
            → Fetched is_leaf holds' other r'
            → Agrees r r'
        agree (true, v) r' (i, h, same, e) fetched' =
            let (j, h', same', e') =
              member_shifted is_leaf keys values at key value inside holds' other differs i h
                same in
            Fetched-member is_leaf holds' other j h' same' r' fetched'
            ∙ ap (λ x. (true, x)) (e' ∙ sym e)
        agree (false, v) r' fetched fetched' =
            Fetched-stranger is_leaf holds' other
              (λ member.
                let (i, h, same) =
                  member_before is_leaf keys values at key value inside holds' other differs
                    member in
                let e = Fetched-member is_leaf holds other i h same (false, v) fetched in
                absurd (ground (arith, ap (λ (r : Bool × V). r.0) e)))
              r' fetched'

      -- For a key with a route to a leaf whose fields can be read, that the leaf does not hold and
      -- has room for, and for another key with a route to that leaf, which holds keys and whose
      -- first key is not above the other key, with `upsert` or without, and with two rounds more
      -- than there are levels: `put` returns, and `get` of the other key returns true after it
      -- exactly if it does before it, and then the same value; no call of `get` changes a node.
      pub put-get_other :
          (rounds : ℕ) (upsert : Bool) (old old' : V)
          → level + 2 ≤ rounds
          → (σ' : Store P) × (put t rounds root key value upsert σ ≡ ok (tt, σ'))
            × (r : Bool × V) × (get t rounds root other old σ ≡ ok (r, σ))
            × (r' : Bool × V) × (get t rounds root other old' σ' ≡ ok (r', σ'))
            × Agrees r r'
      put-get_other rounds upsert old old' enough =
          let (s, (at, place, holds', keeps), e) =
            put-Put t is is_leaf is_key is_ptr same_layout sorted leaf_sorted route leads plain
              holds carries low_readable high_readable child_readable value fits absent room rounds
              upsert enough in
          let (r, found, fetched) =
            get-Route t is is_leaf sorted leaf_sorted route' leads plain.level_eq holds rounds old
              enough some_key not_first in
          let (r', found', fetched') =
            get-Route t is is_leaf sorted leaf_sorted
              (changed-Route leads plain.level_eq
                (still-IsPlain t is is_leaf is_key is_ptr same_layout sorted leaf_sorted route leads
                  plain holds carries low_readable high_readable child_readable s value keeps other
                  plain')
                route')
              (stored-Leads leads s 0) plain.level_eq holds' rounds old' enough (omega arith)
              (still_not_first at place) in
          (
            put_node leaf (stored leads s 0) σ,
            e,
            r,
            found,
            r',
            found',
            agree holds' place.0 r r' fetched fetched',
          )
