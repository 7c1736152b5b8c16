-- ===== src/Tree/Btree/Put.antt =====
-- btree.h: `put` of a new key into a leaf with room, and `get` of it afterwards.
use foster_btree.Prelude.{
  ℕ, ◌+◌, ◌≤◌, ◌<◌, ◌≡◌, refl, ap, subst, ◌∙◌, Bool, true, false, List, arith, ◌↔◌, if◌then◌else◌,
}
use foster_btree.Prelude.Outcome.{Outcome, ok, throw, Returns-inv}
use foster_btree.SlotArray.Defs.{SlotArray, byte_at}
use foster_btree.SlotArray.Slots.{slot_inserted}
use foster_btree.Node.Defs.{find, insert}
use foster_btree.Node.Rep.{IsNodeType, IsNode}
use foster_btree.Node.Lookup.{Place, IsMember, find-IsMember}
use foster_btree.Node.Fetched.{not_first_new, Fetched-new}
use foster_btree.Node.Insert.{HasRoom, IsInserted, Keeps, insert-IsInserted}
use foster_btree.Encoding.{IsEncoder}
use foster_btree.Foster.{FosterNode, low_key_field, high_key_field, foster_ptr_field}
use foster_btree.Foster.Carries.{View, Carries}
use foster_btree.Foster.Same.{IsReadable, Carries-array, same_child, same_fences}
use foster_btree.Tree.{pure, Store, put_node}
use foster_btree.Tree.Held.{held, Leads, IsPlain, held-Leads, inspect-Leads, unlatch_held}
use foster_btree.Tree.Traversal.Route.{Route}
use foster_btree.Tree.Traversal.Route.Reaches.{traverse-Route}
use foster_btree.Tree.Btree.{TreeType, put, get, remove_old, insert_split}
use foster_btree.Tree.Btree.Get.{get-Route}
use foster_btree.Tree.Btree.Changed.{
  stored, change_array-Leads, stored-Leads, is_latched_writer, released, changed-Route,
}

some_slots : (count : ℕ) → 0 < count + 1
some_slots count = omega arith

module _ {K V P : Type 0} (t : TreeType K V P) {Fits : K → ℕ → Type 0} {image : K → ℕ → List ℕ}
    {key_length : K → ℕ} {LeafFits : K → V → Type 0} {leaf_image : K → V → List ℕ}
    {leaf_key_length : K → ℕ} {KeyFits : K → Type 0} {key_image : K → List ℕ} {PtrFits : ℕ → Type 0}
    {ptr_image : ℕ → List ℕ} (is : IsNodeType t.branch.base Fits image key_length)
    (is_leaf : IsNodeType t.leaf.base LeafFits leaf_image leaf_key_length)
    (is_key : IsEncoder t.branch.key_encoder KeyFits key_image)
    (is_ptr : IsEncoder t.branch.ptr_encoder PtrFits ptr_image)
    (same_layout : t.leaf.base.layout ≡ t.branch.base.layout) (sorted : t.branch.base.sorted ≡ true)
    (leaf_sorted : t.leaf.base.sorted ≡ true) {σ : Store P} {key : K} {level root leaf : ℕ}
    (route : Route t.branch Fits image key σ level root leaf) {n : FosterNode P}
    (leads : Leads σ leaf n 0) (plain : IsPlain t.branch key n 0) {floor count : ℕ} {keys : ℕ → K}
    {values : ℕ → V}
    (holds : IsNode t.leaf.base LeafFits leaf_image floor n.array count keys values) {view : View}
    (carries : Carries t.branch.base.layout floor n view)
    (low_readable : IsReadable KeyFits key_image view low_key_field)
    (high_readable : IsReadable KeyFits key_image view high_key_field)
    (child_readable : IsReadable PtrFits ptr_image view foster_ptr_field) where
  open t.leaf.base use {key_order}

  module _ (s : SlotArray P) (value : V) (keeps : Keeps is_leaf holds key value s) where
    kept : Carries t.branch.base.layout floor (record n { array = s }) view
    kept = Carries-array t.branch.base.layout carries s (λ p o h.
        subst (λ l. byte_at l s p o ≡ byte_at l n.array p o) same_layout
          (keeps p o (omega (arith, holds.represents.floor_ge))))

    pub still-IsPlain :
        (k : K) → IsPlain t.branch k n 0 → IsPlain t.branch k (record n { array = s }) 0
    still-IsPlain k plain = record {
      level_eq = plain.level_eq;
      no_foster =
          ap (λ (r : Bool × ℕ). r.0)
            (same_child t.branch.base.layout is.is_layout carries kept t.branch.base.key_order
              is_key is_ptr 0 child_readable)
          ∙ plain.no_foster;
      fenced =
          same_fences t.branch.base.layout is.is_layout carries kept t.branch.base.key_order is_key
            is_ptr t.branch.base.blank t.branch.base.blank k low_readable high_readable
          ∙ plain.fenced;
    }

  module _ (value : V) (fits : LeafFits key value) (absent : IsMember is_leaf holds key → ⊥)
      (room : HasRoom is_leaf holds key value) where
    -- What the insertion leaves.
    abbrev pub Put : SlotArray P → Type 0
    Put s =
        (at : ℕ) × Place is_leaf holds key (false, at)
        × IsNode t.leaf.base LeafFits leaf_image floor s (count + 1) (slot_inserted at key keys)
            (slot_inserted at value values)
        × Keeps is_leaf holds key value s

    inserted :
        (m : Outcome (SlotArray P × Bool))
        → IsInserted is_leaf holds key value m
        → (s : SlotArray P) × (m ≡ ok (s, true)) × Put s
    inserted (ok (s, true)) (at, place, room', holds', keeps) =
        (s, refl, (at, place, holds', keeps))
    inserted (ok (s, false)) (same, new, full) = absurd (full room)
    inserted (throw e) (same, old) = absurd (absent old)

    missing : find t.leaf.base key n.array ≡ ok false
    missing =
        let (b, e, iff) = Returns-inv _ _ (find-IsMember is_leaf holds key leaf_sorted) in
        e ∙ ap ok (go b iff)
      where
        go : (b : Bool) → (b ≡ true) ↔ IsMember is_leaf holds key → b ≡ false
        go true iff = absurd (absent (iff.0 refl))
        go false iff = refl

    abbrev latched : Leads (held leaf 1 σ) leaf n 1
    latched = held-Leads leads 1

    skips_removal : remove_old t leaf key (held leaf 1 σ) ≡ ok (tt, held leaf 1 σ)
    unfolding remove_old
    skips_removal =
        rw (inspect-Leads latched (λ m. find t.leaf.base key m.node.array) false missing) refl

    may_skip :
        (upsert : Bool)
        → (if upsert then remove_old t leaf key else pure tt) (held leaf 1 σ)
          ≡ ok (tt, held leaf 1 σ)
    may_skip true = skips_removal
    may_skip false = refl

    puts :
        (rounds : ℕ) (upsert : Bool) (s : SlotArray P)
        → level + 2 ≤ rounds
        → insert t.leaf.base key value n.array ≡ ok (s, true)
        → put t rounds root key value upsert σ ≡ ok (tt, put_node leaf (stored leads s 0) σ)
    unfolding put insert_split
    puts rounds upsert s enough e =
        let after = stored-Leads latched s 1 in
        rw
          (
            traverse-Route is sorted true true key rounds 0 route enough,
            is_latched_writer latched refl,
            may_skip upsert,
            change_array-Leads latched (insert t.leaf.base key value) s true e,
            is_latched_writer after refl,
            unlatch_held 0 true plain.level_eq after,
            released σ leaf 1 (stored leads s 1),
          )
          refl

    pub put-Put :
        (rounds : ℕ) (upsert : Bool)
        → level + 2 ≤ rounds
        → (s : SlotArray P) × Put s
          × (put t rounds root key value upsert σ ≡ ok (tt, put_node leaf (stored leads s 0) σ))
    put-Put rounds upsert enough =
        let (s, e, filled) =
          inserted _ (insert-IsInserted is_leaf holds key value fits leaf_sorted) in
        (s, filled, puts rounds upsert s enough e)

    -- For a key with a route to a leaf whose fields can be read, that the leaf does not hold and
    -- has room for, with `upsert` or without, and with two rounds more than there are levels: `put`
    -- returns, and in the nodes it leaves `get` returns true and the value that was put, and
    -- changes nothing.
    pub put-get :
        (rounds : ℕ) (upsert : Bool) (old : V)
        → level + 2 ≤ rounds
        → (σ' : Store P) × (put t rounds root key value upsert σ ≡ ok (tt, σ'))
          × (get t rounds root key old σ' ≡ ok ((true, value), σ'))
    put-get rounds upsert old enough =
        let (s, (at, place, holds', keeps), e) = put-Put rounds upsert enough in
        let (r, found, fetched) =
          get-Route t is is_leaf sorted leaf_sorted
            (changed-Route leads plain.level_eq (still-IsPlain s value keeps key plain) route)
            (stored-Leads leads s 0) plain.level_eq holds' rounds old enough (some_slots count)
            (not_first_new is_leaf keys values at key value place.0 holds') in
        (
          put_node leaf (stored leads s 0) σ,
          e,
          found
              ∙ ap (λ r. ok (r, put_node leaf (stored leads s 0) σ))
                  (Fetched-new is_leaf keys values at key value place.0 holds' r fetched),
        )
