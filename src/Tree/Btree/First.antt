-- ===== src/Tree/Btree/First.antt =====
-- btree.h: the constructor of a tree, and the first `put` into it.
use native.Mathlib.Nat.{add-mul, mul-le-mul_right, mul-sub}
use foster_btree.Prelude.{
  ℕ, ◌+◌, ◌-◌, ◌*◌, ◌≤◌, ◌<◌, ◌≡◌, refl, sym, ap, subst, Bool, true, List, arith, inl, inr, dec_lt,
}
use foster_btree.Prelude.Outcome.{ok}
use foster_btree.Layout.{payload_count}
use foster_btree.SlotArray.Defs.{get_payload_count}
use foster_btree.SlotArray.Entries.{Represents}
use foster_btree.Encoding.{IsEncoder}
use foster_btree.Node.Rep.{IsNodeType, IsNode, entry_of}
use foster_btree.Node.Insert.{HasRoom}
use foster_btree.Foster.{FosterNode, field_word}
use foster_btree.Tree.{Store, put_node}
use foster_btree.Tree.Held.{Leads}
use foster_btree.Tree.Fresh.{IsFresh, construct_node-IsFresh, fresh-IsPlain, fresh-Represents}
use foster_btree.Tree.Traversal.Route.{at_leaf}
use foster_btree.Tree.Btree.{TreeType, construct_tree, put, get}
use foster_btree.Tree.Btree.Put.{put-get}

enough_room :
    (n p begin count a slot w : ℕ) {used : ℕ}
    → used ≡ 0
    → begin + p ≡ count
    → (n + p) * a + slot ≤ count * a
    → (n * a ≤ begin * a - used * w) × (slot ≤ (begin - n) * a - used * w)
enough_room n p begin count a slot w none_used e h =
    let sum : n * a + slot ≤ begin * a =
      omega (arith, add-mul n p a, add-mul begin p a, ap (λ x. x * a) e) in
    rw none_used (omega arith, omega (arith, mul-sub a begin n))

fewer : (n m count a slot : ℕ) → 0 < slot → (n + m) * a + slot ≤ count * a → m ≤ count
fewer n m count a slot pos h = elim (dec_lt count m) [
  | yes lt ↦ absurd (omega (arith, mul-le-mul_right {m = count} {n = n + m} a (omega arith)))
  | no ge ↦ omega arith
]

module _ {K V P : Type 0} (t : TreeType K V P) {Fits : K → ℕ → Type 0} {image : K → ℕ → List ℕ}
    {key_length : K → ℕ} {LeafFits : K → V → Type 0} {leaf_image : K → V → List ℕ}
    {leaf_key_length : K → ℕ} {KeyFits : K → Type 0} {key_image : K → List ℕ} {PtrFits : ℕ → Type 0}
    {ptr_image : ℕ → List ℕ} (is : IsNodeType t.branch.base Fits image key_length)
    (is_leaf : IsNodeType t.leaf.base LeafFits leaf_image leaf_key_length)
    (is_key : IsEncoder t.branch.key_encoder KeyFits key_image)
    (is_ptr : IsEncoder t.branch.ptr_encoder PtrFits ptr_image) (null_fits : PtrFits 0)
    (ptr_bytes : 0 < t.branch.ptr_encoder.length_of 0)
    (same_layout : t.leaf.base.layout ≡ t.branch.base.layout)
    (short : payload_count t.branch.base.layout < field_word) (sorted : t.branch.base.sorted ≡ true)
    (leaf_sorted : t.leaf.base.sorted ≡ true) (σ : Store P) (key : K) (value : V)
    (fits : LeafFits key value) where
  open t.leaf.base use {layout, encoder}

  abbrev key_blocks : ℕ
  key_blocks = get_payload_count layout (encoder.length_of key value)

  abbrev null_blocks : ℕ
  null_blocks = get_payload_count layout (t.branch.ptr_encoder.length_of 0)

  module _ {n : FosterNode P}
      (fresh : IsFresh t.branch is.is_layout is.addressable short is_key is_ptr null_fits ptr_bytes
        σ n)
      (room : (key_blocks + null_blocks) * layout.alignment + layout.slot_size
        ≤ payload_count layout * layout.alignment) where
    holds : IsNode t.leaf.base LeafFits leaf_image fresh.floor n.array 0 (λ _. key) (λ _. value)
    holds = record {
      represents =
          subst
            (λ l.
              Represents l fresh.floor n.array 0
                (λ _. entry_of t.leaf.base LeafFits leaf_image key value))
            (sym same_layout)
            (fresh-Represents t.branch is.is_layout is.addressable short is_key is_ptr null_fits
              ptr_bytes σ fresh (λ _. entry_of t.leaf.base LeafFits leaf_image key value));
      fits = λ i h. absurd (omega arith);
      increasing = λ i j h h'. absurd (omega arith);
    }

    fresh-HasRoom : HasRoom is_leaf holds key value
    fresh-HasRoom =
        enough_room key_blocks null_blocks n.array.payload_begin (payload_count layout)
          layout.alignment layout.slot_size layout.slot_size fresh.represents.count_eq
          (subst
            (λ l.
              n.array.payload_begin + get_payload_count l (t.branch.ptr_encoder.length_of 0)
              ≡ payload_count l)
            (sym same_layout) fresh.space)
          room

    -- The nodes after the constructor.
    abbrev rooted : Store P
    rooted = record (put_node σ.next (record { node = n; counter = 0 }) σ) { next = σ.next + 1 }

    rooted-Leads : 0 < σ.next → Leads rooted σ.next n 0
    rooted-Leads pos = record { allocated = ground arith; node_eq = ground arith }

    first-put :
        0 < σ.next
        → (rounds : ℕ) (upsert : Bool) (old : V) → 2 ≤ rounds
        → (σ' : Store P) × (put t rounds σ.next key value upsert rooted ≡ ok (tt, σ'))
          × (get t rounds σ.next key old σ' ≡ ok ((true, value), σ'))
    first-put pos rounds upsert old enough =
        let plain =
          fresh-IsPlain t.branch is.is_layout is.addressable short is_key is_ptr null_fits ptr_bytes
            σ fresh key in
        put-get t is is_leaf is_key is_ptr same_layout sorted leaf_sorted
          (at_leaf (rooted-Leads pos) plain) (rooted-Leads pos) plain holds fresh.carries (inl refl)
          (inl refl) (inr (0, null_fits, refl)) value fits (λ (i, lt, e). absurd (omega arith))
          fresh-HasRoom rounds upsert old (omega (arith, enough))

  module _
      (room : (key_blocks + null_blocks) * layout.alignment + layout.slot_size
        ≤ payload_count layout * layout.alignment) where
    null_room :
        get_payload_count t.branch.base.layout (t.branch.ptr_encoder.length_of 0)
        ≤ payload_count t.branch.base.layout
    null_room =
        subst (λ l. get_payload_count l (t.branch.ptr_encoder.length_of 0) ≤ payload_count l)
          same_layout
          (fewer key_blocks null_blocks (payload_count layout) layout.alignment layout.slot_size
            is_leaf.is_layout.slot_size_pos room)

    -- For branches and leaves of one layout with block positions below the values of `uint32_t`, a
    -- pair of key and value that the encoder of the leaf can store, and blocks for it, for a null
    -- pointer and for a slot: the constructor returns a root, `put` of the pair into the tree, with
    -- `upsert` or without and with two rounds or more, returns, and then `get` of the key returns
    -- true and the value, and changes nothing.
    pub construct_tree-put :
        0 < σ.next
        → (rounds : ℕ) (upsert : Bool) (old : V) → 2 ≤ rounds
        → (root : ℕ) × (σ' : Store P) × (construct_tree t σ ≡ ok (root, σ'))
          × (σ'' : Store P) × (put t rounds root key value upsert σ' ≡ ok (tt, σ''))
          × (get t rounds root key old σ'' ≡ ok ((true, value), σ''))
    unfolding construct_tree
    construct_tree-put pos rounds upsert old enough =
        let (n, fresh, e) =
          construct_node-IsFresh t.branch is.is_layout is.addressable short is_key is_ptr null_fits
            ptr_bytes σ null_room pos in
        let (σ'', puts, gets) = first-put fresh room pos rounds upsert old enough in
        (σ.next, rooted fresh room, e, σ'', puts, gets)
