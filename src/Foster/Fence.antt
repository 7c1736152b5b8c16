-- ===== src/Foster/Fence.antt =====
-- node_foster.h: which keys the fences of a node admit.
use foster_btree.Prelude.{
  ℕ, ◌*◌, ◌≡◌, Bool, true, ◌&&◌, Option, none, some, if◌then◌else◌, Bool-cases, inl, inr, arith,
}
use foster_btree.Prelude.KeyOrder.{KeyOrder}
use foster_btree.Layout.{Layout}
use foster_btree.SlotArray.Defs.{memory}
use foster_btree.Encoding.{Encoder}
use foster_btree.Foster.{
  FosterNode, get_foster_field, get_foster_child, at_least, fence_contains, key_range_contains,
  low_key_field, high_key_field, foster_key_field,
}

-- What a field holds, `none` for one that is not set.
abbrev pub field_value :
    (l : Layout) {P T : Type 0} (E : Encoder T) → (field : ℕ) (old : T) → FosterNode P → Option T
field_value l E field old node =
    if node.fields.valid field
    then some (E.decode (memory l node.array) (node.fields.payloads field * l.alignment) old).0
    else none

module _ {K : Type 0} (o : KeyOrder K) where
  -- Not below a lower bound, and not above an upper bound; without a bound, any key is admitted.
  abbrev pub not_below : Option K → K → Bool
  not_below none key = true
  not_below (some low) key = at_least o key low

  abbrev pub not_above : Option K → K → Bool
  not_above none key = true
  not_above (some high) key = at_least o high key

  abbrev pub is_below : Option K → K → Bool
  is_below none key = true
  is_below (some high) key = o.lt key high

module _ (l : Layout) {P K : Type 0} (o : KeyOrder K) (key_encoder : Encoder K)
    (ptr_encoder : Encoder ℕ) (low high key : K) (node : FosterNode P) where
  -- `fence_contains` admits exactly the keys between the fence keys that are set, both included,
  -- whatever its uninitialised variables hold.
  pub fence_contains-bounds : fence_contains l o key_encoder ptr_encoder low high key node ≡ (
      not_below o (field_value l key_encoder low_key_field low node) key
      && not_above o (field_value l key_encoder high_key_field high node) key)
  unfolding fence_contains get_foster_field
  fence_contains-bounds = elim (Bool-cases (node.fields.valid low_key_field)) [
    | inl e ↦ elim (Bool-cases (node.fields.valid high_key_field)) [
      | inl f ↦ rw (e, f) (ground arith)
      | inr f ↦ rw (e, f) (ground arith)
    ]
    | inr e ↦ elim (Bool-cases (node.fields.valid high_key_field)) [
      | inl f ↦ rw (e, f) (ground arith)
      | inr f ↦ rw (e, f) (ground arith)
    ]
  ]

  -- `key_range_contains` admits exactly the keys between the fence keys that are set that are also
  -- below the foster key, if the node has a foster child and its foster key is set, whatever its
  -- uninitialised variables hold.
  pub key_range_contains-bounds :
      (foster_key : K) (foster : ℕ)
      → key_range_contains l o key_encoder ptr_encoder low high foster_key foster key node ≡ (
          not_below o (field_value l key_encoder low_key_field low node) key
          && (not_above o (field_value l key_encoder high_key_field high node) key
              && (if (get_foster_child l o key_encoder ptr_encoder foster node).0
                  then is_below o (field_value l key_encoder foster_key_field foster_key node) key
                  else true)))
  unfolding key_range_contains get_foster_field
  key_range_contains-bounds foster_key foster =
      let fence = fence_contains-bounds in
      elim (Bool-cases (node.fields.valid foster_key_field)) [
        | inl e ↦ rw (fence, e) (ground arith)
        | inr e ↦ rw (fence, e) (ground arith)
      ]
