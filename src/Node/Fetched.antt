-- ===== src/Node/Fetched.antt =====
-- node.h: what `find` returns of a key that was inserted.
use foster_btree.Prelude.{
  ℕ, ◌+◌, ◌≤◌, ◌<◌, ◌≡◌, ◌-◌, ◌≢◌, refl, sym, ap, subst, ◌∙◌, Bool, true, false, List, arith,
  dec_lt, ℕ_discrete,
}
use foster_btree.Prelude.KeyOrder.{lt-asymm}
use foster_btree.SlotArray.Defs.{SlotArray}
use foster_btree.SlotArray.Slots.{slot_inserted, slot_inserted-new}
use foster_btree.Node.Defs.{NodeType}
use foster_btree.Node.Rep.{IsNodeType, IsNode}
use foster_btree.Node.Lookup.{Fetched, IsMember}

-- What `find` fetches depends on whether the node holds the key.
module _ {K V P : Type 0} {t : NodeType K V P} {Fits : K → V → Type 0} {image : K → V → List ℕ}
    {key_length : K → ℕ} (is : IsNodeType t Fits image key_length) {floor : ℕ} {s : SlotArray P}
    {count : ℕ} {keys : ℕ → K} {values : ℕ → V}
    (holds : IsNode t Fits image floor s count keys values) (key : K) where
  open t use {key_order}

  not_above_itself :
      (i j : ℕ) → keys i ≡ key → keys j ≡ key → key_order.lt (keys i) (keys j) ≡ true → ⊥
  not_above_itself i j e e' h = ground (arith, key_order.lt_irrefl key)

  one_place : (i j : ℕ) → i < count → j < count → keys i ≡ key → keys j ≡ key → j ≡ i
  one_place i j h h' e e' = elim (dec_lt j i) [
    | yes lt ↦ absurd (not_above_itself j i e' e (holds.increasing j i lt h))
    | no a ↦ elim (dec_lt i j) [
      | yes lt ↦ absurd (not_above_itself i j e e' (holds.increasing i j lt h'))
      | no b ↦ omega arith
    ]
  ]

  pub Fetched-member :
      (i : ℕ)
      → i < count
      → keys i ≡ key
      → (r : Bool × V) → Fetched is holds key r
      → r ≡ (true, values i)
  Fetched-member i h e (true, v) (j, h', e', value) =
      ap (λ x. (true, x)) (value ∙ ap values (one_place i j h h' e e'))
  Fetched-member i h e (false, v) (j, h', below, beyond, value) = absurd (elim (dec_lt j i) [
    | yes lt ↦ let more = beyond i (omega arith) h in ground (arith, key_order.lt_irrefl key)
    | no a ↦ elim (ℕ_discrete j i) [
      | yes same ↦
          let less = subst (λ k. key_order.lt k key ≡ true) (ap keys same ∙ e) below in
          ground (arith, key_order.lt_irrefl key)
      | no b ↦
          let less = holds.increasing i j (omega arith) h' in
          let round = key_order.lt_trans (keys i) (keys j) key less below in
          ground (arith, key_order.lt_irrefl key)
    ]
  ])

  pub Fetched-stranger :
      (IsMember is holds key → ⊥) → (r : Bool × V) → Fetched is holds key r → r.0 ≡ false
  Fetched-stranger absent (true, v) (j, h, same, value) = absurd (absent (j, h, same))
  Fetched-stranger absent (false, v) fetched = refl

-- A node in which a key was put at its place.
module _ {K V P : Type 0} {t : NodeType K V P} {Fits : K → V → Type 0} {image : K → V → List ℕ}
    {key_length : K → ℕ} (is : IsNodeType t Fits image key_length) {floor : ℕ} {s : SlotArray P}
    {count : ℕ} (keys : ℕ → K) (values : ℕ → V) (at : ℕ) (key : K) (value : V) (inside : at ≤ count)
    (holds : IsNode t Fits image floor s
      (count + 1)
      (slot_inserted at key keys)
      (slot_inserted at value values)) where
  open t use {key_order}

  new_key : slot_inserted at key keys at ≡ key
  new_key = slot_inserted-new at key keys

  pub not_first_new : key_order.lt key (slot_inserted at key keys 0) ≡ false
  not_first_new = elim (dec_lt 0 at) [
    | yes pos ↦
        let less = holds.increasing 0 at pos (omega arith) in
        lt-asymm key_order (slot_inserted at key keys 0) key
          (subst (λ k. key_order.lt (slot_inserted at key keys 0) k ≡ true) new_key less)
    | no z ↦
        subst (λ k. key_order.lt key k ≡ false) {x = key}
          (sym new_key ∙ ap (slot_inserted at key keys) {x = at} (omega arith))
          (key_order.lt_irrefl key)
  ]

  pub Fetched-new : (r : Bool × V) → Fetched is holds key r → r ≡ (true, value)
  Fetched-new r fetched =
      Fetched-member is holds key at (omega arith) new_key r fetched
      ∙ ap (λ x. (true, x)) (slot_inserted-new at value values)

  -- The other keys are there as before.
  module _ (other : K) (differs : other ≢ key) where
    pub member_shifted :
        (i : ℕ)
        → i < count
        → keys i ≡ other
        → (j : ℕ) × (j < count + 1)
          × (slot_inserted at key keys j ≡ other)
          × (slot_inserted at value values j ≡ values i)
    member_shifted i h e = elim (dec_lt i at) [
      | yes lt ↦ (i, omega arith, ground (arith, e), ground arith)
      | no a ↦ (i + 1, omega arith, ground (arith, e), ground arith)
    ]

    pub member_before : IsMember is holds other → (i : ℕ) × (i < count) × (keys i ≡ other)
    member_before (j, h, e) = elim (ℕ_discrete j at) [
      | yes same ↦ absurd (differs (sym e ∙ ap (slot_inserted at key keys) same ∙ new_key))
      | no b ↦ elim (dec_lt j at) [
        | yes lt ↦ (j, omega arith, ground (arith, e))
        | no a ↦ (j - 1, omega arith, ground (arith, e))
      ]
    ]
