-- ===== src/Node/Remove.antt =====
-- node.h: `remove` takes out the key and its value, and reports a key that is not there.
use foster_btree.Prelude.{
  ℕ, ◌-◌, ◌<◌, ◌≡◌, refl, inl, inr, Bool, true, false, List, ltb, if◌then◌else◌, arith, Bool-cases,
  fun_ext, subst,
}
use foster_btree.Prelude.Outcome.{Outcome, ok, throw, key_not_found, ◌>>=◌, Returns-inv}
use foster_btree.SlotArray.Defs.{SlotArray, memory}
use foster_btree.SlotArray.Slots.{slot_deleted, before, slot_deleted-at}
use foster_btree.SlotArray.Entries.{Represents}
use foster_btree.SlotArray.Entries.Removal.{result, remove_entry-Represents}
use foster_btree.Node.Defs.{NodeType, payload_for_slot, find_slot, remove_slot, remove}
use foster_btree.Node.Rep.{IsNodeType, IsNode, entry_of, payload-Holds}
use foster_btree.Node.Lookup.{Place, Located, IsMember, not_found-absent, find_slot-Located}

module _ {K V P : Type 0} {t : NodeType K V P} {Fits : K → V → Type 0} {image : K → V → List ℕ}
    {key_length : K → ℕ} (is : IsNodeType t Fits image key_length) {floor : ℕ} {s : SlotArray P}
    {count : ℕ} {keys : ℕ → K} {values : ℕ → V}
    (node : IsNode t Fits image floor s count keys values) where
  open t use {layout, key_order, encoder}
  open is use {is_layout, is_encoder, addressable}
  open node use {represents, fits, increasing}

  module _ (at : ℕ) (inside : at < count) where
    abbrev pub closed : SlotArray P
    closed = result layout is_layout addressable represents at inside

    -- The pairs that stay, as entries.
    entries-deleted :
        slot_deleted at (λ i. entry_of t Fits image (keys i) (values i))
        ≡ (λ i. entry_of t Fits image (slot_deleted at keys i) (slot_deleted at values i))
    entries-deleted =
        fun_ext (λ i. elim (Bool-cases (ltb i at)) [ inl e ↦ rw e refl | inr e ↦ rw e refl ])

    deleted-increasing :
        (i j : ℕ)
        → i < j
        → j < count - 1
        → key_order.lt (slot_deleted at keys i) (slot_deleted at keys j) ≡ true
    deleted-increasing i j lt h =
        rw (slot_deleted-at at keys i, slot_deleted-at at keys j)
          (increasing (before at i) (before at j) (ground arith) (ground arith))

    closed-IsNode :
        IsNode t Fits image floor closed (count - 1) (slot_deleted at keys) (slot_deleted at values)
    closed-IsNode = record {
      represents =
          subst (Represents layout floor closed (count - 1)) entries-deleted
            (remove_entry-Represents layout is_layout addressable represents at inside).2;
      fits = λ i h.
          rw (slot_deleted-at at keys i, slot_deleted-at at values i)
            (fits (before at i) (ground arith));
      increasing = deleted-increasing;
    }

    remove_slot-eq : remove_slot t at s ≡ ok closed
    unfolding remove_slot
    remove_slot-eq =
        let done = remove_entry-Represents layout is_layout addressable represents at inside in
        rw
          (
            is_encoder.measures (memory layout s) (payload_for_slot t s at) (keys at) (values at)
                (fits at inside) (payload-Holds is node at inside),
            done.0,
          )
          done.1

  module _ (key : K) (must_exist : Bool) where
    -- What a call of `remove` may answer.
    abbrev pub IsRemoved : Outcome (SlotArray P × Bool) → Type 0
    IsRemoved (ok (s', true)) =
        (at : ℕ) × (at < count)
        × (keys at ≡ key)
        × IsNode t Fits image floor s' (count - 1) (slot_deleted at keys) (slot_deleted at values)
    IsRemoved (ok (s', false)) = (s' ≡ s) × (must_exist ≡ false) × (IsMember is node key → ⊥)
    IsRemoved (throw e) = (e ≡ key_not_found) × (must_exist ≡ true) × (IsMember is node key → ⊥)

    answered :
        (b : Bool) (at : ℕ)
        → Place is node key (b, at)
        → IsRemoved (
            if b
            then (remove_slot t at s >>= λ s'. ok (s', true))
            else (if must_exist then throw key_not_found else ok (s, false)))
    answered true at (lt, e, below) = rw (remove_slot-eq at lt) (at, lt, e, closed-IsNode at lt)
    answered false at place =
        let absent : IsMember is node key → ⊥ = not_found-absent is node key at place in
        elim (Bool-cases must_exist) [
          | inl must ↦ rw must (refl, refl, absent)
          | inr may ↦ rw may (refl, refl, absent)
        ]

    -- On a sorted node: `remove` returns true and the node holds the sequence without the pair of
    -- the key, if the key is in it; else it throws KeyNotFoundException if `must_exist`, and
    -- returns false with the state as it was if not.
    pub remove-IsRemoved : t.sorted ≡ true → IsRemoved (remove t key must_exist s)
    unfolding remove
    remove-IsRemoved sorted =
        let (r, e, place) =
          Returns-inv (find_slot t false key 0 s) (Located is node key false)
            (find_slot-Located is node key false 0 sorted) in
        rw e (answered r.found r.slot place)
