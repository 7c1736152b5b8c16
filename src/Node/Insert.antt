-- ===== src/Node/Insert.antt =====
-- node.h: `insert` puts in a key with its value, or leaves the node as it was.
use foster_btree.Prelude.{
  ℕ, ◌+◌, ◌-◌, ◌*◌, ◌≤◌, ◌≡◌, refl, ◌∙◌, ap, Bool, true, false, Option, List, if◌then◌else◌, arith,
  dec_lt, if_true,
}
use foster_btree.Prelude.Outcome.{Outcome, ok, throw, existent_key, ◌>>=◌, Returns-inv}
use foster_btree.SlotArray.Defs.{SlotArray, allocate_payload, byte_at}
use foster_btree.SlotArray.Invariant.{
  gap, blocks-le, allocated, allocated-IsWellFormed, allocate_payload-full, allocate_payload-room,
}
use foster_btree.SlotArray.Slots.{slot_inserted, insert_slot-full, insert_slot-room}
use foster_btree.SlotArray.Regions.{freed-allocated, free_payload-eq}
use foster_btree.SlotArray.Entries.{size-le-array}
use foster_btree.Node.Defs.{
  NodeType, Found, find_slot, insert_position, place_slot, place_payload, insert_key, write_record,
  insert,
}
use foster_btree.Node.Rep.{IsNodeType, IsNode}
use foster_btree.Node.Lookup.{Place, Located, IsMember, not_found-absent, find_slot-Located}
use foster_btree.Node.Written.{new_blocks, size, written-IsNode, written-above}

module _ {K V P : Type 0} {t : NodeType K V P} {Fits : K → V → Type 0} {image : K → V → List ℕ}
    {key_length : K → ℕ} (is : IsNodeType t Fits image key_length) {floor : ℕ} {s : SlotArray P}
    {count : ℕ} {keys : ℕ → K} {values : ℕ → V}
    (node : IsNode t Fits image floor s count keys values) (key : K) (value : V) where
  open t use {layout, key_order, encoder, construct}
  open is use {is_layout}
  open node use {represents}
  open represents use {well_formed, count_eq}

  abbrev n : ℕ
  n = new_blocks is node key value

  -- There is room for the payload, and then for the slot.
  abbrev pub HasRoom : Type 0
  HasRoom = (n * layout.alignment ≤ gap layout s) × (layout.slot_size ≤ gap layout (allocated n s))

  -- The payloads that were in the array are untouched.
  abbrev pub Keeps : SlotArray P → Type 0
  Keeps s' = (p o : ℕ) → s.payload_begin ≤ p → byte_at layout s' p o ≡ byte_at layout s p o

  -- What a call of `insert` may answer.
  abbrev pub IsInserted : Outcome (SlotArray P × Bool) → Type 0
  IsInserted (ok (s', true)) =
      (at : ℕ) × Place is node key (false, at)
      × HasRoom
      × IsNode t Fits image floor s' (count + 1) (slot_inserted at key keys)
          (slot_inserted at value values)
      × Keeps s'
  IsInserted (ok (s', false)) = (s' ≡ s) × (IsMember is node key → ⊥) × (HasRoom → ⊥)
  IsInserted (throw e) = (e ≡ existent_key) × IsMember is node key

  module _ (fits_new : Fits key value) where
    -- After the payload is allocated.
    placed :
        (at : ℕ)
        → Place is node key (false, at)
        → n * layout.alignment ≤ gap layout s
        → IsInserted (
            place_slot t key (size is node key value) at (s.payload_begin - n) (allocated n s)
            >>= λ (r : SlotArray P × Option ℕ). ok (write_record t key value r))
    unfolding place_slot write_record
    placed at place room =
        let few = blocks-le n s.payload_begin layout.alignment _ is_layout.alignment_pos room in
        let made =
          allocated-IsWellFormed layout is_layout s well_formed (size is node key value) room in
        elim (dec_lt (gap layout (allocated n s)) layout.slot_size) [
          | no room' ↦
              rw
                (insert_slot-room layout is_layout (allocated n s) made construct at
                  (rw count_eq place.0) (omega arith))
                (
                  at,
                  place,
                  (room, omega arith),
                  written-IsNode is node key value at place room (omega arith) fits_new,
                  written-above is node key value at place room (omega arith),
                )
          | yes full ↦
              rw
                (
                  insert_slot-full layout is_layout (allocated n s) made construct at
                      (rw count_eq place.0) full,
                  free_payload-eq layout is_layout is.addressable (allocated n s) made
                      (s.payload_begin - n) (size is node key value)
                      (size-le-array layout is_layout (s.payload_begin - n) (size is node key value)
                        (omega (arith, well_formed.begin_le)))
                      (omega arith) (omega (arith, well_formed.begin_le)),
                )
                (
                  freed-allocated layout s n few,
                  not_found-absent is node key at place,
                  λ r. absurd (omega (arith, r.1)),
                )
        ]

    -- After step 1.
    positioned :
        (at : ℕ)
        → Place is node key (false, at)
        → IsInserted (
            allocate_payload layout (size is node key value) s
            >>= place_payload t key (size is node key value) at
            >>= λ (r : SlotArray P × Option ℕ). ok (write_record t key value r))
    unfolding write_record place_payload
    positioned at place = elim (dec_lt (gap layout s) (n * layout.alignment)) [
      | no room ↦
          rw
            (allocate_payload-room layout is_layout s well_formed (size is node key value)
              (omega arith))
            (placed at place (omega arith))
      | yes full ↦
          rw (allocate_payload-full layout is_layout s well_formed (size is node key value) full)
            (refl, not_found-absent is node key at place, λ r. absurd (omega (arith, r.0)))
    ]

    decided :
        (b : Bool) (at : ℕ)
        → Place is node key (b, at)
        → IsInserted (
            (if b then throw existent_key else ok at)
            >>= (λ slot.
                allocate_payload layout (size is node key value) s
                >>= place_payload t key (size is node key value) slot)
            >>= λ (r : SlotArray P × Option ℕ). ok (write_record t key value r))
    decided true at place = (refl, (at, place.0, place.1))
    decided false at place = positioned at place

    -- On a sorted node that holds an increasing sequence of pairs, for a pair the encoder can read
    -- back: `insert` returns true with the pair at its place in the sequence, if the key is new and
    -- there is room for payload and slot, and leaves the blocks of all earlier payloads as they
    -- were; it returns false and leaves the state as it was, if the key is new and there is no such
    -- room; it throws ExistentKeyException, if the key is in the node. Nothing else happens.
    pub insert-IsInserted : t.sorted ≡ true → IsInserted (insert t key value s)
    unfolding insert insert_key insert_position
    insert-IsInserted sorted =
        let (r, e, place) =
          Returns-inv (find_slot t false key 0 s) (Located is node key false)
            (find_slot-Located is node key false 0 sorted) in
        let position : insert_position t key s
            ≡ (if r.found then throw existent_key else ok r.slot) =
          if_true t.sorted _ _ sorted
          ∙ ap
              (λ (m : Outcome Found).
                m >>= λ (r : Found). if r.found then throw existent_key else ok r.slot)
              e in
        rw position (decided r.found r.slot place)
