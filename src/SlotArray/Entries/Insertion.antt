-- ===== src/SlotArray/Entries/Insertion.antt =====
-- slot_array.h: `allocate_payload`, `insert_slot` and the writes into what they reserve put one
-- entry into the sequence.
use foster_btree.Prelude.{
  ℕ, ◌+◌, ◌-◌, ◌*◌, ◌≤◌, ◌<◌, ◌≡◌, ◌≢◌, refl, ◌∙◌, ap, inl, inr, Option, ltb, if◌then◌else◌, arith,
  ℕ_discrete,
}
use foster_btree.Prelude.Words.{cast, cast-small}
use foster_btree.Layout.{Layout, IsLayout, slot_ptr_word}
use foster_btree.SlotArray.Defs.{
  Slot, SlotArray, get_payload_count, byte_at, memory, with_memory, set_slot,
}
use foster_btree.SlotArray.Invariant.{
  IsWellFormed, gap, allocated, blocks-le, allocated-IsWellFormed,
}
use foster_btree.SlotArray.Slots.{
  slot_inserted, room_made, set_slot-room_made, room_made-IsWellFormed,
}
use foster_btree.Layout.{IsAddressable}
use foster_btree.SlotArray.Entries.{
  Entry, Stores, Apart, Represents, blocks_pos, byte_at-with_memory, memory-byte_at,
}

module _ (l : Layout) (is : IsLayout l) (addressable : IsAddressable l) {K : Type 0} {floor : ℕ}
    {s : SlotArray K} {count : ℕ} {entries : ℕ → Entry K} (r : Represents l floor s count entries)
    (at : ℕ) (inside : at ≤ count) (e : Entry K) (sized_e : 0 < e.size) (construct : Option K) where
  open r use {well_formed, count_eq, floor_ge, floor_le, stores, sized, apart}

  abbrev pub n : ℕ
  n = get_payload_count l e.size

  -- The pointer that `allocate_payload` hands out.
  abbrev pub fresh : ℕ
  fresh = s.payload_begin - n

  abbrev pub new_slot : Slot K
  new_slot = record { key = e.key; ptr = fresh; ghost = e.ghost }

  -- The state in which slot and payload are reserved, and the slot is set.
  abbrev pub reserved : SlotArray K
  reserved = set_slot l at new_slot (room_made construct at (allocated n s))

  module _ (room : n * l.alignment ≤ gap l s) (room' : l.slot_size ≤ gap l (allocated n s)) where
    pub few : n ≤ s.payload_begin
    few = blocks-le n s.payload_begin l.alignment _ is.alignment_pos room

    pub fresh_small : cast (slot_ptr_word l) fresh ≡ fresh
    fresh_small =
        cast-small (slot_ptr_word l) fresh
          (omega (arith, addressable.0, floor_ge, floor_le, few, blocks_pos l is e.size sized_e))

    pub reserved-slot : (i : ℕ) → i ≤ count → reserved.slots i ≡ slot_inserted at new_slot s.slots i
    reserved-slot i h = ground (
      arith,
      fresh_small,
      count_eq,
      set_slot-room_made l is (allocated n s)
          (allocated-IsWellFormed l is s well_formed e.size room) construct at (ground arith)
          new_slot i,
    )

    -- The bytes `m` of the payload area after the entry's bytes are written.
    module _ (m : ℕ → ℕ) (written : (o : ℕ) → o < e.size → m (fresh * l.alignment + o) ≡ e.bytes o)
        (untouched : (a : ℕ) → (fresh + n) * l.alignment ≤ a → m a ≡ memory l reserved a) where
      abbrev pub final : SlotArray K
      final = with_memory l m reserved

      pub old_bytes : (p o : ℕ) → s.payload_begin ≤ p → byte_at l final p o ≡ byte_at l s p o
      unfolding set_slot
      old_bytes p o h =
          byte_at-with_memory l is m reserved p o
          ∙ (untouched (p * l.alignment + o) (grind (arith, few))
              ∙ memory-byte_at l is reserved p o)

      old-Stores : (i : ℕ) → i < count → Stores l floor final (s.slots i) (entries i)
      unfolding with_memory set_slot
      old-Stores i h = record {
        key_eq = (stores i h).key_eq;
        ghost_eq = (stores i h).ghost_eq;
        after_begin = omega (arith, (stores i h).after_begin);
        before_floor = (stores i h).before_floor;
        bytes_eq =
            λ o q. old_bytes (s.slots i).ptr o (stores i h).after_begin ∙ (stores i h).bytes_eq o q;
      }

      new-Stores : Stores l floor final new_slot e
      unfolding with_memory set_slot
      new-Stores = record {
        key_eq = refl;
        ghost_eq = refl;
        after_begin = omega arith;
        before_floor = omega (arith, few, floor_ge);
        bytes_eq = λ o q. byte_at-with_memory l is m reserved fresh o ∙ written o q;
      }

      -- Where slot `i` was before, if it is not the new one.
      abbrev old : ℕ → ℕ
      old i = if ltb i at then i else i - 1

      final-entry :
          (i : ℕ)
          → i < count + 1
          → i ≢ at
          → (final.slots i ≡ s.slots (old i))
            × (slot_inserted at e entries i ≡ entries (old i))
            × (old i < count)
      unfolding with_memory
      final-entry i h ne = ground (arith, reserved-slot i)

      pub final-new : (final.slots at ≡ new_slot) × (slot_inserted at e entries at ≡ e)
      unfolding with_memory
      final-new = ground (arith, reserved-slot at)

      final-Stores :
          (i : ℕ)
          → i < count + 1
          → Stores l floor final (final.slots i) (slot_inserted at e entries i)
      final-Stores i h = elim (ℕ_discrete i at) [
        | yes is_new ↦ rw is_new (rw (final-new.0) (rw (final-new.1) new-Stores))
        | no ne ↦
            let (slot_eq, entry_eq, in_range) = final-entry i h ne in
            rw slot_eq (rw entry_eq (old-Stores (old i) in_range))
      ]

      old-Apart-new :
          (i : ℕ)
          → i < count
          → Apart l new_slot (s.slots i) e (entries i) × Apart l (s.slots i) new_slot (entries i) e
      old-Apart-new i h = (
        inl (omega (arith, few, (stores i h).after_begin)),
        inr (omega (arith, few, (stores i h).after_begin)),
      )

      final-Apart :
          (i j : ℕ)
          → i < count + 1
          → j < count + 1
          → i ≢ j
          → Apart l
              (final.slots i)
              (final.slots j)
              (slot_inserted at e entries i)
              (slot_inserted at e entries j)
      final-Apart i j hi hj ne = elim (ℕ_discrete i at) [
        | yes i_new ↦
            let (slot_eq, entry_eq, in_range) = final-entry j hj (λ j_new. ground arith) in
            rw (i_new, final-new.0, slot_eq)
              (rw (final-new.1, entry_eq) (old-Apart-new (old j) in_range).0)
        | no i_old ↦ elim (ℕ_discrete j at) [
          | yes j_new ↦
              let (slot_eq, entry_eq, in_range) = final-entry i hi i_old in
              rw (j_new, final-new.0, slot_eq)
                (rw (final-new.1, entry_eq) (old-Apart-new (old i) in_range).1)
          | no j_old ↦
              let (slot_i, entry_i, range_i) = final-entry i hi i_old in
              let (slot_j, entry_j, range_j) = final-entry j hj j_old in
              rw (slot_i, slot_j)
                (rw (entry_i, entry_j) (apart (old i) (old j) range_i range_j (ground arith)))
        ]
      ]

      final-sized : (i : ℕ) → i < count + 1 → 0 < (slot_inserted at e entries i).size
      final-sized i h = elim (ℕ_discrete i at) [
        | yes is_new ↦ rw is_new (rw final-new.1 sized_e)
        | no ne ↦
            let (slot_eq, entry_eq, in_range) = final-entry i h ne in
            rw entry_eq (sized (old i) in_range)
      ]

      reserved-IsWellFormed : IsWellFormed l final
      unfolding set_slot with_memory
      reserved-IsWellFormed =
          let made =
            room_made-IsWellFormed l is (allocated n s)
              (allocated-IsWellFormed l is s well_formed e.size room) construct at
              (rw count_eq inside) room' in
          record { begin_le = made.begin_le; apart = made.apart }

      -- The entry is in the sequence, at its place.
      pub insert_entry-Represents :
          Represents l floor final (count + 1) (slot_inserted at e entries)
      unfolding set_slot with_memory
      insert_entry-Represents = record {
        well_formed = reserved-IsWellFormed;
        count_eq = ap (λ k. k + 1) count_eq;
        floor_ge = omega (arith, floor_ge);
        floor_le = floor_le;
        stores = final-Stores;
        sized = final-sized;
        apart = final-Apart;
      }
