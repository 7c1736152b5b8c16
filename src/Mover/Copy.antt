-- ===== src/Mover/Copy.antt =====
-- move_records.h: a round of the copying loop puts one entry of the source into the destination.
use native.Mathlib.Nat.{mul-sub}
use foster_btree.Prelude.{
  ℕ, ◌+◌, ◌-◌, ◌*◌, ◌≤◌, ◌<◌, ◌≡◌, ◌≢◌, ◌∙◌, inr, Bool, true, false, Option, arith, dec_lt,
}
use foster_btree.Prelude.Outcome.{◌>>=◌, Returns}
use foster_btree.Layout.{Layout, IsLayout}
use foster_btree.Bytes.{Memory, memcpy, read, memcpy-inside, memcpy-outside, length-read, nth-read}
use foster_btree.SlotArray.Defs.{
  Slot, SlotArray, memory, allocate_payload, insert_slot, get_payload_count,
}
use foster_btree.SlotArray.Invariant.{
  IsWellFormed, gap, allocated, allocate_payload-full, allocate_payload-room,
}
use foster_btree.SlotArray.Slots.{
  slot_inserted, room_made, room_closed, insert_slot-full, insert_slot-room, room_made-IsWellFormed,
  construct_at-other, delete_slot-eq, room_closed-slots,
}
use foster_btree.SlotArray.Moves.{memmove}
use foster_btree.Layout.{IsAddressable}
use foster_btree.SlotArray.Entries.{Entry, Represents, Stores-slots, memory-byte_at, size-le-blocks}
use foster_btree.SlotArray.Entries.Insertion.{insert_entry-Represents}
use foster_btree.Mover.{copy_slot, copy_payload, copy_inserted}
use foster_btree.Mover.Drop.{IsMeasured, length_at-entry}

-- What an array represents depends on its used slots alone.
pub Represents-agrees :
    (l : Layout) {K : Type 0} {floor : ℕ} {s : SlotArray K} {count : ℕ} {entries : ℕ → Entry K}
    (r : Represents l floor s count entries) (slot_end : ℕ) (slots : ℕ → Slot K)
    → slot_end ≡ s.slot_end
    → ((i : ℕ) → i < count → slots i ≡ s.slots i)
    → Represents l floor (record s { slot_end = slot_end; slots = slots }) count entries
Represents-agrees l r slot_end slots e same = record {
  well_formed = record { begin_le = r.well_formed.begin_le; apart = rw e (r.well_formed.apart) };
  count_eq = e ∙ r.count_eq;
  floor_ge = r.floor_ge;
  floor_le = r.floor_le;
  stores = λ i h. rw (same i h) (Stores-slots l (r.stores i h) slot_end slots);
  sized = r.sized;
  apart = λ i j hi hj ne. rw (same i hi, same j hj) (r.apart i j hi hj ne);
}

module _ (length_at : Memory → ℕ → ℕ) (ld ls : Layout) (isd : IsLayout ld) (iss : IsLayout ls)
    (addressable : IsAddressable ld) (addressable' : IsAddressable ls) {K : Type 0}
    (construct : Option K) {floor floor' : ℕ} {src : SlotArray K} {count' : ℕ} {moved : ℕ → Entry K}
    (r' : Represents ls floor' src count' moved) (i : ℕ) (used : i < count')
    (measured : IsMeasured length_at (moved i)) {dest : SlotArray K} {count : ℕ}
    {entries : ℕ → Entry K} (r : Represents ld floor dest count entries) (j : ℕ)
    (inside : j ≤ count) where
  abbrev size : ℕ
  size = (moved i).size

  abbrev n : ℕ
  n = get_payload_count ld size

  -- What a round leaves.
  abbrev pub Copied : SlotArray K × Bool → Type 0
  Copied (dest', true) = Represents ld floor dest' (count + 1) (slot_inserted j (moved i) entries)
  Copied (dest', false) = Represents ld floor dest' count entries

  module _ (room : ld.slot_size ≤ gap ld dest) where
    abbrev made : SlotArray K
    made = room_made construct j dest

    made-IsWellFormed : IsWellFormed ld made
    made-IsWellFormed =
        room_made-IsWellFormed ld isd dest r.well_formed construct j (rw (r.count_eq) inside) room

    made-slots : (k : ℕ) → k ≢ j → made.slots k ≡ memmove (j + 1) j (dest.slot_end - j) dest.slots k
    made-slots k ne = construct_at-other construct j _ k ne

    closed-slots : (k : ℕ) → k < count → (room_closed j made).slots k ≡ dest.slots k
    closed-slots k h = ground (
      arith,
      r.count_eq,
      inside,
      made-slots k,
      made-slots (k + 1),
      room_closed-slots ld isd made made-IsWellFormed j (omega (arith, r.count_eq)) k
          (omega (arith, r.count_eq)),
    )

    -- The slot that was inserted goes again.
    closed-Represents : Represents ld floor (room_closed j made) count entries
    closed-Represents =
        Represents-agrees ld r (made.slot_end - 1) (room_closed j made).slots (omega arith)
          closed-slots

    module _ (room' : n * ld.alignment ≤ gap ld made) where
      before_slot : n * ld.alignment ≤ gap ld dest
      before_slot = omega (arith, room')

      after_payload : ld.slot_size ≤ gap ld (allocated n dest)
      after_payload = grind (arith, room, room', mul-sub ld.alignment dest.payload_begin n)

      abbrev source : ℕ
      source = (src.slots i).ptr * ls.alignment

      written_bytes :
          (m : Memory) (o : ℕ)
          → o < size
          → memcpy m
              ((dest.payload_begin - n) * ld.alignment)
              (read (memory ls src) source size)
              ((dest.payload_begin - n) * ld.alignment + o)
            ≡ (moved i).bytes o
      written_bytes m o h =
          memcpy-inside m _ (read (memory ls src) source size) o
            (omega (arith, length-read (memory ls src) source size))
          ∙ (nth-read (memory ls src) source size o h
              ∙ (memory-byte_at ls iss src (src.slots i).ptr o ∙ (r'.stores i used).bytes_eq o h))

      other_bytes :
          (m : Memory) (a : ℕ)
          → (dest.payload_begin - n + n) * ld.alignment ≤ a
          → memcpy m ((dest.payload_begin - n) * ld.alignment) (read (memory ls src) source size) a
            ≡ m a
      other_bytes m a h =
          memcpy-outside m _ (read (memory ls src) source size) a (
            inr
              (grind (arith, length-read (memory ls src) source size, size-le-blocks ld isd size)))

      copied-Represents :
          Represents ld floor
            (copy_slot length_at ld ls construct src i j size
              (dest.payload_begin - n)
              (allocated n made))
            (count + 1)
            (slot_inserted j (moved i) entries)
      unfolding copy_slot
      copied-Represents =
          rw ((r'.stores i used).key_eq, (r'.stores i used).ghost_eq)
            (insert_entry-Represents ld isd addressable r j inside (moved i) (r'.sized i used)
              construct before_slot after_payload _ (written_bytes _) (other_bytes _))

    -- What the allocation of the payload leads to.
    after_slot :
        Returns
          (allocate_payload ld size made >>= copy_payload length_at ld ls construct src i j size)
          Copied
    unfolding copy_payload
    after_slot = elim (dec_lt (gap ld made) (n * ld.alignment)) [
      | yes full ↦
          rw
            (
              allocate_payload-full ld isd made made-IsWellFormed size full,
              delete_slot-eq ld isd made made-IsWellFormed j (omega (arith, r.count_eq)),
            )
            closed-Represents
      | no fits ↦
          rw (allocate_payload-room ld isd made made-IsWellFormed size (omega arith))
            (copied-Represents (omega arith))
    ]

  -- A round of the loop, with its slot taken back if there is no room for the payload.
  pub copy_inserted-Copied :
      Returns
        (insert_slot ld construct j dest >>= copy_inserted length_at ld ls construct src i j)
        Copied
  unfolding copy_inserted copy_payload
  copy_inserted-Copied = elim (dec_lt (gap ld dest) ld.slot_size) [
    | yes full ↦
        rw (insert_slot-full ld isd dest r.well_formed construct j (rw (r.count_eq) inside) full) r
    | no room ↦
        let fits : ld.slot_size ≤ gap ld dest = omega arith in
        rw
          (
            insert_slot-room ld isd dest r.well_formed construct j (rw (r.count_eq) inside) fits,
            length_at-entry length_at ls iss addressable' r' i used measured,
          )
          (after_slot fits)
  ]
