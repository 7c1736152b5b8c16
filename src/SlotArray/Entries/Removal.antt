-- ===== src/SlotArray/Entries/Removal.antt =====
-- slot_array.h: `free_payload` and `delete_slot` take one entry out of the sequence.
use foster_btree.Prelude.{ℕ, ◌+◌, ◌-◌, ◌/◌, ◌≤◌, ◌<◌, ◌≡◌, ◌≢◌, ap, ◌⊎◌, ltb, if◌then◌else◌, arith}
use foster_btree.Prelude.Words.{cast-small}
use foster_btree.Prelude.Outcome.{ok}
use foster_btree.Layout.{Layout, IsLayout, slot_ptr_word}
use foster_btree.SlotArray.Defs.{SlotArray, free_payload, delete_slot}
use foster_btree.SlotArray.Invariant.{IsWellFormed}
use foster_btree.SlotArray.Slots.{
  slot_deleted, room_closed, delete_slot-eq, room_closed-slots, room_closed-IsWellFormed,
}
use foster_btree.Layout.{IsAddressable}
use foster_btree.SlotArray.Regions.{freed, free_payload-eq}
use foster_btree.SlotArray.Entries.{
  Entry, blocks, Stores, Apart, Represents, Stores-slots, size-le-array, block-lt, blocks_pos,
}

module _ (l : Layout) (is : IsLayout l) (addressable : IsAddressable l) {K : Type 0} {floor : ℕ}
    {s : SlotArray K} {count : ℕ} {entries : ℕ → Entry K} (r : Represents l floor s count entries)
    (at : ℕ) (inside : at < count) where
  open r use {well_formed, count_eq, floor_ge, floor_le, stores, sized, apart}

  -- The payload that goes: `gone` is its pointer, and it takes `d` blocks.
  abbrev gone : ℕ
  gone = (s.slots at).ptr

  abbrev d : ℕ
  d = blocks l (entries at)

  abbrev after : SlotArray K
  after = freed l gone d s

  module _ (i : ℕ) (used : i < count) (other : i ≢ at) where
    abbrev p : ℕ
    p = (s.slots i).ptr

    abbrev n : ℕ
    n = blocks l (entries i)

    -- Where the payload lies.
    place :
        (s.payload_begin ≤ p)
        × (p + n ≤ floor)
        × (0 < n)
        × ((p + n ≤ gone) ⊎ (gone + d ≤ p))
        × (s.payload_begin ≤ gone)
    place = (
      (stores i used).after_begin,
      (stores i used).before_floor,
      blocks_pos l is (entries i).size (sized i used),
      apart i at used inside other,
      (stores at inside).after_begin,
    )

    -- Its pointer moves up if it lies before the payload that goes.
    abbrev p' : ℕ
    p' = if ltb p gone then p + d else p

    after-slot : after.slots i ≡ record (s.slots i) { ptr = p' }
    after-slot = ground (
      arith,
      addressable,
      count_eq,
      floor_le,
      place,
      (stores at inside).before_floor,
      cast-small (slot_ptr_word l) (p + d),
    )

    after-block : (b : ℕ) → b < n → after.payloads (p' + b) ≡ s.payloads (p + b)
    after-block b h = ground (arith, place)

    after-Stores : Stores l floor after (after.slots i) (entries i)
    after-Stores = rw after-slot (record {
      key_eq = (stores i used).key_eq;
      ghost_eq = (stores i used).ghost_eq;
      after_begin = ground (arith, place);
      before_floor = ground (arith, place, (stores at inside).before_floor);
      bytes_eq = λ o h.
          rw (after-block (o / l.alignment) (block-lt l is (entries i).size o h))
            ((stores i used).bytes_eq o h);
    })

  after-Apart :
      (i j : ℕ)
      → i < count
      → j < count
      → i ≢ at
      → j ≢ at
      → i ≢ j
      → Apart l (after.slots i) (after.slots j) (entries i) (entries j)
  after-Apart i j hi hj ni nj ne =
      rw (after-slot i hi ni, after-slot j hj nj)
        (ground (arith, place i hi ni, place j hj nj, apart i j hi hj ne))

  after-IsWellFormed : IsWellFormed l after
  after-IsWellFormed = record {
    begin_le =
        omega (arith, floor_le, (stores at inside).before_floor, (stores at inside).after_begin);
    apart = grind (arith, well_formed.apart);
  }

  abbrev pub result : SlotArray K
  result = room_closed at after

  result-slot : (i : ℕ) → i < count - 1 → result.slots i ≡ slot_deleted at after.slots i
  result-slot i h =
      room_closed-slots l is after after-IsWellFormed at (rw count_eq inside) i
        (omega (arith, count_eq))

  -- Where entry `i` of the shorter sequence was before.
  abbrev before : ℕ → ℕ
  before i = if ltb i at then i else i + 1

  result-entry :
      (i : ℕ)
      → i < count - 1
      → (result.slots i ≡ after.slots (before i)) × (slot_deleted at entries i ≡ entries (before i))
  result-entry i h = ground (arith, result-slot i)

  result-Stores :
      (i : ℕ) → i < count - 1 → Stores l floor result (result.slots i) (slot_deleted at entries i)
  result-Stores i h = rw (result-entry i h).0 (
      rw (result-entry i h).1 (
        Stores-slots l (after-Stores (before i) (ground arith) (ground arith)) (after.slot_end - 1)
          result.slots))

  result-Apart :
      (i j : ℕ)
      → i < count - 1
      → j < count - 1
      → i ≢ j
      → Apart l
          (result.slots i)
          (result.slots j)
          (slot_deleted at entries i)
          (slot_deleted at entries j)
  result-Apart i j hi hj ne =
      rw ((result-entry i hi).0, (result-entry j hj).0)
        (rw ((result-entry i hi).1, (result-entry j hj).1)
          (after-Apart (before i) (before j) (ground arith) (ground arith) (ground arith)
            (ground arith) (ground arith)))

  -- On an array that represents a sequence of entries, in a layout whose slots can hold every block
  -- position and whose blocks an `int` can count: freeing the payload of a used slot and deleting
  -- the slot both return, and the array then represents the sequence without that entry, all other
  -- entries with their key, ghost bit and bytes.
  pub remove_entry-Represents :
      (free_payload l gone (entries at).size s ≡ ok after)
      × (delete_slot l at after ≡ ok result)
      × Represents l floor result (count - 1) (slot_deleted at entries)
  remove_entry-Represents = (
    free_payload-eq l is addressable s well_formed gone (entries at).size
        (size-le-array l is gone (entries at).size
          (omega (arith, floor_le, (stores at inside).before_floor)))
        (stores at inside).after_begin (omega (arith, floor_le, (stores at inside).before_floor)),
    delete_slot-eq l is after after-IsWellFormed at (rw count_eq inside),
    record {
      well_formed = room_closed-IsWellFormed l is after after-IsWellFormed at (rw count_eq inside);
      count_eq = ap (λ n. n - 1) count_eq;
      floor_ge = omega (arith, (stores at inside).before_floor, (stores at inside).after_begin);
      floor_le = floor_le;
      stores = result-Stores;
      sized = λ i h. rw (result-entry i h).1 (sized (before i) (ground arith));
      apart = result-Apart;
    },
  )
