-- ===== src/Node/Written.antt =====
-- node.h: the state after `insert` wrote a record where it found room.
use foster_btree.Prelude.{
  ℕ, ◌+◌, ◌*◌, ◌≤◌, ◌<◌, ◌≡◌, refl, ◌∙◌, ap, inl, inr, true, false, List, ltb, ◌==◌, arith,
  Bool-cases, fun_ext, subst, ℕ_discrete,
}
use foster_btree.Bytes.{nth, memcpy-inside, memcpy-outside}
use foster_btree.SlotArray.Defs.{Slot, SlotArray, memory, with_memory, get_payload_count, byte_at}
use foster_btree.SlotArray.Invariant.{gap, allocated}
use foster_btree.SlotArray.Slots.{slot_inserted, older, slot_inserted-older, slot_inserted-new}
use foster_btree.SlotArray.Entries.{Entry, Represents, size-le-blocks}
use foster_btree.SlotArray.Entries.Insertion.{
  fresh, reserved, reserved-slot, insert_entry-Represents, old_bytes,
}
use foster_btree.Node.Defs.{NodeType, payload_for_slot}
use foster_btree.Node.Rep.{IsNodeType, IsNode, entry_of}
use foster_btree.Node.Lookup.{Place}

module _ {K V P : Type 0} {t : NodeType K V P} {Fits : K → V → Type 0} {image : K → V → List ℕ}
    {key_length : K → ℕ} (is : IsNodeType t Fits image key_length) {floor : ℕ} {s : SlotArray P}
    {count : ℕ} {keys : ℕ → K} {values : ℕ → V}
    (node : IsNode t Fits image floor s count keys values) (key : K) (value : V) where
  open t use {layout, key_order, encoder, construct}
  open is use {is_layout, is_encoder, addressable}
  open node use {represents, fits, increasing}

  abbrev pub new_entry : Entry P
  new_entry = entry_of t Fits image key value

  abbrev pub size : ℕ
  size = encoder.length_of key value

  -- The blocks of the new payload.
  abbrev pub new_blocks : ℕ
  new_blocks = get_payload_count layout size

  module _ (at : ℕ) (place : Place is node key (false, at)) where
    abbrev pub inside : at ≤ count
    inside = place.0

    abbrev pub sized : 0 < new_entry.size
    sized = is_encoder.length_pos key value

    abbrev pub held : SlotArray P
    held = reserved layout is_layout addressable represents at inside new_entry sized construct

    abbrev pub ptr : ℕ
    ptr = fresh layout is_layout addressable represents at inside new_entry sized construct

    module _ (room : new_blocks * layout.alignment ≤ gap layout s)
        (room' : layout.slot_size ≤ gap layout (allocated new_blocks s)) where
      held-ptr : (held.slots at).ptr ≡ ptr
      held-ptr =
          ap (λ (slot : Slot P). slot.ptr)
            (reserved-slot layout is_layout addressable represents at inside new_entry sized
                construct room room' at inside
              ∙ slot_inserted-new at _ s.slots)

      -- The state after the record is written.
      abbrev pub written : SlotArray P
      written =
          with_memory layout
            (encoder.encode (memory layout held) (payload_for_slot t held at) key value) held

      encoded-inside :
          (o : ℕ)
          → o < size
          → encoder.encode
              (memory layout held)
              (payload_for_slot t held at)
              key
              value
              (ptr * layout.alignment + o)
            ≡ nth (image key value) o
      encoded-inside o h =
          rw (held-ptr, is_encoder.writes (memory layout held) (ptr * layout.alignment) key value)
            (memcpy-inside (memory layout held) (ptr * layout.alignment) (image key value) o
              (omega (arith, is_encoder.length-image key value)))

      encoded-outside :
          (a : ℕ)
          → (ptr + new_blocks) * layout.alignment ≤ a
          → encoder.encode (memory layout held) (payload_for_slot t held at) key value a
            ≡ memory layout held a
      encoded-outside a h =
          rw (held-ptr, is_encoder.writes (memory layout held) (ptr * layout.alignment) key value)
            (memcpy-outside (memory layout held) (ptr * layout.alignment) (image key value) a (
              inr (
                grind (
                  arith,
                  is_encoder.length-image key value,
                  size-le-blocks layout is_layout size,
                ))))

      entries-inserted :
          slot_inserted at new_entry (λ i. entry_of t Fits image (keys i) (values i)) ≡ (λ i.
            entry_of t Fits image (slot_inserted at key keys i) (slot_inserted at value values i))
      entries-inserted = fun_ext (λ i. elim (Bool-cases (ltb i at)) [
        | inl e ↦ rw e refl
        | inr e ↦ elim (Bool-cases (i == at)) [ inl f ↦ rw (e, f) refl | inr f ↦ rw (e, f) refl ]
      ])

      inserted-fits :
          Fits key value
          → (i : ℕ) → i < count + 1
          → Fits (slot_inserted at key keys i) (slot_inserted at value values i)
      inserted-fits fits_new i h = elim (ℕ_discrete i at) [
        | yes e ↦ rw (e, slot_inserted-new at key keys, slot_inserted-new at value values) fits_new
        | no ne ↦
            rw (slot_inserted-older at key keys i ne, slot_inserted-older at value values i ne)
              (fits (older at i) (ground (arith, place.0)))
      ]

      inserted-increasing :
          (i j : ℕ)
          → i < j
          → j < count + 1
          → key_order.lt (slot_inserted at key keys i) (slot_inserted at key keys j) ≡ true
      inserted-increasing i j lt h = elim (ℕ_discrete i at) [
        | yes e ↦
            rw (e, slot_inserted-new at key keys, slot_inserted-older at key keys j (ground arith))
              (place.2 (older at j) (ground arith) (ground arith))
        | no ne ↦ elim (ℕ_discrete j at) [
          | yes f ↦
              rw (f, slot_inserted-new at key keys, slot_inserted-older at key keys i ne)
                (place.1 (older at i) (ground arith))
          | no nf ↦
              rw (slot_inserted-older at key keys i ne, slot_inserted-older at key keys j nf)
                (increasing (older at i) (older at j) (ground arith) (ground arith))
        ]
      ]

      pub written-IsNode :
          Fits key value
          → IsNode t Fits image floor written
              (count + 1)
              (slot_inserted at key keys)
              (slot_inserted at value values)
      written-IsNode fits_new = record {
        represents = subst (Represents layout floor written (count + 1)) entries-inserted (
            insert_entry-Represents layout is_layout addressable represents at inside new_entry
              sized construct room room' _ encoded-inside encoded-outside);
        fits = inserted-fits fits_new;
        increasing = inserted-increasing;
      }

      -- The payloads that were there before are untouched.
      pub written-above :
          (p o : ℕ) → s.payload_begin ≤ p → byte_at layout written p o ≡ byte_at layout s p o
      written-above p o h =
          old_bytes layout is_layout addressable represents at inside new_entry sized construct room
            room' _ encoded-inside encoded-outside p o h
