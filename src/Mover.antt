-- ===== src/Mover.antt =====
-- move_records.h: moving slots with their payloads from one slot array to another.
pub mod Drop
pub mod Copy
pub mod Move
use foster_btree.Prelude.{
  ℕ, zero, suc, ◌+◌, ◌-◌, ◌*◌, ◌/◌, ◌%◌, Bool, true, false, Option, none, some, leb, ltb, ◌==◌,
  if◌then◌else◌,
}
use foster_btree.Prelude.Words.{cast, sub_mod}
use foster_btree.Prelude.Outcome.{Outcome, ok, ◌>>=◌, ◌>>◌, assert}
use foster_btree.Layout.{Layout, slot_word, ptr_word}
use foster_btree.Bytes.{Memory, memcpy, read}
use foster_btree.SlotArray.Defs.{
  Slot, SlotArray, memory, with_memory, set_slot, allocate_payload, free_payload, insert_slot,
  delete_slot,
}

-- `length_at` is `Encoder::get_payload_length(void*)`; `construct` is as in `insert_slot`.
module _ (length_at : Memory → ℕ → ℕ) {K : Type 0} where
  -- The body of both loops that delete: the payload and the slot `i` go.
  unfoldable pub drop_slot : (l : Layout) (i : ℕ) → SlotArray K → Outcome (SlotArray K)
  drop_slot l i s = do
    s' ← free_payload l (s.slots i).ptr (length_at (memory l s) ((s.slots i).ptr * l.alignment)) s
    delete_slot l i s'

  -- `while (i > first) { i--; ... }`, with `rounds` slots left from `first` on.
  unfoldable pub drop_slots : (l : Layout) (first rounds : ℕ) → SlotArray K → Outcome (SlotArray K)
  drop_slots l first zero s = ok s
  drop_slots l first (suc rounds) s = do
    s' ← drop_slot l (first + rounds) s
    drop_slots l first rounds s'

  module _ (ld ls : Layout) (construct : Option K) (src : SlotArray K) where
    -- Step 3 of the copying loop: slot `i` goes to slot `j` and the payload at `ptr`.
    unfoldable pub copy_slot : (i j length ptr : ℕ) → SlotArray K → SlotArray K
    copy_slot i j length ptr dest =
        let dest' =
          set_slot ld j (record { key = (src.slots i).key; ptr = ptr; ghost = (src.slots i).ghost })
            dest in
        with_memory ld
          (memcpy (memory ld dest') (ptr * ld.alignment)
            (read (memory ls src) ((src.slots i).ptr * ls.alignment) length))
          dest'

    -- What step 2, the allocation, returned.
    unfoldable pub copy_payload :
        (i j length : ℕ) → SlotArray K × Option ℕ → Outcome (SlotArray K × Bool)
    copy_payload i j length (dest, none) = delete_slot ld j dest >>= λ dest'. ok (dest', false)
    copy_payload i j length (dest, some ptr) = ok (copy_slot i j length ptr dest, true)

    -- What step 1, the insertion of a slot, returned.
    unfoldable pub copy_inserted : (i j : ℕ) → SlotArray K × Bool → Outcome (SlotArray K × Bool)
    copy_inserted i j (dest, false) = ok (dest, false)
    copy_inserted i j (dest, true) =
        let length = length_at (memory ls src) ((src.slots i).ptr * ls.alignment) in
        allocate_payload ld length dest >>= copy_payload i j length

    -- The copying loop: it ends with the number of slots copied, and whether all were.
    unfoldable pub copy_slots :
        (rounds i j copied : ℕ) → SlotArray K → Outcome (SlotArray K × ℕ × Bool)
    copy_slots zero i j copied dest = ok (dest, copied, true)
    copy_slots (suc rounds) i j copied dest =
        insert_slot ld construct j dest >>= copy_inserted i j >>= λ (r : SlotArray K × Bool).
        elim r.1 [
          | false ↦ ok (r.0, copied, false)
          | true ↦
              copy_slots rounds (cast (slot_word ld) (i + 1)) (cast (slot_word ld) (j + 1))
                (copied + 1) r.0
        ]

    -- What follows the loop: roll back, or delete the copied slots of the source.
    unfoldable pub complete :
        (move : Bool) (dest_slot src_slot : ℕ)
        → SlotArray K × ℕ × Bool
        → Outcome (SlotArray K × SlotArray K × Bool)
    complete move dest_slot src_slot (dest, copied, false) =
        drop_slots ld dest_slot copied dest >>= λ dest'. ok (dest', src, false)
    complete true dest_slot src_slot (dest, copied, true) =
        drop_slots ls src_slot copied src >>= λ src'. ok (dest, src', true)
    complete false dest_slot src_slot (dest, copied, true) = ok (dest, src, true)

    -- `RecordMover::move_records`: the two arrays afterwards, and what the call returns. The
    -- assertion after the loop, `i == last_slot + 1`, holds by the way the loop ends.
    unfoldable pub move_records :
        (dest : SlotArray K) (dest_slot src_slot slot_count : ℕ) (move : Bool)
        → Outcome (SlotArray K × SlotArray K × Bool)
    move_records dest dest_slot src_slot slot_count move =
        let last_slot = sub_mod (slot_word ld) (cast (slot_word ld) (src_slot + slot_count)) 1 in
        assert (ltb last_slot src.slot_end)
        >> copy_slots (last_slot + 1 - src_slot) src_slot dest_slot 0 dest
        >>= complete move dest_slot src_slot

  -- `preallocate_slots`: its first loop, with the number of slots inserted.
  unfoldable pub insert_slots :
      (l : Layout) (construct : Option K) (rounds inserted : ℕ)
      → SlotArray K
      → Outcome (SlotArray K × ℕ × Bool)
  insert_slots l construct zero inserted s = ok (s, inserted, true)
  insert_slots l construct (suc rounds) inserted s =
      insert_slot l construct s.slot_end s >>= λ (r : SlotArray K × Bool). elim r.1 [
        | false ↦ ok (r.0, inserted, false)
        | true ↦ insert_slots l construct rounds (inserted + 1) r.0
      ]

  -- Its last loop: slot `slot` is deleted `rounds` times.
  unfoldable pub delete_slots : (l : Layout) (slot rounds : ℕ) → SlotArray K → Outcome (SlotArray K)
  delete_slots l slot zero s = ok s
  delete_slots l slot (suc rounds) s = delete_slot l slot s >>= delete_slots l slot rounds

  -- `none` is the result false; `some` is true, with `slot_dest` and `dest_ptr`.
  unfoldable pub allocate_or_delete :
      (l : Layout) (payload_count slot : ℕ)
      → SlotArray K × ℕ × Bool
      → Outcome (SlotArray K × Option (ℕ × ℕ))
  allocate_or_delete l payload_count slot (s, inserted, false) =
      delete_slots l slot inserted s >>= λ s'. ok (s', none)
  allocate_or_delete l payload_count slot (s, inserted, true) =
      allocate_payload l (payload_count * l.alignment) s >>= λ (r : SlotArray K × Option ℕ).
      elim r.1 [
        | some ptr ↦ ok (r.0, some (slot, ptr))
        | none ↦ delete_slots l slot inserted r.0 >>= λ s'. ok (s', none)
      ]

  unfoldable pub preallocate_slots :
      (l : Layout) (construct : Option K) (slot_count payload_count : ℕ)
      → SlotArray K
      → Outcome (SlotArray K × Option (ℕ × ℕ))
  preallocate_slots l construct slot_count payload_count s =
      insert_slots l construct slot_count 0 s >>= allocate_or_delete l payload_count s.slot_end

  -- `copy_records_prealloc`: its loop, with `rounds` slots left.
  unfoldable pub copy_prealloc_from :
      (ld ls : Layout) (src : SlotArray K) (rounds i j ptr : ℕ) → SlotArray K → SlotArray K
  copy_prealloc_from ld ls src zero i j ptr dest = dest
  copy_prealloc_from ld ls src (suc rounds) i j ptr dest =
      let length = length_at (memory ls src) ((src.slots i).ptr * ls.alignment) in
      copy_prealloc_from ld ls src rounds (cast (slot_word ld) (i + 1))
        (cast (slot_word ld) (j + 1))
        (cast (ptr_word ld)
          (ptr + length / ld.alignment + (if length % ld.alignment == 0 then 0 else 1)))
        (copy_slot ld ls none src i j length ptr dest)

  unfoldable pub copy_records_prealloc :
      (ld ls : Layout) (src : SlotArray K) (dest : SlotArray K)
      (dest_slot dest_payload src_slot slot_count : ℕ)
      → Outcome (SlotArray K)
  copy_records_prealloc ld ls src dest dest_slot dest_payload src_slot slot_count =
      let last_slot = sub_mod (slot_word ld) (cast (slot_word ld) (src_slot + slot_count)) 1 in
      assert (ltb last_slot src.slot_end)
      >> ok (
          copy_prealloc_from ld ls src (last_slot + 1 - src_slot) src_slot dest_slot dest_payload
            dest)
