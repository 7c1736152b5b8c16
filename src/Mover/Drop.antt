-- ===== src/Mover/Drop.antt =====
-- move_records.h: the loops that delete slots take a range out of the sequence.
use foster_btree.Prelude.{ℕ, zero, suc, ◌+◌, ◌-◌, ◌*◌, ◌≤◌, ◌<◌, ◌≡◌, ◌∙◌, arith}
use foster_btree.Prelude.Outcome.{Returns, Returns->>=}
use foster_btree.Layout.{Layout, IsLayout}
use foster_btree.Bytes.{Memory}
use foster_btree.SlotArray.Defs.{SlotArray, memory}
use foster_btree.SlotArray.Slots.{slot_deleted, before, slot_deleted-at}
use foster_btree.Layout.{IsAddressable}
use foster_btree.SlotArray.Entries.{Entry, Represents, memory-byte_at}
use foster_btree.SlotArray.Entries.Removal.{remove_entry-Represents}
use foster_btree.Mover.{drop_slot, drop_slots}

-- The encoder finds the length of an entry's bytes wherever they lie in memory.
abbrev pub IsMeasured : {K : Type 0} → (Memory → ℕ → ℕ) → Entry K → Type 0
IsMeasured length_at e =
    (m : Memory) (a : ℕ) → ((o : ℕ) → o < e.size → m (a + o) ≡ e.bytes o) → length_at m a ≡ e.size

-- A sequence without its `n` members from `first` on.
abbrev pub cut : {A : Type 0} → (first n : ℕ) → (ℕ → A) → ℕ → A
cut first zero f = f
cut first (suc n) f = cut first n (slot_deleted (first + n) f)

module _ (length_at : Memory → ℕ → ℕ) (l : Layout) (is : IsLayout l) (addressable : IsAddressable l)
    {K : Type 0} {floor : ℕ} where
  module _ {s : SlotArray K} {count : ℕ} {entries : ℕ → Entry K}
      (r : Represents l floor s count entries) (at : ℕ) (inside : at < count)
      (measured : IsMeasured length_at (entries at)) where
    pub length_at-entry :
        length_at (memory l s) ((s.slots at).ptr * l.alignment) ≡ (entries at).size
    length_at-entry =
        measured (memory l s) ((s.slots at).ptr * l.alignment)
          (λ o h. memory-byte_at l is s (s.slots at).ptr o ∙ (r.stores at inside).bytes_eq o h)

    drop_slot-Represents :
        Returns
          (drop_slot length_at l at s)
          (λ s'. Represents l floor s' (count - 1) (slot_deleted at entries))
    unfolding drop_slot
    drop_slot-Represents =
        let done = remove_entry-Represents l is addressable r at inside in
        rw (length_at-entry, done.0, done.1) done.2

  -- The loop takes the range from `first` on out of the sequence.
  pub drop_slots-Represents :
      (first rounds : ℕ) (s : SlotArray K) (count : ℕ) (entries : ℕ → Entry K)
      → Represents l floor s count entries
      → first + rounds ≤ count
      → ((i : ℕ) → i < count → IsMeasured length_at (entries i))
      → Returns
          (drop_slots length_at l first rounds s)
          (λ s'. Represents l floor s' (count - rounds) (cut first rounds entries))
  unfolding drop_slots
  drop_slots-Represents first zero s count entries r h measured =
      let e : count - 0 ≡ count = omega arith in rw e r
  drop_slots-Represents first (suc rounds) s count entries r h measured =
      Returns->>= (drop_slot length_at l (first + rounds) s) (drop_slots length_at l first rounds)
        (λ s'. Represents l floor s' (count - 1) (slot_deleted (first + rounds) entries))
        (λ s'. Represents l floor s' (count - suc rounds) (cut first (suc rounds) entries))
        (drop_slot-Represents r (first + rounds) (omega arith)
          (measured (first + rounds) (omega arith)))
        (λ s' r'.
          let e : count - suc rounds ≡ count - 1 - rounds = omega arith in
          rw e (
            drop_slots-Represents first rounds s' (count - 1)
              (slot_deleted (first + rounds) entries) r' (omega arith)
              (λ i p.
                rw (slot_deleted-at (first + rounds) entries i)
                  (measured (before (first + rounds) i) (ground arith)))))
