-- ===== src/SlotArray/Entries/Shifting.antt =====
-- slot_array.h: `shift_payloads` of all payloads at once keeps the entries, though it moves them.
use foster_btree.Prelude.{
  ℕ, ◌+◌, ◌-◌, ◌*◌, ◌≤◌, ◌<◌, ◌≡◌, refl, ◌∙◌, inl, inr, arith, lt→ltb, le→leb,
}
use foster_btree.Prelude.Words.{cast-small, sub_mod-small}
use foster_btree.Layout.{Layout, IsLayout, payload_count, slot_ptr_word}
use foster_btree.SlotArray.Defs.{SlotArray, get_payload_count, byte_at}
use foster_btree.SlotArray.Invariant.{gap, blocks-le, bytes_left}
use foster_btree.SlotArray.Payloads.{shifted_down, shifted_up}
use foster_btree.Layout.{IsAddressable}
use foster_btree.SlotArray.Entries.{Entry, Apart, Represents, blocks, block-lt, blocks_pos}

module _ (l : Layout) (is : IsLayout l) {K : Type 0} (s : SlotArray K) (d moved : ℕ) where
  -- A payload among the blocks that move is read where it went, one behind them where it was.
  pub down-bytes :
      (p size o : ℕ)
      → d ≤ s.payload_begin
      → s.payload_begin ≤ p
      → p + get_payload_count l size ≤ s.payload_begin + moved
      → o < size
      → byte_at l (shifted_down l d moved s) (p - d) o ≡ byte_at l s p o
  down-bytes p size o enough after fits h = let b = block-lt l is size o h in ground arith

  pub up-bytes :
      (p size o : ℕ)
      → s.payload_begin ≤ p
      → p + get_payload_count l size ≤ s.payload_begin + moved
      → o < size
      → byte_at l (shifted_up l d moved s) (p + d) o ≡ byte_at l s p o
  up-bytes p size o after fits h = let b = block-lt l is size o h in ground arith

  pub down-bytes_behind :
      (p o : ℕ)
      → d ≤ s.payload_begin
      → s.payload_begin + moved ≤ p
      → byte_at l (shifted_down l d moved s) p o ≡ byte_at l s p o
  down-bytes_behind p o enough h = ground arith

  pub up-bytes_behind :
      (p o : ℕ)
      → s.payload_begin + moved + d ≤ p
      → byte_at l (shifted_up l d moved s) p o ≡ byte_at l s p o
  up-bytes_behind p o h = ground arith

module _ (l : Layout) (is : IsLayout l) (addressable : IsAddressable l) {K : Type 0} {floor : ℕ}
    {s : SlotArray K} {count : ℕ} {entries : ℕ → Entry K} (r : Represents l floor s count entries)
    (d moved : ℕ) (all_moved : floor ≤ s.payload_begin + moved)
    (inside : s.payload_begin + moved ≤ payload_count l) where
  open r use {well_formed, count_eq, floor_ge, floor_le, stores, sized, apart}

  slot_fits : (i : ℕ) → i < count → (s.slots i).ptr + blocks l (entries i) ≤ floor
  slot_fits i h = (stores i h).before_floor

  slot_bounds :
      (i : ℕ)
      → i < count
      → (s.payload_begin ≤ (s.slots i).ptr) × ((s.slots i).ptr < s.payload_begin + moved)
  slot_bounds i h = (
    (stores i h).after_begin,
    omega (arith, slot_fits i h, blocks_pos l is (entries i).size (sized i h)),
  )

  module _ (room : d * l.alignment ≤ gap l s) where
    enough : d ≤ s.payload_begin
    enough = blocks-le d s.payload_begin l.alignment _ is.alignment_pos room

    down-slot :
        (i : ℕ)
        → i < count
        → (shifted_down l d moved s).slots i ≡ record (s.slots i) { ptr = (s.slots i).ptr - d }
    down-slot i h =
        let (after, before) = slot_bounds i h in
        rw
          (
            lt→ltb 0 moved (omega arith),
            lt→ltb i s.slot_end (omega (arith, count_eq)),
            le→leb (s.payload_begin - d) (s.slots i).ptr (omega arith),
            lt→ltb (s.slots i).ptr (s.payload_begin + moved) before,
            sub_mod-small (slot_ptr_word l) (s.slots i).ptr d (omega (arith, enough))
                (omega (arith, addressable.0)),
          )
          refl

    pub shifted_down-Represents : Represents l (floor - d) (shifted_down l d moved s) count entries
    shifted_down-Represents = record {
      well_formed = record {
        begin_le = omega (arith, well_formed.begin_le);
        apart = bytes_left _ d _ _ (well_formed.apart) room;
      };
      count_eq = count_eq;
      floor_ge = omega (arith, floor_ge);
      floor_le = omega (arith, floor_le);
      stores = λ i h. rw (down-slot i h) (record {
        key_eq = (stores i h).key_eq;
        ghost_eq = (stores i h).ghost_eq;
        after_begin = omega (arith, (stores i h).after_begin);
        before_floor = omega (arith, slot_fits i h, enough, (stores i h).after_begin);
        bytes_eq = λ o q.
            down-bytes l is s d moved (s.slots i).ptr (entries i).size o enough
              (stores i h).after_begin (omega (arith, slot_fits i h)) q
            ∙ (stores i h).bytes_eq o q;
      });
      sized = sized;
      apart = λ i j hi hj ne.
          rw (down-slot i hi, down-slot j hj) (lowered i j hi hj (apart i j hi hj ne));
    }
      where
        lowered :
            (i j : ℕ)
            → i < count
            → j < count
            → Apart l (s.slots i) (s.slots j) (entries i) (entries j)
            → Apart l
                (record (s.slots i) { ptr = (s.slots i).ptr - d })
                (record (s.slots j) { ptr = (s.slots j).ptr - d })
                (entries i)
                (entries j)
        lowered i j hi hj (inl h) = inl (omega (arith, enough, (stores i hi).after_begin))
        lowered i j hi hj (inr h) = inr (omega (arith, enough, (stores j hj).after_begin))

  module _ (fits : s.payload_begin + d + moved ≤ payload_count l) where
    up-slot :
        (i : ℕ)
        → i < count
        → (shifted_up l d moved s).slots i ≡ record (s.slots i) { ptr = (s.slots i).ptr + d }
    up-slot i h =
        let (after, before) = slot_bounds i h in
        rw
          (
            lt→ltb 0 moved (omega arith),
            lt→ltb i s.slot_end (omega (arith, count_eq)),
            le→leb s.payload_begin (s.slots i).ptr (omega arith),
            lt→ltb (s.slots i).ptr (s.payload_begin + d + moved) (omega arith),
            cast-small (slot_ptr_word l) ((s.slots i).ptr + d) (omega (arith, addressable.0)),
          )
          refl

    pub shifted_up-Represents : Represents l (floor + d) (shifted_up l d moved s) count entries
    shifted_up-Represents = record {
      well_formed = record {
        begin_le = omega (arith, well_formed.begin_le);
        apart = grind (arith, well_formed.apart);
      };
      count_eq = count_eq;
      floor_ge = omega (arith, floor_ge);
      floor_le = omega arith;
      stores = λ i h. rw (up-slot i h) (record {
        key_eq = (stores i h).key_eq;
        ghost_eq = (stores i h).ghost_eq;
        after_begin = omega (arith, (stores i h).after_begin);
        before_floor = omega (arith, slot_fits i h);
        bytes_eq = λ o q.
            up-bytes l is s d moved (s.slots i).ptr (entries i).size o (stores i h).after_begin
              (omega (arith, slot_fits i h)) q
            ∙ (stores i h).bytes_eq o q;
      });
      sized = sized;
      apart = λ i j hi hj ne. rw (up-slot i hi, up-slot j hj) (raised i j (apart i j hi hj ne));
    }
      where
        raised :
            (i j : ℕ)
            → Apart l (s.slots i) (s.slots j) (entries i) (entries j)
            → Apart l
                (record (s.slots i) { ptr = (s.slots i).ptr + d })
                (record (s.slots j) { ptr = (s.slots j).ptr + d })
                (entries i)
                (entries j)
        raised i j (inl h) = inl (omega arith)
        raised i j (inr h) = inr (omega arith)
