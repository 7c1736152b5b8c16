-- ===== src/Foster/Shifted.antt =====
-- node_foster.h: the two ways in which `set_foster_field` moves payloads, and its arithmetic.
use foster_btree.Prelude.{ℕ, ◌+◌, ◌-◌, ◌*◌, ◌≤◌, ◌<◌, ◌≡◌, arith}
use foster_btree.Prelude.Words.{cast, sub_mod}
use foster_btree.Layout.{Layout, IsLayout, payload_count}
use foster_btree.SlotArray.Invariant.{gap, blocks-le}
use foster_btree.SlotArray.Payloads.{shifted_down, shifted_up}
use foster_btree.Layout.{IsAddressable}
use foster_btree.SlotArray.Entries.{Entry, Represents}
use foster_btree.SlotArray.Entries.Shifting.{
  down-bytes, up-bytes, down-bytes_behind, up-bytes_behind, shifted_down-Represents,
  shifted_up-Represents,
}
use foster_btree.Foster.{FosterNode, field_word}
use foster_btree.Foster.Moved.{Moves}

-- The arithmetic of `p_diff`, an `int` that is added to a `uint32_t`.
pub lowered :
    (p d : ℕ)
    → 0 < d
    → d ≤ p
    → p < field_word
    → cast field_word (p + sub_mod field_word 0 d) ≡ p - d
unfolding cast sub_mod
lowered p d pos le small = omega arith

pub lowered_by :
    (p old d : ℕ)
    → 0 < d
    → d ≤ p
    → p < field_word
    → old + d < field_word
    → cast field_word (p + sub_mod field_word old (old + d)) ≡ p - d
unfolding cast sub_mod
lowered_by p old d pos le small small' = omega arith

pub raised_by :
    (p old d : ℕ)
    → d ≤ old
    → old < field_word
    → p + d < field_word
    → cast field_word (p + sub_mod field_word old (old - d)) ≡ p + d
unfolding cast sub_mod
raised_by p old d le small small' = omega arith

module _ (l : Layout) (is : IsLayout l) (addressable : IsAddressable l) {P : Type 0} {floor : ℕ}
    {n : FosterNode P} {count : ℕ} {entries : ℕ → Entry P}
    (r : Represents l floor n.array count entries) (d moved old : ℕ) where
  module _ (border_ge : floor ≤ (n.array.payload_begin + moved))
      (border_le : (n.array.payload_begin + moved) + old ≤ payload_count l) where
    pub down-Moves :
        d * l.alignment ≤ gap l n.array
        → Moves l n
            (shifted_down l d moved n.array)
            n.array.payload_begin
            floor
            count
            entries
            (floor - d)
            (n.array.payload_begin + moved)
            old
            (old + d)
            (λ p. p - d)
    down-Moves room =
        let enough = blocks-le d n.array.payload_begin l.alignment _ is.alignment_pos room in
        record {
          represents =
              shifted_down-Represents l is addressable r d moved border_ge (omega arith) room;
          keeps_distance = λ p k q h h' h''. omega arith;
          floor_first = omega arith;
          border_ge = border_ge;
          filled = omega arith;
          border_le = border_le;
          bytes_before =
              λ p size o after fits h. down-bytes l is n.array d moved p size o enough after fits h;
          bytes_behind = λ p o h. down-bytes_behind l is n.array d moved p o enough (omega arith);
        }

    pub up-Moves :
        d ≤ old
        → Moves l n
            (shifted_up l d moved n.array)
            n.array.payload_begin
            floor
            count
            entries
            (floor + d)
            (n.array.payload_begin + moved)
            old
            (old - d)
            (λ p. p + d)
    up-Moves less = record {
      represents =
          shifted_up-Represents l is addressable r d moved border_ge (omega arith) (omega arith);
      keeps_distance = λ p k q h h' h''. omega arith;
      floor_first = omega arith;
      border_ge = border_ge;
      filled = omega arith;
      border_le = border_le;
      bytes_before = λ p size o after fits h. up-bytes l is n.array d moved p size o after fits h;
      bytes_behind = λ p o h. up-bytes_behind l is n.array d moved p o (omega arith);
    }
