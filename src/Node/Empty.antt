-- ===== src/Node/Empty.antt =====
-- slot_array.h, node.h: a slot array just constructed, or cleared, is a node without keys.
use foster_btree.Prelude.{ℕ, refl, List, arith}
use foster_btree.Layout.{payload_count}
use foster_btree.SlotArray.Defs.{SlotArray, clear}
use foster_btree.Node.Defs.{NodeType}
use foster_btree.Node.Rep.{IsNode}

module _ {K V P : Type 0} (t : NodeType K V P) (Fits : K → V → Type 0) (image : K → V → List ℕ)
    (keys : ℕ → K) (values : ℕ → V) where
  -- After `clear`, whatever the array held, it is a node without pairs that may use all payload
  -- blocks.
  pub clear-IsNode :
      (s : SlotArray P)
      → IsNode t Fits image (payload_count t.layout) (clear t.layout s) 0 keys values
  unfolding clear
  clear-IsNode s = record {
    represents = record {
      well_formed = record { begin_le = omega arith; apart = omega arith };
      count_eq = refl;
      floor_ge = omega arith;
      floor_le = omega arith;
      stores = λ i h. absurd (omega arith);
      sized = λ i h. absurd (omega arith);
      apart = λ i j h. absurd (omega arith);
    };
    fits = λ i h. absurd (omega arith);
    increasing = λ i j h h'. absurd (omega arith);
  }
