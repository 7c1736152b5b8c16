-- ===== src/SlotArray/Payloads.antt =====
-- slot_array.h: what `shift_payloads` does when it moves the first used blocks, as all its callers
-- have it do.
use Prim.Native.Nat.{min}
use native.Mathlib.Nat.{mod_self, add-mul-mod_self_right}
use foster_btree.Prelude.{
  ℕ, ◌+◌, ◌-◌, ◌*◌, ◌^◌, ◌≤◌, ◌<◌, ◌≡◌, true, false, ◌&&◌, leb, ltb, if◌then◌else◌, arith, fun_ext,
  dec_lt, ap, sym, ◌∙◌, ◌%◌, le→leb, lt→ltb, ge→ltb,
}
use foster_btree.Prelude.Words.{cast, sub_mod, cast-small, sub_mod-small}
use foster_btree.Prelude.Outcome.{ok}
use foster_btree.Layout.{Layout, IsLayout, IsAddressable, payload_count, ptr_word, slot_ptr_word}
use foster_btree.Layout.Bounds.{payload_count-lt-ptr_word}
use foster_btree.SlotArray.Defs.{
  Slot, SlotArray, int_shift, add_shift, shift_payloads, adjust_slot, adjust_begin, shift_slots,
  move_blocks,
}
use foster_btree.SlotArray.Moves.{memmove, move_forward-at, move_backward-at}
use foster_btree.SlotArray.Invariant.{IsWellFormed, gap, free_space-exact}

module _ (l : Layout) {K : Type 0} where
  -- Pointers into `first .. end` move up, resp. down, by `d` blocks.
  abbrev pub slot_up : (d first end : ℕ) → Slot K → Slot K
  slot_up d first end slot =
      if leb first slot.ptr && ltb slot.ptr end
      then record slot { ptr = cast (slot_ptr_word l) (slot.ptr + d) }
      else slot

  abbrev pub slot_down : (d first end : ℕ) → Slot K → Slot K
  slot_down d first end slot =
      if leb first slot.ptr && ltb slot.ptr end
      then record slot { ptr = sub_mod (slot_ptr_word l) slot.ptr d }
      else slot

  -- The first `count` used blocks move up over `d` blocks, which thereby are free.
  abbrev pub shifted_up : (d count : ℕ) → SlotArray K → SlotArray K
  shifted_up d count s = record s {
    payload_begin = s.payload_begin + d;
    payloads = memmove (s.payload_begin + d) s.payload_begin count s.payloads;
    slots = λ i.
        if ltb 0 count && ltb i s.slot_end
        then slot_up d s.payload_begin (s.payload_begin + d + count) (s.slots i)
        else s.slots i;
  }

  -- They move down by `d` blocks, which leaves `d` blocks behind them to be used.
  abbrev pub shifted_down : (d count : ℕ) → SlotArray K → SlotArray K
  shifted_down d count s = record s {
    payload_begin = s.payload_begin - d;
    payloads = memmove (s.payload_begin - d) s.payload_begin count s.payloads;
    slots = λ i.
        if ltb 0 count && ltb i s.slot_end
        then slot_down d (s.payload_begin - d) (s.payload_begin + count) (s.slots i)
        else s.slots i;
  }

-- Between positions that are no further apart than an `int` can say, nothing wraps around.
up_shift : (begin d : ℕ) → begin + d < 2 ^ 31 → int_shift (begin + d) begin ≡ (false, d)
unfolding int_shift cast sub_mod
up_shift begin d small = ground arith

down_shift :
    (begin d : ℕ) → 0 < d → d ≤ begin → begin < 2 ^ 31 → int_shift (begin - d) begin ≡ (true, d)
unfolding int_shift cast sub_mod
down_shift begin d pos le small = ground arith

-- `d` may be as large as the number of values of the type.
sub_mod-cast : (m x d : ℕ) → d ≤ m → sub_mod m x (cast m d) ≡ sub_mod m x d
unfolding cast sub_mod
sub_mod-cast m x d le = elim (dec_lt d m) [
  | yes lt ↦ grind arith
  | no ge ↦
      let e : d ≡ m = omega arith in
      let zero_left : d % m ≡ 0 = ap (λ n. n % m) e ∙ mod_self m in
      let whole : x + m - d % m ≡ x + 1 * m = omega (arith, zero_left) in
      let none_left : x + m - d ≡ x = omega (arith, e) in
      ap (λ n. n % m) whole ∙ (add-mul-mod_self_right x 1 m ∙ sym (ap (λ n. n % m) none_left))
]

module _ (l : Layout) (is : IsLayout l) (addressable : IsAddressable l) {K : Type 0}
    (s : SlotArray K) (w : IsWellFormed l s) (d count : ℕ) where
  open w use {begin_le, apart}

  small : payload_count l < ptr_word l
  small = payload_count-lt-ptr_word l is

  module _ (fits : s.payload_begin + d + count ≤ payload_count l) where
    slots_up :
        (i : ℕ)
        → shift_slots l (false, d) (s.payload_begin + d) s.payload_begin count s i
          ≡ (shifted_up l d count s).slots i
    unfolding shift_slots adjust_slot add_shift
    slots_up i = ground (arith, small, sub_mod-small (ptr_word l) (s.payload_begin + d + count) 1)

    blocks_up :
        (i : ℕ)
        → move_blocks (false, d) (s.payload_begin + d) s.payload_begin count s.payloads i
          ≡ (shifted_up l d count s).payloads i
    unfolding move_blocks
    blocks_up i =
        (move_backward-at (s.payload_begin + d) s.payload_begin count s.payloads i (omega arith))

    begin_up :
        adjust_begin l (false, d) (min s.payload_begin (s.payload_begin + d)) s.payload_begin
        ≡ s.payload_begin + d
    unfolding adjust_begin add_shift
    begin_up = ground (arith, small, cast-small (ptr_word l) (s.payload_begin + d))

    -- On a well-formed array of an addressable layout, `shift_payloads` of the first used blocks up
    -- by `d` blocks within the payload area returns true: the blocks are moved at once, the
    -- pointers of used slots from the first used block up to the end of the place the blocks are
    -- moved to grow by `d` in the width of their bit field, unless no block is moved, and the free
    -- space grows by `d` blocks. Those of slots with payloads in the `d` blocks behind the moved
    -- ones grow, too.
    pub shift_payloads-up :
        shift_payloads l (s.payload_begin + d) s.payload_begin count s
        ≡ ok (shifted_up l d count s, true)
    unfolding shift_payloads
    shift_payloads-up = rw (
      le→leb (s.payload_begin + d) (payload_count l) (omega arith),
      le→leb s.payload_begin (payload_count l) begin_le,
      up_shift s.payload_begin d (omega (arith, addressable.1)),
      begin_up,
      le→leb (s.payload_begin + d) (payload_count l) (omega arith),
      fun_ext slots_up,
      fun_ext blocks_up,
    )

  module _ (some_blocks : 0 < d) (enough : d ≤ s.payload_begin)
      (fits : s.payload_begin + count ≤ payload_count l) where
    slots_down :
        (i : ℕ)
        → shift_slots l (true, d) (s.payload_begin - d) s.payload_begin count s i
          ≡ (shifted_down l d count s).slots i
    unfolding shift_slots adjust_slot add_shift
    slots_down i = ground (
      arith,
      small,
      sub_mod-small (ptr_word l) (s.payload_begin + count) 1,
      sub_mod-cast (slot_ptr_word l) (s.slots i).ptr d (omega (arith, begin_le, addressable.0)),
    )

    blocks_down :
        (i : ℕ)
        → move_blocks (true, d) (s.payload_begin - d) s.payload_begin count s.payloads i
          ≡ (shifted_down l d count s).payloads i
    unfolding move_blocks
    blocks_down i =
        (move_forward-at (s.payload_begin - d) s.payload_begin count s.payloads i (omega arith))

    begin_down :
        adjust_begin l (true, d) (min s.payload_begin (s.payload_begin - d)) s.payload_begin
        ≡ s.payload_begin - d
    unfolding adjust_begin add_shift
    begin_down = ground (
      arith,
      small,
      cast-small (ptr_word l) d (omega (arith, begin_le, small)),
      sub_mod-small (ptr_word l) s.payload_begin d,
    )

    pub shift_payloads-down :
        d * l.alignment ≤ gap l s
        → shift_payloads l (s.payload_begin - d) s.payload_begin count s
          ≡ ok (shifted_down l d count s, true)
    unfolding shift_payloads
    shift_payloads-down room = rw (
      le→leb (s.payload_begin - d) (payload_count l) (omega arith),
      le→leb s.payload_begin (payload_count l) begin_le,
      down_shift s.payload_begin d some_blocks enough (omega (arith, begin_le, addressable.1)),
      free_space-exact l is w,
      ge→ltb (gap l s) (l.alignment * d) (omega arith),
      begin_down,
      le→leb (s.payload_begin - d) (payload_count l) (omega arith),
      fun_ext slots_down,
      fun_ext blocks_down,
    )

    -- Without room nothing is changed.
    pub shift_payloads-full :
        gap l s < d * l.alignment
        → shift_payloads l (s.payload_begin - d) s.payload_begin count s ≡ ok (s, false)
    unfolding shift_payloads
    shift_payloads-full full = rw (
      le→leb (s.payload_begin - d) (payload_count l) (omega arith),
      le→leb s.payload_begin (payload_count l) begin_le,
      down_shift s.payload_begin d some_blocks enough (omega (arith, begin_le, addressable.1)),
      free_space-exact l is w,
      lt→ltb (gap l s) (l.alignment * d) (omega arith),
    )
