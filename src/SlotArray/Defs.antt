-- ===== src/SlotArray/Defs.antt =====
-- slot_array.h: `SlotArray` and its methods.
use Prim.Native.Nat.{min, max}
use foster_btree.Prelude.{
  ℕ, zero, suc, ◌+◌, ◌-◌, ◌*◌, ◌/◌, ◌%◌, ◌^◌, Bool, true, false, ◌&&◌, Option, none, some, leb, ltb,
  ◌==◌, if◌then◌else◌,
}
use foster_btree.Prelude.Words.{cast, sub_mod}
use foster_btree.Prelude.Outcome.{Outcome, ok, throw, undefined_behavior, ◌>>=◌, ◌>>◌, assert}
use foster_btree.Prelude.KeyOrder.{KeyOrder}
use foster_btree.Layout.{
  Layout, size_word, array_bytes, payload_count, ptr_word, slot_word, slot_ptr_word, slot_limit,
}

-- `SlotArray::Slot`, a key, a payload pointer and the ghost bit.
pub record Slot (K : Type 0) : Type 0 where
  pub key : K
  pub ptr : ℕ
  pub ghost : Bool

-- `PayloadBlock`: its bytes.
abbrev pub Block : Type 0
Block = ℕ → ℕ

-- The header, and the memory behind it.
pub record SlotArray (K : Type 0) : Type 0 where
  pub slot_end : ℕ
  pub payload_begin : ℕ
  pub slots : ℕ → Slot K
  pub payloads : ℕ → Block

module _ {A : Type 0} where
  abbrev pub write_at : (ℕ → A) → ℕ → A → ℕ → A
  write_at f i a j = if i == j then a else f j

  -- `std::move(begin + from, begin + from + count, begin + to)`: the elements go over one by one,
  -- the first one first.
  unfoldable pub move_forward : (to from count : ℕ) → (ℕ → A) → ℕ → A
  move_forward to from zero f = f
  move_forward to from (suc count) f =
      move_forward (suc to) (suc from) count (write_at f to (f from))

  -- `std::move_backward(begin + from, begin + from + count, begin + to + count)`: the last one first.
  unfoldable pub move_backward : (to from count : ℕ) → (ℕ → A) → ℕ → A
  move_backward to from zero f = f
  move_backward to from (suc count) f =
      move_backward to from count (write_at f (to + count) (f (from + count)))

-- `int shift = to - from`: whether it is negative, and its absolute value. The difference is taken
-- modulo the number of values of an `int`, which has 32 bits.
unfoldable pub int_shift : (to from : ℕ) → Bool × ℕ
int_shift to from =
    let d = sub_mod (2 ^ 32) (cast (2 ^ 32) to) (cast (2 ^ 32) from) in
    if ltb d (2 ^ 31) then (false, d) else (true, 2 ^ 32 - d)

-- `x += shift`, for `x` of an unsigned type with `m` values.
unfoldable pub add_shift : (m x : ℕ) → Bool × ℕ → ℕ
add_shift m x (true, n) = sub_mod m x (cast m n)
add_shift m x (false, n) = cast m (x + n)

-- The direction of a move within the payload area.
unfoldable pub move_blocks : (shift : Bool × ℕ) (to from count : ℕ) → (ℕ → Block) → ℕ → Block
move_blocks shift to from count payloads =
    if shift.0 then move_forward to from count payloads else move_backward to from count payloads

-- `new (&slots_[slot]) Key`, for a key type that is not numeric.
unfoldable pub construct_at : {K : Type 0} → Option K → ℕ → (ℕ → Slot K) → ℕ → Slot K
construct_at none slot slots = slots
construct_at (some k) slot slots = write_at slots slot (record (slots slot) { key = k })

module _ (l : Layout) {K : Type 0} where
  -- `clear`
  unfoldable pub clear : SlotArray K → SlotArray K
  clear s = record s { slot_end = 0; payload_begin = payload_count l }

  -- The constructor, on the memory that it is given.
  unfoldable pub empty : (ℕ → Slot K) → (ℕ → Block) → SlotArray K
  empty slots payloads =
      clear (record { slot_end = 0; payload_begin = 0; slots = slots; payloads = payloads })

  unfoldable pub free_space : SlotArray K → ℕ
  free_space s =
      sub_mod size_word (cast size_word (s.payload_begin * l.alignment))
        (cast size_word (s.slot_end * l.slot_size))

  -- `sanity_check`
  abbrev pub sanity_check : SlotArray K → Outcome (Unit {0})
  sanity_check s = assert (leb s.payload_begin (payload_count l))

module _ (l : Layout) where
  unfoldable pub get_payload_count : ℕ → ℕ
  get_payload_count length = length / l.alignment + (if length % l.alignment == 0 then 0 else 1)

  -- `payload_begin += shift`
  unfoldable pub adjust_begin : (shift : Bool × ℕ) (first begin : ℕ) → ℕ
  adjust_begin shift first begin =
      if leb first begin then add_shift (ptr_word l) begin shift else begin

module _ (l : Layout) {K : Type 0} where
  -- `allocate_payload`: `none` is the result false; `some ptr` is true, with the value of `ptr`.
  unfoldable pub allocate_payload : (length : ℕ) → SlotArray K → Outcome (SlotArray K × Option ℕ)
  allocate_payload length s = do
    assert (leb s.payload_begin (payload_count l))
    if ltb (free_space l s) (get_payload_count l length * l.alignment) then ok (s, none) else do
      let first =
          sub_mod (ptr_word l) s.payload_begin (cast (ptr_word l) (get_payload_count l length))
      let s' = record s { payload_begin = first }
      sanity_check l s'
      ok (s', some first)

  -- The pointer of a slot that lies in `first .. last` is shifted, in the width of the bit field.
  unfoldable pub adjust_slot : (shift : Bool × ℕ) (first last : ℕ) → Slot K → Slot K
  adjust_slot shift first last slot =
      if leb first slot.ptr && leb slot.ptr last
      then record slot { ptr = add_shift (slot_ptr_word l) slot.ptr shift }
      else slot

  -- The loop over the slot vector, in which each slot is changed by itself.
  unfoldable pub shift_slots : (shift : Bool × ℕ) (to from count : ℕ) → SlotArray K → ℕ → Slot K
  shift_slots shift to from count s i =
      if ltb 0 count && ltb i s.slot_end
      then adjust_slot shift (min from to) (sub_mod (ptr_word l) (max from to + count) 1)
          (s.slots i)
      else s.slots i

  -- `shift_payloads`
  unfoldable pub shift_payloads : (to from count : ℕ) → SlotArray K → Outcome (SlotArray K × Bool)
  shift_payloads to from count s = do
    assert (leb to (payload_count l))
    assert (leb from (payload_count l))
    let shift = int_shift to from
    if shift.0 && ltb (free_space l s) (l.alignment * shift.1) then ok (s, false) else do
      sanity_check l s
      let s' = record s {
        payloads = move_blocks shift to from count s.payloads;
        slots = shift_slots shift to from count s;
        payload_begin = adjust_begin l shift (min from to) s.payload_begin;
      }
      sanity_check l s'
      ok (s', true)

  -- `allocate_end_payload`, which pays no attention to what `shift_payloads` returns.
  unfoldable pub allocate_end_payload :
      (length : ℕ) → SlotArray K → Outcome (SlotArray K × Option ℕ)
  allocate_end_payload length s = do
    let p_count = get_payload_count l length
    if ltb (free_space l s) (p_count * l.alignment) then ok (s, none) else do
      let last_p = payload_count l
      let first_p = s.payload_begin
      (s', moved) ←
          shift_payloads (cast (ptr_word l) (sub_mod size_word first_p p_count)) first_p
            (sub_mod (ptr_word l) last_p first_p) s
      sanity_check l s'
      ok (s', some (cast (ptr_word l) (sub_mod size_word last_p p_count)))

  -- `free_payload`
  unfoldable pub free_payload : (ptr length : ℕ) → SlotArray K → Outcome (SlotArray K)
  free_payload ptr length s = do
    assert (leb length (array_bytes l))
    assert (leb s.payload_begin ptr)
    let shift = get_payload_count l length
    let count = ptr - s.payload_begin
    (s', moved) ←
        shift_payloads (cast (ptr_word l) (s.payload_begin + shift)) s.payload_begin
          (cast (ptr_word l) count) s
    ok s'

  -- `insert_slot`; `construct` is `some` of an empty-constructed key for a key type that is not
  -- numeric, and `none` for one that is.
  unfoldable pub insert_slot :
      (construct : Option K) (slot : ℕ) → SlotArray K → Outcome (SlotArray K × Bool)
  insert_slot construct slot s = do
    assert (leb slot s.slot_end)
    if ltb (free_space l s) l.slot_size then ok (s, false) else do
      let moved = move_backward (slot + 1) slot (s.slot_end - slot) s.slots
      let s' = record s {
        slot_end = cast (slot_word l) (s.slot_end + 1);
        slots = construct_at construct slot moved;
      }
      sanity_check l s'
      ok (s', true)

  -- `delete_slot`. The test `slot < slot_count() - 1` is made in `int` for a `SlotNumber` of fewer than
  -- 32 bits. For a wider one it wraps around where there are no slots, and a range that ends before it
  -- begins is moved.
  unfoldable pub delete_slot : (slot : ℕ) → SlotArray K → Outcome (SlotArray K)
  delete_slot slot s =
      if s.slot_end == 0 && leb (2 ^ 32) (slot_word l) then throw undefined_behavior else do
        let moved =
            if ltb (slot + 1) s.slot_end
            then move_forward slot (slot + 1) (s.slot_end - (slot + 1)) s.slots
            else s.slots
        let s' = record s { slot_end = sub_mod (slot_word l) s.slot_end 1; slots = moved }
        sanity_check l s'
        ok s'

  -- `format_slots_from`: header and slots are those of the other array. The payloads share memory
  -- with the slots, so those bytes go over that the vector of all slots covers.
  unfoldable pub format_slots_from : (other s : SlotArray K) → SlotArray K
  format_slots_from other s = record (clear l s) {
    slot_end = other.slot_end;
    payload_begin = other.payload_begin;
    slots = other.slots;
    payloads = λ block i.
        if ltb (block * l.alignment + i) (slot_limit l * l.slot_size)
        then other.payloads block i
        else s.payloads block i;
  }

  -- `get_slot(i) = slot`: the bit field takes the low bits of the pointer.
  unfoldable pub set_slot : ℕ → Slot K → SlotArray K → SlotArray K
  set_slot i slot s = record s {
    slots = write_at s.slots i (record slot { ptr = cast (slot_ptr_word l) slot.ptr });
  }

module _ (l : Layout) {K : Type 0} where
  -- The byte `offset` behind `get_payload(ptr)`.
  abbrev pub byte_at : SlotArray K → (ptr offset : ℕ) → ℕ
  byte_at s ptr offset = s.payloads (ptr + offset / l.alignment) (offset % l.alignment)

  -- The payload area as bytes, by their distance from its start, and the array with other bytes.
  unfoldable pub memory : SlotArray K → ℕ → ℕ
  memory s address = s.payloads (address / l.alignment) (address % l.alignment)

  unfoldable pub with_memory : (ℕ → ℕ) → SlotArray K → SlotArray K
  with_memory bytes s = record s { payloads = λ block i. bytes (block * l.alignment + i) }

module _ (l : Layout) {K : Type 0} (o : KeyOrder K) where
  -- The loop of `slots_are_sorted`, from slot `i` on with `rounds` slots left.
  unfoldable pub sorted_from : (rounds i : ℕ) (prev : K) (s : SlotArray K) → Outcome Bool
  sorted_from zero i prev s = sanity_check l s >> ok true
  sorted_from (suc rounds) i prev s =
      let rest = sorted_from rounds (suc i) (s.slots i).key s in
      if o.lt (s.slots i).key prev then ok false else rest

  unfoldable pub slots_are_sorted : SlotArray K → Outcome Bool
  slots_are_sorted s = sorted_from (s.slot_end - 1) 1 (s.slots 0).key s
