-- ===== src/SlotArray/Slots.antt =====
-- slot_array.h: what `insert_slot` and `delete_slot` do to the slot vector.
use foster_btree.Prelude.{
  ℕ, ne→==, ◌+◌, ◌-◌, ◌≤◌, ◌<◌, ◌≡◌, ◌≢◌, refl, Bool-cases, inl, inr, true, false, Option, none,
  some, ltb, ◌==◌, if◌then◌else◌, arith, fun_ext, le→leb, lt→ltb, ge→ltb,
}
use foster_btree.Prelude.Words.{cast, cast-small, sub_mod-small}
use foster_btree.Prelude.Outcome.{ok}
use foster_btree.Layout.{Layout, IsLayout, payload_count, slot_word, slot_ptr_word}
use foster_btree.Layout.Bounds.{slot_limit-lt-slot_word}
use foster_btree.SlotArray.Defs.{
  Slot, SlotArray, insert_slot, delete_slot, set_slot, construct_at, move_forward,
}
use foster_btree.SlotArray.Moves.{memmove, move_forward-at, move_backward-at}
use foster_btree.SlotArray.Invariant.{IsWellFormed, gap, free_space-exact, slot_end-le-limit}

-- The slot vector with a slot more at `at`, and with the one at `at` gone.
abbrev pub slot_inserted : {A : Type 0} → ℕ → A → (ℕ → A) → ℕ → A
slot_inserted at a f i = if ltb i at then f i else if i == at then a else f (i - 1)

abbrev pub slot_deleted : {A : Type 0} → ℕ → (ℕ → A) → ℕ → A
slot_deleted at f i = if ltb i at then f i else f (i + 1)

-- Where entry `i` was before the slot at `at` went, and before one was inserted there.
abbrev pub before : (at : ℕ) → ℕ → ℕ
before at i = if ltb i at then i else i + 1

abbrev pub older : (at : ℕ) → ℕ → ℕ
older at i = if ltb i at then i else i - 1

pub slot_deleted-at :
    {A : Type 0} (at : ℕ) (f : ℕ → A) (i : ℕ) → slot_deleted at f i ≡ f (before at i)
slot_deleted-at at f i = elim (Bool-cases (ltb i at)) [ inl e ↦ rw e refl | inr e ↦ rw e refl ]

pub slot_inserted-older :
    {A : Type 0} (at : ℕ) (a : A) (f : ℕ → A) (i : ℕ)
    → i ≢ at
    → slot_inserted at a f i ≡ f (older at i)
slot_inserted-older at a f i ne = ground arith

pub slot_inserted-new : {A : Type 0} (at : ℕ) (a : A) (f : ℕ → A) → slot_inserted at a f at ≡ a
slot_inserted-new at a f = ground arith

-- The state after `insert_slot` made room at `slot`.
abbrev pub room_made : {K : Type 0} → Option K → ℕ → SlotArray K → SlotArray K
room_made construct slot s = record s {
  slot_end = s.slot_end + 1;
  slots = construct_at construct slot (memmove (slot + 1) slot (s.slot_end - slot) s.slots);
}

pub construct_at-other :
    {K : Type 0} (construct : Option K) (slot : ℕ) (slots : ℕ → Slot K) (i : ℕ)
    → i ≢ slot
    → construct_at construct slot slots i ≡ slots i
unfolding construct_at
construct_at-other none slot slots i ne = refl
construct_at-other (some k) slot slots i ne = ground arith

-- The state after `delete_slot`.
abbrev pub room_closed : {K : Type 0} → ℕ → SlotArray K → SlotArray K
room_closed slot s = record s {
  slot_end = s.slot_end - 1;
  slots = memmove slot (slot + 1) (s.slot_end - (slot + 1)) s.slots;
}

module _ (l : Layout) (is : IsLayout l) {K : Type 0} (s : SlotArray K) (w : IsWellFormed l s) where
  open w use {begin_le, apart}

  slot_end-lt-word : s.slot_end < slot_word l
  slot_end-lt-word = omega (arith, slot_end-le-limit l is w, slot_limit-lt-slot_word l is)

  module _ (construct : Option K) (slot : ℕ) (inside : slot ≤ s.slot_end) where
    pub insert_slot-full : gap l s < l.slot_size → insert_slot l construct slot s ≡ ok (s, false)
    unfolding insert_slot
    insert_slot-full full =
        rw (
          le→leb slot s.slot_end inside,
          free_space-exact l is w,
          lt→ltb (gap l s) l.slot_size full,
        )

    pub room_made-IsWellFormed : l.slot_size ≤ gap l s → IsWellFormed l (room_made construct slot s)
    room_made-IsWellFormed room = record {
      begin_le = begin_le;
      apart = omega (arith, is.slot_size_pos);
    }

    pub insert_slot-room :
        l.slot_size ≤ gap l s
        → insert_slot l construct slot s ≡ ok ((room_made construct slot s), true)
    unfolding insert_slot
    insert_slot-room room = rw (
      le→leb slot s.slot_end inside,
      free_space-exact l is w,
      ge→ltb (gap l s) l.slot_size room,
      fun_ext (λ i. move_backward-at (slot + 1) slot (s.slot_end - slot) s.slots i (omega arith)),
      cast-small (slot_word l) (s.slot_end + 1) (
          omega (
            arith,
            slot_end-le-limit l is (room_made-IsWellFormed room),
            slot_limit-lt-slot_word l is,
          )),
      le→leb s.payload_begin (payload_count l) begin_le,
    )

    -- Filling that slot completes the insertion.
    pub set_slot-room_made :
        (new : Slot K) (i : ℕ)
        → i ≤ s.slot_end
        → (set_slot l slot new (room_made construct slot s)).slots i
          ≡ slot_inserted slot (record new { ptr = cast (slot_ptr_word l) new.ptr }) s.slots i
    unfolding set_slot construct_at
    set_slot-room_made new i h = ground arith

  module _ (slot : ℕ) (inside : slot < s.slot_end) where
    closed :
        (i : ℕ)
        → (if ltb (slot + 1) s.slot_end
              then move_forward slot (slot + 1) (s.slot_end - (slot + 1)) s.slots
              else s.slots)
            i
          ≡ (room_closed slot s).slots i
    closed i = ground (arith, move_forward-at slot (slot + 1) (s.slot_end - (slot + 1)) s.slots i)

    pub delete_slot-eq : delete_slot l slot s ≡ ok (room_closed slot s)
    unfolding delete_slot
    delete_slot-eq = rw (
      ne→== s.slot_end 0 (omega arith),
      fun_ext closed,
      sub_mod-small (slot_word l) s.slot_end 1 (omega arith) slot_end-lt-word,
      le→leb s.payload_begin (payload_count l) begin_le,
    )

    pub room_closed-slots :
        (i : ℕ) → i + 1 < s.slot_end → (room_closed slot s).slots i ≡ slot_deleted slot s.slots i
    room_closed-slots i h = ground arith

    pub room_closed-IsWellFormed : IsWellFormed l (room_closed slot s)
    room_closed-IsWellFormed = record { begin_le = begin_le; apart = grind (arith, apart) }
