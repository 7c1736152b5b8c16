-- ===== src/Foster/Set.antt =====
-- node_foster.h: `set_foster_field` sets one field and keeps all else that the node holds.
pub mod Resized
use native.Mathlib.Nat.{zero-div, zero-mod}
use foster_btree.Prelude.{
  ℕ, ◌+◌, ◌-◌, ◌*◌, ◌^◌, ◌≤◌, ◌<◌, ◌≡◌, ◌≢◌, refl, ◌∙◌, sym, ap, subst, ◌⊎◌, inl, inr, Bool, true,
  false, ◌&&◌, Option, none, some, List, length, arith, ltb, leb, ◌==◌, if◌then◌else◌, lt→ltb,
  le→leb, ge→ltb, gt→leb, dec_lt, ne→==, ℕ_discrete,
}
use foster_btree.Prelude.Words.{cast, sub_mod, cast-small, sub_mod-small}
use foster_btree.Prelude.Outcome.{Outcome, ok, throw}
use foster_btree.Layout.{Layout, IsLayout, payload_count, ptr_word, size_word}
use foster_btree.Layout.Bounds.{payload_count-lt-ptr_word}
use foster_btree.SlotArray.Defs.{
  SlotArray, get_payload_count, byte_at, write_at, shift_payloads, allocate_end_payload,
}
use foster_btree.SlotArray.Invariant.{gap, blocks-le, free_space-exact}
use foster_btree.SlotArray.Payloads.{
  shifted_down, shifted_up, shift_payloads-down, shift_payloads-up, shift_payloads-full,
}
use foster_btree.Layout.{IsAddressable}
use foster_btree.SlotArray.Regions.{allocate_end_payload-full, allocate_end_payload-room}
use foster_btree.SlotArray.Entries.{Entry, Represents, blocks_pos}
use foster_btree.SlotArray.Entries.Shifting.{
  down-bytes, up-bytes, down-bytes_behind, up-bytes_behind, shifted_down-Represents,
  shifted_up-Represents,
}
use foster_btree.Encoding.{Encoder, IsEncoder}
use foster_btree.Foster.{
  FosterNode, Fields, field_count, field_word, foster_ptr_field, set_field, shift_foster_payloads,
  shift_all_foster_payloads, add_field, resize_field, set_foster_field, encode_field,
}
use foster_btree.Foster.Carries.{
  View, span, Lies, Carries, get_foster_field-some, get_foster_field-none,
}
use foster_btree.Foster.Reserved.{
  Reserved, filled, filled-Represents, filled-begin, filled-Carries, encode_field-filled,
}
use foster_btree.Foster.Moved.{Moves, Follows, moved-Reserved}
use foster_btree.Foster.Shifted.{lowered, lowered_by, raised_by, down-Moves, up-Moves}

no_blocks : (l : Layout) → get_payload_count l 0 ≡ 0
unfolding get_payload_count
no_blocks l = rw (zero-div l.alignment, zero-mod l.alignment) refl

module _ (l : Layout) (is : IsLayout l) (addressable : IsAddressable l)
    (short : payload_count l < field_word) {P T : Type 0} {E : Encoder T} {Fits : T → Type 0}
    {image : T → List ℕ} (is_encoder : IsEncoder E Fits image) {floor : ℕ} {n : FosterNode P}
    {count : ℕ} {entries : ℕ → Entry P} (r : Represents l floor n.array count entries) {view : View}
    (c : Carries l floor n view) (field : ℕ) (known : field < field_count) (v : T)
    (some_bytes : 0 < E.length_of v) where
  abbrev pub blocks : ℕ
  blocks = get_payload_count l (E.length_of v)

  -- What a call may answer, where the field had `old` blocks: true with the field set, and the entries,
  -- the other fields and the level as before; or false, with nothing changed and no room for the
  -- further blocks.
  abbrev pub IsWritten : (old : ℕ) → Outcome (FosterNode P × Bool) → Type 0
  IsWritten old (ok (n', true)) =
      (floor' : ℕ) × Represents l floor' n'.array count entries
      × Carries l floor' n' (write_at view field (some (image v)))
      × (n'.fields.level ≡ n.fields.level)
      × (n'.array.payload_begin + blocks ≡ n.array.payload_begin + old)
  IsWritten old (ok (n', false)) = (n' ≡ n) × (gap l n.array < (blocks - old) * l.alignment)
  IsWritten old (throw e) = ⊥

  pub span-blocks : span l (image v) ≡ blocks
  span-blocks = ap (get_payload_count l) (is_encoder.length-image v)

  image_pos : 0 < length (image v)
  image_pos = omega (arith, is_encoder.length-image v)

  pub pos : 0 < blocks
  pos = blocks_pos l is (E.length_of v) some_bytes

  -- After the payloads moved.
  pub finished :
      (old : ℕ) {floor' : ℕ} {m : FosterNode P}
      → Reserved l floor' m count entries view field blocks
      → m.fields.level ≡ n.fields.level
      → m.array.payload_begin + blocks ≡ n.array.payload_begin + old
      → IsWritten old (encode_field l E field v m)
  finished old {floor'} {m} reserved level space =
      let whole = subst (Reserved l floor' m count entries view field) (sym span-blocks) reserved in
      rw (encode_field-filled l is (image v) image_pos whole is_encoder v refl) (
        floor',
        filled-Represents l is (image v) image_pos whole,
        filled-Carries l is (image v) image_pos whole,
        level,
        ap (λ b. b + blocks) (filled-begin l is (image v) image_pos whole) ∙ space,
      )

  -- A field that was not set.
  module _ (before : view field ≡ none) where
    -- All payloads moved down.
    abbrev fields_down : Fields
    fields_down =
        set_field field (payload_count l - blocks)
          (shift_all_foster_payloads (sub_mod field_word 0 blocks) n.fields)

    down-Follows :
        blocks ≤ n.array.payload_begin
        → (f : ℕ) (b : List ℕ) → f < field_count
        → f ≢ field
        → view f ≡ some b
        → Follows l n
            (n.array.payload_begin + (payload_count l - n.array.payload_begin))
            0
            (λ p. p - blocks)
            fields_down
            f
            b
    unfolding set_field shift_all_foster_payloads
    down-Follows enough f b kf ne e =
        let lies = c.set f b kf e in
        inl (
          omega (arith, lies.before_end, r.well_formed.begin_le),
          rw (ne→== field f (λ e. ne (sym e)), lt→ltb f field_count kf, lies.is_valid)
              (lowered (n.fields.payloads f) blocks pos
                (omega (arith, lies.after_floor, r.floor_ge)) (omega (arith, lies.before_end))),
        )

    down_valid : (f : ℕ) → f < field_count → f ≢ field → fields_down.valid f ≡ n.fields.valid f
    unfolding set_field shift_all_foster_payloads
    down_valid f kf ne = rw (ne→== field f (λ e. ne (sym e))) refl

    down_placed :
        (fields_down.valid field ≡ true) × (fields_down.payloads field ≡ payload_count l - blocks)
    unfolding set_field
    down_placed = (ground arith, ground arith)

    down_Reserved :
        (room : blocks * l.alignment ≤ gap l n.array)
        → Reserved l
            (floor - blocks)
            (record {
              array = shifted_down l blocks (payload_count l - n.array.payload_begin) n.array;
              fields = fields_down;
            })
            count
            entries
            view
            field
            blocks
    down_Reserved room =
        let enough = blocks-le blocks n.array.payload_begin l.alignment _ is.alignment_pos room in
        let whole : n.array.payload_begin + (payload_count l - n.array.payload_begin)
            ≡ payload_count l =
          omega (arith, r.well_formed.begin_le) in
        let moves =
          down-Moves l is addressable r blocks (payload_count l - n.array.payload_begin) 0
            (omega (arith, r.floor_le)) (omega arith) room in
        subst (Reserved l (floor - blocks) _ count entries view field) {x = 0 + blocks}
          (omega arith)
          (moved-Reserved l is c r.floor_ge moves fields_down field down_placed.0
            (down_placed.1 ∙ ap (λ x. x - blocks) (sym whole)) down_valid (down-Follows enough))

    -- On an array of an addressable layout that represents a sequence of entries and fields with
    -- payloads apart from each other and from the entries, with block positions below the values of
    -- `uint32_t`: `set_foster_field` of a field that is not set, to a value of positive length,
    -- returns true with the field set, the blocks of the value taken, and the entries, the other
    -- fields and the level as before, or false with nothing changed, which it does only if there is
    -- no room.
    pub set_foster_field-new : (old : T) → IsWritten 0 (set_foster_field l E field v old n)
    unfolding set_foster_field add_field set_field shift_all_foster_payloads
    set_foster_field-new old =
        let invalid = c.unset field known before in
        let less : blocks - 0 ≡ blocks = omega arith in
        elim (dec_lt (gap l n.array) (blocks * l.alignment)) [
          | yes full ↦
              rw
                (
                  get_foster_field-none l is is_encoder c field known old before,
                  invalid,
                  no_blocks l,
                  lt→ltb 0 blocks pos,
                  allocate_end_payload-full l is addressable n.array r.well_formed (E.length_of v)
                      pos full,
                )
                (refl, rw less full)
          | no room ↦
              let room' : blocks * l.alignment ≤ gap l n.array = omega arith in
              let enough =
                blocks-le blocks n.array.payload_begin l.alignment _ is.alignment_pos room' in
              rw
                (
                  get_foster_field-none l is is_encoder c field known old before,
                  invalid,
                  no_blocks l,
                  lt→ltb 0 blocks pos,
                  allocate_end_payload-room l is addressable n.array r.well_formed (E.length_of v)
                      pos (omega arith),
                  less,
                )
                (finished 0 (down_Reserved (omega arith)) refl (omega (arith, enough)))
        ]
