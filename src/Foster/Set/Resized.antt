-- ===== src/Foster/Set/Resized.antt =====
-- node_foster.h: `set_foster_field` on a field that is set already.
use foster_btree.Prelude.{
  ℕ, ◌+◌, ◌-◌, ◌*◌, ◌≤◌, ◌<◌, ◌≡◌, ◌≢◌, refl, ◌⊎◌, inl, inr, Bool, true, some, List, arith, dec_lt,
  ne→==, ==_iff,
}
use foster_btree.Prelude.Words.{cast, sub_mod, cast-small, sub_mod-small}
use foster_btree.Prelude.Outcome.{Outcome}
use foster_btree.Layout.{Layout, IsLayout, payload_count, ptr_word}
use foster_btree.Layout.Bounds.{payload_count-lt-ptr_word}
use foster_btree.SlotArray.Defs.{get_payload_count}
use foster_btree.SlotArray.Invariant.{gap}
use foster_btree.SlotArray.Payloads.{shift_payloads-down, shift_payloads-up, shift_payloads-full}
use foster_btree.Layout.{IsAddressable}
use foster_btree.SlotArray.Entries.{Entry, Represents}
use foster_btree.Encoding.{Encoder, IsEncoder}
use foster_btree.Foster.{
  FosterNode, field_count, field_word, foster_ptr_field, shift_foster_payloads, resize_field,
  set_foster_field, get_foster_field,
}
use foster_btree.Foster.Carries.{View, Carries, get_foster_field-some}
use foster_btree.Foster.Refitted.{
  starts_inside, ends_inside, same_Reserved, down_Reserved, up_Reserved,
}
use foster_btree.Foster.Set.{IsWritten, finished}

module _ (l : Layout) (is : IsLayout l) (addressable : IsAddressable l)
    (short : payload_count l < field_word) {P T : Type 0} {E : Encoder T} {Fits : T → Type 0}
    {image : T → List ℕ} (is_encoder : IsEncoder E Fits image) {floor : ℕ} {n : FosterNode P}
    {count : ℕ} {entries : ℕ → Entry P} (r : Represents l floor n.array count entries) {view : View}
    (c : Carries l floor n view) (field : ℕ) (known : field < field_count) (v : T)
    (some_bytes : 0 < E.length_of v) (w : T) (fits : Fits w)
    (before : view field ≡ some (image w)) where
  abbrev new_blocks : ℕ
  new_blocks = get_payload_count l (E.length_of v)

  abbrev old_blocks : ℕ
  old_blocks = get_payload_count l (E.length_of w)

  abbrev pub Answers : Outcome (FosterNode P × Bool) → Type 0
  Answers = IsWritten l is addressable short is_encoder r c field known v some_bytes old_blocks

  abbrev start : ℕ
  start = n.fields.payloads field

  abbrev ahead : ℕ
  ahead = start - n.array.payload_begin

  field_set : n.fields.valid field ≡ true
  field_set = (c.set field (image w) known before).is_valid

  start_ge : n.array.payload_begin ≤ start
  start_ge = starts_inside l is addressable short is_encoder r c field known v w before

  end_le : start + old_blocks ≤ payload_count l
  end_le = ends_inside l is addressable short is_encoder r c field known v w before

  border_fits : n.array.payload_begin + ahead + old_blocks ≤ payload_count l
  border_fits = omega (arith, start_ge, end_le)

  module _ (fits_below : new_blocks ≤ n.array.payload_begin + old_blocks) (old : T) where
    reads : get_foster_field l E field old n ≡ (true, w)
    reads = get_foster_field-some l is is_encoder c field known w old fits before

    target :
        cast (ptr_word l) (sub_mod field_word (n.array.payload_begin + old_blocks) new_blocks)
        ≡ n.array.payload_begin + old_blocks - new_blocks
    target =
        let word = payload_count-lt-ptr_word l is in
        rw
          (
            sub_mod-small field_word (n.array.payload_begin + old_blocks) new_blocks fits_below
                (omega (arith, start_ge, end_le)),
            cast-small (ptr_word l) (n.array.payload_begin + old_blocks - new_blocks)
                (omega (arith, start_ge, end_le)),
          )
          refl

    distance : cast (ptr_word l) (sub_mod field_word start n.array.payload_begin) ≡ ahead
    distance =
        let word = payload_count-lt-ptr_word l is in
        rw
          (
            sub_mod-small field_word start n.array.payload_begin start_ge (omega (arith, end_le)),
            cast-small (ptr_word l) ahead (omega (arith, end_le)),
          )
          refl

    same_answer : old_blocks ≡ new_blocks → Answers (set_foster_field l E field v old n)
    unfolding set_foster_field
    same_answer e =
        rw (reads, field_set, (==_iff old_blocks new_blocks).1 e)
          (finished l is addressable short is_encoder r c field known v some_bytes old_blocks
            (same_Reserved l is addressable short is_encoder r c field known v w before e) refl
            (omega (arith, e)))

    module _ (is_key : field ≢ foster_ptr_field) where
      more_answer : old_blocks < new_blocks → Answers (set_foster_field l E field v old n)
      unfolding set_foster_field resize_field shift_foster_payloads
      more_answer more =
          let enough : (new_blocks - old_blocks) ≤ n.array.payload_begin = omega arith in
          let to : n.array.payload_begin + old_blocks - new_blocks
              ≡ n.array.payload_begin - (new_blocks - old_blocks) =
            omega arith in
          elim (dec_lt (gap l n.array) ((new_blocks - old_blocks) * l.alignment)) [
            | yes full ↦
                rw
                  (
                    reads,
                    field_set,
                    ne→== old_blocks new_blocks (omega arith),
                    ne→== field foster_ptr_field is_key,
                    target,
                    distance,
                    to,
                    shift_payloads-full l is addressable n.array r.well_formed
                        (new_blocks - old_blocks) ahead (omega arith) enough
                        (omega (arith, border_fits)) full,
                  )
                  (refl, full)
            | no room ↦
                rw
                  (
                    reads,
                    field_set,
                    ne→== old_blocks new_blocks (omega arith),
                    ne→== field foster_ptr_field is_key,
                    target,
                    distance,
                    to,
                    shift_payloads-down l is addressable n.array r.well_formed
                        (new_blocks - old_blocks) ahead (omega arith) enough
                        (omega (arith, border_fits)) (omega arith),
                  )
                  (finished l is addressable short is_encoder r c field known v some_bytes
                    old_blocks
                    (down_Reserved l is addressable short is_encoder r c field known v w before more
                      (omega arith))
                    refl (omega arith))
          ]

      fewer_answer : new_blocks < old_blocks → Answers (set_foster_field l E field v old n)
      unfolding set_foster_field resize_field shift_foster_payloads
      fewer_answer fewer =
          let to : n.array.payload_begin + old_blocks - new_blocks
              ≡ n.array.payload_begin + (old_blocks - new_blocks) =
            omega arith in
          rw
            (
              reads,
              field_set,
              ne→== old_blocks new_blocks (omega arith),
              ne→== field foster_ptr_field is_key,
              target,
              distance,
              to,
              shift_payloads-up l is addressable n.array r.well_formed (old_blocks - new_blocks)
                  ahead (omega (arith, border_fits)),
            )
            (finished l is addressable short is_encoder r c field known v some_bytes old_blocks
              (up_Reserved l is addressable short is_encoder r c field known v w before fewer) refl
              (omega arith))

    -- On such an array and fields, for a field that is set, but not the foster pointer unless the
    -- number of blocks stays, and a value whose further blocks are no more than lie before the used
    -- ones: `set_foster_field` returns true with the field set to the value, be it longer or
    -- shorter, the further blocks taken, and the entries, the other fields and the level as before,
    -- or false with nothing changed, which it does only if there is no room for the further blocks.
    pub set_foster_field-old :
        (old_blocks ≡ new_blocks) ⊎ (field ≢ foster_ptr_field)
        → Answers (set_foster_field l E field v old n)
    set_foster_field-old (inl e) = same_answer e
    set_foster_field-old (inr is_key) = elim (dec_lt old_blocks new_blocks) [
      | yes more ↦ more_answer is_key more
      | no a ↦ elim (dec_lt new_blocks old_blocks) [
        | yes fewer ↦ fewer_answer is_key fewer
        | no b ↦ same_answer (omega arith)
      ]
    ]
