-- ===== src/Foster/Refitted.antt =====
-- node_foster.h: the blocks of a field that is set, after `set_foster_field` made them more or fewer.
use foster_btree.Prelude.{
  ℕ, ◌+◌, ◌-◌, ◌*◌, ◌≤◌, ◌<◌, ◌≡◌, ◌≢◌, refl, ◌∙◌, ap, subst, ◌⊎◌, inl, inr, some, List, length,
  arith, lt→ltb, le→leb, gt→leb,
}
use foster_btree.Prelude.Words.{cast, sub_mod}
use foster_btree.Layout.{Layout, IsLayout, payload_count}
use foster_btree.SlotArray.Defs.{get_payload_count}
use foster_btree.SlotArray.Invariant.{gap, blocks-le}
use foster_btree.SlotArray.Payloads.{shifted_down, shifted_up}
use foster_btree.Layout.{IsAddressable}
use foster_btree.SlotArray.Entries.{Entry, Represents, blocks_pos}
use foster_btree.Encoding.{Encoder, IsEncoder}
use foster_btree.Foster.{FosterNode, Fields, field_count, field_word, shift_foster_payloads}
use foster_btree.Foster.Carries.{View, span, Lies, Carries}
use foster_btree.Foster.Reserved.{Reserved}
use foster_btree.Foster.Moved.{Moves, Follows, moved-Reserved}
use foster_btree.Foster.Shifted.{lowered_by, raised_by, down-Moves, up-Moves}

module _ (l : Layout) (is : IsLayout l) (addressable : IsAddressable l)
    (short : payload_count l < field_word) {P T : Type 0} {E : Encoder T} {Fits : T → Type 0}
    {image : T → List ℕ} (is_encoder : IsEncoder E Fits image) {floor : ℕ} {n : FosterNode P}
    {count : ℕ} {entries : ℕ → Entry P} (r : Represents l floor n.array count entries) {view : View}
    (c : Carries l floor n view) (field : ℕ) (known : field < field_count) (v w : T)
    (before : view field ≡ some (image w)) where
  abbrev pub new_blocks : ℕ
  new_blocks = get_payload_count l (E.length_of v)

  abbrev pub old_blocks : ℕ
  old_blocks = get_payload_count l (E.length_of w)

  lies : Lies l floor n field (image w)
  lies = c.set field (image w) known before

  old_span : span l (image w) ≡ old_blocks
  old_span = ap (get_payload_count l) (is_encoder.length-image w)

  -- The first block of the field, and how many used ones are before it.
  abbrev start : ℕ
  start = n.fields.payloads field

  pub starts_inside : n.array.payload_begin ≤ start
  starts_inside = omega (arith, lies.after_floor, r.floor_ge)

  pub ends_inside : start + old_blocks ≤ payload_count l
  ends_inside = omega (arith, lies.before_end, old_span)

  old_pos : 0 < old_blocks
  old_pos = omega (arith, blocks_pos l is (length (image w)) lies.nonempty, old_span)

  -- Other fields are before the field or behind it.
  beside :
      (f : ℕ) (b : List ℕ)
      → f < field_count
      → f ≢ field
      → view f ≡ some b
      → (n.fields.payloads f + span l b ≤ start) ⊎ (start + old_blocks ≤ n.fields.payloads f)
  beside f b kf ne e = go (c.apart f field b (image w) kf known ne e before)
    where
      go :
          (n.fields.payloads f + span l b ≤ start)
            ⊎ (start + span l (image w) ≤ n.fields.payloads f)
          → (n.fields.payloads f + span l b ≤ start) ⊎ (start + old_blocks ≤ n.fields.payloads f)
      go (inl h) = inl h
      go (inr h) = inr (omega (arith, old_span))

  -- The same number of blocks.
  pub same_Reserved :
      old_blocks ≡ new_blocks → Reserved l floor n count entries view field new_blocks
  same_Reserved e = record {
    represents = r;
    is_valid = lies.is_valid;
    after_floor = lies.after_floor;
    before_end = omega (arith, ends_inside, e);
    unset = λ f kf ne u. c.unset f kf u;
    set = λ f b kf ne u. c.set f b kf u;
    apart = λ f g b b' kf kg nf ng ne ef eg. c.apart f g b b' kf kg ne ef eg;
    free = λ f b kf ne u. turned f b (beside f b kf ne u);
  }
    where
      turned :
          (f : ℕ) (b : List ℕ)
          → (n.fields.payloads f + span l b ≤ start) ⊎ (start + old_blocks ≤ n.fields.payloads f)
          → (start + new_blocks ≤ n.fields.payloads f) ⊎ (n.fields.payloads f + span l b ≤ start)
      turned f b (inl h) = inr h
      turned f b (inr h) = inl (omega (arith, e))

  -- How `shift_foster_payloads` moves the fields.
  abbrev fields_shifted : Fields
  fields_shifted = shift_foster_payloads field (sub_mod field_word old_blocks new_blocks) n.fields

  module _ (to : ℕ → ℕ)
      (exact : (p : ℕ)
        → floor ≤ p
        → p + old_blocks ≤ payload_count l
        → cast field_word (p + sub_mod field_word old_blocks new_blocks) ≡ to p) where
    placed : fields_shifted.payloads field ≡ to start
    unfolding shift_foster_payloads
    placed =
        rw (lt→ltb field field_count known, lies.is_valid, le→leb start start (omega arith))
          (exact start lies.after_floor ends_inside)

    follows :
        (f : ℕ) (b : List ℕ)
        → f < field_count
        → f ≢ field
        → view f ≡ some b
        → Follows l n start old_blocks to fields_shifted f b
    unfolding shift_foster_payloads
    follows f b kf ne e = go (beside f b kf ne e)
      where
        it : Lies l floor n f b
        it = c.set f b kf e

        go :
            (n.fields.payloads f + span l b ≤ start) ⊎ (start + old_blocks ≤ n.fields.payloads f)
            → Follows l n start old_blocks to fields_shifted f b
        go (inl h) = inl (
          h,
          rw
              (
                lt→ltb f field_count kf,
                it.is_valid,
                le→leb (n.fields.payloads f) start (omega arith),
              )
              (exact (n.fields.payloads f) it.after_floor (omega (arith, ends_inside))),
        )
        go (inr h) = inr (
          h,
          rw
              (
                lt→ltb f field_count kf,
                it.is_valid,
                gt→leb (n.fields.payloads f) start (omega (arith, old_pos)),
              )
              refl,
        )

  valid_same : (f : ℕ) → fields_shifted.valid f ≡ n.fields.valid f
  unfolding shift_foster_payloads
  valid_same f = refl

  abbrev ahead : ℕ
  ahead = start - n.array.payload_begin

  border_eq : n.array.payload_begin + ahead ≡ start
  border_eq = omega (arith, starts_inside)

  floor_border : floor ≤ n.array.payload_begin + ahead
  floor_border = omega (arith, border_eq, lies.after_floor)

  border_fits : n.array.payload_begin + ahead + old_blocks ≤ payload_count l
  border_fits = omega (arith, border_eq, ends_inside)

  -- More blocks: the payloads before the field, and its own start, move down.
  module _ (more : old_blocks < new_blocks) where
    abbrev pub grown : ℕ
    grown = new_blocks - old_blocks

    grown_eq : old_blocks + grown ≡ new_blocks
    grown_eq = omega arith

    down_exact :
        grown ≤ n.array.payload_begin
        → (p : ℕ) → floor ≤ p
        → p + old_blocks ≤ payload_count l
        → cast field_word (p + sub_mod field_word old_blocks new_blocks) ≡ p - grown
    down_exact enough p h h' =
        subst (λ x. cast field_word (p + sub_mod field_word old_blocks x) ≡ p - grown) grown_eq
          (lowered_by p old_blocks grown (omega arith) (omega (arith, r.floor_ge)) (omega arith)
            (omega (arith, r.floor_ge)))

    pub down_Reserved :
        grown * l.alignment ≤ gap l n.array
        → Reserved l
            (floor - grown)
            (record { array = shifted_down l grown ahead n.array; fields = fields_shifted })
            count
            entries
            view
            field
            new_blocks
    down_Reserved room =
        let enough = blocks-le grown n.array.payload_begin l.alignment _ is.alignment_pos room in
        let moves =
          subst
            (λ b.
              Moves l n (shifted_down l grown ahead n.array) n.array.payload_begin floor count
                entries (floor - grown) b old_blocks (old_blocks + grown) (λ p. p - grown))
            border_eq
            (down-Moves l is addressable r grown ahead old_blocks floor_border border_fits room) in
        let to : ℕ → ℕ = λ p. p - grown in
        subst (Reserved l (floor - grown) _ count entries view field) grown_eq (
          moved-Reserved l is c r.floor_ge moves fields_shifted field
            (valid_same field ∙ lies.is_valid) (placed to (down_exact enough))
            (λ f kf ne. valid_same f) (follows to (down_exact enough)))

  -- Fewer blocks: they move up.
  module _ (fewer : new_blocks < old_blocks) where
    abbrev pub shrunk : ℕ
    shrunk = old_blocks - new_blocks

    shrunk_eq : old_blocks - shrunk ≡ new_blocks
    shrunk_eq = omega arith

    up_exact :
        (p : ℕ)
        → floor ≤ p
        → p + old_blocks ≤ payload_count l
        → cast field_word (p + sub_mod field_word old_blocks new_blocks) ≡ p + shrunk
    up_exact p h h' =
        subst (λ x. cast field_word (p + sub_mod field_word old_blocks x) ≡ p + shrunk) shrunk_eq
          (raised_by p old_blocks shrunk (omega arith) (omega arith) (omega arith))

    pub up_Reserved :
        Reserved l
          (floor + shrunk)
          (record { array = shifted_up l shrunk ahead n.array; fields = fields_shifted })
          count
          entries
          view
          field
          new_blocks
    up_Reserved =
        let moves =
          subst
            (λ b.
              Moves l n (shifted_up l shrunk ahead n.array) n.array.payload_begin floor count
                entries (floor + shrunk) b old_blocks (old_blocks - shrunk) (λ p. p + shrunk))
            border_eq
            (up-Moves l is addressable r shrunk ahead old_blocks floor_border border_fits
              (omega arith)) in
        let to : ℕ → ℕ = λ p. p + shrunk in
        subst (Reserved l (floor + shrunk) _ count entries view field) shrunk_eq (
          moved-Reserved l is c r.floor_ge moves fields_shifted field
            (valid_same field ∙ lies.is_valid) (placed to up_exact) (λ f kf ne. valid_same f)
            (follows to up_exact))
