-- ===== src/Foster/Moved.antt =====
-- node_foster.h: the fields after `set_foster_field` moved the payloads before some block, so that a
-- field has another number of blocks.
use foster_btree.Prelude.{
  ℕ, ◌+◌, ◌≤◌, ◌<◌, ◌≡◌, ◌≢◌, ◌∙◌, ap, ◌⊎◌, inl, inr, true, some, List, length, arith,
}
use foster_btree.Layout.{Layout, IsLayout, payload_count}
use foster_btree.SlotArray.Defs.{SlotArray, get_payload_count, byte_at}
use foster_btree.SlotArray.Entries.{Entry, Represents, blocks_pos}
use foster_btree.Foster.{FosterNode, Fields, field_count}
use foster_btree.Foster.Carries.{View, span, Lies, FieldsApart, Carries}
use foster_btree.Foster.Reserved.{Reserved}

module _ (l : Layout) {P : Type 0} (n : FosterNode P) (s : SlotArray P) (first floor : ℕ) where
  -- How payloads move: those from `first` up to `border` go to `to`, and those from `border + old` on
  -- stay; the field gets all blocks between.
  pub record Moves (count : ℕ) (entries : ℕ → Entry P) (floor' border old blocks : ℕ) (to : ℕ → ℕ)
      : Type 0 where
    pub represents : Represents l floor' s count entries
    pub keeps_distance : (p k q : ℕ) → first ≤ p → p + k ≤ q → q ≤ border → to p + k ≤ to q
    pub floor_first : floor' ≤ to floor
    pub border_ge : floor ≤ border
    pub filled : to border + blocks ≡ border + old
    pub border_le : border + old ≤ payload_count l
    pub bytes_before :
        (p size o : ℕ)
        → first ≤ p
        → p + get_payload_count l size ≤ border
        → o < size
        → byte_at l s (to p) o ≡ byte_at l n.array p o
    pub bytes_behind : (p o : ℕ) → border + old ≤ p → byte_at l s p o ≡ byte_at l n.array p o

module _ (l : Layout) {P : Type 0} (n : FosterNode P) where
  -- Where the payload of another field is, and where it is afterwards.
  abbrev pub Follows : (border old : ℕ) (to : ℕ → ℕ) (fields : Fields) (f : ℕ) (b : List ℕ) → Type 0
  Follows border old to fields f b =
      ((n.fields.payloads f + span l b ≤ border) × (fields.payloads f ≡ to (n.fields.payloads f)))
      ⊎ ((border + old ≤ n.fields.payloads f) × (fields.payloads f ≡ n.fields.payloads f))

module _ (l : Layout) (is : IsLayout l) {P : Type 0} {floor : ℕ} {n : FosterNode P} {view : View}
    (c : Carries l floor n view) {s : SlotArray P} {count : ℕ} {entries : ℕ → Entry P} {first : ℕ}
    (first_le : first ≤ floor) where
  module _ {floor' border old blocks : ℕ} {to : ℕ → ℕ}
      (m : Moves l n s first floor count entries floor' border old blocks to) (fields : Fields)
      (field : ℕ) (is_valid : fields.valid field ≡ true)
      (placed : fields.payloads field ≡ to border)
      (same_valid : (f : ℕ) → f < field_count → f ≢ field → fields.valid f ≡ n.fields.valid f)
      (follows : (f : ℕ) (b : List ℕ)
        → f < field_count
        → f ≢ field
        → view f ≡ some b
        → Follows l n border old to fields f b) where
    open m use {
      keeps_distance, floor_first, border_ge, filled, border_le, bytes_before, bytes_behind,
    }

    low : (p : ℕ) → floor ≤ p → p ≤ border → floor' ≤ to p
    low p h h' = omega (arith, keeps_distance floor 0 p first_le (omega arith) h', floor_first)

    abbrev moved : FosterNode P
    moved = record { array = s; fields = fields }

    moved-Lies :
        (f : ℕ) (b : List ℕ)
        → f < field_count
        → f ≢ field
        → view f ≡ some b
        → Lies l floor' moved f b
    moved-Lies f b known ne e = go (c.set f b known e) (follows f b known ne e)
      where
        go : Lies l floor n f b → Follows l n border old to fields f b → Lies l floor' moved f b
        go lies (inl (before, at)) =
            let start = lies.after_floor in
            let within : n.fields.payloads f ≤ border = omega arith in
            let enough = low (n.fields.payloads f) start within in
            let further =
              keeps_distance (n.fields.payloads f) (span l b) border (omega arith) before
                (omega arith) in
            record {
              is_valid = same_valid f known ne ∙ lies.is_valid;
              after_floor = omega (arith, at);
              before_end = omega (arith, at, filled, border_le);
              nonempty = lies.nonempty;
              bytes_eq = λ o h.
                  ap (λ p. byte_at l s p o) at
                  ∙ bytes_before (n.fields.payloads f) (length b) o (omega arith) before h
                  ∙ lies.bytes_eq o h;
            }
        go lies (inr (behind, at)) = record {
          is_valid = same_valid f known ne ∙ lies.is_valid;
          after_floor = omega (arith, at, filled, low border border_ge (omega arith));
          before_end = omega (arith, at, lies.before_end);
          nonempty = lies.nonempty;
          bytes_eq = λ o h.
              ap (λ p. byte_at l s p o) at
              ∙ bytes_behind (n.fields.payloads f) o behind
              ∙ lies.bytes_eq o h;
        }

    -- Two other fields, of which the first is before the second.
    in_order :
        (f g : ℕ) (b b' : List ℕ)
        → 0 < span l b
        → floor ≤ n.fields.payloads f
        → Follows l n border old to fields f b
        → Follows l n border old to fields g b'
        → n.fields.payloads f + span l b ≤ n.fields.payloads g
        → fields.payloads f + span l b ≤ fields.payloads g
    in_order f g b b' some_blocks start (inl (before, at)) (inl (before', at')) h = omega (
      arith,
      at,
      at',
      keeps_distance (n.fields.payloads f) (span l b) (n.fields.payloads g) (omega arith) h
          (omega arith),
    )
    in_order f g b b' some_blocks start (inl (before, at)) (inr (behind', at')) h = omega (
      arith,
      at,
      at',
      filled,
      keeps_distance (n.fields.payloads f) (span l b) border (omega arith) before (omega arith),
    )
    in_order f g b b' some_blocks start (inr (behind, at)) (inl (before', at')) h =
        absurd (omega arith)
    in_order f g b b' some_blocks start (inr (behind, at)) (inr (behind', at')) h =
        omega (arith, at, at')

    pub moved-Reserved : Reserved l floor' moved count entries view field blocks
    moved-Reserved = record {
      represents = m.represents;
      is_valid = is_valid;
      after_floor = omega (arith, placed, low border border_ge (omega arith));
      before_end = omega (arith, placed, filled, border_le);
      unset = λ f known ne e. same_valid f known ne ∙ c.unset f known e;
      set = moved-Lies;
      apart = λ f g b b' kf kg nf ng ne ef eg.
          separate f g b b' (some_span f b kf ef) (some_span g b' kg eg)
            (c.set f b kf ef).after_floor (c.set g b' kg eg).after_floor (follows f b kf nf ef)
            (follows g b' kg ng eg) (c.apart f g b b' kf kg ne ef eg);
      free = λ f b known ne e. beside f b (c.set f b known e).after_floor (follows f b known ne e);
    }
      where
        some_span : (f : ℕ) (b : List ℕ) → f < field_count → view f ≡ some b → 0 < span l b
        some_span f b known e = blocks_pos l is (length b) (c.set f b known e).nonempty

        separate :
            (f g : ℕ) (b b' : List ℕ)
            → 0 < span l b
            → 0 < span l b'
            → floor ≤ n.fields.payloads f
            → floor ≤ n.fields.payloads g
            → Follows l n border old to fields f b
            → Follows l n border old to fields g b'
            → FieldsApart l n f g b b'
            → FieldsApart l moved f g b b'
        separate f g b b' pos pos' start start' ff fg (inl h) =
            inl (in_order f g b b' pos start ff fg h)
        separate f g b b' pos pos' start start' ff fg (inr h) =
            inr (in_order g f b' b pos' start' fg ff h)

        beside :
            (f : ℕ) (b : List ℕ)
            → floor ≤ n.fields.payloads f
            → Follows l n border old to fields f b
            → (fields.payloads field + blocks ≤ fields.payloads f)
              ⊎ (fields.payloads f + span l b ≤ fields.payloads field)
        beside f b start (inl (before, at)) = inr (
            omega (
              arith,
              at,
              placed,
              keeps_distance (n.fields.payloads f) (span l b) border (omega arith) before
                  (omega arith),
            ))
        beside f b start (inr (behind, at)) = inl (omega (arith, at, placed, filled))
