-- ===== src/Foster/Carries.antt =====
-- node_foster.h: what the fields of a foster node hold, as one string of bytes for each field that is
-- set, with the places of the payloads forgotten.
use foster_btree.Prelude.{
  ℕ, ◌+◌, ◌*◌, ◌≤◌, ◌<◌, ◌≡◌, ◌≢◌, refl, ◌∙◌, ◌⊎◌, true, false, Option, none, some, List, length,
}
use foster_btree.Layout.{Layout, IsLayout, payload_count}
use foster_btree.Bytes.{Holds, nth, Holds-of_nth}
use foster_btree.SlotArray.Defs.{get_payload_count, byte_at, memory}
use foster_btree.SlotArray.Entries.{memory-byte_at}
use foster_btree.Encoding.{Encoder, IsEncoder}
use foster_btree.Foster.{FosterNode, field_count, get_foster_field}

-- What is in each field.
abbrev pub View : Type 0
View = ℕ → Option (List ℕ)

-- The blocks of a payload.
abbrev pub span : Layout → List ℕ → ℕ
span l bytes = get_payload_count l (length bytes)

module _ (l : Layout) {P : Type 0} where
  -- A field is set and its payload, from block `floor` on, is the string.
  pub record Lies (floor : ℕ) (n : FosterNode P) (field : ℕ) (bytes : List ℕ) : Type 0 where
    pub is_valid : n.fields.valid field ≡ true
    pub after_floor : floor ≤ n.fields.payloads field
    pub before_end : n.fields.payloads field + span l bytes ≤ payload_count l
    pub nonempty : 0 < length bytes
    pub bytes_eq :
        (o : ℕ) → o < length bytes → byte_at l n.array (n.fields.payloads field) o ≡ nth bytes o

  -- The payloads of two fields have no block in common.
  abbrev pub FieldsApart : FosterNode P → (f g : ℕ) (b b' : List ℕ) → Type 0
  FieldsApart n f g b b' =
      (n.fields.payloads f + span l b ≤ n.fields.payloads g)
      ⊎ (n.fields.payloads g + span l b' ≤ n.fields.payloads f)

  -- The fields hold what the view says; their payloads use the blocks from `floor` on.
  pub record Carries (floor : ℕ) (n : FosterNode P) (view : View) : Type 0 where
    pub unset : (f : ℕ) → f < field_count → view f ≡ none → n.fields.valid f ≡ false
    pub set : (f : ℕ) (b : List ℕ) → f < field_count → view f ≡ some b → Lies floor n f b
    pub apart :
        (f g : ℕ) (b b' : List ℕ)
        → f < field_count
        → g < field_count
        → f ≢ g
        → view f ≡ some b
        → view g ≡ some b'
        → FieldsApart n f g b b'

module _ (l : Layout) (is : IsLayout l) {P T : Type 0} {E : Encoder T} {Fits : T → Type 0}
    {image : T → List ℕ} (is_encoder : IsEncoder E Fits image) {floor : ℕ} {n : FosterNode P}
    {view : View} (carries : Carries l floor n view) (field : ℕ) (known : field < field_count) where
  -- `get_foster_field` reads what the field holds.
  pub get_foster_field-some :
      (v old : T)
      → Fits v
      → view field ≡ some (image v)
      → get_foster_field l E field old n ≡ (true, v)
  unfolding get_foster_field
  get_foster_field-some v old fits e =
      let lies = carries.set field (image v) known e in
      let holds : Holds (memory l n.array) (n.fields.payloads field * l.alignment) (image v) =
        Holds-of_nth _ _ _
          (λ o h. memory-byte_at l is n.array (n.fields.payloads field) o ∙ lies.bytes_eq o h) in
      rw (lies.is_valid, is_encoder.reads _ _ v old fits holds) refl

  pub get_foster_field-none :
      (old : T) → view field ≡ none → get_foster_field l E field old n ≡ (false, old)
  unfolding get_foster_field
  get_foster_field-none old e = rw (carries.unset field known e) refl
