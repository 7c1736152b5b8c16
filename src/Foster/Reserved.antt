-- ===== src/Foster/Reserved.antt =====
-- node_foster.h: the last step of `set_foster_field`, into a payload that was made ready for it.
use native.Mathlib.Nat.{add-mul, mul-le-mul_right}
use foster_btree.Prelude.{
  ℕ, ◌+◌, ◌*◌, ◌≤◌, ◌<◌, ◌≡◌, ◌≢◌, refl, ◌∙◌, sym, subst, ◌⊎◌, inl, inr, true, false, Option, none,
  some, List, length, arith, lt→ltb, ℕ_discrete,
}
use foster_btree.Prelude.Words.{cast-small}
use foster_btree.Prelude.Outcome.{ok}
use foster_btree.Layout.{Layout, IsLayout, payload_count, ptr_word}
use foster_btree.Layout.Bounds.{payload_count-lt-ptr_word}
use foster_btree.Bytes.{nth, memcpy, memcpy-inside, memcpy-outside}
use foster_btree.SlotArray.Defs.{get_payload_count, byte_at, memory, with_memory, write_at}
use foster_btree.SlotArray.Entries.{
  Entry, Represents, byte_at-with_memory, memory-byte_at, size-le-blocks, blocks_pos,
}
use foster_btree.Encoding.{Encoder, IsEncoder}
use foster_btree.Foster.{FosterNode, field_count, encode_field}
use foster_btree.Foster.Carries.{View, span, Lies, FieldsApart, Carries}

-- Blocks one after the other, in bytes.
bytes_behind : (p k q a : ℕ) → p + k ≤ q → p * a + k * a ≤ q * a
bytes_behind p k q a h = omega (arith, add-mul p k a, mul-le-mul_right a h)

bytes_before : (q k p a : ℕ) {o : ℕ} → q + k ≤ p → o < k * a → q * a + o < p * a
bytes_before q k p a h h' = omega (arith, bytes_behind q k p a h)

module _ (l : Layout) {P : Type 0} where
  -- The array holds its entries, all fields but one hold what the view says, and the payload of that
  -- one has `n` blocks of its own.
  pub record Reserved (floor : ℕ) (m : FosterNode P) (count : ℕ) (entries : ℕ → Entry P)
      (view : View) (field n : ℕ) : Type 0 where
    pub represents : Represents l floor m.array count entries
    pub is_valid : m.fields.valid field ≡ true
    pub after_floor : floor ≤ m.fields.payloads field
    pub before_end : m.fields.payloads field + n ≤ payload_count l
    pub unset : (f : ℕ) → f < field_count → f ≢ field → view f ≡ none → m.fields.valid f ≡ false
    pub set :
        (f : ℕ) (b : List ℕ) → f < field_count → f ≢ field → view f ≡ some b → Lies l floor m f b
    pub apart :
        (f g : ℕ) (b b' : List ℕ)
        → f < field_count
        → g < field_count
        → f ≢ field
        → g ≢ field
        → f ≢ g
        → view f ≡ some b
        → view g ≡ some b'
        → FieldsApart l m f g b b'
    pub free :
        (f : ℕ) (b : List ℕ)
        → f < field_count
        → f ≢ field
        → view f ≡ some b
        → (m.fields.payloads field + n ≤ m.fields.payloads f)
          ⊎ (m.fields.payloads f + span l b ≤ m.fields.payloads field)

module _ (l : Layout) (is : IsLayout l) {P : Type 0} {floor : ℕ} {m : FosterNode P} {count : ℕ}
    {entries : ℕ → Entry P} {view : View} {field : ℕ} (bytes : List ℕ)
    (some_bytes : 0 < length bytes)
    (r : Reserved l floor m count entries view field (span l bytes)) where
  open r use {represents, is_valid, after_floor, before_end, unset, set, apart, free}

  abbrev p : ℕ
  p = m.fields.payloads field

  abbrev pub filled : FosterNode P
  filled = record m {
    array = with_memory l (memcpy (memory l m.array) (p * l.alignment) bytes) m.array;
  }

  filled-other :
      (q size o : ℕ)
      → o < size
      → (q + get_payload_count l size ≤ p) ⊎ (p + span l bytes ≤ q)
      → byte_at l filled.array q o ≡ byte_at l m.array q o
  filled-other q size o h away =
      byte_at-with_memory l is (memcpy (memory l m.array) (p * l.alignment) bytes) m.array q o
      ∙ (memcpy-outside (memory l m.array) (p * l.alignment) bytes (q * l.alignment + o)
            (beside away)
          ∙ memory-byte_at l is m.array q o)
    where
      beside :
          (q + get_payload_count l size ≤ p) ⊎ (p + span l bytes ≤ q)
          → (q * l.alignment + o < p * l.alignment)
            ⊎ (p * l.alignment + length bytes ≤ q * l.alignment + o)
      beside (inl a) =
          inl (bytes_before q _ p l.alignment a (omega (arith, size-le-blocks l is size)))
      beside (inr a) =
          inr (omega (arith, bytes_behind p _ q l.alignment a, size-le-blocks l is (length bytes)))

  filled-new : (o : ℕ) → o < length bytes → byte_at l filled.array p o ≡ nth bytes o
  filled-new o h =
      byte_at-with_memory l is (memcpy (memory l m.array) (p * l.alignment) bytes) m.array p o
      ∙ memcpy-inside (memory l m.array) (p * l.alignment) bytes o h

  pub filled-begin : filled.array.payload_begin ≡ m.array.payload_begin
  unfolding with_memory
  filled-begin = refl

  pub filled-Represents : Represents l floor filled.array count entries
  unfolding with_memory
  filled-Represents = record {
    well_formed = record {
      begin_le = represents.well_formed.begin_le;
      apart = represents.well_formed.apart;
    };
    count_eq = represents.count_eq;
    floor_ge = represents.floor_ge;
    floor_le = represents.floor_le;
    stores = λ i h.
        let st = represents.stores i h in
        record {
          key_eq = st.key_eq;
          ghost_eq = st.ghost_eq;
          after_begin = st.after_begin;
          before_floor = st.before_floor;
          bytes_eq = λ o q.
              filled-other _ (entries i).size o q
                (inl (omega (arith, st.before_floor, after_floor)))
              ∙ st.bytes_eq o q;
        };
    sized = represents.sized;
    apart = represents.apart;
  }

  same_field : Lies l floor filled field bytes
  same_field = record {
    is_valid = is_valid;
    after_floor = after_floor;
    before_end = before_end;
    nonempty = some_bytes;
    bytes_eq = filled-new;
  }

  other_field :
      (f : ℕ) (b : List ℕ) → f < field_count → f ≢ field → view f ≡ some b → Lies l floor filled f b
  other_field f b known ne e =
      let lies = set f b known ne e in
      record {
        is_valid = lies.is_valid;
        after_floor = lies.after_floor;
        before_end = lies.before_end;
        nonempty = lies.nonempty;
        bytes_eq =
            λ o h. filled-other _ (length b) o h (away (free f b known ne e)) ∙ lies.bytes_eq o h;
      }
    where
      away :
          (p + span l bytes ≤ m.fields.payloads f) ⊎ (m.fields.payloads f + span l b ≤ p)
          → (m.fields.payloads f + span l b ≤ p) ⊎ (p + span l bytes ≤ m.fields.payloads f)
      away (inl h) = inr h
      away (inr h) = inl h

  abbrev pub new_view : View
  new_view = write_at view field (some bytes)

  at_field : (f : ℕ) (b : List ℕ) → f ≡ field → new_view f ≡ some b → bytes ≡ b
  at_field f b same e = ground arith

  beyond : (f : ℕ) (o : Option (List ℕ)) → f ≢ field → new_view f ≡ o → view f ≡ o
  beyond f o ne e = ground arith

  filled-apart :
      (f g : ℕ) (b b' : List ℕ)
      → f < field_count
      → g < field_count
      → f ≢ g
      → new_view f ≡ some b
      → new_view g ≡ some b'
      → FieldsApart l filled f g b b'
  filled-apart f g b b' kf kg ne ef eg = elim (ℕ_discrete f field) [
    | yes same ↦
        let gne : g ≢ field = λ e. ne (same ∙ sym e) in
        subst (λ x. FieldsApart l filled x g b b') (sym same)
          (subst (λ x. FieldsApart l filled field g x b') (at_field f b same ef)
            (free g b' kg gne (beyond g (some b') gne eg)))
    | no fne ↦ elim (ℕ_discrete g field) [
      | yes same ↦
          subst (λ x. FieldsApart l filled f x b b') (sym same)
            (subst (λ x. FieldsApart l filled f field b x) (at_field g b' same eg)
              (flip (free f b kf fne (beyond f (some b) fne ef))))
      | no gne ↦
          apart f g b b' kf kg fne gne ne (beyond f (some b) fne ef) (beyond g (some b') gne eg)
    ]
  ]
    where
      flip : {A B : Type 0} → A ⊎ B → B ⊎ A
      flip (inl h) = inr h
      flip (inr h) = inl h

  pub filled-Carries : Carries l floor filled new_view
  filled-Carries = record {
    unset = λ f known e. elim (ℕ_discrete f field) [
      | yes same ↦ absurd (ground arith)
      | no ne ↦ unset f known ne (beyond f none ne e)
    ];
    set = λ f b known e. elim (ℕ_discrete f field) [
      | yes same ↦
          subst (λ x. Lies l floor filled x b) (sym same)
            (subst (Lies l floor filled field) (at_field f b same e) same_field)
      | no ne ↦ other_field f b known ne (beyond f (some b) ne e)
    ];
    apart = filled-apart;
  }

  module _ {T : Type 0} {E : Encoder T} {Fits : T → Type 0} {image : T → List ℕ}
      (is_encoder : IsEncoder E Fits image) (v : T) (is_image : image v ≡ bytes) where
    pub encode_field-filled : encode_field l E field v m ≡ ok (filled, true)
    unfolding encode_field
    encode_field-filled =
        let small = payload_count-lt-ptr_word l is in
        let pos = blocks_pos l is (length bytes) some_bytes in
        rw
          (
            cast-small (ptr_word l) p (omega arith),
            lt→ltb p (payload_count l) (omega arith),
            is_encoder.writes (memory l m.array) (p * l.alignment) v,
            is_image,
          )
          refl
