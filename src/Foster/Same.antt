-- ===== src/Foster/Same.antt =====
-- node_foster.h: what is read from the fields depends on what they hold alone.
use foster_btree.Prelude.{ℕ, ◌≤◌, ◌<◌, ◌≡◌, refl, sym, ◌∙◌, ◌⊎◌, inl, inr, none, some, List, arith}
use foster_btree.Prelude.KeyOrder.{KeyOrder}
use foster_btree.Layout.{Layout, IsLayout}
use foster_btree.SlotArray.Defs.{SlotArray, byte_at}
use foster_btree.Encoding.{Encoder, IsEncoder}
use foster_btree.Foster.{
  FosterNode, field_count, low_key_field, high_key_field, foster_ptr_field, get_foster_field,
  get_foster_child, fence_contains,
}
use foster_btree.Foster.Carries.{View, Carries, get_foster_field-some, get_foster_field-none}

-- A field is not set, or holds a value that can be read back.
abbrev pub IsReadable :
    {T : Type 0} → (Fits : T → Type 0) (image : T → List ℕ) (view : View) (field : ℕ) → Type 0
IsReadable {T} Fits image view field =
    (view field ≡ none) ⊎ ((v : T) × Fits v × (view field ≡ some (image v)))

module _ (l : Layout) {P : Type 0} {floor : ℕ} {n : FosterNode P} {view : View}
    (c : Carries l floor n view) where
  -- Changes of the array before the fields do not matter.
  pub Carries-array :
      (s : SlotArray P)
      → ((p o : ℕ) → floor ≤ p → byte_at l s p o ≡ byte_at l n.array p o)
      → Carries l floor (record n { array = s }) view
  Carries-array s same = record {
    unset = c.unset;
    set = λ f b known e.
        let lies = c.set f b known e in
        record {
          is_valid = lies.is_valid;
          after_floor = lies.after_floor;
          before_end = lies.before_end;
          nonempty = lies.nonempty;
          bytes_eq = λ o h. same (n.fields.payloads f) o lies.after_floor ∙ lies.bytes_eq o h;
        };
    apart = c.apart;
  }

module _ (l : Layout) (is : IsLayout l) {P : Type 0} {floor floor' : ℕ} {n n' : FosterNode P}
    {view : View} (c : Carries l floor n view) (c' : Carries l floor' n' view) where
  module _ {T : Type 0} {E : Encoder T} {Fits : T → Type 0} {image : T → List ℕ}
      (is_encoder : IsEncoder E Fits image) where
    same_field :
        (field : ℕ) (old : T)
        → field < field_count
        → IsReadable Fits image view field
        → get_foster_field l E field old n' ≡ get_foster_field l E field old n
    same_field field old known (inl e) =
        get_foster_field-none l is is_encoder c' field known old e
        ∙ sym (get_foster_field-none l is is_encoder c field known old e)
    same_field field old known (inr (v, fits, e)) =
        get_foster_field-some l is is_encoder c' field known v old fits e
        ∙ sym (get_foster_field-some l is is_encoder c field known v old fits e)

  module _ {K : Type 0} (o : KeyOrder K) {key_encoder : Encoder K} {ptr_encoder : Encoder ℕ}
      {KeyFits : K → Type 0} {key_image : K → List ℕ} {PtrFits : ℕ → Type 0}
      {ptr_image : ℕ → List ℕ} (is_key : IsEncoder key_encoder KeyFits key_image)
      (is_ptr : IsEncoder ptr_encoder PtrFits ptr_image) where
    -- Two nodes whose fields hold the same have the same foster child,
    pub same_child :
        (old : ℕ)
        → IsReadable PtrFits ptr_image view foster_ptr_field
        → get_foster_child l o key_encoder ptr_encoder old n'
          ≡ get_foster_child l o key_encoder ptr_encoder old n
    unfolding get_foster_child
    same_child old readable =
        rw (same_field is_ptr foster_ptr_field old (omega arith) readable) refl

    -- and admit the same keys.
    pub same_fences :
        (low high key : K)
        → IsReadable KeyFits key_image view low_key_field
        → IsReadable KeyFits key_image view high_key_field
        → fence_contains l o key_encoder ptr_encoder low high key n'
          ≡ fence_contains l o key_encoder ptr_encoder low high key n
    unfolding fence_contains
    same_fences low high key low_readable high_readable =
        rw
          (
            same_field is_key low_key_field low (omega arith) low_readable,
            same_field is_key high_key_field high (omega arith) high_readable,
          )
          refl
