-- ===== src/Encoding/Fields.antt =====
-- encoding.h: `TupleEncodingHelper` and `VariadicEncodingHelper`, field by field. A tuple is a pair
-- of its first field and the tuple of the others.
use foster_btree.Prelude.{ℕ, ◌+◌, ◌≡◌, refl, arith, List, ◌++◌, length, length-append}
use foster_btree.Bytes.{Memory, memcpy, Holds, memcpy-append, Holds-append}
use foster_btree.Encoding.{Encoder, IsEncoder, Measures}

-- Behind the last field.
unfoldable pub no_fields : Encoder (Unit {0})
no_fields = record {
  length_of = λ _. 0;
  length_at = λ _ _. 0;
  encode = λ m dest _. (m, dest);
  decode = λ _ src old. (old, src);
  skip = λ _ src. src;
}

module _ {A R : Type 0} (E : Encoder A) (rest : Encoder R) where
  -- What both helpers share: one field after the other.
  abbrev pub fields_encoder : (Memory → ℕ → ℕ) → Encoder (A × R)
  fields_encoder length_at = record {
    length_of = λ (v : A × R). E.length_of v.0 + rest.length_of v.1;
    length_at = length_at;
    encode = λ m dest (v : A × R). let (m', next) = E.encode m dest v.0 in rest.encode m' next v.1;
    decode = λ m src (old : A × R).
        let (a, next) = E.decode m src old.0 in
        let (r, end) = rest.decode m next old.1 in ((a, r), end);
    skip = λ m src. rest.skip m (E.skip m src);
  }

  -- `TupleEncodingHelper`. Its `get_payload_length(void*)` returns the length of the fields behind
  -- the first, as the source has it.
  unfoldable pub tuple_encoder : Encoder (A × R)
  tuple_encoder = fields_encoder (λ m address. rest.length_at m (address + E.length_at m address))

  -- `VariadicEncodingHelper`
  unfoldable pub variadic_encoder : Encoder (A × R)
  variadic_encoder =
      fields_encoder
        (λ m address. E.length_at m address + rest.length_at m (address + E.length_at m address))

module _ {A R : Type 0} {E : Encoder A} {rest : Encoder R} {FitsA : A → Type 0} {FitsR : R → Type 0}
    {imageA : A → List ℕ} {imageR : R → List ℕ} (isE : IsEncoder E FitsA imageA)
    (isR : IsEncoder rest FitsR imageR) where
  abbrev pub FitsBoth : A × R → Type 0
  FitsBoth v = FitsA v.0 × FitsR v.1

  abbrev pub both_images : A × R → List ℕ
  both_images v = imageA v.0 ++ imageR v.1

  length-both : (v : A × R) → length (both_images v) ≡ E.length_of v.0 + rest.length_of v.1
  length-both v =
      omega
        (arith, length-append (imageA v.0) (imageR v.1), isE.length-image v.0, isR.length-image v.1)

  module _ (m : Memory) (d : ℕ) (v : A × R) where
    abbrev next : ℕ
    next = d + E.length_of v.0

    ends : next + rest.length_of v.1 ≡ d + (E.length_of v.0 + rest.length_of v.1)
    ends = omega arith

    fields-writes :
        rest.encode (E.encode m d v.0).0 (E.encode m d v.0).1 v.1
        ≡ (memcpy m d (both_images v), d + (E.length_of v.0 + rest.length_of v.1))
    fields-writes =
        let copied = memcpy-append m d (imageA v.0) (imageR v.1) in
        let copied' = rw (isE.length-image v.0) at copied in
        rw (isE.writes m d v.0, isR.writes (memcpy m d (imageA v.0)) next v.1, ends, copied')

    module _ (fits : FitsBoth v) (held : Holds m d (both_images v)) where
      held_first : Holds m d (imageA v.0)
      held_first = (Holds-append m d (imageA v.0) (imageR v.1) held).0

      held_rest : Holds m next (imageR v.1)
      held_rest = rw (isE.length-image v.0) at (Holds-append m d (imageA v.0) (imageR v.1) held).1

      fields-reads :
          (old : A × R)
          → (fields_encoder E rest (λ _ _. 0)).decode m d old
            ≡ (v, d + (E.length_of v.0 + rest.length_of v.1))
      fields-reads old = rw (
        isE.reads m d v.0 old.0 fits.0 held_first,
        isR.reads m next v.1 old.1 fits.1 held_rest,
        ends,
      )

      fields-skips : rest.skip m (E.skip m d) ≡ d + (E.length_of v.0 + rest.length_of v.1)
      fields-skips =
          rw (isE.skips m d v.0 fits.0 held_first, isR.skips m next v.1 fits.1 held_rest, ends)

      variadic-measures :
          Measures E FitsA imageA
          → Measures rest FitsR imageR
          → E.length_at m d + rest.length_at m (d + E.length_at m d)
            ≡ E.length_of v.0 + rest.length_of v.1
      variadic-measures meA meR =
          rw (meA m d v.0 fits.0 held_first, meR m next v.1 fits.1 held_rest)

  -- From encoders of the first field and of the others with their laws, `TupleEncodingHelper`
  -- writes them one after the other, and reads all of them back.
  pub tuple-IsEncoder : IsEncoder (tuple_encoder E rest) FitsBoth both_images
  unfolding tuple_encoder
  tuple-IsEncoder = record {
    length-image = length-both;
    writes = fields-writes;
    reads = λ m d v old fits held. fields-reads m d v fits held old;
    skips = fields-skips;
  }

  -- From encoders of the first field and of the others with their laws, `VariadicEncodingHelper`
  -- writes them one after the other, and reads all of them back.
  pub variadic-IsEncoder : IsEncoder (variadic_encoder E rest) FitsBoth both_images
  unfolding variadic_encoder
  variadic-IsEncoder = record {
    length-image = length-both;
    writes = fields-writes;
    reads = λ m d v old fits held. fields-reads m d v fits held old;
    skips = fields-skips;
  }

  -- If the encoders of the fields report the length of what lies in memory,
  -- `VariadicEncodingHelper` reports the sum of the fields' lengths for what it wrote.
  pub variadic-Measures :
      Measures E FitsA imageA
      → Measures rest FitsR imageR
      → Measures (variadic_encoder E rest) FitsBoth both_images
  unfolding variadic_encoder
  variadic-Measures meA meR m d v fits held = variadic-measures m d v fits held meA meR

-- The length that a tuple's encoder reports of what lies in memory is 0, whatever lies there.
pub data IsTupleEncoder : (T : Type 0) → Encoder T → Type 1 where
  none_left : IsTupleEncoder (Unit {0}) no_fields
  field_more :
      {A R : Type 0} (E : Encoder A) {rest : Encoder R}
      → IsTupleEncoder R rest
      → IsTupleEncoder (A × R) (tuple_encoder E rest)

-- The length that a tuple's encoder reports of a tuple in memory is 0, however many fields it has
-- and whatever lies there.
pub tuple_length_at-zero :
    {T : Type 0} {E : Encoder T}
    → IsTupleEncoder T E
    → (m : Memory) (address : ℕ) → E.length_at m address ≡ 0
unfolding no_fields tuple_encoder
tuple_length_at-zero none_left m address = refl
tuple_length_at-zero (field_more E is) m address =
    tuple_length_at-zero is m (address + E.length_at m address)
