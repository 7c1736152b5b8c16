-- ===== src/Tests/EncodingExamples.antt =====
-- The theorems on encoders and prefixes at inputs that meet their hypotheses.
use foster_btree.Prelude.{ℕ, ◌+◌, ◌-◌, ◌*◌, ◌^◌, ◌≡◌, refl, true, false, [], ◌∷◌, ◌++◌, arith}
use foster_btree.Prelude.Outcome.{ok}
use foster_btree.Bytes.{nth, to_bytes}
use foster_btree.Encoding.{IsEncoder}
use foster_btree.Encoding.Scalar.{scalar_encoder, IsScalar, scalar-IsEncoder, scalar-Measures}
use foster_btree.Encoding.Text.{text_encoder, IsShort, text_image, text-IsEncoder, text-Measures}
use foster_btree.Encoding.Fields.{
  tuple_encoder, variadic_encoder, no_fields, FitsBoth, both_images, variadic-IsEncoder, none_left,
  field_more, tuple_length_at-zero,
}
use foster_btree.Encoding.Compound.{
  IsRecordEncoder, reusing, encoding, reusing-IsRecordEncoder, encoding-IsRecordEncoder,
}
use foster_btree.Encoding.Prefix.{scalar_prefix, text_prefix}
use foster_btree.Encoding.Prefix.Scalar.{scalar_prefix-unsigned, scalar_prefix-signed}
use foster_btree.Encoding.Prefix.Lexicographic.{
  big_endian, text_prefix-big_endian, text_prefix_mono,
}
use foster_btree.Prelude.{ltb, ◌/◌, ◌%◌}
use foster_btree.Tests.Sample.{value_pos, text_pos}

encoding_example :
    IsRecordEncoder
      (encoding
        (scalar-IsEncoder 8)
        (scalar-Measures 8)
        value_pos
        text-IsEncoder
        text-Measures
        (λ k. nth k 0))
      (λ k v. IsShort k × IsScalar 8 v)
      (λ k v. text_image k ++ to_bytes 8 v)
      text_encoder.length_of
encoding_example =
    encoding-IsRecordEncoder (scalar-IsEncoder 8) (scalar-Measures 8) value_pos text-IsEncoder
      text-Measures (λ k. nth k 0)

reusing_example :
    IsRecordEncoder
      (reusing text-IsEncoder text-Measures text_pos {K = ℕ})
      (λ _ v. IsShort v)
      (λ _ v. text_image v)
      (λ _. 0)
reusing_example = reusing-IsRecordEncoder text-IsEncoder text-Measures text_pos {K = ℕ}

variadic_example :
    IsEncoder
      (variadic_encoder (scalar_encoder 4) text_encoder)
      (FitsBoth (scalar-IsEncoder 4) text-IsEncoder)
      (both_images (scalar-IsEncoder 4) text-IsEncoder)
variadic_example = variadic-IsEncoder (scalar-IsEncoder 4) text-IsEncoder

tuple_length_example :
    (tuple_encoder (scalar_encoder 4) (tuple_encoder text_encoder no_fields)).length_at (λ _. 7) 3
    ≡ 0
tuple_length_example =
    tuple_length_at-zero (field_more (scalar_encoder 4) (field_more text_encoder none_left))
      (λ _. 7) 3

unsigned_prefix_example :
    scalar_prefix 8 2 false 81985529216486895 ≡ ok (81985529216486895 / 256 ^ (8 - 2))
unsigned_prefix_example = scalar_prefix-unsigned 8 2 81985529216486895 (omega arith) (omega arith)

signed_prefix_example :
    scalar_prefix 8 2 true 18446744073709551615
    ≡ ok ((18446744073709551615 + 2 ^ (8 * 8 - 1)) % 256 ^ 8 / 256 ^ (8 - 2))
signed_prefix_example =
    scalar_prefix-signed 8 2 18446744073709551615 (omega arith) (omega arith) (omega arith)
      (omega arith)

text_prefix_example : text_prefix 4 (λ _. 9) (65 ∷ 66 ∷ []) ≡ big_endian 4 (65 ∷ 66 ∷ [])
text_prefix_example =
    text_prefix-big_endian 4 (λ _. 9) (65 ∷ 66 ∷ []) (omega arith, (omega arith, tt))

text_order_example :
    ltb (text_prefix 4 (λ _. 9) (65 ∷ 67 ∷ [])) (text_prefix 4 (λ _. 9) (65 ∷ 66 ∷ [])) ≡ false
text_order_example =
    text_prefix_mono 4 (λ _. 9) (65 ∷ 66 ∷ []) (65 ∷ 67 ∷ []) (omega arith, (omega arith, tt))
      (omega arith, (omega arith, tt)) refl
