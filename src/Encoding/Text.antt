-- ===== src/Encoding/Text.antt =====
-- encoding.h: `InlineEncoder<string>`, a 16-bit length and then the characters.
use foster_btree.Prelude.{ℕ, ◌+◌, ◌<◌, ◌^◌, ◌≡◌, arith, List, ◌++◌, length, length-append}
use foster_btree.Prelude.Words.{cast, cast-small}
use foster_btree.Bytes.{
  Memory, memcpy, read, Holds, to_bytes, of_bytes, length-to_bytes, read_integer, read-Holds,
  memcpy-append, Holds-append,
}
use foster_btree.Encoding.{Encoder, IsEncoder, Measures}

-- A `string` by its bytes; `sizeof(LengthType)` is 2.
abbrev pub Text : Type 0
Text = List ℕ

abbrev pub length_word : ℕ
length_word = 2 ^ 16

-- `*(reinterpret_cast<LengthType*>(src))`
unfoldable pub length_field : Memory → ℕ → ℕ
length_field m src = of_bytes (read m src 2)

unfoldable pub text_encoder : Encoder Text
text_encoder = record {
  length_of = λ value. 2 + length value;
  length_at = λ m address. length_field m address + 2;
  encode = λ m dest value.
      let m' = memcpy m dest (to_bytes 2 (cast length_word (length value))) in
      (memcpy m' (dest + 2) value, dest + 2 + length value);
  decode = λ m src _. (read m (src + 2) (length_field m src), src + 2 + length_field m src);
  skip = λ m src. src + 2 + length_field m src;
}

-- A string whose length the length field can hold.
abbrev pub IsShort : Text → Type 0
IsShort value = length value < length_word

abbrev pub text_image : Text → List ℕ
text_image value = to_bytes 2 (cast length_word (length value)) ++ value

text-length : (v : Text) → length (text_image v) ≡ 2 + length v
text-length v = omega (
  arith,
  length-append (to_bytes 2 (cast length_word (length v))) v,
  length-to_bytes 2 (cast length_word (length v)),
)

module _ (m : Memory) (d : ℕ) (v : Text) where
  text-writes : text_encoder.encode m d v ≡ (memcpy m d (text_image v), d + (2 + length v))
  unfolding text_encoder
  text-writes =
      let field = to_bytes 2 (cast length_word (length v)) in
      let e : length field ≡ 2 = length-to_bytes 2 (cast length_word (length v)) in
      let copied = memcpy-append m d field v in
      let e' : d + 2 + length v ≡ d + (2 + length v) = omega arith in
      let copied' = rw e at copied in rw (copied', e')

  module _ (short : IsShort v) (held : Holds m d (text_image v)) where
    text-field : length_field m d ≡ length v
    unfolding length_field
    text-field =
        let small = cast-small length_word (length v) short in
        read_integer m d 2 (length v) short
          (rw small at (Holds-append m d (to_bytes 2 (cast length_word (length v))) v held).0)

    text-body : read m (d + 2) (length v) ≡ v
    text-body =
        let field = to_bytes 2 (cast length_word (length v)) in
        let e : length field ≡ 2 = length-to_bytes 2 (cast length_word (length v)) in
        read-Holds m (d + 2) v (rw e at (Holds-append m d field v held).1)

    text-reads : (old : Text) → text_encoder.decode m d old ≡ (v, d + (2 + length v))
    unfolding text_encoder
    text-reads old =
        let e : d + 2 + length v ≡ d + (2 + length v) = omega arith in rw (text-field, text-body, e)

    text-skips : text_encoder.skip m d ≡ d + (2 + length v)
    unfolding text_encoder
    text-skips = omega (arith, text-field)

    text-measures : text_encoder.length_at m d ≡ 2 + length v
    unfolding text_encoder
    text-measures = omega (arith, text-field)

-- `InlineEncoder<string>` writes a 16-bit length and the characters; of a string shorter than 65536
-- it reads back the same string, and reading and skipping end behind it.
pub text-IsEncoder : IsEncoder text_encoder IsShort text_image
unfolding text_encoder
text-IsEncoder = record {
  length-image = text-length;
  writes = text-writes;
  reads = λ m d v old short held. text-reads m d v short held old;
  skips = text-skips;
}

pub text-Measures : Measures text_encoder IsShort text_image
unfolding text_encoder
text-Measures m d v short held = text-measures m d v short held
