-- ===== src/Encoding/Scalar.antt =====
-- encoding.h: `InlineEncoder<T>` for a scalar type of `size` bytes, read as an unsigned integer, and
-- `DummyEncoder`.
use foster_btree.Prelude.{ℕ, ◌+◌, ◌<◌, ◌^◌, ◌≡◌, refl}
use foster_btree.Bytes.{
  Memory, memcpy, read, Holds, to_bytes, of_bytes, length-to_bytes, read_integer,
}
use foster_btree.Encoding.{Encoder, IsEncoder, Measures}

-- `memcpy` of the object representation, both ways.
unfoldable pub scalar_encoder : (size : ℕ) → Encoder ℕ
scalar_encoder size = record {
  length_of = λ _. size;
  length_at = λ _ _. size;
  encode = λ m dest value. (memcpy m dest (to_bytes size value), dest + size);
  decode = λ m src _. (of_bytes (read m src size), src + size);
  skip = λ _ src. src + size;
}

-- `DummyEncoder<T>` writes nothing and assigns nothing.
unfoldable pub dummy_encoder : {T : Type 0} → Encoder T
dummy_encoder = record {
  length_of = λ _. 0;
  length_at = λ _ _. 0;
  encode = λ m dest _. (m, dest);
  decode = λ _ src old. (old, src);
  skip = λ _ src. src;
}

-- A value of the type.
abbrev pub IsScalar : (size value : ℕ) → Type 0
IsScalar size value = value < 256 ^ size

scalar-reads :
    (size : ℕ) (m : Memory) (d v old : ℕ)
    → IsScalar size v
    → Holds m d (to_bytes size v)
    → (scalar_encoder size).decode m d old ≡ (v, d + size)
unfolding scalar_encoder
scalar-reads size m d v old fits held = rw (read_integer m d size v fits held)

pub scalar-IsEncoder : (size : ℕ) → IsEncoder (scalar_encoder size) (IsScalar size) (to_bytes size)
unfolding scalar_encoder
scalar-IsEncoder size = record {
  length-image = length-to_bytes size;
  writes = λ m d v. refl;
  reads = scalar-reads size;
  skips = λ m d v _ _. refl;
}

pub scalar-Measures : (size : ℕ) → Measures (scalar_encoder size) (IsScalar size) (to_bytes size)
unfolding scalar_encoder
scalar-Measures size m d v _ _ = refl
