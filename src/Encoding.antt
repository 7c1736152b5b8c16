-- ===== src/Encoding.antt =====
-- encoding.h: encoders write values into payload memory and read them back.
pub mod Scalar
pub mod Text
pub mod Fields
pub mod Compound
pub mod Prefix
use foster_btree.Prelude.{ℕ, ◌+◌, ◌≡◌, List, length}
use foster_btree.Bytes.{Memory, memcpy, Holds}

-- The static methods of an encoder class. An address is a distance from the start of the payload
-- area; `encode` and `decode` also return the address behind what they wrote or read. `decode` gets
-- the value that its out-parameter held before; `skip` is `decode` with a null pointer.
pub record Encoder (T : Type 0) : Type 0 where
  pub length_of : T → ℕ
  pub length_at : Memory → (address : ℕ) → ℕ
  pub encode : Memory → (dest : ℕ) → T → Memory × ℕ
  pub decode : Memory → (src : ℕ) → (old : T) → T × ℕ
  pub skip : Memory → (src : ℕ) → ℕ

-- What users of an encoder rely on. `image` is what a value looks like in memory; `Fits` says which
-- values have an image that can be read back.
pub record IsEncoder {T : Type 0} (E : Encoder T) (Fits : T → Type 0) (image : T → List ℕ)
    : Type 0 where
  pub length-image : (v : T) → length (image v) ≡ E.length_of v
  pub writes :
      (m : Memory) (d : ℕ) (v : T) → E.encode m d v ≡ (memcpy m d (image v), d + E.length_of v)
  pub reads :
      (m : Memory) (d : ℕ) (v old : T)
      → Fits v
      → Holds m d (image v)
      → E.decode m d old ≡ (v, d + E.length_of v)
  pub skips :
      (m : Memory) (d : ℕ) (v : T) → Fits v → Holds m d (image v) → E.skip m d ≡ d + E.length_of v

-- `get_payload_length(void*)` finds the length of what `encode` wrote.
abbrev pub Measures : {T : Type 0} (E : Encoder T) (Fits : T → Type 0) (image : T → List ℕ) → Type 0
Measures {T} E Fits image =
    (m : Memory) (d : ℕ) (v : T) → Fits v → Holds m d (image v) → E.length_at m d ≡ E.length_of v
