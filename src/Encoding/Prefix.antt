-- ===== src/Encoding/Prefix.antt =====
-- encoding.h: `swap_endianness`, `NoPrefixing` and `PoormanPrefixing`, which make normalized keys.
pub mod Scalar
pub mod Lexicographic
use foster_btree.Prelude.{
  ℕ, zero, suc, ◌+◌, ◌-◌, ◌*◌, ◌^◌, Bool, List, [], ◌∷◌, ltb, leb, if◌then◌else◌, length,
}
use foster_btree.Prelude.Words.{cast}
use foster_btree.Prelude.Outcome.{Outcome, ok, throw, undefined_behavior, ◌>>=◌}
use foster_btree.Bytes.{Memory, memcpy, nth, read, to_bytes, of_bytes}
use foster_btree.Encoding.Text.{Text}

-- `dest.u8[k] = source.u8[sizeof(T) - k - 1]`, for a type of `size` bytes.
unfoldable pub swap_endianness : (size u : ℕ) → ℕ
swap_endianness size u = of_bytes (read (λ k. nth (to_bytes size u) (size - k - 1)) 0 size)

-- `NoPrefixing`
unfoldable pub no_prefixing : {K : Type 0} → K → K
no_prefixing key = key

-- `1 << n` of an `int`, which has 32 bits: a shift by 32 or more is undefined.
unfoldable pub shift_one : (n : ℕ) → Outcome ℕ
shift_one n = if ltb n 32 then ok (2 ^ n) else throw undefined_behavior

-- `prefix ^ (1 << (sizeof(PMNK_Type) * 8 - 1))`: the top bit is toggled, which is adding it.
unfoldable pub flip_sign : (size prefix : ℕ) → Outcome ℕ
flip_sign size prefix =
    shift_one (size * 8 - 1) >>= λ (mask : ℕ). ok (cast (256 ^ size) (prefix + mask))

-- `PoormanPrefixing<K, PMNK_Type>` of a key of `key_size` bytes, given as its object representation;
-- `flips` says whether `K` is signed and `PMNK_Type` is not. The union is written by one member
-- and its first bytes are read by the other.
unfoldable pub scalar_prefix : (key_size size : ℕ) (flips : Bool) (key : ℕ) → Outcome ℕ
scalar_prefix key_size size flips key =
    let first = λ (swapped : ℕ). of_bytes (read (nth (to_bytes key_size swapped)) 0 size) in
    let prefix =
      if leb size key_size
      then swap_endianness size (first (swap_endianness key_size key))
      else first key in
    if flips then flip_sign size prefix else ok prefix

-- `PoormanPrefixing<string, PMNK_Type>`; `uninitialised` is what the union holds before.
unfoldable pub text_prefix : (size : ℕ) (uninitialised : Memory) (key : Text) → ℕ
text_prefix size uninitialised key =
    let short = ltb (length key) size in
    let amount = if short then length key else size in
    let bytes = memcpy (if short then (λ _. 0) else uninitialised) 0 (read (nth key) 0 amount) in
    swap_endianness size (of_bytes (read bytes 0 size))
