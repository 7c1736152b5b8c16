-- ===== src/Encoding/Prefix/Scalar.antt =====
-- encoding.h: the normalized key of a scalar key is its most significant bytes.
use native.Mathlib.Nat.{
  mod-lt, mod-eq_of_lt, add-mul-div_right, add-mul-mod_self_right, pow-suc, div-lt_iff_lt-mul,
  one-le-pow,
}
use foster_btree.Prelude.{
  ℕ, suc, ◌+◌, ◌-◌, ◌*◌, ◌/◌, ◌%◌, ◌^◌, ◌≤◌, ◌<◌, ◌≡◌, refl, ◌∙◌, sym, ap, subst, true, false,
  arith, dec_lt, le→leb, lt→ltb,
}
use foster_btree.Prelude.Outcome.{ok}
use foster_btree.Prelude.Words.{cast}
use foster_btree.Bytes.{nth, read, to_bytes, of_bytes, of_bytes-to_bytes}
use foster_btree.Bytes.Digits.{
  pow_add, bytes_as_bits, digit, nth-to_bytes, read-agrees, digit-of_bytes, read-digits,
}
use foster_btree.Encoding.Prefix.{swap_endianness, shift_one, flip_sign, scalar_prefix}

digit-lt : (i v : ℕ) → digit i v < 256
digit-lt i v = mod-lt (v / 256 ^ i) (omega arith)

-- The bytes of a swapped integer are those of the integer, backwards.
pub swap_endianness-read :
    (size u : ℕ) → swap_endianness size u ≡ of_bytes (read (λ k. digit (size - k - 1) u) 0 size)
unfolding swap_endianness
swap_endianness-read size u =
    ap of_bytes
      (read-agrees _ _ 0 0 size (λ k h. nth-to_bytes size u (size - (0 + k) - 1) (omega arith)))

pub digit-swap_endianness :
    (size u i : ℕ) → i < size → digit i (swap_endianness size u) ≡ digit (size - i - 1) u
digit-swap_endianness size u i h =
    ap (digit i) (swap_endianness-read size u)
    ∙ (digit-of_bytes _ 0 size i (λ k p. digit-lt _ u) h
        ∙ ap (λ k. digit (size - k - 1) u) (omega arith))

-- Toggling the top bit before dropping low bits is toggling it afterwards.
toggled :
    (k x a : ℕ) → 0 < x → k < (a + a) * x → (k / x + a) % (a + a) ≡ (k + a * x) % ((a + a) * x) / x
toggled k x a pos h =
    let twice : (a + a) * x ≡ a * x + a * x = omega arith in
    elim (dec_lt k (a * x)) [
      | yes low ↦
          let q_low : k / x < a = (div-lt_iff_lt-mul pos).1 low in
          let left : (k / x + a) % (a + a) ≡ k / x + a = mod-eq_of_lt (omega (arith, q_low)) in
          let right : (k + a * x) % ((a + a) * x) ≡ k + a * x =
            mod-eq_of_lt (omega (arith, twice)) in
          left ∙ (sym (add-mul-div_right k a pos) ∙ ap (λ n. n / x) (sym right))
      | no high ↦
          let rest = k - a * x in
          let whole : k ≡ rest + a * x = omega arith in
          let q : k / x ≡ rest / x + a = ap (λ n. n / x) whole ∙ add-mul-div_right rest a pos in
          let q_low : rest / x < a = (div-lt_iff_lt-mul pos).1 (omega (arith, twice)) in
          let over : k / x + a ≡ rest / x + 1 * (a + a) = omega (arith, q) in
          let over' : k + a * x ≡ rest + 1 * ((a + a) * x) = omega (arith, twice) in
          let left : (k / x + a) % (a + a) ≡ rest / x =
            ap (λ n. n % (a + a)) over
            ∙ (add-mul-mod_self_right (rest / x) 1 (a + a) ∙ mod-eq_of_lt (omega (arith, q_low))) in
          let right : (k + a * x) % ((a + a) * x) ≡ rest =
            ap (λ n. n % ((a + a) * x)) over'
            ∙ (add-mul-mod_self_right rest 1 ((a + a) * x) ∙ mod-eq_of_lt (omega (arith, twice))) in
          left ∙ sym (ap (λ n. n / x) right)
    ]

module _ (size : ℕ) (pos : 0 < size) where
  abbrev half : ℕ
  half = 2 ^ (size * 8 - 1)

  two_halves : 256 ^ size ≡ half + half
  two_halves =
      let e : size * 8 ≡ suc (size * 8 - 1) = omega arith in
      bytes_as_bits size ∙ (ap (λ n. 2 ^ n) e ∙ (pow-suc 2 (size * 8 - 1) ∙ omega arith))

  wide_half :
      (key_size : ℕ) → size ≤ key_size → 2 ^ (key_size * 8 - 1) ≡ half * 256 ^ (key_size - size)
  wide_half key_size le =
      let e : key_size * 8 - 1 ≡ size * 8 - 1 + (key_size - size) * 8 = omega arith in
      ap (λ n. 2 ^ n) e
      ∙ (pow_add 2 (size * 8 - 1) ((key_size - size) * 8)
          ∙ ap (λ n. half * n) (sym (bytes_as_bits (key_size - size))))

-- Swapped, cut and swapped back.
module _ (key_size size key : ℕ) (shorter : size ≤ key_size) (fits : key < 256 ^ key_size) where
  first-swapped :
      read (nth (to_bytes key_size (swap_endianness key_size key))) 0 size
      ≡ read (λ k. digit (key_size - k - 1) key) 0 size
  first-swapped = read-agrees _ _ 0 0 size (λ k p.
      nth-to_bytes key_size (swap_endianness key_size key) (0 + k) (omega arith)
      ∙ digit-swap_endianness key_size key (0 + k) (omega arith))

  abbrev first_bytes : ℕ
  first_bytes = of_bytes (read (λ k. digit (key_size - k - 1) key) 0 size)

  first_bytes-digit :
      (k : ℕ)
      → k < size
      → digit (size - (0 + k) - 1) first_bytes ≡ digit (key_size - size + (0 + k)) key
  first_bytes-digit k h =
      digit-of_bytes _ 0 size (size - (0 + k) - 1) (λ i p. digit-lt _ key) (omega arith)
      ∙ ap (λ i. digit i key) (omega arith)

  high-lt : key / 256 ^ (key_size - size + 0) < 256 ^ size
  high-lt =
      (div-lt_iff_lt-mul (one-le-pow (key_size - size + 0) 256 (omega arith))).1
        (subst (λ b. key < b) split fits)
    where
      split : 256 ^ key_size ≡ 256 ^ size * 256 ^ (key_size - size + 0)
      split = ap (λ n. 256 ^ n) (omega arith) ∙ pow_add 256 size (key_size - size + 0)

  prefix-div :
      swap_endianness size
        (of_bytes (read (nth (to_bytes key_size (swap_endianness key_size key))) 0 size))
      ≡ key / 256 ^ (key_size - size)
  prefix-div =
      ap (λ xs. swap_endianness size (of_bytes xs)) first-swapped
      ∙ (swap_endianness-read size first_bytes
          ∙ (ap of_bytes (
                read-agrees _ _ 0 0 size first_bytes-digit
                ∙ read-digits key (key_size - size) 0 size)
              ∙ (of_bytes-to_bytes size (key / 256 ^ (key_size - size + 0)) high-lt
                  ∙ ap (λ j. key / 256 ^ j) (omega arith))))

  -- For a key that fits its type, at least as large as the normalized key's: `PoormanPrefixing`
  -- between unsigned types gives the key without its low bytes.
  pub scalar_prefix-unsigned :
      scalar_prefix key_size size false key ≡ ok (key / 256 ^ (key_size - size))
  unfolding scalar_prefix
  scalar_prefix-unsigned = rw (le→leb size key_size shorter, prefix-div) refl

  -- For a signed key by its object representation and an unsigned normalized key of 1 to 4 bytes,
  -- not larger than the key: `PoormanPrefixing` gives the distance of the key from the least value
  -- of its type, without its low bytes.
  pub scalar_prefix-signed :
      0 < size
      → size < 5
      → scalar_prefix key_size size true key
        ≡ ok ((key + 2 ^ (key_size * 8 - 1)) % 256 ^ key_size / 256 ^ (key_size - size))
  unfolding scalar_prefix flip_sign shift_one cast
  scalar_prefix-signed pos small =
      rw (le→leb size key_size shorter, prefix-div, lt→ltb (size * 8 - 1) 32 (omega arith))
        (ap ok (
          rw (whole, two_halves size pos, wide_half size pos key_size shorter)
            (toggled key (256 ^ (key_size - size)) (half size pos)
              (one-le-pow (key_size - size) 256 (omega arith)) (rw whole at fits))))
    where
      whole : 256 ^ key_size ≡ (half size pos + half size pos) * 256 ^ (key_size - size)
      whole =
          let e : key_size ≡ size + (key_size - size) = omega arith in
          ap (λ n. 256 ^ n) e
          ∙ (pow_add 256 size (key_size - size)
              ∙ ap (λ n. n * 256 ^ (key_size - size)) (two_halves size pos))
