-- ===== src/Encoding/Prefix/Lexicographic.antt =====
-- encoding.h: the normalized key of a string key is its first characters as a big-endian number, and
-- follows the lexicographic order.
use native.Mathlib.Nat.{pow-suc, one-le-pow}
use foster_btree.Prelude.{
  ℕ, zero, suc, ◌+◌, ◌-◌, ◌*◌, ◌^◌, ◌≤◌, ◌<◌, ◌≡◌, refl, ◌∙◌, sym, ap, Bool, true, false, [], ◌∷◌,
  arith, ltb, ◌==◌, if◌then◌else◌, length, dec_lt, lt→ltb, ge→ltb, inr,
}
use foster_btree.Bytes.{
  Memory, memcpy, nth, read, of_bytes, memcpy-inside, memcpy-outside, length-read, nth-read,
}
use foster_btree.Bytes.Digits.{digit, read-agrees, digit-of_bytes, of_bytes-last}
use foster_btree.Encoding.Text.{Text}
use foster_btree.Encoding.Prefix.{text_prefix}
use foster_btree.Encoding.Prefix.Scalar.{swap_endianness-read}

-- The first `size` characters, the first one most significant; missing ones count as 0.
abbrev pub big_endian : (size : ℕ) → Text → ℕ
big_endian zero key = 0
big_endian (suc n) [] = 0
big_endian (suc n) (c ∷ cs) = c * 256 ^ n + big_endian n cs

-- The characters are bytes.
abbrev pub AreBytes : Text → Type 0
AreBytes [] = Unit {0}
AreBytes (c ∷ cs) = (c < 256) × AreBytes cs

-- `operator<` of strings, by unsigned characters.
abbrev pub text_lt : Text → Text → Bool
text_lt [] [] = false
text_lt [] (_ ∷ _) = true
text_lt (_ ∷ _) [] = false
text_lt (a ∷ xs) (b ∷ ys) =
    let rest = text_lt xs ys in if ltb a b then true else if a == b then rest else false

nth-lt : (key : Text) (i : ℕ) → AreBytes key → nth key i < 256
nth-lt [] i h = omega arith
nth-lt (c ∷ cs) zero h = h.0
nth-lt (c ∷ cs) (suc i) h = nth-lt cs i h.1

nth-beyond : (key : Text) (i : ℕ) → length key ≤ i → nth key i ≡ 0
nth-beyond [] i h = refl
nth-beyond (c ∷ cs) zero h = absurd (omega arith)
nth-beyond (c ∷ cs) (suc i) h = nth-beyond cs i (omega arith)

big_endian-nil : (n : ℕ) → big_endian n [] ≡ 0
big_endian-nil zero = refl
big_endian-nil (suc n) = refl

-- Read backwards, they are the big-endian number.
backwards : (n : ℕ) (key : Text) → of_bytes (read (λ k. nth key (n - k - 1)) 0 n) ≡ big_endian n key
unfolding read of_bytes
backwards zero key = refl
backwards (suc n) [] =
    of_bytes-last (λ k. nth [] (suc n - k - 1)) 0 n
    ∙ omega (arith, backwards n [], big_endian-nil n)
backwards (suc n) (c ∷ cs) =
    let first : suc n - (0 + n) - 1 ≡ 0 = omega arith in
    let rest : of_bytes (read (λ k. nth (c ∷ cs) (suc n - k - 1)) 0 n) ≡ big_endian n cs =
      ap of_bytes (read-agrees _ (λ k. nth cs (n - k - 1)) 0 0 n shifted) ∙ backwards n cs in
    of_bytes-last (λ k. nth (c ∷ cs) (suc n - k - 1)) 0 n
    ∙ (rw (rest, ap (nth (c ∷ cs)) first) refl)
  where
    shifted : (k : ℕ) → k < n → nth (c ∷ cs) (suc n - (0 + k) - 1) ≡ nth cs (n - (0 + k) - 1)
    shifted k h =
        let e : suc n - (0 + k) - 1 ≡ suc (n - (0 + k) - 1) = omega arith in ap (nth (c ∷ cs)) e

big_endian-lt : (n : ℕ) (key : Text) → AreBytes key → big_endian n key < 256 ^ n
big_endian-lt zero key h = omega arith
big_endian-lt (suc n) [] h = one-le-pow (suc n) 256 (omega arith)
big_endian-lt (suc n) (c ∷ cs) h = grind (arith, pow-suc 256 n, big_endian-lt n cs h.1)

copied : (m : Memory) (key : Text) (n i : ℕ) → i < n → memcpy m 0 (read (nth key) 0 n) i ≡ nth key i
copied m key n i h =
    let e : i ≡ 0 + i = omega arith in
    ap (memcpy m 0 (read (nth key) 0 n)) e
    ∙ (memcpy-inside m 0 (read (nth key) 0 n) i (omega (arith, length-read (nth key) 0 n))
        ∙ (nth-read (nth key) 0 n i h ∙ ap (nth key) (sym e)))

-- A smaller first character decides.
decided : (x y w c d : ℕ) → x < y → c < w → x * w + c ≤ y * w + d
decided x y w c d h l =
    let e : y ≡ x + 1 + (y - x - 1) = omega arith in
    let spread : (x + 1 + (y - x - 1)) * w ≡ x * w + w + (y - x - 1) * w = grind arith in
    omega (arith, ap (λ n. n * w) e ∙ spread)

big_endian_mono :
    (n : ℕ) (a b : Text)
    → AreBytes a
    → AreBytes b
    → text_lt a b ≡ true
    → big_endian n a ≤ big_endian n b
big_endian_mono zero a b ha hb h = omega arith
big_endian_mono (suc n) [] b ha hb h = omega arith
big_endian_mono (suc n) (x ∷ xs) [] ha hb h = absurd cc
big_endian_mono (suc n) (x ∷ xs) (y ∷ ys) ha hb h = elim (dec_lt x y) [
  | yes less ↦
      decided x y (256 ^ n) (big_endian n xs) (big_endian n ys) less (big_endian-lt n xs ha.1)
  | no not_less ↦
      let (same, rest) : (x ≡ y) × (text_lt xs ys ≡ true) = (ground arith, ground arith) in
      rw same (omega (arith, big_endian_mono n xs ys ha.1 hb.1 rest))
]

module _ (size : ℕ) (uninitialised : Memory) (key : Text) (bytes : AreBytes key) where
  -- The bytes of the union.
  union_bytes : ℕ → ℕ
  union_bytes =
      memcpy (if ltb (length key) size then (λ _. 0) else uninitialised) 0
        (read (nth key) 0 (if ltb (length key) size then length key else size))

  union_bytes-nth : (i : ℕ) → i < size → union_bytes i ≡ nth key i
  unfolding union_bytes
  union_bytes-nth i h = elim (dec_lt (length key) size) [
    | no long ↦ rw (ge→ltb (length key) size (omega arith)) (copied uninitialised key size i h)
    | yes short ↦ elim (dec_lt i (length key)) [
      | yes inside ↦ rw (lt→ltb (length key) size short) (copied (λ _. 0) key (length key) i inside)
      | no beyond ↦ rw (lt→ltb (length key) size short) (
          memcpy-outside (λ _. 0) 0 (read (nth key) 0 (length key)) i
            (inr (omega (arith, length-read (nth key) 0 (length key))))
          ∙ sym (nth-beyond key i (omega arith)))
    ]
  ]

  -- For a string of bytes, whatever the union held before: `PoormanPrefixing` gives the big-endian
  -- number of the first characters, missing ones taken as 0.
  pub text_prefix-big_endian : text_prefix size uninitialised key ≡ big_endian size key
  unfolding text_prefix union_bytes
  text_prefix-big_endian =
      swap_endianness-read size (of_bytes (read union_bytes 0 size))
      ∙ (ap of_bytes (read-agrees _ (λ k. nth key (size - k - 1)) 0 0 size same)
          ∙ backwards size key)
    where
      same :
          (k : ℕ)
          → k < size
          → digit (size - (0 + k) - 1) (of_bytes (read union_bytes 0 size))
            ≡ nth key (size - (0 + k) - 1)
      same k h =
          digit-of_bytes union_bytes 0 size (size - (0 + k) - 1)
            (λ i p. rw (union_bytes-nth (0 + i) (omega arith)) (nth-lt key (0 + i) bytes))
            (omega arith)
          ∙ (union_bytes-nth (0 + (size - (0 + k) - 1)) (omega arith) ∙ ap (nth key) (omega arith))

-- Of two strings of bytes in lexicographic order, the second does not have the smaller normalized
-- key.
pub text_prefix_mono :
    (size : ℕ) (uninitialised : Memory) (a b : Text)
    → AreBytes a
    → AreBytes b
    → text_lt a b ≡ true
    → ltb (text_prefix size uninitialised b) (text_prefix size uninitialised a) ≡ false
text_prefix_mono size uninitialised a b bytes_a bytes_b h =
    rw
      (
        text_prefix-big_endian size uninitialised a bytes_a,
        text_prefix-big_endian size uninitialised b bytes_b,
      )
      (ge→ltb (big_endian size b) (big_endian size a) (big_endian_mono size a b bytes_a bytes_b h))
