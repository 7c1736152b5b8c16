-- ===== src/Bytes/Digits.antt =====
-- The bytes of integers as digits to the base 256.
use native.Mathlib.Nat.{pow-suc, pow-zero, div-div-eq-div-mul, div-one}
use mathlib.Core.Path.{ap₂}
use foster_btree.Prelude.{
  ℕ, zero, suc, ◌+◌, ◌*◌, ◌/◌, ◌%◌, ◌^◌, ◌<◌, ◌≡◌, refl, ◌∙◌, sym, ap, ◌∷◌, arith,
}
use foster_btree.Bytes.{Memory, nth, read, to_bytes, of_bytes}

pub pow_add : (b x y : ℕ) → b ^ (x + y) ≡ b ^ x * b ^ y
pow_add b x zero = let e : x + 0 ≡ x = omega arith in rw (e, pow-zero b) (omega arith)
pow_add b x (suc y) =
    let e : x + suc y ≡ suc (x + y) = omega arith in
    ap (λ n. b ^ n) e
    ∙ (pow-suc b (x + y)
        ∙ (ap (λ n. n * b) (pow_add b x y)
            ∙ (grind arith ∙ ap (λ n. b ^ x * n) (sym (pow-suc b y)))))

-- Powers of 256 and of 2.
pub bytes_as_bits : (n : ℕ) → 256 ^ n ≡ 2 ^ (n * 8)
bytes_as_bits zero = refl
bytes_as_bits (suc n) =
    let e : suc n * 8 ≡ n * 8 + 8 = omega arith in
    rw (pow-suc 256 n, bytes_as_bits n, e, pow_add 2 (n * 8) 8) refl

-- Byte `i` of `value`, the low byte first.
abbrev pub digit : (i value : ℕ) → ℕ
digit i value = value / 256 ^ i % 256

pub digit-suc : (i value : ℕ) → digit (suc i) value ≡ digit i (value / 256)
digit-suc i value =
    ap (λ d. d % 256)
      (ap (λ p. value / p) (pow-suc 256 i ∙ (omega arith))
        ∙ sym (div-div-eq-div-mul value 256 (256 ^ i)))

pub nth-to_bytes : (n value i : ℕ) → i < n → nth (to_bytes n value) i ≡ digit i value
unfolding to_bytes
nth-to_bytes zero value i h = absurd (omega arith)
nth-to_bytes (suc n) value zero h = omega arith
nth-to_bytes (suc n) value (suc i) h =
    nth-to_bytes n (value / 256) i (omega arith) ∙ sym (digit-suc i value)

-- Reading the same bytes gives the same list.
pub read-agrees :
    (m m' : Memory) (s s' n : ℕ)
    → ((k : ℕ) → k < n → m (s + k) ≡ m' (s' + k))
    → read m s n ≡ read m' s' n
unfolding read
read-agrees m m' s s' zero h = refl
read-agrees m m' s s' (suc n) h =
    ap₂ ◌∷◌ (ap m (omega arith) ∙ (h 0 (omega arith) ∙ ap m' (omega arith))) (
      read-agrees m m' (suc s) (suc s') n
        (λ k p. ap m (omega arith) ∙ (h (suc k) (omega arith) ∙ ap m' (omega arith))))

-- A byte of the integer that was read.
pub digit-of_bytes :
    (m : Memory) (s n i : ℕ)
    → ((k : ℕ) → k < n → m (s + k) < 256)
    → i < n
    → digit i (of_bytes (read m s n)) ≡ m (s + i)
unfolding read of_bytes
digit-of_bytes m s zero i small h = absurd (omega arith)
digit-of_bytes m s (suc n) zero small h =
    let e : s + 0 ≡ s = omega arith in
    let byte : m s < 256 = rw e at (small 0 (omega arith)) in
    let one : 256 ^ 0 ≡ 1 = pow-zero 256 in
    rw (e, one, div-one (m s + 256 * of_bytes (read m (suc s) n))) (omega (arith, byte))
digit-of_bytes m s (suc n) (suc i) small h =
    let e : s + 0 ≡ s = omega arith in
    let byte : m s < 256 = rw e at (small 0 (omega arith)) in
    let rest : (m s + 256 * of_bytes (read m (suc s) n)) / 256 ≡ of_bytes (read m (suc s) n) =
      omega (arith, byte) in
    digit-suc i (m s + 256 * of_bytes (read m (suc s) n))
    ∙ (ap (digit i) rest
        ∙ (digit-of_bytes m (suc s) n i
              (λ k p.
                let f : suc s + k ≡ s + suc k = omega arith in rw f (small (suc k) (omega arith)))
              (omega arith)
            ∙ ap m (omega arith)))

-- Reading digits from `j` on drops the lower ones.
pub read-digits :
    (value j s n : ℕ) → read (λ k. digit (j + k) value) s n ≡ to_bytes n (value / 256 ^ (j + s))
unfolding read to_bytes
read-digits value j s zero = refl
read-digits value j s (suc n) =
    ap (λ xs. digit (j + s) value ∷ xs) (read-digits value j (suc s) n ∙ ap (to_bytes n) shifted)
  where
    shifted : value / 256 ^ (j + suc s) ≡ value / 256 ^ (j + s) / 256
    shifted =
        let e : j + suc s ≡ suc (j + s) = omega arith in
        ap (λ x. value / 256 ^ x) e
        ∙ (ap (λ x. value / x) (pow-suc 256 (j + s))
            ∙ sym (div-div-eq-div-mul value (256 ^ (j + s)) 256))

pub of_bytes-last :
    (m : Memory) (s n : ℕ)
    → of_bytes (read m s (suc n)) ≡ m (s + n) * 256 ^ n + of_bytes (read m s n)
unfolding read of_bytes
of_bytes-last m s zero =
    let e : s + 0 ≡ s = omega arith in
    let one : 256 ^ 0 ≡ 1 = pow-zero 256 in rw (e, one) (omega arith)
of_bytes-last m s (suc n) =
    let e : suc s + n ≡ s + suc n = omega arith in
    let rest = rw e at (of_bytes-last m (suc s) n) in
    let weight : m (s + suc n) * 256 ^ suc n ≡ m (s + suc n) * 256 ^ n * 256 =
      ap (λ p. m (s + suc n) * p) (pow-suc 256 n) ∙ grind arith in
    omega (arith, rest, weight)
