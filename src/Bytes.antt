-- ===== src/Bytes.antt =====
-- Bytes in memory: `memcpy`, and the object representation of unsigned integers on the
-- little-endian machines that encoding.h assumes.
pub mod Digits
use native.Mathlib.Nat.{pow-suc}
use foster_btree.Prelude.{
  ℕ, zero, suc, ◌+◌, ◌-◌, ◌*◌, ◌/◌, ◌%◌, ◌^◌, ◌≤◌, ◌<◌, ◌≡◌, refl, ◌⊎◌, List, [], ◌∷◌, ◌++◌, arith,
  ltb, if◌then◌else◌, length, length-append, fun_ext, ap, ◌∙◌,
}

abbrev pub Memory : Type 0
Memory = ℕ → ℕ

-- A byte of a list; behind its end, 0.
abbrev pub nth : List ℕ → ℕ → ℕ
nth [] i = 0
nth (x ∷ xs) zero = x
nth (x ∷ xs) (suc i) = nth xs i

-- `memcpy(dest, bytes, length)`
unfoldable pub memcpy : Memory → (dest : ℕ) → List ℕ → Memory
memcpy m dest bytes a =
    if ltb a dest then m a else if ltb (a - dest) (length bytes) then nth bytes (a - dest) else m a

-- The `n` bytes from `src` on.
unfoldable pub read : Memory → (src n : ℕ) → List ℕ
read m src zero = []
read m src (suc n) = m src ∷ read m (suc src) n

-- From address `d` on the memory holds these bytes.
abbrev pub Holds : Memory → ℕ → List ℕ → Type 0
Holds m d [] = Unit {0}
Holds m d (x ∷ xs) = (m d ≡ x) × Holds m (suc d) xs

-- The bytes of an `n`-byte integer, the low byte first, and the integer of some bytes.
unfoldable pub to_bytes : (n value : ℕ) → List ℕ
to_bytes zero value = []
to_bytes (suc n) value = value % 256 ∷ to_bytes n (value / 256)

unfoldable pub of_bytes : List ℕ → ℕ
of_bytes [] = 0
of_bytes (x ∷ xs) = x + 256 * of_bytes xs

pub memcpy-outside :
    (m : Memory) (d : ℕ) (xs : List ℕ) (a : ℕ)
    → (a < d) ⊎ (d + length xs ≤ a)
    → memcpy m d xs a ≡ m a
unfolding memcpy
memcpy-outside m d xs a h = ground arith

pub memcpy-inside :
    (m : Memory) (d : ℕ) (xs : List ℕ) (o : ℕ) → o < length xs → memcpy m d xs (d + o) ≡ nth xs o
unfolding memcpy
memcpy-inside m d xs o h = let e : d + o - d ≡ o = omega arith in ground (arith, ap (nth xs) e)

pub nth-append :
    (xs ys : List ℕ) (i : ℕ)
    → nth (xs ++ ys) i ≡ (if ltb i (length xs) then nth xs i else nth ys (i - length xs))
nth-append [] ys i = let e : i - 0 ≡ i = omega arith in ground (arith, ap (nth ys) e)
nth-append (x ∷ xs) ys zero = ground arith
nth-append (x ∷ xs) ys (suc i) = ground (arith, nth-append xs ys i)

-- One copy after the other is a copy of both.
pub memcpy-append :
    (m : Memory) (d : ℕ) (xs ys : List ℕ)
    → memcpy (memcpy m d xs) (d + length xs) ys ≡ memcpy m d (xs ++ ys)
unfolding memcpy
memcpy-append m d xs ys = fun_ext at
  where
    at : (a : ℕ) → memcpy (memcpy m d xs) (d + length xs) ys a ≡ memcpy m d (xs ++ ys) a
    at a =
        let e : a - (d + length xs) ≡ a - d - length xs = omega arith in
        ground (arith, nth-append xs ys (a - d), length-append xs ys, ap (nth ys) e)

pub Holds-append :
    (m : Memory) (d : ℕ) (xs ys : List ℕ)
    → Holds m d (xs ++ ys)
    → Holds m d xs × Holds m (d + length xs) ys
Holds-append m d [] ys h = (tt, let e : d + 0 ≡ d = omega arith in rw e h)
Holds-append m d (x ∷ xs) ys h =
    let rest = Holds-append m (suc d) xs ys h.1 in
    let e : d + suc (length xs) ≡ suc d + length xs = omega arith in ((h.0, rest.0), rw e rest.1)

pub Holds-of_nth :
    (m : Memory) (d : ℕ) (xs : List ℕ)
    → ((o : ℕ) → o < length xs → m (d + o) ≡ nth xs o)
    → Holds m d xs
Holds-of_nth m d [] h = tt
Holds-of_nth m d (x ∷ xs) h =
    let e : d + 0 ≡ d = omega arith in
    (
      ap m (omega arith) ∙ h 0 (omega arith),
      Holds-of_nth m (suc d) xs (λ o p. ap m (omega arith) ∙ h (suc o) (omega arith)),
    )

pub read-Holds : (m : Memory) (d : ℕ) (xs : List ℕ) → Holds m d xs → read m d (length xs) ≡ xs
unfolding read
read-Holds m d [] h = refl
read-Holds m d (x ∷ xs) h = ground (arith, read-Holds m (suc d) xs)

pub length-to_bytes : (n value : ℕ) → length (to_bytes n value) ≡ n
unfolding to_bytes
length-to_bytes zero value = refl
length-to_bytes (suc n) value = ap suc (length-to_bytes n (value / 256))

pub of_bytes-to_bytes : (n value : ℕ) → value < 256 ^ n → of_bytes (to_bytes n value) ≡ value
unfolding to_bytes of_bytes
of_bytes-to_bytes zero value h = omega arith
of_bytes-to_bytes (suc n) value h =
    omega (arith, of_bytes-to_bytes n (value / 256) (omega (arith, pow-suc 256 n)))

pub read_exact :
    (m : Memory) (d : ℕ) (xs : List ℕ) (n : ℕ) → length xs ≡ n → Holds m d xs → read m d n ≡ xs
read_exact m d xs n e held = rw (← e) (read-Holds m d xs held)

-- Reading an integer back.
pub read_integer :
    (m : Memory) (d n v : ℕ) → v < 256 ^ n → Holds m d (to_bytes n v) → of_bytes (read m d n) ≡ v
read_integer m d n v h held =
    rw (read_exact m d (to_bytes n v) n (length-to_bytes n v) held) (of_bytes-to_bytes n v h)

pub length-read : (m : Memory) (s n : ℕ) → length (read m s n) ≡ n
unfolding read
length-read m s zero = refl
length-read m s (suc n) = ap suc (length-read m (suc s) n)

pub nth-read : (m : Memory) (s n i : ℕ) → i < n → nth (read m s n) i ≡ m (s + i)
unfolding read
nth-read m s zero i h = absurd (omega arith)
nth-read m s (suc n) zero h = ap m (omega arith)
nth-read m s (suc n) (suc i) h = nth-read m (suc s) n i (omega arith) ∙ ap m (omega arith)
