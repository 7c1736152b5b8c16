-- ===== src/Prelude/KeyOrder.antt =====
-- The comparisons `==` and `<` of a key type, with the laws of a strict total order.
use Prim.Native.Nat.{ℕ}
use mathlib.Core.Path.{◌≡◌}
use mathlib.Core.Logic.{inl, inr}
use mathlib.Core.Bool.{Bool, true, false}
use native.Mathlib.Omega.{arith}
use foster_btree.Prelude.Tests.{ltb, ◌==◌, Bool-cases}

pub record KeyOrder (K : Type 0) : Type 0 where
  pub eq : K → K → Bool
  pub lt : K → K → Bool
  pub eq_sound : (a b : K) → eq a b ≡ true → a ≡ b
  pub eq_refl : (a : K) → eq a a ≡ true
  pub lt_irrefl : (a : K) → lt a a ≡ false
  pub lt_trans : (a b c : K) → lt a b ≡ true → lt b c ≡ true → lt a c ≡ true
  pub lt_connex : (a b : K) → eq a b ≡ false → lt a b ≡ false → lt b a ≡ true

pub nat_eq_sound : (a b : ℕ) → (a == b) ≡ true → a ≡ b
nat_eq_sound a b h = ground arith

pub nat_eq_refl : (a : ℕ) → (a == a) ≡ true
nat_eq_refl a = ground arith

pub nat_lt_irrefl : (a : ℕ) → ltb a a ≡ false
nat_lt_irrefl a = ground arith

pub nat_lt_trans : (a b c : ℕ) → ltb a b ≡ true → ltb b c ≡ true → ltb a c ≡ true
nat_lt_trans a b c p q = ground arith

pub nat_lt_connex : (a b : ℕ) → (a == b) ≡ false → ltb a b ≡ false → ltb b a ≡ true
nat_lt_connex a b p q = ground arith

-- The unsigned integers, which poor man's normalized keys are.
abbrev pub nat_order : KeyOrder ℕ
nat_order = record {
  eq = ◌==◌;
  lt = ltb;
  eq_sound = nat_eq_sound;
  eq_refl = nat_eq_refl;
  lt_irrefl = nat_lt_irrefl;
  lt_trans = nat_lt_trans;
  lt_connex = nat_lt_connex;
}

module _ {K : Type 0} (o : KeyOrder K) where
  pub eq-false_of_lt : (a b : K) → o.lt a b ≡ true → o.eq a b ≡ false
  eq-false_of_lt a b h = elim (Bool-cases (o.eq a b)) [
    | inl e ↦ ground (arith, o.eq_sound a b e, o.lt_irrefl a)
    | inr n ↦ n
  ]

  pub lt-asymm : (a b : K) → o.lt a b ≡ true → o.lt b a ≡ false
  lt-asymm a b h = elim (Bool-cases (o.lt b a)) [
    | inl e ↦ ground (arith, o.lt_trans a b a, o.lt_irrefl a)
    | inr n ↦ n
  ]

  -- below a bound that is not above `c`
  pub lt-of_lt_of_ge : (a b c : K) → o.lt a b ≡ true → o.lt c b ≡ false → o.lt a c ≡ true
  lt-of_lt_of_ge a b c h g = elim (Bool-cases (o.eq c b)) [
    | inl e ↦ ground (arith, o.eq_sound c b e)
    | inr n ↦ o.lt_trans a b c h (o.lt_connex c b n g)
  ]

  -- not above `b`, which is below `c`
  pub lt-of_ge_of_lt : (a b c : K) → o.lt b a ≡ false → o.lt b c ≡ true → o.lt a c ≡ true
  lt-of_ge_of_lt a b c g h = elim (Bool-cases (o.eq b a)) [
    | inl e ↦ ground (arith, o.eq_sound b a e)
    | inr n ↦ o.lt_trans a b c (o.lt_connex b a n g) h
  ]
