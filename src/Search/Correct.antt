-- ===== src/Search/Correct.antt =====
-- search.h: the search ends, and finds the first slot with the key or the place to insert it.
use foster_btree.Prelude.{
  ℕ, zero, suc, ◌+◌, ◌-◌, ◌/◌, ◌≤◌, ◌<◌, ◌≡◌, ◌≢◌, refl, sym, inl, inr, Bool, true, false, arith,
  Bool-cases, ◌==◌, ==_iff, if◌then◌else◌,
}
use foster_btree.Prelude.Words.{cast, cast-small}
use foster_btree.Prelude.Outcome.{Returns}
use foster_btree.Prelude.KeyOrder.{KeyOrder, lt-of_lt_of_ge, lt-of_ge_of_lt}
use foster_btree.Search.{
  Probe, stop, lower, upper, probe, first_occurrence, search_loop, binary_search,
}

module _ {K : Type 0} (o : KeyOrder K) (keys : ℕ → K) (count : ℕ) where
  -- The keys of the slots do not decrease.
  abbrev pub IsSorted : Type 0
  IsSorted = (i j : ℕ) → i ≤ j → j < count → o.lt (keys j) (keys i) ≡ false

  -- Every slot before `r` has a smaller key.
  abbrev pub Below : K → ℕ → Type 0
  Below key r = (i : ℕ) → i < r → o.lt (keys i) key ≡ true

  -- Every slot from `r` on has a larger key.
  abbrev pub Above : K → ℕ → Type 0
  Above key r = (i : ℕ) → r ≤ i → i < count → o.lt key (keys i) ≡ true

  -- What a search for `key` has to answer.
  abbrev pub Locates : K → Bool × ℕ → Type 0
  Locates key (true, r) = (r < count) × (keys r ≡ key) × Below key r
  Locates key (false, r) = (r ≤ count) × Below key r × Above key r

module _ {K : Type 0} (o : KeyOrder K) (word : ℕ) (keys : ℕ → K) (count : ℕ)
    (sorted : IsSorted o keys count) (fits : count < word) (key : K) where
  Below-upto : (m : ℕ) → m < count → o.lt (keys m) key ≡ true → Below o keys count key (suc m)
  Below-upto m h b i p = lt-of_ge_of_lt o (keys i) (keys m) key (sorted i m (omega arith) h) b

  Above-from : (m : ℕ) → o.lt key (keys m) ≡ true → Above o keys count key m
  Above-from m a i p q = lt-of_lt_of_ge o key (keys m) (keys i) a (sorted m i p q)

  lt-of_not :
      (m : ℕ) → o.eq key (keys m) ≡ false → o.lt key (keys m) ≡ false → o.lt (keys m) key ≡ true
  lt-of_not m e l = o.lt_connex key (keys m) e l

  before-lt :
      (r : ℕ)
      → suc r < count
      → keys (suc r) ≡ key
      → o.eq (keys r) key ≡ false
      → o.lt (keys r) key ≡ true
  before-lt r h e other = elim (Bool-cases (o.lt (keys r) key)) [
    | inl below ↦ below
    | inr not_below ↦
        let reach : o.lt key (keys r) ≡ true = o.lt_connex (keys r) key other not_below in
        let order : o.lt (keys (suc r)) (keys r) ≡ false = sorted r (suc r) (omega arith) h in
        ground arith
  ]

  first_occurrence-Locates :
      (r : ℕ)
      → r < count
      → keys r ≡ key
      → Locates o keys count key (true, first_occurrence o word keys count key r)
  unfolding first_occurrence
  first_occurrence-Locates zero h e = (h, e, λ i p. absurd (omega arith))
  first_occurrence-Locates (suc r) h e = elim (Bool-cases (o.eq (keys r) key)) [
    | inl same ↦ rw same (first_occurrence-Locates r (omega arith) (o.eq_sound _ _ same))
    | inr other ↦ rw other (h, e, Below-upto r (omega arith) (before-lt r h e other))
  ]

  -- What holds at the head of the loop.
  record Inv (begin end ret : ℕ) : Type 0 where
    begin_le : begin ≤ count
    end_le : end ≤ count
    below : Below o keys count key begin
    above : (i : ℕ) → end < i → i < count → o.lt key (keys i) ≡ true
    at_begin : begin ≢ 0 → ret ≡ begin

  module _ {begin end ret : ℕ} (inv : Inv begin end ret) where
    Inv-lower :
        (mid : ℕ) → mid ≤ end → mid ≢ 0 → o.lt key (keys mid) ≡ true → Inv begin (mid - 1) ret
    Inv-lower mid le pos a = record {
      begin_le = inv.begin_le;
      end_le = omega (arith, inv.end_le);
      below = inv.below;
      above = λ i p q. Above-from mid a i (omega arith) q;
      at_begin = inv.at_begin;
    }

    Inv-upper : (mid : ℕ) → mid < count → o.lt (keys mid) key ≡ true → Inv (mid + 1) end (mid + 1)
    Inv-upper mid h b = record {
      begin_le = omega arith;
      end_le = inv.end_le;
      below = λ i p. Below-upto mid h b i (omega arith);
      above = inv.above;
      at_begin = λ _. refl;
    }

    Inv-exit : end < begin → Locates o keys count key (false, ret)
    Inv-exit h =
        let e : ret ≡ begin = inv.at_begin (omega arith) in
        rw e (inv.begin_le, inv.below, λ i p q. inv.above i (omega arith) q)

  -- What the invariant makes of each verdict on the slot `mid`.
  abbrev After : (begin end ret mid : ℕ) → Probe → Type 0
  After begin end ret mid (stop found at) = Locates o keys count key (found, at)
  After begin end ret mid lower = Inv begin (mid - 1) ret × (mid ≢ 0)
  After begin end ret mid upper = Inv (mid + 1) end (mid + 1) × (mid < count)

  module _ {begin end ret : ℕ} (inv : Inv begin end ret) (mid : ℕ) (more : begin ≤ end)
      (middle : mid ≡ begin + (end - begin) / 2) where
    open inv use {begin_le, end_le, below, above}

    to : mid ≤ end
    to = omega arith

    module _ (h : mid < count) where
      halved_lower :
          o.lt key (keys mid) ≡ true
          → After begin end ret mid (if mid == 0 then stop false 0 else lower)
      halved_lower less = elim (Bool-cases (mid == 0)) [
        | inl e ↦
            let first : mid ≡ 0 = (==_iff mid 0).0 e in
            rw e (omega arith, λ i p. absurd (omega arith), Above-from 0 (rw first at less))
        | inr n ↦ let pos : mid ≢ 0 = λ z. ground arith in rw n (Inv-lower inv mid to pos less, pos)
      ]

      halved_upper :
          o.lt (keys mid) key ≡ true
          → After begin end ret mid
              (if begin == end then stop false (cast word (mid + 1)) else upper)
      halved_upper more = elim (Bool-cases (begin == end)) [
        | inl e ↦
            let last : end ≡ mid = ground arith in
            rw (e, cast-small word (mid + 1) (omega arith))
              (
                omega arith,
                λ i p. Below-upto mid h more i (omega arith),
                λ i p q. above i (omega arith) q,
              )
        | inr n ↦ rw n (Inv-upper inv mid h more, h)
      ]

    probe-After : After begin end ret mid (probe o word keys count key begin end mid)
    unfolding probe
    probe-After = elim (Bool-cases (mid == count)) [
      | inl e ↦
          let at_end : mid ≡ count = (==_iff mid count).0 e in
          rw e (
            omega arith,
            λ i p. below i (omega (arith, end_le, begin_le)),
            λ i p q. absurd (omega arith),
          )
      | inr n ↦
          let h : mid < count = ground arith in
          rw n (elim (Bool-cases (o.eq key (keys mid))) [
            | inl same ↦ rw same (first_occurrence-Locates mid h (sym (o.eq_sound _ _ same)))
            | inr other ↦ rw other (elim (Bool-cases (o.lt key (keys mid))) [
              | inl less ↦ rw less (halved_lower h less)
              | inr more ↦ rw more (halved_upper h (lt-of_not mid other more))
            ])
          ])
    ]

  search_loop-Locates :
      (fuel begin end ret : ℕ)
      → Inv begin end ret
      → end + 1 - begin < fuel
      → Returns (search_loop o word keys count fuel key begin end ret) (Locates o keys count key)
  unfolding search_loop
  search_loop-Locates zero begin end ret inv f = absurd (omega arith)
  search_loop-Locates (suc fuel) begin end ret inv f =
      let mid = begin + (end - begin) / 2 in
      ground (
        arith,
        inv.end_le,
        Inv-exit inv,
        cast-small word mid,
        λ (h : begin ≤ end). probe-After inv mid h refl,
        search_loop-Locates fuel begin (mid - 1) ret,
        search_loop-Locates fuel (mid + 1) end (mid + 1),
        cast-small word (mid + 1),
      )

  -- On slots in order that are fewer than `SlotNumber` has values, `BinarySearch` over all slots
  -- ends: with true and the first slot that has the key, or with false and the slot number before
  -- which all keys are smaller and from which on all are larger.
  pub binary_search-Locates :
      (ret : ℕ)
      → Returns (binary_search o word keys count key ret 0 count) (Locates o keys count key)
  unfolding binary_search
  binary_search-Locates ret = search_loop-Locates (count - 0 + 2) 0 count ret start (omega arith)
    where
      start : Inv 0 count ret
      start = record {
        begin_le = omega arith;
        end_le = omega arith;
        below = λ i p. absurd (omega arith);
        above = λ i p q. absurd (omega arith);
        at_begin = λ n. absurd (n refl);
      }
