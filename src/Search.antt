-- ===== src/Search.antt =====
-- search.h: `BinarySearch`.
pub mod Correct
use foster_btree.Prelude.{
  ℕ, zero, suc, ◌+◌, ◌-◌, ◌/◌, Bool, true, false, ◌&&◌, leb, ltb, ◌==◌, if◌then◌else◌,
}
use foster_btree.Prelude.Words.{cast}
use foster_btree.Prelude.Outcome.{Outcome, ok, throw, out_of_fuel}
use foster_btree.Prelude.KeyOrder.{KeyOrder}

-- What one round of the loop decides: return, or go on in one half of the range.
pub data Probe : Type 0 where
  stop : (found : Bool) (at : ℕ) → Probe
  lower upper : Probe

-- `array` is read by `keys i = array[i].key`, `count` is `array.slot_count()`, and `word` is the
-- number of values of `SlotNumber`.
module _ {K : Type 0} (o : KeyOrder K) (word : ℕ) (keys : ℕ → K) (count : ℕ) where
  -- `while (ret > 0 && array[ret-1].key == key) { ret--; }`
  unfoldable pub first_occurrence : (key : K) (ret : ℕ) → ℕ
  first_occurrence key zero = zero
  first_occurrence key (suc ret) =
      let earlier = first_occurrence key ret in if o.eq (keys ret) key then earlier else suc ret

  -- The body of the loop, on the slot `mid` in the middle of the range.
  unfoldable pub probe : (key : K) (begin end mid : ℕ) → Probe
  unfolding first_occurrence
  probe key begin end mid =
      if mid == count
      then stop false mid
      else if o.eq key (keys mid)
      then stop true (first_occurrence key mid)
      else if o.lt key (keys mid)
      then (if mid == 0 then stop false 0 else lower)
      else if begin == end
      then stop false (cast word (mid + 1))
      else upper

  -- The `while` loop, with its variables `begin`, `end` and `ret`. The result is what the call
  -- returns and the value of `ret` then.
  unfoldable pub search_loop : (fuel : ℕ) (key : K) (begin end ret : ℕ) → Outcome (Bool × ℕ)
  unfolding probe
  search_loop zero key begin end ret = throw out_of_fuel
  search_loop (suc fuel) key begin end ret =
      let mid = cast word (begin + (end - begin) / 2) in
      elim (leb begin end) [
        | false ↦ ok (false, ret)
        | true ↦ elim (probe key begin end mid) [
          | stop found at ↦ ok (found, at)
          | lower ↦ search_loop fuel key begin (mid - 1) ret
          | upper ↦ search_loop fuel key (cast word (mid + 1)) end (cast word (mid + 1))
        ]
      ]

  -- `operator()`: each round narrows the range `begin .. end`.
  unfoldable pub binary_search : (key : K) (ret begin end : ℕ) → Outcome (Bool × ℕ)
  unfolding search_loop
  binary_search key ret begin end = search_loop (end - begin + 2) key begin end ret
