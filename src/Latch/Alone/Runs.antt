-- ===== src/Latch/Alone/Runs.antt =====
-- latch_mutex.h: what a thread does by itself is a run of the steps that threads take in any order.
use foster_btree.Prelude.{
  ℕ, ◌+◌, ◌≡◌, ◌≢◌, refl, subst, Bool, true, false, arith, Bool-cases, inl, inr,
}
use foster_btree.Prelude.Words.{cast}
use foster_btree.Prelude.Outcome.{ok}
use foster_btree.Latch.{
  counter_word, writer_mask, reader_mask, writer_bit, reader_count, Thread, idle, reading, writing,
  Move, load_reader, add_reader, assert_reader, leave_reader, want_writer, lock_writer, see_writer,
  enter_writer, assert_writer, see_readers, unlock_writer, assert_alone, leave_writer,
  downgrade_writer, assert_upgrade, try_upgrade, lock_try, win_try, unlock_won, miss_upgrade,
}
use foster_btree.Latch.Alone.{
  has_reader, has_writer, add_when_writer_leaves, attempt_read, acquire_read, release_read,
  attempt_write, acquire_write, release_write, attempt_upgrade, downgrade,
}

-- Moves of one thread one after the other, from a counter, a mutex and the thread's place.
pub data Run : ℕ → Bool → Thread → ℕ → Bool → Thread → Type 0 where
  stay : {c : ℕ} {m : Bool} {t : Thread} → Run c m t c m t
  move :
      {c c' c'' : ℕ} {m m' m'' : Bool} {t t' t'' : Thread}
      → Move c m t c' m' t'
      → Run c' m' t' c'' m'' t''
      → Run c m t c'' m'' t''

bit-cases : (c : ℕ) → has_writer c ≡ false → writer_bit c ≡ 0
unfolding has_writer
bit-cases c h = ground arith

count_ne : (c : ℕ) → has_reader c ≡ true → reader_count c ≢ 0
unfolding has_reader
count_ne c h = ground arith

count_eq : (c : ℕ) → has_reader c ≡ false → reader_count c ≡ 0
unfolding has_reader
count_eq c h = ground arith

-- A run during which the mutex is free at both ends.
abbrev pub Goes : (c : ℕ) → Thread → (c' : ℕ) → Thread → Type 0
Goes c t c' t' = Run c false t c' false t'

-- Where an upgrade ends, with success or not.
abbrev pub upgraded : Bool → Thread
upgraded true = writing
upgraded false = reading

module _ (c : ℕ) where
  acquire_read-Run : (c' : ℕ) → acquire_read c ≡ ok c' → Goes c idle c' reading
  unfolding acquire_read attempt_read add_when_writer_leaves
  acquire_read-Run c' h = elim (Bool-cases (has_writer c)) [
    | inl w ↦ absurd (ground arith)
    | inr w ↦ move (load_reader false (bit-cases c w)) (move (add_reader refl (ground arith)) stay)
  ]

  release_read-Run : (c' : ℕ) → release_read c ≡ ok c' → Goes c reading c' idle
  unfolding release_read
  release_read-Run c' h = elim (Bool-cases (has_reader c)) [
    | inl r ↦ move (assert_reader (count_ne c r)) (move (leave_reader (ground arith)) stay)
    | inr r ↦ absurd (ground arith)
  ]

  -- What `acquire_write` saw on its way.
  entered :
      (c' : ℕ)
      → acquire_write c ≡ ok c'
      → (writer_bit c ≡ 0)
        × (c' ≡ cast counter_word (c + writer_mask))
        × (writer_bit c' ≡ 1)
        × (reader_count c' ≡ 0)
  unfolding acquire_write add_when_writer_leaves has_writer has_reader
  entered c' h = (ground arith, ground arith, ground arith, ground arith)

  acquire_write-Run : (c' : ℕ) → acquire_write c ≡ ok c' → Goes c idle c' writing
  acquire_write-Run c' h =
      let (free, add, bit, alone) = entered c' h in
      move want_writer (
        move lock_writer (
          move (see_writer free) (
            move (enter_writer add)
              (move (assert_writer bit) (move (see_readers alone) (move unlock_writer stay))))))

  release_write-Run : (c' : ℕ) → release_write c ≡ ok c' → Goes c writing c' idle
  unfolding release_write
  release_write-Run c' h =
      subst (λ x. Goes c writing x idle) {x = 0} (ground arith)
        (move (assert_alone false (ground arith)) (move leave_writer stay))

  downgrade-Run : (c' : ℕ) → downgrade c ≡ ok c' → Goes c writing c' reading
  unfolding downgrade
  downgrade-Run c' h =
      subst (λ x. Goes c writing x reading) {x = reader_mask} (ground arith)
        (move (assert_alone true (ground arith)) (move downgrade_writer stay))

  attempt_upgrade-Run :
      (c' : ℕ) (success : Bool)
      → attempt_upgrade c ≡ ok (c', success)
      → Goes c reading c' (upgraded success)
  unfolding attempt_upgrade attempt_write has_reader
  attempt_upgrade-Run c' true h =
      subst (λ x. Goes c reading x writing) {x = writer_mask} (ground arith)
        (move (assert_upgrade (ground arith)) (
          move (try_upgrade (ground arith))
            (move lock_try (move (win_try (ground arith)) (move unlock_won stay)))))
  attempt_upgrade-Run c' false h =
      subst (λ x. Goes c reading x reading) {x = c} (ground arith)
        (move (assert_upgrade (ground arith)) (move (miss_upgrade (ground arith)) stay))

  -- What a thread does alone, it can do by steps of the latch that threads take in any order: where
  -- `acquire_read`, `release_read`, `acquire_write`, `release_write`, `downgrade` or
  -- `attempt_upgrade` returns, run without other threads, there is a run of moves of one thread
  -- that starts where a caller of the method is, ends where the method leaves it, and changes the
  -- counter alike.
  pub alone-Run :
      (c' : ℕ)
      → (acquire_read c ≡ ok c' → Goes c idle c' reading)
        × (release_read c ≡ ok c' → Goes c reading c' idle)
        × (acquire_write c ≡ ok c' → Goes c idle c' writing)
        × (release_write c ≡ ok c' → Goes c writing c' idle)
        × (downgrade c ≡ ok c' → Goes c writing c' reading)
        × ((success : Bool)
            → attempt_upgrade c ≡ ok (c', success)
            → Goes c reading c' (upgraded success))
  alone-Run c' = (
    acquire_read-Run c',
    release_read-Run c',
    acquire_write-Run c',
    release_write-Run c',
    downgrade-Run c',
    attempt_upgrade-Run c',
  )
