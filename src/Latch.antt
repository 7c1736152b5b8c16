-- ===== src/Latch.antt =====
-- latch_mutex.h: `MutexLatch`, as the steps that threads take on its counter and its mutex. Each step
-- is one access of a shared variable; the fences have no step, since memory is taken to be
-- sequentially consistent.
pub mod Marks
pub mod Invariant
pub mod Alone
use foster_btree.Prelude.{
  ℕ, ◌+◌, ◌/◌, ◌%◌, ◌^◌, ◌<◌, ◌≡◌, ◌≢◌, Bool, true, false, List, ◌∷◌, ◌++◌, if◌then◌else◌,
}
use foster_btree.Prelude.Words.{cast, sub_mod}

-- The number of values of `unsigned`.
abbrev pub counter_word : ℕ
counter_word = 2 ^ 32

abbrev pub writer_mask : ℕ
writer_mask = 1

abbrev pub reader_mask : ℕ
reader_mask = 2

-- `c & WRITER_MASK` and `c & ~WRITER_MASK`
abbrev pub writer_bit : ℕ → ℕ
writer_bit c = c % 2

abbrev pub reader_count : ℕ → ℕ
reader_count c = c / 2

-- Where a thread is. `waits` says that `attempt_read` was called by `acquire_read`, and `upgrades`
-- that `attempt_write` was called by `attempt_upgrade`.
pub data Thread : Type 0 where
  idle reading writing failed : Thread
  read_loaded : (waits : Bool) (old : ℕ) → Thread
  read_waiting read_spinning read_ready read_added : Thread
  write_waiting write_spinning write_ready write_added write_draining write_drained : Thread
  try_loaded try_locked try_lost : (upgrades : Bool) → Thread
  write_leaving : (downgrades : Bool) → Thread
  read_leaving upgrading : Thread
  try_won : Thread

-- Where `attempt_read` and `attempt_write` go on without success.
abbrev pub after_read : Bool → Thread
after_read true = read_waiting
after_read false = idle

abbrev pub after_try : Bool → Thread
after_try true = reading
after_try false = idle

abbrev pub expected_previous : Bool → ℕ
expected_previous true = reader_mask
expected_previous false = 0

-- A step of one thread: the counter, whether the mutex is locked, and the thread, before and after.
-- A thread releases, downgrades or upgrades only what it holds, as the callers of the methods do.
pub data Move : ℕ → Bool → Thread → ℕ → Bool → Thread → Type 0 where
  -- `attempt_read`, with `acquire_read` around it or not
  load_reader :
      {c : ℕ} {m : Bool} (waits : Bool) → writer_bit c ≡ 0 → Move c m idle c m (read_loaded waits c)
  load_writer :
      {c : ℕ} {m : Bool} (waits : Bool) → writer_bit c ≡ 1 → Move c m idle c m (after_read waits)
  add_reader :
      {c c' : ℕ} {m : Bool} {waits : Bool} {old : ℕ}
      → c ≡ old
      → c' ≡ cast counter_word (c + reader_mask)
      → Move c m (read_loaded waits old) c' m reading
  miss_reader :
      {c : ℕ} {m : Bool} {waits : Bool} {old : ℕ}
      → Move c m (read_loaded waits old) c m (after_read waits)
  -- the rest of `acquire_read`
  lock_reader : {c : ℕ} → Move c false read_waiting c true read_spinning
  spin_reader : {c : ℕ} {m : Bool} → writer_bit c ≡ 1 → Move c m read_spinning c m read_spinning
  see_reader : {c : ℕ} {m : Bool} → writer_bit c ≡ 0 → Move c m read_spinning c m read_ready
  enter_reader :
      {c c' : ℕ} {m : Bool}
      → c' ≡ cast counter_word (c + reader_mask)
      → Move c m read_ready c' m read_added
  unlock_reader : {c : ℕ} {m : Bool} → Move c m read_added c false reading
  -- `release_read`: its assertion, and its subtraction
  assert_reader : {c : ℕ} {m : Bool} → reader_count c ≢ 0 → Move c m reading c m read_leaving
  fail_reader : {c : ℕ} {m : Bool} → reader_count c ≡ 0 → Move c m reading c m failed
  leave_reader :
      {c c' : ℕ} {m : Bool}
      → c' ≡ sub_mod counter_word c reader_mask
      → Move c m read_leaving c' m idle
  -- `acquire_write`
  want_writer : {c : ℕ} {m : Bool} → Move c m idle c m write_waiting
  lock_writer : {c : ℕ} → Move c false write_waiting c true write_spinning
  spin_writer : {c : ℕ} {m : Bool} → writer_bit c ≡ 1 → Move c m write_spinning c m write_spinning
  see_writer : {c : ℕ} {m : Bool} → writer_bit c ≡ 0 → Move c m write_spinning c m write_ready
  enter_writer :
      {c c' : ℕ} {m : Bool}
      → c' ≡ cast counter_word (c + writer_mask)
      → Move c m write_ready c' m write_added
  assert_writer : {c : ℕ} {m : Bool} → writer_bit c ≡ 1 → Move c m write_added c m write_draining
  fail_added : {c : ℕ} {m : Bool} → writer_bit c ≡ 0 → Move c m write_added c m failed
  spin_readers :
      {c : ℕ} {m : Bool} → reader_count c ≢ 0 → Move c m write_draining c m write_draining
  see_readers : {c : ℕ} {m : Bool} → reader_count c ≡ 0 → Move c m write_draining c m write_drained
  unlock_writer : {c : ℕ} {m : Bool} → Move c m write_drained c false writing
  -- `release_write` and `downgrade`: their assertion, and their store
  assert_alone :
      {c : ℕ} {m : Bool} (downgrades : Bool)
      → c ≡ writer_mask
      → Move c m writing c m (write_leaving downgrades)
  fail_alone : {c : ℕ} {m : Bool} → c ≢ writer_mask → Move c m writing c m failed
  leave_writer : {c : ℕ} {m : Bool} → Move c m (write_leaving false) 0 m idle
  downgrade_writer : {c : ℕ} {m : Bool} → Move c m (write_leaving true) reader_mask m reading
  -- `attempt_write` and `attempt_upgrade`; the compare-and-exchange and `try_lock` may fail for
  -- no reason
  try_write : {c : ℕ} {m : Bool} → c ≡ 0 → Move c m idle c m (try_loaded false)
  assert_upgrade : {c : ℕ} {m : Bool} → reader_count c ≢ 0 → Move c m reading c m upgrading
  try_upgrade : {c : ℕ} {m : Bool} → c ≡ reader_mask → Move c m upgrading c m (try_loaded true)
  miss_upgrade : {c : ℕ} {m : Bool} → c ≢ reader_mask → Move c m upgrading c m reading
  lock_try :
      {c : ℕ} {upgrades : Bool} → Move c false (try_loaded upgrades) c true (try_locked upgrades)
  miss_lock :
      {c : ℕ} {m : Bool} {upgrades : Bool} → Move c m (try_loaded upgrades) c m (after_try upgrades)
  win_try :
      {c : ℕ} {m : Bool} {upgrades : Bool}
      → c ≡ expected_previous upgrades
      → Move c m (try_locked upgrades) writer_mask m try_won
  lose_try :
      {c : ℕ} {m : Bool} {upgrades : Bool} → Move c m (try_locked upgrades) c m (try_lost upgrades)
  unlock_won : {c : ℕ} {m : Bool} → Move c m try_won c false writing
  unlock_lost :
      {c : ℕ} {m : Bool} {upgrades : Bool}
      → Move c m (try_lost upgrades) c false (after_try upgrades)

-- The latch and its threads; in a step, any one of them moves.
pub record System : Type 0 where
  pub counter : ℕ
  pub locked : Bool
  pub threads : List Thread

pub data Step : System → System → Type 0 where
  turn :
      (before : List Thread) {t t' : Thread} (after : List Thread) {c c' : ℕ} {m m' : Bool}
      → Move c m t c' m' t'
      → Step
          (record { counter = c; locked = m; threads = before ++ t ∷ after })
          (record { counter = c'; locked = m'; threads = before ++ t' ∷ after })
