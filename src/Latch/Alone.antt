-- ===== src/Latch/Alone.antt =====
-- latch_mutex.h: the methods of `MutexLatch` where no other thread moves meanwhile, on the counter.
-- The mutex is free then, and the compare-and-exchange does not fail for no reason.
pub mod Runs
use foster_btree.Prelude.{ℕ, zero, ◌+◌, Bool, true, false, ◌==◌, if◌then◌else◌}
use foster_btree.Prelude.Words.{cast, sub_mod}
use foster_btree.Prelude.Outcome.{Outcome, ok, throw, blocked, ◌>>=◌, ◌>>◌, assert}
use foster_btree.Latch.{counter_word, writer_mask, reader_mask, writer_bit, reader_count}

-- The constructor.
abbrev pub fresh_counter : ℕ
fresh_counter = 0

unfoldable pub has_reader : ℕ → Bool
has_reader c = if reader_count c == 0 then false else true

unfoldable pub has_writer : ℕ → Bool
has_writer c = if writer_bit c == 0 then false else true

-- `add_when_writer_leaves(delta)`, which spins as long as there is a writer.
unfoldable pub add_when_writer_leaves : (delta c : ℕ) → Outcome ℕ
add_when_writer_leaves delta c =
    if has_writer c then throw blocked else ok (cast counter_word (c + delta))

-- The counter after `attempt_read`, and its result.
unfoldable pub attempt_read : ℕ → ℕ × Bool
attempt_read c = if has_writer c then (c, false) else (cast counter_word (c + reader_mask), true)

unfoldable pub acquire_read : ℕ → Outcome ℕ
acquire_read c =
    let (c', entered) = attempt_read c in
    if entered then ok c' else add_when_writer_leaves reader_mask c'

unfoldable pub release_read : ℕ → Outcome ℕ
release_read c = assert (has_reader c) >> ok (sub_mod counter_word c reader_mask)

unfoldable pub attempt_write : (expected_previous c : ℕ) → ℕ × Bool
attempt_write expected_previous c =
    if c == expected_previous then (writer_mask, true) else (c, false)

-- `acquire_write` spins as long as there is a reader.
unfoldable pub acquire_write : ℕ → Outcome ℕ
acquire_write c = add_when_writer_leaves writer_mask c >>= λ c'.
    assert (has_writer c') >> (if has_reader c' then throw blocked else ok c')

unfoldable pub release_write : ℕ → Outcome ℕ
release_write c = assert (c == writer_mask) >> ok zero

unfoldable pub attempt_upgrade : ℕ → Outcome (ℕ × Bool)
attempt_upgrade c = assert (has_reader c) >> ok (attempt_write reader_mask c)

unfoldable pub downgrade : ℕ → Outcome ℕ
downgrade c = assert (c == writer_mask) >> ok reader_mask
