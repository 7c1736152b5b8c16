-- ===== src/Latch/Marks.antt =====
-- latch_mutex.h: what each thread contributes to the counter and holds of the latch.
use foster_btree.Prelude.{ℕ, ◌+◌, ◌≤◌, ◌≡◌, true, List, [], ◌∷◌, ◌++◌, arith}
use foster_btree.Latch.{
  Thread, reading, writing, failed, read_loaded, read_spinning, read_ready, read_added,
  write_spinning, write_ready, write_added, write_draining, write_drained, try_loaded, try_locked,
  try_lost, try_won, write_leaving, read_leaving, upgrading, writer_bit,
}

-- It counts as a reader.
abbrev pub reads : Thread → ℕ
reads reading = 1
reads read_added = 1
reads read_leaving = 1
reads upgrading = 1
reads (try_loaded true) = 1
reads (try_locked true) = 1
reads (try_lost true) = 1
reads _ = 0

-- It set the writer's bit.
abbrev pub writes : Thread → ℕ
writes writing = 1
writes write_added = 1
writes write_draining = 1
writes write_drained = 1
writes (write_leaving _) = 1
writes try_won = 1
writes _ = 0

-- It set the bit, and no reader is left.
abbrev pub excludes : Thread → ℕ
excludes writing = 1
excludes write_drained = 1
excludes (write_leaving _) = 1
excludes try_won = 1
excludes _ = 0

-- It holds the mutex.
abbrev pub locks : Thread → ℕ
locks read_spinning = 1
locks read_ready = 1
locks read_added = 1
locks write_spinning = 1
locks write_ready = 1
locks write_added = 1
locks write_draining = 1
locks write_drained = 1
locks (try_locked _) = 1
locks (try_lost _) = 1
locks try_won = 1
locks _ = 0

-- It holds the mutex, and saw no writer's bit.
abbrev pub awaited : Thread → ℕ
awaited read_ready = 1
awaited write_ready = 1
awaited _ = 0

-- An assertion of it failed, or it goes by a counter with the writer's bit.
abbrev pub fails : Thread → ℕ
fails failed = 1
fails (read_loaded _ old) = writer_bit old
fails _ = 0

unfoldable pub weigh : (Thread → ℕ) → List Thread → ℕ
weigh w [] = 0
weigh w (t ∷ ts) = w t + weigh w ts

pub weigh-append :
    (w : Thread → ℕ) (before after : List Thread)
    → weigh w (before ++ after) ≡ weigh w before + weigh w after
unfolding weigh
weigh-append w [] after = omega arith
weigh-append w (t ∷ before) after = omega (arith, weigh-append w before after)

pub weigh_mono :
    (v w : Thread → ℕ) → ((t : Thread) → v t ≤ w t) → (ts : List Thread) → weigh v ts ≤ weigh w ts
unfolding weigh
weigh_mono v w h [] = omega arith
weigh_mono v w h (t ∷ ts) = omega (arith, h t, weigh_mono v w h ts)

pub excludes-writes : (t : Thread) → excludes t ≤ writes t
excludes-writes t = ground arith

pub awaited-locks : (t : Thread) → awaited t ≤ locks t
awaited-locks t = ground arith

pub reads-le : (t : Thread) → reads t ≤ 1
reads-le t = ground arith
