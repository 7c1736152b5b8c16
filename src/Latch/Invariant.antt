-- ===== src/Latch/Invariant.antt =====
-- latch_mutex.h: readers and a writer never hold the latch together, and no assertion fails.
use foster_btree.Prelude.{
  ℕ, ◌+◌, ◌*◌, ◌^◌, ◌≤◌, ◌<◌, ◌≡◌, refl, zero, suc, ap, ◌∙◌, [], length, length-append, Bool, true,
  false, List, ◌∷◌, ◌++◌, if◌then◌else◌, arith,
}
use foster_btree.Prelude.Words.{cast, sub_mod}
use foster_btree.Latch.{
  System, Step, turn, writer_mask, Thread, idle, writing, Move, load_reader, load_writer,
  add_reader, miss_reader, lock_reader, spin_reader, see_reader, enter_reader, unlock_reader,
  assert_reader, fail_reader, leave_reader, want_writer, lock_writer, spin_writer, see_writer,
  enter_writer, assert_writer, fail_added, spin_readers, see_readers, unlock_writer, assert_alone,
  fail_alone, leave_writer, downgrade_writer, try_write, assert_upgrade, try_upgrade, miss_upgrade,
  lock_try, miss_lock, win_try, lose_try, unlock_won, unlock_lost,
}
use foster_btree.Latch.Marks.{
  reads, writes, excludes, locks, awaited, fails, weigh, weigh-append, weigh_mono, excludes-writes,
  awaited-locks, reads-le,
}

-- What the counter and the mutex say of all threads: `r` count as readers, `w` set the writer's bit
-- and `e` of them wait for nobody, `l` hold the mutex and `q` of them saw no writer, and `f` failed.
abbrev Totals : (c : ℕ) (m : Bool) (r w e l q f : ℕ) → Type 0
Totals c m r w e l q f =
    (c ≡ 2 * r + w)
    × (w ≤ 1)
    × (l ≡ (if m then 1 else 0))
    × (0 < e → r ≡ 0)
    × (0 < q → w ≡ 0)
    × (f ≡ 0)

-- What holds of the threads that do not move, which are fewer than the counter can count.
abbrev Rest : (r w e l q : ℕ) → Type 0
Rest r w e l q = (e ≤ w) × (q ≤ l) × (r + 1 < 2 ^ 31)

Move-Totals :
    (r w e l q f : ℕ) {c c' : ℕ} {m m' : Bool} {t t' : Thread}
    → Move c m t c' m' t'
    → Rest r w e l q
    → Totals c m
        (reads t + r)
        (writes t + w)
        (excludes t + e)
        (locks t + l)
        (awaited t + q)
        (fails t + f)
    → Totals c' m'
        (reads t' + r)
        (writes t' + w)
        (excludes t' + e)
        (locks t' + l)
        (awaited t' + q)
        (fails t' + f)
unfolding cast sub_mod
Move-Totals r w e l q f (load_reader waits eq) rest totals = ground arith
Move-Totals r w e l q f (load_writer false eq) rest totals = ground arith
Move-Totals r w e l q f (load_writer true eq) rest totals = ground arith
Move-Totals r w e l q f (add_reader eq eq2) rest totals = ground arith
Move-Totals r w e l q f (miss_reader {waits = false}) rest totals = ground arith
Move-Totals r w e l q f (miss_reader {waits = true}) rest totals = ground arith
Move-Totals r w e l q f lock_reader rest totals = ground arith
Move-Totals r w e l q f (spin_reader eq) rest totals = ground arith
Move-Totals r w e l q f (see_reader eq) rest totals = ground arith
Move-Totals r w e l q f (enter_reader eq) rest totals = ground arith
Move-Totals r w e l q f unlock_reader rest totals = ground arith
Move-Totals r w e l q f (assert_reader ne) rest totals = ground arith
Move-Totals r w e l q f (fail_reader eq) rest totals = ground arith
Move-Totals r w e l q f (leave_reader eq) rest totals = ground arith
Move-Totals r w e l q f want_writer rest totals = ground arith
Move-Totals r w e l q f lock_writer rest totals = ground arith
Move-Totals r w e l q f (spin_writer eq) rest totals = ground arith
Move-Totals r w e l q f (see_writer eq) rest totals = ground arith
Move-Totals r w e l q f (enter_writer eq) rest totals = ground arith
Move-Totals r w e l q f (assert_writer eq) rest totals = ground arith
Move-Totals r w e l q f (fail_added eq) rest totals = ground arith
Move-Totals r w e l q f (spin_readers ne) rest totals = ground arith
Move-Totals r w e l q f (see_readers eq) rest totals = ground arith
Move-Totals r w e l q f unlock_writer rest totals = ground arith
Move-Totals r w e l q f (assert_alone false eq) rest totals = ground arith
Move-Totals r w e l q f (assert_alone true eq) rest totals = ground arith
Move-Totals r w e l q f (fail_alone ne) rest totals = ground arith
Move-Totals r w e l q f leave_writer rest totals = ground arith
Move-Totals r w e l q f downgrade_writer rest totals = ground arith
Move-Totals r w e l q f (try_write eq) rest totals = ground arith
Move-Totals r w e l q f (assert_upgrade ne) rest totals = ground arith
Move-Totals r w e l q f (try_upgrade eq) rest totals = ground arith
Move-Totals r w e l q f (miss_upgrade ne) rest totals = ground arith
Move-Totals r w e l q f (lock_try {upgrades = false}) rest totals = ground arith
Move-Totals r w e l q f (lock_try {upgrades = true}) rest totals = ground arith
Move-Totals r w e l q f (miss_lock {upgrades = false}) rest totals = ground arith
Move-Totals r w e l q f (miss_lock {upgrades = true}) rest totals = ground arith
Move-Totals r w e l q f (win_try {upgrades = false} eq) rest totals = ground arith
Move-Totals r w e l q f (win_try {upgrades = true} eq) rest totals = ground arith
Move-Totals r w e l q f (lose_try {upgrades = false}) rest totals = ground arith
Move-Totals r w e l q f (lose_try {upgrades = true}) rest totals = ground arith
Move-Totals r w e l q f unlock_won rest totals = ground arith
Move-Totals r w e l q f (unlock_lost {upgrades = false}) rest totals = ground arith
Move-Totals r w e l q f (unlock_lost {upgrades = true}) rest totals = ground arith

-- The state of the latch agrees with its threads.
abbrev pub IsConsistent : System → Type 0
IsConsistent s =
    Totals s.counter s.locked (weigh reads s.threads) (weigh writes s.threads)
      (weigh excludes s.threads) (weigh locks s.threads) (weigh awaited s.threads)
      (weigh fails s.threads)

-- There are fewer threads than half the number of values of the counter.
abbrev pub AreFew : System → Type 0
AreFew s = length s.threads + 1 < 2 ^ 31

-- The thread at a position, and the others.
pub weigh-at :
    (w : Thread → ℕ) (before after : List Thread) (t : Thread)
    → weigh w (before ++ t ∷ after) ≡ w t + (weigh w before + weigh w after)
unfolding weigh
weigh-at w before after t = omega (arith, weigh-append w before (t ∷ after))

weigh-reads-le : (ts : List Thread) → weigh reads ts ≤ length ts
unfolding weigh
weigh-reads-le [] = omega arith
weigh-reads-le (t ∷ ts) = omega (arith, reads-le t, weigh-reads-le ts)

length-at :
    (before after : List Thread) (t : Thread)
    → length (before ++ t ∷ after) ≡ suc (length before + length after)
length-at before after t = omega (arith, length-append before (t ∷ after))

-- Every step of every thread keeps the latch consistent, and the number of threads.
pub Step-IsConsistent :
    {s s' : System} → Step s s' → AreFew s → IsConsistent s → IsConsistent s' × AreFew s'
Step-IsConsistent (turn before {t = t} {t' = t'} after move) few consistent = (
  rw
      (
        weigh-at reads before after t',
        weigh-at writes before after t',
        weigh-at excludes before after t',
        weigh-at locks before after t',
        weigh-at awaited before after t',
        weigh-at fails before after t',
      )
      (Move-Totals _ _ _ _ _ _ move
        (
          omega (
            arith,
            weigh_mono excludes writes excludes-writes before,
            weigh_mono excludes writes excludes-writes after,
          ),
          omega (
            arith,
            weigh_mono awaited locks awaited-locks before,
            weigh_mono awaited locks awaited-locks after,
          ),
          omega (arith, weigh-reads-le before, weigh-reads-le after, length-at before after t, few),
        )
        (rw
          (
            weigh-at reads before after t,
            weigh-at writes before after t,
            weigh-at excludes before after t,
            weigh-at locks before after t,
            weigh-at awaited before after t,
            weigh-at fails before after t,
          )
          at consistent)),
  omega (arith, length-at before after t, length-at before after t', few),
)

-- All threads idle, and what can become of them.
abbrev pub idle_threads : ℕ → List Thread
idle_threads zero = []
idle_threads (suc n) = idle ∷ idle_threads n

abbrev pub fresh_latch : ℕ → System
fresh_latch n = record { counter = 0; locked = false; threads = idle_threads n }

pub data Reach (n : ℕ) : System → Type 0 where
  start : Reach n (fresh_latch n)
  later : {s s' : System} → Reach n s → Step s s' → Reach n s'

weigh-idle : (w : Thread → ℕ) → w idle ≡ 0 → (n : ℕ) → weigh w (idle_threads n) ≡ 0
unfolding weigh
weigh-idle w h zero = refl
weigh-idle w h (suc n) = omega (arith, h, weigh-idle w h n)

length-idle : (n : ℕ) → length (idle_threads n) ≡ n
length-idle zero = refl
length-idle (suc n) = ap suc (length-idle n)

-- In every state that threads, each of which releases only what it holds, reach from an idle latch
-- by steps in any order, with fewer threads than half the counter's values: the counter is twice
-- the number of readers plus the number of writers' bits, which is at most one; the mutex is locked
-- exactly if one thread holds it; a thread that waited for all readers has none beside it, and no
-- bit is set while a thread that saw none holds the mutex; no assertion has failed; and the threads
-- are as few as before.
pub Reach-IsConsistent :
    {n : ℕ} {s : System} → n + 1 < 2 ^ 31 → Reach n s → IsConsistent s × AreFew s
Reach-IsConsistent {n} few start = (
  rw
      (
        weigh-idle reads refl n,
        weigh-idle writes refl n,
        weigh-idle excludes refl n,
        weigh-idle locks refl n,
        weigh-idle awaited refl n,
        weigh-idle fails refl n,
      )
      (refl, omega arith, refl, (λ _. refl), (λ _. refl), refl),
  omega (arith, length-idle n),
)
Reach-IsConsistent few (later r step) =
    let (consistent, few') = Reach-IsConsistent few r in Step-IsConsistent step few' consistent

module _ {n : ℕ} {s : System} (few : n + 1 < 2 ^ 31) (r : Reach n s)
    (before after : List Thread) where
  -- In every state that few enough threads reach from an idle latch by steps in any order: while a
  -- thread holds the latch for writing, no thread counts as a reader, no other has set the writer's
  -- bit, and the counter is `WRITER_MASK`.
  pub writing-alone :
      s.threads ≡ before ++ writing ∷ after
      → (weigh reads (before ++ after) ≡ 0)
        × (weigh writes (before ++ after) ≡ 0)
        × (s.counter ≡ writer_mask)
  writing-alone e =
      let (counts, one, mutex, exclusion, clear, sound) = (Reach-IsConsistent few r).0 in
      let r_at = ap (weigh reads) e ∙ weigh-at reads before after writing in
      let w_at = ap (weigh writes) e ∙ weigh-at writes before after writing in
      let e_at = ap (weigh excludes) e ∙ weigh-at excludes before after writing in
      let no_reader = exclusion (omega (arith, e_at)) in
      (
        omega (arith, weigh-append reads before after, r_at, no_reader),
        omega (arith, weigh-append writes before after, w_at, one),
        omega (arith, counts, no_reader, w_at, one),
      )
