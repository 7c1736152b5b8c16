-- ===== src/Tests/LatchExamples.antt =====
-- The theorems on the latch at inputs that meet their hypotheses.
use foster_btree.Prelude.{◌≡◌, refl, false, [], ◌∷◌, ◌++◌, arith}
use foster_btree.Prelude.Words.{cast}
use foster_btree.Latch.{
  System, turn, idle, writing, want_writer, lock_writer, see_writer, enter_writer, assert_writer,
  see_readers, unlock_writer,
}
use foster_btree.Latch.Marks.{weigh, reads, writes}
use foster_btree.Latch.Invariant.{
  Reach, start, later, IsConsistent, AreFew, Reach-IsConsistent, writing-alone,
}

-- One of two threads takes the latch for writing.
abbrev taken : System
taken = record { counter = 1; locked = false; threads = writing ∷ idle ∷ [] }

taken-Reach : Reach 2 taken
unfolding cast
taken-Reach =
    later
      (later
        (later
          (later
            (later
              (later (later start (turn [] (idle ∷ []) want_writer))
                (turn [] (idle ∷ []) lock_writer))
              (turn [] (idle ∷ []) (see_writer refl)))
            (turn [] (idle ∷ []) (enter_writer {c' = 1} refl)))
          (turn [] (idle ∷ []) (assert_writer refl)))
        (turn [] (idle ∷ []) (see_readers refl)))
      (turn [] (idle ∷ []) unlock_writer)

latch_example : IsConsistent taken × AreFew taken
latch_example = Reach-IsConsistent (omega arith) taken-Reach

writing_example :
    (weigh reads ([] ++ (idle ∷ [])) ≡ 0)
    × (weigh writes ([] ++ (idle ∷ [])) ≡ 0)
    × (taken.counter ≡ 1)
writing_example = writing-alone (omega arith) taken-Reach [] (idle ∷ []) refl
