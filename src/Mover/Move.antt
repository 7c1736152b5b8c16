-- ===== src/Mover/Move.antt =====
-- move_records.h: `move_records` moves all of a range of entries, or none.
use foster_btree.Prelude.{
  ℕ, zero, suc, ◌+◌, ◌-◌, ◌≤◌, ◌<◌, ◌≡◌, refl, subst, Bool, true, false, Option, ltb, if◌then◌else◌,
  arith, fun_ext, lt→ltb, ge→ltb, dec_lt,
}
use foster_btree.Prelude.Words.{cast, cast-small, sub_mod-small}
use foster_btree.Prelude.Outcome.{Outcome, ok, ◌>>=◌, Returns, Returns->>=}
use foster_btree.Layout.{Layout, IsLayout, slot_word}
use foster_btree.Layout.Bounds.{slot_limit-lt-slot_word}
use foster_btree.Bytes.{Memory}
use foster_btree.SlotArray.Defs.{SlotArray, insert_slot}
use foster_btree.SlotArray.Invariant.{slot_end-le-limit}
use foster_btree.SlotArray.Slots.{slot_inserted, slot_deleted}
use foster_btree.Layout.{IsAddressable}
use foster_btree.SlotArray.Entries.{Entry, Represents}
use foster_btree.Mover.{drop_slots, copy_inserted, copy_slots, complete, move_records}
use foster_btree.Mover.Drop.{IsMeasured, cut, drop_slots-Represents}
use foster_btree.Mover.Copy.{copy_inserted-Copied}

-- A sequence without its `n` members from `first` on, and one with the `n` members of `g` from `i` on
-- put in at `j`.
abbrev pub removed : {A : Type 0} → (first n : ℕ) → (ℕ → A) → ℕ → A
removed first n f k = if ltb k first then f k else f (k + n)

abbrev pub spliced : {A : Type 0} → (j n i : ℕ) → (g f : ℕ → A) → ℕ → A
spliced j n i g f k = if ltb k j then f k else if ltb k (j + n) then g (i + (k - j)) else f (k - n)

module _ {A : Type 0} where
  cut-removed : (first n : ℕ) (f : ℕ → A) (k : ℕ) → cut first n f k ≡ removed first n f k
  cut-removed first zero f k = ground arith
  cut-removed first (suc n) f k = ground (arith, cut-removed first n (slot_deleted (first + n) f) k)

  spliced-none : (j i : ℕ) (g f : ℕ → A) → f ≡ spliced j 0 i g f
  spliced-none j i g f = fun_ext (λ k. ground arith)

  spliced-suc :
      (j n i : ℕ) (g f : ℕ → A)
      → slot_inserted (j + n) (g (i + n)) (spliced j n i g f) ≡ spliced j (n + 1) i g f
  spliced-suc j n i g f = fun_ext (λ k. ground arith)

  cut-spliced : (j n i : ℕ) (g f : ℕ → A) → cut j n (spliced j n i g f) ≡ f
  cut-spliced j n i g f = fun_ext (λ k. ground (arith, cut-removed j n (spliced j n i g f) k))

module _ (length_at : Memory → ℕ → ℕ) (ld ls : Layout) (isd : IsLayout ld) (iss : IsLayout ls)
    (addressable : IsAddressable ld) (addressable' : IsAddressable ls) {K : Type 0}
    (construct : Option K) (floor : ℕ) {floor' : ℕ} {src : SlotArray K} {count' : ℕ}
    {moved : ℕ → Entry K} (r' : Represents ls floor' src count' moved)
    (measured' : (i : ℕ) → i < count' → IsMeasured length_at (moved i))
    (narrow : count' < slot_word ld) {count : ℕ} (entries : ℕ → Entry K) (i j : ℕ)
    (inside : j ≤ count) where
  -- The destination after `c` slots are copied.
  abbrev Spliced : ℕ → SlotArray K → Type 0
  Spliced c dest = Represents ld floor dest (count + c) (spliced j c i moved entries)

  -- What the copying loop answers.
  abbrev pub Looped : (all : ℕ) → SlotArray K × ℕ × Bool → Type 0
  Looped all (dest, copied, true) = (copied ≡ all) × Spliced all dest
  Looped all (dest, copied, false) = (copied ≤ all) × Spliced copied dest

  count-lt-word : (c : ℕ) (dest : SlotArray K) → Spliced c dest → count + c < slot_word ld
  count-lt-word c dest r =
      omega
        (arith, r.count_eq, slot_end-le-limit ld isd r.well_formed, slot_limit-lt-slot_word ld isd)

  -- What a round answers.
  abbrev Stepped : ℕ → SlotArray K × Bool → Type 0
  Stepped c (dest', true) =
      Represents ld floor dest' (count + c + 1)
        (slot_inserted (j + c) (moved (i + c)) (spliced j c i moved entries))
  Stepped c (dest', false) = Spliced c dest'

  Stepped-Spliced : (c : ℕ) (dest' : SlotArray K) → Stepped c (dest', true) → Spliced (c + 1) dest'
  Stepped-Spliced c dest' r =
      let e : count + c + 1 ≡ count + (c + 1) = omega arith in
      subst (λ n. Represents ld floor dest' n (spliced j (c + 1) i moved entries)) e
        (subst (Represents ld floor dest' (count + c + 1)) (spliced-suc j c i moved entries) r)

  -- What follows a round.
  after_round :
      (rounds c : ℕ) (dest : SlotArray K)
      → i + c + suc rounds ≤ count'
      → (r : Spliced c dest)
      → ((dest' : SlotArray K)
          → Spliced (c + 1) dest'
          → Returns
              (copy_slots length_at ld ls construct src rounds
                (i + (c + 1))
                (j + (c + 1))
                (c + 1)
                dest')
              (Looped (c + 1 + rounds)))
      → (dest' : SlotArray K) (b : Bool) → Stepped c (dest', b)
      → Returns
          (elim b as (λ _. Outcome (SlotArray K × ℕ × Bool)) [
            | false ↦ ok (dest', c, false)
            | true ↦
                copy_slots length_at ld ls construct src rounds
                  (cast (slot_word ld) (i + c + 1))
                  (cast (slot_word ld) (j + c + 1))
                  (c + 1)
                  dest'
          ])
          (Looped (c + suc rounds))
  after_round rounds c dest h r again dest' false copied = (omega arith, copied)
  after_round rounds c dest h r again dest' true copied =
      let r_next = Stepped-Spliced c dest' copied in
      let bound = count-lt-word (c + 1) dest' r_next in
      let e : i + c + 1 ≡ i + (c + 1) = omega arith in
      let e' : j + c + 1 ≡ j + (c + 1) = omega arith in
      let total : c + suc rounds ≡ c + 1 + rounds = omega arith in
      rw
        (
          cast-small (slot_word ld) (i + c + 1) (omega (arith, narrow)),
          cast-small (slot_word ld) (j + c + 1) (omega (arith, bound, inside)),
          e,
          e',
          total,
        )
        (again dest' r_next)

  copy_slots-Looped :
      (rounds c : ℕ) (dest : SlotArray K)
      → Spliced c dest
      → i + c + rounds ≤ count'
      → Returns
          (copy_slots length_at ld ls construct src rounds (i + c) (j + c) c dest)
          (Looped (c + rounds))
  unfolding copy_slots
  copy_slots-Looped zero c dest r h =
      let e : c ≡ c + 0 = omega arith in (e, subst (λ x. Spliced x dest) e r)
  copy_slots-Looped (suc rounds) c dest r h =
      Returns->>=
        (insert_slot ld construct (j + c) dest
          >>= copy_inserted length_at ld ls construct src (i + c) (j + c))
        _ (Stepped c) (Looped (c + suc rounds))
        (copy_inserted-Copied length_at ld ls isd iss addressable addressable' construct r' (i + c)
          (omega arith) (measured' (i + c) (omega arith)) r (j + c) (omega (arith, inside)))
        (λ q copied.
          after_round rounds c dest h r
            (λ dest' r_next. copy_slots-Looped rounds (c + 1) dest' r_next (omega arith)) q.0 q.1
            copied)

  -- All of the entries moved, or none.
  module _ (measured : (k : ℕ) → k < count → IsMeasured length_at (entries k)) (n : ℕ)
      (some_slots : 0 < n) (available : i + n ≤ count') where
    abbrev pub IsMoved : (move : Bool) → SlotArray K × SlotArray K × Bool → Type 0
    IsMoved move (dest', src', false) = Represents ld floor dest' count entries × (src' ≡ src)
    IsMoved true (dest', src', true) =
        Represents ld floor dest' (count + n) (spliced j n i moved entries)
        × Represents ls floor' src' (count' - n) (removed i n moved)
    IsMoved false (dest', src', true) =
        Represents ld floor dest' (count + n) (spliced j n i moved entries) × (src' ≡ src)

    spliced-IsMeasured :
        (c : ℕ)
        → c ≤ n
        → (k : ℕ) → k < count + c
        → IsMeasured length_at (spliced j c i moved entries k)
    spliced-IsMeasured c few k h = elim (dec_lt k j) [
      | yes first ↦ rw (lt→ltb k j first) (measured k (omega (arith, inside)))
      | no later ↦ elim (dec_lt k (j + c)) [
        | yes middle ↦
            rw (ge→ltb k j (omega arith), lt→ltb k (j + c) middle)
              (measured' (i + (k - j)) (omega (arith, available)))
        | no last ↦
            rw (ge→ltb k j (omega arith), ge→ltb k (j + c) (omega arith))
              (measured (k - c) (omega arith))
      ]
    ]

    complete-IsMoved :
        (move : Bool) (q : SlotArray K × ℕ × Bool)
        → Looped n q
        → Returns (complete length_at ld ls construct src move j i q) (IsMoved move)
    unfolding complete
    complete-IsMoved move (dest', copied, false) looped =
        Returns->>= (drop_slots length_at ld j copied dest') (λ dest''. ok (dest'', src, false))
          (λ dest''.
            Represents ld floor dest'' (count + copied - copied)
              (cut j copied (spliced j copied i moved entries)))
          (IsMoved move)
          (drop_slots-Represents length_at ld isd addressable j copied dest' (count + copied)
            (spliced j copied i moved entries) looped.1 (omega (arith, inside))
            (spliced-IsMeasured copied looped.0))
          (λ dest'' r.
            let e : count + copied - copied ≡ count = omega arith in
            (
              subst (λ m. Represents ld floor dest'' m entries) e
                  (subst (Represents ld floor dest'' (count + copied - copied))
                    (cut-spliced j copied i moved entries) r),
              refl,
            ))
    complete-IsMoved true (dest', copied, true) looped =
        Returns->>= (drop_slots length_at ls i copied src) (λ src'. ok (dest', src', true))
          (λ src'. Represents ls floor' src' (count' - copied) (cut i copied moved)) (IsMoved true)
          (drop_slots-Represents length_at ls iss addressable' i copied src count' moved r'
            (omega (arith, looped.0, available)) measured')
          (λ src' r. (
            looped.1,
            subst (λ m. Represents ls floor' src' (count' - m) (removed i m moved)) looped.0
                (subst (Represents ls floor' src' (count' - copied))
                  (fun_ext (cut-removed i copied moved)) r),
          ))
    complete-IsMoved false (dest', copied, true) looped = (looped.1, refl)

    -- From a source and a destination that represent sequences of entries, in layouts whose slots
    -- can hold every block position and whose blocks an `int` can count, where the encoder finds
    -- the length of every entry in memory and the source's slot numbers fit the destination's type:
    -- `move_records` of `n > 0` entries returns, all or nothing. With true, the destination has the
    -- entries put in at their place and the source has lost them, or is unchanged without `move`;
    -- with false, the destination represents the same sequence as before and the source is
    -- unchanged.
    pub move_records-IsMoved :
        (dest : SlotArray K) (move : Bool)
        → Represents ld floor dest count entries
        → Returns (move_records length_at ld ls construct src dest j i n move) (IsMoved move)
    unfolding move_records
    move_records-IsMoved dest move r =
        let last : i + n - 1 < src.slot_end = omega (arith, r'.count_eq, some_slots, available) in
        let rounds : i + n - 1 + 1 - i ≡ n = omega (arith, some_slots) in
        rw
          (
            cast-small (slot_word ld) (i + n) (omega (arith, narrow, available)),
            sub_mod-small (slot_word ld) (i + n) 1 (omega (arith, some_slots))
                (omega (arith, narrow, available)),
            lt→ltb (i + n - 1) src.slot_end last,
            rounds,
          )
          (Returns->>= (copy_slots length_at ld ls construct src n i j 0 dest)
            (complete length_at ld ls construct src move j i) (Looped n) (IsMoved move) start
            (complete-IsMoved move))
      where
        start : Returns (copy_slots length_at ld ls construct src n i j 0 dest) (Looped n)
        start =
            let (e, e', e'') : (i + 0 ≡ i) × (j + 0 ≡ j) × (0 + n ≡ n) =
              (omega arith, omega arith, omega arith) in
            let c : count ≡ count + 0 = omega arith in
            rw (e, e', e'') at
              (copy_slots-Looped n 0 dest
                (subst (λ m. Represents ld floor dest m (spliced j 0 i moved entries)) c
                  (subst (Represents ld floor dest count) (spliced-none j i moved entries) r))
                (omega (arith, available)))
