-- ===== src/Node/Sorted.antt =====
-- node.h: what `is_sorted` says of a node, and what an iterator yields.
use foster_btree.Prelude.{
  ℕ, zero, suc, ◌+◌, ◌≤◌, ◌<◌, ◌≡◌, ◌↔◌, refl, subst, Bool, Bool-cases, inl, inr, true, false,
  Option, none, some, List, [], ◌∷◌, arith, dec_lt, lt→ltb, ge→ltb, ltb, le→leb, gt→leb,
  if◌then◌else◌,
}
use foster_btree.Prelude.Outcome.{Outcome, ok, ◌>>=◌, Returns, Returns-inv}
use foster_btree.Layout.{slot_word}
use foster_btree.Prelude.Words.{cast-small}
use foster_btree.SlotArray.Defs.{SlotArray}
use foster_btree.Node.Defs.{NodeType, Iterator, slot_key, read_slot, iterate, iterator_next}
use foster_btree.Node.Rep.{
  IsNodeType, IsNode, IsStored, stored, stored_key-eq, stored-Holds, read_key-eq,
}
use foster_btree.Node.Find.{count-lt-word}
use foster_btree.Node.Whole.{sorted_slots, is_sorted}

-- What calls of `next` yield, one after the other, each into the variables of the one before.
abbrev pub answer : {K V : Type 0} → Bool → K → V → Option (K × V)
answer true key value = some (key, value)
answer false key value = none

abbrev pub next_calls :
    {K V P : Type 0} (t : NodeType K V P) (calls : ℕ) (iterator : Iterator) (key : K) (value : V)
    (s : SlotArray P)
    → Outcome (List (Option (K × V)))
next_calls t zero iterator key value s = ok []
next_calls {K} {V} t (suc calls) iterator key value s =
    iterator_next t iterator key value s >>= λ (r : Iterator × Bool × K × V).
    next_calls t calls r.0 r.2 r.3 s >>= λ rest. ok (answer r.1 r.2 r.3 ∷ rest)

-- Each pair of the sequence from `i` on, and then nothing more.
abbrev pub pairs_from :
    {K V : Type 0} → (calls i count : ℕ) → (ℕ → K) → (ℕ → V) → List (Option (K × V))
pairs_from zero i count keys values = []
pairs_from (suc calls) i count keys values =
    (if ltb i count then some (keys i, values i) else none)
    ∷ pairs_from calls (i + 1) count keys values

module _ {K V P : Type 0} {t : NodeType K V P} {Fits : K → V → Type 0} {image : K → V → List ℕ}
    {key_length : K → ℕ} (is : IsNodeType t Fits image key_length) {floor : ℕ} {s : SlotArray P}
    {count : ℕ} {keys : ℕ → K} {values : ℕ → V}
    (holds : IsStored t Fits image floor s count keys values) where
  open t use {layout, key_order, pmnk_order, encoder}
  open is use {is_encoder, pmnk_mono}
  open holds use {represents, fits}

  -- `read_slot` of a used slot decodes its key and value, whatever the out-parameters held.
  pub read_slot-eq :
      (i : ℕ)
      → i < count
      → (key : K) (value : V) → read_slot t i key value s ≡ ok (keys i, values i)
  unfolding read_slot
  read_slot-eq i used key value =
      rw
        (
          read_key-eq is holds i used key,
          is_encoder.reads_value _ _ (keys i) (values i) value (fits i used)
              (stored-Holds is holds i used),
        )
        refl

  -- The answer of the loop of `is_sorted` from slot `i` on: no key is below the one before it.
  abbrev pub AscendsFrom : ℕ → Type 0
  AscendsFrom i = (j : ℕ) → i ≤ j + 1 → j + 1 < count → key_order.lt (keys (j + 1)) (keys j) ≡ false

  abbrev Says : ℕ → Bool → Type 0
  Says i b = (b ≡ true) ↔ AscendsFrom i

  -- Keys in order have normalized keys in order.
  pmnk_ascends :
      (a b : K)
      → key_order.lt b a ≡ false
      → pmnk_order.lt (encoder.get_pmnk b) (encoder.get_pmnk a) ≡ false
  pmnk_ascends a b h = elim (Bool-cases (key_order.eq a b)) [
    | inl e ↦
        subst (λ k. pmnk_order.lt (encoder.get_pmnk k) (encoder.get_pmnk a) ≡ false)
          (key_order.eq_sound a b e) (pmnk_order.lt_irrefl (encoder.get_pmnk a))
    | inr n ↦ pmnk_mono a b (elim (Bool-cases (key_order.lt a b)) [
      | inl less ↦ less
      | inr not_less ↦ absurd (ground (arith, key_order.lt_connex a b n not_less))
    ])
  ]

  refuted :
      (i : ℕ) → i + 1 < count → key_order.lt (keys (i + 1)) (keys i) ≡ true → Says (i + 1) false
  refuted i used below = (
    (λ e. absurd (ground arith)),
    λ ascends. let above = ascends i (omega arith) used in absurd (ground arith),
  )

  further :
      (i : ℕ) (rest : Outcome Bool)
      → key_order.lt (keys (i + 1)) (keys i) ≡ false
      → Returns rest (Says (suc (i + 1)))
      → Returns rest (Says (i + 1))
  further i rest above h =
      let (b, e, says) = Returns-inv rest _ h in
      rw e (
        (λ up j le used. elim (dec_lt i j) [
          | yes later ↦ says.0 up j (omega arith) used
          | no now ↦
              subst (λ k. key_order.lt (keys (k + 1)) (keys k) ≡ false) {x = i} (omega arith) above
        ]),
        λ ascends. says.1 (λ j le used. ascends j (omega arith) used),
      )

  -- The comparisons with the slot before.
  compared :
      (i : ℕ) (rest : Outcome Bool)
      → i + 1 < count
      → Returns rest (Says (suc (i + 1)))
      → Returns
          (if pmnk_order.lt (encoder.get_pmnk (keys (i + 1))) (encoder.get_pmnk (keys i))
            then ok false
            else if key_order.lt (keys (i + 1)) (keys i)
            then ok false
            else rest)
          (Says (i + 1))
  compared i rest used h = elim (Bool-cases (key_order.lt (keys (i + 1)) (keys i))) [
    | inl below ↦
        elim (Bool-cases
          (pmnk_order.lt (encoder.get_pmnk (keys (i + 1))) (encoder.get_pmnk (keys i)))) [
            | inl e ↦ rw e (refuted i used below)
            | inr e ↦ rw (e, below) (refuted i used below)
          ]
    | inr above ↦ rw (pmnk_ascends (keys i) (keys (i + 1)) above, above) (further i rest above h)
  ]

  sorted_slots-Says :
      (rounds i : ℕ) (key : K)
      → rounds + (i + 1) ≡ count
      → Returns
          (sorted_slots t rounds (i + 1) (encoder.get_pmnk (keys i)) key (keys i) s)
          (Says (i + 1))
  unfolding sorted_slots
  sorted_slots-Says zero i key e = ((λ up j le used. absurd (omega arith)), λ ascends. refl)
  sorted_slots-Says (suc rounds) i key e =
      rw
        (
          read_key-eq is holds (i + 1) (omega arith) key,
          lt→ltb 0 (i + 1) (omega arith),
          stored_key-eq is holds (i + 1) (omega arith),
        )
        (compared i _ (omega arith) (
          subst
            (λ k.
              Returns
                (sorted_slots t rounds k (encoder.get_pmnk (keys (i + 1))) (keys (i + 1))
                  (keys (i + 1)) s)
                (Says k))
            {x = i + 1 + 1} (omega arith)
            (sorted_slots-Says rounds (i + 1) (keys (i + 1)) (omega arith))))

  from_first : (m : Outcome Bool) → Returns m (Says 1) → Returns m (Says 0)
  from_first m h =
      let (b, e, says) = Returns-inv m _ h in
      rw e (
        (λ up j le used. says.0 up j (omega arith) used),
        λ ascends. says.1 (λ j le used. ascends j (omega arith) used),
      )

  all_slots :
      (rounds : ℕ)
      → rounds ≡ count
      → Returns (sorted_slots t rounds 0 (slot_key t s 0) t.blank t.blank s) (Says 0)
  unfolding sorted_slots
  all_slots zero e = ((λ up j le used. absurd (omega arith)), λ ascends. refl)
  all_slots (suc rounds) e =
      rw (read_key-eq is holds 0 (omega arith) t.blank, stored_key-eq is holds 0 (omega arith))
        (from_first _ (sorted_slots-Says rounds 0 (keys 0) (omega arith)))

  -- On a node whose slots hold pairs in any order, `is_sorted` returns, and returns true exactly if
  -- no key is below the one in the slot before it.
  pub is_sorted-Ascends : Returns (is_sorted t s) (λ b. (b ≡ true) ↔ AscendsFrom 0)
  unfolding is_sorted
  is_sorted-Ascends = all_slots s.slot_end represents.count_eq

module _ {K V P : Type 0} {t : NodeType K V P} {Fits : K → V → Type 0} {image : K → V → List ℕ}
    {key_length : K → ℕ} (is : IsNodeType t Fits image key_length) {floor : ℕ} {s : SlotArray P}
    {count : ℕ} {keys : ℕ → K} {values : ℕ → V}
    (node : IsNode t Fits image floor s count keys values) where
  open node use {represents}

  ended :
      (calls i : ℕ) (key : K) (value : V)
      → count ≤ i
      → next_calls t calls (record { current_slot = count }) key value s
        ≡ ok (pairs_from calls i count keys values)
  unfolding iterator_next
  ended zero i key value over = refl
  ended (suc calls) i key value over =
      rw
        (
          le→leb s.slot_end count (omega (arith, represents.count_eq)),
          ge→ltb i count over,
          ended calls (i + 1) key value (omega arith),
        )
        refl

  running :
      (calls i : ℕ) (key : K) (value : V)
      → i ≤ count
      → next_calls t calls (record { current_slot = i }) key value s
        ≡ ok (pairs_from calls i count keys values)
  unfolding iterator_next
  running zero i key value h = refl
  running (suc calls) i key value h = elim (dec_lt i count) [
    | no over ↦
        subst
          (λ j.
            next_calls t (suc calls) (record { current_slot = j }) key value s
            ≡ ok (pairs_from (suc calls) i count keys values))
          {x = count} (omega arith) (ended (suc calls) i key value (omega arith))
    | yes used ↦
        rw
          (
            gt→leb s.slot_end i (omega (arith, represents.count_eq)),
            read_slot-eq is (stored is node i used) i used key value,
            cast-small (slot_word t.layout) (i + 1) (omega (arith, count-lt-word is node)),
            lt→ltb i count used,
            running calls (i + 1) (keys i) (values i) (omega arith),
          )
          refl
  ]

  -- On a sorted node, calls of `next` on a new iterator, however many, yield the pairs of the
  -- sequence in order, each once, and return false from then on.
  pub iterate-pairs :
      (calls : ℕ) (key : K) (value : V)
      → next_calls t calls (iterate t) key value s ≡ ok (pairs_from calls 0 count keys values)
  unfolding iterate
  iterate-pairs calls key value = running calls 0 key value (omega arith)
