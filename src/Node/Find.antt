-- ===== src/Node/Find.antt =====
-- node.h: `find_slot` locates the key by its normalized key and the loop over the slots that share it.
use foster_btree.Prelude.{
  ℕ, zero, suc, ◌+◌, ◌≤◌, ◌<◌, ◌≡◌, refl, ◌∙◌, sym, ap, inl, inr, Bool, true, false, List, arith,
  Bool-cases, dec_lt, le→leb, gt→leb,
}
use foster_btree.Prelude.Words.{cast-small}
use foster_btree.Prelude.Outcome.{Outcome, Returns}
use foster_btree.Prelude.KeyOrder.{lt-asymm, lt-of_ge_of_lt, lt-of_lt_of_ge}
use foster_btree.Layout.{slot_word}
use foster_btree.Layout.Bounds.{slot_limit-lt-slot_word}
use foster_btree.Search.Correct.{IsSorted, Below, Above, Locates}
use foster_btree.SlotArray.Defs.{SlotArray}
use foster_btree.SlotArray.Invariant.{slot_end-le-limit}
use foster_btree.Node.Defs.{
  NodeType, Verdict, match, past, next, slot_key, payload_for_slot, compare_key, follow, scan,
}
use foster_btree.Node.Rep.{IsNodeType, IsNode, slot_key-eq, decode_key-eq}

module _ {K V P : Type 0} {t : NodeType K V P} {Fits : K → V → Type 0} {image : K → V → List ℕ}
    {key_length : K → ℕ} (is : IsNodeType t Fits image key_length) {floor : ℕ} {s : SlotArray P}
    {count : ℕ} {keys : ℕ → K} {values : ℕ → V}
    (node : IsNode t Fits image floor s count keys values) where
  open t use {layout, key_order, pmnk_order, encoder}
  open is use {is_layout, is_encoder, pmnk_mono}
  open node use {represents, fits, increasing}

  abbrev pub pmnk : K → P
  pmnk = encoder.get_pmnk

  pub count-lt-word : count < slot_word layout
  count-lt-word = omega (
    arith,
    represents.count_eq,
    slot_end-le-limit layout is_layout represents.well_formed,
    slot_limit-lt-slot_word layout is_layout,
  )

  pub keys-IsSorted : IsSorted key_order keys count
  keys-IsSorted i j le h = elim (dec_lt i j) [
    | yes lt ↦ lt-asymm key_order (keys i) (keys j) (increasing i j lt h)
    | no ge ↦ let e : i ≡ j = omega arith in rw e (key_order.lt_irrefl (keys j))
  ]

  pmnk_sorted :
      (i j : ℕ) → i ≤ j → j < count → pmnk_order.lt (pmnk (keys j)) (pmnk (keys i)) ≡ false
  pmnk_sorted i j le h = elim (dec_lt i j) [
    | yes lt ↦ pmnk_mono (keys i) (keys j) (increasing i j lt h)
    | no ge ↦ let e : i ≡ j = omega arith in rw e (pmnk_order.lt_irrefl (pmnk (keys j)))
  ]

  pub slot_keys-IsSorted : IsSorted pmnk_order (slot_key t s) count
  slot_keys-IsSorted i j le h =
      rw (slot_key-eq is node j h, slot_key-eq is node i (omega arith)) (pmnk_sorted i j le h)

  module _ (a b : K) where
    -- The order of the normalized keys, where it is strict, is that of the keys.
    pub lt_of_pmnk : pmnk_order.lt (pmnk a) (pmnk b) ≡ true → key_order.lt a b ≡ true
    lt_of_pmnk h = elim (Bool-cases (key_order.lt a b)) [
      | inl less ↦ less
      | inr not_less ↦ elim (Bool-cases (key_order.eq a b)) [
        | inl same ↦
            let e : a ≡ b = key_order.eq_sound a b same in
            ground (arith, pmnk_order.lt_irrefl (pmnk b), ap pmnk e)
        | inr other ↦ ground (arith, pmnk_mono b a (key_order.lt_connex a b other not_less))
      ]
    ]

  module _ (key : K) where
    -- What the loop has to answer: where the key is, and the address of the value decoded last.
    abbrev pub Scanned : Bool × ℕ × ℕ → Type 0
    Scanned (found, at, addr) =
        Locates key_order keys count key (found, at)
        × (found ≡ true → addr ≡ payload_for_slot t s at + key_length (keys at))

    Below-next :
        (i : ℕ)
        → i < count
        → key_order.lt (keys i) key ≡ true
        → Below key_order keys count key (i + 1)
    Below-next i h less j p =
        lt-of_ge_of_lt key_order (keys j) (keys i) key (keys-IsSorted j i (omega arith) h) less

    Above-from : (i : ℕ) → key_order.lt key (keys i) ≡ true → Above key_order keys count key i
    Above-from i more j p q =
        lt-of_lt_of_ge key_order key (keys i) (keys j) more (keys-IsSorted i j p q)

    -- A larger normalized key ends the loop.
    Above-pmnk :
        (i j : ℕ)
        → i ≤ j
        → j < count
        → pmnk (keys i) ≡ pmnk key
        → pmnk_order.eq (pmnk (keys j)) (pmnk key) ≡ false
        → Above key_order keys count key j
    Above-pmnk i j le h same other =
        let not_less : pmnk_order.lt (pmnk (keys j)) (pmnk key) ≡ false =
          rw same at (pmnk_sorted i j le h) in
        Above-from j
          (lt_of_pmnk key (keys j) (pmnk_order.lt_connex (pmnk (keys j)) (pmnk key) other not_less))

    less_of_not :
        (slot : ℕ)
        → key_order.eq (keys slot) key ≡ false
        → key_order.lt key (keys slot) ≡ false
        → key_order.lt (keys slot) key ≡ true
    less_of_not slot other more = elim (Bool-cases (key_order.lt (keys slot) key)) [
      | inl less ↦ less
      | inr not_less ↦ ground (arith, key_order.lt_connex (keys slot) key other not_less)
    ]

    -- What a verdict on the decoded key says.
    abbrev Says : (slot : ℕ) → Verdict → Type 0
    Says slot match = keys slot ≡ key
    Says slot past = key_order.lt key (keys slot) ≡ true
    Says slot next = key_order.lt (keys slot) key ≡ true

    compare_key-Says : (slot : ℕ) → Says slot (compare_key t key (keys slot))
    unfolding compare_key
    compare_key-Says slot = elim (Bool-cases (key_order.eq (keys slot) key)) [
      | inl same ↦ rw same (key_order.eq_sound (keys slot) key same)
      | inr other ↦ rw other (elim (Bool-cases (key_order.lt key (keys slot))) [
        | inl less ↦ rw less less
        | inr more ↦ rw more (less_of_not slot other more)
      ])
    ]

    -- The slot at which the loop stands.
    pub record Candidate (slot : ℕ) : Type 0 where
      pub below : Below key_order keys count key slot
      pub same : pmnk (keys slot) ≡ pmnk key

    -- The address of the value in a slot.
    abbrev pub addr : ℕ → ℕ
    addr slot = payload_for_slot t s slot + key_length (keys slot)

    module _ (slot : ℕ) (h : slot < count) (below : Below key_order keys count key slot) where
      on_match : keys slot ≡ key → Scanned (true, slot, addr slot)
      on_match e = ((h, e, below), λ _. refl)

      on_past : key_order.lt key (keys slot) ≡ true → Scanned (false, slot, addr slot)
      on_past more = ((omega arith, below, Above-from slot more), λ c. cc)

      module _ (less : key_order.lt (keys slot) key ≡ true) where
        on_end : count ≤ slot + 1 → Scanned (false, slot + 1, addr slot)
        on_end last =
            ((omega arith, Below-next slot h less, λ i p q. absurd (omega arith)), λ c. cc)

        on_other :
            slot + 1 < count
            → pmnk (keys slot) ≡ pmnk key
            → pmnk_order.eq (slot_key t s (slot + 1)) (pmnk key) ≡ false
            → Scanned (false, slot + 1, addr slot)
        on_other more same other = (
          (
            omega arith,
            Below-next slot h less,
            Above-pmnk slot (slot + 1) (omega arith) more same
                (rw (slot_key-eq is node (slot + 1) more) at other),
          ),
          λ c. cc,
        )

        on_same :
            slot + 1 < count
            → pmnk_order.eq (slot_key t s (slot + 1)) (pmnk key) ≡ true
            → Candidate (slot + 1)
        on_same more e = record {
          below = Below-next slot h less;
          same = sym (slot_key-eq is node (slot + 1) more) ∙ pmnk_order.eq_sound _ _ e;
        }

    follow-Scanned :
        (v : Verdict) (slot : ℕ) (continue : ℕ → Outcome (Bool × ℕ × ℕ))
        → slot < count
        → Candidate slot
        → Says slot v
        → (slot + 1 < count → Candidate (slot + 1) → Returns (continue (slot + 1)) Scanned)
        → Returns (follow t v key s slot (addr slot) continue) Scanned
    unfolding follow
    follow-Scanned match slot continue h c says more = on_match slot h c.below says
    follow-Scanned past slot continue h c says more = on_past slot h c.below says
    follow-Scanned next slot continue h c says more =
        rw
          (
            cast-small (slot_word layout) (slot + 1) (omega (arith, count-lt-word)),
            represents.count_eq,
          )
          (elim (dec_lt (slot + 1) count) [
            | no last ↦
                rw (le→leb count (slot + 1) (omega arith))
                  (on_end slot h c.below says (omega arith))
            | yes inside ↦
                rw (gt→leb count (slot + 1) inside)
                  (elim (Bool-cases (pmnk_order.eq (slot_key t s (slot + 1)) (pmnk key))) [
                    | inl e ↦ rw e (more inside (on_same slot h c.below says inside e))
                    | inr ne ↦ rw ne (on_other slot h c.below says inside c.same ne)
                  ])
          ])

    pub scan-Scanned :
        (fuel slot : ℕ)
        → slot < count
        → Candidate slot
        → count < fuel + slot
        → Returns (scan t fuel key s slot) Scanned
    unfolding scan
    scan-Scanned zero slot h c f = absurd (omega arith)
    scan-Scanned (suc fuel) slot h c f =
        let decoded = rw (c.same) at (decode_key-eq is node slot h) in
        rw decoded (
          follow-Scanned (compare_key t key (keys slot)) slot (λ slot'. scan t fuel key s slot') h c
            (compare_key-Says slot)
            (λ p next_c. scan-Scanned fuel (slot + 1) p next_c (omega arith)))
