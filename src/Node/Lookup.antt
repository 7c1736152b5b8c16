-- ===== src/Node/Lookup.antt =====
-- node.h: what `find_slot`, `find` and the `find` that returns a value answer.
use foster_btree.Prelude.{
  ℕ, ◌+◌, ◌-◌, ◌≤◌, ◌<◌, ◌≡◌, ◌↔◌, refl, ◌∙◌, sym, ap, subst, Bool, true, false, Option, none, some,
  List, arith, dec_lt, le→leb, if_true, lt→ltb, ge→ltb,
}
use foster_btree.Prelude.Outcome.{ok, throw, undefined_behavior, Returns, Returns-inv, Returns->>=}
use foster_btree.Prelude.KeyOrder.{lt-asymm}
use foster_btree.Layout.{slot_word}
use foster_btree.Search.{binary_search}
use foster_btree.Search.Correct.{Above, Locates, binary_search-Locates}
use foster_btree.SlotArray.Defs.{SlotArray, memory}
use foster_btree.Node.Defs.{
  NodeType, Found, slot_key, payload_for_slot, finish, after_search, not_found, find_slot_sorted,
  find_slot_unsorted, find_slot, find, find_value, decode_found,
}
use foster_btree.Node.Rep.{IsNodeType, IsNode, slot_key-eq, payload-Holds}
use foster_btree.Node.Find.{
  count-lt-word, pmnk, addr, Scanned, Candidate, slot_keys-IsSorted, lt_of_pmnk, scan-Scanned,
}

module _ {K V P : Type 0} {t : NodeType K V P} {Fits : K → V → Type 0} {image : K → V → List ℕ}
    {key_length : K → ℕ} (is : IsNodeType t Fits image key_length) {floor : ℕ} {s : SlotArray P}
    {count : ℕ} {keys : ℕ → K} {values : ℕ → V}
    (node : IsNode t Fits image floor s count keys values) (key : K) where
  open t use {layout, key_order, pmnk_order, encoder}
  open is use {is_encoder}
  open node use {represents, fits}

  -- Where the key is, or would go.
  abbrev pub Place : Bool × ℕ → Type 0
  Place = Locates key_order keys count key

  -- What `find_slot` answers to a caller who wants the value: its address, or else the address of
  -- the value before the place, if there is one.
  abbrev pub Answers : Found → Type 0
  Answers r =
      (at : ℕ) × Place (r.found, at)
      × (r.found ≡ true → (r.slot ≡ at) × (r.value_addr ≡ some (addr is node key at)))
      × (r.found ≡ false
          → 0 < at
          → (r.slot ≡ at - 1) × (r.value_addr ≡ some (addr is node key (at - 1))))

  abbrev pub Located : Bool → Found → Type 0
  Located false r = Place (r.found, r.slot)
  Located true r = Answers r

  -- The search by normalized keys, in terms of the keys.
  missed :
      (at : ℕ)
      → Locates pmnk_order (slot_key t s) count (encoder.get_pmnk key) (false, at)
      → Place (false, at)
  missed at (le, below, above) = (
    le,
    λ i p.
        lt_of_pmnk is node (keys i) key (rw (slot_key-eq is node i (omega arith)) at (below i p)),
    λ i p q. lt_of_pmnk is node key (keys i) (rw (slot_key-eq is node i q) at (above i p q)),
  )

  candidate :
      (at : ℕ)
      → Locates pmnk_order (slot_key t s) count (encoder.get_pmnk key) (true, at)
      → Candidate is node key at
  candidate at (lt, same, below) = record {
    below = λ i p.
        lt_of_pmnk is node (keys i) key (rw (slot_key-eq is node i (omega arith)) at (below i p));
    same = sym (slot_key-eq is node at lt) ∙ same;
  }

  skipped :
      (at : ℕ)
      → 0 < at
      → at ≤ count
      → encoder.skip_key (memory layout s) (payload_for_slot t s (at - 1))
        ≡ addr is node key (at - 1)
  skipped at pos le =
      is_encoder.skips_key _ _ (keys (at - 1)) (values (at - 1)) (fits (at - 1) (omega arith))
        (payload-Holds is node (at - 1) (omega arith))

  not_found-Located :
      (want : Bool) (at : ℕ) (given : Option ℕ)
      → Place (false, at)
      → Returns (not_found t want s at given) (Located want)
  unfolding not_found
  not_found-Located false at given place = place
  not_found-Located true at given place = elim (dec_lt 0 at) [
    | yes pos ↦
        rw (lt→ltb 0 at pos, le→leb at s.slot_end (omega (arith, represents.count_eq, place.0)))
          (at, place, (λ c. cc), λ _ _. (refl, ap some (skipped at pos place.0)))
    | no zero_at ↦
        rw (ge→ltb 0 at (omega arith)) (at, place, (λ c. cc), λ _ p. absurd (omega arith))
  ]

  -- The first step of `find_slot`.
  Hit : Bool × ℕ → Type 0
  Hit = Locates pmnk_order (slot_key t s) count (encoder.get_pmnk key)

  search-Hit :
      (slot : ℕ)
      → Returns
          (binary_search pmnk_order
            (slot_word layout)
            (slot_key t s)
            s.slot_end
            (encoder.get_pmnk key)
            slot
            0
            s.slot_end)
          Hit
  unfolding Hit
  search-Hit slot =
      subst
        (λ c.
          Returns
            (binary_search pmnk_order (slot_word layout) (slot_key t s) c (encoder.get_pmnk key)
              slot 0 c)
            Hit)
        (sym represents.count_eq)
        (binary_search-Locates pmnk_order (slot_word layout) (slot_key t s) count
          (slot_keys-IsSorted is node) (count-lt-word is node) (encoder.get_pmnk key) slot)

  finish-Located :
      (want : Bool) (r : Bool × ℕ × ℕ)
      → Scanned is node key r
      → Returns (finish t want s r) (Located want)
  unfolding finish
  finish-Located false (true, at, end) (place, value) = place
  finish-Located true (true, at, end) (place, value) =
      (at, place, (λ _. (refl, ap some (value refl))), λ c. cc)
  finish-Located want (false, at, end) (place, value) = not_found-Located want at _ place

  after_search-Located :
      (want : Bool) (r : Bool × ℕ) → Hit r → Returns (after_search t want key s r) (Located want)
  unfolding after_search Hit
  after_search-Located want (false, at) hit = not_found-Located want at none (missed at hit)
  after_search-Located want (true, at) hit =
      Returns->>= _ _ (Scanned is node key) (Located want)
        (scan-Scanned is node key (s.slot_end - at + 1) at hit.0 (candidate at hit)
          (omega (arith, represents.count_eq)))
        (finish-Located want)

  -- On a sorted node `find_slot` returns: true with the first and only slot of the key, or false
  -- with the place between smaller and larger keys. With `value_addr`, it sets it to the value of
  -- the key, or else, unless the place is the first, to that of the key before the place, and
  -- `slot` is then the slot of that key and not the place.
  pub find_slot-Located :
      (want : Bool) (slot : ℕ)
      → t.sorted ≡ true
      → Returns (find_slot t want key slot s) (Located want)
  unfolding find_slot find_slot_sorted
  find_slot-Located want slot sorted =
      rw
        (if_true t.sorted (find_slot_sorted t want key slot s) (find_slot_unsorted t want key s)
          sorted)
        (Returns->>= _ _ Hit (Located want) (search-Hit slot) (after_search-Located want))

  -- The key is in the node.
  abbrev pub IsMember : Type 0
  IsMember = (i : ℕ) × (i < count) × (keys i ≡ key)

  Place-IsMember : (b : Bool) (at : ℕ) → Place (b, at) → (b ≡ true) ↔ IsMember
  Place-IsMember true at (lt, e, below) = ((λ _. (at, lt, e)), λ _. refl)
  Place-IsMember false at (le, below, above) = ((λ c. cc), λ m. absurd (nowhere m))
    where
      nowhere : IsMember → ⊥
      nowhere (i, lt, e) = elim (dec_lt i at) [
        | yes p ↦ let less = rw e at (below i p) in ground (arith, key_order.lt_irrefl key)
        | no p ↦
            let more = rw e at (above i (omega arith) lt) in ground (arith, key_order.lt_irrefl key)
      ]

  pub not_found-absent : (at : ℕ) → Place (false, at) → IsMember → ⊥
  not_found-absent at place m = let found : false ≡ true = (Place-IsMember false at place).1 m in cc

  -- On a sorted node `find` returns, and returns true exactly if the key is in the node.
  pub find-IsMember : t.sorted ≡ true → Returns (find t key s) (λ b. (b ≡ true) ↔ IsMember)
  unfolding find
  find-IsMember sorted =
      Returns->>= _ _ (Located false) _ (find_slot-Located false 0 sorted)
        (λ r place. Place-IsMember r.found r.slot place)

  -- The `find` that returns a value.
  value_at :
      (at : ℕ) (old : V)
      → at < count
      → encoder.decode_value (memory layout s) (addr is node key at) old ≡ values at
  value_at at old h =
      is_encoder.reads_value _ _ (keys at) (values at) old (fits at h) (payload-Holds is node at h)

  -- Its answer: the value of the key, or else that of the largest smaller key.
  abbrev pub Fetched : Bool × V → Type 0
  Fetched (true, v) = (i : ℕ) × (i < count) × (keys i ≡ key) × (v ≡ values i)
  Fetched (false, v) =
      (i : ℕ) × (i < count)
      × (key_order.lt (keys i) key ≡ true)
      × Above key_order keys count key (i + 1)
      × (v ≡ values i)

  module _ (old : V) (some_key : 0 < count) (not_first : key_order.lt key (keys 0) ≡ false) where
    after_first : (at : ℕ) → Place (false, at) → 0 < at
    after_first at (le, below, above) = elim (dec_lt 0 at) [
      | yes p ↦ p
      | no p ↦ let first = above 0 (omega arith) some_key in ground arith
    ]

    fetched :
        (b : Bool) (slot : ℕ) (value_addr : Option ℕ)
        → Answers (record { found = b; slot = slot; value_addr = value_addr })
        → Returns
            (decode_found t old s (record { found = b; slot = slot; value_addr = value_addr }))
            Fetched
    unfolding decode_found
    fetched true slot value_addr (at, place, there, before) =
        rw (there refl).1 (at, place.0, place.1, value_at at old place.0)
    fetched false slot value_addr (at, place, there, before) =
        let pos = after_first at place in
        let e : at - 1 + 1 ≡ at = omega arith in
        rw (before refl pos).1 (
          at - 1,
          omega (arith, place.0),
          place.1 (at - 1) (omega arith),
          rw e place.2,
          value_at (at - 1) old (omega (arith, place.0)),
        )

    -- On a sorted node with a key that is not above the searched one: `find` returns, with true and
    -- the value of the key if it is in the node, else with false and the value of the largest
    -- smaller key.
    pub find_value-Fetched : t.sorted ≡ true → Returns (find_value t key old s) Fetched
    unfolding find_value
    find_value-Fetched sorted =
        Returns->>= _ _ Answers Fetched (find_slot-Located true 0 sorted)
          (λ r a. fetched r.found r.slot r.value_addr a)

  first_Hit :
      ((i : ℕ) → i < count → pmnk_order.lt (pmnk is node key) (pmnk is node (keys i)) ≡ true)
      → (r : Bool × ℕ) → Hit r
      → r ≡ (false, 0)
  unfolding Hit
  first_Hit larger (true, at) (lt, same, below) =
      let e = rw (slot_key-eq is node at lt) at same in
      let more = rw e at (larger at lt) in ground (arith, pmnk_order.lt_irrefl (pmnk is node key))
  first_Hit larger (false, at) (le, below, above) = elim (dec_lt 0 at) [
    | no zero_at ↦ ap (λ n. (false, n)) (omega arith)
    | yes pos ↦
        let less = rw (slot_key-eq is node 0 (omega arith)) at (below 0 pos) in
        let asym = lt-asymm pmnk_order (pmnk is node (keys 0)) (pmnk is node key) less in
        ground (arith, larger 0 (omega arith))
  ]

  search-first :
      ((i : ℕ) → i < count → pmnk_order.lt (pmnk is node key) (pmnk is node (keys i)) ≡ true)
      → binary_search pmnk_order
          (slot_word layout)
          (slot_key t s)
          s.slot_end
          (encoder.get_pmnk key)
          0
          0
          s.slot_end
        ≡ ok (false, 0)
  search-first larger =
      let (r, e, hit) = Returns-inv _ _ (search-Hit 0) in e ∙ ap ok (first_Hit larger r hit)

  -- On a sorted node whose normalized keys are all above that of the key: the `find` that returns a
  -- value decodes through the pointer that `find_slot` did not set.
  pub find_value-undefined :
      (old : V)
      → t.sorted ≡ true
      → ((i : ℕ) → i < count → pmnk_order.lt (pmnk is node key) (pmnk is node (keys i)) ≡ true)
      → find_value t key old s ≡ throw undefined_behavior
  unfolding find_value find_slot find_slot_sorted after_search not_found decode_found
  find_value-undefined old sorted larger =
      rw
        (
          if_true t.sorted (find_slot_sorted t true key 0 s) (find_slot_unsorted t true key s)
              sorted,
          search-first larger,
        )
        refl
