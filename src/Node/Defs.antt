-- ===== src/Node/Defs.antt =====
-- node.h: the methods of `Node`. Without a logger (`Logger = void`), `log` does nothing.
use foster_btree.Prelude.{
  ℕ, zero, suc, ◌+◌, ◌-◌, ◌*◌, Bool, true, false, ◌&&◌, Option, none, some, leb, ltb, if◌then◌else◌,
}
use foster_btree.Prelude.Words.{cast}
use foster_btree.Prelude.Outcome.{
  Outcome, ok, throw, existent_key, key_not_found, undefined_behavior, out_of_fuel, ◌>>=◌, ◌>>◌,
  assert,
}
use foster_btree.Prelude.KeyOrder.{KeyOrder}
use foster_btree.Layout.{Layout, slot_word}
use foster_btree.Search.{binary_search}
use foster_btree.SlotArray.Defs.{
  SlotArray, memory, with_memory, set_slot, allocate_payload, free_payload, insert_slot,
  delete_slot,
}
use foster_btree.Encoding.Compound.{RecordEncoder}

-- The template arguments: the layout of the slot array, the comparisons of keys and of normalized
-- keys, the encoder, and `Sorted`; and what an uninitialised key and an empty-constructed slot key
-- hold.
pub record NodeType (K V P : Type 0) : Type 0 where
  pub layout : Layout
  pub key_order : KeyOrder K
  pub pmnk_order : KeyOrder P
  pub encoder : RecordEncoder K V P
  pub blank : K
  pub construct : Option P
  pub sorted : Bool

-- What the loop of `find_slot` makes of a decoded key.
pub data Verdict : Type 0 where
  match past next : Verdict

-- What `find_slot` returns: its result, its out-parameter `slot`, and the value's address, which is
-- `none` where the out-parameter is not set.
pub record Found : Type 0 where
  pub found : Bool
  pub slot : ℕ
  pub value_addr : Option ℕ

-- The state of a `Node::Iterator`; its node is an argument of the methods.
pub record Iterator : Type 0 where
  pub current_slot : ℕ

module _ {K V P : Type 0} (t : NodeType K V P) where
  open t use {layout, key_order, pmnk_order, encoder, blank, construct}

  abbrev pub slot_key : SlotArray P → ℕ → P
  slot_key s i = (s.slots i).key

  -- `get_payload_for_slot(slot)`
  abbrev pub payload_for_slot : SlotArray P → ℕ → ℕ
  payload_for_slot s slot = (s.slots slot).ptr * layout.alignment

  unfoldable pub compare_key : (key found_key : K) → Verdict
  compare_key key found_key =
      if key_order.eq found_key key
      then match
      else if key_order.lt key found_key
      then past
      else next

  -- The rest of a round of the loop, on the verdict on the decoded key: the loop ends, or goes on
  -- with the next slot if that has the searched normalized key too.
  unfoldable pub follow :
      Verdict
      → (key : K) (s : SlotArray P) (slot addr : ℕ) (continue : ℕ → Outcome (Bool × ℕ × ℕ))
      → Outcome (Bool × ℕ × ℕ)
  follow match key s slot addr continue = ok (true, slot, addr)
  follow past key s slot addr continue = ok (false, slot, addr)
  follow next key s slot addr continue =
      let slot' = cast (slot_word layout) (slot + 1) in
      let rest = continue slot' in
      if leb s.slot_end slot'
      then ok (false, slot', addr)
      else if pmnk_order.eq (slot_key s slot') (encoder.get_pmnk key)
      then rest
      else ok (false, slot', addr)

  -- The `while` loop: slots with the searched normalized key, from `slot` on. The result is
  -- whether the key was found, the slot, and the last value address.
  unfoldable pub scan : (fuel : ℕ) (key : K) (s : SlotArray P) (slot : ℕ) → Outcome (Bool × ℕ × ℕ)
  scan zero key s slot = throw out_of_fuel
  scan (suc fuel) key s slot = do
    (found_key, addr) ←
        encoder.decode_key (memory layout s) (payload_for_slot s slot) blank
          (some (encoder.get_pmnk key))
    follow (compare_key key found_key) key s slot addr (λ slot'. scan fuel key s slot')

  -- The end of `find_slot`, where the key was not found.
  unfoldable pub not_found :
      (want_value : Bool) (s : SlotArray P) (slot : ℕ) (value_addr : Option ℕ) → Outcome Found
  not_found want_value s slot value_addr =
      if want_value && ltb 0 slot
      then (do
        assert (leb slot s.slot_end)
        ok (record {
          found = false;
          slot = slot - 1;
          value_addr = some (encoder.skip_key (memory layout s) (payload_for_slot s (slot - 1)));
        }))
      else ok (record { found = false; slot = slot; value_addr = value_addr })

  -- What `find_slot` makes of the loop's answer, and of the answer of the search.
  unfoldable pub finish : (want_value : Bool) (s : SlotArray P) → Bool × ℕ × ℕ → Outcome Found
  finish want_value s (true, at, addr) =
      ok (record { found = true; slot = at; value_addr = if want_value then some addr else none })
  finish want_value s (false, at, addr) =
      not_found want_value s at (if want_value then some addr else none)

  unfoldable pub after_search :
      (want_value : Bool) (key : K) (s : SlotArray P) → Bool × ℕ → Outcome Found
  after_search want_value key s (false, at) = not_found want_value s at none
  after_search want_value key s (true, at) =
      scan (s.slot_end - at + 1) key s at >>= finish want_value s

  -- `find_slot` of a sorted node; `want_value` says whether `value_addr` is not null, and `slot` is
  -- what the out-parameter holds before.
  unfoldable pub find_slot_sorted :
      (want_value : Bool) (key : K) (slot : ℕ) (s : SlotArray P) → Outcome Found
  find_slot_sorted want_value key slot s =
      binary_search pmnk_order (slot_word layout) (slot_key s) s.slot_end (encoder.get_pmnk key)
        slot 0 s.slot_end
      >>= after_search want_value key s

  -- `find_slot_unsorted`: the loop from slot `i` on, with `rounds` slots left.
  unfoldable pub find_unsorted_from :
      (rounds i : ℕ) (want_value : Bool) (key : K) (s : SlotArray P) (addr : Option ℕ)
      → Outcome Found
  find_unsorted_from zero i want_value key s addr =
      ok (record { found = false; slot = s.slot_end; value_addr = addr })
  find_unsorted_from (suc rounds) i want_value key s addr =
      elim (pmnk_order.eq (slot_key s i) (encoder.get_pmnk key)) [
        | false ↦ find_unsorted_from rounds (suc i) want_value key s addr
        | true ↦
            encoder.decode_key (memory layout s) (payload_for_slot s i) blank
              (some (encoder.get_pmnk key))
            >>= λ (decoded : K × ℕ).
                let addr' = if want_value then some decoded.1 else addr in
                elim (key_order.eq decoded.0 key) [
                  | true ↦ ok (record { found = true; slot = i; value_addr = addr' })
                  | false ↦ find_unsorted_from rounds (suc i) want_value key s addr'
                ]
      ]

  unfoldable pub find_slot_unsorted :
      (want_value : Bool) (key : K) (s : SlotArray P) → Outcome Found
  find_slot_unsorted want_value key s = find_unsorted_from s.slot_end 0 want_value key s none

  unfoldable pub find_slot :
      (want_value : Bool) (key : K) (slot : ℕ) (s : SlotArray P) → Outcome Found
  find_slot want_value key slot s =
      if t.sorted
      then find_slot_sorted want_value key slot s
      else find_slot_unsorted want_value key s

  -- `find(node, key)`
  unfoldable pub find : (key : K) (s : SlotArray P) → Outcome Bool
  find key s = find_slot false key 0 s >>= λ (r : Found). ok r.found

  -- `find(node, key, value)`: the result and the new content of `value`. The pointer is used also
  -- where `find_slot` did not set it.
  unfoldable pub decode_found : (value : V) (s : SlotArray P) → Found → Outcome (Bool × V)
  decode_found value s r = elim r.value_addr [
    | none ↦ throw undefined_behavior
    | some addr ↦ ok (r.found, encoder.decode_value (memory layout s) addr value)
  ]

  unfoldable pub find_value : (key : K) (value : V) (s : SlotArray P) → Outcome (Bool × V)
  find_value key value s = find_slot true key 0 s >>= decode_found value s

  -- Step 1 of `insert_key`: where the new slot goes.
  unfoldable pub insert_position : (key : K) (s : SlotArray P) → Outcome ℕ
  insert_position key s =
      if t.sorted
      then (find_slot false key 0 s >>= λ (r : Found).
          if r.found then throw existent_key else ok r.slot)
      else ok s.slot_end

  -- The rest of `insert_key`, after the payload is allocated.
  unfoldable pub place_slot :
      (key : K) (length slot payload : ℕ) (s : SlotArray P) → Outcome (SlotArray P × Option ℕ)
  place_slot key length slot payload s = do
    (s', inserted) ← insert_slot layout construct slot s
    if inserted
        then ok (
          set_slot layout slot (record { key = encoder.get_pmnk key; ptr = payload; ghost = false })
              s',
          some slot,
        )
        else (do s'' ← free_payload layout payload length s'; ok (s'', none))

  -- Step 3 of `insert_key`, on what `allocate_payload` returned.
  unfoldable pub place_payload :
      (key : K) (length slot : ℕ) → SlotArray P × Option ℕ → Outcome (SlotArray P × Option ℕ)
  place_payload key length slot (s, none) = ok (s, none)
  place_payload key length slot (s, some payload) = place_slot key length slot payload s

  -- `insert_key`: `none` is the result false; `some slot` is true, with the value of `slot`.
  unfoldable pub insert_key :
      (key : K) (length : ℕ) (s : SlotArray P) → Outcome (SlotArray P × Option ℕ)
  insert_key key length s = do
    slot ← insert_position key s
    allocate_payload layout length s >>= place_payload key length slot

  -- `insert`
  unfoldable pub write_record : (key : K) (value : V) → SlotArray P × Option ℕ → SlotArray P × Bool
  write_record key value (s, none) = (s, false)
  write_record key value (s, some slot) = (
    with_memory layout (encoder.encode (memory layout s) (payload_for_slot s slot) key value) s,
    true,
  )

  unfoldable pub insert : (key : K) (value : V) (s : SlotArray P) → Outcome (SlotArray P × Bool)
  insert key value s =
      insert_key key (encoder.length_of key value) s >>= λ (r : SlotArray P × Option ℕ).
      ok (write_record key value r)

  -- Step 2 of `remove`.
  unfoldable pub remove_slot : (slot : ℕ) (s : SlotArray P) → Outcome (SlotArray P)
  remove_slot slot s = do
    let payload = (s.slots slot).ptr
    let length = encoder.length_at (memory layout s) (payload * layout.alignment)
    s' ← free_payload layout payload length s
    delete_slot layout slot s'

  -- `remove`
  unfoldable pub remove :
      (key : K) (must_exist : Bool) (s : SlotArray P) → Outcome (SlotArray P × Bool)
  remove key must_exist s = do
    r ← find_slot false key 0 s
    if r.found
        then (do s' ← remove_slot r.slot s; ok (s', true))
        else (if must_exist then throw key_not_found else ok (s, false))

  -- `read_slot`
  unfoldable pub read_slot : (slot : ℕ) (key : K) (value : V) (s : SlotArray P) → Outcome (K × V)
  read_slot slot key value s = do
    (k, addr) ←
        encoder.decode_key (memory layout s) (payload_for_slot s slot) key (some (slot_key s slot))
    ok (k, encoder.decode_value (memory layout s) addr value)

  -- `iterate`, the constructor of the iterator.
  unfoldable pub iterate : Iterator
  iterate = record { current_slot = 0 }

  -- `Iterator::next`: the iterator afterwards, the result, and the contents of `key` and `value`.
  unfoldable pub iterator_next :
      (iterator : Iterator) (key : K) (value : V) (s : SlotArray P)
      → Outcome (Iterator × Bool × K × V)
  iterator_next iterator key value s = do
    let slot = iterator.current_slot
    if leb s.slot_end slot then ok (iterator, false, key, value) else do
      (k, v) ← read_slot slot key value s
      ok (record { current_slot = cast (slot_word layout) (slot + 1) }, true, k, v)
