-- ===== src/Node/Whole.antt =====
-- node.h: the methods that run over all slots of a node, `truncate_keys` and `is_sorted`, and
-- `get_payload_length`.
use foster_btree.Prelude.{
  ℕ, zero, suc, ◌+◌, ◌*◌, Bool, true, false, some, leb, ltb, ◌==◌, if◌then◌else◌,
}
use foster_btree.Prelude.Words.{cast}
use foster_btree.Prelude.Outcome.{Outcome, ok, ◌>>=◌, ◌>>◌, assert}
use foster_btree.Layout.{ptr_word}
use foster_btree.SlotArray.Defs.{
  SlotArray, write_at, memory, with_memory, get_payload_count, free_payload,
}
use foster_btree.Node.Defs.{NodeType, slot_key, payload_for_slot, read_slot}

module _ {K V P : Type 0} (t : NodeType K V P) where
  open t use {layout, key_order, pmnk_order, encoder}

  -- `get_payload_length`
  unfoldable pub get_payload_length : (slot : ℕ) → SlotArray P → ℕ
  get_payload_length slot s =
      encoder.length_at (memory layout s) ((s.slots slot).ptr * layout.alignment)

  module _ (erase : ℕ → K → K) where
    -- The body of the loop of `truncate_keys`, on a pair that was decoded; `erase n key` is
    -- `key.erase(0, n)`.
    unfoldable pub truncate_pair :
        (length slot : ℕ) (s : SlotArray P) → K × V → Outcome (SlotArray P × K × V)
    truncate_pair length slot s (key, value) =
        let old_len = get_payload_count layout (get_payload_length slot s) in
        let key' = erase length key in
        let s' = record s {
          slots = write_at s.slots slot (record (s.slots slot) { key = encoder.get_pmnk key' });
        } in
        let s'' =
          with_memory layout
            (encoder.encode (memory layout s') (payload_for_slot t s' slot) key' value) s' in
        let new_len = get_payload_count layout (get_payload_length slot s'') in
        let p_end = cast (ptr_word layout) ((s.slots slot).ptr + new_len) in
        assert (leb new_len old_len)
        >> (if ltb new_len old_len then free_payload layout p_end length s'' else ok s'')
        >>= λ (s''' : SlotArray P). ok (s''', key', value)

    -- The loop, from slot `i` on with `rounds` slots left.
    unfoldable pub truncate_from :
        (rounds length i : ℕ) → SlotArray P × K × V → Outcome (SlotArray P × K × V)
    truncate_from zero length i state = ok state
    truncate_from (suc rounds) length i (s, key, value) =
        read_slot t i key value s
        >>= truncate_pair length i s
        >>= truncate_from rounds length (suc i)

    -- `truncate_keys`; `value` is what the variable of that name holds before it is decoded.
    unfoldable pub truncate_keys : (length : ℕ) (value : V) → SlotArray P → Outcome (SlotArray P)
    truncate_keys length value s =
        let rest = truncate_from s.slot_end length 0 (s, t.blank, value) in
        if length == 0 then ok s else (rest >>= λ (r : SlotArray P × K × V). ok r.0)

  -- The loop of `is_sorted`, from slot `i` on with `rounds` slots left.
  unfoldable pub sorted_slots :
      (rounds i : ℕ) (prev_pmnk : P) (key prev_key : K) (s : SlotArray P) → Outcome Bool
  sorted_slots zero i prev_pmnk key prev_key s = ok true
  sorted_slots (suc rounds) i prev_pmnk key prev_key s =
      encoder.decode_key (memory layout s) (payload_for_slot t s i) key (some (slot_key t s i))
      >>= λ (r : K × ℕ).
          let rest = sorted_slots rounds (suc i) (slot_key t s i) r.0 r.0 s in
          if ltb 0 i
          then (if pmnk_order.lt (slot_key t s i) prev_pmnk
              then ok false
              else if key_order.lt r.0 prev_key
              then ok false
              else rest)
          else rest

  -- `is_sorted`
  unfoldable pub is_sorted : (s : SlotArray P) → Outcome Bool
  is_sorted s = sorted_slots s.slot_end 0 (slot_key t s 0) t.blank t.blank s
