-- ===== src/Tree/Methods.antt =====
-- node_foster.h: the methods of `FosterNode`, on nodes in memory.
use foster_btree.Prelude.{
  ℕ, zero, suc, ◌+◌, ◌-◌, ◌/◌, Bool, true, false, ◌&&◌, ◌||◌, not, some, ltb, ◌==◌, if◌then◌else◌,
}
use foster_btree.Prelude.Outcome.{Outcome, ok}
use foster_btree.Prelude.Outcome
use foster_btree.SlotArray.Defs.{SlotArray, memory, clear, format_slots_from}
use foster_btree.Encoding.{Encoder}
use foster_btree.Node.Defs.{NodeType, slot_key, payload_for_slot, insert}
use foster_btree.Mover.{move_records}
use foster_btree.Latch.Alone.{
  has_reader, has_writer, acquire_read, release_read, acquire_write, release_write,
}
use foster_btree.Foster.{
  FosterNode, get_foster_field, set_foster_field, unset_foster_field, get_foster_child,
  fence_contains, key_range_contains, low_key_field, high_key_field, foster_key_field,
  foster_ptr_field,
}
use foster_btree.Tree.{
  Action, ◌>>=◌, ◌>>◌, pure, require, inspect, change_latch, change_fields, change_array,
  inspect_fields, inspect_array, set_level, get_level,
}

-- The template arguments of `FosterNode`: its base class, and the encoders of keys and pointers among
-- the fields; and `GetMinimumKeyValue`.
pub record FosterType (K V P : Type 0) : Type 0 where
  pub base : NodeType K V P
  pub key_encoder : Encoder K
  pub ptr_encoder : Encoder ℕ
  pub min_key : K

-- The latch of a node, exclusive only at a leaf.
module _ {P : Type 0} where
  unfoldable pub latch_pointer : (p : ℕ) (ex_mode : Bool) → Action P (Unit {0})
  latch_pointer p ex_mode = do
    level ← get_level p
    if (level == 0) && ex_mode then change_latch p acquire_write else change_latch p acquire_read

  unfoldable pub unlatch_pointer : (p : ℕ) (ex_mode : Bool) → Action P (Unit {0})
  unlatch_pointer p ex_mode = do
    level ← get_level p
    if (level == 0) && ex_mode then change_latch p release_write else change_latch p release_read

  unfoldable pub is_latched : (p : ℕ) (ex_mode : Bool) → Action P Bool
  is_latched p ex_mode =
      inspect p (λ n. ok ((not ex_mode && has_reader n.counter) || has_writer n.counter))

module _ {K V P : Type 0} (t : FosterType K V P) where
  open t use {base, key_encoder, ptr_encoder}
  open base use {layout, key_order, encoder, blank, construct}

  -- `get_low_key`, `get_high_key` and `get_foster_key` by their field. The variable for the key is not
  -- initialised before.
  unfoldable pub get_key_field : (field p : ℕ) → Action P (Bool × K)
  get_key_field field p =
      inspect_fields p (λ n. ok (get_foster_field layout key_encoder field blank n))

  unfoldable pub has_infinity : (field p : ℕ) → Action P Bool
  has_infinity field p = inspect_fields p (λ n. ok (not (n.fields.valid field)))

  -- `get_foster_child` into a new pointer, which is null.
  unfoldable pub foster_child : (p : ℕ) → Action P (Bool × ℕ)
  foster_child p =
      inspect_fields p (λ n. ok (get_foster_child layout key_order key_encoder ptr_encoder 0 n))

  unfoldable pub has_foster_child : (p : ℕ) → Action P Bool
  has_foster_child p = do (ret, ptr) ← foster_child p; pure ret

  -- `set_low_key`, `set_high_key` and `set_foster_key` by their field.
  unfoldable pub set_key_field : (field p : ℕ) (value : K) → Action P Bool
  set_key_field field p value =
      change_fields p (set_foster_field layout key_encoder field value blank)

  unfoldable pub set_foster_child : (p value : ℕ) → Action P Bool
  set_foster_child p value =
      change_fields p (set_foster_field layout ptr_encoder foster_ptr_field value 0)

  -- `unset_low_key`, `unset_high_key` and `unset_foster_key` by their field.
  unfoldable pub unset_key_field : (field p : ℕ) → Action P (Unit {0})
  unset_key_field field p = change_fields p (λ n.
      Outcome.◌>>=◌ (unset_foster_field layout key_order key_encoder ptr_encoder field n)
        (λ n'. ok (n', tt)))

  unfoldable pub contains : (p : ℕ) (key : K) → Action P Bool
  contains p key = inspect_fields p (λ n.
      ok (key_range_contains layout key_order key_encoder ptr_encoder blank blank blank 0 key n))

  unfoldable pub within_fences : (p : ℕ) (key : K) → Action P Bool
  within_fences p key =
      inspect_fields p
        (λ n. ok (fence_contains layout key_order key_encoder ptr_encoder blank blank key n))

  -- `initialize`, which ignores whether the foster child was set.
  unfoldable pub initialize : (p level : ℕ) → Action P (Unit {0})
  initialize p level = do ignored ← set_foster_child p 0; set_level p level

  -- The branches of `add_foster_child`, for what was read from the node.
  unfoldable pub copy_high_key : (child : ℕ) → Bool × K → Action P (Unit {0})
  copy_high_key child (false, high_key) = pure tt
  copy_high_key child (true, high_key) = do
    success ← set_key_field low_key_field child high_key
    require success
    success' ← set_key_field high_key_field child high_key
    require success'

  unfoldable pub copy_foster_key : (child : ℕ) → Bool × K → Action P (Unit {0})
  copy_foster_key child (false, foster_key) = pure tt
  copy_foster_key child (true, foster_key) = do
    success ← set_key_field foster_key_field child foster_key
    require success

  unfoldable pub copy_foster_child : (child : ℕ) → Bool × ℕ → Action P (Unit {0})
  copy_foster_child child (false, foster_ptr) = pure tt
  copy_foster_child child (true, foster_ptr) = do
    success ← set_foster_child child foster_ptr
    require success

  unfoldable pub add_foster_child : (node child : ℕ) → Action P (Unit {0})
  add_foster_child node child = do
    require (not (child == 0))
    high ← get_key_field high_key_field node
    copy_high_key child high
    foster ← get_key_field foster_key_field node
    copy_foster_key child foster
    ptr ← foster_child node
    copy_foster_child child ptr
    success ← set_foster_child node child
    require success

  -- `unset_foster_child`
  unfoldable pub unset_foster_child : (node : ℕ) → Action P (Unit {0})
  unset_foster_child node = do
    ignored ← set_foster_child node 0
    unset_key_field foster_key_field node
    (has, ptr) ← foster_child node
    require (not has)

  -- `read_slot(node, slot, &key, nullptr)`
  unfoldable pub read_key : (slot : ℕ) → SlotArray P → Outcome K
  read_key slot s =
      Outcome.◌>>=◌
        (encoder.decode_key (memory layout s) (payload_for_slot base s slot) blank
          (some (slot_key base s slot)))
        (λ r. ok r.0)

  -- `move_records(*child, 0, *node, split_slot, count)`, from a node to another
  unfoldable pub move_to : (node child split_slot count : ℕ) → Action P Bool
  move_to node child split_slot count = do
    source ← inspect_array node (λ s. ok s)
    (source', moved) ← change_array child (λ s.
        Outcome.◌>>=◌
          (move_records encoder.length_at layout layout construct source s 0 split_slot count true)
          (λ (r : SlotArray P × SlotArray P × Bool). ok (r.0, (r.1, r.2))))
    change_array node (λ s. ok (source', tt))
    pure moved

  -- `rebalance`
  unfoldable pub rebalance : (node : ℕ) → Action P (Unit {0})
  rebalance node = do
    (has, child) ← foster_child node
    slot_count ← inspect_array node (λ s. ok s.slot_end)
    let split_slot = slot_count / 2
    require (ltb 0 split_slot)
    split_key ← inspect_array node (read_key split_slot)
    moved ← move_to node child split_slot (slot_count - split_slot)
    require moved
    success ← set_key_field foster_key_field node split_key
    require success
    success' ← set_key_field low_key_field child split_key
    require success'
    (high_finite, high_key) ← get_key_field high_key_field node
    if high_finite
        then (do success'' ← set_key_field high_key_field child high_key; require success'')
        else pure tt

  unfoldable pub split : (node new_node : ℕ) → Action P (Unit {0})
  split node new_node = do add_foster_child node new_node; rebalance node

  -- The loop of `all_keys_in_range`, from slot `i` on with `rounds` slots left.
  unfoldable pub keys_in_range_from : (rounds i p : ℕ) → Action P Bool
  keys_in_range_from zero i p = pure true
  keys_in_range_from (suc rounds) i p = do
    key ← inspect_array p (read_key i)
    inside ← contains p key
    let rest = keys_in_range_from rounds (suc i) p
    if inside then rest else pure false

  unfoldable pub all_keys_in_range : (p : ℕ) → Action P Bool
  all_keys_in_range p = do
    slot_count ← inspect_array p (λ s. ok s.slot_end)
    keys_in_range_from slot_count 0 p

-- A branch node: its values are pointers.
module _ {K P : Type 0} (t : FosterType K ℕ P) where
  open t use {base, min_key}
  open base use {layout}

  -- Slots, payloads and fields of the root go over, but not its level.
  abbrev copy_node : (root child : FosterNode P) → FosterNode P
  copy_node root child = record {
    array = format_slots_from layout root.array child.array;
    fields = record {
      payloads = root.fields.payloads;
      valid = root.fields.valid;
      level = child.fields.level;
    };
  }

  -- `grow`
  unfoldable pub grow : (root new_child : ℕ) → Action P (Unit {0})
  grow root new_child = do
    slot_count ← inspect_array root (λ s. ok s.slot_end)
    (has_key, foster_key) ← get_key_field t foster_key_field root
    require has_key
    (has_child, foster) ← foster_child t root
    require has_child
    source ← inspect_fields root (λ n. ok n)
    change_fields new_child (λ n. ok (copy_node source n, tt))
    unset_key_field t low_key_field root
    unset_foster_child t root
    change_array root (λ s. ok (clear layout s, tt))
    initialize t root 0
    left ← inspect_array root (λ s. ok s.slot_end)
    require (left == 0)
    moved ← inspect_array new_child (λ s. ok s.slot_end)
    require (moved == slot_count)
    success ← change_array root (insert base min_key new_child)
    require success
    level ← get_level root
    set_level new_child level
    set_level root (level + 1)
