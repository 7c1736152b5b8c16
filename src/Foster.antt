-- ===== src/Foster.antt =====
-- node_foster.h: `FosterNodePayloads`, and the fields that a foster node keeps in its payload area:
-- fence keys, foster key and foster pointer. Pointers to nodes are numbers, and null is 0.
pub mod Fence
pub mod Carries
pub mod Same
pub mod Reserved
pub mod Moved
pub mod Shifted
pub mod Refitted
pub mod Set
use foster_btree.Prelude.{
  ℕ, ◌+◌, ◌-◌, ◌*◌, ◌^◌, Bool, true, false, ◌&&◌, Option, none, some, leb, ltb, ◌==◌, if◌then◌else◌,
}
use foster_btree.Prelude.Words.{cast, sub_mod}
use foster_btree.Prelude.Outcome.{Outcome, ok, ◌>>=◌, ◌>>◌, assert}
use foster_btree.Prelude.KeyOrder.{KeyOrder}
use foster_btree.Layout.{Layout, payload_count, ptr_word}
use foster_btree.SlotArray.Defs.{
  SlotArray, memory, with_memory, get_payload_count, allocate_end_payload, shift_payloads,
  free_payload, write_at,
}
use foster_btree.Encoding.{Encoder}

-- `FosterNodePayloads::PayloadPtr` is `uint32_t`. A shift is an `int`; as a summand of a `uint32_t` it
-- counts modulo the number of its values.
abbrev pub field_word : ℕ
field_word = 2 ^ 32

abbrev pub low_key_field : ℕ
low_key_field = 0

abbrev pub high_key_field : ℕ
high_key_field = 1

abbrev pub foster_key_field : ℕ
foster_key_field = 2

abbrev pub foster_ptr_field : ℕ
foster_ptr_field = 3

abbrev pub field_count : ℕ
field_count = 5

pub record Fields : Type 0 where
  pub payloads : ℕ → ℕ
  pub valid : ℕ → Bool
  pub level : ℕ

-- The constructor.
abbrev pub no_foster_fields : Fields
no_foster_fields = record { payloads = λ _. 0; valid = λ _. false; level = 0 }

-- `set_foster_field(field, p)` and `unset_foster_field(field)` of `FosterNodePayloads`
unfoldable pub set_field : (field p : ℕ) → Fields → Fields
set_field field p f = record f {
  payloads = write_at f.payloads field p;
  valid = write_at f.valid field true;
}

unfoldable pub unset_field : (field : ℕ) → Fields → Fields
unset_field field f = record f { valid = write_at f.valid field false }

unfoldable pub shift_foster_payloads : (field shift : ℕ) → Fields → Fields
shift_foster_payloads field shift f = record f {
  payloads = λ i.
      if ltb i field_count && (f.valid i && leb (f.payloads i) (f.payloads field))
      then cast field_word (f.payloads i + shift)
      else f.payloads i;
}

unfoldable pub shift_all_foster_payloads : (shift : ℕ) → Fields → Fields
shift_all_foster_payloads shift f = record f {
  payloads = λ i.
      if ltb i field_count && f.valid i
      then cast field_word (f.payloads i + shift)
      else f.payloads i;
}

-- The part of a node that these methods touch.
pub record FosterNode (P : Type 0) : Type 0 where
  pub array : SlotArray P
  pub fields : Fields

module _ (l : Layout) {P T : Type 0} (E : Encoder T) where
  -- `get_foster_field`: what it returns, and the new content of `value`.
  unfoldable pub get_foster_field : (field : ℕ) (value : T) → FosterNode P → Bool × T
  get_foster_field field value node =
      if node.fields.valid field
      then (
        true,
        (E.decode (memory l node.array) (node.fields.payloads field * l.alignment) value).0,
      )
      else (false, value)

  -- The last step of `set_foster_field`: the value is encoded into the payload.
  unfoldable pub encode_field :
      (field : ℕ) (value : T) → FosterNode P → Outcome (FosterNode P × Bool)
  encode_field field value node =
      let payload = cast (ptr_word l) (node.fields.payloads field) in
      assert (ltb payload (payload_count l))
      >> ok (
        record node {
          array =
              with_memory l (E.encode (memory l node.array) (payload * l.alignment) value).0
                node.array;
        },
        true,
      )

  -- The step for a field that was invalid so far, `n` blocks long.
  unfoldable pub add_field :
      (field n : ℕ) (value : T) (fields : Fields)
      → SlotArray P × Option ℕ
      → Outcome (FosterNode P × Bool)
  add_field field n value fields (s, none) = ok (record { array = s; fields = fields }, false)
  add_field field n value fields (s, some payload) = encode_field field value (record {
    array = s;
    fields = set_field field payload (shift_all_foster_payloads (sub_mod field_word 0 n) fields);
  })

  -- The step for a field whose length changes by `shift`, which is `p_diff` modulo `field_word`.
  unfoldable pub resize_field :
      (field shift : ℕ) (value : T) (fields : Fields)
      → SlotArray P × Bool
      → Outcome (FosterNode P × Bool)
  resize_field field shift value fields (s, false) =
      ok (record { array = s; fields = fields }, false)
  resize_field field shift value fields (s, true) =
      encode_field field value
        (record { array = s; fields = shift_foster_payloads field shift fields })

  -- `set_foster_field`; `old` is what its local variable `old_value` holds before.
  -- `int p_diff` is taken to be the difference of the numbers of blocks.
  unfoldable pub set_foster_field :
      (field : ℕ) (value old : T) → FosterNode P → Outcome (FosterNode P × Bool)
  set_foster_field field value old node =
      let (found, old_value) = get_foster_field field old node in
      let old_n = get_payload_count l (if found then E.length_of old_value else 0) in
      let new_n = get_payload_count l (E.length_of value) in
      let s = node.array in
      if node.fields.valid field
      then (if old_n == new_n
          then encode_field field value node
          else (assert (if field == foster_ptr_field then false else true)
              >> shift_payloads l
                  (cast (ptr_word l) (sub_mod field_word (s.payload_begin + old_n) new_n))
                  s.payload_begin
                  (cast (ptr_word l)
                    (sub_mod field_word (node.fields.payloads field) s.payload_begin))
                  s
              >>= resize_field field (sub_mod field_word old_n new_n) value node.fields))
      else (assert (ltb old_n new_n)
          >> allocate_end_payload l (E.length_of value) s
          >>= add_field field (new_n - old_n) value node.fields)

-- `key >= low`
abbrev pub at_least : {K : Type 0} → KeyOrder K → (key low : K) → Bool
at_least o key low = if o.lt key low then false else true

module _ (l : Layout) {P K : Type 0} (o : KeyOrder K) (key_encoder : Encoder K)
    (ptr_encoder : Encoder ℕ) where
  -- `get_foster_child`
  unfoldable pub get_foster_child : (value : ℕ) → FosterNode P → Bool × ℕ
  get_foster_child value node =
      let (ret, ptr) = get_foster_field l ptr_encoder foster_ptr_field value node in
      (ret && (if ptr == 0 then false else true), ptr)

  -- `fence_contains`; `low` and `high` hold anything before they are read.
  unfoldable pub fence_contains : (low high key : K) → FosterNode P → Bool
  fence_contains low high key node =
      let (low_finite, low') = get_foster_field l key_encoder low_key_field low node in
      let (high_finite, high') = get_foster_field l key_encoder high_key_field high node in
      if low_finite && (high_finite && (at_least o key low' && at_least o high' key))
      then true
      else if at_least o key low' && (if high_finite then false else true)
      then true
      else if at_least o high' key && (if low_finite then false else true)
      then true
      else if (if low_finite then false else true) && (if high_finite then false else true)
      then true
      else false

  -- `key_range_contains`, likewise.
  unfoldable pub key_range_contains :
      (low high foster_key : K) (foster : ℕ) (key : K) → FosterNode P → Bool
  key_range_contains low high foster_key foster key node =
      let (foster_finite, foster_key') =
        get_foster_field l key_encoder foster_key_field foster_key node in
      if fence_contains low high key node
      then (if (get_foster_child foster node).0
          then (if foster_finite then o.lt key foster_key' else true)
          else true)
      else false

  -- `unset_foster_field`, which measures the field by the encoder of node pointers.
  unfoldable pub unset_foster_field : (field : ℕ) → FosterNode P → Outcome (FosterNode P)
  unset_foster_field field node =
      let payload = node.fields.payloads field in
      let old_length = ptr_encoder.length_at (memory l node.array) (payload * l.alignment) in
      if node.fields.valid field
      then (free_payload l (cast (ptr_word l) payload) old_length node.array >>= λ s. ok (record {
        array = s;
        fields =
            shift_foster_payloads field (get_payload_count l old_length)
              (unset_field field node.fields);
      }))
      else ok node
