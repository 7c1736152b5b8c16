-- ===== src/Tests/SampleTree.antt =====
-- A tree of two levels over the small node type: a root that sends every key to one leaf, which holds
-- the keys 5 and 70000.
use foster_btree.Prelude.{
  ℕ, ◌≡◌, ◌<◌, refl, false, none, some, ◌==◌, if◌then◌else◌, arith, List, [], zero, suc, ℕ_discrete,
  subst, sym,
}
use foster_btree.Layout.{payload_count, array_bytes}
use foster_btree.SlotArray.Defs.{SlotArray, clear, get_payload_count, set_slot, with_memory}
use foster_btree.SlotArray.Slots.{slot_inserted}
use foster_btree.Encoding.Scalar.{scalar_encoder}
use foster_btree.Encoding.Compound.{compound_encoder}
use foster_btree.Node.Rep.{IsNode}
use foster_btree.Node.Insert.{HasRoom}
use foster_btree.Node.Lookup.{Place, IsMember}
use foster_btree.Node.Written.{written, written-IsNode}
use foster_btree.SlotArray.Entries.{Entry, Represents}
use foster_btree.Bytes.{to_bytes, nth}
use foster_btree.Prelude.Words.{cast}
use foster_btree.Encoding.Text.{text_image}
use foster_btree.Foster.{
  set_field, high_key_field, FosterNode, no_foster_fields, get_foster_child, get_foster_field,
  fence_contains,
}
use foster_btree.Foster.Carries.{View, Lies, Carries}
use foster_btree.Tree.{Store}
use foster_btree.Tree.Methods.{FosterType}
use foster_btree.Tree.Held.{Leads, IsPlain}
use foster_btree.Tree.Traversal.Route.{Serves, Route, at_leaf, through}
use foster_btree.Tree.Btree.{TreeType}
use foster_btree.Tests.Sample.{
  small_layout, pair_node, PairFits, pair_image, pair_node-IsNodeType, no_keys-IsNode, two_keys,
  two_keys-IsNode,
}

abbrev pub pair_type : FosterType ℕ ℕ ℕ
pair_type = record {
  base = pair_node;
  key_encoder = scalar_encoder 4;
  ptr_encoder = scalar_encoder 8;
  min_key = 0;
}

abbrev pub pair_tree : TreeType ℕ ℕ ℕ
pair_tree = record { branch = pair_type; leaf = pair_type }

pub zero_room : HasRoom pair_node-IsNodeType no_keys-IsNode 0 2
unfolding clear payload_count array_bytes get_payload_count compound_encoder scalar_encoder
zero_room = (omega arith, omega arith)

pub zero_Place : Place pair_node-IsNodeType no_keys-IsNode 0 (false, 0)
zero_Place = (omega arith, (λ i h. absurd (omega arith)), λ i h h'. absurd (omega arith))

abbrev pub root_array : SlotArray ℕ
root_array = written pair_node-IsNodeType no_keys-IsNode 0 2 0 zero_Place zero_room.0 zero_room.1

abbrev pub root_array-IsNode :
    IsNode pair_node PairFits pair_image
      (payload_count small_layout)
      root_array
      1
      (slot_inserted 0 0 (λ _. 0))
      (slot_inserted 0 2 (λ _. 0))
root_array-IsNode =
    written-IsNode pair_node-IsNodeType no_keys-IsNode 0 2 0 zero_Place zero_room.0 zero_room.1
      (omega arith, omega arith)

abbrev pub at_level : (level : ℕ) → SlotArray ℕ → FosterNode ℕ
at_level level s = record { array = s; fields = record no_foster_fields { level = level } }

abbrev pub two_levels : Store ℕ
two_levels = record {
  nodes = λ i. record {
    node = if i == 1 then at_level 1 root_array else at_level 0 two_keys;
    counter = 0;
  };
  next = 3;
}

pub IsPlain-node :
    (key level : ℕ) (s : SlotArray ℕ) → IsPlain pair_type key (at_level level s) level
unfolding get_foster_child get_foster_field fence_contains
IsPlain-node key level s = record { level_eq = refl; no_foster = refl; fenced = ground arith }

root_leads : Leads two_levels 1 (at_level 1 root_array) 0
root_leads = record { allocated = refl; node_eq = refl }

pub leaf_leads : Leads two_levels 2 (at_level 0 two_keys) 0
leaf_leads = record { allocated = refl; node_eq = refl }

pub any_key : (key : ℕ) → Route pair_type PairFits pair_image key two_levels 1 1 2
any_key key =
    through root_leads (IsPlain-node key 1 root_array) serves
      (at_leaf leaf_leads (IsPlain-node key 0 two_keys))
  where
    serves : Serves pair_type PairFits pair_image key (at_level 1 root_array) 2
    serves = record {
      floor = payload_count small_layout;
      count = 1;
      keys = slot_inserted 0 0 (λ _. 0);
      children = slot_inserted 0 2 (λ _. 0);
      holds = root_array-IsNode;
      at = 0;
      used = omega arith;
      not_below = ground arith;
      above = λ i h h'. absurd (omega arith);
      child_eq = refl;
    }

pub no_fields :
    (level : ℕ) (s : SlotArray ℕ) (floor : ℕ)
    → Carries small_layout floor (at_level level s) (λ _. none)
no_fields level s floor = record {
  unset = λ f known e. refl;
  set = λ f b known e. absurd (ground arith);
  apart = λ f g b b' kf kg ne ef eg. absurd (ground arith);
}

pub seven_room : HasRoom pair_node-IsNodeType two_keys-IsNode 7 77
unfolding clear payload_count array_bytes get_payload_count compound_encoder scalar_encoder set_slot
    with_memory
seven_room = (omega arith, omega arith)

pub seven_absent : IsMember pair_node-IsNodeType two_keys-IsNode 7 → ⊥
seven_absent (i, lt, e) = ground arith

-- A node without slots that has a high key, the empty string, in its last block.
abbrev pub low_array : SlotArray ℕ
low_array = record {
  slot_end = 0;
  payload_begin = 23;
  slots = λ _. record { key = 0; ptr = 0; ghost = false };
  payloads = λ _ _. 0;
}

abbrev pub text_node : FosterNode ℕ
text_node = record { array = low_array; fields = set_field high_key_field 23 no_foster_fields }

abbrev pub no_entries : ℕ → Entry ℕ
no_entries _ = record { key = 0; ghost = false; size = 1; bytes = λ _. 0 }

pub low_array-Represents : Represents small_layout 23 low_array 0 no_entries
unfolding payload_count array_bytes
low_array-Represents = record {
  well_formed = record { begin_le = omega arith; apart = omega arith };
  count_eq = refl;
  floor_ge = omega arith;
  floor_le = omega arith;
  stores = λ i h. absurd (omega arith);
  sized = λ i h. absurd (omega arith);
  apart = λ i j h h' ne. absurd (omega arith);
}

abbrev pub text_view : View
text_view f = if f == high_key_field then some (text_image []) else none

zero_bytes : (o : ℕ) → o < 2 → 0 ≡ nth (text_image []) o
unfolding to_bytes cast
zero_bytes zero h = refl
zero_bytes (suc zero) h = refl
zero_bytes (suc (suc o)) h = absurd (omega arith)

text-Lies : Lies small_layout 23 text_node high_key_field (text_image [])
unfolding payload_count array_bytes get_payload_count set_field to_bytes
text-Lies = record {
  is_valid = refl;
  after_floor = omega arith;
  before_end = omega arith;
  nonempty = omega arith;
  bytes_eq = zero_bytes;
}

image_eq : (f : ℕ) (b : List ℕ) → f ≡ high_key_field → text_view f ≡ some b → text_image [] ≡ b
image_eq f b same e = ground arith

pub text_node-Carries : Carries small_layout 23 text_node text_view
unfolding set_field
text_node-Carries = record {
  unset = λ f known e. ground arith;
  set = λ f b known e. elim (ℕ_discrete f high_key_field) [
    | yes same ↦
        subst (λ g. Lies small_layout 23 text_node g b) (sym same)
          (subst (Lies small_layout 23 text_node high_key_field) (image_eq f b same e) text-Lies)
    | no ne ↦ absurd (ground arith)
  ];
  apart = λ f g b b' kf kg ne ef eg. absurd (ground arith);
}
