-- ===== src/Tree/Fresh.antt =====
-- node_mgr.h: what `construct_node` makes.
use native.Mathlib.Nat.{mul-le-mul_right}
use foster_btree.Prelude.{
  ℕ, ◌+◌, ◌-◌, ◌*◌, ◌≤◌, ◌<◌, ◌≡◌, refl, Bool, true, false, none, some, List, arith, fun_ext,
}
use foster_btree.Prelude.Outcome.{Outcome, ok, throw}
use foster_btree.Layout.{IsLayout, payload_count}
use foster_btree.SlotArray.Defs.{clear, empty, get_payload_count, write_at}
use foster_btree.Layout.{IsAddressable}
use foster_btree.SlotArray.Entries.{Entry, Represents}
use foster_btree.Encoding.{IsEncoder}
use foster_btree.Foster.{
  FosterNode, field_word, foster_ptr_field, low_key_field, high_key_field, set_foster_field,
  get_foster_child, fence_contains,
}
use foster_btree.Foster.Carries.{View, Carries, get_foster_field-some, get_foster_field-none}
use foster_btree.Foster.Set.{IsWritten, set_foster_field-new}
use foster_btree.Tree.{TreeNode, Store, put_node, with_level}
use foster_btree.Tree.Methods.{FosterType, set_foster_child, initialize}
use foster_btree.Tree.Adoption.{constructed, allocate, construct_node}
use foster_btree.Tree.Held.{Leads, IsPlain, change_fields-Leads, put-Leads}
use foster_btree.Prelude.Words.{cast}

no_room : (n count a w : ℕ) → n ≤ count → count * a - 0 * w < (n - 0) * a → ⊥
no_room n count a w h lt =
    absurd (omega (arith, mul-le-mul_right {m = n - 0} {n = count} a (omega arith)))

abbrev pub no_view : View
no_view f = none

module _ {K V P : Type 0} (t : FosterType K V P) (is : IsLayout t.base.layout)
    (addressable : IsAddressable t.base.layout) (short : payload_count t.base.layout < field_word)
    {KeyFits : K → Type 0} {key_image : K → List ℕ} {PtrFits : ℕ → Type 0} {ptr_image : ℕ → List ℕ}
    (is_key : IsEncoder t.key_encoder KeyFits key_image)
    (is_ptr : IsEncoder t.ptr_encoder PtrFits ptr_image) (null_fits : PtrFits 0)
    (ptr_bytes : 0 < t.ptr_encoder.length_of 0) (σ : Store P) where
  open t use {base, ptr_encoder}
  open base use {layout}

  abbrev pub ptr_blocks : ℕ
  ptr_blocks = get_payload_count layout (ptr_encoder.length_of 0)

  -- The fields of a new node: the foster pointer is null.
  abbrev pub null_view : View
  null_view = write_at no_view foster_ptr_field (some (ptr_image 0))

  abbrev raw : FosterNode P
  raw = (constructed t (σ.nodes σ.next)).node

  abbrev none_yet : ℕ → Entry P
  none_yet i = record { key = (raw.array.slots i).key; ghost = false; size = 0; bytes = λ _. 0 }

  raw-Represents : Represents layout (payload_count layout) raw.array 0 none_yet
  unfolding empty clear
  raw-Represents = record {
    well_formed = record { begin_le = omega arith; apart = omega arith };
    count_eq = refl;
    floor_ge = omega arith;
    floor_le = omega arith;
    stores = λ i h. absurd (omega arith);
    sized = λ i h. absurd (omega arith);
    apart = λ i j h. absurd (omega arith);
  }

  raw-Carries : Carries layout (payload_count layout) raw no_view
  raw-Carries = record {
    unset = λ f known e. refl;
    set = λ f b known e. absurd (ground arith);
    apart = λ f g b b' kf kg ne ef eg. absurd (ground arith);
  }

  raw_begin : (raw.array.payload_begin ≡ payload_count layout) × (raw.array.slot_end ≡ 0)
  unfolding empty clear
  raw_begin = (refl, refl)

  -- A node without slots that has a foster pointer, which is null.
  pub record IsFresh (n : FosterNode P) : Type 0 where
    pub floor : ℕ
    pub represents : Represents layout floor n.array 0 none_yet
    pub carries : Carries layout floor n null_view
    pub level_eq : n.fields.level ≡ 0
    pub space : n.array.payload_begin + ptr_blocks ≡ payload_count layout

  leveled :
      {floor : ℕ} {n : FosterNode P} {view : View}
      → Carries layout floor n view
      → Carries layout floor (record n { fields = with_level 0 n.fields }) view
  unfolding with_level
  leveled c = record {
    unset = c.unset;
    set = λ f b known e.
        let lies = c.set f b known e in
        record {
          is_valid = lies.is_valid;
          after_floor = lies.after_floor;
          before_end = lies.before_end;
          nonempty = lies.nonempty;
          bytes_eq = lies.bytes_eq;
        };
    apart = c.apart;
  }

  module _ (fits : ptr_blocks ≤ payload_count layout) where
    written :
        (m : Outcome (FosterNode P × Bool))
        → IsWritten layout is addressable short is_ptr raw-Represents raw-Carries foster_ptr_field
            (omega arith)
            0
            ptr_bytes
            0
            m
        → (n : FosterNode P) × (m ≡ ok (n, true))
          × IsFresh (record n { fields = with_level 0 n.fields })
    unfolding with_level cast
    written (ok (n, true)) (floor, represents, carries, level, space) = (
      n,
      refl,
      record {
        floor = floor;
        represents = represents;
        carries = leveled carries;
        level_eq = refl;
        space = omega (arith, raw_begin.0);
      },
    )
    written (ok (n, false)) (same, full) =
        absurd (no_room _ _ _ _ fits (rw (raw_begin.0, raw_begin.1) at full))
    written (throw e) h = absurd h

    -- The node has its number, and its constructors have run.
    abbrev begun : Store P
    begun = record (put_node σ.next (constructed t (σ.nodes σ.next)) σ) { next = σ.next + 1 }

    begun-Leads : 0 < σ.next → Leads begun σ.next raw 0
    begun-Leads pos = record { allocated = ground arith; node_eq = ground arith }

    replaced :
        (a b : TreeNode P)
        → put_node σ.next b (put_node σ.next a begun)
          ≡ record (put_node σ.next b σ) { next = σ.next + 1 }
    replaced a b = λ i. record { nodes = same i; next = σ.next + 1 }
      where
        same : (put_node σ.next b (put_node σ.next a begun)).nodes ≡ (put_node σ.next b σ).nodes
        same = fun_ext (λ i. ground arith)

    -- `construct_node` returns the next number, under which there is then a fresh node whose latch is
    -- free; all other nodes are as they were.
    pub construct_node-IsFresh :
        0 < σ.next
        → (n : FosterNode P) × IsFresh n
          × (construct_node t σ
              ≡ ok (
                σ.next,
                record (put_node σ.next (record { node = n; counter = 0 }) σ) { next = σ.next + 1 },
              ))
    unfolding construct_node allocate initialize set_foster_child
    construct_node-IsFresh pos =
        let (m, e, fresh) = written _ (
          set_foster_field-new layout is addressable short is_ptr raw-Represents raw-Carries
            foster_ptr_field (omega arith) 0 ptr_bytes refl 0) in
        let h = begun-Leads pos in
        (
          record m { fields = with_level 0 m.fields },
          fresh,
          rw
              (
                change_fields-Leads h (set_foster_field layout ptr_encoder foster_ptr_field 0 0) m
                    true e,
                change_fields-Leads (put-Leads h m 0)
                    (λ n. ok (record n { fields = with_level 0 n.fields }, tt))
                    (record m { fields = with_level 0 m.fields }) tt refl,
                replaced (record { node = m; counter = 0 })
                    (record { node = record m { fields = with_level 0 m.fields }; counter = 0 }),
              )
              refl,
        )

  -- A fresh node is a leaf for every key.
  module _ {n : FosterNode P} (fresh : IsFresh n) where
    pub fresh-IsPlain : (key : K) → IsPlain t key n 0
    unfolding get_foster_child fence_contains
    fresh-IsPlain key = record {
      level_eq = fresh.level_eq;
      no_foster =
          rw
            (get_foster_field-some layout is is_ptr fresh.carries foster_ptr_field (omega arith) 0 0
              null_fits refl)
            refl;
      fenced =
          rw
            (
              get_foster_field-none layout is is_key fresh.carries low_key_field (omega arith)
                  base.blank refl,
              get_foster_field-none layout is is_key fresh.carries high_key_field (omega arith)
                  base.blank refl,
            )
            (ground arith);
    }

    pub fresh-Represents : (entries : ℕ → Entry P) → Represents layout fresh.floor n.array 0 entries
    fresh-Represents entries = record {
      well_formed = fresh.represents.well_formed;
      count_eq = fresh.represents.count_eq;
      floor_ge = fresh.represents.floor_ge;
      floor_le = fresh.represents.floor_le;
      stores = λ i h. absurd (omega arith);
      sized = λ i h. absurd (omega arith);
      apart = λ i j h. absurd (omega arith);
    }
