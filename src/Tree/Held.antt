-- ===== src/Tree/Held.antt =====
-- Nodes in memory that differ in their latches only, and what the methods of `FosterNode` do there.
use foster_btree.Prelude.{
  ℕ, zero, suc, ◌+◌, ◌<◌, ◌≡◌, ◌≢◌, refl, ap, sym, ◌∙◌, Bool, true, false, ◌&&◌, not, ltb, ◌==◌,
  arith, fun_ext, ne→==, if◌then◌else◌,
}
use foster_btree.Prelude.Outcome.{Outcome, ok}
use foster_btree.Latch.{writer_mask, reader_mask}
use foster_btree.Latch.Alone.{
  has_reader, has_writer, attempt_read, add_when_writer_leaves, acquire_read, release_read,
  acquire_write, release_write,
}
use foster_btree.Foster.{FosterNode, get_foster_child, fence_contains, key_range_contains}
use foster_btree.Tree.{
  TreeNode, Store, put_node, change, inspect, change_latch, change_fields, is_allocated, get_level,
}
use foster_btree.Tree.Methods.{
  FosterType, latch_pointer, unlatch_pointer, is_latched, contains, within_fences, foster_child,
  has_foster_child,
}

-- The counter of the latch that a traversal holds on a node of a level.
abbrev pub mark : (level : ℕ) (ex_mode : Bool) → ℕ
mark zero true = writer_mask
mark zero false = reader_mask
mark (suc level) ex_mode = reader_mask

module _ {P : Type 0} where
  abbrev pub held : (p c : ℕ) → Store P → Store P
  held p c σ = put_node p (record (σ.nodes p) { counter = c }) σ

  -- A pointer leads to a node with that latch.
  pub record Leads (σ : Store P) (p : ℕ) (n : FosterNode P) (c : ℕ) : Type 0 where
    pub allocated : is_allocated p σ ≡ true
    pub node_eq : σ.nodes p ≡ record { node = n; counter = c }

  module _ {σ : Store P} {p : ℕ} {n : FosterNode P} {c : ℕ} (h : Leads σ p n c) where
    pub held-Leads : (c' : ℕ) → Leads (held p c' σ) p n c'
    held-Leads c' = record { allocated = h.allocated; node_eq = rw (h.node_eq) (ground arith) }

    pub held-Leads_other : (q c' : ℕ) → p ≢ q → Leads (held q c' σ) p n c
    held-Leads_other q c' ne = record {
      allocated = h.allocated;
      node_eq = ground (arith, h.node_eq);
    }

    pub inspect-Leads :
        {A : Type 0} (f : TreeNode P → Outcome A) (a : A)
        → f (record { node = n; counter = c }) ≡ ok a
        → inspect p f σ ≡ ok (a, σ)
    unfolding inspect
    inspect-Leads f a e = rw (h.allocated, h.node_eq, e) refl

    pub change_latch-Leads :
        (f : ℕ → Outcome ℕ) (c' : ℕ) → f c ≡ ok c' → change_latch p f σ ≡ ok (tt, held p c' σ)
    unfolding change
    change_latch-Leads f c' e = rw (h.allocated, h.node_eq, e) refl

    pub change_fields-Leads :
        {A : Type 0} (f : FosterNode P → Outcome (FosterNode P × A)) (m : FosterNode P) (a : A)
        → f n ≡ ok (m, a)
        → change_fields p f σ ≡ ok (a, put_node p (record { node = m; counter = c }) σ)
    unfolding change
    change_fields-Leads f m a e = rw (h.allocated, h.node_eq, e) refl

    pub put-Leads :
        (m : FosterNode P) (c' : ℕ)
        → Leads (put_node p (record { node = m; counter = c' }) σ) p m c'
    put-Leads m c' = record { allocated = h.allocated; node_eq = ground arith }

    -- Releasing what was taken.
    pub held-held : (c' : ℕ) → held p c (held p c' σ) ≡ σ
    held-held c' = λ d. record σ { nodes = same d }
      where
        same : (held p c (held p c' σ)).nodes ≡ σ.nodes
        same = fun_ext (λ i. ground (arith, h.node_eq))

  pub held_comm :
      (σ : Store P) (p q c d : ℕ) → p ≢ q → held p c (held q d σ) ≡ held q d (held p c σ)
  held_comm σ p q c d ne = λ i. record σ { nodes = same i }
    where
      same : (held p c (held q d σ)).nodes ≡ (held q d (held p c σ)).nodes
      same = fun_ext (λ i. ground arith)

acquire_read_free : acquire_read 0 ≡ ok 2
unfolding acquire_read attempt_read has_writer foster_btree.Prelude.Words.cast
acquire_read_free = refl

acquire_write_free : acquire_write 0 ≡ ok 1
unfolding acquire_write add_when_writer_leaves has_writer has_reader foster_btree.Prelude.Words.cast
acquire_write_free = refl

release_read_held : release_read 2 ≡ ok 0
unfolding release_read has_reader foster_btree.Prelude.Words.sub_mod
release_read_held = refl

release_write_held : release_write 1 ≡ ok 0
unfolding release_write
release_write_held = refl

module _ {P : Type 0} {σ : Store P} {p : ℕ} {n : FosterNode P} where
  pub level_at :
      {c : ℕ} (level : ℕ) → n.fields.level ≡ level → Leads σ p n c → get_level p σ ≡ ok (level, σ)
  level_at level e h = inspect-Leads h (λ m. ok m.node.fields.level) level (ap ok e)

  pub latch_free :
      (level : ℕ) (ex_mode : Bool)
      → n.fields.level ≡ level
      → Leads σ p n 0
      → latch_pointer p ex_mode σ ≡ ok (tt, held p (mark level ex_mode) σ)
  unfolding latch_pointer
  latch_free zero true e h =
      rw (level_at 0 e h, change_latch-Leads h acquire_write 1 acquire_write_free) refl
  latch_free zero false e h =
      rw (level_at 0 e h, change_latch-Leads h acquire_read 2 acquire_read_free) refl
  latch_free (suc level) ex_mode e h =
      rw
        (
          level_at (suc level) e h,
          ne→== (suc level) 0 (omega arith),
          change_latch-Leads h acquire_read 2 acquire_read_free,
        )
        refl

  pub unlatch_held :
      (level : ℕ) (ex_mode : Bool)
      → n.fields.level ≡ level
      → Leads σ p n (mark level ex_mode)
      → unlatch_pointer p ex_mode σ ≡ ok (tt, held p 0 σ)
  unfolding unlatch_pointer
  unlatch_held zero true e h =
      rw (level_at 0 e h, change_latch-Leads h release_write 0 release_write_held) refl
  unlatch_held zero false e h =
      rw (level_at 0 e h, change_latch-Leads h release_read 0 release_read_held) refl
  unlatch_held (suc level) ex_mode e h =
      rw
        (
          level_at (suc level) e h,
          ne→== (suc level) 0 (omega arith),
          change_latch-Leads h release_read 0 release_read_held,
        )
        refl

  pub is_latched_held :
      (level : ℕ) (ex_mode : Bool)
      → Leads σ p n (mark level ex_mode)
      → is_latched p false σ ≡ ok (true, σ)
  unfolding is_latched has_reader has_writer
  is_latched_held zero true h = inspect-Leads h _ true refl
  is_latched_held zero false h = inspect-Leads h _ true refl
  is_latched_held (suc level) ex_mode h = inspect-Leads h _ true refl

module _ {K V P : Type 0} (t : FosterType K V P) (key : K) where
  open t use {base, key_encoder, ptr_encoder}
  open base use {layout, key_order, blank}

  -- A node of a level that has no foster child, and fences around the key.
  pub record IsPlain (n : FosterNode P) (level : ℕ) : Type 0 where
    pub level_eq : n.fields.level ≡ level
    pub no_foster : (get_foster_child layout key_order key_encoder ptr_encoder 0 n).0 ≡ false
    pub fenced : fence_contains layout key_order key_encoder ptr_encoder blank blank key n ≡ true

  module _ {σ : Store P} {p c level : ℕ} {n : FosterNode P} (plain : IsPlain n level)
      (h : Leads σ p n c) where
    open plain use {no_foster, fenced}

    pub within_fences_plain : within_fences t p key σ ≡ ok (true, σ)
    unfolding within_fences
    within_fences_plain = inspect-Leads h _ true (ap ok fenced)

    pub contains_plain : contains t p key σ ≡ ok (true, σ)
    unfolding contains key_range_contains
    contains_plain = inspect-Leads h _ true (rw (fenced, no_foster) refl)

    pub foster_child_plain :
        foster_child t p σ
        ≡ ok ((false, (get_foster_child layout key_order key_encoder ptr_encoder 0 n).1), σ)
    unfolding foster_child
    foster_child_plain = inspect-Leads h _ _ (
        ap (λ b. ok (b, (get_foster_child layout key_order key_encoder ptr_encoder 0 n).1))
          no_foster)

    pub has_foster_child_plain : has_foster_child t p σ ≡ ok (false, σ)
    unfolding has_foster_child
    has_foster_child_plain = rw foster_child_plain refl
