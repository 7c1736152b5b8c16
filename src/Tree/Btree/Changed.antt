-- ===== src/Tree/Btree/Changed.antt =====
-- btree.h: a leaf whose array is changed, as `put` and `remove` do.
use foster_btree.Prelude.{ℕ, ◌≡◌, ◌≢◌, refl, ap, true, List, arith, fun_ext}
use foster_btree.Prelude.Outcome.{Outcome, ok}
use foster_btree.SlotArray.Defs.{SlotArray}
use foster_btree.Latch.Alone.{has_writer}
use foster_btree.Foster.{FosterNode}
use foster_btree.Tree.{TreeNode, Store, put_node, change, change_array}
use foster_btree.Tree.Methods.{FosterType, is_latched}
use foster_btree.Tree.Held.{held, Leads, IsPlain, inspect-Leads}
use foster_btree.Tree.Traversal.Route.{Route, at_leaf, through}

module _ {P : Type 0} {σ : Store P} {p c : ℕ} {n : FosterNode P} (h : Leads σ p n c) where
  -- A node with another array.
  abbrev pub stored : (s : SlotArray P) (c : ℕ) → TreeNode P
  stored s c = record { node = record n { array = s }; counter = c }

  pub change_array-Leads :
      {A : Type 0} (f : SlotArray P → Outcome (SlotArray P × A)) (s : SlotArray P) (a : A)
      → f n.array ≡ ok (s, a)
      → change_array p f σ ≡ ok (a, put_node p (stored s c) σ)
  unfolding change
  change_array-Leads f s a e = rw (h.allocated, h.node_eq, e) refl

  pub stored-Leads :
      (s : SlotArray P) (c' : ℕ) → Leads (put_node p (stored s c') σ) p (record n { array = s }) c'
  stored-Leads s c' = record { allocated = h.allocated; node_eq = ground arith }

  pub is_latched_writer : c ≡ 1 → is_latched p true σ ≡ ok (true, σ)
  unfolding is_latched has_writer
  is_latched_writer e = inspect-Leads h _ true (rw e refl)

-- Latched, changed and released, or changed only.
pub released :
    {P : Type 0} (σ : Store P) (p c : ℕ) (n : TreeNode P)
    → held p 0 (put_node p n (held p c σ)) ≡ put_node p (record n { counter = 0 }) σ
released σ p c n = λ i. record σ { nodes = same i }
  where
    same :
        (held p 0 (put_node p n (held p c σ))).nodes
        ≡ (put_node p (record n { counter = 0 }) σ).nodes
    same = fun_ext (λ i. ground arith)

-- A route stays one when its leaf is replaced by a leaf for the same keys.
pub changed-Route :
    {K P : Type 0} {t : FosterType K ℕ P} {Fits : K → ℕ → Type 0} {image : K → ℕ → List ℕ}
    {σ : Store P} {key : K} {level p leaf : ℕ} {n n' : FosterNode P}
    → Leads σ leaf n 0
    → n.fields.level ≡ 0
    → IsPlain t key n' 0
    → Route t Fits image key σ level p leaf
    → Route t Fits image key (put_node leaf (record { node = n'; counter = 0 }) σ) level p leaf
changed-Route leads e plain' (at_leaf h plain) =
    at_leaf (record { allocated = h.allocated; node_eq = ground arith }) plain'
changed-Route {σ = σ} {leaf = leaf} leads e plain' (through {p = p} h plain serves rest) =
    through (record { allocated = h.allocated; node_eq = ground (arith, elsewhere, h.node_eq) })
      plain serves (changed-Route leads e plain' rest)
  where
    elsewhere : leaf ≢ p
    elsewhere same =
        let levels = ap (λ i. (σ.nodes i).node.fields.level) same in
        absurd (ground (arith, h.node_eq, leads.node_eq, plain.level_eq))

-- Another node is as it was.
pub other-Leads :
    {P : Type 0} {σ : Store P} {p leaf c : ℕ} {n : FosterNode P} (n' : TreeNode P)
    → leaf ≢ p
    → Leads σ p n c
    → Leads (put_node leaf n' σ) p n c
other-Leads n' differs h = record {
  allocated = h.allocated;
  node_eq = ground (arith, differs, h.node_eq);
}

-- The route of a key to another leaf stays one, too.
pub other-Route :
    {K P : Type 0} {t : FosterType K ℕ P} {Fits : K → ℕ → Type 0} {image : K → ℕ → List ℕ}
    {σ : Store P} {key : K} {level p leaf leaf' : ℕ} {n : FosterNode P} (n' : TreeNode P)
    → Leads σ leaf n 0
    → n.fields.level ≡ 0
    → leaf ≢ leaf'
    → Route t Fits image key σ level p leaf'
    → Route t Fits image key (put_node leaf n' σ) level p leaf'
other-Route n' leads e differs (at_leaf h plain) = at_leaf (other-Leads n' differs h) plain
other-Route {σ = σ} {leaf = leaf} n' leads e differs (through {p = p} h plain serves rest) =
    through (other-Leads n' elsewhere h) plain serves (other-Route n' leads e differs rest)
  where
    elsewhere : leaf ≢ p
    elsewhere same =
        let levels = ap (λ i. (σ.nodes i).node.fields.level) same in
        absurd (ground (arith, h.node_eq, leads.node_eq, plain.level_eq))
