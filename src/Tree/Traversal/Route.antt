-- ===== src/Tree/Traversal/Route.antt =====
-- node_foster.h: where a traversal has to go, said in terms of what the nodes hold.
pub mod Reaches
use foster_btree.Prelude.{
  ℕ, zero, suc, ◌+◌, ◌≤◌, ◌<◌, ◌≡◌, refl, sym, ap, ◌∙◌, Bool, true, false, Bool-cases, List, arith,
  ◌⊎◌, inl, inr, dec_lt, subst,
}
use foster_btree.Prelude.Outcome.{Outcome, ok, Returns-inv}
use foster_btree.Prelude.KeyOrder.{lt-asymm}
use foster_btree.Search.Correct.{Above}
use foster_btree.Node.Defs.{find_value}
use foster_btree.Node.Rep.{IsNodeType, IsNode}
use foster_btree.Node.Lookup.{Fetched, find_value-Fetched}
use foster_btree.Foster.{FosterNode}
use foster_btree.Tree.{Store}
use foster_btree.Tree.Methods.{FosterType}
use foster_btree.Tree.Held.{Leads, IsPlain}

module _ {K P : Type 0} (t : FosterType K ℕ P) (Fits : K → ℕ → Type 0) (image : K → ℕ → List ℕ)
    (key : K) where
  open t use {base}
  open base use {key_order}

  -- The branch sends the key to a child: the last one whose separator is not above the key.
  pub record Serves (n : FosterNode P) (child : ℕ) : Type 0 where
    pub floor : ℕ
    pub count : ℕ
    pub keys : ℕ → K
    pub children : ℕ → ℕ
    pub holds : IsNode base Fits image floor n.array count keys children
    pub at : ℕ
    pub used : at < count
    pub not_below : key_order.lt key (keys at) ≡ false
    pub above : Above key_order keys count key (at + 1)
    pub child_eq : children at ≡ child

  -- From a node of a level down to a leaf, over free nodes that have no foster children and have the
  -- key between their fences.
  pub data Route (σ : Store P) : (level p leaf : ℕ) → Type 0 where
    at_leaf :
        {leaf : ℕ} {n : FosterNode P} → Leads σ leaf n 0 → IsPlain t key n 0 → Route σ 0 leaf leaf
    through :
        {level p child leaf : ℕ} {n : FosterNode P}
        → Leads σ p n 0
        → IsPlain t key n (suc level)
        → Serves n child
        → Route σ level child leaf
        → Route σ (suc level) p leaf

  -- The first node of a route.
  pub Route-first :
      {σ : Store P} {level p leaf : ℕ}
      → Route σ level p leaf
      → (n : FosterNode P) × Leads σ p n 0 × IsPlain t key n level
  Route-first (at_leaf {n = n} leads plain) = (n, leads, plain)
  Route-first (through {n = n} leads plain serves rest) = (n, leads, plain)

module _ {K P : Type 0} {t : FosterType K ℕ P} {Fits : K → ℕ → Type 0} {image : K → ℕ → List ℕ}
    {key_length : K → ℕ} (is : IsNodeType t.base Fits image key_length) (key : K) where
  open t.base use {key_order}

  module _ {n : FosterNode P} {child : ℕ} (s : Serves t Fits image key n child) where
    open s use {count, keys, children, holds, at, used, not_below, above, child_eq}

    same_slot :
        (j : ℕ)
        → j < count
        → (keys j ≡ key)
          ⊎ ((key_order.lt (keys j) key ≡ true) × Above key_order keys count key (j + 1))
        → j ≡ at
    same_slot j h how = elim (dec_lt at j) [
      | yes after ↦
          let larger = above j (omega arith) h in
          elim how [
            | inl e ↦ absurd (ground (arith, key_order.lt_irrefl key))
            | inr p ↦ absurd (ground (arith, lt-asymm key_order (keys j) key p.0))
          ]
      | no a ↦ elim (dec_lt j at) [
        | yes before ↦ elim how [
          | inl e ↦ let smaller = holds.increasing j at before used in absurd (ground arith)
          | inr p ↦ let larger = p.1 at (omega arith) used in absurd (ground arith)
        ]
        | no b ↦ omega arith
      ]
    ]

    found_child : (r : Bool × ℕ) → Fetched is holds key r → r.1 ≡ child
    found_child (true, v) (j, h, same, value) =
        value ∙ ap children (same_slot j h (inl same)) ∙ child_eq
    found_child (false, v) (j, h, below, beyond, value) =
        value ∙ ap children (same_slot j h (inr (below, beyond))) ∙ child_eq

    not_first : key_order.lt key (keys 0) ≡ false
    not_first = elim (dec_lt 0 at) [
      | yes pos ↦ elim (Bool-cases (key_order.lt key (keys 0))) [
        | inl e ↦
            let smaller =
              key_order.lt_trans key (keys 0) (keys at) e (holds.increasing 0 at pos used) in
            absurd (ground arith)
        | inr e ↦ e
      ]
      | no z ↦ subst (λ i. key_order.lt key (keys i) ≡ false) {x = at} (omega arith) not_below
    ]

    -- `find` of the branch gives the child, whether it finds the key or not.
    pub find_value-Serves :
        t.base.sorted ≡ true
        → (old : ℕ) → (found : Bool) × (find_value t.base key old n.array ≡ ok (found, child))
    find_value-Serves sorted old =
        let (r, e, fetched) =
          Returns-inv _ _
            (find_value-Fetched is holds key old (omega (arith, used)) not_first sorted) in
        (r.0, e ∙ ap (λ c. ok (r.0, c)) (found_child r fetched))

    pub slots_used : 0 < n.array.slot_end
    slots_used = omega (arith, used, holds.represents.count_eq)
