-- ===== src/Tree/Traversal/Route/Reaches.antt =====
-- node_foster.h: `traverse` follows the route of its key.
use foster_btree.Prelude.{
  ℕ, zero, suc, ◌+◌, ◌≤◌, ◌≡◌, ◌≢◌, refl, sym, ap, ◌∙◌, Bool, true, false, List, arith, ◌==◌, ne→==,
  lt→ltb, if◌then◌else◌, Bool-cases, inl, inr,
}
use foster_btree.Prelude.Outcome.{ok}
use foster_btree.Node.Rep.{IsNodeType}
use foster_btree.Node.Defs.{find_value}
use foster_btree.Foster.{FosterNode}
use foster_btree.Tree.{Store, Action, pure}
use foster_btree.Latch.{reader_mask}
use foster_btree.Tree.Methods.{FosterType, latch_pointer}
use foster_btree.Tree.Adoption.{try_adopt}
use foster_btree.Tree.Traversal.{
  adopt_child, descend_to_child, follow_chain, enter_child, reach_target, traverse,
}
use foster_btree.Tree.Traversal.Route.{
  Serves, Route, at_leaf, through, Route-first, find_value-Serves, slots_used,
}
use foster_btree.Tree.Held.{
  mark, held, Leads, IsPlain, held-Leads, held-Leads_other, held-held, held_comm, inspect-Leads,
  level_at, latch_free, unlatch_held, is_latched_held, within_fences_plain, contains_plain,
  foster_child_plain, has_foster_child_plain,
}

not_null :
    {P : Type 0} {σ : Store P} {p c : ℕ} {n : FosterNode P} → Leads σ p n c → (p == 0) ≡ false
not_null {p = p} h = let e = h.allocated in ground arith

-- Releasing the parent of a latched child.
moved :
    {P : Type 0} {σ : Store P} {p child : ℕ} {n : FosterNode P} (c d : ℕ)
    → Leads σ p n 0
    → p ≢ child
    → held p 0 (held child d (held p c σ)) ≡ held child d σ
moved {σ = σ} {p} {child} c d h ne =
    held_comm (held p c σ) p child 0 d ne ∙ ap (held child d) (held-held h c)

-- Nodes of two levels are two nodes.
apart :
    {P : Type 0} {σ : Store P} {p child c d level : ℕ} {n nc : FosterNode P}
    → n.fields.level ≡ suc level
    → nc.fields.level ≡ level
    → Leads σ p n c
    → Leads σ child nc d
    → p ≢ child
apart {σ = σ} e e' h hc same =
    let levels = ap (λ i. (σ.nodes i).node.fields.level) same in
    absurd (ground (arith, h.node_eq, hc.node_eq))

-- The root is latched by `traverse` itself, another node before.
abbrev pub before : {P : Type 0} → (for_update : Bool) (depth level p : ℕ) → Store P → Store P
before for_update depth level p σ = if depth == 0 then σ else held p (mark level for_update) σ

latches :
    {P : Type 0} {σ : Store P} {p level : ℕ} {n : FosterNode P} (for_update : Bool) (depth : ℕ)
    → n.fields.level ≡ level
    → Leads σ p n 0
    → (if depth == 0 then latch_pointer p for_update else pure tt)
        (before for_update depth level p σ)
      ≡ ok (tt, held p (mark level for_update) σ)
latches {level = level} for_update depth e h = elim (Bool-cases (depth == 0)) [
  | inl z ↦ rw (z, latch_free level for_update e h) refl
  | inr z ↦ rw z refl
]

module _ {K P : Type 0} {t : FosterType K ℕ P} {Fits : K → ℕ → Type 0} {image : K → ℕ → List ℕ}
    {key_length : K → ℕ} (is : IsNodeType t.base Fits image key_length)
    (sorted : t.base.sorted ≡ true) (for_update adopts : Bool) (key : K) where
  module _ {σ : Store P} {child level : ℕ} {nc : FosterNode P}
      (plain : IsPlain t key nc level) where
    no_adoption :
        {c : ℕ} (rounds p : ℕ)
        → Leads σ child nc c
        → try_adopt t rounds p child σ ≡ ok ((p, false), σ)
    unfolding try_adopt
    no_adoption rounds p h = rw (not_null h, foster_child_plain t key plain h) refl

    chain_ends :
        {c : ℕ} (rounds branch depth : ℕ)
        → Leads σ child nc c
        → follow_chain t for_update adopts key (suc rounds) branch child depth σ
          ≡ ok ((child, false), σ)
    unfolding follow_chain
    chain_ends rounds branch depth h = rw (not_null h, contains_plain t key plain h) refl

  module _ {σ : Store P} {p child level : ℕ} {n nc : FosterNode P}
      (plain : IsPlain t key n (suc level)) (serves : Serves t Fits image key n child)
      (plain_child : IsPlain t key nc level) (h : Leads σ p n (mark (suc level) for_update))
      (hc : Leads σ child nc 0) where
    latched : Leads (held child (mark level for_update) σ) child nc (mark level for_update)
    latched = held-Leads hc (mark level for_update)

    keeps_child :
        (b : Bool) (rounds : ℕ)
        → adopt_child t for_update b key rounds p child σ
          ≡ ok ((p, false), held child (mark level for_update) σ)
    unfolding adopt_child
    keeps_child true rounds =
        rw
          (
            latch_free level for_update plain_child.level_eq hc,
            no_adoption plain_child rounds p latched,
          )
          refl
    keeps_child false rounds = rw (latch_free level for_update plain_child.level_eq hc) refl

    descends :
        (rounds depth : ℕ)
        → descend_to_child t for_update adopts key (suc rounds) p 0 depth σ
          ≡ ok (child, held child (mark level for_update) σ)
    unfolding descend_to_child
    descends rounds depth =
        let (found, finds) = find_value-Serves is key serves sorted 0 in
        rw
          (
            is_latched_held (suc level) for_update h,
            inspect-Leads h (λ m. ok m.node.array.slot_end) n.array.slot_end refl,
            has_foster_child_plain t key plain h,
            lt→ltb 0 n.array.slot_end (slots_used is key serves),
            inspect-Leads h (λ m. find_value t.base key 0 m.node.array) (found, child) finds,
            not_null hc,
            contains_plain t key plain h,
            keeps_child adopts rounds,
            is_latched_held level for_update latched,
          )
          refl

  module _ {σ : Store P} where
    -- A branch is left for its child.
    enters :
        {p child level : ℕ} {n nc : FosterNode P} (rounds depth : ℕ)
        → IsPlain t key n (suc level)
        → Serves t Fits image key n child
        → IsPlain t key nc level
        → Leads σ p n 0
        → Leads σ child nc 0
        → enter_child t for_update adopts key
            (suc rounds)
            p
            depth
            (before for_update depth (suc level) p σ)
          ≡ ok (child, held child (mark level for_update) σ)
    unfolding enter_child
    enters {p} {child} {level} {n} {nc} rounds depth plain serves plain_child h hc =
        let ne = apart plain.level_eq plain_child.level_eq h hc in
        let h' = held-Leads h (mark (suc level) for_update) in
        let hc' = held-Leads_other hc p (mark (suc level) for_update) (λ e. ne (sym e)) in
        let h'' = held-Leads_other h' child (mark level for_update) ne in
        rw
          (
            latches for_update depth plain.level_eq h,
            level_at (suc level) plain.level_eq h',
            ne→== (suc level) 0 (omega arith),
            descends plain serves plain_child h' hc' rounds depth,
            level_at (suc level) plain.level_eq h'',
            lt→ltb 0 (suc level) (omega arith),
            unlatch_held (suc level) for_update plain.level_eq h'',
            moved reader_mask (mark level for_update) h ne,
          )
          refl

    -- A leaf is the target itself.
    enters_leaf :
        {p : ℕ} {n : FosterNode P} (rounds depth : ℕ)
        → IsPlain t key n 0
        → Leads σ p n 0
        → enter_child t for_update adopts key rounds p depth (before for_update depth 0 p σ)
          ≡ ok (p, held p (mark 0 for_update) σ)
    unfolding enter_child
    enters_leaf rounds depth plain h =
        let h' = held-Leads h (mark 0 for_update) in
        rw
          (
            latches for_update depth plain.level_eq h,
            level_at 0 plain.level_eq h',
            level_at 0 plain.level_eq h',
          )
          refl

  module _ {τ : Store P} (p : ℕ) {child level c : ℕ} {nc : FosterNode P}
      (plain : IsPlain t key nc level) (h : Leads τ child nc c) (rounds depth : ℕ)
      (again : ℕ → Action P ℕ) where
    arrives :
        reach_target t for_update adopts key (suc rounds) p child depth again τ
        ≡ (if level == 0 then pure child else again child) τ
    unfolding reach_target
    arrives =
        rw
          (
            within_fences_plain t key plain h,
            chain_ends plain rounds p depth h,
            not_null h,
            contains_plain t key plain h,
            level_at level plain.level_eq h,
          )
          refl

  module _ {σ : Store P} where
    -- What is left after a child is entered: nothing at a leaf.
    continues :
        {level child leaf : ℕ} (rounds depth : ℕ)
        → Route t Fits image key σ level child leaf
        → traverse t for_update adopts key rounds child
            (depth + 1)
            (before for_update (depth + 1) level child σ)
          ≡ ok (leaf, held leaf (mark 0 for_update) σ)
        → (if level == 0
              then pure child
              else traverse t for_update adopts key rounds child (depth + 1))
            (held child (mark level for_update) σ)
          ≡ ok (leaf, held leaf (mark 0 for_update) σ)
    continues rounds depth (at_leaf leads plain) next = refl
    continues rounds depth (through {level} leads plain serves rest) next =
        rw (ne→== (suc level) 0 (omega arith)) (rw (ne→== (depth + 1) 0 (omega arith)) at next)

    -- From a node on a route of the key, where each branch holds children in the order of their
    -- separators, no node has a foster child or a latch, and all fences contain the key: with two
    -- rounds more than there are levels, `traverse`, for reading or for update, with adoption or
    -- without, ends at the leaf of the route, and the only change is that this leaf is latched,
    -- exclusively for an update.
    pub traverse-Route :
        {level p leaf : ℕ} (rounds depth : ℕ)
        → Route t Fits image key σ level p leaf
        → level + 2 ≤ rounds
        → traverse t for_update adopts key rounds p depth (before for_update depth level p σ)
          ≡ ok (leaf, held leaf (mark 0 for_update) σ)
    unfolding traverse
    traverse-Route zero depth route enough = absurd (omega arith)
    traverse-Route (suc zero) depth route enough = absurd (omega arith)
    traverse-Route (suc (suc rounds)) depth (at_leaf {leaf} leads plain) enough =
        rw
          (
            enters_leaf (suc rounds) depth plain leads,
            arrives leaf plain (held-Leads leads (mark 0 for_update)) rounds depth
                (λ target. traverse t for_update adopts key (suc rounds) target (depth + 1)),
          )
          refl
    traverse-Route (suc (suc rounds)) depth (through {level} {p} leads plain serves rest) enough =
        let (nc, leads_child, plain_child) = Route-first t Fits image key rest in
        rw
          (
            enters rounds depth plain serves plain_child leads leads_child,
            arrives p plain_child (held-Leads leads_child (mark level for_update)) rounds depth
                (λ target. traverse t for_update adopts key (suc rounds) target (depth + 1)),
          )
          (continues (suc rounds) depth rest
            (traverse-Route (suc rounds) (depth + 1) rest (omega arith)))
