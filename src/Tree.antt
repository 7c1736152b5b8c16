-- ===== src/Tree.antt =====
-- The nodes of a tree in memory, and calls that change them. A pointer (pointers.h) is the number of
-- a node, and null is 0.
pub mod Methods
pub mod Adoption
pub mod Traversal
pub mod Fresh
pub mod Btree
pub mod Held
use foster_btree.Prelude.{ℕ, zero, suc, ◌+◌, ◌^◌, Bool, true, false, ◌&&◌, ltb, ◌==◌, if◌then◌else◌}
use foster_btree.Prelude.Words.{cast}
use foster_btree.Prelude.Outcome.{Outcome, ok, throw, Error, undefined_behavior}
use foster_btree.Prelude.Outcome
use foster_btree.SlotArray.Defs.{SlotArray, write_at}
use foster_btree.Foster.{FosterNode, Fields}

-- `SlotArray` with its base classes `FosterNodePayloads` and `MutexLatch`, of which `counter` is the
-- state.
pub record TreeNode (P : Type 0) : Type 0 where
  pub node : FosterNode P
  pub counter : ℕ

-- The nodes, and the number of the next one that the allocator gives out.
pub record Store (P : Type 0) : Type 0 where
  pub nodes : ℕ → TreeNode P
  pub next : ℕ

-- A call by the one thread that runs.
abbrev pub Action : (P A : Type 0) → Type 0
Action P A = Store P → Outcome (A × Store P)

-- `set_level(l)`, where the level is a `uint8_t`, and `level()`
unfoldable pub with_level : ℕ → Fields → Fields
with_level level f = record f { level = cast (2 ^ 8) level }

module _ {P : Type 0} where
  infixl 5 ◌>>=◌ ◌>>◌
  abbrev pub ◌>>=◌ : {A B : Type 0} → Action P A → (A → Action P B) → Action P B
  ◌>>=◌ m f σ = Outcome.◌>>=◌ (m σ) (λ r. f r.0 r.1)

  abbrev pub ◌>>◌ : {B : Type 0} → Action P (Unit {0}) → Action P B → Action P B
  m >> k = m >>= λ _. k

  abbrev pub pure : {A : Type 0} → A → Action P A
  pure a σ = ok (a, σ)

  abbrev pub fail : {A : Type 0} → Error → Action P A
  fail e σ = throw e

  -- A call that changes no node.
  abbrev pub lift : {A : Type 0} → Outcome A → Action P A
  lift m σ = Outcome.◌>>=◌ m (λ a. ok (a, σ))

  -- `assert<1>(condition)`
  abbrev pub require : Bool → Action P (Unit {0})
  require b = lift (Outcome.assert b)

  -- The pointer points to a node.
  abbrev pub is_allocated : ℕ → Store P → Bool
  is_allocated p σ = ltb 0 p && ltb p σ.next

  abbrev pub put_node : ℕ → TreeNode P → Store P → Store P
  put_node p n σ = record σ { nodes = write_at σ.nodes p n }

  -- `node->...`, for a method that changes the node, and one that does not
  unfoldable pub change : {A : Type 0} → ℕ → (TreeNode P → Outcome (TreeNode P × A)) → Action P A
  change p f σ =
      if is_allocated p σ
      then Outcome.◌>>=◌ (f (σ.nodes p)) (λ r. ok (r.1, put_node p r.0 σ))
      else throw undefined_behavior

  unfoldable pub inspect : {A : Type 0} → ℕ → (TreeNode P → Outcome A) → Action P A
  inspect p f σ =
      if is_allocated p σ
      then Outcome.◌>>=◌ (f (σ.nodes p)) (λ a. ok (a, σ))
      else throw undefined_behavior

  -- The same, for the methods of the latch and for the others.
  abbrev pub change_latch : ℕ → (ℕ → Outcome ℕ) → Action P (Unit {0})
  change_latch p f =
      change p
        (λ n. Outcome.◌>>=◌ (f n.counter) (λ counter. ok (record n { counter = counter }, tt)))

  abbrev pub change_fields :
      {A : Type 0} → ℕ → (FosterNode P → Outcome (FosterNode P × A)) → Action P A
  change_fields p f =
      change p (λ n. Outcome.◌>>=◌ (f n.node) (λ r. ok (record n { node = r.0 }, r.1)))

  abbrev pub change_array :
      {A : Type 0} → ℕ → (SlotArray P → Outcome (SlotArray P × A)) → Action P A
  change_array p f =
      change_fields p (λ n. Outcome.◌>>=◌ (f n.array) (λ r. ok (record n { array = r.0 }, r.1)))

  abbrev pub inspect_fields : {A : Type 0} → ℕ → (FosterNode P → Outcome A) → Action P A
  inspect_fields p f = inspect p (λ n. f n.node)

  abbrev pub inspect_array : {A : Type 0} → ℕ → (SlotArray P → Outcome A) → Action P A
  inspect_array p f = inspect p (λ n. f n.node.array)

  abbrev pub set_level : (p level : ℕ) → Action P (Unit {0})
  set_level p level =
      change_fields p (λ n. ok (record n { fields = with_level level n.fields }, tt))

  abbrev pub get_level : (p : ℕ) → Action P ℕ
  get_level p = inspect_fields p (λ n. ok n.fields.level)
