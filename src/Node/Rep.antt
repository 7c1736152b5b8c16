-- ===== src/Node/Rep.antt =====
-- node.h: what a sorted node holds, as a strictly increasing sequence of keys with their values.
use foster_btree.Prelude.{ℕ, ◌+◌, ◌<◌, ◌≡◌, ◌∙◌, true, false, List, arith, some}
use foster_btree.Prelude.Outcome.{ok}
use foster_btree.Layout.{IsLayout}
use foster_btree.Bytes.{Holds, nth, Holds-of_nth}
use foster_btree.SlotArray.Defs.{SlotArray, memory}
use foster_btree.Layout.{IsAddressable}
use foster_btree.SlotArray.Entries.{Entry, Represents, memory-byte_at}
use foster_btree.Encoding.Compound.{IsRecordEncoder}
use foster_btree.Node.Defs.{NodeType, slot_key, payload_for_slot}

-- What the parts that a node is built from have to satisfy. The normalized keys follow the order of
-- the keys, though several keys may share one.
pub record IsNodeType {K V P : Type 0} (t : NodeType K V P) (Fits : K → V → Type 0)
    (image : K → V → List ℕ) (key_length : K → ℕ) : Type 0 where
  pub is_layout : IsLayout t.layout
  pub addressable : IsAddressable t.layout
  pub is_encoder : IsRecordEncoder t.encoder Fits image key_length
  pub pmnk_mono :
      (a b : K)
      → t.key_order.lt a b ≡ true
      → t.pmnk_order.lt (t.encoder.get_pmnk b) (t.encoder.get_pmnk a) ≡ false

module _ {K V P : Type 0} (t : NodeType K V P) (Fits : K → V → Type 0)
    (image : K → V → List ℕ) where
  -- What the slot array stores of a pair.
  abbrev pub entry_of : K → V → Entry P
  entry_of k v = record {
    key = t.encoder.get_pmnk k;
    ghost = false;
    size = t.encoder.length_of k v;
    bytes = nth (image k v);
  }

  -- The slots hold these pairs, in any order.
  pub record IsStored (floor : ℕ) (s : SlotArray P) (count : ℕ) (keys : ℕ → K) (values : ℕ → V)
      : Type 0 where
    pub represents : Represents t.layout floor s count (λ i. entry_of (keys i) (values i))
    pub fits : (i : ℕ) → i < count → Fits (keys i) (values i)

  pub record IsNode (floor : ℕ) (s : SlotArray P) (count : ℕ) (keys : ℕ → K) (values : ℕ → V)
      : Type 0 where
    pub represents : Represents t.layout floor s count (λ i. entry_of (keys i) (values i))
    pub fits : (i : ℕ) → i < count → Fits (keys i) (values i)
    pub increasing : (i j : ℕ) → i < j → j < count → t.key_order.lt (keys i) (keys j) ≡ true

module _ {K V P : Type 0} {t : NodeType K V P} {Fits : K → V → Type 0} {image : K → V → List ℕ}
    {key_length : K → ℕ} (is : IsNodeType t Fits image key_length) {floor : ℕ} {s : SlotArray P}
    {count : ℕ} {keys : ℕ → K} {values : ℕ → V}
    (stored : IsStored t Fits image floor s count keys values) (i : ℕ) (used : i < count) where
  open is use {is_layout, is_encoder}
  open stored use {represents, fits}

  pub stored_key-eq : slot_key t s i ≡ t.encoder.get_pmnk (keys i)
  stored_key-eq = (represents.stores i used).key_eq

  -- The payload of a used slot is the image of its pair.
  pub stored-Holds : Holds (memory t.layout s) (payload_for_slot t s i) (image (keys i) (values i))
  stored-Holds = Holds-of_nth _ _ _ (λ o h.
      memory-byte_at t.layout is_layout s (s.slots i).ptr o
      ∙ (represents.stores i used).bytes_eq o
          (omega (arith, is_encoder.length-image (keys i) (values i))))

  pub read_key-eq :
      (old : K)
      → t.encoder.decode_key
          (memory t.layout s)
          (payload_for_slot t s i)
          old
          (some (slot_key t s i))
        ≡ ok (keys i, payload_for_slot t s i + key_length (keys i))
  read_key-eq old =
      rw stored_key-eq (is_encoder.reads_key _ _ (keys i) (values i) old (fits i used) stored-Holds)

module _ {K V P : Type 0} {t : NodeType K V P} {Fits : K → V → Type 0} {image : K → V → List ℕ}
    {key_length : K → ℕ} (is : IsNodeType t Fits image key_length) {floor : ℕ} {s : SlotArray P}
    {count : ℕ} {keys : ℕ → K} {values : ℕ → V}
    (node : IsNode t Fits image floor s count keys values) (i : ℕ) (used : i < count) where
  open is use {is_encoder}
  open node use {represents, fits}

  abbrev pub stored : IsStored t Fits image floor s count keys values
  stored = record { represents = represents; fits = fits }

  pub slot_key-eq : slot_key t s i ≡ t.encoder.get_pmnk (keys i)
  slot_key-eq = stored_key-eq is stored i used

  -- The payload of a used slot is the image of its pair.
  pub payload-Holds : Holds (memory t.layout s) (payload_for_slot t s i) (image (keys i) (values i))
  payload-Holds = stored-Holds is stored i used

  pub decode_key-eq :
      t.encoder.decode_key
        (memory t.layout s)
        (payload_for_slot t s i)
        t.blank
        (some (t.encoder.get_pmnk (keys i)))
      ≡ ok (keys i, payload_for_slot t s i + key_length (keys i))
  decode_key-eq = is_encoder.reads_key _ _ (keys i) (values i) t.blank (fits i used) payload-Holds
