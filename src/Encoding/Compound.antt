-- ===== src/Encoding/Compound.antt =====
-- encoding.h: `CompoundEncoder`, which encodes a key and a value into one payload.
use foster_btree.Prelude.{
  ℕ, ◌+◌, ◌<◌, ◌≡◌, arith, Option, none, some, List, ◌++◌, length, length-append, ap,
}
use foster_btree.Prelude.Outcome.{Outcome, ok, throw, assertion_failure}
use foster_btree.Bytes.{Memory, memcpy, Holds, memcpy-append, Holds-append}
use foster_btree.Encoding.{Encoder, IsEncoder, Measures}
use foster_btree.Encoding.Scalar.{dummy_encoder}

-- The static methods of an encoder of key-value pairs, as a node uses them. `decode_key` gets what
-- its out-parameter held before, and the poor man's normalized key if the caller has one.
pub record RecordEncoder (K V P : Type 0) : Type 0 where
  pub get_pmnk : K → P
  pub length_of : K → V → ℕ
  pub length_at : Memory → (address : ℕ) → ℕ
  pub encode : Memory → (dest : ℕ) → K → V → Memory
  pub decode_key : Memory → (src : ℕ) → (old : K) → Option P → Outcome (K × ℕ)
  pub skip_key : Memory → (src : ℕ) → ℕ
  pub decode_value : Memory → (src : ℕ) → (old : V) → V

-- What a node relies on. `key_length` is the part of the payload that the key takes.
pub record IsRecordEncoder {K V P : Type 0} (E : RecordEncoder K V P) (Fits : K → V → Type 0)
    (image : K → V → List ℕ) (key_length : K → ℕ) : Type 0 where
  pub length-image : (k : K) (v : V) → length (image k v) ≡ E.length_of k v
  pub length_pos : (k : K) (v : V) → 0 < E.length_of k v
  pub writes : (m : Memory) (d : ℕ) (k : K) (v : V) → E.encode m d k v ≡ memcpy m d (image k v)
  pub measures :
      (m : Memory) (d : ℕ) (k : K) (v : V)
      → Fits k v
      → Holds m d (image k v)
      → E.length_at m d ≡ E.length_of k v
  pub reads_key :
      (m : Memory) (d : ℕ) (k : K) (v : V) (old : K)
      → Fits k v
      → Holds m d (image k v)
      → E.decode_key m d old (some (E.get_pmnk k)) ≡ ok (k, d + key_length k)
  pub skips_key :
      (m : Memory) (d : ℕ) (k : K) (v : V)
      → Fits k v
      → Holds m d (image k v)
      → E.skip_key m d ≡ d + key_length k
  pub reads_value :
      (m : Memory) (d : ℕ) (k : K) (v old : V)
      → Fits k v
      → Holds m d (image k v)
      → E.decode_value m (d + key_length k) old ≡ v

-- `if (key && std::is_same<K, PMNK_Type>::value) { ... *key = *pmnk; }`: `reuse` is `some` of the
-- conversion if the types are the same.
unfoldable pub take_pmnk : {K P : Type 0} → Option (P → K) → K × ℕ → Option P → Outcome (K × ℕ)
take_pmnk none (key, p) pmnk = ok (key, p)
take_pmnk (some same) (key, p) (some pmnk) = ok (same pmnk, p)
take_pmnk (some same) (key, p) none = throw assertion_failure

-- `CompoundEncoder`, given `ActualKeyEncoder`, the value's encoder and `get_pmnk`.
unfoldable pub compound_encoder :
    {K V P : Type 0} → Encoder K → Encoder V → (K → P) → Option (P → K) → RecordEncoder K V P
compound_encoder actual value pmnk reuse = record {
  get_pmnk = pmnk;
  length_of = λ k v. actual.length_of k + value.length_of v;
  length_at = λ m address.
      actual.length_at m address + value.length_at m (address + actual.length_at m address);
  encode = λ m dest k v. let (m', p) = actual.encode m dest k in (value.encode m' p v).0;
  decode_key = λ m src old given. take_pmnk reuse (actual.decode m src old) given;
  skip_key = actual.skip;
  decode_value = λ m src old. (value.decode m src old).0;
}

module _ {V : Type 0} {value : Encoder V} {FitsV : V → Type 0} {imageV : V → List ℕ}
    (isV : IsEncoder value FitsV imageV) (measuresV : Measures value FitsV imageV)
    (positive : (v : V) → 0 < value.length_of v) where
  -- The key is the poor man's normalized key: it is not encoded.
  module _ {K : Type 0} where
    -- `CompoundEncoder<KeyEncoder, ValueEncoder, K>`
    abbrev pub reusing : RecordEncoder K V K
    reusing = compound_encoder (dummy_encoder {T = K}) value (λ k. k) (some (λ k. k))

    -- From an encoder of values with its laws, positive lengths and reported lengths:
    -- `CompoundEncoder` with the key as its own normalized key writes the value alone, and reads
    -- the key back from the normalized key.
    pub reusing-IsRecordEncoder :
        IsRecordEncoder reusing (λ _ v. FitsV v) (λ _ v. imageV v) (λ _. 0)
    unfolding compound_encoder dummy_encoder take_pmnk
    reusing-IsRecordEncoder = record {
      length-image = λ k v. omega (arith, isV.length-image v);
      length_pos = λ k v. omega (arith, positive v);
      writes = λ m d k v. ap (λ (r : Memory × ℕ). r.0) (isV.writes m d v);
      measures = λ m d k v fits held.
          let e : d + 0 ≡ d = omega arith in rw e (omega (arith, measuresV m d v fits held));
      reads_key = λ m d k v old fits held. let e : d + 0 ≡ d = omega arith in rw e;
      skips_key = λ m d k v fits held. omega arith;
      reads_value = λ m d k v old fits held.
          let e : d + 0 ≡ d = omega arith in
          rw e (ap (λ (r : V × ℕ). r.0) (isV.reads m d v old fits held));
    }

  -- The key is encoded before the value; the normalized key only prefixes it.
  module _ {K P : Type 0} {actual : Encoder K} {FitsK : K → Type 0} {imageK : K → List ℕ}
      (isK : IsEncoder actual FitsK imageK) (measuresK : Measures actual FitsK imageK)
      (pmnk : K → P) where
    abbrev pub encoding : RecordEncoder K V P
    encoding = compound_encoder actual value pmnk none

    split_images :
        (m : Memory) (d : ℕ) (k : K) (v : V)
        → Holds m d (imageK k ++ imageV v)
        → Holds m d (imageK k) × Holds m (d + actual.length_of k) (imageV v)
    split_images m d k v held =
        let parts = Holds-append m d (imageK k) (imageV v) held in
        (parts.0, rw (isK.length-image k) at parts.1)

    encoding-writes :
        (m : Memory) (d : ℕ) (k : K) (v : V)
        → encoding.encode m d k v ≡ memcpy m d (imageK k ++ imageV v)
    unfolding compound_encoder
    encoding-writes m d k v =
        let copied = memcpy-append m d (imageK k) (imageV v) in
        let copied' = rw (isK.length-image k) at copied in
        rw
          (isK.writes m d k, isV.writes (memcpy m d (imageK k)) (d + actual.length_of k) v, copied')

    -- From encoders of key and value with their laws, where values have positive length and both
    -- report lengths of what lies in memory: `CompoundEncoder` with a normalized key of another
    -- type writes key and value one after the other, reads both back, and finds the value and the
    -- length of the pair in memory.
    pub encoding-IsRecordEncoder :
        IsRecordEncoder encoding
          (λ k v. FitsK k × FitsV v)
          (λ k v. imageK k ++ imageV v)
          actual.length_of
    unfolding compound_encoder take_pmnk
    encoding-IsRecordEncoder = record {
      length-image = λ k v.
          omega
            (arith, length-append (imageK k) (imageV v), isK.length-image k, isV.length-image v);
      length_pos = λ k v. omega (arith, positive v);
      writes = encoding-writes;
      measures = λ m d k v fits held.
          let (hk, hv) = split_images m d k v held in
          rw (measuresK m d k fits.0 hk, measuresV m (d + actual.length_of k) v fits.1 hv);
      reads_key =
          λ m d k v old fits held. rw (isK.reads m d k old fits.0 (split_images m d k v held).0);
      skips_key = λ m d k v fits held. isK.skips m d k fits.0 (split_images m d k v held).0;
      reads_value = λ m d k v old fits held.
          ap (λ (r : V × ℕ). r.0)
            (isV.reads m (d + actual.length_of k) v old fits.1 (split_images m d k v held).1);
    }
