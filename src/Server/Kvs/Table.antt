-- ===== src/Server/Kvs/Table.antt =====
-- The hash table as a map from keys to nodes, and the invariant that makes it one.
use Prim.Native.Nat.{max}
use so.Common.{
  ℕ, ◌≤◌, ◌<◌, if◌then◌else◌, true, Option, none, some, [], Bytes, str_eq, str_eq_iff, length,
  arith, ◌≡◌, refl, Bool-cases, inl, inr, ◌⊎◌, ℤ, pos, negsuc, length-set, get_or-set, ok,
  get_or-replicate, replicate, leb, ◌&&◌, ◌-◌, length-replicate, ◌∙◌,
}
use so.Server.Kvs.{
  KeyNode, Chain, HashTable, chain_at, set_chain, hash, index_of_letter, tolower, first_byte,
  find_node, locate, table_size, create_hash_table,
}
use so.Server.Kvs.Chain.{count}

index_of_letter_bounds :
    (c : ℕ)
    → (index_of_letter c ≡ negsuc 0) ⊎ ((i : ℕ) × (index_of_letter c ≡ pos i) × (i < table_size))
index_of_letter_bounds c = elim (Bool-cases (leb b'a' c && leb c b'z')) [
  | inl letter ↦ inr (c - b'a', rw letter, ground arith)
  | inr other ↦ elim (Bool-cases (leb b'0' c && leb c b'9')) [
    | inl digit ↦ inr (c - b'0', rw (other, digit), ground arith)
    | inr neither ↦ inl (rw (other, neither))
  ]
]

-- The bucket of a key lies in the table, or the key has none and `hash` gives -1.
pub hash_bounds :
    (key : Bytes) → (hash key ≡ negsuc 0) ⊎ ((i : ℕ) × (hash key ≡ pos i) × (i < table_size))
unfolding hash
hash_bounds key = index_of_letter_bounds (tolower (first_byte key))

pub hash-lt : (key : Bytes) {i : ℕ} → hash key ≡ pos i → i < table_size
hash-lt key {i} e = ground (arith, hash_bounds key)

-- 26 chains; no key twice in a chain; every key in the chain of its hash.
pub record IsValid (ht : HashTable) : Type 0 where
  pub width : length ht.table ≡ table_size
  pub distinct : (i : ℕ) (q : Bytes) → count q (chain_at ht i) ≤ 1
  pub placed : (i : ℕ) (q : Bytes) → 0 < count q (chain_at ht i) → hash q ≡ pos i

-- The node of a key, if the table has one.
abbrev pub node_in : HashTable → ℤ → Bytes → Option KeyNode
node_in ht (pos i) q = find_node q (chain_at ht i)
node_in ht (negsuc i) q = none

unfoldable pub node_of : HashTable → Bytes → Option KeyNode
node_of ht q = node_in ht (hash q) q

abbrev empty : HashTable
empty = record { table = replicate table_size [] }

empty_chain : (i : ℕ) → chain_at empty i ≡ []
empty_chain i = get_or-replicate table_size i []

empty-IsValid : IsValid empty
empty-IsValid = record {
  width = length-replicate {A = Chain} table_size [];
  distinct = λ i q. rw (empty_chain i) (omega arith);
  placed = λ i q. rw (empty_chain i) (λ h. absurd (omega arith));
}

node_in-empty : (h : ℤ) (q : Bytes) → node_in empty h q ≡ none
unfolding find_node
node_in-empty (pos i) q = rw (empty_chain i)
node_in-empty (negsuc i) q = refl

node_of-empty : (q : Bytes) → node_of empty q ≡ none
unfolding node_of
node_of-empty q = node_in-empty (hash q) q

pub create_hash_table-IsValid :
    (ht : HashTable) × (create_hash_table true ≡ some ht)
    × IsValid ht
    × ((q : Bytes) → node_of ht q ≡ none)
unfolding create_hash_table
create_hash_table-IsValid =
    (record { table = replicate table_size [] }, refl, empty-IsValid, node_of-empty)

pub locate-ok :
    {ht : HashTable} (key : Bytes) {i : ℕ} → IsValid ht → hash key ≡ pos i → locate ht key ≡ ok i
locate-ok {ht} key {i} v e = rw (e, v.width) (ground (arith, hash-lt key e))

module _ {ht : HashTable} (v : IsValid ht) (k : Bytes) {i : ℕ} (e : hash k ≡ pos i)
    (c : Chain) where
  bucket : i < length ht.table
  bucket = rw v.width (hash-lt k e)

  pub set_chain-IsValid :
      ((q : Bytes) → count q c ≤ max (if str_eq k q then 1 else 0) (count q (chain_at ht i)))
      → IsValid (set_chain ht i c)
  set_chain-IsValid few = record {
    width = length-set ht.table i c ∙ v.width;
    distinct = λ j q.
        rw (get_or-set ht.table i j c [] bucket)
          (ground (arith, few q, v.distinct j q, v.distinct i q));
    placed = λ j q.
        rw (get_or-set ht.table i j c [] bucket)
          (λ h. ground (arith, few q, v.placed j q, v.placed i q, str_eq_iff k q));
  }

  node_in-set_chain :
      (r : Option KeyNode) (q : Bytes)
      → find_node q c ≡ (if str_eq k q then r else find_node q (chain_at ht i))
      → (h : ℤ) → hash q ≡ h
      → node_in (set_chain ht i c) h q ≡ (if str_eq k q then r else node_in ht h q)
  node_in-set_chain r q reads (pos j) at_j =
      rw (get_or-set ht.table i j c [] bucket) (ground (arith, str_eq_iff k q))
  node_in-set_chain r q reads (negsuc j) at_j = ground (arith, str_eq_iff k q)

  pub node_of-set_chain :
      (r : Option KeyNode)
      → ((q : Bytes) → find_node q c ≡ (if str_eq k q then r else find_node q (chain_at ht i)))
      → (q : Bytes) → node_of (set_chain ht i c) q ≡ (if str_eq k q then r else node_of ht q)
  unfolding node_of
  node_of-set_chain r reads q = node_in-set_chain r q (reads q) (hash q) refl
