-- ===== src/Server/Kvs/Chain.antt =====
-- Laws of the loops over one chain, for every key.
use so.Common.{
  ℕ, ◌+◌, ◌≤◌, ◌<◌, if◌then◌else◌, none, some, [], ◌∷◌, Bytes, str_eq, str_eq_iff, length, arith,
  ◌≡◌, refl,
}
use so.Server.Kvs.{KeyNode, Chain, find_node, update_node, unlink}

-- How many nodes have the key.
abbrev pub count : Bytes → Chain → ℕ
count q [] = 0
count q (n ∷ c) = (if str_eq n.key q then 1 else 0) + count q c

pub find_node-eq-none : (q : Bytes) (c : Chain) → count q c ≡ 0 → find_node q c ≡ none
unfolding find_node
find_node-eq-none q [] h = refl
find_node-eq-none q (n ∷ c) h = ground (arith, find_node-eq-none q c)

pub count-eq-zero : (q : Bytes) (c : Chain) → find_node q c ≡ none → count q c ≡ 0
unfolding find_node
count-eq-zero q [] h = refl
count-eq-zero q (n ∷ c) h = ground (arith, count-eq-zero q c)

-- The node that the loop stops at has the key.
pub key-find_node : (q : Bytes) (c : Chain) {n : KeyNode} → find_node q c ≡ some n → n.key ≡ q
unfolding find_node
key-find_node q [] h = cc
key-find_node q (m ∷ c) {n} h = ground (arith, key-find_node q c {n = n}, str_eq_iff m.key q)

pub count-pos : (q : Bytes) (c : Chain) {n : KeyNode} → find_node q c ≡ some n → 0 < count q c
unfolding find_node
count-pos q [] h = cc
count-pos q (m ∷ c) {n} h = ground (arith, count-pos q c {n = n})

module _ (f : KeyNode → KeyNode) (keeps : (n : KeyNode) → (f n).key ≡ n.key) (k : Bytes) where
  pub find_node-update_node :
      (q : Bytes) (c : Chain) {n : KeyNode}
      → find_node k c ≡ some n
      → find_node q (update_node f k c) ≡ (if str_eq k q then some (f n) else find_node q c)
  unfolding find_node update_node
  find_node-update_node q [] h = cc
  find_node-update_node q (m ∷ c) {n} h = ground (
    arith,
    keeps m,
    find_node-update_node q c {n = n},
    str_eq_iff m.key k,
    str_eq_iff m.key q,
    str_eq_iff k q,
  )

  pub count-update_node : (q : Bytes) (c : Chain) → count q (update_node f k c) ≡ count q c
  unfolding update_node
  count-update_node q [] = refl
  count-update_node q (m ∷ c) = ground (arith, keeps m, count-update_node q c)

module _ (k q : Bytes) where
  pub find_node-unlink :
      (c : Chain)
      → count k c ≤ 1
      → find_node q (unlink k c) ≡ (if str_eq k q then none else find_node q c)
  unfolding find_node unlink
  find_node-unlink [] h = ground arith
  find_node-unlink (m ∷ c) h = ground (
    arith,
    find_node-unlink c,
    find_node-eq-none q c,
    str_eq_iff m.key k,
    str_eq_iff m.key q,
    str_eq_iff k q,
  )

  pub count-unlink-le : (c : Chain) → count q (unlink k c) ≤ count q c
  unfolding unlink
  count-unlink-le [] = omega arith
  count-unlink-le (m ∷ c) = ground (arith, count-unlink-le c)

pub length-unlink :
    (k : Bytes) (c : Chain) {n : KeyNode}
    → find_node k c ≡ some n
    → length (unlink k c) + 1 ≡ length c
unfolding find_node unlink
length-unlink k [] h = cc
length-unlink k (m ∷ c) {n} h = ground (arith, length-unlink k c {n = n})
