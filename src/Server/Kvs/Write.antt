-- ===== src/Server/Kvs/Write.antt =====
-- write_pair, read_pair and delete_pair against the map that the table stands for.
use so.Common.{
  ℕ, if◌then◌else◌, Option, none, some, List, ◌∷◌, Bytes, str_eq, str_eq_iff, arith, ◌≡◌, refl, inl,
  inr, pos, negsuc, Run, ok, fault, out_of_bounds, ◌∙◌, Option-cases, ◌>>=◌,
}
use so.Server.Kvs.{
  KeyNode, Chain, HashTable, chain_at, set_chain, hash, find_node, update_node, set_value,
  write_pair, read_pair, delete_pair,
}
use so.Server.Kvs.Chain.{
  count-eq-zero, find_node-update_node, count-update_node, find_node-unlink, count-unlink-le,
}
use so.Server.Kvs.Table.{IsValid, node_of, locate-ok, set_chain-IsValid, node_of-set_chain}

-- The node that a write leaves under the key.
abbrev pub written : List ℕ → Bytes → Bytes → Option KeyNode → KeyNode
written fds key value (some n) = set_value value n
written fds key value none = record { key = key; value = value; subscriber_fds = fds }

-- The status of `delete_pair`.
abbrev pub missing : Option KeyNode → ℕ
missing none = 1
missing (some _) = 0

-- The call ends with this status, in a valid table where the key has `r` and no other changed.
pub record Sets (ht : HashTable) (key : Bytes) (r : Option KeyNode) (status : ℕ)
    (run : Run (HashTable × ℕ)) : Type 0 where
  pub after : HashTable
  pub returns : run ≡ ok (after, status)
  pub valid : IsValid after
  pub reads : (q : Bytes) → node_of after q ≡ (if str_eq key q then r else node_of ht q)

module _ {ht : HashTable} (v : IsValid ht) (key : Bytes) {i : ℕ} (e : hash key ≡ pos i) where
  abbrev chain : Chain
  chain = chain_at ht i

  pub node_of-find_node : node_of ht key ≡ find_node key (chain_at ht i)
  unfolding node_of
  node_of-find_node = rw e

  -- A call that leaves the table alone.
  pub unchanged-Sets :
      (status : ℕ) {run : Run (HashTable × ℕ)}
      → run ≡ ok (ht, status)
      → Sets ht key (node_of ht key) status run
  unchanged-Sets status r = record {
    after = ht;
    returns = r;
    valid = v;
    reads = λ q. ground (arith, str_eq_iff key q);
  }

  -- A call that changes the node of the key in place.
  pub update-Sets :
      (f : KeyNode → KeyNode) (keeps : (n : KeyNode) → (f n).key ≡ n.key) {n : KeyNode}
      → find_node key (chain_at ht i) ≡ some n
      → {run : Run (HashTable × ℕ)}
      → run ≡ ok (set_chain ht i (update_node f key (chain_at ht i)), 0)
      → Sets ht key (some (f n)) 0 run
  update-Sets f keeps {n} found r = record {
    after = _;
    returns = r;
    valid =
        set_chain-IsValid v key e _ (λ q. rw (count-update_node f keeps key q chain) (omega arith));
    reads =
        node_of-set_chain v key e _ (some (f n))
          (λ q. find_node-update_node f keeps key q chain found);
  }

  cons-Sets :
      (n : KeyNode)
      → n.key ≡ key
      → find_node key (chain_at ht i) ≡ none
      → {run : Run (HashTable × ℕ)} → run ≡ ok (set_chain ht i (n ∷ chain_at ht i), 0)
      → Sets ht key (some n) 0 run
  unfolding find_node
  cons-Sets n same absent r = record {
    after = _;
    returns = r;
    valid =
        set_chain-IsValid v key e _
          (λ q. ground (arith, str_eq_iff key q, count-eq-zero key chain absent));
    reads = node_of-set_chain v key e _ (some n) (λ q. rw same);
  }

  -- In a valid table a write under a key that has a bucket succeeds. The key then has the value;
  -- its subscribers are those it had, or, for a new key, what `malloc` returned.
  pub write_pair-Sets :
      (fds : List ℕ) (value : Bytes)
      → Sets ht key
          (some (written fds key value (node_of ht key)))
          0
          (write_pair (some fds) ht key value)
  unfolding write_pair
  write_pair-Sets fds value = elim (Option-cases (find_node key chain)) [
    | inl absent ↦
        rw (node_of-find_node, absent)
          (cons-Sets _ refl absent (rw (locate-ok key v e, ◌>>=◌, absent)))
    | inr (n, found) ↦
        rw (node_of-find_node, found)
          (update-Sets (set_value value) (λ _. refl) found (rw (locate-ok key v e, ◌>>=◌, found)))
  ]

  -- A read returns the value of the key's node, or NULL where the key has none.
  pub read_pair-node_of :
      read_pair ht key ≡ ok (elim (node_of ht key) [ some n ↦ some n.value | none ↦ none ])
  unfolding read_pair
  read_pair-node_of = rw (locate-ok key v e, node_of-find_node) (ground arith)

  -- A delete removes the key and no other, and returns 1 exactly where the key was not there.
  pub delete_pair-Sets : Sets ht key none (missing (node_of ht key)) (delete_pair ht key)
  unfolding delete_pair
  delete_pair-Sets = elim (Option-cases (find_node key chain)) [
    | inl absent ↦
        rw (node_of-find_node, absent)
          (rw (node_of-find_node ∙ absent) at
            (unchanged-Sets 1 {run = delete_pair ht key} (rw (locate-ok key v e, ◌>>=◌, absent))))
    | inr (n, found) ↦
        rw (node_of-find_node, found)
          (record {
            after = _;
            returns = rw (locate-ok key v e, ◌>>=◌, found);
            valid = set_chain-IsValid v key e _ (λ q. omega (arith, count-unlink-le key q chain));
            reads =
                node_of-set_chain v key e _ none
                  (λ q. find_node-unlink key q chain (v.distinct i key));
          })
  ]

-- Where `hash` gives -1, every operation reads outside the table.
pub unhashed_faults :
    (memory : Option (List ℕ)) (ht : HashTable) (key value : Bytes)
    → hash key ≡ negsuc 0
    → (write_pair memory ht key value ≡ fault out_of_bounds)
      × (read_pair ht key ≡ fault out_of_bounds)
      × (delete_pair ht key ≡ fault out_of_bounds)
unfolding write_pair read_pair delete_pair
unhashed_faults memory ht key value e = (rw e, rw e, rw e)
