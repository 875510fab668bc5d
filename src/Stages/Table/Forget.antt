-- ===== src/Stages/Table/Forget.antt =====
-- The table of the server, with the subscribers forgotten, is that of the first part.
use so.Server.Kvs.{new_node}
use so.Common.{
  Fault, Option-cases, ◌⊎◌, zero, suc, ap, ◌∙◌, if◌then◌else◌, null_pointer, ℕ, Bool, true, false,
  Option, none, some, List, [], ◌∷◌, Bytes, str_eq, Run, ok, fault, length, get_or, set, ◌>>=◌, ◌≡◌,
  refl, Bool-cases, inl, inr,
}
use so.Server.Kvs
use so.Stages.Table.{
  KeyNode, Chain, HashTable, hash, chain_at, set_chain, locate, find_node, replace_value, unlink,
  write_pair, read_pair, delete_pair,
}

abbrev pub forget_node : Kvs.KeyNode → KeyNode
forget_node n = record { key = n.key; value = n.value }

abbrev pub forget_chain : Kvs.Chain → Chain
forget_chain [] = []
forget_chain (n ∷ c) = forget_node n ∷ forget_chain c

abbrev pub forget_table : List Kvs.Chain → List Chain
forget_table [] = []
forget_table (c ∷ cs) = forget_chain c ∷ forget_table cs

abbrev pub forget : Kvs.HashTable → HashTable
forget ht = record { table = forget_table ht.table }

-- The table that a run leaves, with the subscribers forgotten.
abbrev pub forget_after : Run (Kvs.HashTable × ℕ) → Run (HashTable × ℕ)
forget_after (fault why) = fault why
forget_after (ok (ht, status)) = ok (forget ht, status)

-- Whether `malloc` gives memory.
abbrev pub allocated : Option (List ℕ) → Bool
allocated none = false
allocated (some fds) = true

length-forget_table : (cs : List Kvs.Chain) → length (forget_table cs) ≡ length cs
length-forget_table [] = refl
length-forget_table (c ∷ cs) = rw (length-forget_table cs)

get_or-forget_table :
    (cs : List Kvs.Chain) (i : ℕ) → get_or (forget_table cs) i [] ≡ forget_chain (get_or cs i [])
get_or-forget_table [] i = refl
get_or-forget_table (c ∷ cs) zero = refl
get_or-forget_table (c ∷ cs) (suc i) = get_or-forget_table cs i

set-forget_table :
    (cs : List Kvs.Chain) (i : ℕ) (c : Kvs.Chain)
    → set (forget_table cs) i (forget_chain c) ≡ forget_table (set cs i c)
set-forget_table [] i d = refl
set-forget_table (c ∷ cs) zero d = refl
set-forget_table (c ∷ cs) (suc i) d = rw (set-forget_table cs i d)

abbrev forget_found : Option Kvs.KeyNode → Option KeyNode
forget_found none = none
forget_found (some n) = some (forget_node n)

find_node-forget_chain :
    (key : Bytes) (c : Kvs.Chain)
    → find_node key (forget_chain c) ≡ forget_found (Kvs.find_node key c)
unfolding find_node Kvs.find_node
find_node-forget_chain key [] = refl
find_node-forget_chain key (n ∷ c) = elim (Bool-cases (str_eq n.key key)) [
  | inl here ↦ rw here
  | inr other ↦ rw other (find_node-forget_chain key c)
]

replace_value-forget_chain :
    (key value : Bytes) (c : Kvs.Chain)
    → replace_value key value (forget_chain c)
      ≡ forget_chain (Kvs.update_node (Kvs.set_value value) key c)
unfolding replace_value Kvs.update_node
replace_value-forget_chain key value [] = refl
replace_value-forget_chain key value (n ∷ c) = elim (Bool-cases (str_eq n.key key)) [
  | inl here ↦ rw here
  | inr other ↦ rw (other, replace_value-forget_chain key value c)
]

unlink-forget_chain :
    (key : Bytes) (c : Kvs.Chain) → unlink key (forget_chain c) ≡ forget_chain (Kvs.unlink key c)
unfolding unlink Kvs.unlink
unlink-forget_chain key [] = refl
unlink-forget_chain key (n ∷ c) = elim (Bool-cases (str_eq n.key key)) [
  | inl here ↦ rw here
  | inr other ↦ rw (other, unlink-forget_chain key c)
]

locate-forget : (ht : Kvs.HashTable) (key : Bytes) → locate (forget ht) key ≡ Kvs.locate ht key
unfolding hash Kvs.hash
locate-forget ht key = rw (length-forget_table ht.table)

chain_at-forget :
    (ht : Kvs.HashTable) (i : ℕ) → chain_at (forget ht) i ≡ forget_chain (Kvs.chain_at ht i)
chain_at-forget ht i = get_or-forget_table ht.table i

pub Run-cases :
    {A : Type 0} (run : Run A) → ((why : Fault) × (run ≡ fault why)) ⊎ ((a : A) × (run ≡ ok a))
Run-cases (fault why) = inl (why, refl)
Run-cases (ok a) = inr (a, refl)

with_status :
    (status : ℕ) {t u : HashTable}
    → t ≡ u
    → ◌≡◌ {A = Run (HashTable × ℕ)} (ok (t, status)) (ok (u, status))
with_status status e = ap (λ x. ok (x, status)) e

module _ (ht : Kvs.HashTable) (key : Bytes) where
  found_at :
      (i : ℕ)
      → find_node key (chain_at (forget ht) i)
        ≡ forget_found (Kvs.find_node key (Kvs.chain_at ht i))
  found_at i =
      ap (find_node key) (chain_at-forget ht i) ∙ find_node-forget_chain key (Kvs.chain_at ht i)

  set_at :
      (i : ℕ) (c : Kvs.Chain) (d : Chain)
      → d ≡ forget_chain c
      → set_chain (forget ht) i d ≡ forget (Kvs.set_chain ht i c)
  set_at i c d e = rw (e, set-forget_table ht.table i c)

  pub read_pair-forget : read_pair (forget ht) key ≡ Kvs.read_pair ht key
  unfolding read_pair Kvs.read_pair
  read_pair-forget = elim (Run-cases (Kvs.locate ht key)) [
    | inl (why, e) ↦ rw (locate-forget ht key, e)
    | inr (i, e) ↦ elim (Option-cases (Kvs.find_node key (Kvs.chain_at ht i))) [
      | inl absent ↦ rw (locate-forget ht key, e, ◌>>=◌, found_at i, absent)
      | inr (n, found) ↦ rw (locate-forget ht key, e, ◌>>=◌, found_at i, found)
    ]
  ]

  new_pair :
      (memory : Option (List ℕ)) (i : ℕ) (value : Bytes)
      → (if allocated memory
          then ok (
            set_chain (forget ht) i (record { key = key; value = value } ∷ chain_at (forget ht) i),
            0,
          )
          else fault null_pointer)
        ≡ forget_after (do
          n ← Kvs.new_node memory key value
          ok (Kvs.set_chain ht i (n ∷ Kvs.chain_at ht i), 0))
  unfolding Kvs.new_node
  new_pair none i value = refl
  new_pair (some fds) i value = with_status 0 (
      set_at i ((record { key = key; value = value; subscriber_fds = fds }) ∷ Kvs.chain_at ht i) _
        (rw (chain_at-forget ht i)))

  -- Forgetting the subscribers before a write and after it is the same.
  pub write_pair-forget :
      (memory : Option (List ℕ)) (value : Bytes)
      → write_pair (allocated memory) (forget ht) key value
        ≡ forget_after (Kvs.write_pair memory ht key value)
  unfolding write_pair Kvs.write_pair
  write_pair-forget memory value = elim (Run-cases (Kvs.locate ht key)) [
    | inl (why, e) ↦ rw (locate-forget ht key, e)
    | inr (i, e) ↦ elim (Option-cases (Kvs.find_node key (Kvs.chain_at ht i))) [
      | inl absent ↦
          rw (locate-forget ht key, e, ◌>>=◌, found_at i, absent) (new_pair memory i value)
      | inr (n, found) ↦
          rw (locate-forget ht key, e, ◌>>=◌, found_at i, found)
            (with_status 0 (
              set_at i (Kvs.update_node (Kvs.set_value value) key (Kvs.chain_at ht i)) _ (
                rw (chain_at-forget ht i)
                  (replace_value-forget_chain key value (Kvs.chain_at ht i)))))
    ]
  ]

  pub delete_pair-forget : delete_pair (forget ht) key ≡ forget_after (Kvs.delete_pair ht key)
  unfolding delete_pair Kvs.delete_pair
  delete_pair-forget = elim (Run-cases (Kvs.locate ht key)) [
    | inl (why, e) ↦ rw (locate-forget ht key, e)
    | inr (i, e) ↦ elim (Option-cases (Kvs.find_node key (Kvs.chain_at ht i))) [
      | inl absent ↦ rw (locate-forget ht key, e, ◌>>=◌, found_at i, absent)
      | inr (n, found) ↦
          rw (locate-forget ht key, e, ◌>>=◌, found_at i, found)
            (with_status 0 (
              set_at i (Kvs.unlink key (Kvs.chain_at ht i)) _
                (rw (chain_at-forget ht i) (unlink-forget_chain key (Kvs.chain_at ht i)))))
    ]
  ]

-- For every table of the server and every key, and whether `malloc` succeeds or not, forgetting the
-- subscribers commutes with a write, a read and a delete: the operations of the first part, on the
-- table without subscribers, return the same status or value, fault alike, and leave the server's
-- table without subscribers.
pub forget_lem :
    (memory : Option (List ℕ)) (ht : Kvs.HashTable) (key value : Bytes)
    → (write_pair (allocated memory) (forget ht) key value
        ≡ forget_after (Kvs.write_pair memory ht key value))
      × (read_pair (forget ht) key ≡ Kvs.read_pair ht key)
      × (delete_pair (forget ht) key ≡ forget_after (Kvs.delete_pair ht key))
forget_lem memory ht key value =
    (write_pair-forget ht key memory value, read_pair-forget ht key, delete_pair-forget ht key)
