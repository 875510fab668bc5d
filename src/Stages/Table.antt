-- ===== src/Stages/Table.antt =====
-- SO-Parte1/grupo5-ex1/kvs.c and kvs.h, which grupo5-ex2 has word for word and grupo5-ex3 but for
-- comments and names: the hash table, whose nodes have no subscribers yet.
pub mod Forget
use so.Common.{
  ℕ, zero, suc, ◌-◌, ◌==◌, leb, if◌then◌else◌, ◌&&◌, Bool, true, false, Option, none, some, List,
  [], ◌∷◌, ◌++◌, Bytes, str_eq, ℤ, pos, negsuc, Run, ok, fault, null_pointer, in_bounds, length,
  get_or, set, replicate, ◌>>=◌,
}
use so.Server.Kvs.{tolower, first_byte}

abbrev pub table_size : ℕ
table_size = 26

pub record KeyNode : Type 0 where
  pub key : Bytes
  pub value : Bytes

abbrev pub Chain : Type 0
Chain = List KeyNode

pub record HashTable : Type 0 where
  pub table : List Chain

abbrev pub index_of_letter : ℕ → ℤ
index_of_letter c =
    if leb b'a' c && leb c b'z'
    then pos (c - b'a')
    else if leb b'0' c && leb c b'9'
    then pos (c - b'0')
    else negsuc 0

unfoldable pub hash : Bytes → ℤ
hash key = index_of_letter (tolower (first_byte key))

-- The argument says whether `malloc` succeeds.
unfoldable pub create_hash_table : Bool → Option HashTable
create_hash_table true = some (record { table = replicate table_size [] })
create_hash_table false = none

abbrev pub chain_at : HashTable → ℕ → Chain
chain_at ht i = get_or ht.table i []

abbrev pub set_chain : HashTable → ℕ → Chain → HashTable
set_chain ht i c = record { table = set ht.table i c }

-- `ht->table[hash(key)]`, by its index
abbrev pub locate : HashTable → Bytes → Run ℕ
locate ht key = in_bounds (hash key) (length ht.table)

-- The first node with the key.
unfoldable pub find_node : Bytes → Chain → Option KeyNode
find_node key [] = none
find_node key (n ∷ c) = if str_eq n.key key then some n else find_node key c

-- The value of the first node with the key is freed and copied anew.
unfoldable pub replace_value : Bytes → Bytes → Chain → Chain
replace_value key value [] = []
replace_value key value (n ∷ c) =
    if str_eq n.key key then record n { value = value } ∷ c else n ∷ replace_value key value c

unfoldable pub unlink : Bytes → Chain → Chain
unlink key [] = []
unlink key (n ∷ c) = if str_eq n.key key then c else n ∷ unlink key c

-- `malloc` for the new node is not checked.
unfoldable pub write_pair : Bool → HashTable → Bytes → Bytes → Run (HashTable × ℕ)
write_pair allocated ht key value = do
  i ← locate ht key
  elim (find_node key (chain_at ht i)) [
    | some _ ↦ ok (set_chain ht i (replace_value key value (chain_at ht i)), 0)
    | none ↦
        if allocated
        then ok (set_chain ht i (record { key = key; value = value } ∷ chain_at ht i), 0)
        else fault null_pointer
  ]

-- `none` is the NULL that a missing key gives.
unfoldable pub read_pair : HashTable → Bytes → Run (Option Bytes)
read_pair ht key = do
  i ← locate ht key
  elim (find_node key (chain_at ht i)) [ some n ↦ ok (some n.value) | none ↦ ok none ]

unfoldable pub delete_pair : HashTable → Bytes → Run (HashTable × ℕ)
delete_pair ht key = do
  i ← locate ht key
  elim (find_node key (chain_at ht i)) [
    | some _ ↦ ok (set_chain ht i (unlink key (chain_at ht i)), 0)
    | none ↦ ok (ht, 1)
  ]

-- The nodes that `free_table` frees, in order, before the table.
unfoldable pub freed_nodes : List Chain → List KeyNode
freed_nodes [] = []
freed_nodes (c ∷ cs) = c ++ freed_nodes cs

unfoldable pub free_table : HashTable → List KeyNode
unfolding freed_nodes
free_table ht = freed_nodes ht.table
