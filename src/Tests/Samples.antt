-- ===== src/Tests/Samples.antt =====
-- The table and the key that the runs start from.
use so.Common.{
  ℕ, Option, none, some, strcmp, List, [], ◌∷◌, Bytes, codes, pos, IsText, arith, ◌≡◌, refl, ◌∙◌,
  str_eq_refl,
}
use so.Server.Kvs.{KeyNode, HashTable, hash, write_pair}
use so.Server.Kvs.Table.{IsValid, node_of, create_hash_table-IsValid}
use so.Server.Kvs.Write.{Sets, written, write_pair-Sets}

abbrev pub empty_table : HashTable
empty_table = create_hash_table-IsValid.0

abbrev pub key_a : Bytes
key_a = codes "ab"

pub key_a-hash : hash key_a ≡ pos 0
unfolding hash
key_a-hash = refl

abbrev pub memory_fds : List ℕ
memory_fds = 0 ∷ 9 ∷ 0 ∷ []

pub written_a :
    Sets empty_table key_a
      (some (written memory_fds key_a (codes "1") (node_of empty_table key_a)))
      0
      (write_pair (some memory_fds) empty_table key_a (codes "1"))
written_a = write_pair-Sets create_hash_table-IsValid.2 key_a key_a-hash memory_fds (codes "1")

abbrev pub sample : HashTable
sample = written_a.after

pub sample-IsValid : IsValid sample
sample-IsValid = written_a.valid

abbrev pub node_a : KeyNode
node_a = record { key = key_a; value = codes "1"; subscriber_fds = memory_fds }

pub node_of-sample : node_of sample key_a ≡ some node_a
node_of-sample = written_a.reads key_a ∙ rw (str_eq_refl, create_hash_table-IsValid.3 key_a)

pub key_a-IsText : IsText key_a
key_a-IsText = omega arith

abbrev pub memory_of : ℕ → Option (List ℕ)
memory_of i = some memory_fds

abbrev pub key_b : Bytes
key_b = codes "b"

pub key_b-hash : hash key_b ≡ pos 1
unfolding hash
key_b-hash = refl

pub node_of-key_b : node_of sample key_b ≡ none
unfolding strcmp
node_of-key_b = written_a.reads key_b ∙ create_hash_table-IsValid.3 key_b
