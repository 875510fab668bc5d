-- ===== src/Server/Job/Commands.antt =====
-- A WRITE line of a job file, from its bytes to the table.
use so.Common.{
  ℕ, ◌<◌, some, List, ◌∷◌, Bytes, All, length, Run, ok, ◌>>=◌, ◌≡◌, refl, ◌∙◌, append-nil,
}
use so.Server.Kvs.{HashTable}
use so.Server.Kvs.Table.{IsValid}
use so.Server.Parser.{cmd_write, max_write_size}
use so.Server.Parser.Lists.{IsPairItem, print_pairs, parse_write-print_pairs}
use so.Server.Sort.{Pair, insertion_sort}
use so.Server.Sort.Laws.{All-insertion_sort}
use so.Server.Operations.{live}
use so.Server.Operations.Locks.{HasBucket}
use so.Server.Operations.Writes.{lookup, last_value, last_value-insertion_sort, kvs_write-KvsWrote}
use so.Server.Job.Actions.{file_of, file_of-add_events}
use so.Server.Job.{Environment, Job, State, run_command, add_events}

-- The command ends with the bytes behind its line, and with a valid table in which every key has
-- the last value that the line gives it. It writes nothing.
pub record Wrote (before : State) (ps : List Pair) (ht : HashTable) (rest : Bytes)
    (run : Run (State × Bytes)) : Type 0 where
  pub after : State
  pub table : HashTable
  pub returns : run ≡ ok (after, rest)
  pub stored : after.store ≡ live table
  pub valid : IsValid table
  pub reads : (q : Bytes) → lookup table q ≡ last_value q ps (lookup ht q)
  pub file : file_of after.actions ≡ file_of before.actions

-- A printed WRITE line, fewer than 256 pairs whose keys have buckets, on a valid table and with
-- memory for the new nodes: the pairs take effect as if written in the order of the line.
pub run_command-write :
    (env : Environment) (job : Job) (fresh : ℕ → ℕ → List ℕ)
    → ((id i : ℕ) → env.memory id i ≡ some (fresh id i))
    → (st : State) {ht : HashTable} → st.store ≡ live ht
    → IsValid ht
    → (p : Pair) (ps : List Pair) (rest : Bytes) → All IsPairItem (p ∷ ps)
    → All (λ q. HasBucket q.0) (p ∷ ps)
    → length (p ∷ ps) < max_write_size
    → Wrote st
        (p ∷ ps)
        ht
        rest
        (run_command env job cmd_write st (b'[' ∷ b'(' ∷ print_pairs (p ∷ ps) (b'\n' ∷ rest)))
unfolding run_command
run_command-write env job fresh allocates st {ht} at v p ps rest items hashed few =
    let id = length rest in
    let w =
      kvs_write-KvsWrote (env.memory id) (fresh id) (allocates id) (insertion_sort (p ∷ ps)) v
        (All-insertion_sort (λ q. HasBucket q.0) (p ∷ ps) hashed) in
    record {
      after = add_events st (live w.after) w.events;
      table = w.after;
      returns =
          rw (parse_write-print_pairs max_write_size p ps rest items few, ◌>>=◌, at, w.returns);
      stored = refl;
      valid = w.valid;
      reads = λ q. w.reads q ∙ last_value-insertion_sort q (p ∷ ps) (lookup ht q);
      file =
          file_of-add_events st (live w.after) w.events
          ∙ rw w.silent (append-nil (file_of st.actions));
    }
