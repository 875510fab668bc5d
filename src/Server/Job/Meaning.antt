-- ===== src/Server/Job/Meaning.antt =====
-- The lines of a job file with pairs or keys, against what they mean.
use mathlib.Core.Path.{fun_ext}
use so.Common.{
  ℕ, some, List, ◌∷◌, ◌++◌, Bytes, Run, ok, ◌>>=◌, ◌≡◌, ◌≢◌, refl, ◌∙◌, sym, append-nil, ap,
}
use so.Server.Kvs.{HashTable}
use so.Server.Kvs.Table.{IsValid}
use so.Server.Parser.{Command, cmd_write, cmd_read, cmd_delete, eoc, get_next, max_write_size}
use so.Server.Parser.Words.{get_next-word_of}
use so.Server.Parser.Lists.{parse_read_delete-print_keys}
use so.Server.Operations.{live}
use so.Server.Operations.Writes.{lookup}
use so.Server.Operations.Replies.{kvs_read-KvsRead, read_events}
use so.Server.Operations.Deletes.{Map, kvs_delete-KvsDeleted}
use so.Server.Job.{Environment, Job, State, run_command, add_events, sort_keys}
use so.Server.Job.Actions.{file_of, file_of-add_events}
use so.Server.Job.Commands.{run_command-write}
use so.Server.Job.Script.{Line, write, read, delete, print_line, next_map, answer, IsGood}
use so.Server.Job.SortedKeys.{All-sort_keys, All-missing_keys}
use so.Server.Sort.{Pair}

-- A run that ends with a valid table for the map, and the output behind what was there.
pub record Means (before : State) (m : Map) (out rest : Bytes) (run : Run (State × Bytes))
    : Type 0 where
  pub after : State
  pub table : HashTable
  pub returns : run ≡ ok (after, rest)
  pub stored : after.store ≡ live table
  pub valid : IsValid table
  pub reads : lookup table ≡ m
  pub file : file_of after.actions ≡ file_of before.actions ++ out

-- The line is recognised, and its command does what the line means.
pub record LineRuns (env : Environment) (job : Job) (st : State) (m : Map) (l : Line) (rest : Bytes)
    : Type 0 where
  pub cmd : Command
  pub behind : Bytes
  pub next : get_next (print_line l rest) ≡ (cmd, behind)
  pub goes_on : cmd ≢ eoc
  pub means : Means st (next_map l m) (answer l m) rest (run_command env job cmd st behind)

module _ (env : Environment) (job : Job) (fresh : ℕ → ℕ → List ℕ)
    (allocates : (id i : ℕ) → env.memory id i ≡ some (fresh id i)) where
  module _ (st : State) {ht : HashTable} (at : st.store ≡ live ht) (v : IsValid ht) where
    pub write_runs :
        (p : Pair) (ps : List Pair) (rest : Bytes)
        → IsGood (lookup ht) (write p ps)
        → LineRuns env job st (lookup ht) (write p ps) rest
    unfolding print_line run_command
    write_runs p ps rest (items, hashed, few) =
        let w = run_command-write env job fresh allocates st at v p ps rest items hashed few in
        record {
          cmd = cmd_write;
          behind = _;
          next = get_next-word_of cmd_write _ tt;
          goes_on = λ e. cc;
          means = record {
            after = w.after;
            table = w.table;
            returns = w.returns;
            stored = w.stored;
            valid = w.valid;
            reads = fun_ext w.reads;
            file = w.file ∙ sym (append-nil (file_of st.actions));
          };
        }

    pub read_runs :
        (k : Bytes) (ks : List Bytes) (rest : Bytes)
        → IsGood (lookup ht) (read k ks)
        → LineRuns env job st (lookup ht) (read k ks) rest
    unfolding print_line run_command
    read_runs k ks rest (items, hashed, few, short) =
        let r =
          kvs_read-KvsRead v (sort_keys (k ∷ ks)) (All-sort_keys _ (k ∷ ks) hashed)
            (All-sort_keys _ (k ∷ ks) short) in
        let events = read_events r.locks ht (sort_keys (k ∷ ks)) r.unlocks in
        record {
          cmd = cmd_read;
          behind = _;
          next = get_next-word_of cmd_read _ tt;
          goes_on = λ e. cc;
          means = record {
            after = add_events st (live ht) events;
            table = ht;
            returns = rw (
              parse_read_delete-print_keys max_write_size k ks rest items few,
              ◌>>=◌,
              at,
              r.returns,
            );
            stored = refl;
            valid = v;
            reads = refl;
            file =
                file_of-add_events st (live ht) events
                ∙ ap (λ s. file_of st.actions ++ s) r.answers;
          };
        }

    pub delete_runs :
        (k : Bytes) (ks : List Bytes) (rest : Bytes)
        → IsGood (lookup ht) (delete k ks)
        → LineRuns env job st (lookup ht) (delete k ks) rest
    unfolding print_line run_command
    delete_runs k ks rest (items, hashed, few, short) =
        let d =
          kvs_delete-KvsDeleted (sort_keys (k ∷ ks)) v (All-sort_keys _ (k ∷ ks) hashed) (
            All-missing_keys _ (sort_keys (k ∷ ks)) (lookup ht) (All-sort_keys _ (k ∷ ks) short)) in
        record {
          cmd = cmd_delete;
          behind = _;
          next = get_next-word_of cmd_delete _ tt;
          goes_on = λ e. cc;
          means = record {
            after = add_events st (live d.after) d.events;
            table = d.after;
            returns = rw (
              parse_read_delete-print_keys max_write_size k ks rest items few,
              ◌>>=◌,
              at,
              d.returns,
            );
            stored = refl;
            valid = d.valid;
            reads = d.reads;
            file =
                file_of-add_events st (live d.after) d.events
                ∙ ap (λ s. file_of st.actions ++ s) d.answers;
          };
        }
