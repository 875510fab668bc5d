-- ===== src/Server/Job/Refinement.antt =====
-- A whole job file, against what its script means.
use so.Common.{
  ℕ, zero, suc, ◌<◌, Option, some, List, [], ◌∷◌, ◌++◌, Bytes, length, Run, ok, ◌≡◌, ◌≢◌, refl, ◌∙◌,
  arith, sym, append_assoc, append-nil,
}
use so.Server.Kvs.{HashTable}
use so.Server.Kvs.Table.{IsValid}
use so.Server.Parser.{Command, eoc, get_next}
use so.Server.Operations.{live}
use so.Server.Operations.Writes.{lookup}
use so.Server.Operations.Deletes.{Map}
use so.Server.Job.{Environment, Job, State, run_command, job_loop, process_job_file, unless_eoc}
use so.Server.Parser.NextWord.{get_next-lt}
use so.Server.Job.Termination.{run_command-le}
use so.Server.Job.Actions.{file_of}
use so.Server.Job.Script.{
  Line, write, read, delete, pause, back_up, show_help, comment, blank, print_line, print_script,
  next_map, answer, final_map, output_file, IsGoodScript,
}
use so.Server.Job.Meaning.{LineRuns}
use so.Server.Job.Lines.{line_runs}

-- The script runs to its end as it means.
pub record ScriptRuns (before : State) (m : Map) (ls : List Line) (run : Option (Run State))
    : Type 0 where
  pub after : State
  pub table : HashTable
  pub returns : run ≡ some (ok after)
  pub stored : after.store ≡ live table
  pub valid : IsValid table
  pub reads : lookup table ≡ final_map ls m
  pub file : file_of after.actions ≡ file_of before.actions ++ output_file ls m

unless_eoc-other :
    (cmd : Command) (st : State) (next : Option (Run State))
    → cmd ≢ eoc
    → unless_eoc cmd st next ≡ next
unless_eoc-other eoc st next h = absurd (h refl)
unless_eoc-other _ st next h = refl

module _ (env : Environment) (job : Job) (fresh : ℕ → ℕ → List ℕ)
    (allocates : (id i : ℕ) → env.memory id i ≡ some (fresh id i)) where
  job_loop-next :
      (fuel : ℕ) (st : State) (s : Bytes) {cmd : Command} {behind rest : Bytes} {after : State}
      → get_next s ≡ (cmd, behind)
      → cmd ≢ eoc
      → run_command env job cmd st behind ≡ ok (after, rest)
      → job_loop env job (suc fuel) st s ≡ job_loop env job fuel after rest
  unfolding job_loop
  job_loop-next fuel st s {cmd} next goes_on run =
      rw (next, run) (unless_eoc-other cmd st _ goes_on)

  print_line-ne_nil : (l : Line) (rest : Bytes) → print_line l rest ≢ []
  unfolding print_line
  print_line-ne_nil (write p ps) rest = λ e. cc
  print_line-ne_nil (read k ks) rest = λ e. cc
  print_line-ne_nil (delete k ks) rest = λ e. cc
  print_line-ne_nil (pause digits) rest = λ e. cc
  print_line-ne_nil back_up rest = λ e. cc
  print_line-ne_nil show_help rest = λ e. cc
  print_line-ne_nil (comment text) rest = λ e. cc
  print_line-ne_nil blank rest = λ e. cc

  -- The command of a line leaves fewer bytes than the line begins.
  line-shorter :
      {st : State} {m : Map} {l : Line} {rest : Bytes}
      → LineRuns env job st m l rest
      → length rest < length (print_line l rest)
  line-shorter {st} {m} {l} {rest} r =
      let taken = (get_next-lt (print_line l rest) (print_line-ne_nil l rest)).1 in
      let left = run_command-le env job r.cmd st r.behind r.means.returns in
      let behind = rw r.next at taken in omega (arith, left, behind)

  -- The loop over a script, with more fuel than bytes.
  job_loop-Means :
      (ls : List Line) (fuel : ℕ) (st : State) {ht : HashTable}
      → st.store ≡ live ht
      → IsValid ht
      → IsGoodScript (lookup ht) ls
      → length (print_script ls) < fuel
      → ScriptRuns st (lookup ht) ls (job_loop env job fuel st (print_script ls))
  unfolding job_loop get_next
  job_loop-Means ls zero st at v good enough = absurd (omega arith)
  job_loop-Means [] (suc fuel) st {ht} at v good enough = record {
    after = st;
    table = ht;
    returns = refl;
    stored = at;
    valid = v;
    reads = refl;
    file = sym (append-nil (file_of st.actions));
  }
  job_loop-Means (l ∷ ls) (suc fuel) st {ht} at v good enough =
      let r = line_runs env job fresh allocates st at v l (print_script ls) good.0 in
      let w = r.means in
      let s =
        job_loop-Means ls fuel w.after w.stored w.valid (rw w.reads good.1)
          (omega (arith, line-shorter r)) in
      record {
        after = s.after;
        table = s.table;
        returns =
            job_loop-next fuel st (print_line l (print_script ls)) r.next r.goes_on w.returns
            ∙ s.returns;
        stored = s.stored;
        valid = s.valid;
        reads = s.reads ∙ rw w.reads;
        file =
            s.file
            ∙ rw (w.file, w.reads)
                (append_assoc (file_of st.actions) (answer l (lookup ht))
                  (output_file ls (next_map l (lookup ht))));
      }

  -- A job file that holds a good script, on a valid table and with memory for new nodes: the server
  -- processes it to its end, with a valid table whose map is that of the script, and an output file
  -- that holds the answers of the script, byte for byte.
  pub process_job_file-ScriptRuns :
      (ls : List Line) (st : State) {ht : HashTable}
      → st.store ≡ live ht
      → IsValid ht
      → IsGoodScript (lookup ht) ls
      → ScriptRuns st (lookup ht) ls (process_job_file env job st (print_script ls))
  unfolding process_job_file
  process_job_file-ScriptRuns ls st at v good =
      job_loop-Means ls (suc (length (print_script ls))) st at v good (omega arith)
