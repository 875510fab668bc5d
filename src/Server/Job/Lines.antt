-- ===== src/Server/Job/Lines.antt =====
-- Each line of a job file, against what it means.
use so.Common.{
  ℕ, some, List, [], ◌∷◌, ◌++◌, Bytes, length, Run, ok, ◌>>=◌, ◌≡◌, inl, refl, ◌∙◌, sym, append-nil,
  ap,
}
use so.Server.Kvs.{HashTable}
use so.Server.Kvs.Table.{IsValid}
use so.Server.Parser.{cmd_empty, cmd_wait, cmd_backup, cmd_help}
use so.Server.Parser.Words.{get_next-word_of, get_next-line}
use so.Server.Operations.{live}
use so.Server.Operations.Writes.{lookup}
use so.Server.Job.{add_actions, Environment, Job, State, run_command}
use so.Server.Parser.Wait.{parse_wait-number}
use so.Input.Numbers.{value_of}
use so.Server.Job.Actions.{
  file_of, file_of-append, waited, run_wait-waited, waited-store, file_of-waited, file_of-backup,
}
use so.Server.Job.{backup, help}
use so.Server.Job.Script.{
  Line, write, read, delete, pause, back_up, show_help, comment, blank, print_line, IsGood,
}
use so.Server.Job.Meaning.{Means, LineRuns, write_runs, read_runs, delete_runs}

module _ (env : Environment) (job : Job) (fresh : ℕ → ℕ → List ℕ)
    (allocates : (id i : ℕ) → env.memory id i ≡ some (fresh id i)) where
  module _ (st : State) {ht : HashTable} (at : st.store ≡ live ht) (v : IsValid ht) where
    unchanged :
        (rest : Bytes) {run : Run (State × Bytes)}
        → run ≡ ok (st, rest)
        → Means st (lookup ht) [] rest run
    unchanged rest e = record {
      after = st;
      table = ht;
      returns = e;
      stored = at;
      valid = v;
      reads = refl;
      file = sym (append-nil (file_of st.actions));
    }

    pause_runs :
        (digits : Bytes) (rest : Bytes)
        → IsGood (lookup ht) (pause digits)
        → LineRuns env job st (lookup ht) (pause digits) rest
    unfolding print_line run_command
    pause_runs digits rest (number, short, fits) = record {
      cmd = cmd_wait;
      behind = digits ++ b'\n' ∷ rest;
      next = get_next-word_of cmd_wait _ tt;
      goes_on = λ e. cc;
      means = record {
        after = waited st (value_of digits);
        table = ht;
        returns =
            rw (parse_wait-number digits rest number short fits, ◌>>=◌)
              (ap ok (run_wait-waited env job st (value_of digits) rest));
        stored = waited-store st (value_of digits) ∙ at;
        valid = v;
        reads = refl;
        file = file_of-waited st (value_of digits);
      };
    }

    back_up_runs :
        (rest : Bytes) → IsGood (lookup ht) back_up → LineRuns env job st (lookup ht) back_up rest
    unfolding print_line run_command
    back_up_runs rest one = record {
      cmd = cmd_backup;
      behind = rest;
      next = get_next-word_of cmd_backup rest tt;
      goes_on = λ e. cc;
      means = record {
        after = backup env job (length rest) st;
        table = ht;
        returns = refl;
        stored = at;
        valid = v;
        reads = refl;
        file = file_of-backup env job (length rest) st;
      };
    }

    show_help_runs :
        (rest : Bytes)
        → IsGood (lookup ht) show_help
        → LineRuns env job st (lookup ht) show_help rest
    unfolding print_line run_command
    show_help_runs rest one = record {
      cmd = cmd_help;
      behind = rest;
      next = get_next-word_of cmd_help rest tt;
      goes_on = λ e. cc;
      means = record {
        after = add_actions st (help ∷ []);
        table = ht;
        returns = refl;
        stored = at;
        valid = v;
        reads = refl;
        file = file_of-append st.actions (help ∷ []);
      };
    }

    comment_runs :
        (text : Bytes) (rest : Bytes)
        → IsGood (lookup ht) (comment text)
        → LineRuns env job st (lookup ht) (comment text) rest
    unfolding print_line run_command
    comment_runs text rest one = record {
      cmd = cmd_empty;
      behind = rest;
      next = get_next-line b'#' text rest (inl refl) one;
      goes_on = λ e. cc;
      means = unchanged rest refl;
    }

    blank_runs :
        (rest : Bytes) → IsGood (lookup ht) blank → LineRuns env job st (lookup ht) blank rest
    unfolding print_line run_command
    blank_runs rest one = record {
      cmd = cmd_empty;
      behind = rest;
      next = get_next-word_of cmd_empty rest tt;
      goes_on = λ e. cc;
      means = unchanged rest refl;
    }

    pub line_runs :
        (l : Line) (rest : Bytes) → IsGood (lookup ht) l → LineRuns env job st (lookup ht) l rest
    line_runs (write p ps) rest good = write_runs env job fresh allocates st at v p ps rest good
    line_runs (read k ks) rest good = read_runs env job fresh allocates st at v k ks rest good
    line_runs (delete k ks) rest good = delete_runs env job fresh allocates st at v k ks rest good
    line_runs (pause digits) rest good = pause_runs digits rest good
    line_runs back_up rest good = back_up_runs rest good
    line_runs show_help rest good = show_help_runs rest good
    line_runs (comment text) rest good = comment_runs text rest good
    line_runs blank rest good = blank_runs rest good
