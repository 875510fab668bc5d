-- ===== src/Stages/Third/Job.antt =====
-- process_job_file, process_job_directory and the body of thread_process_files of
-- SO-Parte1/grupo5-ex3/main.c. The parser is that of the server but for the spelling of one loop, and
-- the sort is that of the server. The actions are of the same kinds as in the server's job files.
use so.Common.{
  ℕ, zero, suc, ◌+◌, ◌-◌, leb, ltb, if◌then◌else◌, Bool, Option, none, some, List, [], ◌∷◌, ◌++◌,
  Bytes, codes, take, length, map, ℤ, pos, negsuc, Run, ok, fault, out_of_bounds, ◌>>=◌,
}
use so.Server.Parser.{
  Command, cmd_write, cmd_read, cmd_delete, cmd_show, cmd_wait, cmd_backup, cmd_help, cmd_empty,
  cmd_invalid, eoc, get_next, parse_write, parse_read_delete, parse_wait,
}
use so.Server.Sort.{Pair, insertion_sort}
use so.Server.Operations.{Lock, bucket, backups, Event, rdlock, wrlock, unlock}
use so.Server.Job.{Action, event, sleep, await_child, help, Job}
use so.Server.Directory.{has_job, job_path}
use so.Stages.Table.{table_size}
use so.Stages.First.{Store, kvs_wait}
use so.Stages.Third.{max_job_file_name_size, kvs_show, kvs_backup}
use so.Stages.Third.Operations.{keys_of, kvs_write, kvs_read, kvs_delete}

abbrev pub max_write_size : ℕ
max_write_size = 1024

pub record Environment : Type 0 where
  -- whether `malloc` gives memory for a new node, by command and place in it
  pub memory : ℕ → ℕ → Bool
  -- whether `fork` makes a child, and whether `wait` reaps one
  pub forks : ℕ → Bool
  pub reaps : ℕ → Bool

pub record State : Type 0 where
  pub store : Store
  pub total_backups : ℕ
  pub active_backups : ℕ
  pub actions : List Action

abbrev pub add_events : State → Store → List Event → State
add_events st store events = record st { store = store; actions = st.actions ++ map event events }

abbrev pub add_actions : State → List Action → State
add_actions st actions = record st { actions = st.actions ++ actions }

-- The loops over all the bucket locks.
unfoldable pub all_buckets : (Lock → Event) → ℕ → ℕ → List Action
all_buckets kind zero i = []
all_buckets kind (suc n) i = event (kind (bucket i)) ∷ all_buckets kind n (suc i)

-- `insertionSort` on keys: the values beside them are left from an earlier command and not used.
unfoldable pub sort_keys : List Bytes → List Bytes
sort_keys keys = keys_of (insertion_sort (map (λ k. (k, [])) keys))

-- `case EOC` returns; any other command goes on.
abbrev pub unless_eoc : Command → State → Option (Run State) → Option (Run State)
unless_eoc eoc st next = some (ok st)
unless_eoc _ st next = next

abbrev pub resume : (State → Bytes → Option (Run State)) → Run (State × Bytes) → Option (Run State)
resume next (ok (after, left)) = next after left
resume next (fault e) = some (fault e)

-- What CMD_BACKUP does, for whether all backups are in use and whether `fork` makes a child.
abbrev pub backup_actions : Bool → Bool → Action → List Action
backup_actions full forked copy =
    event (wrlock backups)
    ∷ ((if full then await_child ∷ [] else [])
        ++ (all_buckets rdlock table_size 0
            ++ ((if forked then copy ∷ [] else [])
                ++ (all_buckets unlock table_size 0 ++ event (unlock backups) ∷ []))))

-- After a list parser: nothing for an empty list, which is a refused command.
abbrev pub run_keys :
    (Store → List Bytes → Run (Store × ℕ × List Event))
    → State
    → List Bytes × Bytes
    → Run (State × Bytes)
run_keys operation st ([], rest) = ok (st, rest)
run_keys operation st (k ∷ ks, rest) = do
  (after, status, events) ← operation st.store (sort_keys (k ∷ ks))
  ok (add_events st after events, rest)

-- CMD_WAIT sleeps only for a delay above 0.
abbrev pub run_wait : State → ℤ → Option ℕ → Bytes → State × Bytes
run_wait st (negsuc _) delay rest = (st, rest)
run_wait st (pos _) none rest = (st, rest)
run_wait st (pos _) (some zero) rest = (st, rest)
run_wait st (pos _) (some (suc n)) rest = (add_actions st (sleep (kvs_wait (suc n)) ∷ []), rest)

module _ (env : Environment) (job : Job) where
  open env use {memory, forks, reaps}

  -- CMD_BACKUP, `id` bytes before the end of the file.
  unfoldable pub backup : ℕ → State → State
  unfolding kvs_backup all_buckets
  backup id st =
      let full = leb job.max_backups st.active_backups in
      let active =
        if full
        then (if reaps id then st.active_backups - 1 else st.active_backups)
        else st.active_backups in
      let number = st.total_backups + 1 in
      let copy = kvs_backup number job.output_dir job.job_name st.store in
      record {
        store = st.store;
        total_backups = number;
        active_backups = active + 1;
        actions = st.actions ++ backup_actions full (forks id) copy;
      }

  abbrev pub run_write : State → List Pair × Bytes → Run (State × Bytes)
  run_write st ([], rest) = ok (st, rest)
  run_write st (p ∷ ps, rest) = do
    (after, status, events) ← kvs_write (memory (length rest)) st.store (insertion_sort (p ∷ ps))
    ok (add_events st after events, rest)

  -- The switch, on the bytes behind the word of the command.
  unfoldable pub run_command : Command → State → Bytes → Run (State × Bytes)
  unfolding sort_keys backup
  run_command cmd_write st s = do r ← parse_write max_write_size s; run_write st r
  run_command cmd_read st s = do r ← parse_read_delete max_write_size s; run_keys kvs_read st r
  run_command cmd_delete st s = do r ← parse_read_delete max_write_size s; run_keys kvs_delete st r
  run_command cmd_show st s = do events ← kvs_show st.store; ok (add_events st st.store events, s)
  run_command cmd_wait st s = do w ← parse_wait s; ok (run_wait st w.status w.delay w.rest)
  run_command cmd_backup st s = ok (backup (length s) st, s)
  run_command cmd_help st s = ok (add_actions st (help ∷ []), s)
  run_command cmd_empty st s = ok (st, s)
  run_command cmd_invalid st s = ok (st, s)
  run_command eoc st s = ok (st, s)

  -- The loop, on fuel; `none` means that the fuel ran out.
  unfoldable pub job_loop : ℕ → State → Bytes → Option (Run State)
  job_loop zero st s = none
  job_loop (suc fuel) st s =
      let (cmd, rest) = get_next s in
      let next = resume (job_loop fuel) (run_command cmd st rest) in unless_eoc cmd st next

  -- On what `open` gives for the two files; `total_backups` starts at 0 in each file, and
  -- `active_backups` is shared.
  unfoldable pub process_job_file : State → Option Bytes → Bool → Option (Run State)
  unfolding job_loop
  process_job_file st none opens = some (ok st)
  process_job_file st (some input) opens =
      let run = job_loop (suc (length input)) (record st { total_backups = 0 }) input in
      if opens then run else some (ok st)

-- `%.*s.out` without the last four bytes, cut by `snprintf`
unfoldable pub output_file : Bytes → Bytes
output_file input_file =
    take (max_job_file_name_size - 1) (take (length input_file - 4) input_file ++ codes ".out")

-- The loop over the entries, as in the server, with its own bounds.
unfoldable pub collect : Bytes → ℕ → List Bytes → Run (List Bytes)
unfolding has_job
collect input_dir count [] = ok []
collect input_dir count (name ∷ names) =
    let path = job_path input_dir name in
    let stored = (do files ← collect input_dir (suc count) names; ok (path ∷ files)) in
    let skipped = collect input_dir count names in
    if has_job name
    then (if ltb count max_write_size
        then (if ltb (length path) max_job_file_name_size then stored else skipped)
        else fault out_of_bounds)
    else skipped

unfoldable pub process_job_directory : Bytes → List Bytes → Run (List Bytes)
unfolding collect
process_job_directory input_dir names = collect input_dir 0 names
