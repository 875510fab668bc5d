-- ===== src/Server/Job.antt =====
-- process_job_file and kvs_backup, and thread_process_files for one file: main.c and operations.c
-- of SOParte2/src/server. What a command does besides changing the table is a list of actions, in
-- order. The environment decides what `malloc`, `fork` and `wait` do at each command, which is
-- named by the number of bytes that are left behind it.
pub mod Termination
pub mod Actions
pub mod Commands
pub mod Script
pub mod SortedKeys
pub mod Meaning
pub mod Lines
pub mod Refinement
pub mod Backups
use so.Common.{
  ℕ, zero, suc, ◌+◌, ◌-◌, ◌*◌, ◌/◌, ◌%◌, ◌==◌, ltb, leb, if◌then◌else◌, Bool, true, false, Option,
  none, some, List, [], ◌∷◌, ◌++◌, Bytes, codes, take, length, map, ℤ, pos, negsuc, Run, ok, fault,
  ◌>>=◌,
}
use so.Server.Kvs.{table_size}
use so.Server.Parser.{
  Command, cmd_write, cmd_read, cmd_delete, cmd_show, cmd_wait, cmd_backup, cmd_help, cmd_empty,
  cmd_invalid, eoc, get_next, parse_write, parse_read_delete, parse_wait, max_write_size, is_int,
}
use so.Server.Sort.{Pair, insertion_sort}
use so.Server.Operations.{
  Store, Lock, global, backups, bucket, Event, rdlock, wrlock, unlock, kvs_write, kvs_read,
  kvs_delete, kvs_show, kvs_wait, keys_of,
}

pub data Action : Type 0 where
  -- a lock of the table, or a write to the output file
  event : Event → Action
  -- `nanosleep`
  sleep : ℕ × ℕ → Action
  -- the child of a backup, with its number: the file that it opens and what it writes there
  child : ℕ → Bytes → Run (List Event) → Action
  -- `wait(NULL)`, which blocks until a child has ended
  await_child : Action
  -- the text of HELP, to the standard output
  help : Action

pub record Environment : Type 0 where
  -- the memory of a new node, by command and place in it
  pub memory : ℕ → ℕ → Option (List ℕ)
  -- whether `fork` makes a child, and whether `wait` reaps one
  pub forks : ℕ → Bool
  pub reaps : ℕ → Bool

-- What does not change while a file is processed.
pub record Job : Type 0 where
  pub max_backups : ℕ
  pub output_dir : Bytes
  pub job_name : Bytes

pub record State : Type 0 where
  pub store : Store
  pub total_backups : ℕ
  pub active_backups : ℕ
  pub actions : List Action

-- `%d` of a number that is not negative; each round takes one digit, so n + 1 rounds are enough.
unfoldable pub decimal_loop : ℕ → ℕ → Bytes → Bytes
decimal_loop zero n acc = acc
decimal_loop (suc fuel) n acc =
    let digits = ((n % 10) + b'0') ∷ acc in
    let more = decimal_loop fuel (n / 10) digits in if ltb n 10 then digits else more

unfoldable pub decimal : ℕ → Bytes
unfolding decimal_loop
decimal n = decimal_loop (suc n) n []

abbrev pub max_job_file_name_size : ℕ
max_job_file_name_size = 256

-- `%.*s` with the precision `(int)(strlen(name) - 4)`; one below zero counts as none.
abbrev pub without_suffix : Bytes → Bytes
without_suffix name = if ltb (length name) 4 then name else take (length name - 4) name

-- `snprintf` keeps what fits with its NUL.
unfoldable pub backup_path : ℕ → Bytes → Bytes → Bytes
unfolding decimal
backup_path backup output_dir job_name =
    take (max_job_file_name_size - 1) (
      output_dir ++ (b'/' ∷ (without_suffix job_name ++ (b'-' ∷ (decimal backup ++ codes ".bck")))))

-- `kvs_backup`, in the child, where `open` succeeds.
unfoldable pub kvs_backup : ℕ → Bytes → Bytes → Store → Action
unfolding backup_path
kvs_backup backup output_dir job_name store =
    child backup (backup_path backup output_dir job_name) (kvs_show false store)

-- The path of the output file in `thread_process_files`.
unfoldable pub output_path : Bytes → Bytes
output_path input_file =
    take (max_job_file_name_size - 1) (without_suffix input_file ++ codes ".out")

abbrev pub add_events : State → Store → List Event → State
add_events st store events = record st { store = store; actions = st.actions ++ map event events }

abbrev pub add_actions : State → List Action → State
add_actions st actions = record st { actions = st.actions ++ actions }

-- The loops over all the bucket locks.
unfoldable pub all_buckets : (Lock → Event) → ℕ → ℕ → List Action
all_buckets kind zero i = []
all_buckets kind (suc n) i = event (kind (bucket i)) ∷ all_buckets kind n (suc i)

-- `insertionSort` on keys: the values beside them are left from an earlier command and not used.
unfoldable pub sort_keys : List Bytes → List Bytes
sort_keys keys = keys_of (insertion_sort (map (λ k. (k, [])) keys))

-- `case EOC` returns; any other command goes on.
abbrev pub unless_eoc : Command → State → Option (Run State) → Option (Run State)
unless_eoc eoc st next = some (ok st)
unless_eoc _ st next = next

abbrev pub resume : (State → Bytes → Option (Run State)) → Run (State × Bytes) → Option (Run State)
resume next (ok (after, left)) = next after left
resume next (fault e) = some (fault e)

-- What CMD_BACKUP does, for whether all backups are in use and whether `fork` makes a child.
abbrev pub backup_actions : Bool → Bool → Action → List Action
backup_actions full forked copy =
    event (wrlock backups)
    ∷ ((if full then await_child ∷ [] else [])
        ++ (all_buckets rdlock table_size 0
            ++ ((if forked then copy ∷ [] else [])
                ++ (all_buckets unlock table_size 0 ++ event (unlock backups) ∷ []))))

module _ (env : Environment) (job : Job) where
  open env use {memory, forks, reaps}

  -- CMD_BACKUP, `id` bytes before the end of the file.
  unfoldable pub backup : ℕ → State → State
  unfolding kvs_backup all_buckets
  backup id st =
      let full = leb job.max_backups st.active_backups in
      let active =
        if full
        then (if reaps id then st.active_backups - 1 else st.active_backups)
        else st.active_backups in
      let number = st.total_backups + 1 in
      let copy = kvs_backup number job.output_dir job.job_name st.store in
      record {
        store = st.store;
        total_backups = number;
        active_backups = active + 1;
        actions = st.actions ++ backup_actions full (forks id) copy;
      }

  -- After a list parser: nothing for an empty list, which is a refused command.
  abbrev pub run_keys :
      (Store → List Bytes → Run (Store × ℕ × List Event))
      → State
      → List Bytes × Bytes
      → Run (State × Bytes)
  run_keys operation st ([], rest) = ok (st, rest)
  run_keys operation st (k ∷ ks, rest) = do
    (after, status, events) ← operation st.store (sort_keys (k ∷ ks))
    ok (add_events st after events, rest)

  abbrev pub run_write : State → List Pair × Bytes → Run (State × Bytes)
  run_write st ([], rest) = ok (st, rest)
  run_write st (p ∷ ps, rest) = do
    (after, status, events) ← kvs_write (memory (length rest)) st.store (insertion_sort (p ∷ ps))
    ok (add_events st after events, rest)

  -- CMD_WAIT sleeps only for a delay above 0.
  abbrev pub run_wait : State → ℤ → Option ℕ → Bytes → State × Bytes
  run_wait st (negsuc _) delay rest = (st, rest)
  run_wait st (pos _) none rest = (st, rest)
  run_wait st (pos _) (some zero) rest = (st, rest)
  run_wait st (pos _) (some (suc n)) rest = (add_actions st (sleep (kvs_wait (suc n)) ∷ []), rest)

  -- The switch, on the bytes behind the word of the command.
  unfoldable pub run_command : Command → State → Bytes → Run (State × Bytes)
  unfolding sort_keys backup
  run_command cmd_write st s = do r ← parse_write max_write_size s; run_write st r
  run_command cmd_read st s = do r ← parse_read_delete max_write_size s; run_keys kvs_read st r
  run_command cmd_delete st s = do r ← parse_read_delete max_write_size s; run_keys kvs_delete st r
  run_command cmd_show st s = do
    events ← kvs_show false st.store
    ok (add_events st st.store events, s)
  run_command cmd_wait st s = do w ← parse_wait s; ok (run_wait st w.status w.delay w.rest)
  run_command cmd_backup st s = ok (backup (length s) st, s)
  run_command cmd_help st s = ok (add_actions st (help ∷ []), s)
  run_command cmd_empty st s = ok (st, s)
  run_command cmd_invalid st s = ok (st, s)
  run_command eoc st s = ok (st, s)

  -- The loop, on fuel; `none` means that the fuel ran out.
  unfoldable pub job_loop : ℕ → State → Bytes → Option (Run State)
  job_loop zero st s = none
  job_loop (suc fuel) st s =
      let (cmd, rest) = get_next s in
      let next = resume (job_loop fuel) (run_command cmd st rest) in unless_eoc cmd st next

  -- Where both files open.
  unfoldable pub process_job_file : State → Bytes → Option (Run State)
  unfolding job_loop
  process_job_file st input = job_loop (suc (length input)) st input
