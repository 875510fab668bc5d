-- ===== src/Stages/Second.antt =====
-- SO-Parte1/grupo5-ex2: main.c, and kvs_backup of operations.c, whose other functions are those of
-- grupo5-ex1. A backup is written by a child process.
pub mod Directory
pub mod Unbounded
use so.Common.{
  ℕ, zero, suc, ◌+◌, ◌-◌, ltb, leb, if◌then◌else◌, Bool, true, false, Option, none, some, List, [],
  ◌∷◌, ◌++◌, Bytes, codes, take, length, Run, ok, fault, ◌>>=◌,
}
use so.Server.Parser.{
  Command, cmd_write, cmd_read, cmd_delete, cmd_show, cmd_wait, cmd_backup, cmd_help, cmd_empty,
  cmd_invalid, eoc, get_next,
}
use so.Server.Job.{decimal}
use so.Stages.First.{Store, null, kvs_init, kvs_terminate, kvs_show}
use so.Stages.First.Job

-- A child: the file that it opens, without O_TRUNC, and what it writes there from the start.
pub record Child : Type 0 where
  pub path : Bytes
  pub text : Run Bytes

pub record State : Type 0 where
  pub first : Job.State
  pub num_backups : ℕ
  pub active_backups : ℕ
  pub children : List Child

-- What does not change while a file is processed: the memory, and whether `fork` makes a child, by
-- the number of bytes that are left behind the command.
pub record Environment : Type 0 where
  pub memory : ℕ → ℕ → Bool
  pub forks : ℕ → Bool
  pub output_dir : Bytes
  pub job_name : Bytes

-- `%s/%.*s-%d.bck`, cut by `snprintf`
unfoldable pub backup_output_path : ℕ → Bytes → Bytes → Bytes
backup_output_path backup output_dir job_name = take (Job.max_job_file_name_size - 1) (
    output_dir
    ++ b'/' ∷ (take (length job_name - 4) job_name ++ b'-' ∷ (decimal backup ++ codes ".bck")))

unfoldable pub kvs_backup : ℕ → Bytes → Bytes → Store → Child
unfolding backup_output_path
kvs_backup backup output_dir job_name store = record {
  path = backup_output_path backup output_dir job_name;
  text = kvs_show store;
}

-- CMD_BACKUP. Where `max_backups` are active the code has only a comment.
unfoldable pub backup : Environment → ℕ → ℕ → State → State
unfolding kvs_backup
backup env max_backups id st =
    let active =
      if leb max_backups st.active_backups then st.active_backups else st.active_backups in
    let child = kvs_backup (st.num_backups + 1) env.output_dir env.job_name st.first.store in
    record {
      first = st.first;
      num_backups = st.num_backups + 1;
      active_backups = active + 1;
      children = if env.forks id then st.children ++ child ∷ [] else st.children;
    }

-- The other cases of the switch are those of the first exercise.
abbrev pub as_first : Environment → Command → State → Bytes → Run (State × Bytes)
as_first env cmd st s = do
  (after, left) ← Job.run_command env.memory cmd st.first s
  ok (record st { first = after }, left)

unfoldable pub run_command : Environment → ℕ → Command → State → Bytes → Run (State × Bytes)
unfolding backup
run_command env max_backups cmd_backup st s = ok (backup env max_backups (length s) st, s)
run_command env max_backups cmd_write st s = as_first env cmd_write st s
run_command env max_backups cmd_read st s = as_first env cmd_read st s
run_command env max_backups cmd_delete st s = as_first env cmd_delete st s
run_command env max_backups cmd_show st s = as_first env cmd_show st s
run_command env max_backups cmd_wait st s = as_first env cmd_wait st s
run_command env max_backups cmd_help st s = as_first env cmd_help st s
run_command env max_backups cmd_empty st s = ok (st, s)
run_command env max_backups cmd_invalid st s = ok (st, s)
run_command env max_backups eoc st s = ok (st, s)

-- `case EOC` returns; any other command goes on.
abbrev pub unless_eoc : Command → State → Option (Run State) → Option (Run State)
unless_eoc eoc st next = some (ok st)
unless_eoc _ st next = next

abbrev pub resume : (State → Bytes → Option (Run State)) → Run (State × Bytes) → Option (Run State)
resume next (ok (after, left)) = next after left
resume next (fault e) = some (fault e)

-- The loop, on fuel; `none` means that the fuel ran out.
unfoldable pub job_loop : Environment → ℕ → ℕ → State → Bytes → Option (Run State)
job_loop env max_backups zero st s = none
job_loop env max_backups (suc fuel) st s =
    let (cmd, rest) = get_next s in
    let next = resume (job_loop env max_backups fuel) (run_command env max_backups cmd st rest) in
    unless_eoc cmd st next

-- On what `open` gives for the two files: the counters start at 0 in each file.
unfoldable pub process_job_file :
    Environment → ℕ → Option Bytes → Bool → Job.State → Option (Run State)
unfolding job_loop
process_job_file env max_backups none opens st =
    some (ok (record { first = st; num_backups = 0; active_backups = 0; children = [] }))
process_job_file env max_backups (some input) opens st =
    let fresh : State = record { first = st; num_backups = 0; active_backups = 0; children = [] } in
    let run = job_loop env max_backups (suc (length input)) fresh input in
    if opens then run else some (ok fresh)

-- After `kvs_init`, `atoi(argv[2])`: the directory, the time it took, and `kvs_terminate`.
abbrev pub run_directory : (Store → Option (Run Store)) → Store × ℕ → Option (Run ℕ)
run_directory directory (store, suc n) = some (ok 1)
run_directory directory (store, zero) = elim (directory store) [
  | none ↦ none
  | some (fault why) ↦ some (fault why)
  | some (ok after) ↦ some (do (gone, status) ← kvs_terminate after; ok 0)
]

unfoldable pub second_main : ℕ → Bool → (Store → Option (Run Store)) → Option (Run ℕ)
second_main argc allocated directory =
    let ends = run_directory directory (kvs_init allocated null) in
    if ltb argc 3 then some (ok 1) else ends
