-- ===== src/Stages/First/Job.antt =====
-- SO-Parte1/grupo5-ex1/main.c: job files, one after the other, on one table. The parser is
-- SO-Parte1/grupo5-ex1/parser.c, which is that of the server but for the spelling of one loop.
use so.Common.{
  ℕ, zero, suc, ◌-◌, ltb, if◌then◌else◌, Bool, Option, none, some, List, [], ◌∷◌, ◌++◌, Bytes,
  codes, take, length, ℤ, pos, negsuc, Run, ok, fault, ◌>>=◌,
}
use so.Server.Parser.{
  Command, cmd_write, cmd_read, cmd_delete, cmd_show, cmd_wait, cmd_backup, cmd_help, cmd_empty,
  cmd_invalid, eoc, get_next, parse_write, parse_read_delete, parse_wait,
}
use so.Server.Sort.{Pair}
use so.Server.Directory.{has_job}
use so.Stages.First.{
  Store, null, kvs_init, kvs_terminate, kvs_write, kvs_read, kvs_delete, kvs_show, kvs_wait,
}

-- constants.h
abbrev pub max_write_size : ℕ
max_write_size = 1024

abbrev pub max_job_file_name_size : ℕ
max_job_file_name_size = 1024

-- What a file does besides changing the table, in order.
pub data Action : Type 0 where
  print : Bytes → Action
  sleep : ℕ × ℕ → Action
  help : Action

pub record State : Type 0 where
  pub store : Store
  pub actions : List Action

abbrev pub does : State → Store → Action → State
does st store action = record { store = store; actions = st.actions ++ action ∷ [] }

-- After a list parser: an empty list is refused.
abbrev pub run_keys :
    (Store → List Bytes → Run (Store × ℕ × Bytes))
    → State
    → List Bytes × Bytes
    → Run (State × Bytes)
run_keys operation st ([], rest) = ok (st, rest)
run_keys operation st (k ∷ ks, rest) = do
  (after, status, text) ← operation st.store (k ∷ ks)
  ok (does st after (print text), rest)

-- The memory of a command is named by the number of bytes that are left behind it.
abbrev pub run_write : (ℕ → ℕ → Bool) → State → List Pair × Bytes → Run (State × Bytes)
run_write memory st ([], rest) = ok (st, rest)
run_write memory st (p ∷ ps, rest) = do
  (after, status, text) ← kvs_write (memory (length rest)) st.store (p ∷ ps)
  ok (record { store = after; actions = st.actions }, rest)

-- CMD_WAIT sleeps only for a delay above 0.
abbrev pub run_wait : State → ℤ → Option ℕ → Bytes → State × Bytes
run_wait st (negsuc _) delay rest = (st, rest)
run_wait st (pos _) none rest = (st, rest)
run_wait st (pos _) (some zero) rest = (st, rest)
run_wait st (pos _) (some (suc n)) rest = (does st st.store (sleep (kvs_wait (suc n))), rest)

-- The switch, on the bytes behind the word of the command. `kvs_backup` does nothing, and its
-- status goes to stderr only.
unfoldable pub run_command : (ℕ → ℕ → Bool) → Command → State → Bytes → Run (State × Bytes)
run_command memory cmd_write st s = do r ← parse_write max_write_size s; run_write memory st r
run_command memory cmd_read st s = do r ← parse_read_delete max_write_size s; run_keys kvs_read st r
run_command memory cmd_delete st s = do
  r ← parse_read_delete max_write_size s
  run_keys kvs_delete st r
run_command memory cmd_show st s = do
  text ← kvs_show st.store
  ok (does st st.store (print text), s)
run_command memory cmd_wait st s = do w ← parse_wait s; ok (run_wait st w.status w.delay w.rest)
run_command memory cmd_backup st s = ok (st, s)
run_command memory cmd_help st s = ok (does st st.store help, s)
run_command memory cmd_empty st s = ok (st, s)
run_command memory cmd_invalid st s = ok (st, s)
run_command memory eoc st s = ok (st, s)

-- `case EOC` returns; any other command goes on.
abbrev pub unless_eoc : Command → State → Option (Run State) → Option (Run State)
unless_eoc eoc st next = some (ok st)
unless_eoc _ st next = next

abbrev pub resume : (State → Bytes → Option (Run State)) → Run (State × Bytes) → Option (Run State)
resume next (ok (after, left)) = next after left
resume next (fault e) = some (fault e)

-- The loop, on fuel; `none` means that the fuel ran out.
unfoldable pub job_loop : (ℕ → ℕ → Bool) → ℕ → State → Bytes → Option (Run State)
job_loop memory zero st s = none
job_loop memory (suc fuel) st s =
    let (cmd, rest) = get_next s in
    let next = resume (job_loop memory fuel) (run_command memory cmd st rest) in
    unless_eoc cmd st next

-- `processar_ficheiro_job` on what `open` gives for the two files: the contents of the job file,
-- or nothing where one of them does not open.
unfoldable pub processar_ficheiro_job :
    (ℕ → ℕ → Bool) → Option Bytes → Bool → State → Option (Run State)
unfolding job_loop
processar_ficheiro_job memory none opens st = some (ok st)
processar_ficheiro_job memory (some input) opens st =
    let run = job_loop memory (suc (length input)) st input in if opens then run else some (ok st)

-- `%s/%s`, cut by `snprintf`
unfoldable pub caminho_input : Bytes → Bytes → Bytes
caminho_input input_dir name = take (max_job_file_name_size - 1) (input_dir ++ b'/' ∷ name)

-- `%s/%.*s.out`, for a name of four bytes or more, as `strstr` has found `.job` in it
unfoldable pub output_path : Bytes → Bytes → Bytes
output_path output_dir name =
    take (max_job_file_name_size - 1)
      (output_dir ++ b'/' ∷ (take (length name - 4) name ++ codes ".out"))

-- The files that `processar_diretoria_do_job` processes, in the order of the entries.
unfoldable pub jobs_of : Bytes → Bytes → List Bytes → List (Bytes × Bytes)
unfolding caminho_input output_path
jobs_of input_dir output_dir [] = []
jobs_of input_dir output_dir (name ∷ names) =
    let rest = jobs_of input_dir output_dir names in
    if has_job name
    then (caminho_input input_dir name, output_path output_dir name) ∷ rest
    else rest

abbrev pub Outcome : Type 0
Outcome = Option (Run (Store × List (Bytes × List Action)))

abbrev pub add_first : Bytes × List Action → Outcome → Outcome
add_first first none = none
add_first first (some (fault why)) = some (fault why)
add_first first (some (ok r)) = some (ok (r.0, first ∷ r.1))

-- The files that follow start from the table that a file leaves.
abbrev pub then_all : (Store → Outcome) → Bytes → Option (Run State) → Outcome
then_all next path none = none
then_all next path (some (fault why)) = some (fault why)
then_all next path (some (ok st)) = add_first (path, st.actions) (next st.store)

-- The files, one after the other, on one table: `memory` is that of the file, `files` says what
-- a job file holds, where it opens, and `opens` whether the output file opens. Each file has its own actions.
unfoldable pub process_all :
    (Bytes → ℕ → ℕ → Bool)
    → (Bytes → Option Bytes)
    → (Bytes → Bool)
    → List (Bytes × Bytes)
    → Store
    → Outcome
unfolding processar_ficheiro_job
process_all memory files opens [] store = some (ok (store, []))
process_all memory files opens (j ∷ js) store = then_all (process_all memory files opens js) j.1 (
    processar_ficheiro_job (memory j.0) (files j.0) (opens j.1)
      (record { store = store; actions = [] }))

-- `none` for the entries is a directory that does not open.
unfoldable pub processar_diretoria_do_job :
    (Bytes → ℕ → ℕ → Bool)
    → (Bytes → Option Bytes)
    → (Bytes → Bool)
    → Bytes
    → Bytes
    → Option (List Bytes)
    → Store
    → Outcome
unfolding jobs_of process_all
processar_diretoria_do_job memory files opens input_dir output_dir none store =
    some (ok (store, []))
processar_diretoria_do_job memory files opens input_dir output_dir (some names) store =
    process_all memory files opens (jobs_of input_dir output_dir names) store

-- After `kvs_init`: the directory and `kvs_terminate`.
abbrev pub run_directory : (Store → Outcome) → Store × ℕ → Option (Run ℕ)
run_directory directory (store, suc n) = some (ok 1)
run_directory directory (store, zero) = elim (directory store) [
  | none ↦ none
  | some (fault why) ↦ some (fault why)
  | some (ok r) ↦ some (do (after, status) ← kvs_terminate r.0; ok 0)
]

-- `main` ends without a `return`, which the standard takes for 0; `none` where it does not end.
unfoldable pub first_main : ℕ → Bool → (Store → Outcome) → Option (Run ℕ)
first_main argc allocated directory =
    let ends = run_directory directory (kvs_init allocated null) in
    if ltb argc 2 then some (ok 1) else ends
