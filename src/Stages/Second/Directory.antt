-- ===== src/Stages/Second/Directory.antt =====
-- process_job_directory of SO-Parte1/grupo5-ex2/main.c: the job files of a directory, one after the
-- other, on one table. What `malloc`, `fork` and `open` do is given by the path of the file.
use so.Common.{
  ℕ, ◌-◌, if◌then◌else◌, Bool, Option, none, some, List, [], ◌∷◌, ◌++◌, Bytes, codes, take, length,
  Run, ok, fault,
}
use so.Server.Directory.{has_job}
use so.Stages.First.{Store}
use so.Stages.First.Job
use so.Stages.Second.{State, Environment, process_job_file}

-- What surrounds the program: for each path of a job file, the memory, whether `fork` makes a child,
-- and the contents; for each path of an output file, whether it opens.
pub record World : Type 0 where
  pub memory : Bytes → ℕ → ℕ → Bool
  pub forks : Bytes → ℕ → Bool
  pub files : Bytes → Option Bytes
  pub opens : Bytes → Bool

-- `%s/%s`, cut by `snprintf`
abbrev pub input_path : Bytes → Bytes → Bytes
input_path input_dir name = take (Job.max_job_file_name_size - 1) (input_dir ++ b'/' ∷ name)

-- `%s/%.*s.out`, for a name of four bytes or more, as `strstr` has found `.job` in it
abbrev pub output_path : Bytes → Bytes → Bytes
output_path output_dir name =
    take (Job.max_job_file_name_size - 1)
      (output_dir ++ b'/' ∷ (take (length name - 4) name ++ codes ".out"))

-- The table in the end, and what each file has left: what it has done and its children.
abbrev pub Outcome : Type 0
Outcome = Option (Run (Store × List State))

abbrev pub add_first : State → Outcome → Outcome
add_first first none = none
add_first first (some (fault why)) = some (fault why)
add_first first (some (ok r)) = some (ok (r.0, first ∷ r.1))

-- The entries that follow start from the table that a file leaves.
abbrev pub then_all : (Store → Outcome) → Option (Run State) → Outcome
then_all next none = none
then_all next (some (fault why)) = some (fault why)
then_all next (some (ok st)) = add_first st (next st.first.store)

module _ (world : World) (input_dir output_dir : Bytes) (max_backups : ℕ) where
  abbrev pub process_entry : Bytes → Store → Option (Run State)
  process_entry name store =
      let path = input_path input_dir name in
      let env : Environment = record {
        memory = world.memory path;
        forks = world.forks path;
        output_dir = output_dir;
        job_name = name;
      } in
      process_job_file env max_backups (world.files path)
        (world.opens (output_path output_dir name)) (record { store = store; actions = [] })

  unfoldable pub process_all : List Bytes → Store → Outcome
  process_all [] store = some (ok (store, []))
  process_all (name ∷ names) store =
      let rest = process_all names in
      if has_job name then then_all rest (process_entry name store) else rest store

  -- `none` for the entries is a directory that does not open.
  unfoldable pub process_job_directory : Option (List Bytes) → Store → Outcome
  unfolding process_all
  process_job_directory none store = some (ok (store, []))
  process_job_directory (some names) store = process_all names store
