-- ===== src/Server/Directory.antt =====
-- process_job_directory and thread_process_files of SOParte2/src/server/main.c: which files are
-- processed, by which output files, and how the threads share them.
pub mod Paths
pub mod Sharing
use so.Common.{
  ℕ, zero, suc, ◌+◌, ◌-◌, ◌<◌, ltb, if◌then◌else◌, ◌&&◌, ◌||◌, Bool, true, false, List, [], ◌∷◌,
  ◌++◌, Bytes, codes, str_eq, take, length, get_or, Run, ok, fault, out_of_bounds, ◌>>=◌, ◌==◌,
  none, Option, ◌≡◌, some, ◌≤◌,
}
use so.Server.Job.{max_job_file_name_size}
use so.Server.Parser.{max_write_size}

-- `strstr(name, ".job")`
unfoldable pub has_job : Bytes → Bool
has_job [] = false
has_job (c ∷ cs) = let rest = has_job cs in str_eq (take 4 (c ∷ cs)) (codes ".job") || rest

-- `%s/%s`
abbrev pub job_path : Bytes → Bytes → Bytes
job_path input_dir name = input_dir ++ b'/' ∷ name

-- Whether the entry takes a place in `data->files`: a path that does not fit is left out.
unfoldable pub is_job : Bytes → Bytes → Bool
unfolding has_job
is_job input_dir name =
    has_job name && ltb (length (job_path input_dir name)) max_job_file_name_size

-- The loop over the entries. `snprintf` writes to `data->files[data->count]` for each name with
-- `.job` in it, and `data->files` has MAX_WRITE_SIZE places.
unfoldable pub collect : Bytes → ℕ → List Bytes → Run (List Bytes)
unfolding is_job
collect input_dir count [] = ok []
collect input_dir count (name ∷ names) =
    let stored = (do
      files ← collect input_dir (suc count) names
      ok (job_path input_dir name ∷ files)) in
    let skipped = collect input_dir count names in
    if has_job name
    then (if ltb count max_write_size
        then (if is_job input_dir name then stored else skipped)
        else fault out_of_bounds)
    else skipped

unfoldable pub process_job_directory : Bytes → List Bytes → Run (List Bytes)
unfolding collect
process_job_directory input_dir names = collect input_dir 0 names

-- Where a thread stands in its loop, at the calls and accesses that other threads can come between.
pub data Phase : Type 0 where
  -- before `pthread_mutex_lock(&data->file_mutex)`
  waiting : Phase
  -- with the mutex, before the test of the index, and before the read of it
  testing loading : Phase
  -- with the mutex and the index that was read, before the index is written
  storing : ℕ → Phase
  -- with the mutex, before the unlock: with a file, or with none left
  releasing leaving : Phase
  -- without the mutex, in process_job_file
  working : Phase
  -- out of the loop
  gone : Phase

-- The part of `data` that the threads share, with the thread that has the mutex, the files that the
-- threads have taken, in order, and where each thread stands.
pub record Queue : Type 0 where
  pub files : List Bytes
  pub current_index : ℕ
  pub owner : Option ℕ
  pub begun : List Bytes
  pub phases : ℕ → Phase

abbrev pub put_phase : (ℕ → Phase) → ℕ → Phase → ℕ → Phase
put_phase phases i p j = if i == j then p else phases j

-- One step of one of `n` threads.
pub data Take (n : ℕ) : Queue → Queue → Type 0 where
  lock :
      {q : Queue} (i : ℕ)
      → i < n
      → q.phases i ≡ waiting
      → q.owner ≡ none
      → Take n q (record q { owner = some i; phases = put_phase q.phases i testing })
  some_left :
      {q : Queue} (i : ℕ)
      → i < n
      → q.phases i ≡ testing
      → q.current_index < length q.files
      → Take n q (record q { phases = put_phase q.phases i loading })
  none_left :
      {q : Queue} (i : ℕ)
      → i < n
      → q.phases i ≡ testing
      → length q.files ≤ q.current_index
      → Take n q (record q { phases = put_phase q.phases i leaving })
  load :
      {q : Queue} (i : ℕ)
      → i < n
      → q.phases i ≡ loading
      → Take n q (record q { phases = put_phase q.phases i (storing q.current_index) })
  store :
      {q : Queue} (i k : ℕ)
      → i < n
      → q.phases i ≡ storing k
      → Take n q (record q {
        current_index = k + 1;
        begun = q.begun ++ get_or q.files k [] ∷ [];
        phases = put_phase q.phases i releasing;
      })
  unlock :
      {q : Queue} (i : ℕ)
      → i < n
      → q.phases i ≡ releasing
      → Take n q (record q { owner = none; phases = put_phase q.phases i working })
  unlock_last :
      {q : Queue} (i : ℕ)
      → i < n
      → q.phases i ≡ leaving
      → Take n q (record q { owner = none; phases = put_phase q.phases i gone })
  next_round :
      {q : Queue} (i : ℕ)
      → i < n
      → q.phases i ≡ working
      → Take n q (record q { phases = put_phase q.phases i waiting })

-- As process_job_directory leaves the index, with every thread before its first round.
abbrev pub all_waiting : List Bytes → Queue
all_waiting files = record {
  files = files;
  current_index = 0;
  owner = none;
  begun = [];
  phases = λ i. waiting;
}

pub data Taken (n : ℕ) (files : List Bytes) : Queue → Type 0 where
  at_start : Taken n files (all_waiting files)
  and_take : {q r : Queue} → Taken n files q → Take n q r → Taken n files r
