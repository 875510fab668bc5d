-- ===== src/Tests/JobRuns.antt =====
-- Job files, backups and the directory.
use so.Common.{
  ◌≤◌, true, false, some, List, [], ◌∷◌, Bytes, codes, length, take, pos, Run, arith, ◌≡◌, refl,
  strcmp, ℕ, ◌<◌,
}
use so.Server.Parser.Lists.{IsItem}
use so.Server.Operations.{live}
use so.Server.Job.{Environment, Job, State, process_job_file}
use so.Server.Job.Termination.{process_job_file-ends}
use so.Server.Job.Script.{Line, write, read, delete, back_up, comment, print_script, IsGoodScript}
use so.Server.Job.Refinement.{ScriptRuns, process_job_file-ScriptRuns}
use so.Server.Operations.Writes.{lookup}
use so.Server.Directory.{
  Queue, Taken, at_start, and_take, lock, some_left, load, store, unlock, gone,
}
use so.Server.Directory.Sharing.{Taken-in_order}
use so.Transfer.{accepted, write_all, send_msg}
use so.Transfer.Complete.{write_all_complete}
use so.Tests.Samples.{
  key_b-hash, key_a, key_a-hash, key_a-IsText, memory_fds, sample, sample-IsValid,
}

abbrev working : Environment
working = record { memory = λ id i. some memory_fds; forks = λ id. false; reaps = λ id. true }

abbrev one_job : Job
one_job = record { max_backups = 2; output_dir = codes "jobs"; job_name = codes "a.job" }

abbrev before : State
before = record { store = live sample; total_backups = 0; active_backups = 1; actions = [] }

process_job_file-ends_example :
    (r : Run State) × (process_job_file working one_job before (codes "WRITE [(ab,2)]\nSHOW\n")
      ≡ some r)
process_job_file-ends_example =
    process_job_file-ends working one_job before (codes "WRITE [(ab,2)]\nSHOW\n")

abbrev script : List Line
script =
    write (key_a, codes "1") ((codes "b", codes "2") ∷ [])
    ∷ read key_a (codes "b" ∷ [])
    ∷ back_up
    ∷ delete (codes "b") (key_a ∷ [])
    ∷ comment (codes "end")
    ∷ []

key_a-IsItem : IsItem key_a
key_a-IsItem = record { plain = (refl, (refl, tt)); text = key_a-IsText; short = omega arith }

b-IsItem : IsItem (codes "b")
b-IsItem = record { plain = (refl, tt); text = omega arith; short = omega arith }

one-IsItem : IsItem (codes "1")
one-IsItem = record { plain = (refl, tt); text = omega arith; short = omega arith }

two-IsItem : IsItem (codes "2")
two-IsItem = record { plain = (refl, tt); text = omega arith; short = omega arith }

script-IsGood : IsGoodScript (lookup sample) script
unfolding strcmp
script-IsGood = (
  (
    ((key_a-IsItem, one-IsItem), ((b-IsItem, two-IsItem), tt)),
    ((0, key_a-hash), ((1, key_b-hash), tt)),
    omega arith,
  ),
  (
    (
      (key_a-IsItem, (b-IsItem, tt)),
      ((0, key_a-hash), ((1, key_b-hash), tt)),
      omega arith,
      (omega arith, (omega arith, tt)),
    ),
    (
      tt,
      (
        (
          (b-IsItem, (key_a-IsItem, tt)),
          ((1, key_b-hash), ((0, key_a-hash), tt)),
          omega arith,
          (omega arith, (omega arith, tt)),
        ),
        ((refl, (refl, (refl, tt))), tt),
      ),
    ),
  ),
)

process_job_file-ScriptRuns_example :
    ScriptRuns before
      (lookup sample)
      script
      (process_job_file working one_job before (print_script script))
process_job_file-ScriptRuns_example =
    process_job_file-ScriptRuns working one_job (λ id i. memory_fds) (λ id i. refl) script before
      refl sample-IsValid script-IsGood

abbrev entries : List Bytes
entries = codes "." ∷ codes "a.job" ∷ codes "a.out" ∷ []

abbrev two_files : List Bytes
two_files = codes "jobs/a.job" ∷ codes "jobs/b.job" ∷ []

-- The first of two threads takes a file, and the second has the mutex.
abbrev one_taken : (q : Queue) × Taken 2 two_files q
one_taken = (
  _,
  and_take
      (and_take
        (and_take
          (and_take
            (and_take (and_take at_start (lock 0 (omega arith) refl refl))
              (some_left 0 (omega arith) refl (omega arith)))
            (load 0 (omega arith) refl))
          (store 0 0 (omega arith) refl))
        (unlock 0 (omega arith) refl))
      (lock 1 (omega arith) refl refl),
)

Taken-in_order_example :
    (one_taken.0.begun ≡ take one_taken.0.current_index two_files)
    × (one_taken.0.current_index ≤ length two_files)
    × ((i : ℕ) → i < 2 → one_taken.0.phases i ≡ gone → one_taken.0.begun ≡ two_files)
Taken-in_order_example = Taken-in_order one_taken.1

write_all_complete_example :
    (write_all (codes "abc") (accepted 2 ∷ accepted 1 ∷ accepted 1 ∷ [])
      ≡ some (record { sent = codes "abc"; status = pos 1 }))
    × (send_msg (codes "abc") (accepted 2 ∷ accepted 1 ∷ accepted 1 ∷ [])
        ≡ some (record { sent = codes "abc"; status = pos 1 }))
write_all_complete_example =
    write_all_complete (codes "abc") (accepted 2 ∷ accepted 1 ∷ accepted 1 ∷ [])
      (omega arith, (omega arith, (omega arith, tt))) (omega arith)
