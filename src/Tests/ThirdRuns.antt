-- ===== src/Tests/ThirdRuns.antt =====
-- A job file of the third exercise and of the server.
use so.Common.{ℕ, Option, List, ◌∷◌, true, some, [], Bytes, codes, Run, arith, ◌≡◌}
use so.Server.Operations.{live}
use so.Server.Job
use so.Stages.Third.Job.{State, process_job_file}
use so.Stages.Third.Similar.{Similar, Alike}
use so.Stages.Third.Commands.{forget_env}
use so.Stages.Third.Forget.{forget_store, forget_call, operations-forget}
use so.Stages.Third.Operations.{kvs_write, kvs_read, kvs_delete}
use so.Stages.Third.{kvs_show}
use so.Stages.Table.Forget.{allocated}
use so.Server.Operations
use so.Stages.Third.Equivalence.{forget_state, third_job_file-Alike}
use so.Tests.Samples.{sample, memory_fds}

abbrev working : Job.Environment
working = record { memory = λ id i. some memory_fds; forks = λ id. true; reaps = λ id. true }

abbrev one_job : Job.Job
one_job = record { max_backups = 1; output_dir = codes "jobs"; job_name = codes "a.job" }

abbrev begun : Job.State
begun = record { store = live sample; total_backups = 3; active_backups = 1; actions = [] }

abbrev file : Bytes
file = codes "WRITE [(b,1)]\nSHOW\nBACKUP\nREAD [b,ab]\n"

third_job_file-Alike_example :
    (r : Run State) × ((q : Run Job.State) × (process_job_file
          (forget_env working)
          one_job
          (forget_state begun)
          (some file)
          true
        ≡ some r)
      × (Job.process_job_file working one_job (record begun { total_backups = 0 }) file ≡ some q)
      × Alike Similar r q)
third_job_file-Alike_example = third_job_file-Alike working one_job begun file (omega arith)

abbrev some_memory : ℕ → Option (List ℕ)
some_memory i = some memory_fds

operations-forget_example :
    (kvs_write
        (λ j. allocated (some_memory j))
        (forget_store (live sample))
        ((codes "b", codes "2") ∷ [])
      ≡ forget_call (Operations.kvs_write some_memory (live sample) ((codes "b", codes "2") ∷ [])))
    × (kvs_read (forget_store (live sample)) (codes "a" ∷ codes "c" ∷ [])
        ≡ forget_call (Operations.kvs_read (live sample) (codes "a" ∷ codes "c" ∷ [])))
    × (kvs_delete (forget_store (live sample)) (codes "a" ∷ codes "c" ∷ [])
        ≡ forget_call (Operations.kvs_delete (live sample) (codes "a" ∷ codes "c" ∷ [])))
    × (kvs_show (forget_store (live sample)) ≡ Operations.kvs_show true (live sample))
operations-forget_example =
    operations-forget some_memory (live sample) ((codes "b", codes "2") ∷ [])
      (codes "a" ∷ codes "c" ∷ [])
