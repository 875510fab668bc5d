-- ===== src/Tests/StageRuns.antt =====
-- The programs of the first part.
use so.Common.{Option, true, some, List, [], ◌∷◌, Bytes, codes, Run, arith, ◌≡◌, refl}
use so.Server.Kvs
use so.Server.Sort.{Pair, insertion_sort}
use so.Server.Operations
use so.Server.Operations.Writes.{lookup}
use so.Server.Operations.Deletes.{IsShortName, missing_keys}
use so.Server.Job.SortedKeys.{All-missing_keys}
use so.Stages.Table.{write_pair, read_pair, delete_pair}
use so.Stages.Table.Forget.{allocated, forget, forget_after, forget_lem}
use so.Stages.First.{Store, live, kvs_write, kvs_read, kvs_delete}
use so.Stages.First.Answers.{IsShortLine}
use so.Stages.First.Equivalence.{Alike, BothWrite, BothRead, BothDelete, operations-Alike}
use so.Stages.First.Job.{Action, processar_diretoria_do_job}
use so.Stages.First.Termination.{processar_diretoria_do_job-ends}
use so.Stages.Second.Directory.{World, process_job_directory}
use so.Stages.Second.Unbounded.{process_job_directory-any}
use so.Tests.Samples.{
  key_a, key_a-hash, key_b, key_b-hash, memory_fds, memory_of, sample, sample-IsValid,
  node_of-sample, node_of-key_b,
}

forget_lem_example :
    (write_pair (allocated (some memory_fds)) (forget sample) key_a (codes "2")
      ≡ forget_after (Kvs.write_pair (some memory_fds) sample key_a (codes "2")))
    × (read_pair (forget sample) key_a ≡ Kvs.read_pair sample key_a)
    × (delete_pair (forget sample) key_a ≡ forget_after (Kvs.delete_pair sample key_a))
forget_lem_example = forget_lem (some memory_fds) sample key_a (codes "2")

sample-Alike : Alike (forget sample) sample
sample-Alike =
    (record { full = sample; valid = sample-IsValid; forgets = refl; reads = refl }, sample-IsValid)

abbrev pairs : List Pair
pairs = (key_b, codes "1") ∷ (key_a, codes "2") ∷ []

abbrev keys : List Bytes
keys = key_a ∷ key_b ∷ []

operations-Alike_example :
    BothWrite
      (kvs_write (λ i. true) (live (forget sample)) pairs)
      (Operations.kvs_write memory_of (Operations.live sample) (insertion_sort pairs))
    × BothRead
        (forget sample)
        sample
        (kvs_read (live (forget sample)) keys)
        (Operations.kvs_read (Operations.live sample) keys)
    × BothDelete
        (missing_keys keys (lookup sample))
        (kvs_delete (live (forget sample)) keys)
        (Operations.kvs_delete (Operations.live sample) keys)
operations-Alike_example =
    operations-Alike (λ i. true) memory_of (λ i. memory_fds) pairs keys sample-Alike (λ i. refl)
      (λ i. refl) ((1, key_b-hash), ((0, key_a-hash), tt)) ((0, key_a-hash), ((1, key_b-hash), tt))
      (rw node_of-sample (omega arith), (rw node_of-key_b (omega arith), tt))
      (All-missing_keys IsShortName keys (lookup sample) (omega arith, (omega arith, tt)))
      (All-missing_keys IsShortLine keys (lookup sample) (omega arith, (omega arith, tt)))

abbrev one_file : Bytes → Option Bytes
one_file path = some (codes "READ [a]\nSHOW\n")

processar_diretoria_do_job-ends_example :
    (r : Run (Store × List (Bytes × List Action))) × (processar_diretoria_do_job
        (λ path id i. true)
        one_file
        (λ path. true)
        (codes "jobs")
        (codes "jobs")
        (some (codes "a.job" ∷ codes "b.txt" ∷ []))
        (live (forget sample))
      ≡ some r)
processar_diretoria_do_job-ends_example =
    processar_diretoria_do_job-ends (λ path id i. true) one_file (λ path. true) (codes "jobs")
      (codes "jobs") (some (codes "a.job" ∷ codes "b.txt" ∷ [])) (live (forget sample))

abbrev world : World
world = record {
  memory = λ path id i. true;
  forks = λ path id. true;
  files = λ path. some (codes "BACKUP\nBACKUP\nBACKUP\n");
  opens = λ path. true;
}

abbrev entries : Option (List Bytes)
entries = some (codes "a.job" ∷ codes "b.txt" ∷ codes "c.job" ∷ [])

process_job_directory-any_example :
    process_job_directory world (codes "jobs") (codes "jobs") 1 entries (live (forget sample))
    ≡ process_job_directory world (codes "jobs") (codes "jobs") 5 entries (live (forget sample))
process_job_directory-any_example =
    process_job_directory-any world (codes "jobs") (codes "jobs") 1 5 entries (live (forget sample))
