-- ===== src/Stages/Third.antt =====
-- SO-Parte1/grupo5-ex3, whose kvs.c has the code of the first exercise's: the table is that of
-- Stages.Table, with nodes of a key and a value. Here: kvs_show, kvs_show_backup and kvs_backup of operations.c, and main. The
-- other operations and the loop over a job file stand in the modules below.
pub mod Operations
pub mod Job
pub mod Loops
pub mod Forget
pub mod Termination
pub mod Limits
pub mod Similar
pub mod Commands
pub mod Equivalence
use so.Common.{
  ℕ, zero, suc, ◌+◌, ◌-◌, ltb, if◌then◌else◌, Bool, true, false, Option, none, some, List, [], ◌∷◌,
  ◌++◌, Bytes, codes, take, length, Run, ok, fault, null_pointer, use_after_free, ◌>>=◌,
}
use so.Stages.Table.{KeyNode, Chain, HashTable}
use so.Stages.First.{Store, null, live, dangling, kvs_init, kvs_terminate}
use so.Server.Operations.{global, Event, wrlock, unlock, output}
use so.Server.Job.{decimal, Action, child}

-- `(key, value)` and a newline
abbrev pub show_node : KeyNode → Bytes
show_node n = b'(' ∷ (n.key ++ codes ", " ++ n.value ++ codes ")\n")

unfoldable pub show_chain : Chain → List Event
show_chain [] = []
show_chain (n ∷ c) = output (show_node n) ∷ show_chain c

unfoldable pub show_table : List Chain → List Event
unfolding show_chain
show_table [] = []
show_table (c ∷ cs) = show_chain c ++ show_table cs

-- For SHOW, under the global lock; the table is not tested for NULL.
unfoldable pub kvs_show : Store → Run (List Event)
unfolding show_table
kvs_show null = fault null_pointer
kvs_show dangling = fault use_after_free
kvs_show (live ht) = ok (wrlock global ∷ (show_table ht.table ++ unlock global ∷ []))

-- For the child of a backup, which has one thread.
unfoldable pub kvs_show_backup : Store → Run (List Event)
unfolding show_table
kvs_show_backup null = fault null_pointer
kvs_show_backup dangling = fault use_after_free
kvs_show_backup (live ht) = ok (show_table ht.table)

abbrev pub max_job_file_name_size : ℕ
max_job_file_name_size = 1024

-- `%s/%.*s-%d.bck`, cut by `snprintf`, for a name of four bytes or more
unfoldable pub backup_output_path : ℕ → Bytes → Bytes → Bytes
backup_output_path backup output_dir job_name = take (max_job_file_name_size - 1) (
    output_dir
    ++ b'/' ∷ (take (length job_name - 4) job_name ++ b'-' ∷ (decimal backup ++ codes ".bck")))

unfoldable pub kvs_backup : ℕ → Bytes → Bytes → Store → Action
unfolding backup_output_path kvs_show_backup
kvs_backup backup output_dir job_name store =
    child backup (backup_output_path backup output_dir job_name) (kvs_show_backup store)

-- The last loop, over whether each `wait` reaps a child: what it leaves of the list, or `none`
-- where it has not ended.
unfoldable pub wait_loop : ℕ → List Bool → Option (List Bool)
wait_loop zero waits = some waits
wait_loop (suc n) [] = none
wait_loop (suc n) (true ∷ waits) = wait_loop n waits
wait_loop (suc n) (false ∷ waits) = wait_loop (suc n) waits

-- After the joins: one `wait` for each backup that is counted, and `kvs_terminate`.
abbrev pub finish : List Bool → Option (Store × ℕ) → Option (Run ℕ)
finish waits none = none
finish waits (some (store, active)) = elim (wait_loop active waits) [
  | none ↦ none
  | some _ ↦ some (do (after, status) ← kvs_terminate store; ok 0)
]

abbrev pub run_threads : (Store → Option (Store × ℕ)) → List Bool → Store × ℕ → Option (Run ℕ)
run_threads threads waits (store, zero) = finish waits (threads store)
run_threads threads waits (store, suc n) = some (ok 1)

-- The return value; `threads` is what the threads leave when they have been joined.
unfoldable pub third_main : ℕ → Bool → (Store → Option (Store × ℕ)) → List Bool → Option (Run ℕ)
third_main argc allocated threads waits =
    let runs = run_threads threads waits (kvs_init allocated null) in
    if ltb argc 4 then some (ok 1) else runs
