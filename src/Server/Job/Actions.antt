-- ===== src/Server/Job/Actions.antt =====
-- What the actions of a job put into its output file.
use so.Common.{
  leb, ◌++◌, ℕ, zero, suc, Bool, true, false, some, List, [], ◌∷◌, Bytes, ◌≡◌, refl, sym, ap, ◌∙◌,
  append_assoc, append-nil, ◌+◌, map, pos,
}
use so.Server.Operations.{Store, Event, kvs_wait}
use so.Server.Operations.Output.{said, said-append}
use so.Server.Job.{
  Action, event, sleep, child, await_child, help, Environment, Job, State, add_events, add_actions,
  run_wait, all_buckets, backup_actions, backup, kvs_backup,
}

abbrev pub file_of : List Action → Bytes
file_of [] = []
file_of (event e ∷ actions) = said (e ∷ []) ++ file_of actions
file_of (_ ∷ actions) = file_of actions

pub file_of-append : (xs ys : List Action) → file_of (xs ++ ys) ≡ file_of xs ++ file_of ys
file_of-append [] ys = refl
file_of-append (event e ∷ xs) ys =
    rw (file_of-append xs ys) (sym (append_assoc (said (e ∷ [])) (file_of xs) (file_of ys)))
file_of-append (sleep t ∷ xs) ys = file_of-append xs ys
file_of-append (child n path written ∷ xs) ys = file_of-append xs ys
file_of-append (await_child ∷ xs) ys = file_of-append xs ys
file_of-append (help ∷ xs) ys = file_of-append xs ys

file_of-map : (es : List Event) → file_of (map event es) ≡ said es
file_of-map [] = refl
file_of-map (e ∷ es) = rw (file_of-map es) (sym (said-append (e ∷ []) es))

pub file_of-add_events :
    (st : State) (store : Store) (es : List Event)
    → file_of (add_events st store es).actions ≡ file_of st.actions ++ said es
file_of-add_events st store es =
    file_of-append st.actions (map event es) ∙ ap (λ s. file_of st.actions ++ s) (file_of-map es)

-- The state after a delay: nothing is done for none.
abbrev pub waited : State → ℕ → State
waited st zero = st
waited st (suc n) = add_actions st (sleep (kvs_wait (suc n)) ∷ [])

pub run_wait-waited :
    (env : Environment) (job : Job) (st : State) (n : ℕ) (rest : Bytes)
    → run_wait env job st (pos 0) (some n) rest ≡ (waited st n, rest)
run_wait-waited env job st zero rest = refl
run_wait-waited env job st (suc n) rest = refl

pub waited-store : (st : State) (n : ℕ) → (waited st n).store ≡ st.store
waited-store st zero = refl
waited-store st (suc n) = refl

pub file_of-waited : (st : State) (n : ℕ) → file_of (waited st n).actions ≡ file_of st.actions ++ []
file_of-waited st zero = sym (append-nil (file_of st.actions))
file_of-waited st (suc n) = file_of-append st.actions (sleep (kvs_wait (suc n)) ∷ [])

file_of-backup_actions :
    (full forked : Bool) (number : ℕ) (job : Job) (store : Store)
    → file_of (backup_actions full forked (kvs_backup number job.output_dir job.job_name store))
      ≡ []
unfolding all_buckets kvs_backup
file_of-backup_actions true true number job store = refl
file_of-backup_actions true false number job store = refl
file_of-backup_actions false true number job store = refl
file_of-backup_actions false false number job store = refl

-- A backup writes to its own file only.
pub file_of-backup :
    (env : Environment) (job : Job) (id : ℕ) (st : State)
    → file_of (backup env job id st).actions ≡ file_of st.actions ++ []
unfolding backup
file_of-backup env job id st =
    file_of-append st.actions _
    ∙ ap (λ s. file_of st.actions ++ s)
        (file_of-backup_actions (leb job.max_backups st.active_backups) (env.forks id)
          (st.total_backups + 1) job st.store)
