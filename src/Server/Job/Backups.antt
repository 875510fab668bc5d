-- ===== src/Server/Job/Backups.antt =====
-- The number of backups that run at once, and what a failed fork does to it.
use native.Mathlib.Nat.{add-zero}
use so.Common.{
  ℕ, leb, Bytes, Run, ◌+◌, ◌≤◌, ◌<◌, Bool, true, false, List, [], ◌∷◌, ◌++◌, arith, ◌≡◌, refl, ◌∙◌,
}
use so.Server.Operations.{Event}
use so.Server.Job.{
  Action, event, sleep, child, await_child, help, Environment, Job, State, backup, kvs_backup,
  all_buckets, backup_actions,
}

-- The children among the actions.
abbrev pub children : List Action → ℕ
children [] = 0
children (event e ∷ actions) = children actions
children (sleep t ∷ actions) = children actions
children (child n path written ∷ actions) = 1 + children actions
children (await_child ∷ actions) = children actions
children (help ∷ actions) = children actions

children-append : (xs ys : List Action) → children (xs ++ ys) ≡ children xs + children ys
children-append [] ys = omega arith
children-append (event e ∷ xs) ys = children-append xs ys
children-append (sleep t ∷ xs) ys = children-append xs ys
children-append (child n path written ∷ xs) ys = omega (arith, children-append xs ys)
children-append (await_child ∷ xs) ys = children-append xs ys
children-append (help ∷ xs) ys = children-append xs ys

abbrev pub one_if : Bool → ℕ
one_if true = 1
one_if false = 0

children-backup_actions :
    (full forked : Bool) (n : ℕ) (path : Bytes) (written : Run (List Event))
    → children (backup_actions full forked (child n path written)) ≡ one_if forked
unfolding all_buckets
children-backup_actions true true n path written = refl
children-backup_actions true false n path written = refl
children-backup_actions false true n path written = refl
children-backup_actions false false n path written = refl

children-backup :
    (env : Environment) (job : Job) (id : ℕ) (st : State)
    → children (backup env job id st).actions ≡ children st.actions + one_if (env.forks id)
unfolding backup kvs_backup
children-backup env job id st =
    children-append st.actions _
    ∙ rw (children-backup_actions (leb job.max_backups st.active_backups) (env.forks id))

-- Where `wait` reaps a child, and at least one backup is allowed, no more backups than allowed
-- are counted as active.
pub backup-bound :
    (env : Environment) (job : Job) (id : ℕ) (st : State)
    → env.reaps id ≡ true
    → 0 < job.max_backups
    → st.active_backups ≤ job.max_backups
    → (backup env job id st).active_backups ≤ job.max_backups
unfolding backup
backup-bound env job id st reaped some_allowed within = ground arith

active_below :
    (env : Environment) (job : Job) (id : ℕ) (st : State)
    → st.active_backups < job.max_backups
    → (backup env job id st).active_backups ≡ st.active_backups + 1
unfolding backup
active_below env job id st room = ground arith

-- A fork that fails starts no child, and is counted as an active backup all the same.
backup-failed_fork :
    (env : Environment) (job : Job) (id : ℕ) (st : State)
    → env.forks id ≡ false
    → st.active_backups < job.max_backups
    → ((backup env job id st).active_backups ≡ st.active_backups + 1)
      × (children (backup env job id st).actions ≡ children st.actions)
backup-failed_fork env job id st failed room = (
  active_below env job id st room,
  children-backup env job id st ∙ rw failed (add-zero (children st.actions)),
)
