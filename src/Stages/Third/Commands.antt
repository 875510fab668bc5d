-- ===== src/Stages/Third/Commands.antt =====
-- The commands of a job file in SO-Parte1/grupo5-ex3/main.c against those of the server.
use so.Common.{
  ℕ, zero, suc, ◌+◌, ◌<◌, leb, Bool, true, false, Option, none, some, List, [], ◌∷◌, ◌++◌, map,
  Bytes, length, Run, ok, fault, ◌>>=◌, arith, ◌≡◌, refl, ap, ◌∙◌, ℤ, pos, negsuc,
}
use so.Server.Parser.{
  Command, cmd_write, cmd_read, cmd_delete, cmd_show, cmd_wait, cmd_backup, cmd_help, cmd_empty,
  cmd_invalid, eoc, parse_write, parse_read_delete, parse_wait,
}
use so.Server.Sort.{Pair, insertion_sort}
use so.Server.Operations
use so.Server.Operations.{Lock, Event, rdlock, unlock}
use so.Server.Job
use so.Server.Job.{Action, event, child, help}
use so.Stages.First.{Store, kvs_wait, delay_to_timespec}
use so.Stages.Table.Forget.{allocated}
use so.Stages.Third.{kvs_show, kvs_backup}
use so.Stages.Third.Operations.{kvs_read, kvs_delete}
use so.Stages.Third.Loops.{keys_of-same}
use so.Stages.Third.Forget.{
  forget_store, forget_call, kvs_write-forget, kvs_read-forget, kvs_delete-forget, kvs_show-forget,
}
use so.Stages.Third.Job.{
  Environment, State, all_buckets, backup_actions, sort_keys, add_events, add_actions, run_keys,
  run_wait, run_write, run_command, backup,
}
use so.Stages.Third.Similar.{
  bare, Similar, similar, Alike, both, neither, SameRest, bind-Alike, more, bare-locked,
}
use so.Stages.Third.Limits.{parse_write-limits, parse_read_delete-limits}

-- What the third exercise sees of the server's environment: whether `malloc` gives memory.
abbrev pub forget_env : Job.Environment → Environment
forget_env env = record {
  memory = λ id i. allocated (env.memory id i);
  forks = env.forks;
  reaps = env.reaps;
}

all_buckets-same : (kind : Lock → Event) (n i : ℕ) → all_buckets kind n i ≡ Job.all_buckets kind n i
unfolding all_buckets Job.all_buckets
all_buckets-same kind zero i = refl
all_buckets-same kind (suc n) i = rw (all_buckets-same kind n (suc i))

sort_keys-same : (keys : List Bytes) → sort_keys keys ≡ Job.sort_keys keys
unfolding sort_keys Job.sort_keys
sort_keys-same keys = keys_of-same _

-- An operation on the sorted pairs or keys, and what it puts behind the actions.
call-Alike :
    (store : Operations.Store) (total active : ℕ) (xs ys : List Action) (rest : Bytes)
    (call : Run (Store × ℕ × List Event)) (run : Run (Operations.Store × ℕ × List Event))
    → bare xs ≡ bare ys
    → call ≡ forget_call run
    → Alike SameRest
        (call >>= λ r. ok (
          (record {
            store = r.0;
            total_backups = total;
            active_backups = active;
            actions = xs ++ map event r.2;
          }),
          rest,
        ))
        (run >>= λ r. ok (
          (record {
            store = r.0;
            total_backups = total;
            active_backups = active;
            actions = ys ++ map event r.2;
          }),
          rest,
        ))
call-Alike store total active xs ys rest call (fault why) e f = rw f (neither why)
call-Alike store total active xs ys rest call (ok (after, status, events)) e f =
    rw f (both (similar after total active _ _ (more xs ys _ _ e refl), refl))

run_keys-Alike :
    (env : Job.Environment) (job : Job.Job) (f : Store → List Bytes → Run (Store × ℕ × List Event))
    (g : Operations.Store → List Bytes → Run (Operations.Store × ℕ × List Event)) (st : State)
    (t : Job.State) (r : List Bytes × Bytes)
    → ((s : Operations.Store) (keys : List Bytes)
        → f (forget_store s) keys ≡ forget_call (g s keys))
    → Similar st t
    → Alike SameRest (run_keys f st r) (Job.run_keys env job g t r)
run_keys-Alike env job f g st t ([], rest) same s = both (s, refl)
run_keys-Alike env job f g _ _ (k ∷ ks, rest) same (similar store total active xs ys e) =
    call-Alike store total active xs ys rest _ _ e
      (ap (f (forget_store store)) (sort_keys-same (k ∷ ks)) ∙ same store (Job.sort_keys (k ∷ ks)))

show-Alike :
    (st : State) (t : Job.State) (s : Bytes)
    → Similar st t
    → Alike SameRest
        (kvs_show st.store >>= λ events. ok (add_events st st.store events, s))
        (Operations.kvs_show false t.store >>= λ events. ok (Job.add_events t t.store events, s))
unfolding Operations.kvs_show
show-Alike _ _ s (similar Operations.null total active xs ys e) =
    rw ((kvs_show-forget Operations.null).0) (neither _)
show-Alike _ _ s (similar Operations.dangling total active xs ys e) =
    rw ((kvs_show-forget Operations.dangling).0) (neither _)
show-Alike _ _ s (similar (Operations.live ht) total active xs ys e) =
    rw ((kvs_show-forget (Operations.live ht)).0) (
      both (
        similar (Operations.live ht) total active _ _
            (more xs ys _ _ e (bare-locked (Operations.show_table ht.table))),
        refl,
      ))

-- The child writes the same, into a file of another name.
backup_actions-bare :
    (full forked : Bool) (number : ℕ) (job : Job.Job) (store : Operations.Store)
    → bare (
        backup_actions full forked
          (kvs_backup number job.output_dir job.job_name (forget_store store)))
      ≡ bare
          (Job.backup_actions full forked (Job.kvs_backup number job.output_dir job.job_name store))
unfolding kvs_backup Job.kvs_backup all_buckets Job.all_buckets
backup_actions-bare true true number job store = rw ((kvs_show-forget store).1)
backup_actions-bare false true number job store = rw ((kvs_show-forget store).1)
backup_actions-bare true false number job store = refl
backup_actions-bare false false number job store = refl

kvs_wait-same : (n : ℕ) → kvs_wait n ≡ Operations.kvs_wait n
unfolding kvs_wait delay_to_timespec Operations.kvs_wait Operations.delay_to_timespec
kvs_wait-same n = refl

module _ (env : Job.Environment) (job : Job.Job) where
  run_write-Alike :
      (st : State) (t : Job.State) (r : List Pair × Bytes)
      → Similar st t
      → Alike SameRest (run_write (forget_env env) job st r) (Job.run_write env job t r)
  run_write-Alike st t ([], rest) s = both (s, refl)
  run_write-Alike _ _ (p ∷ ps, rest) (similar store total active xs ys e) =
      call-Alike store total active xs ys rest _ _ e
        (kvs_write-forget (env.memory (length rest)) store (insertion_sort (p ∷ ps)))

  backup-Similar :
      (id : ℕ) (st : State) (t : Job.State)
      → Similar st t
      → Similar (backup (forget_env env) job id st) (Job.backup env job id t)
  unfolding backup Job.backup
  backup-Similar id _ _ (similar store total active xs ys e) = similar store _ _ _ _ (
      more xs ys _ _ e
        (backup_actions-bare (leb job.max_backups active) (env.forks id) (total + 1) job store))

  run_wait-Similar :
      (st : State) (t : Job.State) (status : ℤ) (delay : Option ℕ) (rest : Bytes)
      → Similar st t
      → SameRest (run_wait st status delay rest) (Job.run_wait env job t status delay rest)
  run_wait-Similar st t (negsuc n) delay rest s = (s, refl)
  run_wait-Similar st t (pos n) none rest s = (s, refl)
  run_wait-Similar st t (pos n) (some zero) rest s = (s, refl)
  run_wait-Similar _ _ (pos n) (some (suc m)) rest (similar store total active xs ys e) =
      rw (kvs_wait-same (suc m)) (similar store total active _ _ (more xs ys _ _ e refl), refl)

  help-Similar :
      (st : State) (t : Job.State)
      → Similar st t
      → Similar (add_actions st (help ∷ [])) (Job.add_actions t (help ∷ []))
  help-Similar _ _ (similar store total active xs ys e) =
      similar store total active _ _ (more xs ys _ _ e refl)

  -- A command on fewer than 256 bytes.
  pub run_command-Alike :
      (cmd : Command) (st : State) (t : Job.State) (s : Bytes)
      → length s < 256
      → Similar st t
      → Alike SameRest (run_command (forget_env env) job cmd st s) (Job.run_command env job cmd t s)
  unfolding run_command Job.run_command
  run_command-Alike cmd_write st t s lt k =
      rw (parse_write-limits 1024 256 s (omega arith) lt)
        (bind-Alike (parse_write 256 s) _ _ (λ r. run_write-Alike st t r k))
  run_command-Alike cmd_read st t s lt k =
      rw (parse_read_delete-limits 1024 256 s (omega arith) lt) (
        bind-Alike (parse_read_delete 256 s) _ _
          (λ r. run_keys-Alike env job kvs_read Operations.kvs_read st t r kvs_read-forget k))
  run_command-Alike cmd_delete st t s lt k =
      rw (parse_read_delete-limits 1024 256 s (omega arith) lt) (
        bind-Alike (parse_read_delete 256 s) _ _
          (λ r. run_keys-Alike env job kvs_delete Operations.kvs_delete st t r kvs_delete-forget k))
  run_command-Alike cmd_show st t s lt k = show-Alike st t s k
  run_command-Alike cmd_wait st t s lt k =
      bind-Alike (parse_wait s) _ _ (λ w. both (run_wait-Similar st t w.status w.delay w.rest k))
  run_command-Alike cmd_backup st t s lt k = both (backup-Similar (length s) st t k, refl)
  run_command-Alike cmd_help st t s lt k = both (help-Similar st t k, refl)
  run_command-Alike cmd_empty st t s lt k = both (k, refl)
  run_command-Alike cmd_invalid st t s lt k = both (k, refl)
  run_command-Alike eoc st t s lt k = both (k, refl)
