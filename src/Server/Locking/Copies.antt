-- ===== src/Server/Locking/Copies.antt =====
-- The locks that process_job_file takes around `fork`: the mutex of the backups, and those of all
-- the buckets, upwards.
use mathlib.Core.Path.{subst}
use so.Server.Job.{kvs_backup, backup_path}
use so.Server.Operations.{kvs_show}
use so.Common.{
  Bytes, Run, ℕ, zero, suc, ◌+◌, ◌≤◌, ◌<◌, ltb, leb, if◌then◌else◌, Bool, true, false, List, [],
  ◌∷◌, ◌++◌, arith, ◌≡◌, refl, sym, append_assoc,
}
use so.Server.Kvs.{table_size}
use so.Server.Operations.{Lock, global, backups, bucket, Event, rdlock, wrlock, unlock}
use so.Server.Job.{
  Action, event, sleep, child, await_child, help, Environment, Job, State, all_buckets,
  backup_actions, backup,
}
use so.Server.Locking.{Hold, free, shared, owned, hold, none_held}
use so.Server.Locking.Order.{IsAbove, IsOrderly}
use so.Server.Locking.Holds.{IsOrderly-same}
use so.Server.Locking.Brackets.{KeepsOrder}

-- The locks and the output among the actions.
abbrev pub events_of : List Action → List Event
events_of [] = []
events_of (event e ∷ xs) = e ∷ events_of xs
events_of (_ ∷ xs) = events_of xs

events_of-append : (xs ys : List Action) → events_of (xs ++ ys) ≡ events_of xs ++ events_of ys
events_of-append [] ys = refl
events_of-append (event e ∷ xs) ys = rw (events_of-append xs ys)
events_of-append (sleep t ∷ xs) ys = events_of-append xs ys
events_of-append (child n path text ∷ xs) ys = events_of-append xs ys
events_of-append (await_child ∷ xs) ys = events_of-append xs ys
events_of-append (help ∷ xs) ys = events_of-append xs ys

-- The mutex of the backups as given, and the buckets from `low` up to `high` held for reading.
abbrev between : Hold → ℕ → ℕ → Lock → Hold
between g low high global = free
between g low high backups = g
between g low high (bucket j) = if ltb j low then free else if ltb j high then shared else free

between-take :
    (g : Hold) (i : ℕ) (m : Lock) → hold (between g 0 i) (bucket i) shared m ≡ between g 0 (suc i) m
between-take g i global = refl
between-take g i backups = refl
between-take g i (bucket j) = ground arith

between-give :
    (g : Hold) (i high : ℕ) (m : Lock)
    → hold (between g i high) (bucket i) free m ≡ between g (suc i) high m
between-give g i high global = refl
between-give g i high backups = refl
between-give g i high (bucket j) = ground arith

between-none : (g : Hold) (i : ℕ) (m : Lock) → between g i i m ≡ between g 0 0 m
between-none g i global = refl
between-none g i backups = refl
between-none g i (bucket j) = ground arith

take_mutex : (m : Lock) → hold none_held backups owned m ≡ between owned 0 0 m
take_mutex global = refl
take_mutex backups = refl
take_mutex (bucket j) = ground arith

give_mutex : (m : Lock) → hold (between owned 0 0) backups free m ≡ none_held m
give_mutex global = refl
give_mutex backups = refl
give_mutex (bucket j) = ground arith

between-IsAbove : (g : Hold) (i : ℕ) → i < table_size → IsAbove (between g 0 i) (bucket i)
between-IsAbove g i lt = (
  elim [ global ↦ λ h. omega arith | backups ↦ λ h. omega arith | bucket j ↦ λ h. ground arith ],
  omega arith,
)

module _ (g : Hold) where
  take_all :
      (n i : ℕ) (rest : List Event)
      → i + n ≤ table_size
      → IsOrderly (between g 0 (i + n)) rest
      → IsOrderly (between g 0 i) (events_of (all_buckets rdlock n i) ++ rest)
  unfolding all_buckets
  take_all zero i rest le h =
      let e : i + 0 ≡ i = omega arith in subst (λ k. IsOrderly (between g 0 k) rest) e h
  take_all (suc n) i rest le h = (
    between-IsAbove g i (omega arith),
    IsOrderly-same (events_of (all_buckets rdlock n (suc i)) ++ rest) (between-take g i) (
        take_all n (suc i) rest (omega arith) (
          let e : i + suc n ≡ suc i + n = omega arith in
          subst (λ k. IsOrderly (between g 0 k) rest) e h)),
  )

  give_all :
      (n i : ℕ) (rest : List Event)
      → IsOrderly (between g 0 0) rest
      → IsOrderly (between g i (i + n)) (events_of (all_buckets unlock n i) ++ rest)
  unfolding all_buckets
  give_all zero i rest h =
      let e : i ≡ i + 0 = omega arith in
      subst (λ k. IsOrderly (between g i k) rest) e (IsOrderly-same rest (between-none g i) h)
  give_all (suc n) i rest h =
      IsOrderly-same (events_of (all_buckets unlock n (suc i)) ++ rest)
        (between-give g i (i + suc n))
        (let e : suc i + n ≡ i + suc n = omega arith in
          subst
            (λ k.
              IsOrderly (between g (suc i) k) (events_of (all_buckets unlock n (suc i)) ++ rest))
            e (give_all n (suc i) rest h))

-- Around the buckets, the mutex of the backups.
around : KeepsOrder (
    wrlock backups
    ∷ (events_of (all_buckets rdlock table_size 0)
        ++ (events_of (all_buckets unlock table_size 0) ++ unlock backups ∷ [])))
around rest h =
    let takes = events_of (all_buckets rdlock table_size 0) in
    let gives = events_of (all_buckets unlock table_size 0) in
    (
      (λ m held. absurd (held refl), omega arith),
      IsOrderly-same ((takes ++ (gives ++ unlock backups ∷ [])) ++ rest) take_mutex (
          rw (append_assoc takes, append_assoc gives)
            (take_all owned table_size 0
              (events_of (all_buckets unlock table_size 0) ++ unlock backups ∷ rest) (omega arith)
              (give_all owned table_size 0 (unlock backups ∷ rest)
                (IsOrderly-same rest give_mutex h)))),
    )

events_of-backup_actions :
    (full forked : Bool) (n : ℕ) (path : Bytes) (text : Run (List Event))
    → events_of (backup_actions full forked (child n path text))
      ≡ wrlock backups
        ∷ (events_of (all_buckets rdlock table_size 0)
            ++ (events_of (all_buckets unlock table_size 0) ++ unlock backups ∷ []))
unfolding all_buckets
events_of-backup_actions true true n path text = refl
events_of-backup_actions true false n path text = refl
events_of-backup_actions false true n path text = refl
events_of-backup_actions false false n path text = refl

-- A backup keeps to the order of the locks.
pub backup-KeepsOrder :
    (env : Environment) (job : Job) (id : ℕ) (st : State)
    → KeepsOrder (events_of (backup env job id (record st { actions = [] })).actions)
unfolding backup kvs_backup
backup-KeepsOrder env job id st =
    subst KeepsOrder
      (sym (
        events_of-backup_actions (leb job.max_backups st.active_backups) (env.forks id)
          (st.total_backups + 1) (backup_path (st.total_backups + 1) job.output_dir job.job_name)
          (kvs_show false st.store)))
      around
