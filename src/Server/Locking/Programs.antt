-- ===== src/Server/Locking/Programs.antt =====
-- What the threads of the server do with the locks, and that they never wait for each other for
-- ever: thread_process_files and the managers.
use so.Server.Operations.{kvs_delete}
use so.Server.Operations.{kvs_subscribe, kvs_unsubscribe}
use so.Server.Locking.{System, Reach}
use so.Server.Locking.Progress.{CanStep, Reach-CanStep}
use mathlib.Core.Path.{subst}
use so.Common.{
  ◌⊎◌, ends, ℕ, ◌<◌, Option, List, [], ◌++◌, Bytes, All, Run, ok, ◌≡◌, refl, Always, false,
}
use so.Server.Sort.{Pair, insertion_sort}
use so.Server.Operations.{Store, Event, kvs_write, kvs_read}
use so.Server.Operations.LockOrder.{IsLower}
use so.Server.Job.{sort_keys}
use so.Server.Locking.{none_held}
use so.Server.Locking.Order.{IsOrderly}
use so.Server.Job.{Environment, Job, backup}
use so.Server.Job
use so.Server.Locking.Copies.{events_of, backup-KeepsOrder}
use so.Server.Locking.Brackets.{KeepsOrder}
use so.Server.Operations.{kvs_show}
use so.Server.Locking.Runs.{
  kvs_show-KeepsOrder, InOrder, kvs_write-InOrder, kvs_read-InOrder, kvs_delete-InOrder,
  kvs_subscribe-InOrder, kvs_unsubscribe-InOrder,
}

-- The locks and the output of what a thread does: commands of a job file on keys that start with a
-- lower-case letter, SHOW, backups, and subscriptions, on whatever table each of them finds.
pub data Program : List Event → Type 0 where
  idle : Program []
  write :
      (memory : ℕ → Option (List ℕ)) (s : Store) (ps : List Pair) (r : Store × ℕ × List Event)
      {es : List Event}
      → All (λ (p : Pair). IsLower p.0) ps
      → kvs_write memory s (insertion_sort ps) ≡ ok r
      → Program es
      → Program (r.2 ++ es)
  read :
      (s : Store) (ks : List Bytes) (r : Store × ℕ × List Event) {es : List Event}
      → All IsLower ks
      → kvs_read s (sort_keys ks) ≡ ok r
      → Program es
      → Program (r.2 ++ es)
  delete :
      (s : Store) (ks : List Bytes) (r : Store × ℕ × List Event) {es : List Event}
      → All IsLower ks
      → kvs_delete s (sort_keys ks) ≡ ok r
      → Program es
      → Program (r.2 ++ es)
  subscribe :
      (s : Store) (key : Bytes) (fd : ℕ) (r : Store × ℕ × List Event) {es : List Event}
      → kvs_subscribe s key fd ≡ ok r
      → Program es
      → Program (r.2 ++ es)
  unsubscribe :
      (s : Store) (key : Bytes) (fd : ℕ) (r : Store × ℕ × List Event) {es : List Event}
      → kvs_unsubscribe s key fd ≡ ok r
      → Program es
      → Program (r.2 ++ es)
  show :
      (s : Store) (shown : List Event) {es : List Event}
      → kvs_show false s ≡ ok shown
      → Program es
      → Program (shown ++ es)
  back_up :
      (env : Environment) (job : Job) (id : ℕ) (st : Job.State) {es : List Event}
      → Program es
      → Program (events_of (backup env job id (record st { actions = [] })).actions ++ es)

ended :
    {run : Run (Store × ℕ × List Event)} (r : Store × ℕ × List Event)
    → InOrder run
    → run ≡ ok r
    → KeepsOrder r.2
ended r h e = elim (subst InOrder e h) [ ends k ↦ k ]

shown_in_order :
    {run : Run (List Event)} (shown : List Event)
    → Always KeepsOrder run
    → run ≡ ok shown
    → KeepsOrder shown
shown_in_order shown h e = elim (subst (Always KeepsOrder) e h) [ ends k ↦ k ]

Program-IsOrderly : {es : List Event} → Program es → IsOrderly none_held es
Program-IsOrderly idle = λ l. refl
Program-IsOrderly (write memory s ps r {es} lower e p) =
    ended r (kvs_write-InOrder memory s ps lower) e es (Program-IsOrderly p)
Program-IsOrderly (read s ks r {es} lower e p) =
    ended r (kvs_read-InOrder s ks lower) e es (Program-IsOrderly p)
Program-IsOrderly (delete s ks r {es} lower e p) =
    ended r (kvs_delete-InOrder s ks lower) e es (Program-IsOrderly p)
Program-IsOrderly (subscribe s key fd r {es} e p) =
    ended r (kvs_subscribe-InOrder s key fd) e es (Program-IsOrderly p)
Program-IsOrderly (unsubscribe s key fd r {es} e p) =
    ended r (kvs_unsubscribe-InOrder s key fd) e es (Program-IsOrderly p)
Program-IsOrderly (show s shown {es} e p) =
    shown_in_order shown (kvs_show-KeepsOrder s) e es (Program-IsOrderly p)
Program-IsOrderly (back_up env job id st {es} p) =
    backup-KeepsOrder env job id st es (Program-IsOrderly p)

-- Threads that run such programs side by side never wait for each other's locks for ever, the mutex
-- of the backups among them: however they are interleaved, at every moment all of them are done or
-- one can go on.
pub Program-CanStep :
    {n : ℕ} {programs : ℕ → List Event} {s : System}
    → ((j : ℕ) → j < n → Program (programs j))
    → Reach n programs s
    → ((j : ℕ) → j < n → (s j).todo ≡ []) ⊎ CanStep n s
Program-CanStep all r = Reach-CanStep (λ j lt. Program-IsOrderly (all j lt)) r
