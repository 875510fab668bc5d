-- ===== src/Server/Serial/Calls.antt =====
-- Threads whose calls of kvs_write, kvs_read and kvs_delete interleave access by access, against the
-- same calls, each at once.
use mathlib.Core.Path.{subst}
use so.Common.{
  ℕ, ◌<◌, Bool, false, List, [], ◌∷◌, ◌++◌, Bytes, All, ok, fault, Fault, ◌≡◌, ◌⊎◌, refl, ◌∙◌, sym,
  ap, inl, inr,
}
use so.Server.Kvs.{Chain, HashTable, chain_at}
use so.Server.Operations.{Store, live, Event}
use so.Server.Operations.Output.{said}
use so.Server.Operations.Locks.{HasBucket}
use so.Server.Serial.{
  Access, Operation, System, Reach, Whole, Serial, here, call, started, all_accesses, update, run,
}
use so.Server.Serial.Ends.{IsDone, Ends, Reach-Ends}
use so.Server.Serial.Exclusion.{update_all}
use so.Server.Serial.Tracking.{update_self, update_other}
use so.Server.Serial.Guards.{IsSafe}
use so.Server.Serial.Cover.{operation-IsSafe}
use so.Server.Serial.Commands.{Local, Call, called, accesses_of, keys_in, operation}
use so.Server.Serial.Chains.{IsWhole, Run-cases}
use so.Server.Serial.Atomic.{Does, called-Does}

-- The table, and what each thread has written and has still to call.
pub record Shared : Type 0 where
  pub table : HashTable
  pub outputs : ℕ → Bytes
  pub calls : ℕ → List Call

-- One call after the other, each thread's in its order.
pub data Calls (n : ℕ) (s : Shared) : Shared → Type 0 where
  none_yet : Calls n s s
  then_call :
      {t : Shared} (i : ℕ) (c : Call) (cs : List Call) (after : HashTable) (status : ℕ)
      (events : List Event)
      → Calls n s t
      → i < n
      → t.calls i ≡ c ∷ cs
      → called c (live t.table) ≡ ok (live after, status, events)
      → Calls n s (record {
        table = after;
        outputs = update t.outputs i (t.outputs i ++ said events);
        calls = update t.calls i cs;
      })

-- Calls that come to one whose behaviour is undefined.
pub record Overruns (n : ℕ) (s : Shared) : Type 0 where
  pub before : Shared
  pub calls : Calls n s before
  pub thread : ℕ
  pub runs : thread < n
  pub next : Call
  pub rest : List Call
  pub waits : before.calls thread ≡ next ∷ rest
  pub why : Fault
  pub faults : called next (live before.table) ≡ fault why

abbrev pub operations : List Call → List (Operation Chain Local)
operations [] = []
operations (c ∷ cs) = operation c ∷ operations cs

abbrev pub AllHaveBuckets : List Call → Type 0
AllHaveBuckets cs = All (λ c. All HasBucket (keys_in c)) cs

operations-IsSafe : (cs : List Call) → AllHaveBuckets cs → All IsSafe (operations cs)
operations-IsSafe [] all = tt
operations-IsSafe (c ∷ cs) (h, all) = (operation-IsSafe c h, operations-IsSafe cs all)

-- The state of the whole operations is that of the calls.
record Matches (n : ℕ) (t : Shared) (v : Whole Chain Local) : Type 0 where
  whole : IsWhole t.table
  cells : v.cells ≡ chain_at t.table
  locals : (j : ℕ) → j < n → (b : Bool) × (v.locals j ≡ ok (t.outputs j, b))
  left : (j : ℕ) → j < n → v.left j ≡ all_accesses (operations (t.calls j))
  buckets : (j : ℕ) → j < n → AllHaveBuckets (t.calls j)

abbrev Outcome : ℕ → Shared → Whole Chain Local → Type 0
Outcome n s v = ((t : Shared) × Calls n s t × Matches n t v) ⊎ Overruns n s

-- The next call of a thread that has one.
next_call :
    (cs : List Call) (op : List (Access Chain Local)) (rest : List (List (Access Chain Local)))
    → all_accesses (operations cs) ≡ op ∷ rest
    → (c : Call) × ((left : List Call) × (cs ≡ c ∷ left)
        × (op ≡ accesses_of c)
        × (rest ≡ all_accesses (operations left)))
unfolding operation
next_call [] op rest e = cc
next_call (c ∷ cs) op rest e = (c, (cs, refl, cc, cc))

no_accesses : (cs : List Call) → all_accesses (operations cs) ≡ [] → cs ≡ []
no_accesses [] e = refl
no_accesses (c ∷ cs) e = cc

module _ {n : ℕ} where
  Matches-called :
      {t : Shared} {v : Whole Chain Local} (i : ℕ) (c : Call) (cs : List Call) (b : Bool)
      (r : Store × ℕ × List Event)
      → Matches n t v
      → AllHaveBuckets cs
      → (d : Does c (t.outputs i) b t.table r)
      → run (accesses_of c) (v.locals i, v.cells)
        ≡ (ok (t.outputs i ++ said r.2, d.flag), chain_at d.after)
      → Matches n
          (record {
            table = d.after;
            outputs = update t.outputs i (t.outputs i ++ said r.2);
            calls = update t.calls i cs;
          })
          (record {
            left = update v.left i (all_accesses (operations cs));
            locals = update v.locals i (run (accesses_of c) (v.locals i, v.cells)).0;
            cells = (run (accesses_of c) (v.locals i, v.cells)).1;
          })
  Matches-called {t} {v} i c cs b r m buckets d ran =
      let told = t.outputs i ++ said r.2 in
      record {
        whole = d.whole;
        cells = ap (λ p. p.1) ran;
        locals =
            update_all (λ j l. j < n → (f : Bool) × (l ≡ ok (update t.outputs i told j, f)))
              v.locals i _
              (λ lt. (
                d.flag,
                ap (λ p. p.0) ran ∙ ap (λ o. ok (o, d.flag)) (sym (update_self t.outputs i told)),
              ))
              (λ j ne lj. rw (update_other t.outputs i j told ne) (m.locals j lj));
        left =
            update_all (λ j x. j < n → x ≡ all_accesses (operations (update t.calls i cs j))) v.left
              i _ (λ lt. ap (λ k. all_accesses (operations k)) (sym (update_self t.calls i cs)))
              (λ j ne lj. rw (update_other t.calls i j cs ne) (m.left j lj));
        buckets =
            update_all (λ j x. j < n → AllHaveBuckets x) t.calls i cs (λ lt. buckets)
              (λ j ne lj. m.buckets j lj);
      }

module _ {n : ℕ} {s : Shared} where
  next-Outcome :
      {t : Shared} {v : Whole Chain Local} (i : ℕ) (c : Call) (cs : List Call)
      → i < n
      → Calls n s t
      → Matches n t v
      → t.calls i ≡ c ∷ cs
      → Outcome n s (record {
        left = update v.left i (all_accesses (operations cs));
        locals = update v.locals i (run (accesses_of c) (v.locals i, v.cells)).0;
        cells = (run (accesses_of c) (v.locals i, v.cells)).1;
      })
  next-Outcome {t} {v} i c cs lt calls m waits =
      let (h, hs) = subst AllHaveBuckets waits (m.buckets i lt) in
      let (b, local) = m.locals i lt in
      elim (Run-cases (called c (live t.table))) [
        | inr (why, stopped) ↦ inr (record {
          before = t;
          calls = calls;
          thread = i;
          runs = lt;
          next = c;
          rest = cs;
          waits = waits;
          why = why;
          faults = stopped;
        })
        | inl (r, returned) ↦
            let d = called-Does (t.outputs i) b t.table m.whole c r h returned in
            inl (
              _,
              then_call i c cs d.after r.1 r.2 calls lt waits
                  (returned ∙ ap (λ x. ok (x, r.1, r.2)) d.leaves),
              Matches-called i c cs b r m hs d (rw (local, m.cells) d.runs),
            )
      ]

  Serial-Outcome : {w v : Whole Chain Local} → Matches n s w → Serial n w v → Outcome n s v
  Serial-Outcome m here = inl (s, none_yet, m)
  Serial-Outcome m (call i op rest calls lt e) = elim (Serial-Outcome m calls) [
    | inr overrun ↦ inr overrun
    | inl (t, before, k) ↦
        let (c, (cs, waits, is_op, is_rest)) =
          next_call (t.calls i) op rest (sym (k.left i lt) ∙ e) in
        rw (is_op, is_rest) (next-Outcome i c cs lt before k waits)
  ]

-- What the threads leave is what the calls leave, and no call is left out.
pub record IsEnd (n : ℕ) (u : System Chain Local) (t : Shared) : Type 0 where
  pub no_calls : (j : ℕ) → j < n → t.calls j ≡ []
  pub outputs : (j : ℕ) → j < n → (b : Bool) × ((u.threads j).local ≡ ok (t.outputs j, b))
  pub chains : (i : ℕ) → u.cells i ≡ chain_at t.table i

-- The threads before any of them has called anything.
abbrev pub at_start : Shared → System Chain Local
at_start s = started (chain_at s.table) (λ j. ok (s.outputs j, false)) (λ j. operations (s.calls j))

module _ {n : ℕ} (s : Shared) {u : System Chain Local} where
  ended : {t : Shared} {v : Whole Chain Local} → Ends n u v → Matches n t v → IsEnd n u t
  ended {t} {v} e m = record {
    no_calls = λ j lt. no_accesses (t.calls j) (sym (m.left j lt) ∙ e.left j lt);
    outputs = λ j lt. let (b, l) = m.locals j lt in (b, e.locals j lt ∙ l);
    chains = λ i. e.cells i ∙ ap (λ f. f i) m.cells;
  }

  -- Threads that call kvs_write, kvs_read and kvs_delete on one table of 26 chains, with keys that
  -- have a bucket, access by access in any order that the bucket locks of lock_loop admit: when all
  -- are done, then either the same calls, each at once and each thread's in its order, leave those
  -- chains in the table and those outputs, or calls in such an order come to one that faults.
  pub kvs-interleaved :
      IsWhole s.table
      → ((j : ℕ) → j < n → AllHaveBuckets (s.calls j))
      → Reach n (at_start s) u
      → ((j : ℕ) → j < n → IsDone (u.threads j))
      → ((t : Shared) × Calls n s t × IsEnd n u t) ⊎ Overruns n s
  kvs-interleaved w all reached done =
      let (v, serial, e) =
        Reach-Ends (λ j lt. operations-IsSafe (s.calls j) (all j lt)) reached done in
      elim (Serial-Outcome
        (record {
          whole = w;
          cells = refl;
          locals = λ j lt. (false, refl);
          left = λ j lt. refl;
          buckets = all;
        })
        serial) [ inl (t, calls, m) ↦ inl (t, calls, ended e m) | inr overrun ↦ inr overrun ]
