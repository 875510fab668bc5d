-- ===== src/Stages/Third/Equivalence.antt =====
-- process_job_file of SO-Parte1/grupo5-ex3/main.c against the one of the server.
use mathlib.Core.Path.{subst}
use so.Common.{
  ℕ, zero, suc, ◌≤◌, ◌<◌, true, Option, none, some, [], ◌∷◌, Bytes, length, Run, ok, arith, ◌≡◌,
  refl,
}
use so.Server.Parser.{Command, eoc, get_next}
use so.Server.Parser.NextWord.{get_next-lt}
use so.Server.Job
use so.Stages.Third.Job.{State, unless_eoc, resume, job_loop, process_job_file}
use so.Stages.Third.Termination.{run_command-le, third_job_file-ends}
use so.Server.Job.Termination.{process_job_file-ends}
use so.Stages.Third.Forget.{forget_store}
use so.Stages.Third.Similar.{Similar, similar, Alike, both, neither, SameRest}
use so.Stages.Third.Commands.{forget_env, run_command-Alike}

-- Two runs of a loop that end alike, or are both out of fuel.
pub data AlikeEnds : Option (Run State) → Option (Run Job.State) → Type 0 where
  unfinished : AlikeEnds none none
  finished : {r : Run State} {q : Run Job.State} → Alike Similar r q → AlikeEnds (some r) (some q)

value-AlikeEnds :
    {r : Run State} {q : Run Job.State} → AlikeEnds (some r) (some q) → Alike Similar r q
value-AlikeEnds (finished h) = h

abbrev pub forget_state : Job.State → State
forget_state st = record {
  store = forget_store st.store;
  total_backups = st.total_backups;
  active_backups = st.active_backups;
  actions = st.actions;
}

module _ (env : Job.Environment) (job : Job.Job) where
  get_next-le : (s : Bytes) → length (get_next s).1 ≤ length s
  get_next-le [] = unfold get_next in (omega arith)
  get_next-le (c ∷ s) = omega (arith, (get_next-lt (c ∷ s) (λ e. cc)).1)

  unless_eoc-AlikeEnds :
      (cmd : Command) (st : State) (t : Job.State) (x : Option (Run State))
      (y : Option (Run Job.State))
      → Similar st t
      → AlikeEnds x y
      → AlikeEnds (unless_eoc cmd st x) (Job.unless_eoc cmd t y)
  unless_eoc-AlikeEnds eoc st t x y k h = finished (both k)
  unless_eoc-AlikeEnds _ st t x y k h = h

  resume-AlikeEnds :
      (f : State → Bytes → Option (Run State)) (g : Job.State → Bytes → Option (Run Job.State))
      (n : ℕ) {r : Run (State × Bytes)} {q : Run (Job.State × Bytes)}
      → Alike SameRest r q
      → ((after : State) (left : Bytes) → r ≡ ok (after, left) → length left ≤ n)
      → ((a : State) (b : Job.State) (s : Bytes)
          → length s ≤ n
          → Similar a b
          → AlikeEnds (f a s) (g b s))
      → AlikeEnds (resume f r) (Job.resume g q)
  resume-AlikeEnds f g n (neither why) le h = finished (neither why)
  resume-AlikeEnds f g n (both {a} {b} (k, e)) le h =
      subst (λ s. AlikeEnds (f a.0 a.1) (g b.0 s)) e (h a.0 b.0 a.1 (le a.0 a.1 refl) k)

  job_loop-AlikeEnds :
      (fuel : ℕ) (st : State) (t : Job.State) (s : Bytes)
      → length s < 256
      → Similar st t
      → AlikeEnds (job_loop (forget_env env) job fuel st s) (Job.job_loop env job fuel t s)
  unfolding job_loop Job.job_loop
  job_loop-AlikeEnds zero st t s lt k = unfinished
  job_loop-AlikeEnds (suc fuel) st t s lt k =
      let (cmd, rest) = get_next s in
      unless_eoc-AlikeEnds cmd st t _ _ k (
        resume-AlikeEnds (job_loop (forget_env env) job fuel) (Job.job_loop env job fuel)
          (length rest)
          (run_command-Alike env job cmd st t rest (omega (arith, get_next-le s, lt)) k)
          (λ after left e. run_command-le (forget_env env) job cmd st rest e)
          (λ a b u le m. job_loop-AlikeEnds fuel a b u (omega (arith, get_next-le s, lt, le)) m))

  -- On a file of fewer than 256 bytes, from the server's state without subscribers, both loops end:
  -- with the server's table without subscribers and the same counters, and the same actions in order
  -- but for those on the global lock and the names of the backup files; or both in the same fault.
  -- The server's counter of backups starts at 0 here as it does there.
  pub third_job_file-Alike :
      (st : Job.State) (input : Bytes)
      → length input < 256
      → (r : Run State) × ((q : Run Job.State) × (process_job_file
              (forget_env env)
              job
              (forget_state st)
              (some input)
              true
            ≡ some r)
          × (Job.process_job_file env job (record st { total_backups = 0 }) input ≡ some q)
          × Alike Similar r q)
  unfolding process_job_file Job.process_job_file
  third_job_file-Alike st input lt =
      let (r, e) = third_job_file-ends (forget_env env) job (forget_state st) (some input) true in
      let (q, f) = process_job_file-ends env job (record st { total_backups = 0 }) input in
      let h =
        job_loop-AlikeEnds (suc (length input)) _ _ input lt
          (similar st.store 0 st.active_backups st.actions st.actions refl) in
      (
        r,
        (
          q,
          e,
          f,
          value-AlikeEnds (
              subst (λ y. AlikeEnds (some r) y) f
                (subst
                  (λ x.
                    AlikeEnds x
                      (Job.process_job_file env job (record st { total_backups = 0 }) input))
                  e h)),
        ),
      )
