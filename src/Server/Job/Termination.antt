-- ===== src/Server/Job/Termination.antt =====
-- The loop over a job file, and how many bytes each command leaves.
use so.Common.{
  ℕ, zero, suc, ◌≤◌, ◌<◌, Option, none, some, List, [], ◌∷◌, Bytes, length, Run, ok, fault,
  >>=-eq-ok, arith, ◌≡◌, ◌≢◌, refl, ℤ, pos, negsuc, Option-cases, inl, inr,
}
use so.Server.Parser.{
  Command, cmd_write, cmd_read, cmd_delete, cmd_show, cmd_wait, cmd_backup, cmd_help, cmd_empty,
  cmd_invalid, eoc, get_next, parse_write, parse_read_delete, parse_wait, max_write_size,
}
use so.Server.Parser.Consumption.{parse_write-Leaves, parse_read_delete-Leaves, parse_wait-le}
use so.Server.Parser.NextWord.{get_next-lt}
use so.Server.Sort.{Pair}
use so.Server.Operations.{Store, Event, kvs_write, kvs_read, kvs_delete, kvs_show}
use so.Server.Job.{
  Environment, Job, State, run_keys, run_write, run_wait, run_command, job_loop, process_job_file,
  resume, unless_eoc,
}

module _ (env : Environment) (job : Job) where
  pub run_keys-rest :
      (operation : Store → List Bytes → Run (Store × ℕ × List Event)) (st : State)
      (keys : List Bytes) (rest : Bytes) {after : State} {left : Bytes}
      → run_keys env job operation st (keys, rest) ≡ ok (after, left)
      → left ≡ rest
  run_keys-rest operation st [] rest e = cc
  run_keys-rest operation st (k ∷ ks) rest e =
      let (r, d, f) = >>=-eq-ok (operation st.store _) _ e in cc

  run_write-rest :
      (st : State) (pairs : List Pair) (rest : Bytes) {after : State} {left : Bytes}
      → run_write env job st (pairs, rest) ≡ ok (after, left)
      → left ≡ rest
  run_write-rest st [] rest e = cc
  run_write-rest st (p ∷ ps) rest e = let (r, d, f) = >>=-eq-ok (kvs_write _ st.store _) _ e in cc

  pub run_wait-rest :
      (st : State) (status : ℤ) (delay : Option ℕ) (rest : Bytes) {after : State} {left : Bytes}
      → ◌≡◌ {A = Run (State × Bytes)}
          (ok (run_wait env job st status delay rest))
          (ok (after, left))
      → left ≡ rest
  run_wait-rest st (negsuc n) delay rest e = cc
  run_wait-rest st (pos n) none rest e = cc
  run_wait-rest st (pos n) (some zero) rest e = cc
  run_wait-rest st (pos n) (some (suc m)) rest e = cc

  -- A command leaves at most the bytes that it got.
  pub run_command-le :
      (cmd : Command) (st : State) (s : Bytes) {after : State} {left : Bytes}
      → run_command env job cmd st s ≡ ok (after, left)
      → length left ≤ length s
  unfolding run_command
  run_command-le cmd_write st s e =
      let ((pairs, rest), d, f) = >>=-eq-ok (parse_write max_write_size s) _ e in
      rw (run_write-rest st pairs rest f) ((parse_write-Leaves max_write_size s (omega arith)).le d)
  run_command-le cmd_read st s e =
      let ((keys, rest), d, f) = >>=-eq-ok (parse_read_delete max_write_size s) _ e in
      rw (run_keys-rest kvs_read st keys rest f)
        ((parse_read_delete-Leaves max_write_size s (omega arith)).le d)
  run_command-le cmd_delete st s e =
      let ((keys, rest), d, f) = >>=-eq-ok (parse_read_delete max_write_size s) _ e in
      rw (run_keys-rest kvs_delete st keys rest f)
        ((parse_read_delete-Leaves max_write_size s (omega arith)).le d)
  run_command-le cmd_show st s e =
      let (events, d, f) = >>=-eq-ok (kvs_show _ st.store) _ e in ground arith
  run_command-le cmd_wait st s e =
      let (w, d, f) = >>=-eq-ok (parse_wait s) _ e in
      rw (run_wait-rest st w.status w.delay w.rest f) (parse_wait-le s d)
  run_command-le cmd_backup st s e = ground arith
  run_command-le cmd_help st s e = ground arith
  run_command-le cmd_empty st s e = ground arith
  run_command-le cmd_invalid st s e = ground arith
  run_command-le eoc st s e = ground arith

  pub unless_eoc-ne_none :
      (cmd : Command) (st : State) (next : Option (Run State))
      → (cmd ≢ eoc → next ≢ none)
      → unless_eoc cmd st next ≢ none
  unless_eoc-ne_none eoc st next h = λ e. cc
  unless_eoc-ne_none _ st next h = h (λ e. cc)

  pub resume-ne_none :
      (next : State → Bytes → Option (Run State)) (run : Run (State × Bytes)) (n : ℕ)
      → ((after : State) (left : Bytes) → length left ≤ n → next after left ≢ none)
      → ((after : State) (left : Bytes) → run ≡ ok (after, left) → length left ≤ n)
      → resume next run ≢ none
  resume-ne_none next (ok (after, left)) n h le = h after left (le after left refl)
  resume-ne_none next (fault f) n h le = λ e. cc

  -- More fuel than bytes is enough.
  job_loop-ne_none :
      (fuel : ℕ) (st : State) (s : Bytes) → length s < fuel → job_loop env job fuel st s ≢ none
  unfolding job_loop
  job_loop-ne_none zero st s h = absurd (omega arith)
  job_loop-ne_none (suc fuel) st [] h = unfold get_next in (λ e. cc)
  job_loop-ne_none (suc fuel) st (c ∷ s) h =
      let lt = (get_next-lt (c ∷ s) (λ e. cc)).1 in
      unless_eoc-ne_none (get_next (c ∷ s)).0 st _ λ _.
        resume-ne_none (job_loop env job fuel) _ (length (get_next (c ∷ s)).1)
          (λ after left le. job_loop-ne_none fuel after left (omega arith))
          (λ after left e. run_command-le (get_next (c ∷ s)).0 st (get_next (c ∷ s)).1 e)

  -- Every file is processed to its end or to a fault.
  pub process_job_file-ends :
      (st : State) (input : Bytes) → (r : Run State) × (process_job_file env job st input ≡ some r)
  unfolding process_job_file
  process_job_file-ends st input =
      elim (Option-cases (job_loop env job (suc (length input)) st input)) [
        | inl out ↦ absurd (job_loop-ne_none (suc (length input)) st input (omega arith) out)
        | inr found ↦ found
      ]
