-- ===== src/Stages/First/Termination.antt =====
-- The programs of the first exercise process every file to its end.
use so.Common.{
  ℕ, zero, suc, ◌≤◌, ◌<◌, Bool, true, false, Option, none, some, List, [], ◌∷◌, Bytes, length, Run,
  ok, fault, >>=-eq-ok, arith, ◌≡◌, ◌≢◌, refl, ℤ, pos, negsuc, Option-cases, inl, inr,
}
use so.Server.Parser.{
  Command, cmd_write, cmd_read, cmd_delete, cmd_show, cmd_wait, cmd_backup, cmd_help, cmd_empty,
  cmd_invalid, eoc, get_next, parse_write, parse_read_delete, parse_wait,
}
use so.Server.Parser.Consumption.{parse_write-Leaves, parse_read_delete-Leaves, parse_wait-le}
use so.Server.Parser.NextWord.{get_next-lt}
use so.Server.Sort.{Pair}
use so.Stages.First.{Store, kvs_write, kvs_read, kvs_delete, kvs_show}
use so.Stages.First.Job.{
  max_write_size, Outcome, add_first, then_all, Action, State, run_keys, run_write, run_wait,
  run_command, job_loop, processar_ficheiro_job, jobs_of, process_all, processar_diretoria_do_job,
  resume, unless_eoc,
}

module _ (memory : ℕ → ℕ → Bool) where
  run_keys-rest :
      (operation : Store → List Bytes → Run (Store × ℕ × Bytes)) (st : State) (keys : List Bytes)
      (rest : Bytes) {after : State} {left : Bytes}
      → run_keys operation st (keys, rest) ≡ ok (after, left)
      → left ≡ rest
  run_keys-rest operation st [] rest e = cc
  run_keys-rest operation st (k ∷ ks) rest e =
      let (r, d, f) = >>=-eq-ok (operation st.store (k ∷ ks)) _ e in cc

  run_write-rest :
      (st : State) (pairs : List Pair) (rest : Bytes) {after : State} {left : Bytes}
      → run_write memory st (pairs, rest) ≡ ok (after, left)
      → left ≡ rest
  run_write-rest st [] rest e = cc
  run_write-rest st (p ∷ ps) rest e =
      let (r, d, f) = >>=-eq-ok (kvs_write (memory (length rest)) st.store (p ∷ ps)) _ e in cc

  run_wait-rest :
      (st : State) (status : ℤ) (delay : Option ℕ) (rest : Bytes) {after : State} {left : Bytes}
      → ◌≡◌ {A = Run (State × Bytes)} (ok (run_wait st status delay rest)) (ok (after, left))
      → left ≡ rest
  run_wait-rest st (negsuc n) delay rest e = cc
  run_wait-rest st (pos n) none rest e = cc
  run_wait-rest st (pos n) (some zero) rest e = cc
  run_wait-rest st (pos n) (some (suc m)) rest e = cc

  -- A command leaves at most the bytes that it got.
  run_command-le :
      (cmd : Command) (st : State) (s : Bytes) {after : State} {left : Bytes}
      → run_command memory cmd st s ≡ ok (after, left)
      → length left ≤ length s
  unfolding run_command
  run_command-le cmd_write st s e =
      let ((pairs, rest), d, f) = >>=-eq-ok (parse_write max_write_size s) _ e in
      rw (run_write-rest st pairs rest f) ((parse_write-Leaves max_write_size s (omega arith)).le d)
  run_command-le cmd_read st s e =
      let ((keys, rest), d, f) = >>=-eq-ok (parse_read_delete max_write_size s) _ e in
      rw (run_keys-rest kvs_read st keys rest f)
        ((parse_read_delete-Leaves max_write_size s (omega arith)).le d)
  run_command-le cmd_delete st s e =
      let ((keys, rest), d, f) = >>=-eq-ok (parse_read_delete max_write_size s) _ e in
      rw (run_keys-rest kvs_delete st keys rest f)
        ((parse_read_delete-Leaves max_write_size s (omega arith)).le d)
  run_command-le cmd_show st s e =
      let (text, d, f) = >>=-eq-ok (kvs_show st.store) _ e in ground arith
  run_command-le cmd_wait st s e =
      let (w, d, f) = >>=-eq-ok (parse_wait s) _ e in
      rw (run_wait-rest st w.status w.delay w.rest f) (parse_wait-le s d)
  run_command-le cmd_backup st s e = ground arith
  run_command-le cmd_help st s e = ground arith
  run_command-le cmd_empty st s e = ground arith
  run_command-le cmd_invalid st s e = ground arith
  run_command-le eoc st s e = ground arith

  unless_eoc-ne_none :
      (cmd : Command) (st : State) (next : Option (Run State))
      → next ≢ none
      → unless_eoc cmd st next ≢ none
  unless_eoc-ne_none eoc st next h = λ e. cc
  unless_eoc-ne_none _ st next h = h

  resume-ne_none :
      (next : State → Bytes → Option (Run State)) (run : Run (State × Bytes)) (n : ℕ)
      → ((after : State) (left : Bytes) → length left ≤ n → next after left ≢ none)
      → ((after : State) (left : Bytes) → run ≡ ok (after, left) → length left ≤ n)
      → resume next run ≢ none
  resume-ne_none next (ok (after, left)) n h le = h after left (le after left refl)
  resume-ne_none next (fault f) n h le = λ e. cc

  -- More fuel than bytes is enough.
  job_loop-ne_none :
      (fuel : ℕ) (st : State) (s : Bytes) → length s < fuel → job_loop memory fuel st s ≢ none
  unfolding job_loop
  job_loop-ne_none zero st s h = absurd (omega arith)
  job_loop-ne_none (suc fuel) st [] h = unfold get_next in (λ e. cc)
  job_loop-ne_none (suc fuel) st (c ∷ s) h =
      let lt = (get_next-lt (c ∷ s) (λ e. cc)).1 in
      unless_eoc-ne_none (get_next (c ∷ s)).0 st _ (
        resume-ne_none (job_loop memory fuel) _ (length (get_next (c ∷ s)).1)
          (λ after left le. job_loop-ne_none fuel after left (omega arith))
          (λ after left e. run_command-le (get_next (c ∷ s)).0 st (get_next (c ∷ s)).1 e))

  processar_ficheiro_job-ne_none :
      (input : Option Bytes) (opens : Bool) (st : State)
      → processar_ficheiro_job memory input opens st ≢ none
  unfolding processar_ficheiro_job
  processar_ficheiro_job-ne_none none opens st = λ e. cc
  processar_ficheiro_job-ne_none (some input) false st = λ e. cc
  processar_ficheiro_job-ne_none (some input) true st =
      job_loop-ne_none (suc (length input)) st input (omega arith)

add_first-ne_none :
    (first : Bytes × List Action) (rest : Outcome) → rest ≢ none → add_first first rest ≢ none
add_first-ne_none first none h = h
add_first-ne_none first (some (fault why)) h = λ e. cc
add_first-ne_none first (some (ok r)) h = λ e. cc

then_all-ne_none :
    (next : Store → Outcome) (path : Bytes) (x : Option (Run State))
    → x ≢ none
    → ((store : Store) → next store ≢ none)
    → then_all next path x ≢ none
then_all-ne_none next path none h k = λ e. h refl
then_all-ne_none next path (some (fault why)) h k = λ e. cc
then_all-ne_none next path (some (ok st)) h k = add_first-ne_none _ _ (k st.store)

module _ (memory : Bytes → ℕ → ℕ → Bool) (files : Bytes → Option Bytes) (opens : Bytes → Bool) where
  process_all-ne_none :
      (jobs : List (Bytes × Bytes)) (store : Store)
      → process_all memory files opens jobs store ≢ none
  unfolding process_all
  process_all-ne_none [] store = λ e. cc
  process_all-ne_none (j ∷ js) store =
      then_all-ne_none (process_all memory files opens js) j.1 _
        (processar_ficheiro_job-ne_none (memory j.0) (files j.0) (opens j.1) _)
        (process_all-ne_none js)

  -- Whatever the files hold and whichever open, the directory is processed to its end or to a fault.
  pub processar_diretoria_do_job-ends :
      (input_dir output_dir : Bytes) (names : Option (List Bytes)) (store : Store)
      → (r : Run (Store × List (Bytes × List Action))) × (processar_diretoria_do_job memory files
            opens input_dir output_dir names store
          ≡ some r)
  unfolding processar_diretoria_do_job
  processar_diretoria_do_job-ends input_dir output_dir none store = (ok (store, []), refl)
  processar_diretoria_do_job-ends input_dir output_dir (some names) store =
      elim (Option-cases
        (process_all memory files opens (jobs_of input_dir output_dir names) store)) [
          | inl out ↦ absurd (process_all-ne_none (jobs_of input_dir output_dir names) store out)
          | inr found ↦ found
        ]
