-- ===== src/Stages/Second/Unbounded.antt =====
-- The bound on the backups of SO-Parte1/grupo5-ex2/main.c.
use mathlib.Core.Path.{fun_ext}
use so.Common.{
  List, [], ◌∷◌, ℕ, zero, suc, leb, Bool, Option, none, some, Bytes, length, ◌≡◌, refl, ap, ◌∙◌,
  Bool-cases, inl, inr, List, ◌∷◌,
}
use so.Server.Parser.{
  Command, cmd_write, cmd_read, cmd_delete, cmd_show, cmd_wait, cmd_backup, cmd_help, cmd_empty,
  cmd_invalid, eoc, get_next,
}
use so.Stages.First.Job
use so.Server.Directory.{has_job}
use so.Stages.First.{Store}
use so.Stages.Second.Directory.{World, process_entry, process_all, process_job_directory, then_all}
use so.Stages.Second.{
  State, Environment, backup, run_command, unless_eoc, resume, job_loop, process_job_file,
}

module _ (env : Environment) (m n : ℕ) where
  backup-any : (id : ℕ) (st : State) → backup env m id st ≡ backup env n id st
  unfolding backup
  backup-any id st = elim (Bool-cases (leb m st.active_backups)) [
    | inl full ↦ elim (Bool-cases (leb n st.active_backups)) [
      | inl f ↦ rw (full, f)
      | inr f ↦ rw (full, f)
    ]
    | inr not_full ↦ elim (Bool-cases (leb n st.active_backups)) [
      | inl f ↦ rw (not_full, f)
      | inr f ↦ rw (not_full, f)
    ]
  ]

  run_command-any :
      (cmd : Command) (st : State) (s : Bytes)
      → run_command env m cmd st s ≡ run_command env n cmd st s
  unfolding run_command
  run_command-any cmd_backup st s = rw (backup-any (length s) st)
  run_command-any cmd_write st s = refl
  run_command-any cmd_read st s = refl
  run_command-any cmd_delete st s = refl
  run_command-any cmd_show st s = refl
  run_command-any cmd_wait st s = refl
  run_command-any cmd_help st s = refl
  run_command-any cmd_empty st s = refl
  run_command-any cmd_invalid st s = refl
  run_command-any eoc st s = refl

  job_loop-any :
      (fuel : ℕ) (st : State) (s : Bytes) → job_loop env m fuel st s ≡ job_loop env n fuel st s
  unfolding job_loop
  job_loop-any zero st s = refl
  job_loop-any (suc fuel) st s =
      let cmd = (get_next s).0 in
      ap (λ r. unless_eoc cmd st (resume (job_loop env m fuel) r))
        (run_command-any cmd st (get_next s).1)
      ∙ ap (λ f. unless_eoc cmd st (resume f (run_command env n cmd st (get_next s).1)))
          (fun_ext (λ t. fun_ext (λ u. job_loop-any fuel t u)))

  -- A job file is processed alike.
  process_job_file-any :
      (input : Option Bytes) (opens : Bool) (st : Job.State)
      → process_job_file env m input opens st ≡ process_job_file env n input opens st
  unfolding process_job_file
  process_job_file-any none opens st = refl
  process_job_file-any (some input) opens st = rw (job_loop-any (suc (length input)))

module _ (world : World) (input_dir output_dir : Bytes) (m n : ℕ) where
  process_all-any :
      (names : List Bytes) (store : Store)
      → process_all world input_dir output_dir m names store
        ≡ process_all world input_dir output_dir n names store
  unfolding process_all
  process_all-any [] store = refl
  process_all-any (name ∷ names) store = elim (Bool-cases (has_job name)) [
    | inl is_job ↦ rw is_job (
        ap (λ rest. then_all rest (process_entry world input_dir output_dir m name store))
          (fun_ext (λ s. process_all-any names s))
        ∙ ap (then_all (process_all world input_dir output_dir n names))
            (process_job_file-any _ m n _ _ _))
    | inr other ↦ rw other (process_all-any names store)
  ]

  -- Whatever the greatest number of backups is, a directory is processed alike, with the same
  -- children: the bound is not enforced.
  pub process_job_directory-any :
      (names : Option (List Bytes)) (store : Store)
      → process_job_directory world input_dir output_dir m names store
        ≡ process_job_directory world input_dir output_dir n names store
  unfolding process_job_directory
  process_job_directory-any none store = refl
  process_job_directory-any (some names) store = process_all-any names store
