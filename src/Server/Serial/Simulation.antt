-- ===== src/Server/Serial/Simulation.antt =====
-- Whatever the interleaving, the operations do what they do one after the other, each at the moment
-- when it has its locks.
use mathlib.Core.Path.{subst}
use so.Common.{ℕ, ◌<◌, ◌==◌, List, [], ◌∷◌, ◌≡◌, ◌≢◌, sym, ◌∙◌, ap, Bool-cases, inl, inr, ==_iff}
use so.Server.Locking.{Hold, free, owned}
use so.Server.Serial.{
  Access, Operation, taking, active, Thread, System, update, hold, run, access, all_accesses, Whole,
}
use so.Server.Serial.Accesses.{IsGuarded, run-SameHeld, run-not_owned, access-not_owned}
use so.Server.Serial.Exclusion.{update_all}
use so.Server.Serial.Guards.{IsOrdered}
use so.Server.Serial.Tracking.{
  update_self, update_other, hold-SameHeld, free-SameHeld, Tracks, IsUnowned, Follows,
  IsUnowned-before, quiet, Tracks-moved,
}

module _ {C L : Type 0} where
  pub start_operation-Follows :
      {n : ℕ} {s : System C L} {w : Whole C L} (i : ℕ) (o : Operation C L)
      (os : List (Operation C L))
      → i < n
      → (s.threads i).phase ≡ active []
      → (s.threads i).todo ≡ o ∷ os
      → Follows n s w
      → Follows n
          (record s {
            threads =
                update s.threads i
                  (record (s.threads i) { phase = taking o.locks o.accesses; todo = os });
          })
          w
  unfolding run
  start_operation-Follows {n} {s} {w} i o os lt e fe f =
      quiet i _ f (λ _. rw (e, fe) at (f.tracks i lt))
        (λ b new. f.unowned b (IsUnowned-before s.threads i _ b (λ h. h) new))

  pub take-Follows :
      {n : ℕ} {s : System C L} {w : Whole C L} (i b : ℕ) (h : Hold) (locks : List (ℕ × Hold))
      (left : List (Access C L))
      → i < n
      → (s.threads i).phase ≡ taking ((b, h) ∷ locks) left
      → IsUnowned n s.threads b
      → Follows n s w
      → Follows n
          (record s {
            threads = update s.threads i (record (s.threads i) {
              held = hold (s.threads i).held b h;
              phase = taking locks left;
            });
          })
          w
  unfolding run
  take-Follows {n} {s} {w} i b h locks left lt e none_owns f =
      let told = rw e at (f.tracks i lt) in
      let t : Thread C L = record (s.threads i) {
        held = hold (s.threads i).held b h;
        phase = taking locks left;
      } in
      quiet i t f
        (λ _. (
          told.0,
          (
            told.1.0,
            hold-SameHeld (s.threads i).held b h s.cells w.cells (f.unowned b none_owns) told.1.1,
          ),
        ))
        (λ m new. elim (Bool-cases (b == m)) [
          | inl at ↦ subst (λ k. s.cells k ≡ w.cells k) ((==_iff b m).0 at) (f.unowned b none_owns)
          | inr not_at ↦ f.unowned m (IsUnowned-before s.threads i t m (λ k. rw not_at at k) new)
        ])

  pub give-Follows :
      {n : ℕ} {s : System C L} {w : Whole C L} (i b : ℕ)
      → i < n
      → (s.threads i).phase ≡ active []
      → (s.threads i).held b ≢ free
      → Follows n s w
      → Follows n
          (record s {
            threads =
                update s.threads i (record (s.threads i) { held = hold (s.threads i).held b free });
          })
          w
  unfolding run
  give-Follows {n} {s} {w} i b lt e not_free f =
      let told = rw e at (f.tracks i lt) in
      quiet i _ f
        (λ _.
          rw e (told.0, (told.1.0, free-SameHeld (s.threads i).held b s.cells w.cells told.1.1)))
        (λ m new. elim (Bool-cases (b == m)) [
          | inl at ↦ subst (λ k. s.cells k ≡ w.cells k) ((==_iff b m).0 at) (told.1.1 b not_free)
          | inr not_at ↦ f.unowned m (IsUnowned-before s.threads i _ m (λ k. rw not_at at k) new)
        ])

  pub perform-Follows :
      {n : ℕ} {s : System C L} {w : Whole C L} (i : ℕ) (a : Access C L) (left : List (Access C L))
      → i < n
      → (s.threads i).phase ≡ active (a ∷ left)
      → IsOrdered n s
      → Follows n s w
      → Follows n
          (record {
            threads = update s.threads i (record (s.threads i) {
              local = (access a ((s.threads i).local, s.cells)).0;
              phase = active left;
            });
            cells = (access a ((s.threads i).local, s.cells)).1;
          })
          w
  unfolding run
  perform-Follows {n} {s} {w} i a left lt e o f =
      let told = rw e at (f.tracks i lt) in
      let cover = rw e at (o.safe i lt).0 in
      let held = (s.threads i).held in
      let l = (s.threads i).local in
      let moved = (access a (l, s.cells)).1 in
      record {
        tracks =
            update_all (λ j x. j < n → Tracks moved w j x) s.threads i _ (λ _. told)
              (λ j ne lj.
                Tracks-moved w j (s.threads j) (o.safe j lj).0
                  (λ m has.
                    access-not_owned held a left l s.cells m cover
                      (λ own. has (o.exclusive i j lt lj ne m own)))
                  (f.tracks j lj));
        unowned = λ m new.
            let before = IsUnowned-before s.threads i _ m (λ h. h) new in
            access-not_owned held a left l s.cells m cover (before i lt) ∙ f.unowned m before;
      }

  -- Behind its locks, the operation is called at once.
  unfoldable pub begun : Whole C L → ℕ → List (Access C L) → List (List (Access C L)) → Whole C L
  begun w i left rest = record {
    left = update w.left i rest;
    locals = update w.locals i (run left (w.locals i, w.cells)).0;
    cells = (run left (w.locals i, w.cells)).1;
  }

  pub begin-Follows :
      {n : ℕ} {s : System C L} {w : Whole C L} (i : ℕ) (left : List (Access C L))
      → i < n
      → (s.threads i).phase ≡ taking [] left
      → IsOrdered n s
      → Follows n s w
      → Follows n
          (record s { threads = update s.threads i (record (s.threads i) { phase = active left }) })
          (begun w i left (all_accesses (s.threads i).todo))
  unfolding begun run
  begin-Follows {n} {s} {w} i left lt e o f =
      let told = rw e at (f.tracks i lt) in
      let cover : IsGuarded (s.threads i).held left = rw e at (o.safe i lt).0 in
      let held = (s.threads i).held in
      let l = (s.threads i).local in
      let rest = all_accesses (s.threads i).todo in
      let v = begun w i left rest in
      let go = run-SameHeld held left l s.cells w.cells cover told.1.1 in
      let kept : (m : ℕ) → held m ≢ owned → v.cells m ≡ w.cells m =
        λ m ne. run-not_owned held left (w.locals i) w.cells m cover ne in
      record {
        tracks =
            update_all (λ j x. j < n → Tracks s.cells v j x) s.threads i _
              (λ _. (
                update_self w.left i rest,
                (
                  go.0
                      ∙ ap (λ k. (run left (k, w.cells)).0) told.1.0
                      ∙ sym (update_self w.locals i _),
                  λ b ne. go.1 b ne ∙ ap (λ k. (run left (k, w.cells)).1 b) told.1.0,
                ),
              ))
              (λ j ne lj.
                let other = f.tracks j lj in
                (
                  update_other w.left i j rest ne ∙ other.0,
                  (
                    other.1.0 ∙ sym (update_other w.locals i j _ ne),
                    λ b has.
                        other.1.1 b has
                        ∙ sym (kept b (λ own. has (o.exclusive i j lt lj ne b own))),
                  ),
                ));
        unowned = λ b new.
            let before = IsUnowned-before s.threads i _ b (λ h. h) new in
            f.unowned b before ∙ sym (kept b (before i lt));
      }
