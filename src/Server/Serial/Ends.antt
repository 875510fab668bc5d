-- ===== src/Server/Serial/Ends.antt =====
-- Every run of the threads is explained by operations that are called at once.
use so.Common.{ℕ, ◌<◌, List, [], All, ◌≡◌, refl}
use so.Server.Locking.{free, shared, owned}
use so.Server.Serial.{
  Operation, active, Thread, System, Step, start_operation, take_shared, take_owned, begin, perform,
  give, Reach, start, later, started, run, all_accesses, Whole, Serial, here, call,
}
use so.Server.Serial.Exclusion.{free-ne_owned}
use so.Server.Serial.Guards.{IsSafe, IsOrdered, Reach-IsOrdered}
use so.Server.Serial.Simulation.{
  begun, start_operation-Follows, take-Follows, give-Follows, perform-Follows, begin-Follows,
}
use so.Server.Serial.Tracking.{Follows}

module _ {C L : Type 0} where
  -- The whole operations that have been called, for a state of the threads.
  abbrev pub Explained : ℕ → Whole C L → System C L → Type 0
  Explained n w s = (v : Whole C L) × Serial n w v × Follows n s v

  Step-Explained :
      {n : ℕ} (w : Whole C L) {s t : System C L}
      → Step n s t
      → IsOrdered n s
      → Explained n w s
      → Explained n w t
  unfolding begun run
  Step-Explained w (start_operation i o os lt e fe h) ord (v, calls, f) =
      (v, calls, start_operation-Follows i o os lt e fe f)
  Step-Explained w (take_shared i b locks left lt e h) ord (v, calls, f) =
      (v, calls, take-Follows i b shared locks left lt e h f)
  Step-Explained w (take_owned i b locks left lt e h) ord (v, calls, f) =
      (v, calls, take-Follows i b owned locks left lt e (λ j lj. free-ne_owned (h j lj)) f)
  Step-Explained w {s} (begin i left lt e) ord (v, calls, f) = (
    _,
    call i left (all_accesses (s.threads i).todo) calls lt (rw e at (f.tracks i lt)).0,
    begin-Follows i left lt e ord f,
  )
  Step-Explained w (perform i a left lt e) ord (v, calls, f) =
      (v, calls, perform-Follows i a left lt e ord f)
  Step-Explained w (give i b lt e h) ord (v, calls, f) = (v, calls, give-Follows i b lt e h f)

  abbrev pub whole : (ℕ → C) → (ℕ → L) → (ℕ → List (Operation C L)) → Whole C L
  whole cells locals programs = record {
    left = λ i. all_accesses (programs i);
    locals = locals;
    cells = cells;
  }

  -- Every reachable state comes from operations that are called at once, and the parts of those that
  -- are under way.
  pub Reach-Explained :
      {n : ℕ} {cells : ℕ → C} {locals : ℕ → L} {programs : ℕ → List (Operation C L)}
      {s : System C L}
      → ((j : ℕ) → j < n → All IsSafe (programs j))
      → Reach n (started cells locals programs) s
      → Explained n (whole cells locals programs) s
  unfolding run
  Reach-Explained all start =
      (_, here, record { tracks = λ j lt. (refl, (refl, λ b ne. refl)); unowned = λ b h. refl })
  Reach-Explained {n} {cells} {locals} {programs} all (later r st) =
      Step-Explained (whole cells locals programs) st (Reach-IsOrdered all r)
        (Reach-Explained all r)

  -- The thread has come to its end and given its locks back.
  pub record IsDone (t : Thread C L) : Type 0 where
    pub phase : t.phase ≡ active []
    pub todo : t.todo ≡ []
    pub held : (b : ℕ) → t.held b ≡ free

  -- What the threads have when they are done is what the whole operations leave.
  pub record Ends (n : ℕ) (s : System C L) (v : Whole C L) : Type 0 where
    pub left : (j : ℕ) → j < n → v.left j ≡ []
    pub locals : (j : ℕ) → j < n → (s.threads j).local ≡ v.locals j
    pub cells : (b : ℕ) → s.cells b ≡ v.cells b

  pub Reach-Ends :
      {n : ℕ} {cells : ℕ → C} {locals : ℕ → L} {programs : ℕ → List (Operation C L)}
      {s : System C L}
      → ((j : ℕ) → j < n → All IsSafe (programs j))
      → Reach n (started cells locals programs) s
      → ((j : ℕ) → j < n → IsDone (s.threads j))
      → (v : Whole C L) × Serial n (whole cells locals programs) v × Ends n s v
  unfolding run
  Reach-Ends all r done =
      let (v, calls, f) = Reach-Explained all r in
      (
        v,
        calls,
        record {
          left = λ j lt. rw ((done j lt).phase, (done j lt).todo) at (f.tracks j lt).0;
          locals = λ j lt. (rw (done j lt).phase at (f.tracks j lt)).1.0;
          cells = λ b. f.unowned b (λ j lt. free-ne_owned ((done j lt).held b));
        },
      )
