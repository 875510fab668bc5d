-- ===== src/Server/Serial.antt =====
-- Threads that change a shared table bucket by bucket, side by side: kvs_write, kvs_read and
-- kvs_delete of SOParte2/src/server/operations.c, one access at a time. An operation takes its locks,
-- goes through its accesses, and gives the locks back; what a thread keeps for itself is its `local`.
pub mod Accesses
pub mod Exclusion
pub mod Guards
pub mod Tracking
pub mod Simulation
pub mod Ends
pub mod Commands
pub mod Cover
pub mod Chains
pub mod Removals
pub mod Atomic
pub mod Calls
use so.Common.{ℕ, ◌<◌, ◌==◌, if◌then◌else◌, Bool, true, false, List, [], ◌∷◌, map, ◌≡◌, ◌≢◌}
use so.Server.Locking.{Hold, free, shared, owned}

-- A step of an operation: on what the thread keeps, on what it sees of one bucket, or on the bucket.
pub data Access (C L : Type 0) : Type 0 where
  act : (L → L) → Access C L
  look : ℕ → (L → C → L) → Access C L
  change : ℕ → (L → C → L × C) → Access C L

pub record Operation (C L : Type 0) : Type 0 where
  pub locks : List (ℕ × Hold)
  pub accesses : List (Access C L)

abbrev pub update : {A : Type 0} → (ℕ → A) → ℕ → A → ℕ → A
update f i a j = if i == j then a else f j

module _ {C L : Type 0} where
  abbrev pub access : Access C L → L × (ℕ → C) → L × (ℕ → C)
  access (act f) (l, cells) = (f l, cells)
  access (look b f) (l, cells) = (f l (cells b), cells)
  access (change b f) (l, cells) = ((f l (cells b)).0, update cells b (f l (cells b)).1)

  unfoldable pub run : List (Access C L) → L × (ℕ → C) → L × (ℕ → C)
  run [] s = s
  run (a ∷ left) s = run left (access a s)

abbrev pub none_held : ℕ → Hold
none_held b = free

abbrev pub hold : (ℕ → Hold) → ℕ → Hold → ℕ → Hold
hold held b h m = if b == m then h else held m

-- Where a thread is: before the locks of an operation that it still has to take, or behind them.
pub data Phase (C L : Type 0) : Type 0 where
  taking : List (ℕ × Hold) → List (Access C L) → Phase C L
  active : List (Access C L) → Phase C L

pub record Thread (C L : Type 0) : Type 0 where
  pub held : ℕ → Hold
  pub local : L
  pub phase : Phase C L
  pub todo : List (Operation C L)

pub record System (C L : Type 0) : Type 0 where
  pub threads : ℕ → Thread C L
  pub cells : ℕ → C

-- One step of one thread.
pub data Step {C L : Type 0} (n : ℕ) (s : System C L) : System C L → Type 0 where
  start_operation :
      (i : ℕ) (o : Operation C L) (os : List (Operation C L))
      → i < n
      → (s.threads i).phase ≡ active []
      → (s.threads i).todo ≡ o ∷ os
      → ((b : ℕ) → (s.threads i).held b ≡ free)
      → Step n s (record s {
        threads =
            update s.threads i
              (record (s.threads i) { phase = taking o.locks o.accesses; todo = os });
      })
  take_shared :
      (i b : ℕ) (locks : List (ℕ × Hold)) (left : List (Access C L))
      → i < n
      → (s.threads i).phase ≡ taking ((b, shared) ∷ locks) left
      → ((j : ℕ) → j < n → (s.threads j).held b ≢ owned)
      → Step n s (record s {
        threads = update s.threads i (record (s.threads i) {
          held = hold (s.threads i).held b shared;
          phase = taking locks left;
        });
      })
  take_owned :
      (i b : ℕ) (locks : List (ℕ × Hold)) (left : List (Access C L))
      → i < n
      → (s.threads i).phase ≡ taking ((b, owned) ∷ locks) left
      → ((j : ℕ) → j < n → (s.threads j).held b ≡ free)
      → Step n s (record s {
        threads = update s.threads i (record (s.threads i) {
          held = hold (s.threads i).held b owned;
          phase = taking locks left;
        });
      })
  begin :
      (i : ℕ) (left : List (Access C L))
      → i < n
      → (s.threads i).phase ≡ taking [] left
      → Step n s
          (record s { threads = update s.threads i (record (s.threads i) { phase = active left }) })
  perform :
      (i : ℕ) (a : Access C L) (left : List (Access C L))
      → i < n
      → (s.threads i).phase ≡ active (a ∷ left)
      → Step n s (record {
        threads = update s.threads i (record (s.threads i) {
          local = (access a ((s.threads i).local, s.cells)).0;
          phase = active left;
        });
        cells = (access a ((s.threads i).local, s.cells)).1;
      })
  give :
      (i b : ℕ)
      → i < n
      → (s.threads i).phase ≡ active []
      → (s.threads i).held b ≢ free
      → Step n s (record s {
        threads =
            update s.threads i (record (s.threads i) { held = hold (s.threads i).held b free });
      })

-- Every thread starts with its operations and no lock.
abbrev pub started : {C L : Type 0} → (ℕ → C) → (ℕ → L) → (ℕ → List (Operation C L)) → System C L
started cells locals programs = record {
  threads =
      λ i. record { held = none_held; local = locals i; phase = active []; todo = programs i };
  cells = cells;
}

pub data Reach {C L : Type 0} (n : ℕ) (s : System C L) : System C L → Type 0 where
  start : Reach n s s
  later : {t u : System C L} → Reach n s t → Step n t u → Reach n s u

-- The same operations, each at once: the accesses that the threads have left, what they keep, and
-- the cells.
pub record Whole (C L : Type 0) : Type 0 where
  pub left : ℕ → List (List (Access C L))
  pub locals : ℕ → L
  pub cells : ℕ → C

abbrev pub all_accesses : {C L : Type 0} → List (Operation C L) → List (List (Access C L))
all_accesses [] = []
all_accesses (o ∷ os) = o.accesses ∷ all_accesses os

pub data Serial {C L : Type 0} (n : ℕ) (w : Whole C L) : Whole C L → Type 0 where
  here : Serial n w w
  call :
      {v : Whole C L} (i : ℕ) (op : List (Access C L)) (rest : List (List (Access C L)))
      → Serial n w v
      → i < n
      → v.left i ≡ op ∷ rest
      → Serial n w (record {
        left = update v.left i rest;
        locals = update v.locals i (run op (v.locals i, v.cells)).0;
        cells = (run op (v.locals i, v.cells)).1;
      })
