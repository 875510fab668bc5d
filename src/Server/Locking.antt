-- ===== src/Server/Locking.antt =====
-- Threads that run operations side by side: the read-write locks of `ThreadData`, between the
-- threads of thread_process_files and the managers. Each thread has the events of its operations
-- to go through, one at a time. A lock is taken as POSIX has it: for reading while no thread holds
-- it for writing, and for writing while no thread holds it at all. The mutex of the backups is a lock
-- that is taken for writing only. The `wait` for a child under that mutex is no event: it is taken to
-- return, since a child takes no lock.
pub mod Order
pub mod Exclusion
pub mod Holds
pub mod Brackets
pub mod Copies
pub mod Runs
pub mod Progress
pub mod Programs
use so.Common.{
  ℕ, zero, suc, ◌+◌, ◌<◌, ◌==◌, if◌then◌else◌, Bool, true, false, List, [], ◌∷◌, Bytes, ◌≡◌, ◌≢◌,
}
use so.Server.Operations.{Lock, global, bucket, Event, rdlock, wrlock, unlock, output}
use so.Server.Operations.Locks.{same_lock}

-- How a thread holds a lock.
pub data Hold : Type 0 where
  free shared owned : Hold

pub record Thread : Type 0 where
  pub held : Lock → Hold
  pub todo : List Event

abbrev pub hold : (Lock → Hold) → Lock → Hold → Lock → Hold
hold held l h m = if same_lock l m then h else held m

abbrev pub none_held : Lock → Hold
none_held l = free

-- The threads 0 to n - 1.
abbrev pub System : Type 0
System = ℕ → Thread

abbrev pub put : System → ℕ → Thread → System
put s i t j = if i == j then t else s j

-- One event of one thread.
pub data Step (n : ℕ) (s : System) : System → Type 0 where
  take_shared :
      (i : ℕ) (l : Lock) (es : List Event)
      → i < n
      → (s i).todo ≡ rdlock l ∷ es
      → ((j : ℕ) → j < n → (s j).held l ≢ owned)
      → Step n s (put s i (record { held = hold (s i).held l shared; todo = es }))
  take_owned :
      (i : ℕ) (l : Lock) (es : List Event)
      → i < n
      → (s i).todo ≡ wrlock l ∷ es
      → ((j : ℕ) → j < n → (s j).held l ≡ free)
      → Step n s (put s i (record { held = hold (s i).held l owned; todo = es }))
  release :
      (i : ℕ) (l : Lock) (es : List Event)
      → i < n
      → (s i).todo ≡ unlock l ∷ es
      → Step n s (put s i (record { held = hold (s i).held l free; todo = es }))
  write_out :
      (i : ℕ) (text : Bytes) (es : List Event)
      → i < n
      → (s i).todo ≡ output text ∷ es
      → Step n s (put s i (record { held = (s i).held; todo = es }))

-- Every thread starts with its program and no lock.
abbrev pub started : (ℕ → List Event) → System
started programs i = record { held = none_held; todo = programs i }

pub data Reach (n : ℕ) (programs : ℕ → List Event) : System → Type 0 where
  start : Reach n programs (started programs)
  later : {s t : System} → Reach n programs s → Step n s t → Reach n programs t
