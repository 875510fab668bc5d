-- ===== src/Server/Registration.antt =====
-- host_FIFO and the first part of thread_manage_session in SOParte2/src/server/main.c: the buffer
-- of three connection requests between the host thread and the managers, under two semaphores and
-- a mutex. Threads are interleaved one step at a time. The managers run the same code and hold
-- nothing of their own here, so their places are counted.
pub mod Invariant
pub mod Paths
pub mod Scans
pub mod Connect
pub mod Connection
use so.Common.{
  ℕ, zero, suc, ◌+◌, ◌-◌, ◌<◌, ◌%◌, ◌==◌, if◌then◌else◌, Bool, true, false, List, [], ◌∷◌, ◌++◌,
  Bytes, length, drop, ◌≡◌,
}
use so.Server.Kvs.{max_session_count}
use so.Server.Session.{overlay}

-- Where the host is: before `sem_wait`, before `read`, before `sem_post`.
pub data Host : Type 0 where
  waiting reading posting : Host

pub record Buffer : Type 0 where
  -- BUFFER, BUFFER_READ_INDEX and BUFFER_WRITE_INDEX
  pub slots : ℕ → Bytes
  pub read_index : ℕ
  pub write_index : ℕ
  -- SEM_BUFFER_SPACE and SEM_BUFFER_CLIENTS
  pub space : ℕ
  pub clients : ℕ
  pub host : Host
  -- managers past `sem_wait` and before the mutex; whether one holds it; managers past the mutex
  -- and before `sem_post`
  pub entering : ℕ
  pub locked : Bool
  pub leaving : ℕ
  -- what the host has stored and what the managers have taken, in order
  pub stored : List Bytes
  pub taken : List Bytes

abbrev pub update : (ℕ → Bytes) → ℕ → Bytes → ℕ → Bytes
update slots i m j = if i == j then m else slots j

abbrev pub next_index : ℕ → ℕ
next_index i = (i + 1) % max_session_count

-- What a slot holds after `read` has put a message over its front.
abbrev pub fill : Buffer → Bytes → Bytes
fill b message = overlay message (b.slots b.write_index)

-- One step of one thread.
pub data Step (b : Buffer) : Buffer → Type 0 where
  host_wait :
      b.host ≡ waiting → 0 < b.space → Step b (record b { space = b.space - 1; host = reading })
  host_read :
      (message : Bytes)
      → b.host ≡ reading
      → Step b (record b {
        slots = update b.slots b.write_index (fill b message);
        write_index = next_index b.write_index;
        host = posting;
        stored = b.stored ++ fill b message ∷ [];
      })
  host_post : b.host ≡ posting → Step b (record b { clients = b.clients + 1; host = waiting })
  manager_wait :
      0 < b.clients → Step b (record b { clients = b.clients - 1; entering = b.entering + 1 })
  manager_lock :
      0 < b.entering
      → b.locked ≡ false
      → Step b (record b { entering = b.entering - 1; locked = true })
  manager_copy :
      b.locked ≡ true
      → Step b (record b {
        read_index = next_index b.read_index;
        locked = false;
        leaving = b.leaving + 1;
        taken = b.taken ++ b.slots b.read_index ∷ [];
      })
  manager_post : 0 < b.leaving → Step b (record b { space = b.space + 1; leaving = b.leaving - 1 })

-- `main`: the semaphores at MAX_SESSION_COUNT and 0, and the buffer zeroed.
abbrev pub initial : (ℕ → Bytes) → Buffer
initial slots = record {
  slots = slots;
  read_index = 0;
  write_index = 0;
  space = max_session_count;
  clients = 0;
  host = waiting;
  entering = 0;
  locked = false;
  leaving = 0;
  stored = [];
  taken = [];
}

pub data Reach (slots : ℕ → Bytes) : Buffer → Type 0 where
  start : Reach slots (initial slots)
  later : {b c : Buffer} → Reach slots b → Step b c → Reach slots c
