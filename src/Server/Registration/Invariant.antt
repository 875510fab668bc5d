-- ===== src/Server/Registration/Invariant.antt =====
-- The invariant of the registration buffer: the window of the slots that are pending.
use so.Common.{ℕ, zero, suc, ◌+◌, ◌<◌, ◌%◌, Bool, true, false, List, [], ◌∷◌, ◌++◌, Bytes, ◌≡◌}
use so.Server.Kvs.{max_session_count}
use so.Server.Registration.{Host, reading, posting, Buffer, next_index}

abbrev pub one_if : Bool → ℕ
one_if true = 1
one_if false = 0

abbrev pub is_reading : Host → ℕ
is_reading reading = 1
is_reading _ = 0

abbrev pub is_posting : Host → ℕ
is_posting posting = 1
is_posting _ = 0

-- The `k` slots from index `r` on.
abbrev pub window : (ℕ → Bytes) → ℕ → ℕ → List Bytes
window slots r zero = []
window slots r (suc k) = slots r ∷ window slots (next_index r) k

-- How many requests are stored and not taken.
abbrev pub pending : Buffer → ℕ
pending b = b.clients + b.entering + one_if b.locked + is_posting b.host

pub record IsQueue (b : Buffer) : Type 0 where
  pub read_bound : b.read_index < max_session_count
  pub write_place : b.write_index ≡ (b.read_index + pending b) % max_session_count
  -- every slot is free, being filled, pending, or being given back
  pub places : b.space + is_reading b.host + pending b + b.leaving ≡ max_session_count
  pub contents : b.stored ≡ b.taken ++ window b.slots b.read_index (pending b)
