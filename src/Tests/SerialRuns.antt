-- ===== src/Tests/SerialRuns.antt =====
-- Two threads that call kvs_write and kvs_read side by side on an empty table.
use so.Common.{
  ℕ, zero, suc, ◌<◌, ◌==◌, Bool-cases, Option, some, List, [], ◌∷◌, codes, replicate, arith, ◌≡◌,
  refl, ◌⊎◌, ◌≢◌, inl, inr,
}
use so.Server.Kvs.{table_size, hash, find_node}
use so.Server.Operations.{lock_loop, keys_of, sprintf}
use so.Server.Locking.{Hold, free, owned, shared}
use so.Server.Serial.{
  System, Reach, start, later, start_operation, take_owned, take_shared, begin, perform, give,
}
use so.Server.Serial.Ends.{IsDone}
use so.Server.Serial.{hold, none_held}
use so.Server.Serial.Commands.{
  Call, writing, reading, operation, write_accesses, write_chain, read_accesses, look_ups,
}
use so.Server.Serial.Calls.{
  Shared, Calls, IsEnd, Overruns, at_start, kvs-interleaved, AllHaveBuckets,
}

abbrev memory : ℕ → Option (List ℕ)
memory i = some (0 ∷ 0 ∷ 0 ∷ [])

abbrev calls : ℕ → List Call
calls zero = writing memory ((codes "a", codes "1") ∷ []) ∷ []
calls (suc j) = reading (codes "b" ∷ []) ∷ []

abbrev initial : Shared
initial = record {
  table = record { table = replicate table_size [] };
  outputs = λ j. [];
  calls = calls;
}

calls-AllHaveBuckets : (j : ℕ) → j < 2 → AllHaveBuckets (calls j)
unfolding hash keys_of
calls-AllHaveBuckets zero lt = (((0, refl), tt), tt)
calls-AllHaveBuckets (suc j) lt = (((1, refl), tt), tt)

below_two : (P : ℕ → Type 0) → P 0 → P 1 → (j : ℕ) → j < 2 → P j
below_two P p q zero lt = p
below_two P p q (suc zero) lt = q
below_two P p q (suc (suc j)) lt = absurd (omega arith)

free-ne_owned : free ≢ owned
free-ne_owned e = cc

owned-ne_free : owned ≢ free
owned-ne_free e = cc

shared-ne_free : shared ≢ free
shared-ne_free e = cc

abbrev step_1 : (u : System _ _) × Reach 2 (at_start initial) u
unfolding operation lock_loop hash keys_of write_accesses write_chain read_accesses look_ups
    find_node sprintf
step_1 = (_, later start (start_operation 0 _ _ (omega arith) refl refl (λ b. refl)))

abbrev step_2 : (u : System _ _) × Reach 2 (at_start initial) u
unfolding operation lock_loop hash keys_of write_accesses write_chain read_accesses look_ups
    find_node sprintf
step_2 = (_, later step_1.1 (start_operation 1 _ _ (omega arith) refl refl (λ b. refl)))

abbrev step_3 : (u : System _ _) × Reach 2 (at_start initial) u
unfolding operation lock_loop hash keys_of write_accesses write_chain read_accesses look_ups
    find_node sprintf
step_3 = (_, later step_2.1 (take_owned 0 0 _ _ (omega arith) refl (below_two _ refl refl)))

abbrev step_4 : (u : System _ _) × Reach 2 (at_start initial) u
unfolding operation lock_loop hash keys_of write_accesses write_chain read_accesses look_ups
    find_node sprintf
step_4 = (
  _,
  later step_3.1 (take_shared 1 1 _ _ (omega arith) refl (below_two _ free-ne_owned free-ne_owned)),
)

abbrev step_5 : (u : System _ _) × Reach 2 (at_start initial) u
unfolding operation lock_loop hash keys_of write_accesses write_chain read_accesses look_ups
    find_node sprintf
step_5 = (_, later step_4.1 (begin 1 _ (omega arith) refl))

abbrev step_6 : (u : System _ _) × Reach 2 (at_start initial) u
unfolding operation lock_loop hash keys_of write_accesses write_chain read_accesses look_ups
    find_node sprintf
step_6 = (_, later step_5.1 (begin 0 _ (omega arith) refl))

abbrev step_7 : (u : System _ _) × Reach 2 (at_start initial) u
unfolding operation lock_loop hash keys_of write_accesses write_chain read_accesses look_ups
    find_node sprintf
step_7 = (_, later step_6.1 (perform 1 _ _ (omega arith) refl))

abbrev step_8 : (u : System _ _) × Reach 2 (at_start initial) u
unfolding operation lock_loop hash keys_of write_accesses write_chain read_accesses look_ups
    find_node sprintf
step_8 = (_, later step_7.1 (perform 0 _ _ (omega arith) refl))

abbrev step_9 : (u : System _ _) × Reach 2 (at_start initial) u
unfolding operation lock_loop hash keys_of write_accesses write_chain read_accesses look_ups
    find_node sprintf
step_9 = (_, later step_8.1 (perform 1 _ _ (omega arith) refl))

abbrev step_10 : (u : System _ _) × Reach 2 (at_start initial) u
unfolding operation lock_loop hash keys_of write_accesses write_chain read_accesses look_ups
    find_node sprintf
step_10 = (_, later step_9.1 (perform 1 _ _ (omega arith) refl))

abbrev step_11 : (u : System _ _) × Reach 2 (at_start initial) u
unfolding operation lock_loop hash keys_of write_accesses write_chain read_accesses look_ups
    find_node sprintf
step_11 = (_, later step_10.1 (give 1 1 (omega arith) refl shared-ne_free))

abbrev step_12 : (u : System _ _) × Reach 2 (at_start initial) u
unfolding operation lock_loop hash keys_of write_accesses write_chain read_accesses look_ups
    find_node sprintf
step_12 = (_, later step_11.1 (give 0 0 (omega arith) refl owned-ne_free))

given_back : (i b : ℕ) (h : Hold) → hold (hold none_held i h) i free b ≡ free
given_back i b h = elim (Bool-cases (i == b)) [ inl at ↦ rw at | inr not_at ↦ rw not_at ]

all-IsDone : (j : ℕ) → j < 2 → IsDone (step_12.0.threads j)
unfolding step_12
all-IsDone =
    below_two _ (record { phase = refl; todo = refl; held = λ b. given_back 0 b owned })
      (record { phase = refl; todo = refl; held = λ b. given_back 1 b shared })

-- The write takes the lock of its bucket first, and the read ends first.
kvs-interleaved_example :
    ((t : Shared) × Calls 2 initial t × IsEnd 2 step_12.0 t) ⊎ Overruns 2 initial
kvs-interleaved_example = kvs-interleaved initial refl calls-AllHaveBuckets step_12.1 all-IsDone
