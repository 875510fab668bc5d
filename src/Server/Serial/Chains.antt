-- ===== src/Server/Serial/Chains.antt =====
-- A call at once, and its accesses one after the other, do the same to the chains of the table.
use mathlib.Core.Path.{fun_ext}
use so.Common.{
  ℕ, suc, Bool, Option, none, some, List, [], ◌∷◌, ◌++◌, Bytes, All, pos, Run, ok, fault, ◌>>=◌,
  length, length-set, get_or-set, append_assoc, append-nil, arith, ◌≡◌, ◌⊎◌, refl, ◌∙◌, sym, ap,
  Option-cases, inl, inr, Fault, >>=-eq-ok,
}
use so.Server.Kvs.Table.{hash-lt}
use so.Server.Kvs.{
  Chain, HashTable, chain_at, set_chain, hash, table_size, find_node, update_node, set_value,
  new_node, locate, write_pair, read_pair, KeyNode,
}
use so.Server.Sort.{Pair}
use so.Server.Operations.{write_pairs, keys_of, read_loop, Event, sprintf, read_reply, output}
use so.Server.Operations.Output.{said}
use so.Server.Operations.Locks.{HasBucket}
use so.Server.Serial.{Access, run, update}
use so.Server.Serial.Commands.{Local, write_chain, write_accesses, look_ups, value_at}

-- The table has its 26 chains.
abbrev pub IsWhole : HashTable → Type 0
IsWhole ht = length ht.table ≡ table_size

-- Of three parts, the first two may be put together.
>>=_assoc :
    {A B C : Type 0} (r : Run A) (f : A → Run B) (g : B → Run C)
    → (r >>= f) >>= g ≡ r >>= (λ a. f a >>= g)
>>=_assoc (ok a) f g = refl
>>=_assoc (fault why) f g = refl

write_chain-absent :
    (memory : Option (List ℕ)) (k value : Bytes) (c : Chain)
    → find_node k c ≡ none
    → write_chain memory k value c ≡ new_node memory k value >>= λ n. ok (n ∷ c)
unfolding write_chain
write_chain-absent memory k value c absent = rw (write_chain, absent)

write_chain-found :
    (memory : Option (List ℕ)) (k value : Bytes) (c : Chain) {n : KeyNode}
    → find_node k c ≡ some n
    → write_chain memory k value c ≡ ok (update_node (set_value value) k c)
unfolding write_chain
write_chain-found memory k value c found = rw (write_chain, found)

abbrev stored : HashTable → ℕ → Chain → Run (HashTable × ℕ)
stored ht i c = ok (set_chain ht i c, 0)

module _ (ht : HashTable) (w : IsWhole ht) (k : Bytes) {i : ℕ} (e : hash k ≡ pos i) where
  pub chain_at-set_chain : (c : Chain) → chain_at (set_chain ht i c) ≡ update (chain_at ht) i c
  chain_at-set_chain c = fun_ext (λ j. get_or-set ht.table i j c [] (rw w (hash-lt k e)))

  pub set_chain-IsWhole : (c : Chain) → IsWhole (set_chain ht i c)
  set_chain-IsWhole c = length-set ht.table i c ∙ w

  pub located_at : locate ht k ≡ ok i
  located_at = rw (e, w) (ground (arith, hash-lt k e))

  write_pair-write_chain :
      (memory : Option (List ℕ)) (value : Bytes)
      → write_pair memory ht k value ≡ write_chain memory k value (chain_at ht i) >>= stored ht i
  unfolding write_pair
  write_pair-write_chain memory value =
      rw (located_at, ◌>>=◌)
        (elim (Option-cases (find_node k (chain_at ht i))) [
          | inl absent ↦
              rw (write_chain-absent memory k value (chain_at ht i) absent, absent)
                (sym
                  (>>=_assoc (new_node memory k value) (λ n. ok (n ∷ chain_at ht i)) (stored ht i)))
          | inr (n, found) ↦ rw (write_chain-found memory k value (chain_at ht i) found, found)
        ])

-- A run ends in a value or in a fault.
pub Run-cases :
    {A : Type 0} (r : Run A) → ((a : A) × (r ≡ ok a)) ⊎ ((why : Fault) × (r ≡ fault why))
Run-cases (ok a) = inl (a, refl)
Run-cases (fault why) = inr (why, refl)

-- From this table and local state to those, through the accesses.
abbrev pub Moves : List (Access Chain Local) → Local → HashTable → Local → HashTable → Type 0
Moves accesses l ht m after = (run accesses (l, chain_at ht) ≡ (m, chain_at after)) × IsWhole after

pub write_pairs-Moves :
    (memory : ℕ → Option (List ℕ)) (j : ℕ) (ps : List Pair) (l : Local) (ht after : HashTable)
    → IsWhole ht
    → All HasBucket (keys_of ps)
    → write_pairs memory j ps ht ≡ ok after
    → Moves (write_accesses memory j ps) l ht l after
unfolding write_pairs write_accesses keys_of run
write_pairs-Moves memory j [] l ht after w all ended =
    let e : ht ≡ after = cc in (ap (λ t. (l, chain_at t)) e, rw (← e) w)
write_pairs-Moves memory j (p ∷ ps) l ht after w ((i, e), all) ended =
    elim (Run-cases (write_chain (memory j) p.0 p.1 (chain_at ht i))) [
      | inl (c, wrote) ↦
          let next =
            write_pairs-Moves memory (suc j) ps l (set_chain ht i c) after
              (set_chain-IsWhole ht w p.0 e c) all
              (rw (write_pair-write_chain ht w p.0 e (memory j) p.1, wrote, ◌>>=◌) at ended) in
          (rw (e, wrote, ← chain_at-set_chain ht w p.0 e c) next.0, next.1)
      | inr (why, stopped) ↦
          let no = rw (write_pair-write_chain ht w p.0 e (memory j) p.1, stopped, ◌>>=◌) at ended in
          cc
    ]

read_pair-find_node :
    (ht : HashTable) (w : IsWhole ht) (k : Bytes) {i : ℕ} (e : hash k ≡ pos i)
    → read_pair ht k ≡ ok (value_at (find_node k (chain_at ht i)))
unfolding read_pair
read_pair-find_node ht w k {i} e =
    rw (located_at ht w k e, ◌>>=◌)
      (elim (Option-cases (find_node k (chain_at ht i))) [
        | inl absent ↦ rw absent
        | inr (n, found) ↦ rw found
      ])

pub look_ups-run :
    (keys : List Bytes) (last : List (Access Chain Local)) (out : Bytes) (b : Bool) (ht : HashTable)
    {events : List Event}
    → IsWhole ht
    → All HasBucket keys
    → read_loop ht keys ≡ ok events
    → run (look_ups keys last) (ok (out, b), chain_at ht)
      ≡ run last (ok (out ++ said events, b), chain_at ht)
unfolding read_loop look_ups run
look_ups-run [] last out b ht {events} w all ended =
    let e : [] ≡ events = cc in rw (← e, append-nil)
look_ups-run (k ∷ ks) last out b ht {events} w ((i, e), all) ended =
    let (buffer, printed, loops) =
      >>=-eq-ok (sprintf (read_reply k (value_at (find_node k (chain_at ht i))))) _
        (rw (read_pair-find_node ht w k e, ◌>>=◌) at ended) in
    let (rest, answered, last_one) = >>=-eq-ok (read_loop ht ks) _ loops in
    let e2 : output buffer ∷ rest ≡ events = cc in
    rw (e, ◌>>=◌, printed, ← e2)
      (look_ups-run ks last (out ++ buffer) b ht w all answered
        ∙ ap (λ t. run last (ok (t, b), chain_at ht)) (append_assoc out buffer (said rest)))
