-- ===== src/Server/Serial/Atomic.antt =====
-- kvs_write, kvs_read and kvs_delete, where they return, leave the table and the output that their
-- accesses leave when nothing comes between.
use mathlib.Core.Path.{subst}
use so.Common.{
  ℕ, if◌then◌else◌, Bool, true, false, Option, List, [], ◌∷◌, ◌++◌, Bytes, codes, All, ok, ◌>>=◌,
  append_assoc, append-nil, ◌≡◌, refl, ◌∙◌, sym, ap, inl, inr,
}
use so.Server.Kvs.{HashTable, chain_at}
use so.Server.Sort.{Pair}
use so.Server.Operations.{
  Store, live, Event, global, rdlock, wrlock, unlock, output, unlock_loop, kvs_write, kvs_read,
  kvs_delete, keys_of, write_pairs, read_loop, delete_loop,
}
use so.Server.Operations.Output.{said, said-append, between-said, unlock_loop-said}
use so.Server.Operations.Locks.{HasBucket, wrlock-IsTaking, rdlock-IsTaking}
use so.Server.Operations.Balance.{keys_Locked}
use so.Server.Serial.{run, act}
use so.Server.Serial.Commands.{
  Call, writing, reading, deleting, called, accesses_of, keys_in, delete_accesses, read_accesses,
  close_errors,
}
use so.Server.Serial.Chains.{IsWhole, Run-cases, write_pairs-Moves, look_ups-run}
use so.Server.Serial.Removals.{ok-injective, removals-Removes}

-- The result of the call is what its accesses make of the chains and the output.
pub record Does (c : Call) (out : Bytes) (b : Bool) (ht : HashTable) (r : Store × ℕ × List Event)
    : Type 0 where
  pub after : HashTable
  pub leaves : r.0 ≡ live after
  pub flag : Bool
  pub runs :
      run (accesses_of c) (ok (out, b), chain_at ht) ≡ (ok (out ++ said r.2, flag), chain_at after)
  pub whole : IsWhole after

closing : List Bool → List Event
closing hashed = unlock_loop 0 hashed ++ unlock global ∷ []

closing-said : (hashed : List Bool) → said (closing hashed) ≡ []
unfolding closing
closing-said hashed = rw (said-append (unlock_loop 0 hashed) (unlock global ∷ []), unlock_loop-said)

write_said :
    (out : Bytes) (locks : List Event) (hashed : List Bool)
    → said locks ≡ []
    → out ≡ out ++ said (locks ++ closing hashed)
unfolding closing
write_said out locks hashed silent =
    sym (append-nil out)
    ∙ ap (λ t. out ++ t) (sym (between-said locks [] (closing hashed) silent (closing-said hashed)))

read_said :
    (out : Bytes) (locks replies unlocks : List Event)
    → said locks ≡ []
    → said unlocks ≡ []
    → ((out ++ codes "[") ++ said replies) ++ codes "]\n"
      ≡ out
        ++ said
            (locks ++ (((output (codes "[") ∷ replies) ++ output (codes "]\n") ∷ []) ++ unlocks))
read_said out locks replies unlocks silent quiet =
    rw
      (
        between-said locks ((output (codes "[") ∷ replies) ++ output (codes "]\n") ∷ []) unlocks
            silent quiet,
        said-append replies (output (codes "]\n") ∷ []),
      )
      (append_assoc (out ++ codes "[") (said replies) (codes "]\n")
        ∙ append_assoc out (codes "[") (said replies ++ codes "]\n"))

delete_said :
    (out : Bytes) (locks replies : List Event) (failed : Bool) (hashed : List Bool)
    → said locks ≡ []
    → (if failed then (out ++ said replies) ++ codes "]\n" else out ++ said replies)
      ≡ out
        ++ said (
            locks
            ++ ((if failed then replies ++ output (codes "]\n") ∷ [] else replies)
                ++ closing hashed))
unfolding closing
delete_said out locks replies true hashed silent =
    rw
      (
        between-said locks (replies ++ output (codes "]\n") ∷ []) (closing hashed) silent
            (closing-said hashed),
        said-append,
      )
      (append_assoc out (said replies) (codes "]\n"))
delete_said out locks replies false hashed silent =
    rw (between-said locks replies (closing hashed) silent (closing-said hashed)) refl

module _ (out : Bytes) (b : Bool) (ht : HashTable) (w : IsWhole ht) where
  kvs_write-Does :
      (memory : ℕ → Option (List ℕ)) (ps : List Pair) (r : Store × ℕ × List Event)
      → All HasBucket (keys_of ps)
      → kvs_write memory (live ht) ps ≡ ok r
      → Does (writing memory ps) out b ht r
  unfolding kvs_write closing run
  kvs_write-Does memory ps r all ended =
      let k = keys_Locked wrlock wrlock-IsTaking (keys_of ps) all in
      elim (Run-cases (write_pairs memory 0 ps ht)) [
        | inl (after, wrote) ↦
            let m = write_pairs-Moves memory 0 ps (ok (out, b)) ht after w all wrote in
            subst (Does (writing memory ps) out b ht)
              (ok-injective (rw (k.returns, ◌>>=◌, wrote) at ended))
              (record {
                after = after;
                leaves = refl;
                flag = b;
                runs =
                    m.0
                    ∙ ap (λ t. (ok (t, b), chain_at after))
                        (write_said out (rdlock global ∷ k.events) k.after k.writes_none);
                whole = m.1;
              })
        | inr (why, stopped) ↦ let no = rw (k.returns, ◌>>=◌, stopped) at ended in cc
      ]

  kvs_read-Does :
      (keys : List Bytes) (r : Store × ℕ × List Event)
      → All HasBucket keys
      → kvs_read (live ht) keys ≡ ok r
      → Does (reading keys) out b ht r
  unfolding kvs_read read_accesses run
  kvs_read-Does keys r all ended =
      let k = keys_Locked rdlock rdlock-IsTaking keys all in
      elim (Run-cases (read_loop ht keys)) [
        | inl (replies, looked) ↦
            subst (Does (reading keys) out b ht)
              (ok-injective (rw (k.returns, ◌>>=◌, looked) at ended))
              (record {
                after = ht;
                leaves = refl;
                flag = b;
                runs =
                    look_ups-run keys _ (out ++ codes "[") b ht w all looked
                    ∙ ap (λ t. (ok (t, b), chain_at ht))
                        (read_said out k.events replies (unlock_loop 0 k.after) k.writes_none
                          (unlock_loop-said 0 k.after));
                whole = w;
              })
        | inr (why, stopped) ↦ let no = rw (k.returns, ◌>>=◌, stopped) at ended in cc
      ]

  kvs_delete-Does :
      (keys : List Bytes) (r : Store × ℕ × List Event)
      → All HasBucket keys
      → kvs_delete (live ht) keys ≡ ok r
      → Does (deleting keys) out b ht r
  unfolding kvs_delete closing delete_accesses run
  kvs_delete-Does keys r all ended =
      let k = keys_Locked wrlock wrlock-IsTaking keys all in
      elim (Run-cases (delete_loop false keys ht)) [
        | inl (s, deleted) ↦
            let m = removals-Removes keys (act close_errors ∷ []) out false ht s w all deleted in
            subst (Does (deleting keys) out b ht)
              (ok-injective (rw (k.returns, ◌>>=◌, deleted) at ended))
              (record {
                after = s.0;
                leaves = refl;
                flag = s.1;
                runs =
                    m.0
                    ∙ ap (λ t. (ok (t, s.1), chain_at s.0))
                        (delete_said out (rdlock global ∷ k.events) s.2 s.1 k.after k.writes_none);
                whole = m.1;
              })
        | inr (why, stopped) ↦ let no = rw (k.returns, ◌>>=◌, stopped) at ended in cc
      ]

  pub called-Does :
      (c : Call) (r : Store × ℕ × List Event)
      → All HasBucket (keys_in c)
      → called c (live ht) ≡ ok r
      → Does c out b ht r
  unfolding called
  called-Does (writing memory ps) r all ended = kvs_write-Does memory ps r all ended
  called-Does (reading keys) r all ended = kvs_read-Does keys r all ended
  called-Does (deleting keys) r all ended = kvs_delete-Does keys r all ended
