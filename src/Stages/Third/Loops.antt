-- ===== src/Stages/Third/Loops.antt =====
-- The loops of the operations of SO-Parte1/grupo5-ex3 against those of the server.
use so.Common.{
  ℕ, zero, suc, if◌then◌else◌, Bool, true, false, Option, none, some, List, [], ◌∷◌, Bytes, Run, ok,
  fault, ◌>>=◌, ◌≡◌, refl, length, get_or, set, in_bounds, codes, inl, inr,
}
use so.Server.Kvs
use so.Server.Kvs.{Chain}
use so.Server.Sort.{Pair}
use so.Server.Operations
use so.Server.Operations.{Lock, global, bucket, Event, rdlock, wrlock, unlock, output}
use so.Stages.Table.{hash, write_pair, read_pair, delete_pair}
use so.Stages.Table
use so.Stages.Table.Forget.{
  allocated, forget, Run-cases, write_pair-forget, read_pair-forget, delete_pair-forget,
}
use so.Stages.Third.Operations.{
  lock_loop, unlock_loop, write_pairs, keys_of, sprintf, read_reply, read_loop, missing_reply,
  delete_loop,
}

pub lock_loop-same :
    (kind : Lock → Event) (keys : List Bytes) (hashed : List Bool)
    → lock_loop kind keys hashed ≡ Operations.lock_loop kind keys hashed
unfolding lock_loop Operations.lock_loop hash Kvs.hash
lock_loop-same kind [] hashed = refl
lock_loop-same kind (k ∷ ks) hashed = elim (Run-cases (in_bounds (Kvs.hash k) (length hashed))) [
  | inl (why, e) ↦ rw e
  | inr (i, e) ↦ rw (
    e,
    ◌>>=◌,
    lock_loop-same kind ks (if get_or hashed i false then hashed else set hashed i true),
  )
]

pub unlock_loop-same :
    (i : ℕ) (hashed : List Bool) → unlock_loop i hashed ≡ Operations.unlock_loop i hashed
unfolding unlock_loop Operations.unlock_loop
unlock_loop-same i [] = refl
unlock_loop-same i (b ∷ bs) = rw (unlock_loop-same (suc i) bs)

pub keys_of-same : (ps : List Pair) → keys_of ps ≡ Operations.keys_of ps
unfolding keys_of Operations.keys_of
keys_of-same [] = refl
keys_of-same (p ∷ ps) = rw (keys_of-same ps)

sprintf-same : (text : Bytes) → sprintf text ≡ Operations.sprintf text
unfolding sprintf Operations.sprintf
sprintf-same text = refl

abbrev pub forget_run : Run Kvs.HashTable → Run Table.HashTable
forget_run (fault why) = fault why
forget_run (ok ht) = ok (forget ht)

pub write_pairs-same :
    (memory : ℕ → Option (List ℕ)) (i : ℕ) (ps : List Pair) (ht : Kvs.HashTable)
    → write_pairs (λ j. allocated (memory j)) i ps (forget ht)
      ≡ forget_run (Operations.write_pairs memory i ps ht)
unfolding write_pairs Operations.write_pairs
write_pairs-same memory i [] ht = refl
write_pairs-same memory i (p ∷ ps) ht = elim (Run-cases (Kvs.write_pair (memory i) ht p.0 p.1)) [
  | inl (why, e) ↦ rw (write_pair-forget ht p.0 (memory i) p.1, e)
  | inr (r, e) ↦
      rw (write_pair-forget ht p.0 (memory i) p.1, e, ◌>>=◌)
        (write_pairs-same memory (suc i) ps r.0)
]

pub read_loop-same :
    (ht : Kvs.HashTable) (ks : List Bytes) → read_loop (forget ht) ks ≡ Operations.read_loop ht ks
unfolding read_loop Operations.read_loop
read_loop-same ht [] = refl
read_loop-same ht (k ∷ ks) = elim (Run-cases (Kvs.read_pair ht k)) [
  | inl (why, e) ↦ rw (read_pair-forget ht k, e)
  | inr (none, e) ↦
      rw (read_pair-forget ht k, e, ◌>>=◌, sprintf-same (read_reply k none), read_loop-same ht ks)
  | inr (some value, e) ↦ rw (
    read_pair-forget ht k,
    e,
    ◌>>=◌,
    sprintf-same (read_reply k (some value)),
    read_loop-same ht ks,
  )
]

abbrev pub forget_deleted :
    Run (Kvs.HashTable × Bool × List Event) → Run (Table.HashTable × Bool × List Event)
forget_deleted (fault why) = fault why
forget_deleted (ok (ht, failed, events)) = ok (forget ht, failed, events)

-- Behind a key that is missing.
reported :
    (b : Bool) (text : Bytes) (x : Run Bytes) (r : Run (Table.HashTable × Bool × List Event))
    (s : Run (Kvs.HashTable × Bool × List Event))
    → r ≡ forget_deleted s
    → (do
      buffer ← x
      (final, failed, events) ← r
      ok (
        final,
        failed,
        if b then output buffer ∷ events else output text ∷ output buffer ∷ events,
      ))
      ≡ forget_deleted (do
        buffer ← x
        (final, failed, events) ← s
        ok (
          final,
          failed,
          if b then output buffer ∷ events else output text ∷ output buffer ∷ events,
        ))
reported b text (fault why) r s e = refl
reported b text (ok buffer) r (fault why) e = rw e
reported b text (ok buffer) r (ok s) e = rw e

pub delete_loop-same :
    (b : Bool) (ks : List Bytes) (ht : Kvs.HashTable)
    → delete_loop b ks (forget ht) ≡ forget_deleted (Operations.delete_loop b ks ht)
unfolding delete_loop Operations.delete_loop
delete_loop-same b [] ht = refl
delete_loop-same b (k ∷ ks) ht = elim (Run-cases (Kvs.delete_pair ht k)) [
  | inl (why, e) ↦ rw (delete_pair-forget ht k, e)
  | inr ((after, zero), e) ↦ rw (delete_pair-forget ht k, e) (delete_loop-same b ks after)
  | inr ((after, suc n), e) ↦
      rw (delete_pair-forget ht k, e, sprintf-same (missing_reply k))
        (reported b (codes "[") (Operations.sprintf (missing_reply k))
          (delete_loop true ks (forget after)) (Operations.delete_loop true ks after)
          (delete_loop-same true ks after))
]
