-- ===== src/Server/Operations/Replies.antt =====
-- What kvs_read writes to the output file, and the buffer that it formats it in.
use so.Common.{
  ℕ, ◌≤◌, ◌<◌, ltb, List, [], ◌∷◌, ◌++◌, Bytes, All, codes, Run, ok, fault, out_of_bounds, arith,
  ◌≡◌, refl, ◌>>=◌, length, Bool-cases, inl, inr, ltb→lt, ◌∙◌, Option,
}
use so.Server.Kvs.{HashTable, max_string_size, read_pair}
use so.Server.Kvs.Table.{IsValid}
use so.Server.Kvs.Write.{read_pair-node_of}
use so.Server.Operations.{
  Store, live, Event, output, rdlock, read_loop, read_reply, sprintf, kvs_read, unlock_loop, Lock,
}
use so.Server.Operations.Locks.{HasBucket, rdlock-IsTaking, taken, released}
use so.Server.Operations.Balance.{keys_Locked, Balanced, inner-Balanced}
use so.Server.Operations.Writes.{lookup}
use so.Server.Operations.Output.{said, said-append, between-said, unlock_loop-said}

-- The reply for each key, in the order asked.
abbrev pub replies : HashTable → List Bytes → List Event
replies ht [] = []
replies ht (k ∷ ks) = output (read_reply k (lookup ht k)) ∷ replies ht ks

-- The reply of the key fits the buffer with its NUL.
abbrev pub IsShort : HashTable → Bytes → Type 0
IsShort ht k = length (read_reply k (lookup ht k)) < max_string_size

pub sprintf-short : (s : Bytes) → length s < max_string_size → sprintf s ≡ ok s
unfolding sprintf
sprintf-short s h = ground arith

sprintf-long : (s : Bytes) → max_string_size ≤ length s → sprintf s ≡ fault out_of_bounds
unfolding sprintf
sprintf-long s h = ground arith

-- What is read of a map from keys to values, one reply for each key.
abbrev pub reply_all : (Bytes → Option Bytes) → List Bytes → Bytes
reply_all m [] = []
reply_all m (k ∷ ks) = read_reply k (m k) ++ reply_all m ks

abbrev pub read_answer : (Bytes → Option Bytes) → List Bytes → Bytes
read_answer m ks = b'[' ∷ reply_all m ks ++ codes "]\n"

replies-said : (ht : HashTable) (ks : List Bytes) → said (replies ht ks) ≡ reply_all (lookup ht) ks
replies-said ht [] = refl
replies-said ht (k ∷ ks) = rw (replies-said ht ks)

-- Events that touch no lock.
abbrev pub IsQuiet : List Event → Type 0
IsQuiet es = (l : Lock) → (taken l es ≡ 0) × (released l es ≡ 0)

replies-IsQuiet :
    (ht : HashTable) (keys : List Bytes) (last : List Event)
    → IsQuiet last
    → IsQuiet (replies ht keys ++ last)
replies-IsQuiet ht [] last h = h
replies-IsQuiet ht (k ∷ ks) last h = λ l. omega (arith, replies-IsQuiet ht ks last h l)

-- `[`, one reply for each key, `]` and a newline, between the locks.
abbrev pub read_events : List Event → HashTable → List Bytes → List Event → List Event
read_events locks ht keys unlocks =
    locks ++ (((output (codes "[") ∷ replies ht keys) ++ output (codes "]\n") ∷ []) ++ unlocks)

-- What `kvs_read` does where it returns: status 0, the table as it was, and the output `[`, one
-- reply for each key in the order asked, `]` and a newline, between balanced locks.
pub record KvsRead (ht : HashTable) (keys : List Bytes) (run : Run (Store × ℕ × List Event))
    : Type 0 where
  pub locks : List Event
  pub unlocks : List Event
  pub returns : run ≡ ok (live ht, 0, read_events locks ht keys unlocks)
  pub answers : said (read_events locks ht keys unlocks) ≡ read_answer (lookup ht) keys
  pub balanced : Balanced (read_events locks ht keys unlocks)

module _ {ht : HashTable} (v : IsValid ht) where
  read_pair-lookup : (k : Bytes) → HasBucket k → read_pair ht k ≡ ok (lookup ht k)
  read_pair-lookup k (i, e) = read_pair-node_of v k e

  pub read_loop-replies :
      (keys : List Bytes)
      → All HasBucket keys
      → All (IsShort ht) keys
      → read_loop ht keys ≡ ok (replies ht keys)
  unfolding read_loop
  read_loop-replies [] h short = refl
  read_loop-replies (k ∷ ks) (b, h) (s, short) =
      rw (read_pair-lookup k b, ◌>>=◌, sprintf-short _ s, read_loop-replies ks h short)

  -- One reply that is too long is enough.
  read_loop-overrun :
      (before : List Bytes) (k : Bytes) (behind : List Bytes)
      → All HasBucket (before ++ k ∷ behind)
      → max_string_size ≤ length (read_reply k (lookup ht k))
      → read_loop ht (before ++ k ∷ behind) ≡ fault out_of_bounds
  unfolding read_loop
  read_loop-overrun [] k behind (b, h) long = rw (read_pair-lookup k b, ◌>>=◌, sprintf-long _ long)
  read_loop-overrun (x ∷ before) k behind (b, h) long =
      rw (read_pair-lookup x b, ◌>>=◌)
        (elim (Bool-cases (ltb (length (read_reply x (lookup ht x))) max_string_size)) [
          | inl fits ↦ rw (
            sprintf-short (read_reply x (lookup ht x)) (ltb→lt _ _ fits),
            ◌>>=◌,
            read_loop-overrun before k behind h long,
          )
          | inr not_fits ↦ rw (sprintf-long (read_reply x (lookup ht x)) (ground arith))
        ])

  -- On a valid table, where every key has a bucket and its reply is shorter than 40 bytes,
  -- `kvs_read` returns 0, leaves the table, and writes `[`, a reply to each key in order, and `]`,
  -- between balanced locks.
  pub kvs_read-KvsRead :
      (keys : List Bytes)
      → All HasBucket keys
      → All (IsShort ht) keys
      → KvsRead ht keys (kvs_read (live ht) keys)
  unfolding kvs_read
  kvs_read-KvsRead keys h short =
      let k = keys_Locked rdlock rdlock-IsTaking keys h in
      record {
        locks = k.events;
        unlocks = unlock_loop 0 k.after;
        returns = rw (k.returns, ◌>>=◌, read_loop-replies keys h short);
        answers =
            between-said k.events
              ((output (codes "[") ∷ replies ht keys) ++ output (codes "]\n") ∷ [])
              (unlock_loop 0 k.after) k.writes_none (unlock_loop-said 0 k.after)
            ∙ rw (said-append (replies ht keys) (output (codes "]\n") ∷ []), replies-said);
        balanced =
            inner-Balanced k ((output (codes "[") ∷ replies ht keys) ++ output (codes "]\n") ∷ [])
              (λ l.
                omega (
                  arith,
                  replies-IsQuiet ht keys (output (codes "]\n") ∷ []) (λ m. (refl, refl)) l,
                ));
      }

  -- One key whose reply, `(key,value)` or `(key,KVSERROR)`, has 40 bytes or more makes `kvs_read`
  -- overrun its buffer.
  pub kvs_read-overrun :
      (before : List Bytes) (k : Bytes) (behind : List Bytes)
      → All HasBucket (before ++ k ∷ behind)
      → max_string_size ≤ length (read_reply k (lookup ht k))
      → kvs_read (live ht) (before ++ k ∷ behind) ≡ fault out_of_bounds
  unfolding kvs_read
  kvs_read-overrun before k behind h long =
      let locked = keys_Locked rdlock rdlock-IsTaking (before ++ k ∷ behind) h in
      rw (locked.returns, ◌>>=◌, read_loop-overrun before k behind h long)
