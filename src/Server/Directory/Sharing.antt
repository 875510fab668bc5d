-- ===== src/Server/Directory/Sharing.antt =====
-- thread_process_files: the index that the threads share.
use so.Common.{
  ℕ, zero, suc, ◌+◌, ◌≤◌, ◌<◌, List, [], ◌∷◌, ◌++◌, Bytes, take, length, get_or, arith, ◌≡◌, refl,
  ap, ◌∙◌, inl, inr, some, Option, ◌≢◌, none, ◌==◌, ==_iff, false, Bool-cases, sym,
}
use mathlib.Core.Path.{subst}
use so.Server.Directory.{
  Phase, waiting, testing, loading, storing, releasing, leaving, working, gone, Queue, put_phase,
  Take, lock, some_left, none_left, load, store, unlock, unlock_last, next_round, Taken, at_start,
  and_take,
}

take-snoc :
    (n : ℕ) (xs : List Bytes) → n < length xs → take n xs ++ get_or xs n [] ∷ [] ≡ take (suc n) xs
take-snoc n [] h = absurd (omega arith)
take-snoc zero (x ∷ xs) h = refl
take-snoc (suc n) (x ∷ xs) h = ap (◌∷◌ x) (take-snoc n xs (omega arith))

take-whole : (xs : List Bytes) → take (length xs) xs ≡ xs
take-whole [] = refl
take-whole (x ∷ xs) = ap (◌∷◌ x) (take-whole xs)

add-one : (n : ℕ) → n + 1 ≡ suc n
add-one n = omega arith

-- What holds of a thread: with the mutex it is its owner, and what it has read of the index stands.
abbrev IsPlaced : List Bytes → ℕ → Option ℕ → ℕ → Phase → Type 0
IsPlaced files index owner i waiting = Unit
IsPlaced files index owner i testing = owner ≡ some i
IsPlaced files index owner i loading = (owner ≡ some i) × (index < length files)
IsPlaced files index owner i (storing k) = (owner ≡ some i) × (k ≡ index) × (index < length files)
IsPlaced files index owner i releasing = owner ≡ some i
IsPlaced files index owner i leaving = (owner ≡ some i) × (length files ≤ index)
IsPlaced files index owner i working = Unit
IsPlaced files index owner i gone = length files ≤ index

-- A thread that does not own the mutex does not mind who does, nor a greater index.
apart :
    (files : List Bytes) (index later : ℕ) (owner new : Option ℕ) (j : ℕ) (p : Phase)
    → owner ≢ some j
    → index ≤ later
    → IsPlaced files index owner j p
    → IsPlaced files later new j p
apart files index later owner new j waiting ne le h = tt
apart files index later owner new j testing ne le h = absurd (ne h)
apart files index later owner new j loading ne le h = absurd (ne h.0)
apart files index later owner new j (storing k) ne le h = absurd (ne h.0)
apart files index later owner new j releasing ne le h = absurd (ne h)
apart files index later owner new j leaving ne le h = absurd (ne h.0)
apart files index later owner new j working ne le h = tt
apart files index later owner new j gone ne le h = omega (arith, le, h)

pub record IsShared (n : ℕ) (files : List Bytes) (q : Queue) : Type 0 where
  pub same : q.files ≡ files
  pub within : q.current_index ≤ length files
  pub in_order : q.begun ≡ take q.current_index files
  pub placed : (j : ℕ) → j < n → IsPlaced files q.current_index q.owner j (q.phases j)

put-IsPlaced :
    (files : List Bytes) (index : ℕ) (owner : Option ℕ) (phases : ℕ → Phase) (i j : ℕ) (p : Phase)
    → IsPlaced files index owner i p
    → ((i == j) ≡ false → IsPlaced files index owner j (phases j))
    → IsPlaced files index owner j (put_phase phases i p j)
put-IsPlaced files index owner phases i j p here there = elim (Bool-cases (i == j)) [
  | inl same ↦
      let e : i ≡ j = (==_iff i j).0 same in
      rw same (subst (λ k. IsPlaced files index owner k p) e here)
  | inr other ↦ rw other (there other)
]

-- Only one thread owns the mutex.
not_owner : {owner : Option ℕ} {i j : ℕ} → owner ≡ some i → (i == j) ≡ false → owner ≢ some j
not_owner {owner} {i} {j} mine other theirs =
    let e : ◌≡◌ {A = Option ℕ} (some i) (some j) = sym mine ∙ theirs in
    let f : i ≡ j = cc in ground arith

no_owner : {owner : Option ℕ} {j : ℕ} → owner ≡ none → owner ≢ some j
no_owner free_now theirs = cc

module _ {n : ℕ} {files : List Bytes} {q : Queue} (s : IsShared n files q) where
  at_phase :
      {i : ℕ} {p : Phase} → i < n → q.phases i ≡ p → IsPlaced files q.current_index q.owner i p
  at_phase {i} lt e = subst (IsPlaced files q.current_index q.owner i) e (s.placed i lt)

  -- The thread moves on, and shares as before.
  moves :
      (i : ℕ) (p : Phase)
      → IsPlaced files q.current_index q.owner i p
      → IsShared n files (record q { phases = put_phase q.phases i p })
  moves i p here = record {
    same = s.same;
    within = s.within;
    in_order = s.in_order;
    placed = λ j lt.
        put-IsPlaced files q.current_index q.owner q.phases i j p here (λ other. s.placed j lt);
  }

  -- The thread takes or leaves the mutex, which no other thread owns.
  passes :
      (i : ℕ) (p : Phase) (new : Option ℕ)
      → IsPlaced files q.current_index new i p
      → ((j : ℕ) → (i == j) ≡ false → q.owner ≢ some j)
      → IsShared n files (record q { owner = new; phases = put_phase q.phases i p })
  passes i p new here alone = record {
    same = s.same;
    within = s.within;
    in_order = s.in_order;
    placed = λ j lt. put-IsPlaced files q.current_index new q.phases i j p here (λ other.
        apart files q.current_index q.current_index q.owner new j (q.phases j) (alone j other)
          (omega arith) (s.placed j lt));
  }

  -- The index that the thread has read is still that of the queue.
  stores :
      (i k : ℕ)
      → IsPlaced files q.current_index q.owner i (storing k)
      → IsShared n files (record q {
        current_index = k + 1;
        begun = q.begun ++ get_or q.files k [] ∷ [];
        phases = put_phase q.phases i releasing;
      })
  stores i k (mine, read, room) = record {
    same = s.same;
    within = omega arith;
    in_order =
        rw (read, s.same, s.in_order, add-one q.current_index)
          (take-snoc q.current_index files room);
    placed = λ j lt. put-IsPlaced files (k + 1) q.owner q.phases i j releasing mine (λ other.
        apart files q.current_index (k + 1) q.owner q.owner j (q.phases j) (not_owner mine other)
          (omega arith) (s.placed j lt));
  }

Take-IsShared :
    {n : ℕ} {files : List Bytes} {q r : Queue}
    → Take n q r
    → IsShared n files q
    → IsShared n files r
Take-IsShared (lock i lt e free_now) s =
    passes s i testing (some i) refl (λ j other. no_owner free_now)
Take-IsShared {files = files} {q = q} (some_left i lt e room) s =
    let below : q.current_index < length files = rw (← s.same) room in
    moves s i loading (at_phase s lt e, below)
Take-IsShared {files = files} {q = q} (none_left i lt e past) s =
    let above : length files ≤ q.current_index = rw (← s.same) past in
    moves s i leaving (at_phase s lt e, above)
Take-IsShared {q = q} (load i lt e) s =
    let (mine, room) = at_phase s lt e in moves s i (storing q.current_index) (mine, refl, room)
Take-IsShared (store i k lt e) s = stores s i k (at_phase s lt e)
Take-IsShared (unlock i lt e) s =
    let mine = at_phase s lt e in passes s i working none tt (λ j other. not_owner mine other)
Take-IsShared (unlock_last i lt e) s =
    let (mine, above) = at_phase s lt e in
    passes s i gone none above (λ j other. not_owner mine other)
Take-IsShared (next_round i lt e) s = moves s i waiting tt

Taken-IsShared : {n : ℕ} {files : List Bytes} {q : Queue} → Taken n files q → IsShared n files q
Taken-IsShared at_start = record {
  same = refl;
  within = omega arith;
  in_order = refl;
  placed = λ j lt. tt;
}
Taken-IsShared (and_take t s) = Take-IsShared s (Taken-IsShared t)

-- However the threads are interleaved, between the lock, the test, the read and the write of the
-- index, and the unlock: what they have taken is a front of the list of files, in order and each file
-- once; and when one of the threads has left its loop, all the files have been taken.
pub Taken-in_order :
    {n : ℕ} {files : List Bytes} {q : Queue}
    → Taken n files q
    → (q.begun ≡ take q.current_index files)
      × (q.current_index ≤ length files)
      × ((i : ℕ) → i < n → q.phases i ≡ gone → q.begun ≡ files)
Taken-in_order {files = files} {q = q} t =
    let s = Taken-IsShared t in
    (
      s.in_order,
      s.within,
      λ i lt e.
          let all : q.current_index ≡ length files = omega (arith, at_phase s lt e, s.within) in
          s.in_order ∙ rw all (take-whole files),
    )
