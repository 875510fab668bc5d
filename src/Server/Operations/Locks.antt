-- ===== src/Server/Operations/Locks.antt =====
-- The locks that the loops over the keys take and release.
use so.Common.{
  ℕ, zero, suc, ◌+◌, ◌≤◌, ◌<◌, ◌==◌, if◌then◌else◌, Bool, true, false, List, [], ◌∷◌, ◌++◌, Bytes,
  All, pos, Run, ok, in_bounds, length, get_or, set, length-set, get_or-set, arith, ◌≡◌, refl, ◌∙◌,
  ◌>>=◌, Bool-cases, inl, inr,
}
use so.Server.Operations.Output.{said}
use so.Server.Kvs.{hash, table_size}
use so.Server.Kvs.Table.{hash-lt}
use so.Server.Operations.{
  Lock, global, backups, bucket, Event, rdlock, wrlock, unlock, lock_loop, unlock_loop,
}

abbrev pub same_lock : Lock → Lock → Bool
same_lock global global = true
same_lock backups backups = true
same_lock (bucket i) (bucket j) = i == j
same_lock _ _ = false

abbrev pub one_if : Bool → ℕ
one_if true = 1
one_if false = 0

one_if-le : (b : Bool) → one_if b ≤ 1
one_if-le true = omega arith
one_if-le false = omega arith

abbrev pub takes : Lock → Event → ℕ
takes l (rdlock m) = one_if (same_lock l m)
takes l (wrlock m) = one_if (same_lock l m)
takes l _ = 0

abbrev pub releases : Lock → Event → ℕ
releases l (unlock m) = one_if (same_lock l m)
releases l _ = 0

-- How often a lock is taken, and how often it is released.
abbrev pub taken : Lock → List Event → ℕ
taken l [] = 0
taken l (e ∷ es) = takes l e + taken l es

abbrev pub released : Lock → List Event → ℕ
released l [] = 0
released l (e ∷ es) = releases l e + released l es

pub taken-append : (l : Lock) (xs ys : List Event) → taken l (xs ++ ys) ≡ taken l xs + taken l ys
taken-append l [] ys = omega arith
taken-append l (x ∷ xs) ys = omega (arith, taken-append l xs ys)

pub released-append :
    (l : Lock) (xs ys : List Event) → released l (xs ++ ys) ≡ released l xs + released l ys
released-append l [] ys = omega arith
released-append l (x ∷ xs) ys = omega (arith, released-append l xs ys)

-- The key has a bucket.
abbrev pub HasBucket : Bytes → Type 0
HasBucket k = (i : ℕ) × (hash k ≡ pos i)

abbrev pub mark : List Bool → ℕ → ℕ
mark hashed i = one_if (get_or hashed i false)

-- A kind of lock event that takes its lock.
abbrev pub IsTaking : (Lock → Event) → Type 0
IsTaking kind =
    (l m : Lock)
    → (takes l (kind m) ≡ one_if (same_lock l m))
      × (releases l (kind m) ≡ 0)
      × ((es : List Event) → said (kind m ∷ es) ≡ said es)

pub rdlock-IsTaking : IsTaking rdlock
rdlock-IsTaking l m = (refl, refl, λ es. refl)

pub wrlock-IsTaking : IsTaking wrlock
wrlock-IsTaking l m = (refl, refl, λ es. refl)

-- What the loop does to the marks, and the locks it takes.
pub record Locked (keys : List Bytes) (hashed : List Bool) (run : Run (List Bool × List Event))
    : Type 0 where
  pub after : List Bool
  pub events : List Event
  pub returns : run ≡ ok (after, events)
  pub width : length after ≡ length hashed
  pub takes_marked : (j : ℕ) → mark after j ≡ mark hashed j + taken (bucket j) events
  pub not_global : taken global events ≡ 0
  pub not_backups : taken backups events ≡ 0
  pub releases_none : (l : Lock) → released l events ≡ 0
  pub writes_none : said events ≡ []
  pub covers : All (λ k. (i : ℕ) → hash k ≡ pos i → mark after i ≡ 1) keys

pub located :
    (k : Bytes) (hashed : List Bool) {i : ℕ}
    → length hashed ≡ table_size
    → hash k ≡ pos i
    → in_bounds (hash k) (length hashed) ≡ ok i
located k hashed w e = rw (e, w) (ground (arith, hash-lt k e))

module _ (kind : Lock → Event) (taking : IsTaking kind) where
  module _ {k : Bytes} {ks : List Bytes} {hashed : List Bool} {i : ℕ} where
    already :
        length hashed ≡ table_size
        → hash k ≡ pos i
        → get_or hashed i false ≡ true
        → Locked ks hashed (lock_loop kind ks hashed)
        → Locked (k ∷ ks) hashed (lock_loop kind (k ∷ ks) hashed)
    unfolding lock_loop
    already w e old r = record {
      after = r.after;
      events = r.events;
      returns = rw (located k hashed w e, ◌>>=◌, old, if◌then◌else◌, r.returns);
      width = r.width;
      takes_marked = r.takes_marked;
      not_global = r.not_global;
      not_backups = r.not_backups;
      releases_none = r.releases_none;
      writes_none = r.writes_none;
      covers =
          (λ j f. ground (arith, r.takes_marked i, one_if-le (get_or r.after i false)), r.covers);
    }

    newly :
        length hashed ≡ table_size
        → hash k ≡ pos i
        → get_or hashed i false ≡ false
        → Locked ks (set hashed i true) (lock_loop kind ks (set hashed i true))
        → Locked (k ∷ ks) hashed (lock_loop kind (k ∷ ks) hashed)
    unfolding lock_loop
    newly w e new r = record {
      after = r.after;
      events = kind (bucket i) ∷ r.events;
      returns = rw (located k hashed w e, ◌>>=◌, new, if◌then◌else◌, r.returns);
      width = r.width ∙ length-set hashed i true;
      takes_marked = λ j. ground (
        arith,
        r.takes_marked j,
        (taking (bucket j) (bucket i)).0,
        get_or-set hashed i j true false (rw w (hash-lt k e)),
      );
      not_global = omega (arith, (taking global (bucket i)).0, r.not_global);
      not_backups = omega (arith, (taking backups (bucket i)).0, r.not_backups);
      releases_none = λ l. omega (arith, (taking l (bucket i)).1, r.releases_none l);
      writes_none = (taking global (bucket i)).2 r.events ∙ r.writes_none;
      covers = (
        λ j f. ground (
          arith,
          r.takes_marked i,
          one_if-le (get_or r.after i false),
          get_or-set hashed i i true false (rw w (hash-lt k e)),
        ),
        r.covers,
      );
    }

  pub lock_loop-Locked :
      (keys : List Bytes) (hashed : List Bool)
      → length hashed ≡ table_size
      → All HasBucket keys
      → Locked keys hashed (lock_loop kind keys hashed)
  unfolding lock_loop
  lock_loop-Locked [] hashed w h = record {
    after = hashed;
    events = [];
    returns = refl;
    width = refl;
    takes_marked = λ j. omega arith;
    not_global = refl;
    not_backups = refl;
    releases_none = λ l. refl;
    writes_none = refl;
    covers = tt;
  }
  lock_loop-Locked (k ∷ ks) hashed w ((i, e), h) = elim (Bool-cases (get_or hashed i false)) [
    | inl old ↦ already w e old (lock_loop-Locked ks hashed w h)
    | inr new ↦
        newly w e new (lock_loop-Locked ks (set hashed i true) (length-set hashed i true ∙ w) h)
  ]

unlock_loop-below :
    (m i : ℕ) (hashed : List Bool) → m < i → released (bucket m) (unlock_loop i hashed) ≡ 0
unfolding unlock_loop
unlock_loop-below m i [] h = refl
unlock_loop-below m i (b ∷ bs) h = ground (arith, unlock_loop-below m (suc i) bs)

pub unlock_loop-not_global :
    (i : ℕ) (hashed : List Bool) → released global (unlock_loop i hashed) ≡ 0
unfolding unlock_loop
unlock_loop-not_global i [] = refl
unlock_loop-not_global i (b ∷ bs) = ground (arith, unlock_loop-not_global (suc i) bs)

pub unlock_loop-not_backups :
    (i : ℕ) (hashed : List Bool) → released backups (unlock_loop i hashed) ≡ 0
unfolding unlock_loop
unlock_loop-not_backups i [] = refl
unlock_loop-not_backups i (b ∷ bs) = ground (arith, unlock_loop-not_backups (suc i) bs)

pub unlock_loop-released :
    (j i : ℕ) (hashed : List Bool)
    → released (bucket (i + j)) (unlock_loop i hashed) ≡ mark hashed j
unfolding unlock_loop
unlock_loop-released j i [] = refl
unlock_loop-released zero i (b ∷ bs) = ground (arith, unlock_loop-below (i + 0) (suc i) bs)
unlock_loop-released (suc j) i (b ∷ bs) =
    let e : i + suc j ≡ suc i + j = omega arith in
    rw e (ground (arith, unlock_loop-released j (suc i) bs))

pub unlock_loop-taken : (l : Lock) (i : ℕ) (hashed : List Bool) → taken l (unlock_loop i hashed) ≡ 0
unfolding unlock_loop
unlock_loop-taken l i [] = refl
unlock_loop-taken l i (b ∷ bs) = ground (arith, unlock_loop-taken l (suc i) bs)
