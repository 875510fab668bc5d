-- ===== src/Server/Operations/LockOrder.antt =====
-- The order in which the loop over the sorted keys takes the bucket locks.
use so.Common.{
  ℕ, ◌-◌, ◌≤◌, ◌<◌, if◌then◌else◌, Bool, true, false, List, [], ◌∷◌, Bytes, All, strcmp, str_gt,
  pos, Run, ok, length, get_or, set, length-set, get_or-set, get_or-replicate, length-replicate,
  arith, ◌≡◌, refl, ◌∙◌, ◌>>=◌, Bool-cases, inl, inr, ◌≢◌,
}
use so.Server.Kvs.{hash, table_size}
use so.Server.Kvs.Table.{hash-lt}
use so.Server.Operations.{Lock, bucket, Event, rdlock, wrlock, lock_loop, none_hashed}
use so.Server.Operations.Locks.{located}

abbrev pub place : Event → ℕ
place (rdlock (bucket i)) = i
place (wrlock (bucket i)) = i
place _ = 0

-- Each lock stands above the one before it, and the first above `b`.
abbrev pub RisesAbove : ℕ → List Event → Type 0
RisesAbove b [] = Unit
RisesAbove b (e ∷ es) = (b < place e) × RisesAbove (place e) es

abbrev pub Rises : List Event → Type 0
Rises [] = Unit
Rises (e ∷ es) = RisesAbove (place e) es

-- A key whose first byte is a lower-case letter.
abbrev pub IsLower : Bytes → Type 0
IsLower [] = ⊥
IsLower (c ∷ cs) = (b'a' ≤ c) × (c ≤ b'z')

abbrev pub IsSortedKeys : List Bytes → Type 0
IsSortedKeys [] = Unit
IsSortedKeys (k ∷ ks) = All (λ q. str_gt k q ≡ false) ks × IsSortedKeys ks

abbrev pub letter : Bytes → ℕ
letter [] = 0
letter (c ∷ cs) = c - b'a'

pub hash-letter : (k : Bytes) → IsLower k → hash k ≡ pos (letter k)
unfolding hash
hash-letter [] h = absurd h
hash-letter (c ∷ cs) h = ground arith

letter-le : (a b : Bytes) → IsLower a → IsLower b → str_gt a b ≡ false → letter a ≤ letter b
unfolding strcmp
letter-le [] b h k e = absurd h
letter-le (x ∷ a) [] h k e = absurd k
letter-le (x ∷ a) (y ∷ b) h k e = ground arith

RisesAbove-mono : (b c : ℕ) (es : List Event) → b ≤ c → RisesAbove c es → RisesAbove b es
RisesAbove-mono b c [] le h = tt
RisesAbove-mono b c (e ∷ es) le h = (omega arith, h.1)

pub sorted-above :
    (k : Bytes) (ks : List Bytes)
    → IsLower k
    → All IsLower ks
    → All (λ q. str_gt k q ≡ false) ks
    → All (λ q. letter k ≤ letter q) ks
sorted-above k [] h hs e = tt
sorted-above k (q ∷ ks) h hs e = (letter-le k q h hs.0 e.0, sorted-above k ks h hs.1 e.1)

-- The loop returns, and its events have the property.
abbrev pub EventsOf : (List Event → Type 0) → Run (List Bool × List Event) → Type 0
EventsOf P run = (r : List Bool × List Event) × (run ≡ ok r) × P r.1

marked_now :
    (k : Bytes) (hashed : List Bool) {i : ℕ}
    → length hashed ≡ table_size
    → hash k ≡ pos i
    → get_or (set hashed i true) i false ≡ true
marked_now k hashed {i} w e = get_or-set hashed i i true false (rw w (hash-lt k e)) ∙ ground arith

pub marked-ne :
    (hashed : List Bool) (i j : ℕ)
    → get_or hashed i false ≡ true
    → get_or hashed j false ≡ false
    → i ≢ j
marked-ne hashed i j h k = λ e. cc

-- A bucket that is not marked is locked before those of the other keys.
pub lock_first :
    (kind : Lock → Event) (k : Bytes) (ks : List Bytes) (hashed : List Bool) {i : ℕ}
    {r : List Bool × List Event}
    → length hashed ≡ table_size
    → hash k ≡ pos i
    → get_or hashed i false ≡ false
    → lock_loop kind ks (set hashed i true) ≡ ok r
    → lock_loop kind (k ∷ ks) hashed ≡ ok (r.0, kind (bucket i) ∷ r.1)
unfolding lock_loop
lock_first kind k ks hashed w e new f = rw (located k hashed w e, ◌>>=◌, new, if◌then◌else◌, f)

pub none_hashed-length : length none_hashed ≡ table_size
none_hashed-length = length-replicate table_size false

module _ (kind : Lock → Event) (at : (i : ℕ) → place (kind (bucket i)) ≡ i) where
  lock_loop-RisesAbove :
      (keys : List Bytes) (hashed : List Bool) (b : ℕ)
      → length hashed ≡ table_size
      → get_or hashed b false ≡ true
      → All IsLower keys
      → All (λ q. b ≤ letter q) keys
      → IsSortedKeys keys
      → EventsOf (RisesAbove b) (lock_loop kind keys hashed)
  unfolding lock_loop
  lock_loop-RisesAbove [] hashed b w m lower above sorted = ((hashed, []), refl, tt)
  lock_loop-RisesAbove (k ∷ ks) hashed b w m lower above sorted =
      let e = hash-letter k lower.0 in
      elim (Bool-cases (get_or hashed (letter k) false)) [
        | inl old ↦
            let (r, f, rises) = lock_loop-RisesAbove ks hashed b w m lower.1 above.1 sorted.1 in
            (r, rw (located k hashed w e, ◌>>=◌, old, if◌then◌else◌, f), rises)
        | inr new ↦
            let (r, f, rises) =
              lock_loop-RisesAbove ks (set hashed (letter k) true) (letter k)
                (length-set hashed (letter k) true ∙ w) (marked_now k hashed w e) lower.1
                (sorted-above k ks lower.0 lower.1 sorted.0) sorted.1 in
            (
              (r.0, kind (bucket (letter k)) ∷ r.1),
              lock_first kind k ks hashed w e new f,
              (rw at (omega (arith, above.0, marked-ne hashed b (letter k) m new), rises)),
            )
      ]

-- Where every key of a sorted list starts with a lower-case letter, the locks of the list are taken
-- in increasing order, so two such operations cannot wait for each other's bucket locks.
pub lock_loop-Rises :
    (kind : Lock → Event)
    → ((i : ℕ) → place (kind (bucket i)) ≡ i)
    → (keys : List Bytes) → All IsLower keys
    → IsSortedKeys keys
    → EventsOf Rises (lock_loop kind keys none_hashed)
unfolding lock_loop
lock_loop-Rises kind at [] lower sorted = ((none_hashed, []), refl, tt)
lock_loop-Rises kind at (k ∷ ks) lower sorted =
    let e = hash-letter k lower.0 in
    let i = letter k in
    let (r, f, rises) =
      lock_loop-RisesAbove kind at ks (set none_hashed i true) i
        (length-set none_hashed i true ∙ none_hashed-length)
        (marked_now k none_hashed none_hashed-length e) lower.1
        (sorted-above k ks lower.0 lower.1 sorted.0) sorted.1 in
    (
      (r.0, kind (bucket i) ∷ r.1),
      lock_first kind k ks none_hashed none_hashed-length e (get_or-replicate table_size i false) f,
      rw at rises,
    )

-- A digit and a letter collide in the table, and digits sort before letters: for sorted keys of
-- which the first starts with the digit `d` and the second with a letter `l` of a smaller bucket,
-- the higher bucket is locked first.
pub lock_loop-falls :
    (kind : Lock → Event)
    → (d l : ℕ) (a b : Bytes) → b'0' ≤ d
    → d ≤ b'9'
    → b'a' ≤ l
    → l ≤ b'z'
    → l - b'a' < d - b'0'
    → (str_gt (d ∷ a) (l ∷ b) ≡ false)
      × (after : List Bool) × (lock_loop kind ((d ∷ a) ∷ (l ∷ b) ∷ []) none_hashed
          ≡ ok (after, kind (bucket (d - b'0')) ∷ kind (bucket (l - b'a')) ∷ []))
unfolding hash strcmp lock_loop
lock_loop-falls kind d l a b h1 h2 h3 h4 h5 =
    let i = d - b'0' in
    let j = l - b'a' in
    let ed : hash (d ∷ a) ≡ pos i = ground arith in
    let el : hash (l ∷ b) ≡ pos j = ground arith in
    let other : get_or (set none_hashed i true) j false ≡ false =
      get_or-set none_hashed i j true false (omega arith)
      ∙ ground (arith, get_or-replicate table_size j false) in
    (
      ground arith,
      set (set none_hashed i true) j true,
      lock_first kind (d ∷ a) ((l ∷ b) ∷ []) none_hashed none_hashed-length ed
          (get_or-replicate table_size i false)
          (lock_first kind (l ∷ b) [] (set none_hashed i true)
            (length-set none_hashed i true ∙ none_hashed-length) el other refl),
    )
