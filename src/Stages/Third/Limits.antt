-- ===== src/Stages/Third/Limits.antt =====
-- The parsers of lists under two limits: where the text is shorter than both, they read the same.
use so.Common.{
  ℕ, zero, suc, ◌≤◌, ◌<◌, ◌==◌, if◌then◌else◌, Bool, true, false, Option, some, none, List, [], ◌∷◌,
  Bytes, arith, ◌≡◌, ◌⊎◌, inl, inr, refl, ap, ◌∙◌, length, Run, ok, fault, ◌>>=◌, c_str, negsuc,
}
use so.Input.{StringRead, read_string}
use so.Server.Kvs.{max_string_size}
use so.Server.Parser.{
  parse_pair, write_loop, keys_loop, finish_list, parse_write, parse_read_delete, Parsed,
  after_pair, after_key, with_item, give_up, opened, is_int,
}
use so.Server.Parser.Consumption.{Leaves, parse_pair-Leaves}

-- A list that is no longer than `n`, if one is read.
abbrev IsShort : {A : Type 0} → ℕ → Parsed A → Type 0
IsShort n (ok (some xs, s)) = length xs ≤ n
IsShort n (ok (none, s)) = Unit
IsShort n (fault why) = Unit

-- The two read the same, and a list of at most `n` items.
abbrev Agrees : {A : Type 0} → ℕ → Parsed A → Parsed A → Type 0
Agrees n p q = (p ≡ q) × IsShort n p

with_item-Agrees :
    {A : Type 0} (n : ℕ) (x : A) (p q : Parsed A)
    → Agrees n p q
    → Agrees (suc n) (with_item x p) (with_item x q)
with_item-Agrees n x (ok (some xs, s)) q (e, h) = (ap (with_item x) e, omega (arith, h))
with_item-Agrees n x (ok (none, s)) q (e, h) = (ap (with_item x) e, tt)
with_item-Agrees n x (fault why) q (e, h) = (ap (with_item x) e, tt)

IsShort-le : {A : Type 0} (n m : ℕ) (p : Parsed A) → n ≤ m → IsShort n p → IsShort m p
IsShort-le n m (ok (some xs, s)) le h = omega (arith, h)
IsShort-le n m (ok (none, s)) le h = tt
IsShort-le n m (fault why) le h = tt

if-Agrees :
    {A : Type 0} (n : ℕ) (b : Bool) (p q p2 q2 : Parsed A)
    → (b ≡ true → Agrees n p q)
    → (b ≡ false → Agrees n p2 q2)
    → Agrees n (if b then p else p2) (if b then q else q2)
if-Agrees n true p q p2 q2 h k = h refl
if-Agrees n false p q p2 q2 h k = k refl

after_pair-Agrees :
    {A : Type 0} (n : ℕ) (x : A) (again other : Bytes → Parsed A) (s : Bytes)
    → length s ≤ n
    → ((t : Bytes) → length t < length s → Agrees (length t) (again t) (other t))
    → Agrees n (after_pair x again s) (after_pair x other s)
after_pair-Agrees n x again other [] le ih = (refl, tt)
after_pair-Agrees n x again other (c ∷ s) le ih =
    if-Agrees n (c == b']') _ _ _ _ (λ e. (refl, omega (arith, le)))
      (λ e.
        if-Agrees n (c == b'(') _ _ _ _
          (λ f.
            let r = with_item-Agrees (length s) x (again s) (other s) (ih s (omega arith)) in
            (r.0, IsShort-le (suc (length s)) n _ le r.1))
          (λ f. (refl, tt)))

bind-Agrees :
    {A B : Type 0} (n : ℕ) (r : Run (A × Bytes)) (f g : A × Bytes → Parsed B)
    → Leaves n r
    → ((x : A) (s : Bytes) → length s ≤ n → Agrees n (f (x, s)) (g (x, s)))
    → Agrees n (r >>= f) (r >>= g)
bind-Agrees n (ok (x, s)) f g le h = h x s (le.le refl)
bind-Agrees n (fault why) f g le h = (refl, tt)

pair-Agrees :
    (m n : ℕ)
    → ((t : Bytes)
        → length t < m
        → length t < n
        → Agrees (length t) (write_loop m t) (write_loop n t))
    → (l : ℕ) → l < suc m
    → l < suc n
    → (pair : Option (Bytes × Bytes)) (rest : Bytes) → length rest ≤ l
    → Agrees {A = Bytes × Bytes} l
        (elim pair [
          | none ↦ give_up rest
          | some (key, value) ↦ after_pair (c_str key, c_str value) (write_loop m) rest
        ])
        (elim pair [
          | none ↦ give_up rest
          | some (key, value) ↦ after_pair (c_str key, c_str value) (write_loop n) rest
        ])
pair-Agrees m n ih l lm ln none rest le = (refl, tt)
pair-Agrees m n ih l lm ln (some (key, value)) rest le =
    after_pair-Agrees l _ (write_loop m) (write_loop n) rest le
      (λ t lt. ih t (omega (arith, lt, le, lm)) (omega (arith, lt, le, ln)))

write_loop-Agrees :
    (m n : ℕ) (s : Bytes)
    → length s < m
    → length s < n
    → Agrees (length s) (write_loop m s) (write_loop n s)
unfolding write_loop
write_loop-Agrees zero n s h k = absurd (omega arith)
write_loop-Agrees (suc m) zero s h k = absurd (omega arith)
write_loop-Agrees (suc m) (suc n) s h k =
    bind-Agrees (length s) (parse_pair s) _ _ (parse_pair-Leaves s (omega arith))
      (λ pair rest le. pair-Agrees m n (write_loop-Agrees m n) (length s) h k pair rest le)

shorter-false : (l m : ℕ) → l < m → (l == m) ≡ false
shorter-false l m h = ground arith

finish_list-same :
    {A : Type 0} (m n : ℕ) (xs : List A) (s : Bytes)
    → length xs < m
    → length xs < n
    → finish_list m (some xs, s) ≡ finish_list n (some xs, s)
unfolding finish_list
finish_list-same m n xs s lm ln =
    rw (shorter-false (length xs) m lm, shorter-false (length xs) n ln) refl

finish_list-Agrees :
    {A : Type 0} (m n l : ℕ) (p q : Parsed A)
    → l < m
    → l < n
    → Agrees l p q
    → (p >>= λ r. ok (finish_list m r)) ≡ (q >>= λ r. ok (finish_list n r))
unfolding finish_list
finish_list-Agrees m n l (fault why) q lm ln (e, h) = ap (λ p. p >>= λ r. ok (finish_list n r)) e
finish_list-Agrees m n l (ok (none, s)) q lm ln (e, h) = ap (λ p. p >>= λ r. ok (finish_list n r)) e
finish_list-Agrees m n l (ok (some xs, s)) q lm ln (e, h) =
    ap ok (finish_list-same m n xs s (omega (arith, h, lm)) (omega (arith, h, ln)))
    ∙ ap (λ p. p >>= λ r. ok (finish_list n r)) e

opened-same :
    {A : Type 0} (b : ℕ) (f g : Bytes → Run (List A × Bytes)) (s : Bytes)
    → ((t : Bytes) → length t < length s → f t ≡ g t)
    → opened b f s ≡ opened b g s
opened-same b f g [] h = refl
opened-same b f g (c ∷ s) h = rw (h s (omega arith))

pub parse_write-limits :
    (m n : ℕ) (s : Bytes) → length s < m → length s < n → parse_write m s ≡ parse_write n s
unfolding parse_write
parse_write-limits m n s lm ln = opened-same b'[' _ _ s (λ t lt. opened-same b'(' _ _ t (λ u lu.
    finish_list-Agrees m n (length u) (write_loop m u) (write_loop n u) (omega arith) (omega arith)
      (write_loop-Agrees m n u (omega arith) (omega arith))))

-- Unless it fails, `read_string` takes a byte.
abbrev IsPaid : Bytes → Run StringRead → Type 0
IsPaid s (fault why) = Unit
IsPaid s (ok r) = (length r.rest < length s) ⊎ (r.status ≡ negsuc 0)

read_string-IsPaid : (max : ℕ) (s : Bytes) → IsPaid s (read_string max s)
unfolding read_string
read_string-IsPaid zero s = tt
read_string-IsPaid (suc max) [] = inr refl
read_string-IsPaid (suc max) (c ∷ s) = ground (arith, read_string-IsPaid max s)

-- A status of at least 0 has cost a byte.
status-paid :
    (s : Bytes) (r : StringRead) (k : ℕ)
    → IsPaid s (ok r)
    → is_int k r.status ≡ true
    → length r.rest < length s
status-paid s r k (inl lt) e = lt
status-paid s r k (inr f) e = let no = rw f at e in cc

after_key-Agrees :
    (m n : ℕ) (s : Bytes) (r : StringRead)
    → IsPaid s (ok r)
    → ((t : Bytes) → length t < length s → Agrees (length t) (keys_loop m t) (keys_loop n t))
    → Agrees (length s) (after_key r (keys_loop m)) (after_key r (keys_loop n))
after_key-Agrees m n s r paid ih =
    if-Agrees (length s) (is_int 2 r.status) _ _ _ _
      (λ e. (refl, omega (arith, status-paid s r 2 paid e)))
      (λ e.
        if-Agrees (length s) (is_int 0 r.status) _ _ _ _
          (λ f.
            let lt = status-paid s r 0 paid f in
            let w =
              with_item-Agrees (length r.rest) (c_str r.text) (keys_loop m r.rest)
                (keys_loop n r.rest) (ih r.rest lt) in
            (w.0, IsShort-le (suc (length r.rest)) (length s) _ (omega (arith, lt)) w.1))
          (λ f. (refl, tt)))

read-Agrees :
    {A : Type 0} (n : ℕ) (s : Bytes) (run : Run StringRead) (f g : StringRead → Parsed A)
    → IsPaid s run
    → ((r : StringRead) → IsPaid s (ok r) → Agrees n (f r) (g r))
    → Agrees n (run >>= f) (run >>= g)
read-Agrees n s (ok r) f g paid h = h r paid
read-Agrees n s (fault why) f g paid h = (refl, tt)

keys_loop-Agrees :
    (m n : ℕ) (s : Bytes)
    → length s < m
    → length s < n
    → Agrees (length s) (keys_loop m s) (keys_loop n s)
unfolding keys_loop
keys_loop-Agrees zero n s h k = absurd (omega arith)
keys_loop-Agrees (suc m) zero s h k = absurd (omega arith)
keys_loop-Agrees (suc m) (suc n) s h k =
    read-Agrees (length s) s (read_string max_string_size s) _ _
      (read_string-IsPaid max_string_size s)
      (λ r paid.
        after_key-Agrees m n s r paid (λ t lt. keys_loop-Agrees m n t (omega arith) (omega arith)))

pub parse_read_delete-limits :
    (m n : ℕ) (s : Bytes)
    → length s < m
    → length s < n
    → parse_read_delete m s ≡ parse_read_delete n s
unfolding parse_read_delete
parse_read_delete-limits m n s lm ln = opened-same b'[' _ _ s (λ u lu.
    finish_list-Agrees m n (length u) (keys_loop m u) (keys_loop n u) (omega arith) (omega arith)
      (keys_loop-Agrees m n u (omega arith) (omega arith)))
