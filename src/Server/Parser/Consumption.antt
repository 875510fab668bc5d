-- ===== src/Server/Parser/Consumption.antt =====
-- How many bytes the parsers of lists and of WAIT leave.
use so.Common.{
  ℕ, zero, suc, ◌≤◌, ◌<◌, if◌then◌else◌, Bool, true, false, Option, some, none, List, [], ◌∷◌,
  Bytes, arith, ◌≡◌, refl, length, Run, ok, fault, ◌>>=◌, c_str, >>=-eq-ok,
}
use so.Input.{StringRead, cleanup, read_string, read_digits, read_uint}
use so.Input.Laws.{length-cleanup-le, Fits, read_string-Fits}
use so.Input.Numbers.{read_digits-Consumes}
use so.Server.Kvs.{max_string_size}
use so.Server.Parser.{
  parse_pair, write_loop, keys_loop, finish_list, parse_write, parse_read_delete, parse_wait,
  Parsed, after_pair, with_item, give_up, end_of_list, opened, WaitRead, is_int,
}

-- The outcome leaves at most `n` bytes.
pub record Leaves {A : Type 0} (n : ℕ) (r : Run (A × Bytes)) : Type 0 where
  pub le : {x : A} {s : Bytes} → r ≡ ok (x, s) → length s ≤ n

module _ {n : ℕ} where
  bind-Leaves :
      {A B : Type 0} (m : Run (A × Bytes)) (f : A × Bytes → Run (B × Bytes))
      → Leaves n m
      → ((x : A) (s : Bytes) → length s ≤ n → Leaves n (f (x, s)))
      → Leaves n (m >>= f)
  bind-Leaves (ok (x, s)) f h k = k x s (h.le refl)
  bind-Leaves (fault e) f h k = record { le = λ e. cc }

  ok-Leaves : {A : Type 0} (x : A) (s : Bytes) → length s ≤ n → Leaves n (ok (x, s))
  ok-Leaves x s h = record { le = λ e. ground arith }

  read_string-Leaves :
      {B : Type 0} (max : ℕ) (s : Bytes) (f : StringRead → Run (B × Bytes))
      → length s ≤ n
      → ((r : StringRead) → length r.rest ≤ n → Leaves n (f r))
      → Leaves n (read_string max s >>= f)
  read_string-Leaves {B} max s f h k = go (read_string max s) (read_string-Fits max s)
    where
      go : (r : Run StringRead) → Fits max s r → Leaves {A = B} n (r >>= f)
      go (fault e) fits = record { le = λ e. cc }
      go (ok r) fits = k r (omega arith)

  if-Leaves :
      {A : Type 0} (b : Bool) {x y : Run (A × Bytes)}
      → Leaves n x
      → Leaves n y
      → Leaves n (if b then x else y)
  if-Leaves true h k = h
  if-Leaves false h k = k

  if_ok-Leaves :
      {A : Type 0} (b : Bool) (x y : A × Bytes)
      → length x.1 ≤ n
      → length y.1 ≤ n
      → Leaves n (ok (if b then x else y))
  if_ok-Leaves true x y h k = ok-Leaves x.0 x.1 h
  if_ok-Leaves false x y h k = ok-Leaves y.0 y.1 k

  cleanup_le : (s : Bytes) → length s ≤ n → length (cleanup s) ≤ n
  cleanup_le s h = omega (arith, length-cleanup-le s)

  give_up-Leaves :
      {A : Type 0} (s : Bytes) → length s ≤ n → Leaves {A = Option (List A)} n (give_up s)
  give_up-Leaves s h = ok-Leaves none (cleanup s) (omega (arith, length-cleanup-le s))

  with_item-Leaves : {A : Type 0} (x : A) (r : Parsed A) → Leaves n r → Leaves n (with_item x r)
  with_item-Leaves x (ok (some xs, s)) h = ok-Leaves (some (x ∷ xs)) s (h.le refl)
  with_item-Leaves x (ok (none, s)) h = ok-Leaves none s (h.le refl)
  with_item-Leaves x (fault e) h = record { le = λ e. cc }

  pub parse_pair-Leaves : (s : Bytes) → length s ≤ n → Leaves n (parse_pair s)
  unfolding parse_pair
  parse_pair-Leaves s h = read_string-Leaves max_string_size s _ h λ k hk.
      if-Leaves _
        (read_string-Leaves max_string_size k.rest _ hk λ v hv.
          if_ok-Leaves (is_int 1 v.status) (some (k.text, v.text), v.rest) (none, cleanup v.rest) hv
            (cleanup_le v.rest hv))
        (ok-Leaves none (cleanup k.rest) (cleanup_le k.rest hk))

  after_pair-Leaves :
      {A : Type 0} (x : A) (again : Bytes → Parsed A) (s : Bytes)
      → ((t : Bytes) → length t ≤ n → Leaves n (again t))
      → length s ≤ n
      → Leaves n (after_pair x again s)
  after_pair-Leaves x again [] ih h = give_up-Leaves [] h
  after_pair-Leaves x again (c ∷ s) ih h = if-Leaves _ (ok-Leaves (some (x ∷ [])) s (omega arith)) (
      if-Leaves _ (with_item-Leaves x (again s) (ih s (omega arith)))
        (give_up-Leaves s (omega arith)))

  write_loop-Leaves : (room : ℕ) (s : Bytes) → length s ≤ n → Leaves n (write_loop room s)
  unfolding write_loop
  write_loop-Leaves zero s h = ok-Leaves (some []) s h
  write_loop-Leaves (suc room) s h =
      bind-Leaves (parse_pair s) _ (parse_pair-Leaves s h) (next (write_loop-Leaves room))
    where
      next :
          ((t : Bytes) → length t ≤ n → Leaves n (write_loop room t))
          → (pair : Option (Bytes × Bytes)) (rest : Bytes) → length rest ≤ n
          → Leaves {A = Option (List (Bytes × Bytes))} n (elim pair [
            | none ↦ give_up rest
            | some (key, value) ↦ after_pair (c_str key, c_str value) (write_loop room) rest
          ])
      next ih none rest k = give_up-Leaves rest k
      next ih (some (key, value)) rest k =
          after_pair-Leaves (c_str key, c_str value) (write_loop room) rest ih k

  keys_loop-Leaves : (room : ℕ) (s : Bytes) → length s ≤ n → Leaves n (keys_loop room s)
  unfolding keys_loop
  keys_loop-Leaves zero s h = ok-Leaves (some []) s h
  keys_loop-Leaves (suc room) s h = read_string-Leaves max_string_size s _ h λ r hr.
      if-Leaves _ (ok-Leaves (some (c_str r.text ∷ [])) r.rest hr) (
        if-Leaves _
          (with_item-Leaves (c_str r.text) (keys_loop room r.rest)
            (keys_loop-Leaves room r.rest hr))
          (give_up-Leaves r.rest hr))

  finish_list-Leaves :
      {A : Type 0} (max : ℕ) (r : Option (List A)) (s : Bytes)
      → length s ≤ n
      → Leaves n (ok (finish_list max (r, s)))
  unfolding finish_list
  finish_list-Leaves max none s h = ok-Leaves [] s h
  finish_list-Leaves max (some xs) [] h =
      if_ok-Leaves _ ([], cleanup []) ([], []) (cleanup_le [] h) h
  finish_list-Leaves max (some xs) (c ∷ s) h =
      if_ok-Leaves _ ([], cleanup (c ∷ s)) (end_of_list xs (c ∷ s)) (cleanup_le (c ∷ s) h)
        (ground (arith, length-cleanup-le s))

  opened-Leaves :
      {A : Type 0} (open_byte : ℕ) (next : Bytes → Run (List A × Bytes)) (s : Bytes)
      → ((t : Bytes) → length t ≤ n → Leaves n (next t))
      → length s ≤ n
      → Leaves n (opened open_byte next s)
  opened-Leaves open_byte next [] ih h =
      ok-Leaves [] (cleanup []) (omega (arith, length-cleanup-le []))
  opened-Leaves open_byte next (c ∷ s) ih h =
      if-Leaves _ (ih s (omega arith))
        (ok-Leaves [] (cleanup s) (omega (arith, length-cleanup-le s)))

  pub parse_write-Leaves : (max : ℕ) (s : Bytes) → length s ≤ n → Leaves n (parse_write max s)
  unfolding parse_write
  parse_write-Leaves max s h =
      opened-Leaves b'[' _ s
        (λ t ht.
          opened-Leaves b'(' _ t
            (λ u hu.
              bind-Leaves (write_loop max u) _ (write_loop-Leaves max u hu)
                (λ r rest hr. finish_list-Leaves max r rest hr))
            ht)
        h

  pub parse_read_delete-Leaves :
      (max : ℕ) (s : Bytes) → length s ≤ n → Leaves n (parse_read_delete max s)
  unfolding parse_read_delete
  parse_read_delete-Leaves max s h =
      opened-Leaves b'[' _ s
        (λ t ht.
          bind-Leaves (keys_loop max t) _ (keys_loop-Leaves max t ht)
            (λ r rest hr. finish_list-Leaves max r rest hr))
        h

read_uint-le :
    (s : Bytes) {v : Option ℕ} {next : ℕ} {rest : Bytes}
    → read_uint s ≡ ok (v, next, rest)
    → length rest ≤ length s
unfolding read_uint
read_uint-le s e =
    let (r, d, f) = >>=-eq-ok (read_digits 16 s) _ e in
    let fewer : length r.rest < length s = rw d at (read_digits-Consumes 16 s) in ground arith

-- `parse_wait` gives back no more than it got.
pub parse_wait-le : (s : Bytes) {w : WaitRead} → parse_wait s ≡ ok w → length w.rest ≤ length s
unfolding parse_wait
parse_wait-le s {w} e =
    let ((v, next, rest), d, f) = >>=-eq-ok (read_uint s) _ e in
    let fewer = read_uint-le s d in ground (arith, length-cleanup-le rest)
