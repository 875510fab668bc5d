-- ===== src/Server/Session/Requests.antt =====
-- Which key the server reads from a request, across client/api.c and the session loop.
use so.Common.{
  ℕ, zero, suc, ◌≤◌, ◌<◌, [], ◌∷◌, ◌++◌, Bytes, IsText, strncpy, drop, length, replicate, ok, arith,
  ◌≡◌, refl, ap, append_assoc, c_str-append_nul, read_c_str-append_nul,
}
use so.Server.Session.{zeroed, overlay, request_key}
use so.Client.Api.{subscribe_message, unsubscribe_message}

pub strncpy-text :
    (s : Bytes) (n : ℕ) → length s < n → (rest : Bytes) × (strncpy s n ≡ s ++ 0 ∷ rest)
strncpy-text s zero h = absurd (omega arith)
strncpy-text [] (suc n) h = (strncpy [] n, refl)
strncpy-text (c ∷ s) (suc n) h =
    let (rest, e) = strncpy-text s n (omega arith) in (rest, ap (◌∷◌ c) e)

-- A text of at most 40 bytes with a NUL behind it is read as the key.
pub request_key-text :
    (op : ℕ) (key behind : Bytes)
    → IsText key
    → length key < 41
    → request_key (op ∷ (key ++ 0 ∷ behind)) ≡ ok key
unfolding request_key
request_key-text op key behind text short =
    let (rest, e) = strncpy-text key 41 short in
    rw (c_str-append_nul key behind text, e) (read_c_str-append_nul key rest text)

-- The client sends the operation code and the key, with no NUL.
pub subscribe_message-text :
    (key : Bytes)
    → IsText key
    → length key < 41
    → (subscribe_message key ≡ ok (3 ∷ key)) × (unsubscribe_message key ≡ ok (4 ∷ key))
unfolding subscribe_message unsubscribe_message
subscribe_message-text key text short =
    let (rest, e) = strncpy-text key 41 short in
    (rw (e, read_c_str-append_nul key rest text), rw (e, read_c_str-append_nul key rest text))

pub drop-zeros : (n m : ℕ) → n < m → (rest : Bytes) × (drop n (replicate m 0) ≡ 0 ∷ rest)
drop-zeros n zero h = absurd (omega arith)
drop-zeros zero (suc m) h = (replicate m 0, refl)
drop-zeros (suc n) (suc m) h = drop-zeros n m (omega arith)

pub drop-append_le : (n : ℕ) (xs ys : Bytes) → n ≤ length xs → drop n (xs ++ ys) ≡ drop n xs ++ ys
drop-append_le zero xs ys h = refl
drop-append_le (suc n) [] ys h = absurd (omega arith)
drop-append_le (suc n) (x ∷ xs) ys h = drop-append_le n xs ys (omega arith)

pub IsText-append : (xs ys : Bytes) → IsText xs → IsText ys → IsText (xs ++ ys)
IsText-append [] ys h k = k
IsText-append (x ∷ xs) ys h k = (h.0, IsText-append xs ys h.1 k)

pub IsText-drop : (n : ℕ) (xs : Bytes) → IsText xs → IsText (drop n xs)
IsText-drop zero xs h = h
IsText-drop (suc n) [] h = h
IsText-drop (suc n) (x ∷ xs) h = IsText-drop n xs h.1

pub length-over :
    (xs ys : Bytes) → length xs ≤ length ys → length (xs ++ drop (length xs) ys) ≡ length ys
length-over [] ys h = refl
length-over (x ∷ xs) [] h = absurd (omega arith)
length-over (x ∷ xs) (y ∷ ys) h = omega (arith, length-over xs ys (omega arith))

-- The first subscription of a session: the key that the client sends is the key that the server
-- reads, for a text of at most 40 bytes.
pub request_key-first :
    (key : Bytes)
    → IsText key
    → length key < 41
    → (message : Bytes) × (subscribe_message key ≡ ok message)
      × (request_key (overlay message zeroed) ≡ ok key)
unfolding overlay
request_key-first key text short =
    let (rest, e) = drop-zeros (length key) 41 short in
    (
      3 ∷ key,
      (subscribe_message-text key text short).0,
      rw e (request_key-text 3 key rest text short),
    )

-- A later request with a shorter key: the end of the key before it is still in the buffer, so the
-- server reads the new key followed by that end.
pub request_key-stale :
    (op : ℕ) (old key behind : Bytes)
    → IsText old
    → IsText key
    → length old < 41
    → length key ≤ length old
    → (message : Bytes) × (subscribe_message key ≡ ok message)
      × (request_key (overlay message (op ∷ (old ++ 0 ∷ behind)))
          ≡ ok (key ++ drop (length key) old))
unfolding overlay
request_key-stale op old key behind text_old text short fits = (
  3 ∷ key,
  (subscribe_message-text key text (omega arith)).0,
  rw (drop-append_le (length key) old (0 ∷ behind) fits, ← append_assoc)
      (request_key-text 3 (key ++ drop (length key) old) behind
        (IsText-append key (drop (length key) old) text (IsText-drop (length key) old text_old))
        (omega (arith, length-over key old fits))),
)
