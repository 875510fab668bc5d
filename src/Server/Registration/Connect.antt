-- ===== src/Server/Registration/Connect.antt =====
-- A request to connect, from kvs_connect of client/api.c to the `sscanf` of thread_manage_session in
-- server/main.c.
use so.Common.{
  ℕ, zero, suc, ◌+◌, ◌-◌, ◌<◌, ◌≤◌, some, [], ◌∷◌, ◌++◌, Bytes, codes, take, drop, length,
  replicate, ok, arith, ◌≡◌, refl, ◌∙◌, sym, ap, append_assoc, length-take,
}
use so.Server.Session.{overlay}
use so.Server.Session.Requests.{drop-zeros, drop-append_le, length-over}
use so.Client.Api.{max_pipe_path_length, build_message_paths}
use so.Server.Registration.Paths.{slot_size, slot_paths}
use so.Server.Registration.Scans.{
  IsWord, IsPath, IsWord-append, IsWord-take, IsWord-drop, request, length-append, length-request,
  slot_paths-request,
}

take-append_le : (xs ys : Bytes) (k n : ℕ) → n ≡ length xs + k → take n (xs ++ ys) ≡ xs ++ take k ys
take-append_le [] ys k n e = ap (λ m. take m ys) (omega (arith, e))
take-append_le (x ∷ xs) ys k zero e = absurd (omega arith)
take-append_le (x ∷ xs) ys k (suc n) e = ap (◌∷◌ x) (take-append_le xs ys k n (omega arith))

-- How many bytes of the third path the 79 bytes of the request have room for.
abbrev pub room : Bytes → Bytes → ℕ
room req resp = 75 - (length req + length resp)

build_message_paths-request :
    (req resp notif : Bytes)
    → length req + length resp < 75
    → build_message_paths req resp notif ≡ request req resp (take (room req resp) notif)
unfolding build_message_paths
build_message_paths-request req resp notif fits =
    ap (λ s. codes "1|" ++ s)
      (take-append_le req (b'|' ∷ (resp ++ b'|' ∷ notif)) (suc (length resp + suc (room req resp)))
          77 (omega arith)
        ∙ ap (λ s. req ++ b'|' ∷ s)
            (take-append_le resp (b'|' ∷ notif) (suc (room req resp))
              (length resp + suc (room req resp)) (omega arith)))

length-take_le : (n : ℕ) (xs : Bytes) → length (take n xs) ≤ n
length-take_le n xs = omega (arith, length-take n xs)

take-pos : (n : ℕ) (xs : Bytes) → 0 < n → 0 < length xs → 0 < length (take n xs)
take-pos n xs h k = omega (arith, length-take n xs)

-- In a slot of zeroes, the manager reads the paths of the request, the third one cut where the
-- request has 79 bytes.
pub slot_paths-first :
    (req resp notif : Bytes)
    → IsPath req
    → IsPath resp
    → IsPath notif
    → length req + length resp < 75
    → slot_paths (overlay (build_message_paths req resp notif) (replicate slot_size 0))
      ≡ ok (record { req = some req; resp = some resp; notif = some (take (room req resp) notif) })
unfolding overlay
slot_paths-first req resp notif p q r fits =
    let cut = take (room req resp) notif in
    let n = length-request req resp cut in
    let (rest, e) =
      drop-zeros (length (request req resp cut)) slot_size
        (omega (arith, n, length-take_le (room req resp) notif)) in
    rw (build_message_paths-request req resp notif fits, e)
      (slot_paths-request req resp cut rest p q (take-pos (room req resp) notif (omega arith) r.0)
        (IsWord-take (room req resp) notif r.1)
        (omega (arith, n, length-take_le (room req resp) notif)))

take-all : (n : ℕ) (xs : Bytes) → length xs ≤ n → take n xs ≡ xs
take-all zero [] h = refl
take-all zero (x ∷ xs) h = absurd (omega arith)
take-all (suc n) [] h = refl
take-all (suc n) (x ∷ xs) h = ap (◌∷◌ x) (take-all n xs (omega arith))

-- Three paths of at most 75 bytes together come through unchanged.
pub slot_paths-round_trip :
    (req resp notif : Bytes)
    → IsPath req
    → IsPath resp
    → IsPath notif
    → length req + (length resp + length notif) ≤ 75
    → slot_paths (overlay (build_message_paths req resp notif) (replicate slot_size 0))
      ≡ ok (record { req = some req; resp = some resp; notif = some notif })
slot_paths-round_trip req resp notif p q r fits =
    slot_paths-first req resp notif p q r (omega (arith, r.0))
    ∙ ap (λ s. ok (record { req = some req; resp = some resp; notif = some s }))
        (take-all (room req resp) notif (omega arith))

request-append :
    (req resp notif tail : Bytes)
    → request req resp notif ++ tail ≡ request req resp (notif ++ tail)
request-append req resp notif tail =
    ap (λ s. codes "1|" ++ s)
      (append_assoc req (b'|' ∷ (resp ++ b'|' ∷ notif)) tail
        ∙ ap (λ s. req ++ b'|' ∷ s) (append_assoc resp (b'|' ∷ notif) tail))

-- A shorter message over a text.
overlay-text :
    (m old behind : Bytes)
    → length m ≤ length old
    → overlay m (old ++ 0 ∷ behind) ≡ (m ++ drop (length m) old) ++ 0 ∷ behind
unfolding overlay
overlay-text m old behind h =
    rw (drop-append_le (length m) old (0 ∷ behind) h)
      (sym (append_assoc m (drop (length m) old) (0 ∷ behind)))

-- In a slot that an earlier request of at least as many bytes was read into, the third path is
-- followed by the end of that request.
pub slot_paths-stale :
    (old behind req resp notif : Bytes)
    → IsWord old
    → length old < max_pipe_path_length
    → IsPath req
    → IsPath resp
    → IsPath notif
    → length req + (length resp + length notif) + 4 ≤ length old
    → (message : Bytes) × (message ≡ build_message_paths req resp notif)
      × (slot_paths (overlay message (old ++ 0 ∷ behind))
          ≡ ok (record {
            req = some req;
            resp = some resp;
            notif = some (notif ++ drop (length message) old);
          }))
slot_paths-stale old behind req resp notif word short p q r fits =
    let m = request req resp notif in
    let n = length-request req resp notif in
    let tail = drop (length m) old in
    let whole : build_message_paths req resp notif ≡ m =
      build_message_paths-request req resp notif (omega (arith, r.0))
      ∙ ap (request req resp) (take-all (room req resp) notif (omega arith)) in
    let longer : m ++ tail ≡ request req resp (notif ++ tail) =
      request-append req resp notif tail in
    let size : length (m ++ tail) ≡ length old = length-over m old (omega (arith, n)) in
    (
      m,
      sym whole,
      ap slot_paths
            (overlay-text m old behind (omega (arith, n)) ∙ ap (λ s. s ++ 0 ∷ behind) longer)
          ∙ (slot_paths-request req resp (notif ++ tail) behind p q
              (omega (arith, length-append notif tail, r.0))
              (IsWord-append notif tail r.1 (IsWord-drop (length m) old word))
              (omega (arith, sym (ap length longer) ∙ size))),
    )
