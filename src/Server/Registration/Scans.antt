-- ===== src/Server/Registration/Scans.antt =====
-- What `sscanf` in thread_manage_session of server/main.c reads of a request to connect that has the
-- form of build_message_paths in client/api.c.
use so.Common.{
  ℕ, zero, suc, ◌+◌, ◌<◌, Bool, true, false, some, [], ◌∷◌, ◌++◌, Bytes, All, IsText, codes, take,
  drop, length, ok, ◌>>=◌, arith, ◌≡◌, ◌≢◌, refl, ◌∙◌, c_str-append_nul, read_c_str-append_nul,
}
use so.Server.Session.Requests.{strncpy-text, IsText-append}
use so.Client.Api.{max_pipe_path_length}
use so.Server.Registration.Paths.{
  is_space, not_space, not_bar, span, after_int, assigned, scan_notif, scan_resp, scan_req,
  scan_paths, slot_size, slot_paths,
}

-- Neither NUL nor white space.
abbrev pub IsWord : Bytes → Type 0
IsWord s = All (λ c. (c ≢ 0) × (is_space c ≡ false)) s

-- A path that `%[^|]` and `%s` can read: not empty, and with no NUL, white space or `|`.
abbrev pub IsPath : Bytes → Type 0
IsPath s = (0 < length s) × IsWord s × All (λ c. not_bar c ≡ true) s

span-append :
    (test : ℕ → Bool) (s : Bytes) (d : ℕ) (rest : Bytes)
    → All (λ c. test c ≡ true) s
    → test d ≡ false
    → span test (s ++ d ∷ rest) ≡ (s, d ∷ rest)
span-append test [] d rest all stop = rw stop
span-append test (c ∷ s) d rest (t, all) stop = rw (t, span-append test s d rest all stop)

span-All : (test : ℕ → Bool) (s : Bytes) → All (λ c. test c ≡ true) s → span test s ≡ (s, [])
span-All test [] all = refl
span-All test (c ∷ s) (t, all) = rw (t, span-All test s all)

not_space-All : (s : Bytes) → IsWord s → All (λ c. not_space c ≡ true) s
not_space-All [] h = tt
not_space-All (c ∷ s) h = (rw h.0.1, not_space-All s h.1)

IsText-word : (s : Bytes) → IsWord s → IsText s
IsText-word [] h = tt
IsText-word (c ∷ s) h = (h.0.0, IsText-word s h.1)

assigned-some :
    (s : Bytes) → 0 < length s → length s < max_pipe_path_length → assigned s ≡ ok (some s)
assigned-some [] lt short = absurd (omega arith)
assigned-some (c ∷ s) lt short = ground arith

skip_space-word : (s : Bytes) → IsWord s → (span is_space s).1 ≡ s
skip_space-word [] h = refl
skip_space-word (c ∷ s) h = rw h.0.1

module _ (notif : Bytes) (ne : 0 < length notif) (word : IsWord notif)
    (short : length notif < max_pipe_path_length) where
  scan_notif-word : scan_notif (b'|' ∷ notif) ≡ ok (some notif)
  unfolding scan_notif
  scan_notif-word =
      rw (skip_space-word notif word, span-All not_space notif (not_space-All notif word))
        (assigned-some notif ne short)

  scan_resp-path :
      (resp : Bytes)
      → IsPath resp
      → length resp < max_pipe_path_length
      → scan_resp (b'|' ∷ (resp ++ b'|' ∷ notif)) ≡ ok (some resp, some notif)
  unfolding scan_resp
  scan_resp-path resp p small = rw (
    span-append not_bar resp b'|' notif p.2 refl,
    assigned-some resp p.0 small,
    ◌>>=◌,
    span-append not_bar resp b'|' notif p.2 refl,
    scan_notif-word,
  )

  scan_paths-paths :
      (req resp : Bytes)
      → IsPath req
      → IsPath resp
      → length req < max_pipe_path_length
      → length resp < max_pipe_path_length
      → scan_paths (codes "1|" ++ (req ++ b'|' ∷ (resp ++ b'|' ∷ notif)))
        ≡ ok (record { req = some req; resp = some resp; notif = some notif })
  unfolding scan_paths after_int scan_req
  scan_paths-paths req resp p q small_req small_resp = rw (
    span-append not_bar req b'|' (resp ++ b'|' ∷ notif) p.2 refl,
    assigned-some req p.0 small_req,
    ◌>>=◌,
    span-append not_bar req b'|' (resp ++ b'|' ∷ notif) p.2 refl,
    scan_resp-path resp q small_resp,
  )

pub IsWord-append : (xs ys : Bytes) → IsWord xs → IsWord ys → IsWord (xs ++ ys)
IsWord-append [] ys h k = k
IsWord-append (x ∷ xs) ys h k = (h.0, IsWord-append xs ys h.1 k)

pub IsWord-take : (n : ℕ) (xs : Bytes) → IsWord xs → IsWord (take n xs)
IsWord-take zero xs h = tt
IsWord-take (suc n) [] h = tt
IsWord-take (suc n) (x ∷ xs) h = (h.0, IsWord-take n xs h.1)

pub IsWord-drop : (n : ℕ) (xs : Bytes) → IsWord xs → IsWord (drop n xs)
IsWord-drop zero xs h = h
IsWord-drop (suc n) [] h = h
IsWord-drop (suc n) (x ∷ xs) h = IsWord-drop n xs h.1

-- The request of these three paths, as a string.
abbrev pub request : Bytes → Bytes → Bytes → Bytes
request req resp notif = codes "1|" ++ (req ++ b'|' ∷ (resp ++ b'|' ∷ notif))

pub request-IsText :
    (req resp notif : Bytes)
    → IsWord req
    → IsWord resp
    → IsWord notif
    → IsText (request req resp notif)
request-IsText req resp notif p q r = (
  omega arith,
  (
    omega arith,
    IsText-append req _ (IsText-word req p)
        (omega arith, IsText-append resp _ (IsText-word resp q) (omega arith, IsText-word notif r)),
  ),
)

pub length-append : (xs ys : Bytes) → length (xs ++ ys) ≡ length xs + length ys
length-append [] ys = omega arith
length-append (x ∷ xs) ys = omega (arith, length-append xs ys)

pub length-request :
    (req resp notif : Bytes)
    → length (request req resp notif) ≡ 4 + (length req + (length resp + length notif))
length-request req resp notif =
    omega
      (arith, length-append req (b'|' ∷ (resp ++ b'|' ∷ notif)), length-append resp (b'|' ∷ notif))

slot_paths-text :
    (s behind : Bytes)
    → IsText s
    → length s < slot_size
    → slot_paths (s ++ 0 ∷ behind) ≡ scan_paths s
unfolding slot_paths
slot_paths-text s behind text short =
    let (rest, e) = strncpy-text s slot_size short in
    rw (c_str-append_nul s behind text, e, read_c_str-append_nul s rest text, ◌>>=◌) refl

-- A slot that starts with a request and a NUL.
pub slot_paths-request :
    (req resp notif behind : Bytes)
    → IsPath req
    → IsPath resp
    → 0 < length notif
    → IsWord notif
    → length (request req resp notif) < max_pipe_path_length
    → slot_paths (request req resp notif ++ 0 ∷ behind)
      ≡ ok (record { req = some req; resp = some resp; notif = some notif })
slot_paths-request req resp notif behind p q ne word short =
    let n = length-request req resp notif in
    let text = request-IsText req resp notif p.1 q.1 word in
    slot_paths-text (request req resp notif) behind text (omega (arith, short))
    ∙ scan_paths-paths notif ne word (omega (arith, n, short)) req resp p q
        (omega (arith, n, short)) (omega (arith, n, short))
