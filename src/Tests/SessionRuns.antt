-- ===== src/Tests/SessionRuns.antt =====
-- A session, and the requests to connect.
use so.Common.{
  ◌≢◌, true, false, take, All, zero, suc, replicate, some, ℕ, [], ◌∷◌, ◌++◌, Bytes, codes, drop,
  length, ok, IsText, arith, ◌≡◌, refl,
}
use so.Server.Operations.{live}
use so.Server.Session.{serve_client, run_session, overlay, zeroed, request_key}
use so.Server.Session.Requests.{request_key-first, request_key-stale}
use so.Server.Registration.Paths.{is_space, not_bar, slot_paths, slot_size}
use so.Server.Registration.Scans.{IsPath, IsWord}
use so.Server.Registration.Connect.{room, slot_paths-stale, slot_paths-first}
use so.Server.Registration.{
  Reach, start, later, host_wait, host_read, host_post, Buffer, manager_wait,
}
use so.Server.Registration.Connection.{Connected, connect-Connected}
use so.Client.Api.{
  Setup, absent, prepare, connect, client_opens, subscribe_message, build_message_paths,
}
use so.Tests.Samples.{key_a, key_a-IsText, sample}

request_key-first_example :
    (message : Bytes) × (subscribe_message key_a ≡ ok message)
    × (request_key (overlay message zeroed) ≡ ok key_a)
request_key-first_example = request_key-first key_a key_a-IsText (omega arith)

abbrev longer : Bytes
longer = codes "abcd"

longer-IsText : IsText longer
longer-IsText = omega arith

request_key-stale_example :
    (message : Bytes) × (subscribe_message key_a ≡ ok message)
    × (request_key (overlay message (3 ∷ (longer ++ 0 ∷ [])))
        ≡ ok (key_a ++ drop (length key_a) longer))
request_key-stale_example =
    request_key-stale 3 longer key_a [] longer-IsText key_a-IsText (omega arith) (omega arith)

-- The paths of two clients, the second ones shorter.
abbrev old_request : Bytes
old_request = codes "1|req1|resp1|notif1"

abbrev req : Bytes
req = codes "r2"

abbrev resp : Bytes
resp = codes "p2"

abbrev notif : Bytes
notif = codes "n2"

req-IsPath : IsPath req
req-IsPath = (omega arith, ((omega arith, refl), ((omega arith, refl), tt)), (refl, (refl, tt)))

resp-IsPath : IsPath resp
resp-IsPath = (omega arith, ((omega arith, refl), ((omega arith, refl), tt)), (refl, (refl, tt)))

notif-IsPath : IsPath notif
notif-IsPath = (omega arith, ((omega arith, refl), ((omega arith, refl), tt)), (refl, (refl, tt)))

old_request-IsWord : IsWord old_request
old_request-IsWord = (
  (omega arith, refl),
  (
    (omega arith, refl),
    (
      (omega arith, refl),
      (
        (omega arith, refl),
        (
          (omega arith, refl),
          (
            (omega arith, refl),
            (
              (omega arith, refl),
              (
                (omega arith, refl),
                (
                  (omega arith, refl),
                  (
                    (omega arith, refl),
                    (
                      (omega arith, refl),
                      (
                        (omega arith, refl),
                        (
                          (omega arith, refl),
                          (
                            (omega arith, refl),
                            (
                              (omega arith, refl),
                              (
                                (omega arith, refl),
                                (
                                  (omega arith, refl),
                                  ((omega arith, refl), ((omega arith, refl), tt)),
                                ),
                              ),
                            ),
                          ),
                        ),
                      ),
                    ),
                  ),
                ),
              ),
            ),
          ),
        ),
      ),
    ),
  ),
)

-- The manager reads `n2|resp1|notif1` for the third path.
slot_paths-stale_example :
    (message : Bytes) × (message ≡ build_message_paths req resp notif)
    × (slot_paths (overlay message (old_request ++ 0 ∷ []))
        ≡ ok (record {
          req = some req;
          resp = some resp;
          notif = some (notif ++ drop (length message) old_request);
        }))
slot_paths-stale_example =
    slot_paths-stale old_request [] req resp notif old_request-IsWord (omega arith) req-IsPath
      resp-IsPath notif-IsPath (omega arith)

All-replicate : (P : ℕ → Type 0) (n c : ℕ) → P c → All P (replicate n c)
All-replicate P zero c p = tt
All-replicate P (suc n) c p = (p, All-replicate P n c p)

abbrev long_path : Bytes
long_path = replicate 79 b'a'

long_path-IsPath : IsPath long_path
long_path-IsPath = (
  omega arith,
  All-replicate (λ c. (c ≢ 0) × (is_space c ≡ false)) 79 b'a' (omega arith, refl),
  All-replicate (λ c. not_bar c ≡ true) 79 b'a' refl,
)

slot_paths-first_example :
    slot_paths (overlay (build_message_paths req resp long_path) (replicate slot_size 0))
    ≡ ok
        (record { req = some req; resp = some resp; notif = some (take (room req resp) long_path) })
slot_paths-first_example =
    slot_paths-first req resp long_path req-IsPath resp-IsPath long_path-IsPath (omega arith)

abbrev empty_slots : ℕ → Bytes
empty_slots i = []

abbrev one_waits : (b : Buffer) × Reach empty_slots b
one_waits = (
  _,
  later
      (later (later (later start (host_wait refl (omega arith))) (host_read (codes "1|a|b|c") refl))
        (host_post refl))
      (manager_wait (omega arith)),
)

abbrev setup : Setup
setup = record { server_opens = true; unlinks = λ path. absent; makes = λ path. true }

setup-prepare : prepare setup req resp notif ≡ true
unfolding prepare
setup-prepare = refl

connect-Connected_example :
    (answer : Bytes) × (serve_client true 5 (live sample) []
      ≡ some (answer, run_session 5 (live sample) []))
    × Connected
        (connect setup req resp notif answer)
        (λ m. overlay m (replicate slot_size 0))
        (client_opens req resp notif)
connect-Connected_example =
    connect-Connected setup 5 (live sample) [] req resp notif req-IsPath resp-IsPath notif-IsPath
      (omega arith) setup-prepare
