-- ===== src/Server/Registration/Connection.antt =====
-- A connection, from kvs_connect of client/api.c to the session in thread_manage_session of
-- server/main.c. An `open` of a pipe waits until the other end is opened.
use so.Common.{
  ℕ, ◌+◌, ◌≤◌, Bool, true, false, Option, some, List, [], ◌∷◌, Bytes, length, replicate, Run, ok,
  str_eq, str_eq_refl, ◌&&◌, arith, ◌≡◌, refl, ap,
}
use so.Server.Operations.{Store}
use so.Server.Session.{overlay, serve_client, run_session}
use so.Server.Session.Handshake.{serve_client-connects}
use so.Client.Api.{
  Setup, prepare, connect, client_opens, Opening, reads, writes, build_message_paths,
}
use so.Server.Registration.Paths.{Paths, slot_paths, slot_size, manager_opens}
use so.Server.Registration.Scans.{IsPath}
use so.Server.Registration.Connect.{slot_paths-round_trip}

-- The two open the same pipes in the same order, at one end each, so that neither waits for ever.
abbrev pub meets : List Opening → List Opening → Bool
meets [] [] = true
meets (reads p ∷ xs) (writes q ∷ ys) = str_eq p q && meets xs ys
meets (writes p ∷ xs) (reads q ∷ ys) = str_eq p q && meets xs ys
meets _ _ = false

-- A client that has connected, and the manager that serves it.
pub record Connected (run : Option (Run (Bytes × ℕ))) (slot : Bytes → Bytes) (opened : List Opening)
    : Type 0 where
  pub message : Bytes
  pub returns : run ≡ some (ok (message, 0))
  pub paths : Paths
  pub scanned : slot_paths (slot message) ≡ ok paths
  pub other : List Opening
  pub opens : manager_opens paths ≡ some other
  pub no_wait : meets opened other ≡ true

module _ (w : Setup) (fd : ℕ) (store : Store) (chunks : List Bytes) where
  -- Where the pipes of the client are made and open, and its three paths have at most 75 bytes
  -- together, none empty and without NUL, white space or `|`: the manager answers and goes on to the
  -- session; for that answer `kvs_connect` returns 0; and from a zeroed slot of the buffer the manager
  -- reads the paths of the message, and opens the pipes in the order of the client, each at its other
  -- end.
  pub connect-Connected :
      (req resp notif : Bytes)
      → IsPath req
      → IsPath resp
      → IsPath notif
      → length req + (length resp + length notif) ≤ 75
      → prepare w req resp notif ≡ true
      → (answer : Bytes) × (serve_client true fd store chunks
          ≡ some (answer, run_session fd store chunks))
        × Connected
            (connect w req resp notif answer)
            (λ m. overlay m (replicate slot_size 0))
            (client_opens req resp notif)
  unfolding connect client_opens manager_opens
  connect-Connected req resp notif p q r fits ready =
      let (answer, serves, connects) =
        serve_client-connects fd store chunks req resp notif (omega arith) (omega arith)
          (omega arith) in
      (
        answer,
        serves,
        record {
          message = build_message_paths req resp notif;
          returns = rw ready (ap some connects);
          paths = record { req = some req; resp = some resp; notif = some notif };
          scanned = slot_paths-round_trip req resp notif p q r fits;
          other = writes resp ∷ reads req ∷ writes notif ∷ [];
          opens = refl;
          no_wait = rw (str_eq_refl resp, str_eq_refl req, str_eq_refl notif) refl;
        },
      )
