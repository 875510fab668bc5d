-- ===== src/Server/Session.antt =====
-- thread_manage_session of SOParte2/src/server/main.c, from the connection on: the inner loop over
-- the requests of one client. What `read(req_fd, …)` returns is an argument, one list of bytes for
-- each call, empty at the end of the pipe. The bytes of the that `response` leaves unset and
-- those behind it are parameters too, since `send_msg` reads on to the next NUL.
pub mod Requests
pub mod Replies
pub mod Handshake
use so.Common.{
  ℕ, zero, suc, ◌+◌, ◌-◌, ◌==◌, if◌then◌else◌, Bool, true, false, List, [], ◌∷◌, ◌++◌, Bytes, c_str,
  strncpy, read_c_str, drop, take, length, replicate, get_or, Run, ok, fault, uninitialised, ◌>>=◌,
  Option, none, some, codes,
}
use so.Server.Operations.{Store, kvs_subscribe, kvs_unsubscribe}

-- `sizeof(request)`
abbrev pub request_size : ℕ
request_size = 42

-- `char request[42] = {0}`
abbrev pub zeroed : Bytes
zeroed = replicate request_size 0

-- `read` writes over the front of the buffer, and leaves what stands behind.
unfoldable pub overlay : Bytes → Bytes → Bytes
overlay chunk request = chunk ++ drop (length chunk) request

-- `strncpy(key, request + 1, 41)`, read as a string.
unfoldable pub request_key : Bytes → Run Bytes
request_key request = read_c_str (strncpy (c_str (drop 1 request)) 41)

-- What the server sends to the client.
pub record Outcome : Type 0 where
  pub store : Store
  -- the strings given to `send_msg(notif_fd, …)`
  pub sent : List Bytes
  -- the loop has been left
  pub closed : Bool

-- `response[0] = op_code; response[1] = …; send_msg(notif_fd, response)`. The second byte is unset
-- at a disconnection. `send_msg` starts with `strlen`, and the array holds these two bytes alone.
unfoldable pub respond : ℕ → Option ℕ → Run Bytes
respond op none = fault uninitialised
respond op (some second) = read_c_str (op ∷ second ∷ [])

-- `(char) result + '0'`
abbrev pub digit : ℕ → ℕ
digit result = result + b'0'

-- The switch on `op_code`, for a session whose notifications go to `fd`.
unfoldable pub handle_request : ℕ → Store → Bytes → Run Outcome
unfolding respond request_key
handle_request fd store request =
    let op = get_or request 0 0 in
    let disconnect = (do
      message ← respond op none
      ok (record { store = store; sent = message ∷ []; closed = true })) in
    let subscribe = (do
      key ← request_key request
      (after, result, events) ← kvs_subscribe store key fd
      message ← respond op (some (digit result))
      ok (record { store = after; sent = message ∷ []; closed = false })) in
    let unsubscribe = (do
      key ← request_key request
      (after, result, events) ← kvs_unsubscribe store key fd
      message ← respond op (some (digit result))
      ok (record { store = after; sent = message ∷ []; closed = false })) in
    if op == 2
    then disconnect
    else if op == 3
    then subscribe
    else if op == 4
    then unsubscribe
    else ok (record { store = store; sent = []; closed = false })

-- The loop, over what the calls of `read` return. It ends at the end of the pipe, at a
-- disconnection, or, here, when there are no more bytes to read.
unfoldable pub session_loop : ℕ → Store → Bytes → List Bytes → Run Outcome
unfolding overlay
session_loop fd store request [] = ok (record { store = store; sent = []; closed = false })
session_loop fd store request ([] ∷ chunks) =
    ok (record { store = store; sent = []; closed = true })
session_loop fd store request ((c ∷ cs) ∷ chunks) = do
  let now = overlay (c ∷ cs) request
  r ← handle_request fd store now
  elim r.closed [
    | true ↦ ok r
    | false ↦ do
      later ← session_loop fd r.store now chunks
      ok (record { store = later.store; sent = r.sent ++ later.sent; closed = later.closed })
  ]

unfoldable pub run_session : ℕ → Store → List Bytes → Run Outcome
unfolding session_loop
run_session fd store chunks = session_loop fd store zeroed chunks

-- One round of the outer loop, from the pipes on: whether they open, the answer to the connection,
-- and the session; `none` where one does not open, and the program exits.
unfoldable pub serve_client : Bool → ℕ → Store → List Bytes → Option (Bytes × Run Outcome)
unfolding run_session
serve_client false fd store chunks = none
serve_client true fd store chunks = some (codes "10", run_session fd store chunks)
