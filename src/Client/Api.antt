-- ===== src/Client/Api.antt =====
-- SOParte2/src/client/api.c: the messages that the client sends and what it makes of the answers.
use so.Common.{
  List, Bool, true, false, ◌&&◌, Option, none, some, ℕ, ◌-◌, ◌==◌, ltb, if◌then◌else◌, [], ◌∷◌,
  ◌++◌, Bytes, codes, strncpy, read_c_str, take, length, replicate, Run, ok, fault, uninitialised,
  ◌>>=◌, out_of_bounds,
}

abbrev pub max_pipe_path_length : ℕ
max_pipe_path_length = 80

-- `copy_and_pad`: what it leaves in the 80 bytes of `dest`.
unfoldable pub copy_and_pad : Bytes → Bytes
copy_and_pad src =
    let len = if ltb max_pipe_path_length (length src) then max_pipe_path_length else length src in
    take len src ++ replicate (max_pipe_path_length - len) 0

-- `build_message`, which nothing calls.
unfoldable pub build_message : Bytes → Bytes → Bytes → Bytes
unfolding copy_and_pad
build_message req resp notif = 1 ∷ (copy_and_pad req ++ (copy_and_pad resp ++ copy_and_pad notif))

-- The string that `build_message_paths` leaves in `message`: `snprintf` keeps 79 bytes.
unfoldable pub build_message_paths : Bytes → Bytes → Bytes → Bytes
build_message_paths req resp notif =
    take (max_pipe_path_length - 1) (codes "1|" ++ (req ++ (b'|' ∷ (resp ++ (b'|' ∷ notif)))))

-- `message_to_send` of a subscription: an operation code, the key, and NUL up to 42 bytes.
key_message : ℕ → Bytes → Bytes
key_message op key = op ∷ strncpy key 41

-- What `send_msg` writes for it: it stops at the first NUL.
unfoldable pub subscribe_message : Bytes → Run Bytes
unfolding key_message
subscribe_message key = read_c_str (key_message 3 key)

unfoldable pub unsubscribe_message : Bytes → Run Bytes
unfolding key_message
unsubscribe_message key = read_c_str (key_message 4 key)

unfoldable pub disconnect_message : Run Bytes
disconnect_message = read_c_str (2 ∷ replicate 41 0)

-- `read_msg`, on the bytes of one `read` of two: the second, or NUL at the end of the pipe.
unfoldable pub read_msg : Bytes → Run ℕ
read_msg [] = ok 0
read_msg (c ∷ []) = fault uninitialised
read_msg (c ∷ d ∷ s) = ok d

-- The last part of `kvs_connect`: its return value, for the answer on the response pipe.
unfoldable pub connect_status : Bytes → Run ℕ
unfolding read_msg
connect_status answer = do result ← read_msg answer; ok (if result == b'0' then 0 else 1)

-- What `kvs_disconnect` returns, for the answer on the response pipe.
unfoldable pub disconnect_status : Bytes → Run ℕ
unfolding read_msg
disconnect_status answer = do result ← read_msg answer; ok (if result == 0 then 0 else 1)

unfoldable pub kvs_disconnect : Bytes → Run (Bytes × ℕ)
unfolding disconnect_message disconnect_status
kvs_disconnect answer = do
  message ← disconnect_message
  status ← disconnect_status answer
  ok (message, status)

-- `kvs_subscribe` and `kvs_unsubscribe` send their message and return 0: `result` is a constant.
unfoldable pub kvs_subscribe : Bytes → Run (Bytes × ℕ)
unfolding subscribe_message
kvs_subscribe key = do message ← subscribe_message key; ok (message, 0)

unfoldable pub kvs_unsubscribe : Bytes → Run (Bytes × ℕ)
unfolding unsubscribe_message
kvs_unsubscribe key = do message ← unsubscribe_message key; ok (message, 0)

-- `strcpy(REQ_PIPE_PATH, …)`, into 80 bytes.
abbrev pub keep_path : Bytes → Run Bytes
keep_path path = if ltb (length path) max_pipe_path_length then ok path else fault out_of_bounds

-- `kvs_connect`, where the pipes are made and opened: the message on the register pipe and the
-- return value, for the answer on the response pipe.
unfoldable pub kvs_connect : Bytes → Bytes → Bytes → Bytes → Run (Bytes × ℕ)
unfolding build_message_paths connect_status
kvs_connect req resp notif answer = do
  r ← keep_path req
  p ← keep_path resp
  n ← keep_path notif
  status ← connect_status answer
  ok (build_message_paths req resp notif, status)

-- What `unlink` does: it removes the file, finds none, or fails.
pub data Removal : Type 0 where
  removed absent refused : Removal

abbrev pub removable : Removal → Bool
removable refused = false
removable _ = true

-- Whether the register pipe opens, and what `unlink` and `mkfifo` do with a path.
pub record Setup : Type 0 where
  pub server_opens : Bool
  pub unlinks : Bytes → Removal
  pub makes : Bytes → Bool

-- The first part of `kvs_connect`; where it fails, the program exits.
unfoldable pub prepare : Setup → Bytes → Bytes → Bytes → Bool
prepare w req resp notif =
    w.server_opens
    && (removable (w.unlinks req)
        && (removable (w.unlinks resp)
            && (removable (w.unlinks notif) && (w.makes req && (w.makes resp && w.makes notif)))))

-- `open` of a pipe with O_RDONLY or O_WRONLY
pub data Opening : Type 0 where
  reads writes : Bytes → Opening

-- The pipes in the order in which the client opens them.
unfoldable pub client_opens : Bytes → Bytes → Bytes → List Opening
client_opens req resp notif = reads resp ∷ writes req ∷ reads notif ∷ []

-- `kvs_connect` from its start; `none` where the program exits before the message.
unfoldable pub connect : Setup → Bytes → Bytes → Bytes → Bytes → Option (Run (Bytes × ℕ))
unfolding prepare kvs_connect
connect w req resp notif answer =
    if prepare w req resp notif then some (kvs_connect req resp notif answer) else none
