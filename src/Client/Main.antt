-- ===== src/Client/Main.antt =====
-- main of SOParte2/src/client/main.c: the commands on the standard input, with what the client
-- writes to the request pipe. What the server answers is an argument. The thread that prints the
-- notifications is Client.Notifications.
pub mod Commands
use so.Common.{
  ℕ, zero, suc, ltb, if◌then◌else◌, Bool, true, false, Option, none, some, List, [], ◌∷◌, ◌++◌,
  Bytes, codes, length, Run, ok, fault, out_of_bounds, ◌>>=◌,
}
use so.Transfer.{delay}
use so.Client.Parser.{
  Command, cmd_disconnect, cmd_subscribe, cmd_unsubscribe, cmd_delay, cmd_empty, cmd_invalid, eoc,
  get_next, parse_list, parse_delay,
}
use so.Client.Api.{kvs_connect, kvs_disconnect, kvs_subscribe, kvs_unsubscribe}

pub data Effect : Type 0 where
  -- a message on the register pipe, or on the request pipe
  registered sent : Bytes → Effect
  -- `nanosleep`
  slept : ℕ × ℕ → Effect

abbrev pub max_string_size : ℕ
max_string_size = 40

-- `strncat(…, argv[1], …)` behind a prefix, in 256 bytes
abbrev pub pipe_path : Bytes → Bytes → Run Bytes
pipe_path prefix id =
    if ltb (length (prefix ++ id)) 256 then ok (prefix ++ id) else fault out_of_bounds

-- SUBSCRIBE and UNSUBSCRIBE: nothing for a refused list.
abbrev pub run_key : (Bytes → Run (Bytes × ℕ)) → List Bytes × Bytes → Run (List Effect × Bytes)
run_key operation ([], rest) = ok ([], rest)
run_key operation (k ∷ ks, rest) = do (message, status) ← operation k; ok (sent message ∷ [], rest)

-- DELAY sleeps only for a delay above 0.
abbrev pub run_delay : Option ℕ × Bytes → List Effect × Bytes
run_delay (none, rest) = ([], rest)
run_delay (some zero, rest) = ([], rest)
run_delay (some (suc n), rest) = (slept (delay (suc n)) ∷ [], rest)

-- The switch, without CMD_DISCONNECT.
unfoldable pub run_command : Command → Bytes → Run (List Effect × Bytes)
run_command cmd_subscribe s = do r ← parse_list 1 max_string_size s; run_key kvs_subscribe r
run_command cmd_unsubscribe s = do r ← parse_list 1 max_string_size s; run_key kvs_unsubscribe r
run_command cmd_delay s = do r ← parse_delay s; ok (run_delay r)
run_command _ s = ok ([], s)

-- CMD_DISCONNECT, with the return value of the program.
unfoldable pub leave : Bytes → Run (ℕ × List Effect)
leave answer = do (message, status) ← kvs_disconnect answer; ok (status, sent message ∷ [])

abbrev pub after_effects :
    List Effect → Option (Run (ℕ × List Effect)) → Option (Run (ℕ × List Effect))
after_effects effects none = none
after_effects effects (some (ok (status, later))) = some (ok (status, effects ++ later))
after_effects effects (some (fault e)) = some (fault e)

abbrev pub go_on :
    (Bytes → Option (Run (ℕ × List Effect)))
    → Run (List Effect × Bytes)
    → Option (Run (ℕ × List Effect))
go_on next (ok (effects, rest)) = after_effects effects (next rest)
go_on next (fault e) = some (fault e)

abbrev pub unless_disconnect :
    Command
    → Run (ℕ × List Effect)
    → Option (Run (ℕ × List Effect))
    → Option (Run (ℕ × List Effect))
unless_disconnect cmd_disconnect last next = some last
unless_disconnect _ last next = next

-- The loop, on fuel, with the answer to a disconnection; `none` means that the fuel ran out.
unfoldable pub main_loop : ℕ → Bytes → Bytes → Option (Run (ℕ × List Effect))
unfolding run_command leave
main_loop zero answer s = none
main_loop (suc fuel) answer s =
    let (cmd, rest) = get_next s in
    let next = go_on (main_loop fuel answer) (run_command cmd rest) in
    unless_disconnect cmd (leave answer) next

-- The program: the connection, and where it stands, the loop.
abbrev pub if_connected :
    Bytes × ℕ → Option (Run (ℕ × List Effect)) → Option (Run (ℕ × List Effect))
if_connected (message, zero) loop = after_effects (registered message ∷ []) loop
if_connected (message, suc n) loop = some (ok (1, registered message ∷ []))

unfoldable pub client_main : ℕ → Bytes → Bytes → Bytes → Bytes → Option (Run (ℕ × List Effect))
unfolding main_loop
client_main fuel id connected disconnected input =
    let connection = (do
      req ← pipe_path (codes "/tmp/req") id
      resp ← pipe_path (codes "/tmp/resp") id
      notif ← pipe_path (codes "/tmp/notif") id
      kvs_connect req resp notif connected) in
    let loop = main_loop fuel disconnected input in
    elim connection [ ok r ↦ if_connected r loop | fault e ↦ some (fault e) ]
