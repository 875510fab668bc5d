-- ===== src/Server/Session/Handshake.antt =====
-- The connection, between kvs_connect of client/api.c and the server's answer.
use so.Common.{ℕ, ◌<◌, true, some, List, Bytes, length, ok, arith, ◌≡◌, refl}
use so.Server.Operations.{Store}
use so.Server.Session.{serve_client, run_session}
use so.Client.Api.{max_pipe_path_length, build_message_paths, kvs_connect}

-- Where the pipes open and each of the three paths is shorter than 80 bytes, `kvs_connect` returns
-- 0 for the answer that the server gives before the session.
pub serve_client-connects :
    (fd : ℕ) (store : Store) (chunks : List Bytes) (req resp notif : Bytes)
    → length req < max_pipe_path_length
    → length resp < max_pipe_path_length
    → length notif < max_pipe_path_length
    → (answer : Bytes) × (serve_client true fd store chunks
        ≡ some (answer, run_session fd store chunks))
      × (kvs_connect req resp notif answer ≡ ok (build_message_paths req resp notif, 0))
unfolding serve_client kvs_connect
serve_client-connects fd store chunks req resp notif h k l = (_, refl, ground arith)
