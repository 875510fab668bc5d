-- ===== src/Client/Notifications.antt =====
-- thread_notif of SOParte2/src/client/main.c: what the client prints for the notifications, over
-- what each `read` returns. The 80 bytes of `notification` are not set at first.
use so.Common.{List, [], ◌∷◌, ◌++◌, Bytes, codes, c_str, strncpy, read_c_str, drop, Run, ok, ◌>>=◌}
use so.Server.Session.{overlay}

-- The two `strncpy` calls, both from `notification + 2`, and the line that is printed.
unfoldable pub notification_line : Bytes → Run Bytes
notification_line notification = do
  key ← read_c_str (strncpy (c_str (drop 2 notification)) 40)
  value ← read_c_str (strncpy (c_str (drop 2 notification)) 40)
  ok (b'(' ∷ (key ++ b',' ∷ (value ++ codes ")\n")))

-- The lines, up to the end of the pipe or of the list.
unfoldable pub thread_notif : Bytes → List Bytes → Run (List Bytes)
unfolding notification_line
thread_notif notification [] = ok []
thread_notif notification ([] ∷ chunks) = ok []
thread_notif notification ((c ∷ cs) ∷ chunks) = do
  line ← notification_line (overlay (c ∷ cs) notification)
  lines ← thread_notif (overlay (c ∷ cs) notification) chunks
  ok (line ∷ lines)
