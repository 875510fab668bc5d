-- ===== src/Server/Registration/Paths.antt =====
-- What thread_manage_session of SOParte2/src/server/main.c makes of a slot of BUFFER: the `strncpy`
-- into `client_paths` and the `sscanf` of the three paths. A path that `sscanf` does not come to
-- stays as it was.
use so.Common.{
  ℕ, ◌==◌, leb, ltb, ◌||◌, ◌&&◌, not, if◌then◌else◌, Bool, Option, none, some, [], ◌∷◌, Bytes,
  c_str, strncpy, read_c_str, length, Run, ok, fault, out_of_bounds, ◌>>=◌, List,
}
use so.Client.Api.{max_pipe_path_length, Opening, reads, writes}

-- `isspace` of the C locale
abbrev pub is_space : ℕ → Bool
is_space c = c == b' ' || (leb 9 c && leb c 13)

abbrev pub not_space : ℕ → Bool
not_space c = not (is_space c)

abbrev pub not_bar : ℕ → Bool
not_bar c = not (c == b'|')

-- The bytes up to the first that fails the test, and the others.
abbrev pub span : (ℕ → Bool) → Bytes → Bytes × Bytes
span test [] = ([], [])
span test (c ∷ s) = let rest = span test s in if test c then (c ∷ rest.0, rest.1) else ([], c ∷ s)

abbrev is_decimal : ℕ → Bool
is_decimal c = leb b'0' c && leb c b'9'

-- `%d`, whose value is not used: white space, a sign, and at least one digit
abbrev digits : Bytes → Option Bytes
digits [] = none
digits (c ∷ s) = if is_decimal c then some (span is_decimal s).1 else none

abbrev signed : Bytes → Option Bytes
signed [] = none
signed (c ∷ s) = if c == b'-' || c == b'+' then digits s else digits (c ∷ s)

unfoldable pub after_int : Bytes → Option Bytes
after_int s = signed (span is_space s).1

-- `|`
abbrev pub after_bar : Bytes → Option Bytes
after_bar [] = none
after_bar (c ∷ s) = if c == b'|' then some s else none

-- A conversion fails where it matches nothing, and writes into 80 bytes without a bound.
abbrev pub assigned : Bytes → Run (Option Bytes)
assigned [] = ok none
assigned (c ∷ s) =
    if ltb (length (c ∷ s)) max_pipe_path_length then ok (some (c ∷ s)) else fault out_of_bounds

-- `|%s`
unfoldable pub scan_notif : Bytes → Run (Option Bytes)
scan_notif s = elim (after_bar s) [
  | none ↦ ok none
  | some t ↦ assigned (span not_space (span is_space t).1).0
]

-- `|%[^|]` and what follows
unfoldable pub scan_resp : Bytes → Run (Option Bytes × Option Bytes)
unfolding scan_notif
scan_resp s = elim (after_bar s) [
  | none ↦ ok (none, none)
  | some t ↦ do
    resp ← assigned (span not_bar t).0
    elim resp [
      | none ↦ ok (none, none)
      | some p ↦ do notif ← scan_notif (span not_bar t).1; ok (some p, notif)
    ]
]

pub record Paths : Type 0 where
  pub req : Option Bytes
  pub resp : Option Bytes
  pub notif : Option Bytes

abbrev no_paths : Paths
no_paths = record { req = none; resp = none; notif = none }

unfoldable pub scan_req : Bytes → Run Paths
unfolding scan_resp
scan_req s = elim (after_bar s) [
  | none ↦ ok no_paths
  | some t ↦ do
    req ← assigned (span not_bar t).0
    elim req [
      | none ↦ ok no_paths
      | some p ↦ do
        (resp, notif) ← scan_resp (span not_bar t).1
        ok (record { req = some p; resp = resp; notif = notif })
    ]
]

-- `sscanf(client_paths, "%d|%[^|]|%[^|]|%s", …)`
unfoldable pub scan_paths : Bytes → Run Paths
unfolding after_int scan_req
scan_paths text = elim (after_int text) [ none ↦ ok no_paths | some s ↦ scan_req s ]

-- `1 + 3 * MAX_PIPE_PATH_LENGTH`
abbrev pub slot_size : ℕ
slot_size = 241

-- The paths that a manager reads from a slot.
unfoldable pub slot_paths : Bytes → Run Paths
unfolding scan_paths
slot_paths slot = do
  client_paths ← read_c_str (strncpy (c_str slot) slot_size)
  scan_paths client_paths

-- The pipes in the order in which a manager opens them, where it has read all three paths.
unfoldable pub manager_opens : Paths → Option (List Opening)
manager_opens paths = elim paths.req [
  | none ↦ none
  | some req ↦ elim paths.resp [
    | none ↦ none
    | some resp ↦ elim paths.notif [
      | none ↦ none
      | some notif ↦ some (writes resp ∷ reads req ∷ writes notif ∷ [])
    ]
  ]
]
