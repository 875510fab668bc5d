-- ===== src/Server/Parser.antt =====
-- SOParte2/src/server/parser.c and parser.h (SO-Parte1/grupo5-ex*/parser.c has the same text):
-- get_next, parse_pair, parse_write, parse_read_delete and parse_wait over the bytes left to read.
-- The C return value 0 of the list parsers is the empty list, and what they fill is the list.
pub mod Words
pub mod Lists
pub mod Wait
pub mod NextWord
pub mod Consumption
use so.Common.{
  ℕ, zero, suc, ◌+◌, ◌==◌, if◌then◌else◌, ◌&&◌, ◌||◌, Bool, true, false, Option, none, some, List,
  [], ◌∷◌, ◌++◌, Bytes, codes, c_str, str_eq, take, drop, length, ℤ, pos, negsuc, Run, ok, fault,
  ◌>>=◌,
}
use so.Input.{reads_word, StringRead, cleanup, read_string, read_uint}
use so.Server.Kvs.{max_string_size}

pub data Command : Type 0 where
  cmd_write cmd_read cmd_delete cmd_show cmd_wait cmd_backup cmd_help cmd_empty cmd_invalid eoc :
      Command

-- The server's constants.h.
abbrev pub max_write_size : ℕ
max_write_size = 256

-- `cleanup(fd); return CMD_INVALID;`
abbrev pub refuse : Bytes → Command × Bytes
refuse s = (cmd_invalid, cleanup s)

-- After SHOW, BACKUP and HELP: the end of the input or of the line.
abbrev pub end_of_word : Command → Bytes → Command × Bytes
end_of_word cmd [] = (cmd, [])
end_of_word cmd (c ∷ s) = if c == b'\n' then (cmd, s) else refuse s

-- The word, then the end of its line.
abbrev pub whole_word : Bytes → ℕ → Bytes → Command → Bytes → Command × Bytes
whole_word buf n word cmd s =
    if reads_word buf n word s then end_of_word cmd (drop n s) else refuse (drop n s)

-- The word with its space.
abbrev pub word_and_space : Bytes → ℕ → Bytes → Command → Bytes → Command × Bytes
word_and_space buf n word cmd s =
    if reads_word buf n word s then (cmd, drop n s) else refuse (drop n s)

-- The fall-back from WAIT to WRITE: four bytes are in `buf` behind the W, and one more is read.
abbrev pub write_word : Bytes → Bytes → Command × Bytes
write_word buf [] = refuse []
write_word buf (c ∷ s) =
    if str_eq (buf ++ c ∷ []) (codes "WRITE ") then (cmd_write, s) else refuse s

-- `case 'W'`
abbrev pub wait_or_write : Bytes → Command × Bytes
wait_or_write s =
    if reads_word (b'W' ∷ []) 4 (codes "WAIT ") s
    then (cmd_wait, drop 4 s)
    else write_word (b'W' ∷ take 4 s) (drop 4 s)

-- The switch on `buf[0]`, with the bytes behind it.
unfoldable pub dispatch : ℕ → Bytes → Command × Bytes
dispatch c s =
    if c == b'W'
    then wait_or_write s
    else if c == b'R'
    then word_and_space (b'R' ∷ []) 4 (codes "READ ") cmd_read s
    else if c == b'D'
    then word_and_space (b'D' ∷ []) 6 (codes "DELETE ") cmd_delete s
    else if c == b'S'
    then whole_word (b'S' ∷ []) 3 (codes "SHOW") cmd_show s
    else if c == b'B'
    then whole_word (b'B' ∷ []) 5 (codes "BACKUP") cmd_backup s
    else if c == b'H'
    then whole_word (b'H' ∷ []) 3 (codes "HELP") cmd_help s
    else if c == b'#'
    then (cmd_empty, cleanup s)
    else if c == b'\n'
    then (cmd_empty, s)
    else refuse s

unfoldable pub get_next : Bytes → Command × Bytes
unfolding dispatch
get_next [] = (eoc, [])
get_next (c ∷ s) = dispatch c s

abbrev pub is_int : ℕ → ℤ → Bool
is_int k (pos n) = n == k
is_int k (negsuc n) = false

-- The pair that is read, or `none` for the return value 0, and the bytes left.
unfoldable pub parse_pair : Bytes → Run (Option (Bytes × Bytes) × Bytes)
parse_pair s = do
  k ← read_string max_string_size s
  let second = (do
    v ← read_string max_string_size k.rest
    ok (if is_int 1 v.status then (some (k.text, v.text), v.rest) else (none, cleanup v.rest)))
  if is_int 0 k.status then second else ok (none, cleanup k.rest)

-- The loop's outcome: `none` where it returns 0, and the pairs where it ends or breaks.
abbrev pub Parsed : Type 0 → Type 0
Parsed A = Run (Option (List A) × Bytes)

abbrev pub with_item : {A : Type 0} → A → Parsed A → Parsed A
with_item x (ok (some xs, s)) = ok (some (x ∷ xs), s)
with_item x (ok (none, s)) = ok (none, s)
with_item x (fault e) = fault e

abbrev pub give_up : {A : Type 0} → Bytes → Parsed A
give_up s = ok (none, cleanup s)

-- After a pair: `]` ends the list, `(` begins another pair, which `again` reads.
abbrev pub after_pair : {A : Type 0} → A → (Bytes → Parsed A) → Bytes → Parsed A
after_pair x again [] = give_up []
after_pair x again (c ∷ s) =
    let more = with_item x (again s) in
    if c == b']' then ok (some (x ∷ []), s) else if c == b'(' then more else give_up s

-- The loop, by `max_pairs - num_pairs`. `strcpy` takes the text up to its first NUL.
unfoldable pub write_loop : ℕ → Bytes → Parsed (Bytes × Bytes)
write_loop zero s = ok (some [], s)
write_loop (suc room) s = do
  (pair, rest) ← parse_pair s
  elim pair [
    | none ↦ give_up rest
    | some (key, value) ↦ after_pair (c_str key, c_str value) (write_loop room) rest
  ]

-- After the loop: not as many items as fit, and then the end of the line.
abbrev pub end_of_list : {A : Type 0} → List A → Bytes → List A × Bytes
end_of_list xs [] = ([], [])
end_of_list xs (c ∷ s) = if c == b'\n' || c == 0 then (xs, s) else ([], cleanup s)

unfoldable pub finish_list : {A : Type 0} → ℕ → Option (List A) × Bytes → List A × Bytes
finish_list max (none, s) = ([], s)
finish_list max (some xs, s) = if length xs == max then ([], cleanup s) else end_of_list xs s

-- `read(fd, &ch, 1) != 1 || ch != open`
abbrev pub opened : {A : Type 0} → ℕ → (Bytes → Run (List A × Bytes)) → Bytes → Run (List A × Bytes)
opened open_byte next [] = ok ([], cleanup [])
opened open_byte next (c ∷ s) =
    let more = next s in if c == open_byte then more else ok ([], cleanup s)

unfoldable pub parse_write : ℕ → Bytes → Run (List (Bytes × Bytes) × Bytes)
unfolding write_loop parse_pair finish_list
parse_write max_pairs s =
    opened b'[' (opened b'(' (λ t. write_loop max_pairs t >>= λ r. ok (finish_list max_pairs r))) s

-- After a key: `]` ends the list, a comma goes on, a parenthesis or an error returns 0.
abbrev pub after_key : StringRead → (Bytes → Parsed Bytes) → Parsed Bytes
after_key r again =
    let more = with_item (c_str r.text) (again r.rest) in
    if is_int 2 r.status
    then ok (some (c_str r.text ∷ []), r.rest)
    else if is_int 0 r.status
    then more
    else give_up r.rest

-- The loop, by `max_keys - num_keys`.
unfoldable pub keys_loop : ℕ → Bytes → Parsed Bytes
keys_loop zero s = ok (some [], s)
keys_loop (suc room) s = do r ← read_string max_string_size s; after_key r (keys_loop room)

unfoldable pub parse_read_delete : ℕ → Bytes → Run (List Bytes × Bytes)
unfolding keys_loop finish_list
parse_read_delete max_keys s =
    opened b'[' (λ t. keys_loop max_keys t >>= λ r. ok (finish_list max_keys r)) s

-- What `parse_wait` returns, what it has stored in `*delay`, and the bytes left.
pub record WaitRead : Type 0 where
  pub status : ℤ
  pub delay : Option ℕ
  pub rest : Bytes

-- With `thread_id` NULL, as its only caller has it.
unfoldable pub parse_wait : Bytes → Run WaitRead
parse_wait s = do
  (value, next, rest) ← read_uint s
  elim value [
    | none ↦ ok (record { status = negsuc 0; delay = none; rest = cleanup rest })
    | some ul ↦ ok (
        if next == b' '
        then record { status = pos 0; delay = some ul; rest = cleanup rest }
        else if next == b'\n' || next == 0
        then record { status = pos 0; delay = some ul; rest = rest }
        else record { status = negsuc 0; delay = some ul; rest = cleanup rest })
  ]
