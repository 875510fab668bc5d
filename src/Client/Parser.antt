-- ===== src/Client/Parser.antt =====
-- SOParte2/src/client/parser.c and parser.h: get_next, parse_list and parse_delay over the bytes
-- left to read. The static functions are those of Input.
pub mod Laws
use so.Common.{
  ℕ, zero, suc, ◌==◌, if◌then◌else◌, ◌&&◌, ◌||◌, not, Bool, true, false, Option, none, some, List,
  [], ◌∷◌, ◌++◌, Bytes, codes, c_str, str_eq, take, drop, length, ℤ, pos, negsuc, Run, ok, fault,
  ◌>>=◌,
}
use so.Input.{cleanup, read_string, read_uint, reads_word, StringRead}

pub data Command : Type 0 where
  cmd_disconnect cmd_subscribe cmd_unsubscribe cmd_delay cmd_empty cmd_invalid eoc : Command

abbrev pub refuse : Bytes → Command × Bytes
refuse s = (cmd_invalid, cleanup s)

-- The word with its space.
abbrev pub word_and_space : Bytes → ℕ → Bytes → Command → Bytes → Command × Bytes
word_and_space buf n word cmd s =
    if reads_word buf n word s then (cmd, drop n s) else refuse (drop n s)

-- After DISCONNECT: the end of the input or of the line.
abbrev pub end_of_disconnect : Bytes → Command × Bytes
end_of_disconnect [] = (cmd_disconnect, [])
end_of_disconnect (c ∷ s) = if c == b'\n' then (cmd_disconnect, s) else refuse s

-- `case 'D'`: DELAY, or with four more bytes DISCONNECT.
abbrev pub delay_or_disconnect : Bytes → Command × Bytes
delay_or_disconnect s =
    let more = drop 5 s in
    if reads_word (b'D' ∷ []) 5 (codes "DELAY ") s
    then (cmd_delay, more)
    else if reads_word (b'D' ∷ take 5 s) 4 (codes "DISCONNECT") more
    then end_of_disconnect (drop 4 more)
    else refuse (drop 4 more)

-- The switch on `buf[0]`, with the bytes behind it.
unfoldable pub dispatch : ℕ → Bytes → Command × Bytes
dispatch c s =
    if c == b'S'
    then word_and_space (b'S' ∷ []) 9 (codes "SUBSCRIBE ") cmd_subscribe s
    else if c == b'U'
    then word_and_space (b'U' ∷ []) 11 (codes "UNSUBSCRIBE ") cmd_unsubscribe s
    else if c == b'D'
    then delay_or_disconnect s
    else if c == b'#'
    then (cmd_empty, cleanup s)
    else if c == b'\n'
    then (cmd_empty, s)
    else refuse s

unfoldable pub get_next : Bytes → Command × Bytes
unfolding dispatch
get_next [] = (eoc, [])
get_next (c ∷ s) = dispatch c s

abbrev pub is_int : ℕ → ℤ → Bool
is_int k (pos n) = n == k
is_int k (negsuc n) = false

-- The keys and the last `output`, or `none` where the loop returns 0; and the bytes left.
abbrev pub Parsed : Type 0
Parsed = Run (Option (List Bytes × ℤ) × Bytes)

abbrev pub with_key : Bytes → Parsed → Parsed
with_key k (ok (some (ks, output), s)) = ok (some (k ∷ ks, output), s)
with_key k (ok (none, s)) = ok (none, s)
with_key k (fault e) = fault e

-- What follows a key: the end at `]`, another key at a comma, or the return of 0.
abbrev pub after_key : StringRead → (ℤ → Bytes → Parsed) → Parsed
after_key r again =
    let more = with_key (c_str r.text) (again r.status r.rest) in
    if is_int 2 r.status
    then ok (some (c_str r.text ∷ [], r.status), r.rest)
    else if is_int 0 r.status
    then more
    else ok (none, cleanup r.rest)

-- The loop, by `max_keys - num_keys`, with `output`.
unfoldable pub list_loop : ℕ → ℕ → ℤ → Bytes → Parsed
list_loop max_string_size zero output s = ok (some ([], output), s)
list_loop max_string_size (suc room) output s = do
  r ← read_string max_string_size s
  after_key r (list_loop max_string_size room)

abbrev pub end_of_list : List Bytes → Bytes → List Bytes × Bytes
end_of_list ks [] = ([], [])
end_of_list ks (c ∷ s) = if c == b'\n' || c == 0 then (ks, s) else ([], cleanup s)

unfoldable pub finish_list : ℕ → Option (List Bytes × ℤ) × Bytes → List Bytes × Bytes
finish_list max (none, s) = ([], s)
finish_list max (some (ks, output), s) =
    if length ks == max && not (is_int 2 output) then ([], cleanup s) else end_of_list ks s

-- The keys; the empty list is the return value 0.
unfoldable pub parse_list : ℕ → ℕ → Bytes → Run (List Bytes × Bytes)
unfolding list_loop finish_list
parse_list max_keys max_string_size [] = ok ([], cleanup [])
parse_list max_keys max_string_size (c ∷ s) =
    let keys = (do r ← list_loop max_string_size max_keys (pos 2) s; ok (finish_list max_keys r)) in
    if c == b'[' then keys else ok ([], cleanup s)

-- The delay, or `none` for the return value -1, and the bytes left.
unfoldable pub parse_delay : Bytes → Run (Option ℕ × Bytes)
parse_delay s = do
  (value, next, rest) ← read_uint s
  elim value [ some ul ↦ ok (some ul, rest) | none ↦ ok (none, cleanup rest) ]
