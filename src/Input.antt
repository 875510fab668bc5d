-- ===== src/Input.antt =====
-- The static functions that SOParte2/src/server/parser.c and SOParte2/src/client/parser.c share,
-- line for line: cleanup, read_string and read_uint. A file descriptor is the bytes that are still
-- to be read from it: `read` gives as many as are asked for while there are any, and never fails.
pub mod Laws
pub mod Numbers
use so.Common.{
  str_eq, take, length, ◌++◌, ℕ, zero, suc, ◌+◌, ◌-◌, ◌*◌, ◌^◌, ◌==◌, ltb, leb, if◌then◌else◌, ◌&&◌,
  Bool, true, false, Option, none, some, List, [], ◌∷◌, Bytes, ℤ, pos, negsuc, Run, ok, fault,
  out_of_bounds, uninitialised, ◌>>=◌,
}

unfoldable pub cleanup : Bytes → Bytes
cleanup [] = []
cleanup (c ∷ s) = if c == b'\n' then s else cleanup s

-- The return value of `read_string`, what it has put in `buffer`, and the bytes left.
pub record StringRead : Type 0 where
  pub status : ℤ
  pub text : Bytes
  pub rest : Bytes

abbrev pub stop : ℤ → Bytes → Run StringRead
stop status rest = ok (record { status = status; text = []; rest = rest })

abbrev pub with_byte : ℕ → Run StringRead → Run StringRead
with_byte c (ok r) = ok (record r { text = c ∷ r.text })
with_byte c (fault e) = fault e

-- The loop, by the room left in a `buffer` of `max` bytes. With no room left it writes the NUL
-- behind the buffer.
unfoldable pub read_string : ℕ → Bytes → Run StringRead
read_string zero s = fault out_of_bounds
read_string (suc room) [] = stop (negsuc 0) []
read_string (suc room) (c ∷ s) =
    let more = with_byte c (read_string room s) in
    if c == b' '
    then stop (negsuc 0) s
    else if c == b','
    then stop (pos 0) s
    else if c == b')'
    then stop (pos 1) s
    else if c == b']'
    then stop (pos 2) s
    else more

abbrev pub is_digit : ℕ → Bool
is_digit c = leb b'0' c && leb c b'9'

-- The digits in `buf`, `*next`, and the bytes left.
pub record Digits : Type 0 where
  pub digits : Bytes
  pub next : ℕ
  pub rest : Bytes

abbrev pub with_digit : ℕ → Run Digits → Run Digits
with_digit c (ok r) = ok (record r { digits = c ∷ r.digits })
with_digit c (fault e) = fault e

-- The loop, by the room left in `buf`. At the end of the input it leaves `buf` with no NUL, and
-- `strtoul` then reads bytes that were never set.
unfoldable pub read_digits : ℕ → Bytes → Run Digits
read_digits room [] = fault uninitialised
read_digits zero (c ∷ s) = fault out_of_bounds
read_digits (suc room) (c ∷ s) =
    let more = with_digit c (read_digits room s) in
    if is_digit c then more else ok (record { digits = []; next = c; rest = s })

-- `strtoul(buf, NULL, 10)` on digits; sixteen bytes hold no number near its limit.
unfoldable pub strtoul : ℕ → Bytes → ℕ
strtoul acc [] = acc
strtoul acc (c ∷ cs) = strtoul (acc * 10 + (c - b'0')) cs

abbrev pub uint_max : ℕ
uint_max = 2 ^ 32 - 1

-- The number, or `none` for the return value 1; `*next`; and the bytes left.
unfoldable pub read_uint : Bytes → Run (Option ℕ × ℕ × Bytes)
unfolding read_digits strtoul
read_uint s = do
  r ← read_digits 16 s
  let ul = strtoul 0 r.digits
  ok ((if ltb uint_max ul then none else some ul), r.next, r.rest)

-- `read(fd, buf + k, n) == n`, and `buf` then begins with the word; `buf` is its first `k` bytes.
abbrev pub reads_word : Bytes → ℕ → Bytes → Bytes → Bool
reads_word buf n word s = length (take n s) == n && str_eq (buf ++ take n s) word
