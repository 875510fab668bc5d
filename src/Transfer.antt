-- ===== src/Transfer.antt =====
-- SOParte2/src/common/io.c, and `send_msg` of client/api.c and server/kvs.c: the loops around
-- `read` and `write`. What the calls return is an argument, a list; `none` is a loop that has not
-- ended when the list has.
pub mod Complete
use so.Common.{
  ℕ, zero, suc, ◌+◌, ltb, leb, ◌==◌, ◌||◌, if◌then◌else◌, Bool, true, false, Option, none, some,
  List, [], ◌∷◌, ◌++◌, Bytes, ℤ, pos, negsuc, length, take, drop, ◌/◌, ◌%◌, ◌*◌, ◌^◌,
}

-- `read`: the bytes, none at the end of the file; -1 with EINTR; -1 with another error.
pub data ReadCall : Type 0 where
  got : Bytes → ReadCall
  read_interrupted : ReadCall
  read_failed : ReadCall

-- `write`: how many bytes it took; -1 with EINTR; -1 with another error.
pub data WriteCall : Type 0 where
  accepted : ℕ → WriteCall
  write_interrupted : WriteCall
  write_failed : WriteCall

pub record ReadAll : Type 0 where
  pub status : ℤ
  pub buffer : Bytes
  -- `*intr`, where `intr` is not NULL
  pub intr : Option Bool

-- The loop of `read_all`, with what has been read.
unfoldable pub read_loop : ℕ → Option Bool → Bytes → List ReadCall → Option ReadAll
read_loop size intr buffer [] =
    if leb size (length buffer)
    then some (record { status = pos 1; buffer = buffer; intr = intr })
    else none
read_loop size intr buffer (got [] ∷ calls) = some (record {
  status = if leb size (length buffer) then pos 1 else pos 0;
  buffer = buffer;
  intr = intr;
})
read_loop size intr buffer (got (c ∷ cs) ∷ calls) =
    let rest = read_loop size intr (buffer ++ c ∷ cs) calls in
    if leb size (length buffer)
    then some (record { status = pos 1; buffer = buffer; intr = intr })
    else rest
read_loop size none buffer (read_interrupted ∷ calls) =
    let rest = read_loop size none buffer calls in
    if leb size (length buffer)
    then some (record { status = pos 1; buffer = buffer; intr = none })
    else rest
read_loop size (some b) buffer (read_interrupted ∷ calls) =
    let rest = read_loop size (some true) buffer calls in
    if leb size (length buffer)
    then some (record { status = pos 1; buffer = buffer; intr = some b })
    else if length buffer == 0
    then some (record { status = negsuc 0; buffer = []; intr = some true })
    else rest
read_loop size intr buffer (read_failed ∷ calls) = some (record {
  status = if leb size (length buffer) then pos 1 else negsuc 0;
  buffer = buffer;
  intr = intr;
})

-- `intr` that is set already: -1 at once.
unfoldable pub read_all : ℕ → Option Bool → List ReadCall → Option ReadAll
unfolding read_loop
read_all size (some true) calls = some (record { status = negsuc 0; buffer = []; intr = some true })
read_all size (some false) calls = read_loop size (some false) [] calls
read_all size none calls = read_loop size none [] calls

-- What has been written, in order, and the return value.
pub record WriteAll : Type 0 where
  pub sent : Bytes
  pub status : ℤ

abbrev pub also_sent : Bytes → Option WriteAll → Option WriteAll
also_sent bytes none = none
also_sent bytes (some w) = some (record { sent = bytes ++ w.sent; status = w.status })

-- The loop of `write_all`, with what is left to write.
unfoldable pub write_all : Bytes → List WriteCall → Option WriteAll
write_all [] calls = some (record { sent = []; status = pos 1 })
write_all (c ∷ cs) [] = none
write_all (c ∷ cs) (accepted n ∷ calls) =
    also_sent (take n (c ∷ cs)) (write_all (drop n (c ∷ cs)) calls)
write_all (c ∷ cs) (write_interrupted ∷ calls) = write_all (c ∷ cs) calls
write_all (c ∷ cs) (write_failed ∷ calls) = some (record { sent = []; status = negsuc 0 })

-- The loop of `send_msg`, on the string; -1 stands for the exit of the program.
unfoldable pub send_msg : Bytes → List WriteCall → Option WriteAll
send_msg [] calls = some (record { sent = []; status = pos 1 })
send_msg (c ∷ cs) [] = none
send_msg (c ∷ cs) (accepted n ∷ calls) =
    also_sent (take n (c ∷ cs)) (send_msg (drop n (c ∷ cs)) calls)
send_msg (c ∷ cs) (write_interrupted ∷ calls) = some (record { sent = []; status = negsuc 0 })
send_msg (c ∷ cs) (write_failed ∷ calls) = some (record { sent = []; status = negsuc 0 })

-- What `read_string` returns, what it has put in `str`, and the bytes left; `str` has no NUL where
-- the file ends first.
pub record LineRead : Type 0 where
  pub status : ℤ
  pub str : Bytes
  pub rest : Bytes

-- The loop, by the room left in `str`, with what stands there.
unfoldable pub line_loop : ℕ → Bytes → Bytes → LineRead
line_loop zero str s = record { status = pos (length str); str = str; rest = s }
line_loop (suc room) str [] = record { status = negsuc 0; str = str; rest = [] }
line_loop (suc room) str (c ∷ s) =
    let more = line_loop room (str ++ c ∷ []) s in
    if c == 0 || c == b'\n' then record { status = pos (length str); str = str; rest = s } else more

-- `read_string` of common/io.c, which nothing calls.
unfoldable pub read_string : Bytes → LineRead
unfolding line_loop
read_string s = line_loop 39 [] s

-- `tv_sec` and `tv_nsec`, which `delay` hands to `nanosleep`.
unfoldable pub delay : ℕ → ℕ × ℕ
delay time_ms = (time_ms / 1000, time_ms % 1000 * 1000000 % 2 ^ 32)
