-- ===== src/Server/Parser/Wait.antt =====
-- parse_wait on a number.
use so.Common.{
  ◌≤◌, ◌<◌, some, none, ◌∷◌, ◌++◌, Bytes, arith, ◌≡◌, refl, length, ok, fault, out_of_bounds,
  uninitialised, pos, negsuc,
}
use so.Input.{uint_max}
use so.Input.Laws.{OneLine, cleanup-line}
use so.Input.Numbers.{
  IsNumber, value_of, read_uint-number, read_uint-overrun, read_uint-unterminated,
}
use so.Server.Parser.{parse_wait}

-- Fewer than 16 digits at the end of a line: the delay is the number, where it fits.
pub parse_wait-number :
    (ds rest : Bytes)
    → IsNumber ds
    → length ds < 16
    → value_of ds ≤ uint_max
    → parse_wait (ds ++ b'\n' ∷ rest)
      ≡ ok (record { status = pos 0; delay = some (value_of ds); rest = rest })
unfolding parse_wait
parse_wait-number ds rest h short fits =
    rw (read_uint-number ds rest b'\n' h short refl) (ground arith)

-- A number that does not fit is refused, and the line behind it is skipped.
pub parse_wait-too_large :
    (ds next rest : Bytes)
    → IsNumber ds
    → length ds < 16
    → uint_max < value_of ds
    → OneLine next
    → parse_wait (ds ++ b'\n' ∷ (next ++ b'\n' ∷ rest))
      ≡ ok (record { status = negsuc 0; delay = none; rest = rest })
unfolding parse_wait
parse_wait-too_large ds next rest h short large one =
    rw (read_uint-number ds (next ++ b'\n' ∷ rest) b'\n' h short refl)
      (ground (arith, cleanup-line next rest one))

-- More than 16 digits overrun `buf`.
pub parse_wait-overrun :
    (ds rest : Bytes) → IsNumber ds → 16 < length ds → parse_wait (ds ++ rest) ≡ fault out_of_bounds
unfolding parse_wait
parse_wait-overrun ds rest h long = rw (read_uint-overrun ds rest h long)

-- A number of at most 16 digits at the very end of the file leaves `buf` with no NUL.
pub parse_wait-unterminated :
    (ds : Bytes) → IsNumber ds → length ds ≤ 16 → parse_wait ds ≡ fault uninitialised
unfolding parse_wait
parse_wait-unterminated ds h short = rw (read_uint-unterminated ds h short)
