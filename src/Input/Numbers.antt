-- ===== src/Input/Numbers.antt =====
-- read_uint: decimal digits up to the first other byte.
use so.Common.{
  ℕ, zero, suc, ◌≤◌, ◌<◌, if◌then◌else◌, true, false, [], ◌∷◌, ◌++◌, Bytes, All, Run, ok, fault,
  out_of_bounds, uninitialised, arith, ◌≡◌, refl, length, ltb, some, none,
}
use so.Input.{Digits, is_digit, read_digits, strtoul, uint_max, read_uint}

abbrev pub IsNumber : Bytes → Type 0
IsNumber = All (λ c. is_digit c ≡ true)

-- The number that digits spell, most significant first.
abbrev pub value_of : Bytes → ℕ
value_of ds = strtoul 0 ds

pub read_digits-number :
    (room : ℕ) (ds rest : Bytes) (c : ℕ)
    → IsNumber ds
    → length ds < room
    → is_digit c ≡ false
    → read_digits room (ds ++ c ∷ rest) ≡ ok (record { digits = ds; next = c; rest = rest })
unfolding read_digits
read_digits-number zero ds rest c h short other = absurd (omega arith)
read_digits-number (suc room) [] rest c h short other = ground arith
read_digits-number (suc room) (d ∷ ds) rest c h short other =
    ground (arith, read_digits-number room ds rest c h.1)

-- Fewer than 16 digits and another byte behind them are read as their number, or refused where
-- the number does not fit an `unsigned int`.
pub read_uint-number :
    (ds rest : Bytes) (c : ℕ)
    → IsNumber ds
    → length ds < 16
    → is_digit c ≡ false
    → read_uint (ds ++ c ∷ rest)
      ≡ ok ((if ltb uint_max (value_of ds) then none else some (value_of ds)), c, rest)
unfolding read_uint
read_uint-number ds rest c h short other = rw (read_digits-number 16 ds rest c h short other)

read_digits-overrun :
    (room : ℕ) (ds rest : Bytes)
    → IsNumber ds
    → room < length ds
    → read_digits room (ds ++ rest) ≡ fault out_of_bounds
unfolding read_digits
read_digits-overrun room [] rest h long = absurd (omega arith)
read_digits-overrun zero (d ∷ ds) rest h long = refl
read_digits-overrun (suc room) (d ∷ ds) rest h long =
    ground (arith, read_digits-overrun room ds rest h.1)

-- More than 16 digits overrun `buf`.
pub read_uint-overrun :
    (ds rest : Bytes) → IsNumber ds → 16 < length ds → read_uint (ds ++ rest) ≡ fault out_of_bounds
unfolding read_uint
read_uint-overrun ds rest h long = rw (read_digits-overrun 16 ds rest h long)

-- A number at the very end of the input leaves `buf` with no NUL.
pub read_digits-unterminated :
    (room : ℕ) (ds : Bytes)
    → IsNumber ds
    → length ds ≤ room
    → read_digits room ds ≡ fault uninitialised
unfolding read_digits
read_digits-unterminated room [] h short = refl
read_digits-unterminated zero (d ∷ ds) h short = absurd (omega arith)
read_digits-unterminated (suc room) (d ∷ ds) h short =
    ground (arith, read_digits-unterminated room ds h.1)

pub read_uint-unterminated :
    (ds : Bytes) → IsNumber ds → length ds ≤ 16 → read_uint ds ≡ fault uninitialised
unfolding read_uint
read_uint-unterminated ds h short = rw (read_digits-unterminated 16 ds h short)

-- The number and what follows it are consumed.
abbrev pub Consumes : Bytes → Run Digits → Type 0
Consumes s (fault e) = Unit
Consumes s (ok r) = length r.rest < length s

pub read_digits-Consumes : (room : ℕ) (s : Bytes) → Consumes s (read_digits room s)
unfolding read_digits
read_digits-Consumes room [] = tt
read_digits-Consumes zero (c ∷ s) = tt
read_digits-Consumes (suc room) (c ∷ s) = ground (arith, read_digits-Consumes room s)
