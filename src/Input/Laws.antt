-- ===== src/Input/Laws.antt =====
-- What read_string accepts, where it overruns its buffer, and how much input is consumed.
use so.Common.{
  ℕ, zero, suc, ◌+◌, ◌≤◌, ◌<◌, ◌==◌, Bool, false, ◌||◌, [], ◌∷◌, ◌++◌, Bytes, All, ℤ, pos, negsuc,
  Run, ok, fault, out_of_bounds, arith, ◌≡◌, refl, length, ◌⊎◌, take, ◌↔◌,
}
use so.Input.{cleanup, StringRead, read_string}

-- A byte at which `read_string` stops.
abbrev pub is_stop : ℕ → Bool
is_stop c = c == b' ' || c == b',' || c == b')' || c == b']'

-- Text that `read_string` reads on.
abbrev pub IsPlain : Bytes → Type 0
IsPlain = All (λ c. is_stop c ≡ false)

-- No byte ends the line.
abbrev pub OneLine : Bytes → Type 0
OneLine = All (λ c. (c == b'\n') ≡ false)

pub cleanup-line : (line rest : Bytes) → OneLine line → cleanup (line ++ b'\n' ∷ rest) ≡ rest
unfolding cleanup
cleanup-line [] rest h = refl
cleanup-line (c ∷ line) rest h = ground (arith, cleanup-line line rest h.1)

pub length-cleanup-le : (s : Bytes) → length (cleanup s) ≤ length s
unfolding cleanup
length-cleanup-le [] = omega arith
length-cleanup-le (c ∷ s) = ground (arith, length-cleanup-le s)

-- What a delimiter byte makes `read_string` return.
abbrev pub Delimits : ℕ → ℤ → Type 0
Delimits c status =
    ((c ≡ b',') × (status ≡ pos 0))
    ⊎ ((c ≡ b')') × (status ≡ pos 1))
    ⊎ ((c ≡ b']') × (status ≡ pos 2))
    ⊎ ((c ≡ b' ') × (status ≡ negsuc 0))

-- Text shorter than the buffer is read up to its delimiter.
pub read_string-plain :
    (max : ℕ) (text rest : Bytes) (c : ℕ) (status : ℤ)
    → IsPlain text
    → length text < max
    → Delimits c status
    → read_string max (text ++ c ∷ rest) ≡ ok (record { status = status; text = text; rest = rest })
unfolding read_string
read_string-plain zero text rest c status h short d = absurd (omega arith)
read_string-plain (suc max) [] rest c status h short d = ground arith
read_string-plain (suc max) (x ∷ text) rest c status h short d =
    ground (arith, read_string-plain max text rest c status h.1)

-- Text that is returned fits the buffer with its NUL, and the input pays for it.
abbrev pub Fits : ℕ → Bytes → Run StringRead → Type 0
Fits max s (fault e) = Unit
Fits max s (ok r) = (length r.text < max) × (length r.text + length r.rest ≤ length s)

pub read_string-Fits : (max : ℕ) (s : Bytes) → Fits max s (read_string max s)
unfolding read_string
read_string-Fits zero s = tt
read_string-Fits (suc max) [] = (omega arith, omega arith)
read_string-Fits (suc max) (c ∷ s) = ground (arith, read_string-Fits max s)

pub read_string-lt :
    (max : ℕ) (s : Bytes) {r : StringRead}
    → read_string max s ≡ ok r
    → (length r.text < max) × (length r.text + length r.rest ≤ length s)
read_string-lt max s h = rw h at (read_string-Fits max s)

-- The buffer is overrun exactly when the first `max` bytes are there and hold no delimiter.
pub read_string-overrun :
    (max : ℕ) (s : Bytes)
    → (read_string max s ≡ fault out_of_bounds) ↔ (IsPlain (take max s) × (max ≤ length s))
unfolding read_string
read_string-overrun zero s = ground arith
read_string-overrun (suc max) [] = ground arith
read_string-overrun (suc max) (c ∷ s) = ground (arith, read_string-overrun max s)
