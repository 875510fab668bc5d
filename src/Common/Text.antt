-- ===== src/Common/Text.antt =====
-- C text: bytes, NUL-terminated strings, and the functions of <string.h> that the program calls.
use Prim.Native.Nat.{ℕ, zero, suc, compare, Ordering}
use Prim.Native.Char.{code}
use Prim.Native.String.{String}
use mathlib.Core.Path.{◌≡◌, refl}
use mathlib.Core.Logic.{◌↔◌, ◌≢◌}
use mathlib.Core.Bool.{Bool, true, false}
use mathlib.Core.List.{List, [], ◌∷◌, ◌++◌}
use native.Mathlib.Omega.{arith}
use so.Common.Tests.{◌==◌, if◌then◌else◌}
use so.Common.Outcome.{Run, ok, fault, out_of_bounds}
use so.Common.Lists.{All}

-- Bytes are numbers below 256, and a C string is its bytes up to the NUL.
abbrev pub Bytes : Type 0
Bytes = List ℕ

-- The bytes of an ASCII literal.
abbrev pub codes : String → Bytes
codes String.[] = []
codes (String.◌∷◌ c s) = code c ∷ codes s

-- The C string that stands at the start of a memory area.
abbrev pub c_str : Bytes → Bytes
c_str [] = []
c_str (c ∷ cs) = if c == 0 then [] else c ∷ c_str cs

-- The string that a `char *` into an area of memory stands for, where the area holds its NUL.
abbrev pub read_c_str : Bytes → Run Bytes
read_c_str [] = fault out_of_bounds
read_c_str (c ∷ cs) =
    if c == 0 then ok [] else elim (read_c_str cs) [ ok s ↦ ok (c ∷ s) | fault e ↦ fault e ]

-- No byte is NUL.
abbrev pub IsText : Bytes → Type 0
IsText = All (λ c. c ≢ 0)

-- `strcmp` on strings, by its sign; bytes compare unsigned.
unfoldable pub strcmp : Bytes → Bytes → Ordering
strcmp [] [] = Ordering.eq
strcmp [] (y ∷ ys) = Ordering.lt
strcmp (x ∷ xs) [] = Ordering.gt
strcmp (x ∷ xs) (y ∷ ys) = elim (compare x y) [
  | Ordering.lt ↦ Ordering.lt
  | Ordering.eq ↦ strcmp xs ys
  | Ordering.gt ↦ Ordering.gt
]

-- `strcmp(a, b) == 0`
abbrev pub str_eq : Bytes → Bytes → Bool
str_eq a b = elim (strcmp a b) [ Ordering.eq ↦ true | _ ↦ false ]

-- `strcmp(a, b) > 0`
abbrev pub str_gt : Bytes → Bytes → Bool
str_gt a b = elim (strcmp a b) [ Ordering.gt ↦ true | _ ↦ false ]

-- What `strncpy(dest, src, n)` leaves in the `n` bytes of `dest`, for the string `src`.
abbrev pub strncpy : Bytes → ℕ → Bytes
strncpy s zero = []
strncpy [] (suc n) = 0 ∷ strncpy [] n
strncpy (c ∷ cs) (suc n) = c ∷ strncpy cs n

pub str_eq_iff : (a b : Bytes) → (str_eq a b ≡ true) ↔ (a ≡ b)
unfolding strcmp
str_eq_iff (x ∷ a) (y ∷ b) = ground (arith, str_eq_iff a b)
str_eq_iff [] [] = ground arith
str_eq_iff _ _ = ground arith

pub str_eq_refl : (a : Bytes) → str_eq a a ≡ true
str_eq_refl a = (str_eq_iff a a).1 refl

pub str_eq_symm : (a b : Bytes) → str_eq a b ≡ str_eq b a
str_eq_symm a b = ground (arith, str_eq_iff a b, str_eq_iff b a)

pub c_str-text : (s : Bytes) → IsText s → c_str s ≡ s
c_str-text [] h = refl
c_str-text (c ∷ s) h = ground (arith, c_str-text s h.1)

pub c_str-IsText : (s : Bytes) → IsText (c_str s)
c_str-IsText [] = tt
c_str-IsText (c ∷ s) = ground (arith, c_str-IsText s)

-- A string stops at its NUL, whatever stands behind.
pub c_str-append_nul : (s rest : Bytes) → IsText s → c_str (s ++ 0 ∷ rest) ≡ s
c_str-append_nul [] rest h = refl
c_str-append_nul (c ∷ s) rest h = ground (arith, c_str-append_nul s rest h.1)

pub read_c_str-append_nul : (s rest : Bytes) → IsText s → read_c_str (s ++ 0 ∷ rest) ≡ ok s
read_c_str-append_nul [] rest h = refl
read_c_str-append_nul (c ∷ s) rest h = ground (arith, read_c_str-append_nul s rest h.1)
