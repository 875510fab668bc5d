-- ===== src/Common/Outcome.antt =====
-- What a piece of C code does: it ends in a value, or it runs into undefined behaviour.
use Prim.Native.Nat.{ℕ}
use mathlib.Core.Path.{◌≡◌, refl}
use so.Common.Tests.{ℤ, pos, negsuc, ltb, if◌then◌else◌}

pub data Fault : Type 0 where
  -- an access outside an array
  out_of_bounds : Fault
  -- a dereference of NULL
  null_pointer : Fault
  -- a read of memory that nothing has been written to
  uninitialised : Fault
  -- a use of memory after `free`
  use_after_free : Fault

pub data Run {ℓ} (A : Type ℓ) : Type ℓ where
  ok : A → Run A
  fault : Fault → Run A

-- A fault ends the run that it happens in.
infixl 5 ◌>>=◌
abbrev pub ◌>>=◌ {ℓ κ} : {A : Type ℓ} {B : Type κ} (run : Run A) (next : A → Run B) → Run B
fault why >>= next = fault why
ok value >>= next = next value

-- A run that ends in a value has come through its first part.
pub >>=-eq-ok {ℓ κ} :
    {A : Type ℓ} {B : Type κ} {out : B}
    → (run : Run A) (next : A → Run B) → run >>= next ≡ ok out
    → (value : A) × (run ≡ ok value) × (next value ≡ ok out)
>>=-eq-ok (fault why) next ended = cc
>>=-eq-ok (ok value) next ended = (value, refl, ended)

-- The index that `a[i]` reads, for an array `a` of `n` elements.
abbrev pub in_bounds : ℤ → ℕ → Run ℕ
in_bounds (pos i) n = if ltb i n then ok i else fault out_of_bounds
in_bounds (negsuc i) n = fault out_of_bounds

-- What a run ends in, if it ends in a value, has the property.
pub data Always {ℓ κ} {A : Type ℓ} (P : A → Type κ) : Run A → Type (ℓ ⊔ κ) where
  ends : {value : A} → P value → Always P (ok value)
  stops : {why : Fault} → Always P (fault why)

pub >>=-Always {ℓ κ μ ν} :
    {A : Type ℓ} {B : Type κ} {P : B → Type ν} {next : A → Run B} (Q : A → Type μ) (run : Run A)
    → Always Q run
    → ((value : A) → Q value → Always P (next value))
    → Always P (run >>= next)
>>=-Always Q (ok value) (ends q) step = step value q
>>=-Always Q (fault why) q step = stops

pub >>=-every {ℓ κ ν} :
    {A : Type ℓ} {B : Type κ} {P : B → Type ν} {next : A → Run B} (run : Run A)
    → ((value : A) → Always P (next value))
    → Always P (run >>= next)
>>=-every (ok value) step = step value
>>=-every (fault why) step = stops
