-- ===== src/Common/Order.antt =====
-- `strcmp` is a total order.
use mathlib.Core.Path.{◌≡◌, refl}
use mathlib.Core.Bool.{true, false}
use mathlib.Core.List.{[], ◌∷◌}
use native.Mathlib.Omega.{arith}
use so.Common.Text.{Bytes, strcmp, str_gt}

pub str_gt_asymm : (a b : Bytes) → str_gt a b ≡ true → str_gt b a ≡ false
unfolding strcmp
str_gt_asymm (x ∷ a) (y ∷ b) h = ground (arith, str_gt_asymm a b)
str_gt_asymm [] [] h = refl
str_gt_asymm [] (y ∷ b) h = cc
str_gt_asymm (x ∷ a) [] h = refl

-- not greater is transitive
pub str_le_trans : (a b c : Bytes) → str_gt a b ≡ false → str_gt b c ≡ false → str_gt a c ≡ false
unfolding strcmp
str_le_trans [] b [] h k = refl
str_le_trans [] b (z ∷ c) h k = refl
str_le_trans (x ∷ a) [] c h k = cc
str_le_trans (x ∷ a) (y ∷ b) [] h k = cc
str_le_trans (x ∷ a) (y ∷ b) (z ∷ c) h k = ground (arith, str_le_trans a b c)

pub str_le_refl : (a : Bytes) → str_gt a a ≡ false
unfolding strcmp
str_le_refl [] = refl
str_le_refl (x ∷ a) = ground (arith, str_le_refl a)
