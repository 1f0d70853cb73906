-- ===== src/Base/Int.antt =====
-- The C type `int`: integers over the native numbers, with the parts that `omega` reads.
use Prim.Native.Nat.{ℕ, suc, ◌+◌, ◌-◌, ◌*◌, ◌/◌, ◌^◌}
use mathlib.Core.Bool.{Bool, true, false, false≢true}
use mathlib.Core.Path.{◌≡◌, refl, ap}
use nyx_modules.Base.Tests.{ltb, leb, ◌==◌, if◌then◌else◌, ==_iff, eq→==}

-- `negsuc n` is -(n + 1).
pub data ℤ : Type 0 where
  pos : ℕ → ℤ
  negsuc : ℕ → ℤ

abbrev pub pos_part : ℤ → ℕ
pos_part (pos n) = n
pos_part (negsuc n) = 0

abbrev pub neg_part : ℤ → ℕ
neg_part (pos n) = 0
neg_part (negsuc n) = suc n

abbrev pub sub_ℕ : ℕ → ℕ → ℤ
sub_ℕ a b = if leb b a then pos (a - b) else negsuc (b - a - 1)

infixl 65 ◌+ℤ◌ ◌-ℤ◌
unfoldable pub ◌+ℤ◌ : ℤ → ℤ → ℤ
a +ℤ b = sub_ℕ (pos_part a + pos_part b) (neg_part a + neg_part b)

unfoldable pub ◌-ℤ◌ : ℤ → ℤ → ℤ
a -ℤ b = sub_ℕ (pos_part a + neg_part b) (neg_part a + pos_part b)

-- Multiplication by a number that is not negative.
abbrev pub scale_ℤ : ℕ → ℤ → ℤ
scale_ℤ k (pos n) = pos (k * n)
scale_ℤ k (negsuc n) = sub_ℕ 0 (k * suc n)

abbrev pub ltb_ℤ : ℤ → ℤ → Bool
ltb_ℤ a b = ltb (pos_part a + neg_part b) (pos_part b + neg_part a)

infix 50 ◌==ℤ◌
abbrev pub ◌==ℤ◌ : ℤ → ℤ → Bool
pos a ==ℤ pos b = a == b
negsuc a ==ℤ negsuc b = a == b
pos a ==ℤ negsuc b = false
negsuc a ==ℤ pos b = false

-- `a / 2`, which C rounds towards zero.
abbrev pub half : ℤ → ℤ
half (pos n) = pos (n / 2)
half (negsuc n) = sub_ℕ 0 (suc n / 2)

-- The value of a `uint32_t` that is stored in an `int32_t`.
abbrev pub signed32 : ℕ → ℤ
signed32 w = if ltb w (2 ^ 31) then pos w else negsuc (2 ^ 32 - w - 1)

abbrev pub abs_diff : ℤ → ℤ → ℕ
abs_diff a b = pos_part (a -ℤ b) + neg_part (a -ℤ b)

-- `dx * dx + dy * dy` for two points.
unfoldable pub dist_sq : ℤ → ℤ → ℤ → ℤ → ℕ
dist_sq x y u v = abs_diff x u * abs_diff x u + abs_diff y v * abs_diff y v

pub ==ℤ_refl : (i : ℤ) → i ==ℤ i ≡ true
==ℤ_refl (pos n) = eq→== n n refl
==ℤ_refl (negsuc n) = eq→== n n refl

pub ==ℤ→≡ : (i j : ℤ) → i ==ℤ j ≡ true → i ≡ j
==ℤ→≡ (pos a) (pos b) h = ap pos ((==_iff a b).0 h)
==ℤ→≡ (negsuc a) (negsuc b) h = ap negsuc ((==_iff a b).0 h)
==ℤ→≡ (pos a) (negsuc b) h = absurd (false≢true h)
==ℤ→≡ (negsuc a) (pos b) h = absurd (false≢true h)
