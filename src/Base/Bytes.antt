-- ===== src/Base/Bytes.antt =====
-- Texts, as lists of their bytes.
use nyx_modules.Base.Tests.{◌==◌, eq→==, ==_iff, Bool-cases}
use Prim.Native.Nat.{ℕ}
use mathlib.Core.Path.{◌≡◌, refl, ap₂}
use mathlib.Core.Logic.{inl, inr}
use mathlib.Core.Bool.{Bool, true, false, ◌&&◌, false≢true}
use mathlib.Core.List.{List, [], ◌∷◌}

abbrev pub Text : Type 0
Text = List ℕ

-- `strcmp` and `g_strcmp0` as a test for equal texts.
abbrev pub text_eq : Text → Text → Bool
text_eq [] [] = true
text_eq (a ∷ s) (b ∷ t) = a == b && text_eq s t
text_eq _ _ = false

pub text_eq_refl : (s : Text) → text_eq s s ≡ true
text_eq_refl [] = refl
text_eq_refl (a ∷ s) = rw (eq→== a a refl) (text_eq_refl s)

pub text_eq→≡ : (s t : Text) → text_eq s t ≡ true → s ≡ t
text_eq→≡ [] [] h = refl
text_eq→≡ [] (b ∷ t) h = absurd (false≢true h)
text_eq→≡ (a ∷ s) [] h = absurd (false≢true h)
text_eq→≡ (a ∷ s) (b ∷ t) h = elim (Bool-cases (a == b)) [
  | inl e ↦ ap₂ (λ (a : ℕ) (s : Text). a ∷ s) ((==_iff a b).0 e) (text_eq→≡ s t (rw e at h))
  | inr e ↦ absurd (false≢true (rw e at h))
]
