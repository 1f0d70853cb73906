-- ===== src/Security/Suite/Creating.antt =====
-- test_security.c: the tests that create keys pass with every key store.
use nyx_modules.Base.{
  ℕ, zero, suc, ℤ, pos, negsuc, ◌==ℤ◌, true, false, Option, some, is_some, ◌≡◌, refl, sym, ap, ◌∙◌,
  inl, inr, arith,
}
use mathlib.Core.Option
use mathlib.Core.Bool.{false≢true}
use nyx_modules.Nyx.{NyxError, ok}
use nyx_modules.Security.Keystore.{Table, keystore_key_lookup, keystore_key_replace}
use nyx_modules.Security.FreeIndex.{Holds, key_replace_lem}
use nyx_modules.Security.Suite.{third_creation, second_creation, first_creation, test_create_key}

suc_ne : (n : ℕ) → (pos (suc n) ==ℤ pos 0) ≡ false
suc_ne n = ground arith

module _ {V : Type 0} where
  -- A key that is put at the next free index leaves a key at 0.
  first_taken :
      (t : Table V) (key : V)
      → (t' : Table V) × (n : ℕ) × (keystore_key_replace t key (negsuc 0) ≡ some (t', pos n))
        × (is_some (keystore_key_lookup t' (pos 0)) ≡ true)
  unfolding Holds
  first_taken t key =
      let (t', i, run, (stored, kept), how) = key_replace_lem t key (negsuc 0) in
      elim how [
        | inl (e, same) ↦ absurd (false≢true (sym e))
        | inr (zero, e, at, free, below) ↦ (
          t',
          0,
          run ∙ ap (λ (i : ℤ). some (t', i)) at,
          ap is_some (sym (ap (λ (i : ℤ). keystore_key_lookup t' i) at) ∙ stored),
        )
        | inr (suc n, e, at, free, below) ↦ (
          t',
          suc n,
          run ∙ ap (λ (i : ℤ). some (t', i)) at,
          ap is_some (kept (pos 0) (ap (λ (i : ℤ). i ==ℤ pos 0) at ∙ suc_ne n))
              ∙ below 0 (omega arith),
        )
      ]

  -- A key at 1 is put there, and what 0 has stays.
  second_taken :
      (t : Table V) (key : V)
      → is_some (keystore_key_lookup t (pos 0)) ≡ true
      → (t' : Table V) × (keystore_key_replace t key (pos 1) ≡ some (t', pos 1))
        × (is_some (keystore_key_lookup t' (pos 0)) ≡ true)
        × (is_some (keystore_key_lookup t' (pos 1)) ≡ true)
  unfolding Holds
  second_taken t key h =
      let (t', i, run, (stored, kept), how) = key_replace_lem t key (pos 1) in
      elim how [
        | inl (e, same) ↦ (
          t',
          run ∙ ap (λ (i : ℤ). some (t', i)) same,
          ap is_some (kept (pos 0) (ap (λ (i : ℤ). i ==ℤ pos 0) same)) ∙ h,
          ap is_some (sym (ap (λ (i : ℤ). keystore_key_lookup t' i) same) ∙ stored),
        )
        | inr (n, e, at, free, below) ↦ cc
      ]

  -- Where 0 and 1 have keys, the next free index is 2 at least.
  third_free :
      (t : Table V) (key : V)
      → is_some (keystore_key_lookup t (pos 0)) ≡ true
      → is_some (keystore_key_lookup t (pos 1)) ≡ true
      → (t' : Table V) × (n : ℕ) × (keystore_key_replace t key (negsuc 0)
          ≡ some (t', pos (suc (suc n))))
  third_free t key h0 h1 =
      let (t', i, run, holds, how) = key_replace_lem t key (negsuc 0) in
      elim how [
        | inl (e, same) ↦ absurd (false≢true (sym e))
        | inr (zero, e, at, free, below) ↦ absurd (false≢true (sym (ap is_some free) ∙ h0))
        | inr (suc zero, e, at, free, below) ↦ absurd (false≢true (sym (ap is_some free) ∙ h1))
        | inr (suc (suc n), e, at, free, below) ↦ (t', n, run ∙ ap (λ (i : ℤ). some (t', i)) at)
      ]

-- A way to create keys that puts them into a table of its state.
module _ {S V : Type 0} (table : S → Table V) (put : S → Table V → S) (key : ℕ → V)
    (create : ℕ → S → ℤ → Option (S × NyxError × ℤ)) where
  unfoldable pub IsCreating : Type 0
  IsCreating =
      ((n : ℕ) (s : S) (index : ℤ)
        → create n s index
          ≡ Option.map (λ (r : Table V × ℤ). (put s r.0, ok, r.1))
              (keystore_key_replace (table s) (key n) index))
      × ((s : S) (t : Table V) → table (put s t) ≡ t)

  pub creating_lem : IsCreating → (s : S) → test_create_key create s ≡ true
  unfolding IsCreating test_create_key first_creation second_creation third_creation
  creating_lem (law, kept) s =
      let (t1, n, run1, taken) = first_taken (table s) (key 0) in
      let s1 = put s t1 in
      let (t2, run2, taken0, taken1) = second_taken t1 (key 1) taken in
      let s2 = put s1 t2 in
      let (t3, m, run3) = third_free t2 (key 2) taken0 taken1 in
      let e1 : create 0 s (negsuc 0) ≡ some (s1, ok, pos n) = law 0 s (negsuc 0) ∙ rw run1 refl in
      let e2 : create 1 s1 (pos 1) ≡ some (s2, ok, pos 1) =
        law 1 s1 (pos 1) ∙ rw (kept s t1, run2) refl in
      let e3 : create 2 s2 (negsuc 0) ≡ some (put s2 t3, ok, pos (suc (suc m))) =
        law 2 s2 (negsuc 0) ∙ rw (kept s1 t2, run3) refl in
      rw (e1, e2, e3) (ground arith)
