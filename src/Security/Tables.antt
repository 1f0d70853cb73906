-- ===== src/Security/Tables.antt =====
-- keystore.c: tables with distinct indices, and what is stored in them entry by entry.
use nyx_modules.Base.{
  ℕ, ℤ, pos, negsuc, ◌==ℤ◌, ==ℤ_refl, ==ℤ→≡, false, Bool-cases, Option-cases, [], ◌∷◌, Option, none,
  some, ◌≡◌, refl, sym, ◌∙◌, inl, inr,
}
use mathlib.Core.Option.{none-ne-some, some-injective}
use mathlib.Core.Path.{subst}
use nyx_modules.Security.Keystore.{
  Table, keystore_key_lookup, keystore_key_replace, remove, replace, put_at,
}
use nyx_modules.Security.FreeIndex.{lookup-remove_self, lookup-remove_other}

-- A table whose indices are distinct and other than -1, with keys that satisfy `Good`.
unfoldable pub IsTable {ℓ} : {V : Type ℓ} → (V → Type ℓ) → Table V → Type ℓ
IsTable Good [] = Unit
IsTable Good ((i, k) ∷ t) =
    (keystore_key_lookup t i ≡ none) × (i ==ℤ negsuc 0 ≡ false) × Good k × IsTable Good t

module _ {ℓ} {V : Type ℓ} (Good : V → Type ℓ) where
  lookup-remove-none :
      (t : Table V) (i j : ℤ)
      → keystore_key_lookup t i ≡ none
      → keystore_key_lookup (remove t j) i ≡ none
  lookup-remove-none t i j h = elim (Bool-cases (j ==ℤ i)) [
    | inl e ↦ rw (==ℤ→≡ j i e) (lookup-remove_self t i)
    | inr e ↦ lookup-remove_other t j i e ∙ h
  ]

  remove-IsTable : (t : Table V) (j : ℤ) → IsTable Good t → IsTable Good (remove t j)
  unfolding IsTable remove
  remove-IsTable [] j v = v
  remove-IsTable ((i, k) ∷ t) j v = elim (Bool-cases (i ==ℤ j)) [
    | inl e ↦ rw e (remove-IsTable t j v.3)
    | inr e ↦ rw e (lookup-remove-none t i j v.0, v.1, v.2, remove-IsTable t j v.3)
  ]

  pub replace-IsTable :
      (t : Table V) (i : ℤ) (k : V)
      → i ==ℤ negsuc 0 ≡ false
      → Good k
      → IsTable Good t
      → IsTable Good (replace t i k)
  unfolding replace IsTable
  replace-IsTable t i k h g v = (lookup-remove_self t i, h, g, remove-IsTable t i v)

  put_at-IsTable :
      (t t' : Table V) (k : V) (i : ℤ) (free : Option ℕ)
      → put_at t k free ≡ some (t', i)
      → Good k
      → IsTable Good t
      → IsTable Good t'
  unfolding put_at
  put_at-IsTable t t' k i none h g v = absurd (none-ne-some (t', i) h)
  put_at-IsTable t t' k i (some n) h g v =
      subst (λ (r : Table V × ℤ). IsTable Good r.0)
        (some-injective (replace t (pos n) k, pos n) (t', i) h)
        (replace-IsTable t (pos n) k refl g v)

  -- What `keystore_key_replace` stores in a table is one again.
  pub key_replace-IsTable :
      (t t' : Table V) (k : V) (index i : ℤ)
      → keystore_key_replace t k index ≡ some (t', i)
      → Good k
      → IsTable Good t
      → IsTable Good t'
  unfolding keystore_key_replace
  key_replace-IsTable t t' k index i h g v = elim (Bool-cases (index ==ℤ negsuc 0)) [
    | inl e ↦ put_at-IsTable t t' k i _ (rw e at h) g v
    | inr e ↦
        subst (λ (r : Table V × ℤ). IsTable Good r.0)
          (some-injective (replace t index k, index) (t', i) (rw e at h))
          (replace-IsTable t index k e g v)
  ]

-- The table that the entries make when they are stored one after the other.
unfoldable pub put_all {ℓ} : {V : Type ℓ} → Table V → Table V → Table V
put_all [] acc = acc
put_all ((i, k) ∷ t) acc = put_all t (replace acc i k)

module _ {ℓ} {V : Type ℓ} where
  pub put_all-IsTable :
      (Good : V → Type ℓ) (t acc : Table V)
      → IsTable Good t
      → IsTable Good acc
      → IsTable Good (put_all t acc)
  unfolding put_all IsTable
  put_all-IsTable Good [] acc v w = w
  put_all-IsTable Good ((i, k) ∷ t) acc v w =
      put_all-IsTable Good t (replace acc i k) v.3 (replace-IsTable Good acc i k v.1 v.2 w)

  lookup-replace_other :
      (t : Table V) (i j : ℤ) (k : V)
      → i ==ℤ j ≡ false
      → keystore_key_lookup (replace t i k) j ≡ keystore_key_lookup t j
  unfolding replace keystore_key_lookup
  lookup-replace_other t i j k h = rw h (lookup-remove_other t i j h)

  lookup-replace_self :
      (t : Table V) (i : ℤ) (k : V) → keystore_key_lookup (replace t i k) i ≡ some k
  unfolding replace keystore_key_lookup
  lookup-replace_self t i k = rw (==ℤ_refl i) refl

  put_all_absent :
      (t acc : Table V) (j : ℤ)
      → keystore_key_lookup t j ≡ none
      → keystore_key_lookup (put_all t acc) j ≡ keystore_key_lookup acc j
  unfolding put_all
  put_all_absent [] acc j h = refl
  put_all_absent ((i, k) ∷ t) acc j h = elim (Bool-cases (i ==ℤ j)) [
    | inl e ↦ absurd (none-ne-some k (sym h ∙ unfold keystore_key_lookup in rw e refl))
    | inr e ↦
        put_all_absent t (replace acc i k) j (unfold keystore_key_lookup in (rw e at h))
        ∙ lookup-replace_other acc i j k e
  ]

  put_all_found :
      (Good : V → Type ℓ) (t acc : Table V) (j : ℤ) (found : V)
      → IsTable Good t
      → keystore_key_lookup t j ≡ some found
      → keystore_key_lookup (put_all t acc) j ≡ some found
  unfolding put_all IsTable
  put_all_found Good [] acc j found v h =
      absurd (none-ne-some found (unfold keystore_key_lookup in h))
  put_all_found Good ((i, k) ∷ t) acc j found v h = elim (Bool-cases (i ==ℤ j)) [
    | inl e ↦
        put_all_absent t (replace acc i k) j
          (subst (λ (n : ℤ). keystore_key_lookup t n ≡ none) (==ℤ→≡ i j e) v.0)
        ∙ subst (λ (n : ℤ). keystore_key_lookup (replace acc i k) n ≡ some k) (==ℤ→≡ i j e)
            (lookup-replace_self acc i k)
        ∙ (unfold keystore_key_lookup in (rw e at h))
    | inr e ↦
        put_all_found Good t (replace acc i k) j found v.3
          (unfold keystore_key_lookup in (rw e at h))
  ]

  -- A table that is stored in an empty one is looked up as before.
  pub lookup-put_all :
      (Good : V → Type ℓ) (t : Table V) (j : ℤ)
      → IsTable Good t
      → keystore_key_lookup (put_all t []) j ≡ keystore_key_lookup t j
  unfolding keystore_key_lookup
  lookup-put_all Good t j v = elim (Option-cases (keystore_key_lookup t j)) [
    | inl e ↦ put_all_absent t [] j e ∙ sym e
    | inr (k, e) ↦ put_all_found Good t [] j k v e ∙ sym e
  ]
