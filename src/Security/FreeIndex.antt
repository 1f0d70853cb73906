-- ===== src/Security/FreeIndex.antt =====
-- keystore.c: what a key store that has taken a key looks up.
use nyx_modules.Base.{
  ℕ, suc, zero, ◌+◌, ◌≤◌, ◌<◌, ℤ, pos, negsuc, ◌==ℤ◌, ◌==◌, ==_iff, Bool, true, false,
  if◌then◌else◌, [], ◌∷◌, Option, none, some, is_some, length, Bool-cases, ◌≡◌, refl, sym, ap, ◌∙◌,
  inl, inr, ◌⊎◌, arith, ==ℤ_refl, ==ℤ→≡, ne→==, if_elim,
}
use mathlib.Core.Bool.{false≢true}
use mathlib.Core.Path.{subst}
use nyx_modules.Security.Keystore.{
  Table, keystore_key_lookup, remove, replace, free_index, put_at, keystore_key_replace,
}

module _ {ℓ} {V : Type ℓ} where
  pub lookup-remove_self : (t : Table V) (i : ℤ) → keystore_key_lookup (remove t i) i ≡ none
  unfolding keystore_key_lookup remove
  lookup-remove_self [] i = refl
  lookup-remove_self ((j, k) ∷ t) i = elim (Bool-cases (j ==ℤ i)) [
    | inl e ↦ rw e (lookup-remove_self t i)
    | inr e ↦ rw (e, keystore_key_lookup, e) (lookup-remove_self t i)
  ]

  pub lookup-remove_other :
      (t : Table V) (i j : ℤ)
      → i ==ℤ j ≡ false
      → keystore_key_lookup (remove t i) j ≡ keystore_key_lookup t j
  unfolding keystore_key_lookup remove
  lookup-remove_other [] i j h = refl
  lookup-remove_other ((n, k) ∷ t) i j h =
      let rest = lookup-remove_other t i j h in
      elim (Bool-cases (n ==ℤ i)) [
        | inl e ↦ rw (e, ==ℤ→≡ n i e, h) rest
        | inr e ↦
            rw (e, keystore_key_lookup) (ap (λ (o : Option V). if n ==ℤ j then some k else o) rest)
      ]

  length-remove : (t : Table V) (i : ℤ) → length (remove t i) ≤ length t
  unfolding remove
  length-remove [] i = omega arith
  length-remove ((j, k) ∷ t) i =
      if_elim (λ (r : Table V). length r ≤ suc (length t)) (j ==ℤ i)
        (omega (arith, length-remove t i)) (omega (arith, length-remove t i))

  length-remove_of_found :
      (t : Table V) (i : ℤ)
      → is_some (keystore_key_lookup t i) ≡ true
      → suc (length (remove t i)) ≤ length t
  unfolding keystore_key_lookup remove
  length-remove_of_found [] i h = absurd (false≢true h)
  length-remove_of_found ((j, k) ∷ t) i h = elim (Bool-cases (j ==ℤ i)) [
    | inl e ↦ rw e (omega (arith, length-remove t i))
    | inr e ↦ rw e (
        omega (
          arith,
          length-remove_of_found t i (
              subst (λ (b : Bool). is_some (if b then some k else keystore_key_lookup t i) ≡ true) e
                h),
        ))
  ]

  -- A table with a key at each of `n` successive indices has `n` entries at least.
  length_of_taken :
      (n a : ℕ) (t : Table V)
      → ((j : ℕ) → a ≤ j → j < a + n → is_some (keystore_key_lookup t (pos j)) ≡ true)
      → n ≤ length t
  length_of_taken zero a t h = omega arith
  length_of_taken (suc n) a t h =
      let shorter = length-remove_of_found t (pos a) (h a (omega arith) (omega arith)) in
      let rest = length_of_taken n (suc a) (remove t (pos a)) (λ j l u.
        ap is_some (lookup-remove_other t (pos a) (pos j) (ne→== a j (omega arith)))
        ∙ h j (omega arith) (omega arith)) in
      omega (arith, shorter, rest)

  -- What the search finds: the first index from `i` on that has no key.
  unfoldable IsFirstFree : Table V → ℕ → ℕ → Type 0
  IsFirstFree t i n =
      (i ≤ n)
      × (is_some (keystore_key_lookup t (pos n)) ≡ false)
      × ((j : ℕ) → i ≤ j → j < n → is_some (keystore_key_lookup t (pos j)) ≡ true)

  from_next :
      (t : Table V) (i j : ℕ)
      → is_some (keystore_key_lookup t (pos i)) ≡ true
      → i ≤ j
      → (suc i ≤ j → is_some (keystore_key_lookup t (pos j)) ≡ true)
      → is_some (keystore_key_lookup t (pos j)) ≡ true
  from_next t i j h l k = elim (Bool-cases (j == i)) [
    | inl e ↦ rw ((==_iff j i).0 e) h
    | inr e ↦ k (ground arith)
  ]

  free_index_lem :
      (fuel i : ℕ) (t : Table V)
      → ((n : ℕ) × (free_index fuel i t ≡ some n) × IsFirstFree t i n)
        ⊎ ((j : ℕ) → i ≤ j → j < i + fuel → is_some (keystore_key_lookup t (pos j)) ≡ true)
  unfolding free_index IsFirstFree
  free_index_lem zero i t = inr (λ j l u. absurd (omega arith))
  free_index_lem (suc fuel) i t = elim (Bool-cases (is_some (keystore_key_lookup t (pos i)))) [
    | inr e ↦ inl (i, rw e refl, (omega arith, e, λ j l u. absurd (omega arith)))
    | inl e ↦ elim (free_index_lem fuel (suc i) t) [
      | inl (n, found, (l, free, below)) ↦ inl (
        n,
        rw e found,
        (omega arith, free, λ j lo up. from_next t i j e lo (λ lo'. below j lo' up)),
      )
      | inr all ↦ inr (λ j lo up. from_next t i j e lo (λ lo'. all j lo' (omega arith)))
    ]
  ]

  search_ends :
      (t : Table V) → (n : ℕ) × (free_index (suc (length t)) 0 t ≡ some n) × IsFirstFree t 0 n
  search_ends t = elim (free_index_lem (suc (length t)) 0 t) [
    | inl r ↦ r
    | inr all ↦ absurd (omega (arith, length_of_taken (suc (length t)) 0 t (λ j l u. all j l u)))
  ]

  none_of : (o : Option V) → is_some o ≡ false → o ≡ none
  none_of none h = refl
  none_of (some k) h = absurd (false≢true (sym h))

  -- After a replacement, the index has the new key and the others have what they had.
  unfoldable pub Holds : Table V → V → ℤ → Table V → Type ℓ
  Holds t key i t' =
      (keystore_key_lookup t' i ≡ some key)
      × ((j : ℤ) → i ==ℤ j ≡ false → keystore_key_lookup t' j ≡ keystore_key_lookup t j)

  replace-Holds : (t : Table V) (key : V) (i : ℤ) → Holds t key i (replace t i key)
  unfolding replace Holds keystore_key_lookup
  replace-Holds t key i = (rw (==ℤ_refl i) refl, λ j h. rw h (lookup-remove_other t i j h))

  -- A replacement always ends. An index other than -1 gets the key, for -1 the least natural number that
  -- has no key does and is the index from then on; every other index keeps what it had.
  pub key_replace_lem :
      (t : Table V) (key : V) (index : ℤ)
      → (t' : Table V) × (i : ℤ) × (keystore_key_replace t key index ≡ some (t', i))
        × Holds t key i t'
        × (((index ==ℤ negsuc 0 ≡ false) × (i ≡ index))
            ⊎ ((n : ℕ) × (index ≡ negsuc 0)
                × (i ≡ pos n)
                × (keystore_key_lookup t (pos n) ≡ none)
                × ((j : ℕ) → j < n → is_some (keystore_key_lookup t (pos j)) ≡ true)))
  unfolding keystore_key_replace put_at IsFirstFree
  key_replace_lem t key index = elim (Bool-cases (index ==ℤ negsuc 0)) [
    | inr e ↦ (replace t index key, index, rw e refl, replace-Holds t key index, inl (e, refl))
    | inl e ↦
        let (n, found, first) = search_ends t in
        (
          replace t (pos n) key,
          pos n,
          rw (e, found) refl,
          replace-Holds t key (pos n),
          inr (
            n,
            ==ℤ→≡ index (negsuc 0) e,
            refl,
            none_of _ first.1,
            λ j u. first.2 j (omega arith) u,
          ),
        )
  ]
