-- ===== src/Security/Groups.antt =====
-- keystore.c: one group of the file, from a table and back.
use nyx_modules.Base.{
  Text, text_eq, text_eq_refl, text_eq→≡, ℤ, negsuc, ◌==ℤ◌, ==ℤ_refl, false, Bool-cases, All, List,
  [], ◌∷◌, ◌++◌, map, none, some, ◌≡◌, refl, sym, ap, ◌∙◌, inl, inr,
}
use mathlib.Core.Bool.{false≢true}
use mathlib.Core.Option.{none-ne-some}
use mathlib.Core.List.{append-nil, append_assoc}
use nyx_modules.Security.Keystore.{Table, keystore_key_lookup, keystore_key_replace, replace}
use nyx_modules.Security.KeyFile.{
  Group, get_string_list, set_string_list, get_keys, save_group, Loaded, key, store_loaded,
  load_group,
}
use nyx_modules.Security.Tables.{IsTable, put_all, put_all-IsTable, lookup-put_all}

-- One group: what the strings of a key are read back as, and indices that are printed and parsed.
module _ {ℓ} {V : Type ℓ} (decimal : ℤ → Text) (atoi : Text → ℤ) (strings : V → List Text) where
  entries : Table V → Group
  entries t = map (λ (e : ℤ × V). (decimal e.0, strings e.1)) t

  -- No key of the group is an index of the table.
  IsFresh : Group → Table V → Type 0
  IsFresh g [] = Unit
  IsFresh g ((i, k) ∷ t) =
      (All (λ (e : Text × List Text). text_eq e.0 (decimal i) ≡ false) g) × IsFresh g t

  -- The group has the strings of each key of the table.
  Has : Group → Table V → Type 0
  Has g [] = Unit
  Has g ((i, k) ∷ t) = (get_string_list g (decimal i) ≡ strings k) × Has g t

  set-fresh :
      (g : Group) (s : Text) (l : List Text)
      → All (λ (e : Text × List Text). text_eq e.0 s ≡ false) g
      → set_string_list g s l ≡ g ++ ((s, l) ∷ [])
  unfolding set_string_list
  set-fresh [] s l h = refl
  set-fresh ((k, m) ∷ g) s l h = rw (h.0, set-fresh g s l h.1) refl

  All-snoc :
      (P : Text × List Text → Type 0) (g : Group) (e : Text × List Text)
      → All P g
      → P e
      → All P (g ++ (e ∷ []))
  All-snoc P [] e h p = (p, tt)
  All-snoc P (x ∷ g) e h p = (h.0, All-snoc P g e h.1 p)

  decimal_ne :
      ((i : ℤ) → atoi (decimal i) ≡ i)
      → (i j : ℤ) → j ==ℤ i ≡ false
      → text_eq (decimal i) (decimal j) ≡ false
  decimal_ne law i j h = elim (Bool-cases (text_eq (decimal i) (decimal j))) [
    | inr e ↦ e
    | inl e ↦
        let same : i ≡ j = sym (law i) ∙ ap atoi (text_eq→≡ (decimal i) (decimal j) e) ∙ law j in
        absurd (false≢true (sym h ∙ rw same (==ℤ_refl j)))
  ]

  tail_absent :
      (t : Table V) (i j : ℤ) (k : V)
      → keystore_key_lookup ((j, k) ∷ t) i ≡ none
      → (j ==ℤ i ≡ false) × (keystore_key_lookup t i ≡ none)
  unfolding keystore_key_lookup
  tail_absent t i j k h = elim (Bool-cases (j ==ℤ i)) [
    | inl e ↦ absurd (none-ne-some k (sym (rw e at h)))
    | inr e ↦ (e, rw e at h)
  ]

  IsFresh-snoc :
      ((i : ℤ) → atoi (decimal i) ≡ i)
      → (g : Group) (t : Table V) (i : ℤ) (l : List Text) → keystore_key_lookup t i ≡ none
      → IsFresh g t
      → IsFresh (g ++ ((decimal i, l) ∷ [])) t
  unfolding IsFresh
  IsFresh-snoc law g [] i l h v = tt
  IsFresh-snoc law g ((j, k) ∷ t) i l h v =
      let (ne, absent) = tail_absent t i j k h in
      (All-snoc _ g _ v.0 (decimal_ne law i j ne), IsFresh-snoc law g t i l absent v.1)

  save_lem :
      (Good : V → Type ℓ)
      → ((i : ℤ) → atoi (decimal i) ≡ i)
      → (t : Table V) (g : Group) → IsTable Good t
      → IsFresh g t
      → save_group decimal strings t g ≡ g ++ entries t
  unfolding save_group IsTable IsFresh entries
  save_lem Good law [] g v w = sym (append-nil g)
  save_lem Good law ((i, k) ∷ t) g v w = rw (set-fresh g (decimal i) (strings k) w.0) (
      save_lem Good law t (g ++ ((decimal i, strings k) ∷ [])) v.3
        (IsFresh-snoc law g t i (strings k) v.0 w.1)
      ∙ append_assoc g _ _)

  IsFresh-nil : (t : Table V) → IsFresh [] t
  unfolding IsFresh
  IsFresh-nil [] = tt
  IsFresh-nil ((i, k) ∷ t) = (tt, IsFresh-nil t)

  Has-cons :
      ((i : ℤ) → atoi (decimal i) ≡ i)
      → (g : Group) (t : Table V) (i : ℤ) (l : List Text) → keystore_key_lookup t i ≡ none
      → Has g t
      → Has ((decimal i, l) ∷ g) t
  unfolding Has get_string_list
  Has-cons law g [] i l h v = tt
  Has-cons law g ((j, k) ∷ t) i l h v =
      let (ne, absent) = tail_absent t i j k h in
      (rw (decimal_ne law i j ne) v.0, Has-cons law g t i l absent v.1)

  entries-Has :
      (Good : V → Type ℓ)
      → ((i : ℤ) → atoi (decimal i) ≡ i)
      → (t : Table V) → IsTable Good t
      → Has (entries t) t
  unfolding Has entries IsTable
  entries-Has Good law [] v = tt
  entries-Has Good law ((i, k) ∷ t) v = (
    unfold get_string_list in rw (text_eq_refl (decimal i)) refl,
    Has-cons law (entries t) t i (strings k) v.0 (entries-Has Good law t v.3),
  )

  store_lem :
      (l : Loaded V) (k : V) (i : ℤ) (acc : Table V)
      → l ≡ key k
      → i ==ℤ negsuc 0 ≡ false
      → store_loaded l i acc ≡ some (replace acc i k)
  unfolding store_loaded keystore_key_replace
  store_lem l k i acc e h = rw (e, h) refl

  load_step :
      (loaded : List Text → Loaded V) (g : Group) (k : Text) (ks : List Text) (acc acc' : Table V)
      → store_loaded (loaded (get_string_list g k)) (atoi k) acc ≡ some acc'
      → load_group atoi loaded g (k ∷ ks) acc ≡ load_group atoi loaded g ks acc'
  unfolding load_group
  load_step loaded g k ks acc acc' h = rw (load_group, h) refl

  load_lem :
      (Good : V → Type ℓ) (loaded : List Text → Loaded V)
      → ((i : ℤ) → atoi (decimal i) ≡ i)
      → ((k : V) → Good k → loaded (strings k) ≡ key k)
      → (g : Group) (t acc : Table V) → IsTable Good t
      → Has g t
      → load_group atoi loaded g (get_keys (entries t)) acc ≡ some (put_all t acc)
  unfolding get_keys entries put_all Has IsTable
  load_lem Good loaded law read g [] acc v h = unfold load_group in refl
  load_lem Good loaded law read g ((i, k) ∷ t) acc v h =
      let stored =
        ap (λ (n : ℤ). store_loaded (loaded (get_string_list g (decimal i))) n acc) (law i)
        ∙ store_lem (loaded (get_string_list g (decimal i))) k i acc (ap loaded h.0 ∙ read k v.2)
            v.1 in
      load_step loaded g (decimal i) (get_keys (entries t)) acc (replace acc i k) stored
      ∙ load_lem Good loaded law read g t (replace acc i k) v.3 h.1

  -- A table that is saved in an empty group and loaded into an empty table is one again, with the same keys.
  pub group_round_trip :
      (Good : V → Type ℓ) (loaded : List Text → Loaded V)
      → ((i : ℤ) → atoi (decimal i) ≡ i)
      → ((k : V) → Good k → loaded (strings k) ≡ key k)
      → (t : Table V) → IsTable Good t
      → (t' : Table V) × (load_group atoi loaded
            (save_group decimal strings t [])
            (get_keys (save_group decimal strings t []))
            []
          ≡ some t')
        × IsTable Good t'
        × ((j : ℤ) → keystore_key_lookup t' j ≡ keystore_key_lookup t j)
  group_round_trip Good loaded law read t v = rw (save_lem Good law t [] v (IsFresh-nil t)) (
    put_all t [],
    load_lem Good loaded law read (entries t) t [] v (entries-Has Good law t v),
    put_all-IsTable Good t [] v (unfold IsTable in tt),
    λ j. lookup-put_all Good t j v,
  )
