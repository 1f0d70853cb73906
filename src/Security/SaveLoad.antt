-- ===== src/Security/SaveLoad.antt =====
-- keystore.c: a key store that is saved and loaded, over the keys that aes.c and rsa.c create.
use nyx_modules.Base.{
  ℕ, ◌*◌, ◌/◌, ℤ, pos, pos_part, negsuc, ◌==ℤ◌, ==ℤ_refl, Bool, true, List, [], length, take,
  take_all, not, ◌||◌, if◌then◌else◌, if_elim, Option-cases, Option, none, some, ◌≡◌, refl, sym, ap,
  ◌∙◌, inl, inr, arith,
}
use mathlib.Core.Option
use mathlib.Core.Option.{none-ne-some, some-injective}
use mathlib.Core.Path.{subst}
use nyx_modules.Nyx.{NyxError, ok, generic, invalid_value, out_of_memory}
use nyx_modules.Security.Keystore.{Table, keystore_key_lookup, keystore_key_replace}
use nyx_modules.Security.Aes.{AesKey, aes_supported_keylength, aes_generate_key, store_random}
use nyx_modules.Security.Rsa.{RsaKey, rsa_generate_key}
use nyx_modules.Security.KeyFile.{
  Codec, Store, key, aborted, aes_strings, rsa_strings, aes_loaded, rsa_loaded, rsa_decoded,
  keystore_save, with_rsa, load_rsa, load_file, keystore_load,
}
use nyx_modules.Security.Tables.{IsTable, key_replace-IsTable}
use nyx_modules.Security.Groups.{group_round_trip}

module _ {V : Type 0} (Good : V → Type 0) where
  -- If there is a result, its table is one with distinct indices.
  LeavesTable : Option (Table V × NyxError × ℤ) → Type 0
  LeavesTable o = (t' : Table V) (e : NyxError) (i : ℤ) → o ≡ some (t', e, i) → IsTable Good t'

  kept : (t : Table V) (e : NyxError) (i : ℤ) → IsTable Good t → LeavesTable (some (t, e, i))
  unfolding LeavesTable
  kept t e i v t' e' i' h =
      subst (λ (r : Table V × NyxError × ℤ). IsTable Good r.0)
        (some-injective (t, e, i) (t', e', i') h) v

  replaced :
      (t : Table V) (k : V) (index : ℤ)
      → Good k
      → IsTable Good t
      → LeavesTable
          (Option.map (λ (r : Table V × ℤ). (r.0, ok, r.1)) (keystore_key_replace t k index))
  unfolding LeavesTable
  replaced t k index g v t' e i h = elim (Option-cases (keystore_key_replace t k index)) [
    | inl none_left ↦ absurd (none-ne-some (t', e, i) (rw none_left at h))
    | inr ((t'', i''), found) ↦
        kept t'' ok i'' (key_replace-IsTable Good t t'' k index i'' found g v) t' e i
          (rw found at h)
  ]

-- The bytes of a key are as many as its length says.
unfoldable pub IsWhole : AesKey → Type 0
IsWhole k = k.keylen ≡ pos (length k.key * 8)

module _ {Rsa : Type 0} (c : Codec Rsa) where
  -- What libc and GLib say of printing and encoding: the parsing and the decoding undo it.
  unfoldable pub IsExact : Type 0
  IsExact =
      ((i : ℤ) → c.atoi (c.decimal i) ≡ i)
      × ((b : List ℕ) → c.base64_decode (c.base64_encode b) ≡ b)

  -- OpenSSL reads the key back from what it writes of it.
  unfoldable pub IsReadable : RsaKey Rsa → Type 0
  IsReadable k = c.d2i (c.i2d k.rsa) ≡ some k.rsa

  unfoldable pub IsStore : Store Rsa → Type 0
  IsStore s = IsTable IsWhole s.aes × IsTable IsReadable s.rsa

  whole_bytes : (k : AesKey) → IsWhole k → take (pos_part k.keylen / 8) k.key ≡ k.key
  unfolding IsWhole
  whole_bytes k h =
      ap (λ (n : ℕ). take n k.key) (ap (λ (n : ℤ). pos_part n / 8) h ∙ omega arith) ∙ take_all k.key

  aes_read : IsExact → (k : AesKey) → IsWhole k → aes_loaded c (aes_strings c k) ≡ key k
  unfolding IsExact aes_loaded aes_strings IsWhole
  aes_read law k h =
      rw (law.0 k.keylen, whole_bytes k h, law.1 k.key)
        (ap (λ (b : Bool). if b then key k else aborted)
          (ap (λ (n : ℤ). n ==ℤ pos (length k.key * 8)) h ∙ ==ℤ_refl (pos (length k.key * 8))))

  rsa_read : IsExact → (k : RsaKey Rsa) → IsReadable k → rsa_loaded c (rsa_strings c k) ≡ key k
  unfolding IsExact rsa_loaded rsa_strings rsa_decoded IsReadable
  rsa_read law k h = rw (law.0 k.keylen, law.1 (c.i2d k.rsa), h) refl

  -- The stores look up the same keys.
  unfoldable pub IsSame : Store Rsa → Store Rsa → Type 0
  IsSame s s' =
      ((j : ℤ) → keystore_key_lookup s'.aes j ≡ keystore_key_lookup s.aes j)
      × ((j : ℤ) → keystore_key_lookup s'.rsa j ≡ keystore_key_lookup s.rsa j)

  abbrev pub empty : Store Rsa
  empty = record { aes = []; rsa = [] }

  save_load_lem :
      IsExact
      → (s : Store Rsa) → IsStore s
      → (s' : Store Rsa) × (keystore_load c true (some (keystore_save c s)) empty ≡ some (s', ok))
        × IsStore s'
        × IsSame s s'
  unfolding IsStore IsSame IsExact keystore_save
  save_load_lem law s v =
      let (a, aes_done, av, aes_same) =
        group_round_trip c.decimal c.atoi (aes_strings c) IsWhole (aes_loaded c) law.0
          (aes_read law) s.aes v.0 in
      let (r, rsa_done, rv, rsa_same) =
        group_round_trip c.decimal c.atoi (rsa_strings c) IsReadable (rsa_loaded c) law.0
          (rsa_read law) s.rsa v.1 in
      (
        record { aes = a; rsa = r },
        unfold keystore_load in
            unfold load_file in unfold load_rsa in unfold with_rsa in rw (aes_done, rsa_done) refl,
        (av, rv),
        (aes_same, rsa_same),
      )

  -- The key store in the life of the module: it is created empty, takes the keys that are generated, and is
  -- loaded from what has been saved of it. RAND_bytes gives as many bytes as are asked for, and OpenSSL reads the
  -- keys that it has generated.
  pub data Lives : Store Rsa → Type 0 where
    created : Lives empty
    aes_generated :
        (s : Store Rsa) (memory : Bool) (random : Option (List ℕ)) (keylen index : ℤ)
        (t' : Table AesKey) (e : NyxError) (i : ℤ)
        → Lives s
        → ((bytes : List ℕ) → random ≡ some bytes → keylen ≡ pos (length bytes * 8))
        → aes_generate_key memory random s.aes keylen index ≡ some (t', e, i)
        → Lives (record { aes = t'; rsa = s.rsa })
    rsa_generated :
        (s : Store Rsa) (memory : Bool) (generated : ℤ) (rsa : Rsa) (keylen index : ℤ)
        (t' : Table (RsaKey Rsa)) (e : NyxError) (i : ℤ)
        → Lives s
        → c.d2i (c.i2d rsa) ≡ some rsa
        → rsa_generate_key memory generated rsa s.rsa keylen index ≡ some (t', e, i)
        → Lives (record { aes = s.aes; rsa = t' })
    reloaded :
        (s s' : Store Rsa)
        → Lives s
        → keystore_load c true (some (keystore_save c s)) empty ≡ some (s', ok)
        → Lives s'

  random-IsTable :
      (random : Option (List ℕ)) (t : Table AesKey) (keylen index : ℤ)
      → ((bytes : List ℕ) → random ≡ some bytes → keylen ≡ pos (length bytes * 8))
      → IsTable IsWhole t
      → LeavesTable IsWhole (store_random t keylen index random)
  unfolding store_random IsWhole
  random-IsTable none t keylen index given v = kept IsWhole t generic index v
  random-IsTable (some bytes) t keylen index given v =
      replaced IsWhole t _ index (given bytes refl) v

  aes_generated-IsTable :
      (memory : Bool) (random : Option (List ℕ)) (t : Table AesKey) (keylen index : ℤ)
      → ((bytes : List ℕ) → random ≡ some bytes → keylen ≡ pos (length bytes * 8))
      → IsTable IsWhole t
      → LeavesTable IsWhole (aes_generate_key memory random t keylen index)
  unfolding aes_generate_key
  aes_generated-IsTable memory random t keylen index given v =
      if_elim (LeavesTable IsWhole) (not (aes_supported_keylength keylen))
        (kept IsWhole t invalid_value index v)
        (if_elim (LeavesTable IsWhole) (not memory) (kept IsWhole t out_of_memory index v)
          (random-IsTable random t keylen index given v))

  rsa_generated-IsTable :
      (memory : Bool) (generated : ℤ) (rsa : Rsa) (t : Table (RsaKey Rsa)) (keylen index : ℤ)
      → c.d2i (c.i2d rsa) ≡ some rsa
      → IsTable IsReadable t
      → LeavesTable IsReadable (rsa_generate_key memory generated rsa t keylen index)
  unfolding rsa_generate_key IsReadable
  rsa_generated-IsTable memory generated rsa t keylen index readable v =
      if_elim (LeavesTable IsReadable) (not (keylen ==ℤ pos 2048 || keylen ==ℤ pos 4096))
        (kept IsReadable t invalid_value index v)
        (if_elim (LeavesTable IsReadable) (not memory) (kept IsReadable t out_of_memory index v) (
          if_elim (LeavesTable IsReadable) (generated ==ℤ negsuc 0)
            (kept IsReadable t generic index v) (replaced IsReadable t _ index readable v)))

  Lives-IsStore : IsExact → (s : Store Rsa) → Lives s → IsStore s
  unfolding IsStore LeavesTable
  Lives-IsStore law s created = unfold IsTable in (tt, tt)
  Lives-IsStore law s (aes_generated s₀ memory random keylen index t' e i l given h) =
      let v = Lives-IsStore law s₀ l in
      (aes_generated-IsTable memory random s₀.aes keylen index given v.0 t' e i h, v.1)
  Lives-IsStore law s (rsa_generated s₀ memory generated rsa keylen index t' e i l readable h) =
      let v = Lives-IsStore law s₀ l in
      (v.0, rsa_generated-IsTable memory generated rsa s₀.rsa keylen index readable v.1 t' e i h)
  Lives-IsStore law s (reloaded s₀ s' l h) =
      let (s'', run, v, same) = save_load_lem law s₀ (Lives-IsStore law s₀ l) in
      subst (λ (r : Store Rsa × NyxError). IsStore r.0)
        (some-injective (s'', ok) (s, ok) (sym run ∙ h)) v

  -- Whatever the module does with its key store from an empty one on, with printing, encoding and OpenSSL as
  -- documented: the file that it saves is loaded without an error into an empty key store, and the store that
  -- this gives looks up the same keys of both kinds at every index.
  pub Lives-round_trip :
      IsExact
      → (s : Store Rsa) → Lives s
      → (s' : Store Rsa) × (keystore_load c true (some (keystore_save c s)) empty ≡ some (s', ok))
        × IsSame s s'
  Lives-round_trip law s l =
      let (s', run, v, same) = save_load_lem law s (Lives-IsStore law s l) in (s', run, same)
