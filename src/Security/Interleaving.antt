-- ===== src/Security/Interleaving.antt =====
-- security.c: an AES key over any sequence of calls on keys and on the hash.
use nyx_modules.Base.{
  Text, ℕ, ℤ, Bool, true, false, List, [], ◌∷◌, Option, none, some, ◌≡◌, refl, sym, ap, ◌∙◌,
  if_elim, not, ◌||◌, pos, negsuc, ◌==ℤ◌, ==ℤ→≡, ◌⊎◌, inl, inr, Bool-cases, All,
}
use mathlib.Core.Bool.{false≢true}
use mathlib.Core.Option
use mathlib.Core.Option.{none-ne-some, some-injective}
use nyx_modules.Nyx.{NyxError, generic, invalid_value, out_of_memory}
use nyx_modules.Security.Keystore.{Table, keystore_key_lookup, keystore_key_replace}
use nyx_modules.Security.FreeIndex.{Holds, key_replace_lem}
use nyx_modules.Security.Aes.{
  AesKey, AlgoData, BlockMode, Evp, Crypt, aes_block_size, aes_generate_key, store_random,
  aes_supported_keylength, crypt_with, aes_crypt, algo_of,
}
use nyx_modules.Security.Rsa.{RsaKey, rsa_generate_key}
use nyx_modules.Security.Sha.{Digest}
use nyx_modules.Security.KeyFile.{Store}
use nyx_modules.Security.Calls.{
  KeyCall, HashCall, SecurityCall, SecurityState, on_keys, on_hash, create_aes, create_rsa,
  crypt_aes, crypt_rsa, security_create_aes_key, security_create_rsa_key, security_aes_crypt,
  key_step, hash_step, security_step, security_run,
}

-- A result that satisfies a predicate.
abbrev pub Returns : {A : Type 0} → (A → Type 0) → Option A → Type 0
Returns {A} P o = (r : A) × (o ≡ some r) × P r

map-Returns :
    {A B : Type 0} (g : A → B) (P : B → Type 0) (o : Option A)
    → Returns (λ (a : A). P (g a)) o
    → Returns P (Option.map g o)
map-Returns g P o (r, e, p) = (g r, rw e refl, p)

-- The key at an index.
abbrev pub Has : {V : Type 0} → ℤ → V → Table V → Type 0
Has j k t = keystore_key_lookup t j ≡ some k

-- Wherever a new key is put, unless it is at an index that is asked for, it replaces no key.
replace-Has :
    {V : Type 0} (t : Table V) (key k : V) (index j : ℤ)
    → index ==ℤ j ≡ false
    → Has j k t
    → Returns (λ (r : Table V × ℤ). Has j k r.0) (keystore_key_replace t key index)
unfolding Holds
replace-Has t key k index j other has =
    let (t', i, found, holds, how) = key_replace_lem t key index in
    let differs : i ==ℤ j ≡ false = elim how [
      | inl (asked, same) ↦ ap (λ (n : ℤ). n ==ℤ j) same ∙ other
      | inr (n, asked, same, free, least) ↦ elim (Bool-cases (i ==ℤ j)) [
        | inr e ↦ e
        | inl e ↦ absurd (
            none-ne-some k
              (sym free ∙ ap (λ (n : ℤ). keystore_key_lookup t n) (sym same ∙ ==ℤ→≡ i j e) ∙ has))
      ]
    ] in
    ((t', i), found, holds.1 j differs ∙ has)

random-Has :
    (random : Option (List ℕ)) (t : Table AesKey) (k : AesKey) (keylen index j : ℤ)
    → index ==ℤ j ≡ false
    → Has j k t
    → Returns
        (λ (r : Table AesKey × NyxError × ℤ). Has j k r.0)
        (store_random t keylen index random)
unfolding store_random
random-Has none t k keylen index j other has = ((t, generic, index), refl, has)
random-Has (some bytes) t k keylen index j other has =
    map-Returns _ _ _ (replace-Has t _ k index j other has)

aes-Has :
    (memory : Bool) (random : Option (List ℕ)) (t : Table AesKey) (k : AesKey) (keylen index j : ℤ)
    → index ==ℤ j ≡ false
    → Has j k t
    → Returns
        (λ (r : Table AesKey × NyxError × ℤ). Has j k r.0)
        (aes_generate_key memory random t keylen index)
unfolding aes_generate_key
aes-Has memory random t k keylen index j other has =
    let P = Returns (λ (r : Table AesKey × NyxError × ℤ). Has j k r.0) in
    if_elim P (not (aes_supported_keylength keylen)) ((t, invalid_value, index), refl, has)
      (if_elim P (not memory) ((t, out_of_memory, index), refl, has)
        (random-Has random t k keylen index j other has))

rsa-Returns :
    {Rsa : Type 0} (memory : Bool) (generated : ℤ) (rsa : Rsa) (t : Table (RsaKey Rsa))
    (keylen index : ℤ)
    → Returns
        (λ (r : Table (RsaKey Rsa) × NyxError × ℤ). Unit {0})
        (rsa_generate_key memory generated rsa t keylen index)
unfolding rsa_generate_key
rsa-Returns memory generated rsa t keylen index =
    let P = Returns (λ (r : Table (RsaKey _) × NyxError × ℤ). Unit {0}) in
    if_elim P (not (keylen ==ℤ pos 2048 || keylen ==ℤ pos 4096))
      ((t, invalid_value, index), refl, tt)
      (if_elim P (not memory) ((t, out_of_memory, index), refl, tt)
        (if_elim P (generated ==ℤ negsuc 0) ((t, generic, index), refl, tt)
          (let (t', i, found, holds, how) =
              key_replace_lem t (record { keylen = keylen; rsa = rsa }) index in
            map-Returns _ _ _ ((t', i), found, tt))))

-- An encryption, or a decryption with an initialisation vector of the size of a block, does not abort.
crypt-Returns :
    (evp : Evp) (o : Option AesKey) (algo : Option AlgoData) (random : Option (List ℕ))
    (encrypt : Bool) (src : List ℕ) (destlen ivlen : ℤ)
    → (encrypt ≡ true) ⊎ (ivlen ==ℤ pos aes_block_size ≡ true)
    → Returns (λ (r : Crypt). Unit {0}) (crypt_with evp o algo random encrypt src destlen ivlen)
unfolding crypt_with
crypt-Returns evp none algo random encrypt src destlen ivlen h = (_, refl, tt)
crypt-Returns evp (some k) none random encrypt src destlen ivlen h = (_, refl, tt)
crypt-Returns evp (some k) (some a) random true src destlen ivlen h = (_, refl, tt)
crypt-Returns evp (some k) (some a) random false src destlen ivlen (inl h) = absurd (false≢true h)
crypt-Returns evp (some k) (some a) random false src destlen ivlen (inr h) = rw h (_, refl, tt)

-- A call that does not ask for an index of an AES key, and does not fail the assertion of `aes_crypt`.
unfoldable pub Spares : {Rsa : Type 0} → ℤ → SecurityCall Rsa → Type 0
Spares j (on_hash h) = Unit
Spares j (on_keys (create_aes memory random keylen index)) = index ==ℤ j ≡ false
Spares j (on_keys (create_rsa memory generated rsa keylen index)) = Unit
Spares j (on_keys (crypt_aes random index encrypt mode src destlen ivlen)) =
    (encrypt ≡ true) ⊎ (ivlen ==ℤ pos aes_block_size ≡ true)
Spares j (on_keys (crypt_rsa index encrypt src destlen)) = Unit

module _ {Rsa : Type 0} (evp : Evp) (j : ℤ) (k : AesKey) where
  key_step-Has :
      (c : KeyCall Rsa) (s : Store Rsa)
      → Spares j (on_keys c)
      → Has j k s.aes
      → Returns (λ (s' : Store Rsa). Has j k s'.aes) (key_step evp c s)
  unfolding key_step security_create_aes_key security_create_rsa_key security_aes_crypt aes_crypt
      Spares
  key_step-Has (create_aes memory random keylen index) s fine has =
      map-Returns _ _ _ (map-Returns _ _ _ (aes-Has memory random s.aes k keylen index j fine has))
  key_step-Has (create_rsa memory generated rsa keylen index) s fine has =
      let (r, e, u) = rsa-Returns memory generated rsa s.rsa keylen index in
      map-Returns _ _ _ (map-Returns _ _ _ (r, e, has))
  key_step-Has (crypt_aes random index encrypt mode src destlen ivlen) s fine has =
      let key = keystore_key_lookup s.aes index in
      let (r, e, u) =
        crypt-Returns evp key (algo_of key mode) random encrypt src destlen ivlen fine in
      map-Returns _ _ _ (r, e, has)
  key_step-Has (crypt_rsa index encrypt src destlen) s fine has = (s, refl, has)

module _ {Rsa Ctx : Type 0} (evp : Evp) (md : Digest Ctx) (base64_encode : List ℕ → Text) where
  run-keys :
      (c : KeyCall Rsa) (cs : List (SecurityCall Rsa)) (s : SecurityState Rsa Ctx) (t : Store Rsa)
      → key_step evp c s.keystore ≡ some t
      → security_run evp md base64_encode (on_keys c ∷ cs) s
        ≡ security_run evp md base64_encode cs (record s { keystore = t })
  unfolding security_run security_step
  run-keys c cs s t h = rw (security_run, h) refl

  run-hash :
      (h : HashCall) (cs : List (SecurityCall Rsa)) (s : SecurityState Rsa Ctx)
      → security_run evp md base64_encode (on_hash h ∷ cs) s
        ≡ security_run evp md base64_encode cs
            (record s { running = hash_step md base64_encode h s.running })
  unfolding security_run security_step
  run-hash h cs s = refl

  run-Has :
      (j : ℤ) (k : AesKey) (cs : List (SecurityCall Rsa)) (s : SecurityState Rsa Ctx)
      → All (Spares j) cs
      → Has j k s.keystore.aes
      → Returns
          (λ (s' : SecurityState Rsa Ctx). Has j k s'.keystore.aes)
          (security_run evp md base64_encode cs s)
  unfolding security_run
  run-Has j k [] s fine has = (s, refl, has)
  run-Has j k (on_hash h ∷ cs) s fine has =
      let (s', e, kept) =
        run-Has j k cs (record s { running = hash_step md base64_encode h s.running }) fine.1 has in
      (s', run-hash h cs s ∙ e, kept)
  run-Has j k (on_keys c ∷ cs) s fine has =
      let (t, e, kept) = key_step-Has evp j k c s.keystore fine.0 has in
      let (s', e', kept') = run-Has j k cs (record s { keystore = t }) fine.1 kept in
      (s', run-keys c cs s t e ∙ e', kept')

  -- A key of the AES table, over any sequence of calls on keys and on the hash of which none asks for the
  -- index of that key and no decryption with AES has an initialisation vector of another size than a block: all
  -- calls come back, the key is still at its index, and an encryption or decryption with it gives after them
  -- what it would have given before.
  pub keys_stay :
      (j : ℤ) (k : AesKey) (cs : List (SecurityCall Rsa)) (s : SecurityState Rsa Ctx)
      → All (Spares j) cs
      → keystore_key_lookup s.keystore.aes j ≡ some k
      → (random : Option (List ℕ)) (mode : BlockMode) (encrypt : Bool) (src : List ℕ)
        (destlen ivlen : ℤ)
      → (s' : SecurityState Rsa Ctx) × (security_run evp md base64_encode cs s ≡ some s')
        × (keystore_key_lookup s'.keystore.aes j ≡ some k)
        × (security_aes_crypt evp random s'.keystore j mode encrypt src destlen ivlen
            ≡ security_aes_crypt evp random s.keystore j mode encrypt src destlen ivlen)
  unfolding security_aes_crypt aes_crypt
  keys_stay j k cs s fine has random mode encrypt src destlen ivlen =
      let (s', e, kept) = run-Has j k cs s fine has in
      (
        s',
        e,
        kept,
        ap
            (λ (o : Option AesKey).
              crypt_with evp o (algo_of o mode) random encrypt src destlen ivlen)
            (kept ∙ sym has),
      )
