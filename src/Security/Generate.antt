-- ===== src/Security/Generate.antt =====
-- aes.c: a key that has been generated.
use nyx_modules.Base.{
  ℕ, ℤ, pos, ◌==ℤ◌, true, false, List, some, ◌≡◌, refl, sym, ◌∙◌, inl, inr, ◌⊎◌, Bool-cases,
}
use mathlib.Core.Bool.{false≢true}
use nyx_modules.Nyx.{ok, invalid_value}
use nyx_modules.Security.Keystore.{Table, keystore_key_lookup}
use nyx_modules.Security.FreeIndex.{key_replace_lem, Holds}
use nyx_modules.Security.Aes.{
  AesKey, cbc, AlgoData, aes_128_cbc, aes_256_cbc, aes_supported_keylength, supported_in, lookup_in,
  store_random, aes_generate_key, aes_algo_data_lookup,
}

has_algo :
    (n : ℤ)
    → aes_supported_keylength n ≡ true
    → (a : AlgoData) × (aes_algo_data_lookup n cbc ≡ some a)
unfolding supported_in lookup_in
has_algo n h = elim (Bool-cases (pos 128 ==ℤ n)) [
  | inl e ↦ (record { keylen = pos 128; cipher = aes_128_cbc }, rw e refl)
  | inr e ↦ elim (Bool-cases (pos 256 ==ℤ n)) [
    | inl e' ↦ (record { keylen = pos 256; cipher = aes_256_cbc }, rw (e, e') refl)
    | inr e' ↦ absurd (false≢true (sym (rw (e, e') refl) ∙ h))
  ]
]

-- With memory and random bytes, a key of a supported length is generated: it is stored at the index that is
-- returned, has these bytes, and an encryption in CBC mode finds an algorithm for it; every other index
-- keeps what it had. Another length is refused, and nothing is stored.
pub generated_key :
    (bytes : List ℕ) (t : Table AesKey) (keylen index : ℤ)
    → ((aes_supported_keylength keylen ≡ true)
        × (t' : Table AesKey) × (i : ℤ) × (aes_generate_key true (some bytes) t keylen index
            ≡ some (t', ok, i))
        × (keystore_key_lookup t' i ≡ some (record { keylen = keylen; key = bytes }))
        × ((j : ℤ) → i ==ℤ j ≡ false → keystore_key_lookup t' j ≡ keystore_key_lookup t j)
        × ((a : AlgoData) × (aes_algo_data_lookup keylen cbc ≡ some a)))
      ⊎ ((aes_supported_keylength keylen ≡ false)
          × (aes_generate_key true (some bytes) t keylen index ≡ some (t, invalid_value, index)))
unfolding aes_generate_key store_random Holds
generated_key bytes t keylen index = elim (Bool-cases (aes_supported_keylength keylen)) [
  | inr e ↦ inr (e, rw e refl)
  | inl e ↦
      let (t', i, replaced, (stored, kept), how) =
        key_replace_lem t (record { keylen = keylen; key = bytes }) index in
      inl (e, t', i, rw (e, replaced) refl, stored, kept, has_algo keylen e)
]
