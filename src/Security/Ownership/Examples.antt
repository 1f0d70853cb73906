-- ===== src/Security/Ownership/Examples.antt =====
-- Keys that are put into a table one over the other, and the theorem at them.
use nyx_modules.Base.{ℕ, ℤ, pos, negsuc, List, [], ◌∷◌, ◌++◌, some, ◌≡◌, refl}
use mathlib.Core.List.{Perm}
use nyx_modules.Security.Aes.{AesKey}
use nyx_modules.Security.Rsa.{RsaKey}
use nyx_modules.Security.KeyFile.{Store}
use nyx_modules.Security.Keystore.{
  keystore_key_replace, free_index, keystore_key_lookup, remove, replace,
}
use nyx_modules.Security.Ownership.{
  aes_memory, rsa_object, rsa_memory, aes_destroy_key, rsa_destroy_key, removed, put_keys, aes_made,
  rsa_made, keystore_destroy, ownership_lem,
}

abbrev aes : ℕ → AesKey
aes b = record { keylen = pos 128; key = b ∷ [] }

abbrev rsa : ℕ → RsaKey ℕ
rsa n = record { keylen = pos 1024; rsa = n }

-- Two AES keys at the next free indices and one in place of the first, and one RSA key.
abbrev aes_keys : List (AesKey × ℤ)
aes_keys = (aes 7, negsuc 0) ∷ (aes 8, negsuc 0) ∷ (aes 9, pos 0) ∷ []

abbrev rsa_keys : List (RsaKey ℕ × ℤ)
rsa_keys = (rsa 5, negsuc 0) ∷ []

abbrev store : Store ℕ
store = record { aes = (pos 0, aes 9) ∷ (pos 1, aes 8) ∷ []; rsa = (pos 0, rsa 5) ∷ [] }

put_aes :
    put_keys (aes_destroy_key {Rsa = ℕ}) aes_keys [] [] ≡ some (store.aes, aes_memory (aes 7) ∷ [])
unfolding put_keys keystore_key_replace free_index keystore_key_lookup remove replace removed
    aes_destroy_key
put_aes = refl

put_rsa : put_keys rsa_destroy_key rsa_keys [] [] ≡ some (store.rsa, [])
unfolding put_keys keystore_key_replace free_index keystore_key_lookup remove replace removed
    rsa_destroy_key
put_rsa = refl

ownership_lem_example :
    Perm
      (aes_made aes_keys ++ rsa_made rsa_keys)
      (keystore_destroy store ++ ((aes_memory (aes 7) ∷ []) ++ []))
ownership_lem_example =
    ownership_lem aes_keys rsa_keys store (aes_memory (aes 7) ∷ []) [] put_aes put_rsa

destroy_store :
    keystore_destroy store
    ≡ aes_memory (aes 9) ∷ aes_memory (aes 8) ∷ rsa_object 5 ∷ rsa_memory (rsa 5) ∷ []
unfolding keystore_destroy
destroy_store = refl
