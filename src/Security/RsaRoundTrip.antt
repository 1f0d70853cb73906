-- ===== src/Security/RsaRoundTrip.antt =====
-- rsa.c: what has been encrypted is decrypted, and a key whose generation has failed is stored.
use nyx_modules.Base.{
  ℕ, ℤ, pos, true, false, List, Option, none, some, length, Bool-cases, ◌≡◌, refl, ap, inl, inr,
}
use mathlib.Core.Bool.{false≢true}
use nyx_modules.Nyx.{ok, is_ok}
use nyx_modules.Security.Keystore.{Table, keystore_key_lookup}
use nyx_modules.Security.FreeIndex.{key_replace_lem, Holds}
use nyx_modules.Security.Rsa.{
  RsaKey, RsaLibrary, rsa_result, is_too_big, rsa_crypt_with, rsa_crypt, rsa_generate_key,
}

module _ {Rsa : Type 0} (lib : RsaLibrary Rsa) where
  -- What OpenSSL says of a key pair: what the public key has encrypted, the private key decrypts.
  unfoldable pub IsPair : Type 0
  IsPair =
      (k : Rsa) (src bytes : List ℕ)
      → lib.public_encrypt k src ≡ some bytes
      → lib.private_decrypt k bytes ≡ some src

  pair_result :
      IsPair
      → (k : Rsa) (src : List ℕ) (o : Option (List ℕ)) → lib.public_encrypt k src ≡ o
      → (rsa_result lib o).result ≡ ok
      → rsa_result lib (lib.private_decrypt k (rsa_result lib o).dest)
        ≡ record { result = ok; destlen = pos (length src); dest = src }
  unfolding rsa_result IsPair
  pair_result law k src none e good = absurd (false≢true (ap is_ok good))
  pair_result law k src (some bytes) e good = rw (law k src bytes e) refl

  crypt_with-pair :
      IsPair
      → (o : Option (RsaKey Rsa)) (src : List ℕ) (n m : ℤ)
      → (rsa_crypt_with lib o true src n).result ≡ ok
      → rsa_crypt_with lib o false (rsa_crypt_with lib o true src n).dest m
        ≡ record { result = ok; destlen = pos (length src); dest = src }
  unfolding rsa_crypt_with
  crypt_with-pair law none src n m good = absurd (false≢true (ap is_ok good))
  crypt_with-pair law (some k) src n m good = elim (Bool-cases (is_too_big lib k.rsa src)) [
    | inl e ↦ absurd (false≢true (ap is_ok (rw e at good)))
    | inr e ↦ rw e (pair_result law k.rsa src _ refl (rw e at good))
  ]

  -- For key pairs that fit together: when rsa_crypt encrypts a text with a key of the store successfully,
  -- it decrypts what it has written, with the same index, to the text and its length.
  pub rsa_decrypt_encrypted :
      IsPair
      → (t : Table (RsaKey Rsa)) (index : ℤ) (src : List ℕ) (n m : ℤ)
      → (rsa_crypt lib t index true src n).result ≡ ok
      → rsa_crypt lib t index false (rsa_crypt lib t index true src n).dest m
        ≡ record { result = ok; destlen = pos (length src); dest = src }
  unfolding rsa_crypt
  rsa_decrypt_encrypted law t index src n m good =
      crypt_with-pair law (keystore_key_lookup t index) src n m good

-- With memory and a length of 2048 bits, a generation that OpenSSL ends with 0, which is its error, still
-- succeeds: the key that was not generated is stored at the index that is returned.
pub failed_key_is_stored :
    {Rsa : Type 0} (rsa : Rsa) (t : Table (RsaKey Rsa)) (index : ℤ)
    → (t' : Table (RsaKey Rsa)) × (i : ℤ) × (rsa_generate_key true (pos 0) rsa t (pos 2048) index
        ≡ some (t', ok, i))
      × (keystore_key_lookup t' i ≡ some (record { keylen = pos 2048; rsa = rsa }))
unfolding rsa_generate_key Holds
failed_key_is_stored rsa t index =
    let (t', i, replaced, (stored, kept), how) =
      key_replace_lem t (record { keylen = pos 2048; rsa = rsa }) index in
    (t', i, rw replaced refl, stored)
