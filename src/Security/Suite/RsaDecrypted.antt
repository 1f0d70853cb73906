-- ===== src/Security/Suite/RsaDecrypted.antt =====
-- test_security.c: the tests that encrypt and decrypt with RSA pass.
use nyx_modules.Base.{
  ℕ, ◌+◌, ◌≤◌, ℤ, pos, negsuc, ltb_ℤ, ◌==ℤ◌, ◌==◌, true, ◌||◌, List, length, some, ◌≡◌, refl, arith,
  ◌-ℤ◌, ◌%◌,
}
use nyx_modules.Nyx.{ok}
use nyx_modules.Security.Keystore.{Table, keystore_key_lookup}
use nyx_modules.Security.FreeIndex.{Holds, key_replace_lem}
use nyx_modules.Security.Rsa.{
  RsaKey, RsaLibrary, is_too_big, rsa_result, rsa_crypt_with, rsa_crypt, rsa_generate_key,
}
use nyx_modules.Security.RsaRoundTrip.{IsPair, rsa_decrypt_encrypted}
use nyx_modules.Security.KeyFile.{Store}
use nyx_modules.Security.Calls.{security_create_rsa_key, security_rsa_crypt}
use nyx_modules.Security.Suite.{
  c_string, foobar_z, rsa_decrypted, rsa_encrypted, rsa_created, test_crypt_rsa,
}

module _ {Rsa : Type 0} (lib : RsaLibrary Rsa) where
  -- A key can encrypt what is 42 bytes shorter than itself, to something that is not empty.
  unfoldable pub EncryptsShort : Type 0
  EncryptsShort =
      (k : Rsa) (src : List ℕ)
      → length src + 42 ≤ lib.size k
      → (bytes : List ℕ) × (lib.public_encrypt k src ≡ some bytes) × (1 ≤ length bytes)

  small : (n m : ℕ) → n + 42 ≤ m → ltb_ℤ (pos n) (pos m -ℤ pos 41) ≡ true
  unfolding ◌-ℤ◌
  small n m h = ground arith

  rsa_encrypts :
      EncryptsShort
      → (t : Table (RsaKey Rsa)) (index : ℤ) (k : RsaKey Rsa) (src : List ℕ) (n : ℤ)
      → keystore_key_lookup t index ≡ some k
      → length src + 42 ≤ lib.size k.rsa
      → ((rsa_crypt lib t index true src n).result ≡ ok)
        × (ltb_ℤ (pos 0) (rsa_crypt lib t index true src n).destlen ≡ true)
  unfolding EncryptsShort rsa_crypt rsa_crypt_with is_too_big rsa_result
  rsa_encrypts enc t index k src n ek short =
      let (bytes, e, long) = enc k.rsa src short in
      let fits = small (length src) (lib.size k.rsa) short in
      (rw (ek, fits, e) refl, rw (ek, fits, e) (ground arith))

  rsa_created-passes :
      IsPair lib
      → EncryptsShort
      → (s : Store Rsa) (index : ℤ) (k : RsaKey Rsa) → keystore_key_lookup s.rsa index ≡ some k
      → 49 ≤ lib.size k.rsa
      → rsa_created lib (some (s, ok, index)) ≡ true
  unfolding rsa_created rsa_encrypted rsa_decrypted security_rsa_crypt c_string
  rsa_created-passes pair enc s index k ek large =
      let (result, long) =
        rsa_encrypts enc s.rsa index k foobar_z (negsuc 0) ek (omega (arith, large)) in
      let back = rsa_decrypt_encrypted lib pair s.rsa index foobar_z (negsuc 0) (negsuc 0) result in
      rw (result, long, back) refl

  pub crypt_rsa-passes :
      IsPair lib
      → EncryptsShort
      → (rsa : Rsa) (keylen : ℕ) (s : Store Rsa) → (keylen % 8 == 0) ≡ true
      → (pos keylen ==ℤ pos 2048 || pos keylen ==ℤ pos 4096) ≡ true
      → 49 ≤ lib.size rsa
      → test_crypt_rsa lib rsa keylen s ≡ true
  unfolding test_crypt_rsa security_create_rsa_key rsa_generate_key Holds
  crypt_rsa-passes pair enc rsa keylen s whole supported large =
      let k : RsaKey Rsa = record { keylen = pos keylen; rsa = rsa } in
      let (t, i, run, (stored, kept), how) = key_replace_lem s.rsa k (negsuc 0) in
      rw (whole, supported, run)
        (rsa_created-passes pair enc (record s { rsa = t }) i k stored large)
