-- ===== src/Security/Suite/AesDecrypted.antt =====
-- test_security.c: the test that encrypts and decrypts with AES passes.
use nyx_modules.Base.{
  ℕ, ◌≤◌, ℤ, pos, negsuc, ltb_ℤ, true, false, List, ◌++◌, length, length-append, none, some, ◌≡◌,
  refl, sym, inl, inr, arith, ◌+ℤ◌,
}
use mathlib.Core.Bool.{false≢true}
use nyx_modules.Nyx.{ok}
use nyx_modules.Security.Keystore.{Table, keystore_key_lookup}
use nyx_modules.Security.Aes.{
  AesKey, cbc, Cipher, AlgoData, Evp, Crypt, aes_block_size, supported_in, aes_algo_data_lookup,
  aes_crypt, crypt_with, algo_of,
}
use nyx_modules.Security.Generate.{generated_key}
use nyx_modules.Security.RoundTrip.{IsInverse, encrypt_parts, decrypt_encrypted}
use nyx_modules.Security.KeyFile.{Store}
use nyx_modules.Security.Calls.{security_create_aes_key, security_aes_crypt}
use nyx_modules.Security.Suite.{
  c_string, foobar_z, aes_decrypted, aes_encrypted, aes_created, test_crypt_aes,
}

module _ (evp : Evp) where
  unfoldable pub Encrypts : Type 0
  Encrypts =
      (c : Cipher) (key iv src : List ℕ)
      → (u : List ℕ) × (f : List ℕ) × (evp.update c key iv true src (pos (length src)) ≡ some u)
        × (evp.final c key iv true src (pos (length src)) ≡ some f)

  -- With a key of the table, a text is encrypted to something that is not empty.
  aes_encrypts :
      Encrypts
      → (t : Table AesKey) (index : ℤ) (k : AesKey) (a : AlgoData) (iv src : List ℕ) (n l : ℤ)
      → keystore_key_lookup t index ≡ some k
      → aes_algo_data_lookup k.keylen cbc ≡ some a
      → length iv ≡ aes_block_size
      → (r : Crypt) × (aes_crypt evp (some iv) t index true cbc src n l ≡ some r)
        × (r.result ≡ ok)
        × (16 ≤ length r.dest)
  unfolding Encrypts aes_crypt crypt_with algo_of
  aes_encrypts enc t index k a iv src n l ek ea size =
      let (u, f, eu, ef) = enc a.cipher k.key iv src in
      let e = encrypt_parts evp a.cipher k.key iv src u f n eu ef in
      let r : Crypt = record {
        result = ok;
        dest = iv ++ (u ++ f);
        destlen = pos (length u) +ℤ pos (length f) +ℤ pos aes_block_size;
        ivlen = pos aes_block_size;
      } in
      (r, rw (ek, ea, e) refl, refl, omega (arith, length-append iv (u ++ f), size))

  positive : (n : ℕ) → 1 ≤ n → ltb_ℤ (pos 0) (pos n) ≡ true
  positive n h = ground arith

  encrypted-passes :
      {Rsa : Type 0}
      → (s : Store Rsa) (index : ℤ) (r : Crypt) → r.result ≡ ok
      → 16 ≤ length r.dest
      → r.destlen ≡ pos (length r.dest)
      → aes_crypt evp none s.aes index false cbc r.dest (negsuc 0) r.ivlen
        ≡ some
            (record { result = ok; dest = foobar_z; destlen = pos 7; ivlen = pos aes_block_size })
      → aes_encrypted evp index s (some r) ≡ true
  unfolding aes_encrypted aes_decrypted security_aes_crypt c_string
  encrypted-passes s index r result long destlen back =
      rw (result, destlen, positive (length r.dest) (omega (arith, long)), back) refl

  pub crypt_aes-passes :
      {Rsa : Type 0}
      → IsInverse evp
      → Encrypts
      → (key iv : List ℕ) (s : Store Rsa) → length iv ≡ aes_block_size
      → test_crypt_aes evp key iv s ≡ true
  unfolding test_crypt_aes aes_created security_create_aes_key security_aes_crypt supported_in
  crypt_aes-passes law enc key iv s size = elim (generated_key key s.aes (pos 128) (negsuc 0)) [
    | inr (bad, e) ↦ absurd (false≢true (sym bad))
    | inl (good, t, i, run, stored, kept, (a, ea)) ↦
        let (r, er, result, long) =
          aes_encrypts enc t i (record { keylen = pos 128; key = key }) a iv foobar_z (negsuc 0)
            (pos 0) stored ea size in
        let (destlen, back) =
          decrypt_encrypted evp law t i cbc iv foobar_z (negsuc 0) (pos 0) (negsuc 0) none r size er
            result in
        rw (run, er) (encrypted-passes (record s { aes = t }) i r result long destlen back)
  ]
