-- ===== src/Security/Sessions.antt =====
-- security.c: what has been encrypted before the module was closed, after it has been opened again.
use nyx_modules.Base.{ℕ, ℤ, pos, Bool, true, false, List, length, Option, some, ◌≡◌, ap, ◌∙◌}
use nyx_modules.Nyx.{NyxError, ok}
use nyx_modules.Security.Keystore.{Table, keystore_key_lookup}
use nyx_modules.Security.Aes.{
  AesKey, BlockMode, Evp, Crypt, aes_crypt, aes_block_size, crypt_with, algo_of,
}
use nyx_modules.Security.RoundTrip.{IsInverse, decrypt_encrypted}
use nyx_modules.Security.Rsa.{RsaKey, RsaLibrary, rsa_crypt, rsa_crypt_with}
use nyx_modules.Security.RsaRoundTrip.{IsPair, rsa_decrypt_encrypted}
use nyx_modules.Security.KeyFile.{Codec, Store, KeyFile}
use nyx_modules.Security.SaveLoad.{IsExact, IsSame, Lives}
use nyx_modules.Security.Device.{SecurityMethod, nyx_module_open, nyx_module_close}
use nyx_modules.Security.Restart.{restart}

-- A cipher looks at the key of its index alone.
aes_crypt_of_lookup :
    (evp : Evp) (t t' : Table AesKey) (index : ℤ) (random : Option (List ℕ)) (encrypt : Bool)
    (mode : BlockMode) (src : List ℕ) (n l : ℤ)
    → keystore_key_lookup t' index ≡ keystore_key_lookup t index
    → aes_crypt evp random t' index encrypt mode src n l
      ≡ aes_crypt evp random t index encrypt mode src n l
unfolding aes_crypt
aes_crypt_of_lookup evp t t' index random encrypt mode src n l h =
    ap (λ (k : Option AesKey). crypt_with evp k (algo_of k mode) random encrypt src n l) h

rsa_crypt_of_lookup :
    {Rsa : Type 0} (lib : RsaLibrary Rsa) (t t' : Table (RsaKey Rsa)) (index : ℤ) (encrypt : Bool)
    (src : List ℕ) (n : ℤ)
    → keystore_key_lookup t' index ≡ keystore_key_lookup t index
    → rsa_crypt lib t' index encrypt src n ≡ rsa_crypt lib t index encrypt src n
unfolding rsa_crypt
rsa_crypt_of_lookup {Rsa} lib t t' index encrypt src n h =
    ap (λ (k : Option (RsaKey Rsa)). rsa_crypt_with lib k encrypt src n) h

module _ {Rsa : Type 0} (c : Codec Rsa) (evp : Evp) (lib : RsaLibrary Rsa) where
  -- What a store has encrypted, another one decrypts with the same index.
  unfoldable pub DecryptsAes : Store Rsa → Store Rsa → Type 0
  DecryptsAes s s' =
      (index : ℤ) (mode : BlockMode) (iv src : List ℕ) (n l m : ℤ) (random : Option (List ℕ))
      (r : Crypt)
      → length iv ≡ aes_block_size
      → aes_crypt evp (some iv) s.aes index true mode src n l ≡ some r
      → r.result ≡ ok
      → aes_crypt evp random s'.aes index false mode r.dest m r.ivlen
        ≡ some (record {
          result = ok;
          dest = src;
          destlen = pos (length src);
          ivlen = pos aes_block_size;
        })

  unfoldable pub DecryptsRsa : Store Rsa → Store Rsa → Type 0
  DecryptsRsa s s' =
      (index : ℤ) (src : List ℕ) (n m : ℤ)
      → (rsa_crypt lib s.rsa index true src n).result ≡ ok
      → rsa_crypt lib s'.rsa index false (rsa_crypt lib s.rsa index true src n).dest m
        ≡ record { result = ok; destlen = pos (length src); dest = src }

  -- With printing, encoding and OpenSSL as documented, and a key store that the module has made in any way: when
  -- the module is closed, with its file written, and is opened again with no device, with memory and with every
  -- method registered, the opening succeeds with a device that is not freed, the key store looks up the keys of both
  -- kinds that it had, and whatever AES or RSA has encrypted successfully before, the module decrypts with the same
  -- index to the text and its length.
  pub restart_decrypts :
      IsExact c
      → IsInverse evp
      → IsPair lib
      → (s : Store Rsa) → Lives c s
      → (exists : Bool) (file : Option KeyFile) (memory : ℕ) (register : SecurityMethod → NyxError)
      → ¬ (memory ≡ 0)
      → ((m : SecurityMethod) → register m ≡ ok)
      → (s' : Store Rsa) × (nyx_module_open c memory register true true
            (nyx_module_close c true exists file s).0
            (nyx_module_close c true exists file s).1
            (some 0)
          ≡ some (record { result = ok; device = memory; freed = false; keystore = some s' }))
        × IsSame c s s'
        × DecryptsAes s s'
        × DecryptsRsa s s'
  unfolding IsSame DecryptsAes DecryptsRsa
  restart_decrypts exact inverse pair s lives exists file memory register h all =
      let (s', run, same) = restart c exact s lives exists file memory register h all in
      (
        s',
        run,
        same,
        (λ index mode iv src n l m random r size crypted good.
            aes_crypt_of_lookup evp s.aes s'.aes index random false mode r.dest m r.ivlen
              (same.0 index)
            ∙ (decrypt_encrypted evp inverse s.aes index mode iv src n l m random r size crypted
                good).1),
        λ index src n m good.
            rsa_crypt_of_lookup lib s.rsa s'.rsa index false
              (rsa_crypt lib s.rsa index true src n).dest m (same.1 index)
            ∙ rsa_decrypt_encrypted lib pair s.rsa index src n m good,
      )
