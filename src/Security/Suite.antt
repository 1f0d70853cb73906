-- ===== src/Security/Suite.antt =====
-- generic/security/test/test_security.c: the test program. The client library nyx-lib hands each call to the method of
-- the module; the key store is what the opening in `fixture_setup` has left. A test is true if none of its assertions
-- fails.
pub mod Creating
mod KeysCreated
mod AesDecrypted
mod RsaDecrypted
pub mod Passing
mod Examples
use nyx_modules.Base.{
  Text, text_eq, ℕ, ◌/◌, ◌%◌, ◌==◌, ℤ, pos, negsuc, ltb_ℤ, ◌==ℤ◌, Bool, true, false, not, ◌&&◌,
  if◌then◌else◌, List, [], ◌∷◌, length, Option, none, some,
}
use Prim.Native.String.{String}
use nyx_modules.Nyx.{NyxError, is_ok}
use nyx_modules.Security.Aes.{BlockMode, cbc, Evp, Crypt}
use nyx_modules.Security.Rsa.{RsaLibrary, RsaCrypt}
use nyx_modules.Security.Sha.{Digest, sha_init, sha_update}
use nyx_modules.Security.KeyFile.{Store}
use nyx_modules.Security.Device.{security_finalize_hash}
use nyx_modules.Security.Calls.{
  security_create_aes_key, security_create_rsa_key, security_aes_crypt, security_rsa_crypt,
}

-- A C string: the bytes before the first NUL.
unfoldable pub c_string : List ℕ → Text
c_string [] = []
c_string (c ∷ s) = let rest = c_string s in if c == 0 then [] else c ∷ rest

-- "foobar", with its end
abbrev pub foobar : Text
foobar = 102 ∷ 111 ∷ 111 ∷ 98 ∷ 97 ∷ 114 ∷ []

abbrev pub foobar_z : List ℕ
foobar_z = 102 ∷ 111 ∷ 111 ∷ 98 ∷ 97 ∷ 114 ∷ 0 ∷ []

-- The three creations of `test_create_aes_key` and `test_create_rsa_key`, which differ in the method that they call: it
-- is given the number of the call, the store and the index.
module _ {S : Type 0} (create : ℕ → S → ℤ → Option (S × NyxError × ℤ)) where
  unfoldable pub third_creation : Option (S × NyxError × ℤ) → Bool
  third_creation none = false
  third_creation (some r) = is_ok r.1 && not (ltb_ℤ r.2 (pos 2))

  unfoldable pub second_creation : Option (S × NyxError × ℤ) → Bool
  unfolding third_creation
  second_creation none = false
  second_creation (some r) =
      is_ok r.1 && (r.2 ==ℤ pos 1) && third_creation (create 2 r.0 (negsuc 0))

  unfoldable pub first_creation : Option (S × NyxError × ℤ) → Bool
  unfolding second_creation
  first_creation none = false
  first_creation (some r) =
      is_ok r.1 && not (r.2 ==ℤ negsuc 0) && second_creation (create 1 r.0 (pos 1))

  unfoldable pub test_create_key : S → Bool
  unfolding first_creation
  test_create_key s = first_creation (create 0 s (negsuc 0))

-- The decryption of `test_crypt_aes`: the length, and `g_assert_cmpstr`.
unfoldable pub aes_decrypted : Option Crypt → Bool
unfolding c_string
aes_decrypted none = false
aes_decrypted (some r) =
    is_ok r.result && ltb_ℤ (pos 0) r.destlen && text_eq foobar (c_string r.dest)

unfoldable pub rsa_decrypted : RsaCrypt → Bool
unfolding c_string
rsa_decrypted r = is_ok r.result && ltb_ℤ (pos 0) r.destlen && text_eq foobar (c_string r.dest)

module _ {Rsa : Type 0} where
  -- `test_create_aes_key`, by the length that `atoi` reads and the random bytes of each call.
  unfoldable pub test_create_aes_key : (ℕ → List ℕ) → ℤ → Store Rsa → Bool
  test_create_aes_key random keylen s =
      test_create_key
        (λ (n : ℕ) (s : Store Rsa) (index : ℤ).
          security_create_aes_key true (some (random n)) s keylen index)
        s

  -- `test_create_rsa_key`, by the keys that OpenSSL generates.
  unfoldable pub test_create_rsa_key : (ℕ → Rsa) → ℤ → Store Rsa → Bool
  test_create_rsa_key generated keylen s =
      test_create_key
        (λ (n : ℕ) (s : Store Rsa) (index : ℤ).
          security_create_rsa_key true (pos 1) (generated n) s keylen index)
        s

  -- The assertions behind the encryption; the source of the decryption is what was written.
  unfoldable pub aes_encrypted : Evp → ℤ → Store Rsa → Option Crypt → Bool
  unfolding aes_decrypted
  aes_encrypted evp index s none = false
  aes_encrypted evp index s (some r) =
      is_ok r.result
      && ltb_ℤ (pos 0) r.destlen
      && aes_decrypted (security_aes_crypt evp none s index cbc false r.dest (negsuc 0) r.ivlen)

  unfoldable pub aes_created : Evp → List ℕ → Option (Store Rsa × NyxError × ℤ) → Bool
  unfolding aes_encrypted
  aes_created evp iv none = false
  aes_created evp iv (some r) =
      is_ok r.1
      && aes_encrypted evp r.2 r.0
          (security_aes_crypt evp (some iv) r.0 r.2 cbc true foobar_z (negsuc 0) (pos 0))

  -- `test_crypt_aes`, by the random bytes of the key and of the initialisation vector; `main` gives it the mode CBC.
  unfoldable pub test_crypt_aes : Evp → List ℕ → List ℕ → Store Rsa → Bool
  unfolding aes_created
  test_crypt_aes evp key iv s =
      aes_created evp iv (security_create_aes_key true (some key) s (pos 128) (negsuc 0))

  unfoldable pub rsa_encrypted : RsaLibrary Rsa → ℤ → Store Rsa → RsaCrypt → Bool
  unfolding rsa_decrypted
  rsa_encrypted lib index s r =
      is_ok r.result
      && ltb_ℤ (pos 0) r.destlen
      && rsa_decrypted (security_rsa_crypt lib s index false r.dest (negsuc 0))

  unfoldable pub rsa_created : RsaLibrary Rsa → Option (Store Rsa × NyxError × ℤ) → Bool
  unfolding rsa_encrypted
  rsa_created lib none = false
  rsa_created lib (some r) =
      is_ok r.1
      && rsa_encrypted lib r.2 r.0 (security_rsa_crypt lib r.0 r.2 true foobar_z (negsuc 0))

  -- `test_crypt_rsa`, by the key that OpenSSL generates and the length that `atoi` reads.
  unfoldable pub test_crypt_rsa : RsaLibrary Rsa → Rsa → ℕ → Store Rsa → Bool
  unfolding rsa_created
  test_crypt_rsa lib rsa keylen s =
      keylen % 8 == 0
      && rsa_created lib (security_create_rsa_key true (pos 1) rsa s (pos keylen) (negsuc 0))

-- `test_calculate_sha`, by the two tokens of its text, on the hash that is under way.
module _ {Ctx : Type 0} (md : Digest Ctx) (base64_encode : List ℕ → Text) where
  unfoldable pub test_calculate_sha : String → Text → Option Ctx → Bool
  unfolding c_string
  test_calculate_sha name expected running =
      let started = sha_init md name running in
      let updated = sha_update md foobar started.0 in
      let finished = security_finalize_hash md base64_encode updated.0 in
      is_ok started.1
      && is_ok updated.1
      && is_ok finished.1
      && text_eq (c_string finished.2) expected

-- The results that `main` expects.
abbrev pub foobar_sha256 : Text
foobar_sha256 =
    119 ∷ 54 ∷ 117 ∷ 80 ∷ 56 ∷ 84 ∷ 99 ∷ 103 ∷ 54 ∷ 75 ∷ 50 ∷ 81 ∷ 82 ∷ 57 ∷ 48 ∷ 53 ∷ 82 ∷ 109
    ∷ 115 ∷ 56 ∷ 105 ∷ 88 ∷ 84 ∷ 108 ∷ 107 ∷ 115 ∷ 76 ∷ 54 ∷ 79 ∷ 68 ∷ 49 ∷ 75 ∷ 79 ∷ 87 ∷ 66 ∷ 120
    ∷ 84 ∷ 75 ∷ 55 ∷ 119 ∷ 120 ∷ 80 ∷ 73 ∷ 61 ∷ []

abbrev pub foobar_sha512 : Text
foobar_sha512 =
    67 ∷ 108 ∷ 65 ∷ 109 ∷ 72 ∷ 114 ∷ 48 ∷ 97 ∷ 79 ∷ 81 ∷ 47 ∷ 116 ∷ 75 ∷ 47 ∷ 77 ∷ 109 ∷ 56 ∷ 109
    ∷ 99 ∷ 56 ∷ 70 ∷ 70 ∷ 87 ∷ 67 ∷ 112 ∷ 106 ∷ 81 ∷ 116 ∷ 85 ∷ 106 ∷ 73 ∷ 69 ∷ 108 ∷ 122 ∷ 48 ∷ 67
    ∷ 71 ∷ 84 ∷ 78 ∷ 47 ∷ 103 ∷ 87 ∷ 70 ∷ 113 ∷ 103 ∷ 71 ∷ 109 ∷ 119 ∷ 69 ∷ 108 ∷ 104 ∷ 56 ∷ 57 ∷ 87
    ∷ 78 ∷ 102 ∷ 97 ∷ 83 ∷ 88 ∷ 120 ∷ 116 ∷ 87 ∷ 119 ∷ 50 ∷ 65 ∷ 106 ∷ 68 ∷ 66 ∷ 109 ∷ 121 ∷ 99 ∷ 49
    ∷ 65 ∷ 79 ∷ 52 ∷ 66 ∷ 80 ∷ 103 ∷ 77 ∷ 71 ∷ 65 ∷ 98 ∷ 56 ∷ 107 ∷ 74 ∷ 81 ∷ 61 ∷ 61 ∷ []

-- What the tests of `main` meet, by their number: the key store and the hash of the opening, random bytes for keys and
-- for an initialisation vector, and keys of OpenSSL.
pub record Environment (Rsa Ctx : Type 0) : Type 0 where
  pub store : ℕ → Store Rsa
  pub running : ℕ → Option Ctx
  pub random : ℕ → List ℕ
  pub iv : List ℕ
  pub generated : ℕ → Rsa

-- The paths under which `main` registers its tests, in order.
abbrev pub paths : List String
paths =
    "/nyx/security/create_key_aes128cbc" ∷ "/nyx/security/create_key_aes256cbc"
    ∷ "/nyx/security/create_key_rsa2048" ∷ "/nyx/security/crypt_aes128cbc"
    ∷ "/nyx/security/crypt_rsa2048" ∷ "/nyx/security/crypt_rsa2048"
    ∷ "/nyx/security/calculate_sha256" ∷ "/nyx/security/calculate_sha512" ∷ []

-- The calls of `g_test_add` of GLib, by whether it accepts a path after those that are registered, the last one
-- first. One that it does not accept ends the program.
unfoldable pub registered : (List String → String → Bool) → List String → List String → Bool
registered accepts done [] = true
registered accepts done (path ∷ rest) = accepts done path && registered accepts (path ∷ done) rest

-- `main`: whether all tests pass, or `none` if the program has ended before it runs them.
module _ {Rsa Ctx : Type 0} (evp : Evp) (lib : RsaLibrary Rsa) (md : Digest Ctx)
    (base64_encode : List ℕ → Text) where
  unfoldable pub all_tests : Environment Rsa Ctx → Bool
  all_tests e =
      test_create_aes_key e.random (pos 128) (e.store 0)
      && test_create_aes_key e.random (pos 256) (e.store 1)
      && test_create_rsa_key e.generated (pos 2048) (e.store 2)
      && test_crypt_aes evp (e.random 3) e.iv (e.store 3)
      && test_crypt_rsa lib (e.generated 4) 2048 (e.store 4)
      && test_crypt_rsa lib (e.generated 5) 4096 (e.store 5)
      && test_calculate_sha md base64_encode "SHA256" foobar_sha256 (e.running 6)
      && test_calculate_sha md base64_encode "SHA512" foobar_sha512 (e.running 7)

  unfoldable pub main : (List String → String → Bool) → Environment Rsa Ctx → Option Bool
  unfolding registered all_tests
  main accepts e = if registered accepts [] paths then some (all_tests e) else none
