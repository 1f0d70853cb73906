-- ===== src/Security/Suite/Passing.antt =====
-- test_security.c: the tests of keys pass one by one, and the program ends before it runs them.
use nyx_modules.Base.{
  ℕ, ◌≤◌, pos, Bool, true, false, ◌||◌, List, [], ◌∷◌, Bool-cases, inl, inr, length, none, ◌≡◌,
  refl, Text,
}
use Prim.Native.String.{String}
use text.Mathlib.Text.{◌==◌ as str_eq}
use nyx_modules.Security.Aes.{Evp, aes_block_size, supported_in}
use nyx_modules.Security.Rsa.{RsaLibrary}
use nyx_modules.Security.Sha.{Digest}
use nyx_modules.Security.RoundTrip.{IsInverse}
use nyx_modules.Security.RsaRoundTrip.{IsPair}
use nyx_modules.Security.KeyFile.{Store}
use nyx_modules.Security.Suite.{
  paths, registered, Environment, main, test_create_aes_key, test_create_rsa_key, test_crypt_aes,
  test_crypt_rsa,
}
use nyx_modules.Security.Suite.KeysCreated.{create_aes-passes, create_rsa-passes}
use nyx_modules.Security.Suite.AesDecrypted.{Encrypts, crypt_aes-passes}
use nyx_modules.Security.Suite.RsaDecrypted.{EncryptsShort, crypt_rsa-passes}

unfoldable pub is_registered : String → List String → Bool
is_registered path [] = false
is_registered path (p ∷ done) = str_eq p path || is_registered path done

-- What GLib documents: a path that is registered already is not accepted.
unfoldable pub RefusesTwice : (List String → String → Bool) → Type 0
RefusesTwice accepts =
    (done : List String) (path : String)
    → is_registered path done ≡ true
    → accepts done path ≡ false

module _ (accepts : List String → String → Bool) where
  refused_here :
      (done rest : List String) (path : String)
      → accepts done path ≡ false
      → registered accepts done (path ∷ rest) ≡ false
  unfolding registered
  refused_here done rest path h = rw h refl

  refused_later :
      (done rest : List String) (path : String)
      → registered accepts (path ∷ done) rest ≡ false
      → registered accepts done (path ∷ rest) ≡ false
  unfolding registered
  refused_later done rest path h = elim (Bool-cases (accepts done path)) [
    | inl e ↦ rw e h
    | inr e ↦ rw e refl
  ]

  not_accepted :
      RefusesTwice accepts
      → (done : List String) (path : String) → is_registered path done ≡ true
      → accepts done path ≡ false
  unfolding RefusesTwice
  not_accepted refuses done path h = refuses done path h

  -- The sixth path is the fifth one.
  not_registered : RefusesTwice accepts → registered accepts [] paths ≡ false
  unfolding is_registered
  not_registered refuses = refused_later _ _ _ (
      refused_later _ _ _ (
        refused_later _ _ _ (
          refused_later _ _ _
            (refused_later _ _ _ (refused_here _ _ _ (not_accepted refuses _ _ refl))))))

module _ {Rsa Ctx : Type 0} (evp : Evp) (lib : RsaLibrary Rsa) (md : Digest Ctx)
    (base64_encode : List ℕ → Text) where
  -- The test program registers a path twice. With a GLib that refuses that, it ends before any test is run. Of its
  -- tests those of keys pass one by one, whatever key store a test finds and whatever random bytes and keys it
  -- gets, if OpenSSL works: its ciphers do not fail and invert themselves, its key pairs fit together, encrypt what
  -- is 42 bytes shorter than the key to something not empty, and are of 49 bytes at least, and the vector has the
  -- size of a block.
  pub tests_lem :
      (accepts : List String → String → Bool) (e : Environment Rsa Ctx) (s : Store Rsa)
      → RefusesTwice accepts
      → IsInverse evp
      → Encrypts evp
      → IsPair lib
      → EncryptsShort lib
      → length e.iv ≡ aes_block_size
      → ((n : ℕ) → 49 ≤ lib.size (e.generated n))
      → (main evp lib md base64_encode accepts e ≡ none)
        × (test_create_aes_key e.random (pos 128) s ≡ true)
        × (test_create_aes_key e.random (pos 256) s ≡ true)
        × (test_create_rsa_key e.generated (pos 2048) s ≡ true)
        × (test_crypt_aes evp (e.random 3) e.iv s ≡ true)
        × (test_crypt_rsa lib (e.generated 4) 2048 s ≡ true)
        × (test_crypt_rsa lib (e.generated 5) 4096 s ≡ true)
  unfolding main supported_in
  tests_lem accepts e s refuses inverse encrypts pair short iv large = (
    rw (not_registered accepts refuses) refl,
    create_aes-passes e.random (pos 128) s refl,
    create_aes-passes e.random (pos 256) s refl,
    create_rsa-passes e.generated (pos 2048) s refl,
    crypt_aes-passes evp inverse encrypts (e.random 3) e.iv s iv,
    crypt_rsa-passes lib pair short (e.generated 4) 2048 s refl refl (large 4),
    crypt_rsa-passes lib pair short (e.generated 5) 4096 s refl refl (large 5),
  )
