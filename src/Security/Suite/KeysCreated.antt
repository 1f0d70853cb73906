-- ===== src/Security/Suite/KeysCreated.antt =====
-- test_security.c: the tests that create keys pass.
use nyx_modules.Base.{ℕ, ℤ, pos, ◌==ℤ◌, true, ◌||◌, List, Option, none, some, ◌≡◌, refl}
use mathlib.Core.Option
use nyx_modules.Security.Keystore.{Table}
use nyx_modules.Security.Aes.{AesKey, aes_supported_keylength, store_random, aes_generate_key}
use nyx_modules.Security.Rsa.{RsaKey, rsa_generate_key}
use nyx_modules.Security.KeyFile.{Store}
use nyx_modules.Security.Calls.{security_create_aes_key, security_create_rsa_key}
use nyx_modules.Security.Suite.{test_create_aes_key, test_create_rsa_key}
use nyx_modules.Security.Suite.Creating.{IsCreating, creating_lem}

map-map :
    {A B C : Type 0}
    → (f : B → C) (g : A → B) (o : Option A)
    → Option.map f (Option.map g o) ≡ Option.map (λ (a : A). f (g a)) o
map-map f g none = refl
map-map f g (some a) = refl

aes_law :
    (Rsa : Type 0) (random : ℕ → List ℕ) (keylen : ℤ)
    → aes_supported_keylength keylen ≡ true
    → IsCreating
        (λ (s : Store Rsa). s.aes)
        (λ (s : Store Rsa) (t : Table AesKey). record s { aes = t })
        (λ (n : ℕ). record { keylen = keylen; key = random n })
        (λ (n : ℕ) (s : Store Rsa) (index : ℤ).
          security_create_aes_key true (some (random n)) s keylen index)
unfolding IsCreating security_create_aes_key aes_generate_key store_random
aes_law Rsa random keylen h = (λ n s index. rw h (map-map _ _ _), λ s t. refl)

module _ {Rsa : Type 0} where
  pub create_aes-passes :
      (random : ℕ → List ℕ) (keylen : ℤ) (s : Store Rsa)
      → aes_supported_keylength keylen ≡ true
      → test_create_aes_key random keylen s ≡ true
  unfolding test_create_aes_key
  create_aes-passes random keylen s h = creating_lem _ _ _ _ (aes_law Rsa random keylen h) s

  rsa_law :
      (generated : ℕ → Rsa) (keylen : ℤ)
      → (keylen ==ℤ pos 2048 || keylen ==ℤ pos 4096) ≡ true
      → IsCreating
          (λ (s : Store Rsa). s.rsa)
          (λ (s : Store Rsa) (t : Table (RsaKey Rsa)). record s { rsa = t })
          (λ (n : ℕ). record { keylen = keylen; rsa = generated n })
          (λ (n : ℕ) (s : Store Rsa) (index : ℤ).
            security_create_rsa_key true (pos 1) (generated n) s keylen index)
  unfolding IsCreating security_create_rsa_key rsa_generate_key
  rsa_law generated keylen h = (λ n s index. rw h (map-map _ _ _), λ s t. refl)

  pub create_rsa-passes :
      (generated : ℕ → Rsa) (keylen : ℤ) (s : Store Rsa)
      → (keylen ==ℤ pos 2048 || keylen ==ℤ pos 4096) ≡ true
      → test_create_rsa_key generated keylen s ≡ true
  unfolding test_create_rsa_key
  create_rsa-passes generated keylen s h = creating_lem _ _ _ _ (rsa_law generated keylen h) s
