-- ===== src/Security/Suite/Examples.antt =====
-- An OpenSSL that hides nothing, with which the tests run, and the theorem at it.
use nyx_modules.Base.{
  Bool, not, pos, Text, ℕ, true, List, [], ◌∷◌, ◌++◌, replicate, drop, none, some, ◌≡◌, refl, sym,
  ap, ap₂, ◌∙◌, arith,
}
use mathlib.Core.Option.{some-injective}
use mathlib.Core.List.{append-nil}
use nyx_modules.Security.Aes.{Evp}
use nyx_modules.Security.Rsa.{RsaLibrary}
use nyx_modules.Security.Sha.{Hash, sha256, sha512, Digest}
use nyx_modules.Security.RoundTrip.{IsInverse}
use nyx_modules.Security.RsaRoundTrip.{IsPair}
use nyx_modules.Security.Suite.{
  foobar_sha256, foobar_sha512, Environment, main, test_create_aes_key, test_create_rsa_key,
  test_crypt_aes, test_crypt_rsa,
}
use Prim.Native.String.{String}
use nyx_modules.Security.KeyFile.{Store}
use nyx_modules.Security.Suite.AesDecrypted.{Encrypts}
use nyx_modules.Security.Suite.RsaDecrypted.{EncryptsShort}
use nyx_modules.Security.Suite.Passing.{is_registered, RefusesTwice, tests_lem}

abbrev plain : Evp
plain = record {
  update = λ c key iv encrypt src n. some src;
  final = λ c key iv encrypt src n. some [];
}

plain-IsInverse : IsInverse plain
unfolding IsInverse
plain-IsInverse c key iv src u f eu ef = (
  u ++ f,
  [],
  refl,
  refl,
  append-nil (u ++ f)
      ∙ ap₂ (λ (a b : List ℕ). a ++ b) (sym (some-injective src u eu))
          (sym (some-injective [] f ef))
      ∙ append-nil src,
)

plain-Encrypts : Encrypts plain
unfolding Encrypts
plain-Encrypts c key iv src = (src, [], refl, refl)

-- A key is its size.
abbrev marked : RsaLibrary ℕ
marked = record {
  size = λ k. k;
  public_encrypt = λ k src. some (0 ∷ src);
  private_decrypt = λ k bytes. some (drop 1 bytes);
}

marked-IsPair : IsPair marked
unfolding IsPair
marked-IsPair k src bytes e =
    ap (λ (b : List ℕ). some (drop 1 b)) (sym (some-injective (0 ∷ src) bytes e))

marked-EncryptsShort : EncryptsShort marked
unfolding EncryptsShort
marked-EncryptsShort k src h = (0 ∷ src, refl, omega arith)

-- A digest that knows one text.
abbrev known : Hash → Text
known sha256 = foobar_sha256
known sha512 = foobar_sha512

abbrev one_text : Digest Hash
one_text = record {
  create = sha256;
  init = λ c h. (h, true);
  update = λ c a. (c, true);
  final = λ c. (c, some (known c));
}

abbrev environment : Environment ℕ Hash
environment = record {
  store = λ n. record { aes = []; rsa = [] };
  running = λ n. none;
  random = λ n. replicate 16 n;
  iv = replicate 16 3;
  generated = λ n. 256;
}

-- The registration of GLib.
abbrev new_path : List String → String → Bool
new_path done path = not (is_registered path done)

new_path-RefusesTwice : RefusesTwice new_path
unfolding RefusesTwice
new_path-RefusesTwice done path h = rw h refl

abbrev some_keys : Store ℕ
some_keys = record { aes = (pos 0, record { keylen = pos 128; key = [] }) ∷ []; rsa = [] }

tests_lem_example :
    (main plain marked one_text (λ b. b) new_path environment ≡ none)
    × (test_create_aes_key environment.random (pos 128) some_keys ≡ true)
    × (test_create_aes_key environment.random (pos 256) some_keys ≡ true)
    × (test_create_rsa_key environment.generated (pos 2048) some_keys ≡ true)
    × (test_crypt_aes plain (environment.random 3) environment.iv some_keys ≡ true)
    × (test_crypt_rsa marked (environment.generated 4) 2048 some_keys ≡ true)
    × (test_crypt_rsa marked (environment.generated 5) 4096 some_keys ≡ true)
tests_lem_example =
    tests_lem plain marked one_text (λ b. b) new_path environment some_keys new_path-RefusesTwice
      plain-IsInverse plain-Encrypts marked-IsPair marked-EncryptsShort refl (λ n. omega arith)
