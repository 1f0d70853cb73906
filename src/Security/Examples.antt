-- ===== src/Security/Examples.antt =====
-- A store with two keys, a cipher and a digest that are as simple as can be, and the theorems at them.
use mathlib.Core.List.{append-nil, append_assoc}
use mathlib.Core.Option.{some-injective}
use nyx_modules.Base.{
  arith, ℕ, suc, zero, ◌*◌, Option, ap, ◌<◌, ℤ, pos, negsuc, ◌==ℤ◌, true, false, List, [], ◌∷◌,
  ◌++◌, none, some, is_some, length, replicate, ◌≡◌, refl, sym, ap₂, ◌∙◌, ◌⊎◌, inr, All, ◌+ℤ◌,
}
use nyx_modules.Nyx.{ok, invalid_value}
use nyx_modules.Security.Keystore.{
  Table, keystore_key_lookup, keystore_key_replace, put_at, free_index, replace, remove,
}
use nyx_modules.Security.FreeIndex.{Holds, key_replace_lem}
use nyx_modules.Security.Aes.{
  AesKey, cbc, Evp, Crypt, aes_generate_key, supported_in, store_random, aes_crypt, aes_block_size,
  crypt_with, encrypt_with, add_update, add_final, algo_of, lookup_in,
}
use nyx_modules.Security.KeyFile.{Codec, Store}
use nyx_modules.Security.Device.{nyx_module_open, nyx_module_close}
use nyx_modules.Security.Calls.{
  SecurityCall, on_keys, on_hash, init_hash, update_hash, create_aes, crypt_aes, crypt_rsa,
  SecurityState, security_run, security_aes_crypt,
}
use nyx_modules.Security.Interleaving.{Spares, keys_stay}
use nyx_modules.Security.Sessions.{restart_decrypts, DecryptsAes, DecryptsRsa}
use nyx_modules.Security.SaveLoad.{
  IsExact, IsSame, Lives, empty, created, aes_generated, rsa_generated,
}
use nyx_modules.Security.RoundTrip.{IsInverse, decrypt_encrypted}
use nyx_modules.Security.Rsa.{RsaLibrary, rsa_generate_key}
use nyx_modules.Security.RsaRoundTrip.{IsPair}
use nyx_modules.Security.Sha.{sha256, Digest, sha_algo_data_lookup, sha_update, sha_finalize}
use nyx_modules.Security.Hashing.{hash_parts, IsIncremental, concat, hash_parts_lem}

abbrev small_key : AesKey
small_key = record { keylen = pos 128; key = replicate 16 7 }

abbrev store : Table AesKey
store = (pos 0, small_key) ∷ (pos 1, small_key) ∷ []

key_replace_lem_example :
    (t' : Table AesKey) × (i : ℤ) × (keystore_key_replace store small_key (negsuc 0) ≡ some (t', i))
    × Holds store small_key i t'
    × (((negsuc 0 ==ℤ negsuc 0 ≡ false) × (i ≡ negsuc 0))
        ⊎ ((n : ℕ) × (negsuc 0 ≡ negsuc 0)
            × (i ≡ pos n)
            × (keystore_key_lookup store (pos n) ≡ none)
            × ((j : ℕ) → j < n → is_some (keystore_key_lookup store (pos j)) ≡ true)))
key_replace_lem_example = key_replace_lem store small_key (negsuc 0)

-- A cipher that writes the text as it is, all of it in the update.
abbrev plain : Evp
plain = record {
  update = λ c key iv encrypt src n. some src;
  final = λ c key iv encrypt src n. some [];
}

plain-IsInverse : IsInverse plain
unfolding IsInverse
plain-IsInverse c key iv src u f eu ef = (
  u ++ f,
  [],
  refl,
  refl,
  append-nil (u ++ f)
      ∙ ap₂ (λ (a b : List ℕ). a ++ b) (sym (some-injective src u eu))
          (sym (some-injective [] f ef))
      ∙ append-nil src,
)

abbrev encrypted : Crypt
encrypted = record {
  result = ok;
  dest = replicate 16 5 ++ (1 ∷ 2 ∷ []);
  destlen = pos 18;
  ivlen = pos 16;
}

encrypted_run :
    aes_crypt plain (some (replicate 16 5)) store (pos 1) true cbc (1 ∷ 2 ∷ []) (pos 0) (pos 0)
    ≡ some encrypted
unfolding aes_crypt crypt_with encrypt_with add_update add_final algo_of lookup_in
    keystore_key_lookup ◌+ℤ◌
encrypted_run = refl

decrypt_encrypted_example :
    (pos 18 ≡ pos (length encrypted.dest))
    × (aes_crypt plain none store (pos 1) false cbc encrypted.dest (pos 0) (pos 16)
        ≡ some (record {
          result = ok;
          dest = 1 ∷ 2 ∷ [];
          destlen = pos 2;
          ivlen = pos aes_block_size;
        }))
decrypt_encrypted_example =
    decrypt_encrypted plain plain-IsInverse store (pos 1) cbc (replicate 16 5) (1 ∷ 2 ∷ []) (pos 0)
      (pos 0) (pos 0) none encrypted refl encrypted_run refl

-- A digest that keeps the whole text.
abbrev keeping : Digest (List ℕ)
keeping = record {
  create = [];
  init = λ c h. ([], true);
  update = λ c a. (c ++ a, true);
  final = λ c. (c, some c);
}

keeping-IsIncremental : IsIncremental keeping
unfolding IsIncremental
keeping-IsIncremental c a b = (append-nil c, append_assoc c a b)

known : sha_algo_data_lookup "SHA256" ≡ some sha256
unfolding sha_algo_data_lookup
known = refl

abbrev parts : List (List ℕ)
parts = (1 ∷ 2 ∷ []) ∷ (3 ∷ []) ∷ []

whole : some (concat keeping parts) ≡ some (1 ∷ 2 ∷ 3 ∷ [])
unfolding concat
whole = refl

hash_parts_lem_example :
    (hash_parts keeping "SHA256" parts none ≡ (none, ok, 1 ∷ 2 ∷ 3 ∷ []))
    × ((p : List ℕ)
        → sha_update keeping p (hash_parts keeping "SHA256" parts none).0 ≡ (none, invalid_value))
    × (sha_finalize keeping (hash_parts keeping "SHA256" parts none).0 ≡ (none, invalid_value, []))
hash_parts_lem_example =
    hash_parts_lem keeping keeping-IsIncremental "SHA256" sha256 parts none known (1 ∷ 2 ∷ 3 ∷ [])
      whole

-- Keys that are their size, and leave a text as it is.
abbrev open_rsa : RsaLibrary ℕ
open_rsa = record {
  size = λ k. k;
  public_encrypt = λ k src. some src;
  private_decrypt = λ k src. some src;
}

open_rsa-IsPair : IsPair open_rsa
unfolding IsPair
open_rsa-IsPair k src bytes e = sym e

-- Texts that are the number itself: an index is two numbers, and the encodings leave what they get.
abbrev code : ℤ → List ℕ
code (pos n) = 0 ∷ n ∷ []
code (negsuc n) = 1 ∷ n ∷ []

abbrev parse : List ℕ → ℤ
parse (zero ∷ n ∷ []) = pos n
parse (suc z ∷ n ∷ []) = negsuc n
parse _ = pos 0

abbrev read_key : List ℕ → Option ℕ
read_key (n ∷ []) = some n
read_key _ = none

abbrev plain_codec : Codec ℕ
plain_codec = record {
  decimal = code;
  atoi = parse;
  base64_encode = λ b. b;
  base64_decode = λ b. b;
  i2d = λ k. k ∷ [];
  d2i = read_key;
}

parse-code : (i : ℤ) → parse (code i) ≡ i
parse-code (pos n) = refl
parse-code (negsuc n) = refl

plain_codec-IsExact : IsExact plain_codec
unfolding IsExact
plain_codec-IsExact = (parse-code, λ b. refl)

one_key :
    aes_generate_key true (some (replicate 16 7)) [] (pos 128) (negsuc 0)
    ≡ some ((pos 0, small_key) ∷ [], ok, pos 0)
unfolding aes_generate_key supported_in store_random keystore_key_replace put_at free_index replace
    remove keystore_key_lookup
one_key = refl

one_key-Lives : Lives plain_codec (record { aes = (pos 0, small_key) ∷ []; rsa = [] })
one_key-Lives =
    aes_generated (empty plain_codec) true (some (replicate 16 7)) (pos 128) (negsuc 0)
      ((pos 0, small_key) ∷ []) ok (pos 0) created
      (λ bytes h. ap (λ (b : List ℕ). pos (length b * 8)) (some-injective (replicate 16 7) bytes h))
      one_key

abbrev two_keys : Store ℕ
two_keys = record {
  aes = (pos 0, small_key) ∷ [];
  rsa = (pos 0, record { keylen = pos 2048; rsa = 256 }) ∷ [];
}

second_key :
    rsa_generate_key true (pos 1) 256 [] (pos 2048) (negsuc 0) ≡ some (two_keys.rsa, ok, pos 0)
unfolding rsa_generate_key keystore_key_replace put_at free_index replace remove keystore_key_lookup
second_key = refl

two_keys-Lives : Lives plain_codec two_keys
two_keys-Lives =
    rsa_generated (record { aes = (pos 0, small_key) ∷ []; rsa = [] }) true (pos 1) 256 (pos 2048)
      (negsuc 0) two_keys.rsa ok (pos 0) one_key-Lives refl second_key

restart_decrypts_example :
    (s' : Store ℕ) × (nyx_module_open plain_codec 4096
        (λ m. ok)
        true
        true
        (nyx_module_close plain_codec true false none two_keys).0
        (nyx_module_close plain_codec true false none two_keys).1
        (some 0)
      ≡ some (record { result = ok; device = 4096; freed = false; keystore = some s' }))
    × IsSame plain_codec two_keys s'
    × DecryptsAes plain_codec plain open_rsa two_keys s'
    × DecryptsRsa plain_codec plain open_rsa two_keys s'
restart_decrypts_example =
    restart_decrypts plain_codec plain open_rsa plain_codec-IsExact plain-IsInverse open_rsa-IsPair
      two_keys two_keys-Lives false none 4096 (λ m. ok) (λ e. omega arith) (λ m. refl)

-- A hash of two parts, with keys made and used in between.
abbrev calls : List (SecurityCall ℕ)
calls =
    on_hash (init_hash "SHA256")
    ∷ on_hash (update_hash (1 ∷ []))
    ∷ on_keys (create_aes true (some (replicate 16 9)) (pos 128) (negsuc 0))
    ∷ on_hash (update_hash (2 ∷ []))
    ∷ on_keys (crypt_aes none (pos 0) false cbc (replicate 18 5) (pos 0) (pos 16))
    ∷ on_keys (crypt_rsa (pos 0) true (3 ∷ []) (pos 0))
    ∷ []

calls-Spares : All (Spares (pos 0)) calls
unfolding Spares
calls-Spares = (tt, (tt, (refl, (tt, (inr refl, (tt, tt))))))

keys_stay_example :
    (s' : SecurityState ℕ (List ℕ)) × (security_run plain keeping
        (λ b. b)
        calls
        (record { keystore = two_keys; running = none })
      ≡ some s')
    × (keystore_key_lookup s'.keystore.aes (pos 0) ≡ some small_key)
    × (security_aes_crypt plain
          (some (replicate 16 5))
          s'.keystore
          (pos 0)
          cbc
          true
          (1 ∷ [])
          (pos 0)
          (pos 0)
        ≡ security_aes_crypt plain
            (some (replicate 16 5))
            two_keys
            (pos 0)
            cbc
            true
            (1 ∷ [])
            (pos 0)
            (pos 0))
keys_stay_example =
    keys_stay plain keeping (λ b. b) (pos 0) small_key calls
      (record { keystore = two_keys; running = none }) calls-Spares
      (unfold keystore_key_lookup in refl) (some (replicate 16 5)) cbc true (1 ∷ []) (pos 0) (pos 0)
