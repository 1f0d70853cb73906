-- ===== src/Security/Aes.antt =====
-- aes.c: keys of 128 and 256 bits, and the encryption in CBC mode with the initialisation vector in front.
-- OpenSSL is a parameter.
use nyx_modules.Base.{
  ℕ, ℤ, pos, ◌+ℤ◌, ◌-ℤ◌, ◌==ℤ◌, Bool, true, false, not, ◌&&◌, if◌then◌else◌, List, [], ◌∷◌, ◌++◌,
  Option, none, some, length, take, drop,
}
use mathlib.Core.Option.{map}
use nyx_modules.Nyx.{NyxError, ok, generic, invalid_value, out_of_memory}
use nyx_modules.Security.Keystore.{Table, keystore_key_lookup, keystore_key_replace}

-- `struct aes_key_t`, with the bytes that are in use.
pub record AesKey : Type 0 where
  pub keylen : ℤ
  pub key : List ℕ

-- `nyx_security_aes_block_mode_t` of nyx-lib: the mode that the code names, and every other value.
pub data BlockMode : Type 0 where
  cbc : BlockMode
  other : ℕ → BlockMode

abbrev pub is_cbc : BlockMode → Bool
is_cbc cbc = true
is_cbc (other n) = false

-- The ciphers of OpenSSL that the table names.
pub data Cipher : Type 0 where
  aes_128_cbc aes_256_cbc : Cipher

-- `struct aes_algo_data_t`, without the name. The mode is CBC in both entries.
pub record AlgoData : Type 0 where
  pub keylen : ℤ
  pub cipher : Cipher

abbrev pub aes_algo_data : List AlgoData
aes_algo_data =
    record { keylen = pos 128; cipher = aes_128_cbc }
    ∷ record { keylen = pos 256; cipher = aes_256_cbc }
    ∷ []

-- `aes_supported_keylength`
unfoldable pub supported_in : List AlgoData → ℤ → Bool
supported_in [] n = false
supported_in (a ∷ rest_of) n =
    let rest = supported_in rest_of n in if a.keylen ==ℤ n then true else rest

abbrev pub aes_supported_keylength : ℤ → Bool
aes_supported_keylength n = supported_in aes_algo_data n

-- `aes_algo_data_lookup`
unfoldable pub lookup_in : List AlgoData → ℤ → BlockMode → Option AlgoData
lookup_in [] n m = none
lookup_in (a ∷ rest_of) n m =
    let rest = lookup_in rest_of n m in if a.keylen ==ℤ n && is_cbc m then some a else rest

abbrev pub aes_algo_data_lookup : ℤ → BlockMode → Option AlgoData
aes_algo_data_lookup n m = lookup_in aes_algo_data n m

-- The rest of `aes_generate_key`, with the bytes of `RAND_bytes`.
unfoldable pub store_random :
    Table AesKey → ℤ → ℤ → Option (List ℕ) → Option (Table AesKey × NyxError × ℤ)
store_random t keylen index none = some (t, generic, index)
store_random t keylen index (some bytes) =
    map (λ (r : Table AesKey × ℤ). (r.0, ok, r.1))
      (keystore_key_replace t (record { keylen = keylen; key = bytes }) index)

-- `aes_generate_key`, with the success of `g_malloc` as an argument: the table, the result and the index,
-- or `none` if the search for an index is not over.
unfoldable pub aes_generate_key :
    Bool → Option (List ℕ) → Table AesKey → ℤ → ℤ → Option (Table AesKey × NyxError × ℤ)
aes_generate_key memory random t keylen index =
    if not (aes_supported_keylength keylen)
    then some (t, invalid_value, index)
    else if not memory
    then some (t, out_of_memory, index)
    else store_random t keylen index random

-- OpenSSL: what `EVP_CipherUpdate` and `EVP_CipherFinal_ex` write for a cipher, a key, an initialisation
-- vector, a direction (true is encryption) and a source with its length; `none` is an error.
pub record Evp : Type 0 where
  pub update : Cipher → List ℕ → List ℕ → Bool → List ℕ → ℤ → Option (List ℕ)
  pub final : Cipher → List ℕ → List ℕ → Bool → List ℕ → ℤ → Option (List ℕ)

-- What `aes_crypt` leaves: its result, the bytes written from `dest` on, `*destlen` and `*ivlen`.
pub record Crypt : Type 0 where
  pub result : NyxError
  pub dest : List ℕ
  pub destlen : ℤ
  pub ivlen : ℤ

-- `AES_BLOCK_SIZE`
abbrev pub aes_block_size : ℕ
aes_block_size = 16

-- The part of `aes_crypt` from the calls of OpenSSL on, with the bytes that are at `dest` already.
unfoldable pub add_final : Bool → List ℕ → ℤ → List ℕ → Option (List ℕ) → Crypt
add_final encrypt before ivlen u none = record {
  result = generic;
  dest = before ++ u;
  destlen = pos (length u);
  ivlen = ivlen;
}
add_final encrypt before ivlen u (some f) =
    let n = pos (length u) +ℤ pos (length f) in
    record {
      result = ok;
      dest = before ++ (u ++ f);
      destlen = if encrypt then n +ℤ ivlen else n;
      ivlen = ivlen;
    }

unfoldable pub add_update : Bool → List ℕ → ℤ → ℤ → Option (List ℕ) → Option (List ℕ) → Crypt
unfolding add_final
add_update encrypt before destlen ivlen none final = record {
  result = generic;
  dest = before;
  destlen = destlen;
  ivlen = ivlen;
}
add_update encrypt before destlen ivlen (some u) final = add_final encrypt before ivlen u final

-- The algorithm for a key, if there is one.
unfoldable pub algo_of : Option AesKey → BlockMode → Option AlgoData
algo_of none mode = none
algo_of (some k) mode = aes_algo_data_lookup k.keylen mode

module _ (evp : Evp) where
  unfoldable pub encrypt_with : Cipher → List ℕ → Option (List ℕ) → List ℕ → ℤ → Crypt
  unfolding add_update
  encrypt_with c key none src destlen = record {
    result = generic;
    dest = [];
    destlen = destlen;
    ivlen = pos aes_block_size;
  }
  encrypt_with c key (some iv) src destlen =
      add_update true iv destlen (pos aes_block_size)
        (evp.update c key iv true src (pos (length src)))
        (evp.final c key iv true src (pos (length src)))

  unfoldable pub decrypt_with : Cipher → List ℕ → List ℕ → ℤ → Crypt
  unfolding add_update
  decrypt_with c key src destlen =
      let iv = take aes_block_size src in
      let text = drop aes_block_size src in
      let n = pos (length src) -ℤ pos aes_block_size in
      add_update false [] destlen (pos aes_block_size) (evp.update c key iv false text n)
        (evp.final c key iv false text n)

  -- The key and the algorithm that `aes_crypt` looks up. A decryption with another `*ivlen` than the size of a
  -- block is an assertion that fails: `none`.
  unfoldable pub crypt_with :
      Option AesKey → Option AlgoData → Option (List ℕ) → Bool → List ℕ → ℤ → ℤ → Option Crypt
  unfolding encrypt_with decrypt_with
  crypt_with none algo random encrypt src destlen ivlen =
      some (record { result = invalid_value; dest = []; destlen = destlen; ivlen = ivlen })
  crypt_with (some k) none random encrypt src destlen ivlen =
      some (record { result = invalid_value; dest = []; destlen = destlen; ivlen = ivlen })
  crypt_with (some k) (some a) random true src destlen ivlen =
      some (encrypt_with a.cipher k.key random src destlen)
  crypt_with (some k) (some a) random false src destlen ivlen =
      if ivlen ==ℤ pos aes_block_size then some (decrypt_with a.cipher k.key src destlen) else none

  -- `aes_crypt`, with the bytes of `RAND_bytes` as an argument.
  unfoldable pub aes_crypt :
      Option (List ℕ) → Table AesKey → ℤ → Bool → BlockMode → List ℕ → ℤ → ℤ → Option Crypt
  unfolding crypt_with algo_of
  aes_crypt random t index encrypt mode src destlen ivlen =
      let k = keystore_key_lookup t index in
      crypt_with k (algo_of k mode) random encrypt src destlen ivlen
