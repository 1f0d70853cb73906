-- ===== src/Security/Rsa.antt =====
-- rsa.c: keys of 2048 and 4096 bits, and the encryption with OAEP padding. OpenSSL is a parameter.
use nyx_modules.Base.{
  ℕ, ℤ, pos, negsuc, ltb_ℤ, ◌-ℤ◌, ◌==ℤ◌, Bool, true, false, not, ◌||◌, if◌then◌else◌, List, [],
  Option, none, some, length,
}
use mathlib.Core.Option.{map}
use nyx_modules.Nyx.{NyxError, ok, generic, invalid_value, out_of_memory}
use nyx_modules.Security.Keystore.{Table, keystore_key_lookup, keystore_key_replace}

-- `struct rsa_key_t`, over the keys of OpenSSL
pub record RsaKey (Rsa : Type 0) : Type 0 where
  pub keylen : ℤ
  pub rsa : Rsa

-- `RSA_size`, `RSA_public_encrypt` and `RSA_private_decrypt` with RSA_PKCS1_OAEP_PADDING: `none` is -1.
pub record RsaLibrary (Rsa : Type 0) : Type 0 where
  pub size : Rsa → ℕ
  pub public_encrypt : Rsa → List ℕ → Option (List ℕ)
  pub private_decrypt : Rsa → List ℕ → Option (List ℕ)

-- What `rsa_crypt` leaves: its result, `*destlen`, and the bytes written to `dest`.
pub record RsaCrypt : Type 0 where
  pub result : NyxError
  pub destlen : ℤ
  pub dest : List ℕ

module _ {Rsa : Type 0} (lib : RsaLibrary Rsa) where
  -- The end of `rsa_crypt`.
  unfoldable pub rsa_result : Option (List ℕ) → RsaCrypt
  rsa_result none = record { result = generic; destlen = negsuc 0; dest = [] }
  rsa_result (some bytes) = record { result = ok; destlen = pos (length bytes); dest = bytes }

  -- "RSA_PKCS1_OAEP_PADDING limit"
  unfoldable pub is_too_big : Rsa → List ℕ → Bool
  is_too_big key src = not (ltb_ℤ (pos (length src)) (pos (lib.size key) -ℤ pos 41))

  unfoldable pub rsa_crypt_with : Option (RsaKey Rsa) → Bool → List ℕ → ℤ → RsaCrypt
  unfolding rsa_result
  rsa_crypt_with none encrypt src destlen = record {
    result = invalid_value;
    destlen = destlen;
    dest = [];
  }
  rsa_crypt_with (some k) true src destlen =
      if is_too_big k.rsa src
      then record { result = invalid_value; destlen = destlen; dest = [] }
      else rsa_result (lib.public_encrypt k.rsa src)
  rsa_crypt_with (some k) false src destlen = rsa_result (lib.private_decrypt k.rsa src)

  -- `rsa_crypt`
  unfoldable pub rsa_crypt : Table (RsaKey Rsa) → ℤ → Bool → List ℕ → ℤ → RsaCrypt
  unfolding rsa_crypt_with
  rsa_crypt t index encrypt src destlen =
      rsa_crypt_with (keystore_key_lookup t index) encrypt src destlen

module _ {Rsa : Type 0} where
  -- `rsa_generate_key`, with the success of `g_malloc`, the result of `RSA_generate_key_ex` and the key that it
  -- leaves: the table, the result and the index, or `none` if the search for an index is not over.
  unfoldable pub rsa_generate_key :
      Bool → ℤ → Rsa → Table (RsaKey Rsa) → ℤ → ℤ → Option (Table (RsaKey Rsa) × NyxError × ℤ)
  rsa_generate_key memory generated rsa t keylen index =
      if not (keylen ==ℤ pos 2048 || keylen ==ℤ pos 4096)
      then some (t, invalid_value, index)
      else if not memory
      then some (t, out_of_memory, index)
      else if generated ==ℤ negsuc 0
      then some (t, generic, index)
      else map (λ (r : Table (RsaKey Rsa) × ℤ). (r.0, ok, r.1))
          (keystore_key_replace t (record { keylen = keylen; rsa = rsa }) index)
