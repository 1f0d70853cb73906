-- ===== src/Security/Device.antt =====
-- security.c: the opening and the closing of the module, and the end of a hash. A device is its address, 0 for
-- NULL.
use nyx_modules.Base.{
  Text, ◌++◌, ℕ, not, ◌==◌, Bool, true, false, if◌then◌else◌, List, [], ◌∷◌, Option, none, some,
}
use nyx_modules.Nyx.{NyxError, ok, is_ok, invalid_value, out_of_memory}
use nyx_modules.Security.KeyFile.{Codec, Store, KeyFile, keystore_save, keystore_load}
use nyx_modules.Security.Sha.{Digest, sha_finalize}

-- The methods that are registered.
pub data SecurityMethod : Type 0 where
  create_aes_key create_rsa_key crypt_aes crypt_rsa init_hash update_hash finalize_hash :
      SecurityMethod

abbrev pub security_methods : List SecurityMethod
security_methods =
    create_aes_key ∷ create_rsa_key ∷ crypt_aes ∷ crypt_rsa ∷ init_hash ∷ update_hash
    ∷ finalize_hash ∷ []

-- The loop that registers them, by what `nyx_module_register_method` returns for each.
unfoldable pub register_all : (SecurityMethod → NyxError) → List SecurityMethod → NyxError
register_all register [] = ok
register_all register (m ∷ ms) =
    let rest = register_all register ms in if is_ok (register m) then rest else register m

-- What a call of `nyx_module_open` leaves: its result, `*d`, whether that device has been freed, and the key
-- store, with `none` for one that is destroyed or was not made by this call.
pub record Opened (Rsa : Type 0) : Type 0 where
  pub result : NyxError
  pub device : ℕ
  pub freed : Bool
  pub keystore : Option (Store Rsa)

module _ {Rsa : Type 0} where
  abbrev pub no_keys : Store Rsa
  no_keys = record { aes = []; rsa = [] }

  -- `keystore_init`, by whether the two tables are made; `none` is a store that lacks one.
  unfoldable pub keystore_init : Bool → Bool → Option (Store Rsa) × NyxError
  keystore_init aes_made rsa_made =
      if not aes_made
      then (none, out_of_memory)
      else if not rsa_made
      then (none, out_of_memory)
      else (some no_keys, ok)

  -- The end of `nyx_module_open`, on what loading gives; `none` is an abort.
  unfoldable pub opened : ℕ → Option (Store Rsa × NyxError) → Option (Opened Rsa)
  opened memory none = none
  opened memory (some (s, result)) =
      if is_ok result
      then some (record { result = result; device = memory; freed = false; keystore = some s })
      else some (record { result = result; device = memory; freed = true; keystore = none })

module _ {Rsa : Type 0} (c : Codec Rsa) where
  unfoldable pub initialized :
      ℕ → Bool → Option KeyFile → Option (Store Rsa) × NyxError → Option (Opened Rsa)
  initialized memory exists file (none, result) =
      some (record { result = result; device = memory; freed = true; keystore = none })
  initialized memory exists file (some s, result) = opened memory (keystore_load c exists file s)

  -- `nyx_module_open`, by the address that `calloc` returns, what the registration of each method returns, the
  -- tables that are made, and the file. `d` is `none` for NULL, and else what `*d` is.
  unfoldable pub nyx_module_open :
      ℕ
      → (SecurityMethod → NyxError)
      → Bool
      → Bool
      → Bool
      → Option KeyFile
      → Option ℕ
      → Option (Opened Rsa)
  nyx_module_open memory register aes_made rsa_made exists file none =
      some (record { result = invalid_value; device = 0; freed = false; keystore = none })
  nyx_module_open memory register aes_made rsa_made exists file (some device) =
      let registered = register_all register security_methods in
      if not (device == 0)
      then some (record { result = invalid_value; device = device; freed = false; keystore = none })
      else if memory == 0
      then some (record { result = out_of_memory; device = 0; freed = false; keystore = none })
      else if not (is_ok registered)
      then some (record { result = registered; device = memory; freed = false; keystore = none })
      else initialized memory exists file (keystore_init aes_made rsa_made)

  -- `nyx_module_close`, by whether the directory is made and the file is written: whether the file exists
  -- afterwards, and what it holds.
  unfoldable pub nyx_module_close :
      Bool → Bool → Option KeyFile → Store Rsa → Bool × Option KeyFile × NyxError
  nyx_module_close written exists file s =
      if written then (true, some (keystore_save c s), ok) else (exists, file, ok)

-- `security_finalize_hash`: what is written to `dest` is the digest, and in its place the encoded digest and a
-- NUL if there is no error.
module _ {Ctx : Type 0} (md : Digest Ctx) (base64_encode : List ℕ → Text) where
  unfoldable pub encode_digest : Option Ctx × NyxError × List ℕ → Option Ctx × NyxError × List ℕ
  encode_digest (running, result, bytes) =
      if is_ok result
      then (running, result, base64_encode bytes ++ (0 ∷ []))
      else (running, result, bytes)

  unfoldable pub security_finalize_hash : Option Ctx → Option Ctx × NyxError × List ℕ
  security_finalize_hash running = encode_digest (sha_finalize md running)
