-- ===== src/Security/Calls.antt =====
-- security.c: the methods of the module as one machine over its key store and the hash that is under way.
use nyx_modules.Base.{Text, ℕ, ℤ, Bool, List, [], ◌∷◌, Option, none, some}
use mathlib.Core.Option
use Prim.Native.String.{String}
use nyx_modules.Nyx.{NyxError}
use nyx_modules.Security.Keystore.{Table}
use nyx_modules.Security.Aes.{AesKey, BlockMode, Evp, Crypt, aes_generate_key, aes_crypt}
use nyx_modules.Security.Rsa.{RsaKey, RsaLibrary, RsaCrypt, rsa_generate_key, rsa_crypt}
use nyx_modules.Security.Sha.{Digest, sha_init, sha_update}
use nyx_modules.Security.KeyFile.{Store}
use nyx_modules.Security.Device.{security_finalize_hash}

-- The calls that make and use keys, with what the memory, the random bytes and OpenSSL answer.
pub data KeyCall (Rsa : Type 0) : Type 0 where
  create_aes : Bool → Option (List ℕ) → ℤ → ℤ → KeyCall Rsa
  create_rsa : Bool → ℤ → Rsa → ℤ → ℤ → KeyCall Rsa
  crypt_aes : Option (List ℕ) → ℤ → Bool → BlockMode → List ℕ → ℤ → ℤ → KeyCall Rsa
  crypt_rsa : ℤ → Bool → List ℕ → ℤ → KeyCall Rsa

pub data HashCall : Type 0 where
  init_hash : String → HashCall
  update_hash : List ℕ → HashCall
  finalize_hash : HashCall

pub data SecurityCall (Rsa : Type 0) : Type 0 where
  on_keys : KeyCall Rsa → SecurityCall Rsa
  on_hash : HashCall → SecurityCall Rsa

-- `keystore` and `running_mdctx`
pub record SecurityState (Rsa Ctx : Type 0) : Type 0 where
  pub keystore : Store Rsa
  pub running : Option Ctx

module _ {Rsa : Type 0} where
  -- `security_create_aes_key` and `security_create_rsa_key`: the store, the result and the index.
  unfoldable pub security_create_aes_key :
      Bool → Option (List ℕ) → Store Rsa → ℤ → ℤ → Option (Store Rsa × NyxError × ℤ)
  security_create_aes_key memory random s keylen index =
      Option.map (λ (r : Table AesKey × NyxError × ℤ). (record s { aes = r.0 }, r.1, r.2))
        (aes_generate_key memory random s.aes keylen index)

  unfoldable pub security_create_rsa_key :
      Bool → ℤ → Rsa → Store Rsa → ℤ → ℤ → Option (Store Rsa × NyxError × ℤ)
  security_create_rsa_key memory generated rsa s keylen index =
      Option.map (λ (r : Table (RsaKey Rsa) × NyxError × ℤ). (record s { rsa = r.0 }, r.1, r.2))
        (rsa_generate_key memory generated rsa s.rsa keylen index)

  -- `security_aes_crypt` and `security_rsa_crypt` read the store.
  unfoldable pub security_aes_crypt :
      Evp → Option (List ℕ) → Store Rsa → ℤ → BlockMode → Bool → List ℕ → ℤ → ℤ → Option Crypt
  security_aes_crypt evp random s index mode encrypt src destlen ivlen =
      aes_crypt evp random s.aes index encrypt mode src destlen ivlen

  unfoldable pub security_rsa_crypt : RsaLibrary Rsa → Store Rsa → ℤ → Bool → List ℕ → ℤ → RsaCrypt
  security_rsa_crypt lib s index encrypt src destlen = rsa_crypt lib s.rsa index encrypt src destlen

  -- The store after a call; `none` is a search for an index that is not over, or the failed assertion of
  -- `aes_crypt`.
  unfoldable pub key_step : Evp → KeyCall Rsa → Store Rsa → Option (Store Rsa)
  key_step evp (create_aes memory random keylen index) s =
      Option.map (λ (r : Store Rsa × NyxError × ℤ). r.0)
        (security_create_aes_key memory random s keylen index)
  key_step evp (create_rsa memory generated rsa keylen index) s =
      Option.map (λ (r : Store Rsa × NyxError × ℤ). r.0)
        (security_create_rsa_key memory generated rsa s keylen index)
  key_step evp (crypt_aes random index encrypt mode src destlen ivlen) s =
      Option.map (λ (r : Crypt). s)
        (security_aes_crypt evp random s index mode encrypt src destlen ivlen)
  key_step evp (crypt_rsa index encrypt src destlen) s = some s

module _ {Ctx : Type 0} (md : Digest Ctx) (base64_encode : List ℕ → Text) where
  -- `security_init_hash`, `security_update_hash` and `security_finalize_hash`: the hash that is under way then.
  unfoldable pub hash_step : HashCall → Option Ctx → Option Ctx
  hash_step (init_hash name) running = (sha_init md name running).0
  hash_step (update_hash src) running = (sha_update md src running).0
  hash_step finalize_hash running = (security_finalize_hash md base64_encode running).0

module _ {Rsa Ctx : Type 0} (evp : Evp) (md : Digest Ctx) (base64_encode : List ℕ → Text) where
  unfoldable pub security_step :
      SecurityCall Rsa → SecurityState Rsa Ctx → Option (SecurityState Rsa Ctx)
  security_step (on_keys k) s =
      Option.map (λ (t : Store Rsa). record s { keystore = t }) (key_step evp k s.keystore)
  security_step (on_hash h) s = some (record s { running = hash_step md base64_encode h s.running })

  unfoldable pub security_run :
      List (SecurityCall Rsa) → SecurityState Rsa Ctx → Option (SecurityState Rsa Ctx)
  security_run [] s = some s
  security_run (c ∷ cs) s = elim (security_step c s) [ none ↦ none | some s' ↦ security_run cs s' ]
