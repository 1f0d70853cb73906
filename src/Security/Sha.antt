-- ===== src/Security/Sha.antt =====
-- sha.c: the hash that is under way. OpenSSL is a parameter.
use nyx_modules.Base.{ℕ, Bool, List, [], Option, none, some, if◌then◌else◌}
use Prim.Native.String.{String}
use text.Mathlib.Text.{◌==◌ as str_eq}
use nyx_modules.Nyx.{NyxError, ok, generic, invalid_value}

-- The hashes of `sha_algo_data`.
pub data Hash : Type 0 where
  sha256 sha512 : Hash

-- `sha_algo_data_lookup`, with the names that OpenSSL has for SN_sha256 and SN_sha512.
unfoldable pub sha_algo_data_lookup : String → Option Hash
sha_algo_data_lookup name =
    if str_eq "SHA256" name then some sha256 else if str_eq "SHA512" name then some sha512 else none

-- The digests of OpenSSL on a type of contexts: `none` is an error, for a final call with the context that
-- it leaves, since `EVP_DigestInit_ex` and `EVP_DigestUpdate` also leave one.
pub record Digest (Ctx : Type 0) : Type 0 where
  pub create : Ctx
  pub init : Ctx → Hash → Ctx × Bool
  pub update : Ctx → List ℕ → Ctx × Bool
  pub final : Ctx → Ctx × Option (List ℕ)

module _ {Ctx : Type 0} (md : Digest Ctx) where
  -- `sha_init`, on `running_mdctx` with NULL as `none`.
  unfoldable pub begin_hash : Option Hash → Option Ctx → Option Ctx × NyxError
  begin_hash none running = (running, invalid_value)
  begin_hash (some h) running =
      let (c, success) = md.init md.create h in (some c, if success then ok else generic)

  unfoldable pub sha_init : String → Option Ctx → Option Ctx × NyxError
  unfolding begin_hash
  sha_init name running = begin_hash (sha_algo_data_lookup name) running

  unfoldable pub sha_update : List ℕ → Option Ctx → Option Ctx × NyxError
  sha_update src none = (none, invalid_value)
  sha_update src (some c) =
      let (c', success) = md.update c src in (some c', if success then ok else generic)

  -- `sha_finalize`: the context, the result and the bytes written.
  unfoldable pub finish : Ctx × Option (List ℕ) → Option Ctx × NyxError × List ℕ
  finish (c, none) = (some c, generic, [])
  finish (c, some bytes) = (none, ok, bytes)

  unfoldable pub sha_finalize : Option Ctx → Option Ctx × NyxError × List ℕ
  unfolding finish
  sha_finalize none = (none, invalid_value, [])
  sha_finalize (some c) = finish (md.final c)
