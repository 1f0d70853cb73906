-- ===== src/Security/Hashing.antt =====
-- sha.c: a text that is hashed in parts.
use nyx_modules.Base.{ℕ, List, [], ◌∷◌, ◌++◌, Option, none, some, ◌≡◌, refl, sym, ap, ◌∙◌}
use mathlib.Core.Option.{none-ne-some, some-injective}
use Prim.Native.String.{String}
use nyx_modules.Nyx.{NyxError, ok, invalid_value}
use nyx_modules.Security.Sha.{
  Hash, Digest, sha_algo_data_lookup, begin_hash, sha_init, sha_update, finish, sha_finalize,
}

module _ {Ctx : Type 0} (md : Digest Ctx) where
  -- A client of the module: a call of `sha_update` for each part.
  unfoldable pub update_all : List (List ℕ) → Option Ctx → Option Ctx
  update_all [] running = running
  update_all (p ∷ ps) running = update_all ps ((sha_update md p running).0)

  -- A whole hash: the context, the result of the last call and the bytes.
  unfoldable pub hash_parts : String → List (List ℕ) → Option Ctx → Option Ctx × NyxError × List ℕ
  hash_parts name ps running = sha_finalize md (update_all ps ((sha_init md name running).0))

  -- What OpenSSL says of a digest: an update with a text does what updates with its parts do.
  unfoldable pub IsIncremental : Type 0
  IsIncremental =
      (c : Ctx) (a b : List ℕ)
      → ((md.update c []).0 ≡ c) × ((md.update ((md.update c a).0) b).0 ≡ (md.update c (a ++ b)).0)

  unfoldable pub concat : List (List ℕ) → List ℕ
  concat [] = []
  concat (p ∷ ps) = p ++ concat ps

  update_all_lem :
      IsIncremental
      → (ps : List (List ℕ)) (c : Ctx) → update_all ps (some c) ≡ some ((md.update c (concat ps)).0)
  unfolding update_all concat IsIncremental sha_update
  update_all_lem law [] c = ap (λ (c : Ctx). some c) (sym ((law c [] []).0))
  update_all_lem law (p ∷ ps) c =
      update_all_lem law ps ((md.update c p).0) ∙ ap (λ (c : Ctx). some c) ((law c p (concat ps)).1)

  pub finish_ok :
      (r : Ctx × Option (List ℕ)) (bytes : List ℕ)
      → r.1 ≡ some bytes
      → finish md r ≡ (none, ok, bytes)
  unfolding finish
  finish_ok (c, none) bytes h = absurd (none-ne-some bytes h)
  finish_ok (c, some b) bytes h = ap (λ (b : List ℕ). (none, ok, b)) (some-injective b bytes h)

  -- A text that is hashed in parts, with a name that the module knows and whatever hash has been under
  -- way, gives what OpenSSL gives for the whole text after its initialisation; if that succeeds no hash is
  -- under way afterwards, and a further part or a second end of the hash is an error.
  pub hash_parts_lem :
      IsIncremental
      → (name : String) (h : Hash) (ps : List (List ℕ)) (running : Option Ctx)
      → sha_algo_data_lookup name ≡ some h
      → (bytes : List ℕ)
      → (md.final ((md.update ((md.init md.create h).0) (concat ps)).0)).1 ≡ some bytes
      → (hash_parts name ps running ≡ (none, ok, bytes))
        × ((p : List ℕ)
            → (sha_update md p ((hash_parts name ps running).0)) ≡ (none, invalid_value))
        × (sha_finalize md ((hash_parts name ps running).0) ≡ (none, invalid_value, []))
  unfolding hash_parts sha_init begin_hash sha_update sha_finalize
  hash_parts_lem law name h ps running known bytes done =
      let whole : hash_parts name ps running ≡ (none, ok, bytes) =
        rw (known, update_all_lem law ps ((md.init md.create h).0)) (finish_ok _ bytes done) in
      rw whole (refl, (λ p. refl), refl)
