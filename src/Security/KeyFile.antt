-- ===== src/Security/KeyFile.antt =====
-- keystore.c: the key store as a `GKeyFile`. A text is the list of its bytes. The parts of GLib, libc and
-- OpenSSL that print, parse and encode are a parameter.
use nyx_modules.Base.{
  Text, text_eq, ℕ, ◌*◌, ◌/◌, ℤ, pos, pos_part, ◌==ℤ◌, Bool, if◌then◌else◌, List, [], ◌∷◌, Option,
  none, some, length, take, map,
}
use mathlib.Core.Option
use nyx_modules.Nyx.{NyxError, ok, generic}
use nyx_modules.Security.Keystore.{Table, keystore_key_replace}
use nyx_modules.Security.Aes.{AesKey}
use nyx_modules.Security.Rsa.{RsaKey}

-- One group of a `GKeyFile`: each key with its list of strings.
abbrev pub Group : Type 0
Group = List (Text × List Text)

-- `g_key_file_get_string_list`, which gives no strings for a key that is not there.
unfoldable pub get_string_list : Group → Text → List Text
get_string_list [] key = []
get_string_list ((k, l) ∷ g) key = if text_eq k key then l else get_string_list g key

-- `g_key_file_set_string_list`, which replaces what the key has or adds it at the end.
unfoldable pub set_string_list : Group → Text → List Text → Group
set_string_list [] key l = (key, l) ∷ []
set_string_list ((k, m) ∷ g) key l =
    let rest = set_string_list g key l in if text_eq k key then (key, l) ∷ g else (k, m) ∷ rest

-- `g_key_file_get_keys`
unfoldable pub get_keys : Group → List Text
get_keys g = map (λ (e : Text × List Text). e.0) g

pub record KeyFile : Type 0 where
  pub aes : Group
  pub rsa : Group

-- "%d", `atoi`, `g_base64_encode`, `g_base64_decode`, `i2d_RSAPrivateKey` and `d2i_RSAPrivateKey`.
pub record Codec (Rsa : Type 0) : Type 0 where
  pub decimal : ℤ → Text
  pub atoi : Text → ℤ
  pub base64_encode : List ℕ → Text
  pub base64_decode : Text → List ℕ
  pub i2d : Rsa → List ℕ
  pub d2i : List ℕ → Option Rsa

-- `struct keystore_t`
pub record Store (Rsa : Type 0) : Type 0 where
  pub aes : Table AesKey
  pub rsa : Table (RsaKey Rsa)

-- The walk of `g_hash_table_foreach` with a function that saves, by the strings of a key.
unfoldable pub save_group {ℓ} :
    {V : Type ℓ} → (ℤ → Text) → (V → List Text) → Table V → Group → Group
save_group decimal strings [] g = g
save_group decimal strings ((index, key) ∷ t) g =
    save_group decimal strings t (set_string_list g (decimal index) (strings key))

-- What a function that loads makes of the strings of a key: it aborts, it leaves the key out, or it stores it.
pub data Loaded {ℓ} (V : Type ℓ) : Type ℓ where
  aborted left_out : Loaded V
  key : V → Loaded V

-- It is stored at the index that the key of the group says; `none` is an abort.
unfoldable pub store_loaded {ℓ} : {V : Type ℓ} → Loaded V → ℤ → Table V → Option (Table V)
store_loaded aborted index t = none
store_loaded left_out index t = some t
store_loaded (key k) index t =
    Option.map (λ (r : Table _ × ℤ). r.0) (keystore_key_replace t k index)

-- The loop over the keys of a group.
unfoldable pub load_group {ℓ} :
    {V : Type ℓ}
    → (Text → ℤ)
    → (List Text → Loaded V)
    → Group
    → List Text
    → Table V
    → Option (Table V)
load_group atoi loaded g [] t = some t
load_group atoi loaded g (k ∷ ks) t =
    elim (store_loaded (loaded (get_string_list g k)) (atoi k) t) [
      | none ↦ none
      | some t' ↦ load_group atoi loaded g ks t'
    ]

module _ {Rsa : Type 0} (c : Codec Rsa) where
  -- The strings of `keystore_save_aeskey` and `keystore_save_rsakey`.
  unfoldable pub aes_strings : AesKey → List Text
  aes_strings k = c.decimal k.keylen ∷ c.base64_encode (take (pos_part k.keylen / 8) k.key) ∷ []

  unfoldable pub rsa_strings : RsaKey Rsa → List Text
  rsa_strings k = c.decimal k.keylen ∷ c.base64_encode (c.i2d k.rsa) ∷ []

  -- `keystore_load_aeskey`: the lengths are asserted to agree.
  unfoldable pub aes_loaded : List Text → Loaded AesKey
  aes_loaded (n ∷ b ∷ []) =
      let bits = c.base64_decode b in
      if c.atoi n ==ℤ pos (length bits * 8)
      then key (record { keylen = c.atoi n; key = bits })
      else aborted
  aes_loaded _ = left_out

  -- `keystore_load_rsakey`
  unfoldable pub rsa_decoded : ℤ → Option Rsa → Loaded (RsaKey Rsa)
  rsa_decoded n none = left_out
  rsa_decoded n (some rsa) = key (record { keylen = n; rsa = rsa })

  unfoldable pub rsa_loaded : List Text → Loaded (RsaKey Rsa)
  rsa_loaded (n ∷ b ∷ []) = rsa_decoded (c.atoi n) (c.d2i (c.base64_decode b))
  rsa_loaded _ = left_out

  -- `keystore_save`: what is written to the file.
  unfoldable pub keystore_save : Store Rsa → KeyFile
  keystore_save s = record {
    aes = save_group c.decimal aes_strings s.aes [];
    rsa = save_group c.decimal rsa_strings s.rsa [];
  }

  unfoldable pub with_rsa :
      Table AesKey → Option (Table (RsaKey Rsa)) → Option (Store Rsa × NyxError)
  with_rsa aes none = none
  with_rsa aes (some rsa) = some (record { aes = aes; rsa = rsa }, ok)

  unfoldable pub load_rsa :
      KeyFile → Store Rsa → Option (Table AesKey) → Option (Store Rsa × NyxError)
  load_rsa f s none = none
  load_rsa f s (some aes) = with_rsa aes (load_group c.atoi rsa_loaded f.rsa (get_keys f.rsa) s.rsa)

  -- `keystore_load`, by whether the file exists and what `g_key_file_load_from_file` makes of it; `none` is an
  -- abort.
  unfoldable pub load_file : Option KeyFile → Store Rsa → Option (Store Rsa × NyxError)
  load_file none s = some (s, generic)
  load_file (some f) s = load_rsa f s (load_group c.atoi aes_loaded f.aes (get_keys f.aes) s.aes)

  unfoldable pub keystore_load : Bool → Option KeyFile → Store Rsa → Option (Store Rsa × NyxError)
  keystore_load exists file s = if exists then load_file file s else some (s, ok)
