-- ===== src/Security/Keystore.antt =====
-- keystore.c: the tables of keys. A table of glib is an association list with one entry for an index.
use nyx_modules.Base.{
  ℕ, suc, zero, ℤ, pos, negsuc, ◌==ℤ◌, if◌then◌else◌, List, [], ◌∷◌, Option, none, some, is_some,
  length,
}

abbrev pub Table {ℓ} : Type ℓ → Type ℓ
Table V = List (ℤ × V)

-- `keystore_key_lookup`, which is `g_hash_table_lookup`, with NULL as `none`
unfoldable pub keystore_key_lookup {ℓ} : {V : Type ℓ} → Table V → ℤ → Option V
keystore_key_lookup [] i = none
keystore_key_lookup ((j, k) ∷ t) i = if j ==ℤ i then some k else keystore_key_lookup t i

unfoldable pub remove {ℓ} : {V : Type ℓ} → Table V → ℤ → Table V
remove [] i = []
remove ((j, k) ∷ t) i = let rest = remove t i in if j ==ℤ i then rest else (j, k) ∷ rest

-- `g_hash_table_replace`
unfoldable pub replace {ℓ} : {V : Type ℓ} → Table V → ℤ → V → Table V
replace t i k = (i, k) ∷ remove t i

-- The loop of `keystore_key_replace` for the next free index, with fuel: `none` is a loop that is not over.
unfoldable pub free_index {ℓ} : {V : Type ℓ} → ℕ → ℕ → Table V → Option ℕ
free_index zero i t = none
free_index (suc fuel) i t =
    let rest = free_index fuel (suc i) t in
    if is_some (keystore_key_lookup t (pos i)) then rest else some i

-- The new key is put where the search has ended.
unfoldable pub put_at {ℓ} : {V : Type ℓ} → Table V → V → Option ℕ → Option (Table V × ℤ)
put_at t key none = none
put_at t key (some i) = some (replace t (pos i) key, pos i)

-- `keystore_key_replace`: the table and the index, or `none` if the fuel does not suffice.
unfoldable pub keystore_key_replace {ℓ} : {V : Type ℓ} → Table V → V → ℤ → Option (Table V × ℤ)
unfolding put_at
keystore_key_replace t key index =
    if index ==ℤ negsuc 0
    then put_at t key (free_index (suc (length t)) 0 t)
    else some (replace t index key, index)
