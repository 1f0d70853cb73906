-- ===== src/Security/Dump/Examples.antt =====
-- A store with two AES keys, and the theorem at it.
use nyx_modules.Base.{Text, ℕ, ◌<◌, pos, [], ◌∷◌, ◌++◌, some, ◌≡◌, refl, arith}
use nyx_modules.Security.Aes.{AesKey}
use nyx_modules.Security.Keystore.{keystore_key_lookup}
use nyx_modules.Security.KeyFile.{Store}
use nyx_modules.Security.Dump.{keystore_dump, print_bytes}
use nyx_modules.Security.Dump.Printed.{read_bytes, IsWhole, headline, dump_lem}

-- Keys of 16 bits are short enough to be written here.
abbrev key : ℕ → AesKey
key b = record { keylen = pos 16; key = b ∷ 255 ∷ [] }

abbrev two_keys : Store ℕ
two_keys = record { aes = (pos 0, key 18) ∷ (pos 1, key 171) ∷ []; rsa = [] }

key-IsWhole : (b : ℕ) → b < 256 → IsWhole (key b)
key-IsWhole b h = record { counted = refl; bytes = (h, (omega arith, tt)) }

lookup_second : keystore_key_lookup two_keys.aes (pos 1) ≡ some (key 171)
unfolding keystore_key_lookup
lookup_second = refl

dump_lem_example :
    (before text : Text) × (keystore_dump (λ n. []) (λ r. []) two_keys
      ≡ some (before ++ (headline (λ n. []) (λ (r : ℕ). []) (key 171) ++ text)))
    × (read_bytes text ≡ 171 ∷ 255 ∷ [])
dump_lem_example =
    dump_lem (λ n. []) (λ r. []) two_keys (pos 1) (key 171)
      (key-IsWhole 18 (omega arith), (key-IsWhole 171 (omega arith), tt)) lookup_second

-- "ABFF"
printed_lem : print_bytes 2 (171 ∷ 255 ∷ []) ≡ some (65 ∷ 66 ∷ 70 ∷ 70 ∷ [])
unfolding print_bytes
printed_lem = refl
