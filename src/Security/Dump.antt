-- ===== src/Security/Dump.antt =====
-- keystore.c: what the dump of the keys prints, at the end of the module.
pub mod Printed
mod Examples
use nyx_modules.Base.{
  Text, ℕ, zero, suc, ◌+◌, ◌/◌, ◌%◌, ℤ, pos_part, ltb, if◌then◌else◌, List, [], ◌∷◌, ◌++◌, Option,
  none, some,
}
use nyx_modules.Security.Keystore.{Table}
use nyx_modules.Security.Aes.{AesKey}
use nyx_modules.Security.Rsa.{RsaKey}
use nyx_modules.Security.KeyFile.{Store}

-- "AES: keylen: ", ", key: ", "RSA: keylen: " and ", privkey:" with a line feed
abbrev pub aes_keylen : Text
aes_keylen = 65 ∷ 69 ∷ 83 ∷ 58 ∷ 32 ∷ 107 ∷ 101 ∷ 121 ∷ 108 ∷ 101 ∷ 110 ∷ 58 ∷ 32 ∷ []

abbrev pub aes_key : Text
aes_key = 44 ∷ 32 ∷ 107 ∷ 101 ∷ 121 ∷ 58 ∷ 32 ∷ []

abbrev pub rsa_keylen : Text
rsa_keylen = 82 ∷ 83 ∷ 65 ∷ 58 ∷ 32 ∷ 107 ∷ 101 ∷ 121 ∷ 108 ∷ 101 ∷ 110 ∷ 58 ∷ 32 ∷ []

abbrev pub rsa_key : Text
rsa_key = 44 ∷ 32 ∷ 112 ∷ 114 ∷ 105 ∷ 118 ∷ 107 ∷ 101 ∷ 121 ∷ 58 ∷ 10 ∷ []

-- `printf("%02X", byte)`
unfoldable pub hex_digit : ℕ → ℕ
hex_digit n = if ltb n 10 then 48 + n else 55 + n

unfoldable pub print_byte : ℕ → Text
unfolding hex_digit
print_byte b = hex_digit (b / 16) ∷ hex_digit (b % 16) ∷ []

-- The loop over a number of bytes; `none` reads bytes that are not in use.
unfoldable pub print_bytes : ℕ → List ℕ → Option Text
unfolding print_byte
print_bytes zero key = some []
print_bytes (suc n) [] = none
print_bytes (suc n) (b ∷ key) = elim (print_bytes n key) [
  | none ↦ none
  | some rest ↦ some (print_byte b ++ rest)
]

abbrev pub join : Option Text → Option Text → Option Text
join none t = none
join (some s) none = none
join (some s) (some t) = some (s ++ t)

-- `g_hash_table_foreach` in the order of the table, with what is printed of a key.
unfoldable pub print_table : {V : Type 0} → (V → Option Text) → Table V → Option Text
print_table print [] = some []
print_table print ((i, k) ∷ t) = join (print k) (print_table print t)

-- The functions are given `printf` of a number and PEM_write_bio_RSAPrivateKey.
module _ {Rsa : Type 0} (decimal : ℤ → Text) (pem : Rsa → Text) where
  -- `aeskey_hexdump`
  unfoldable pub aeskey_hexdump : AesKey → Option Text
  unfolding print_bytes
  aeskey_hexdump k =
      join (some (aes_keylen ++ (decimal k.keylen ++ aes_key)))
        (join (print_bytes (pos_part k.keylen / 8) k.key) (some (10 ∷ [])))

  -- `rsakey_hexdump`
  unfoldable pub rsakey_hexdump : RsaKey Rsa → Option Text
  rsakey_hexdump k =
      some (rsa_keylen ++ (decimal k.keylen ++ (rsa_key ++ (pem k.rsa ++ (10 ∷ [])))))

  -- `keystore_dump`, which `nyx_module_close` calls first.
  unfoldable pub keystore_dump : Store Rsa → Option Text
  unfolding print_table aeskey_hexdump rsakey_hexdump
  keystore_dump s = join (print_table aeskey_hexdump s.aes) (print_table rsakey_hexdump s.rsa)
