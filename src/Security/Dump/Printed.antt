-- ===== src/Security/Dump/Printed.antt =====
-- keystore.c: the keys can be read from what the dump prints.
use nyx_modules.Base.{
  Text, ℕ, ◌+◌, ◌-◌, ◌*◌, ◌/◌, ◌%◌, ◌<◌, ◌==◌, ltb, ℤ, pos_part, ◌==ℤ◌, false, if◌then◌else◌,
  Bool-cases, All, List, [], ◌∷◌, ◌++◌, length, Option, some, ◌≡◌, refl, sym, ap, ◌∙◌, inl, inr,
  arith,
}
use mathlib.Core.Option.{none-ne-some, some-injective}
use mathlib.Core.Path.{subst}
use mathlib.Core.List.{append_assoc, append-nil}
use nyx_modules.Security.Keystore.{Table, keystore_key_lookup}
use nyx_modules.Security.Aes.{AesKey}
use nyx_modules.Security.Rsa.{RsaKey}
use nyx_modules.Security.KeyFile.{Store}
use nyx_modules.Security.Dump.{
  aes_keylen, aes_key, rsa_keylen, rsa_key, hex_digit, print_byte, print_bytes, join, print_table,
  aeskey_hexdump, rsakey_hexdump, keystore_dump,
}

-- The bytes of pairs of hexadecimal digits, up to a line feed.
unfoldable pub read_digit : ℕ → ℕ
read_digit c = if ltb c 65 then c - 48 else c - 55

unfoldable pub read_bytes : Text → List ℕ
unfolding read_digit
read_bytes [] = []
read_bytes (h ∷ []) = []
read_bytes (h ∷ l ∷ rest) =
    let more = read_bytes rest in if h == 10 then [] else (read_digit h * 16 + read_digit l) ∷ more

digit_lem : (n : ℕ) → n < 16 → read_digit (hex_digit n) ≡ n
unfolding read_digit hex_digit
digit_lem n h = ground arith

digit-ne : (n : ℕ) → (hex_digit n == 10) ≡ false
unfolding hex_digit
digit-ne n = ground arith

byte_lem : (b : ℕ) (rest : Text) → b < 256 → read_bytes (print_byte b ++ rest) ≡ b ∷ read_bytes rest
unfolding read_bytes print_byte
byte_lem b rest h =
    rw (digit-ne (b / 16), digit_lem (b / 16) (omega arith), digit_lem (b % 16) (omega arith))
      (ap (λ (n : ℕ). n ∷ read_bytes rest) (omega arith))

read_end : (rest : Text) → read_bytes (10 ∷ rest) ≡ []
unfolding read_bytes
read_end [] = refl
read_end (c ∷ rest) = refl

print_bytes_lem :
    (key : List ℕ)
    → All (λ (b : ℕ). b < 256) key
    → (text : Text) × (print_bytes (length key) key ≡ some text)
      × ((rest : Text) → read_bytes (text ++ (10 ∷ rest)) ≡ key)
unfolding print_bytes
print_bytes_lem [] h = ([], refl, λ rest. read_end rest)
print_bytes_lem (b ∷ key) h =
    let (text, printed, reads) = print_bytes_lem key h.1 in
    (
      print_byte b ++ text,
      rw printed refl,
      λ rest.
          ap read_bytes (append_assoc (print_byte b) text (10 ∷ rest))
          ∙ byte_lem b (text ++ (10 ∷ rest)) h.0
          ∙ ap (λ (l : List ℕ). b ∷ l) (reads rest),
    )

-- The bytes of a key are as many as its length says.
pub record IsWhole (k : AesKey) : Type 0 where
  pub counted : pos_part k.keylen / 8 ≡ length k.key
  pub bytes : All (λ (b : ℕ). b < 256) k.key

-- All values of a table.
abbrev pub AllKeys : (AesKey → Type 0) → Table AesKey → Type 0
AllKeys P [] = Unit
AllKeys P ((i, k) ∷ t) = P k × AllKeys P t

module _ {Rsa : Type 0} (decimal : ℤ → Text) (pem : Rsa → Text) where
  abbrev pub headline : AesKey → Text
  headline k = aes_keylen ++ (decimal k.keylen ++ aes_key)

  -- Behind its headline a key is printed so that it can be read.
  Reads : AesKey → Text → Type 0
  Reads k text = (rest : Text) → read_bytes (text ++ rest) ≡ k.key

  aeskey_lem :
      (k : AesKey)
      → IsWhole k
      → (text : Text) × (aeskey_hexdump decimal pem k ≡ some (headline k ++ text)) × Reads k text
  unfolding aeskey_hexdump Reads
  aeskey_lem k w =
      let (text, printed, reads) = print_bytes_lem k.key w.bytes in
      (
        text ++ (10 ∷ []),
        rw (w.counted, printed) refl,
        λ rest. ap read_bytes (append_assoc text (10 ∷ []) rest) ∙ reads rest,
      )

  Reads-append : (k : AesKey) (text more : Text) → Reads k text → Reads k (text ++ more)
  unfolding Reads
  Reads-append k text more r rest = ap read_bytes (append_assoc text more rest) ∙ r (more ++ rest)

  aes_table_total :
      (t : Table AesKey)
      → AllKeys IsWhole t
      → (text : Text) × (print_table (aeskey_hexdump decimal pem) t ≡ some text)
  unfolding print_table
  aes_table_total [] w = ([], refl)
  aes_table_total ((i, k) ∷ t) w =
      let (first, printed, reads) = aeskey_lem k w.0 in
      let (rest, more) = aes_table_total t w.1 in
      ((headline k ++ first) ++ rest, rw (printed, more) refl)

  -- The place of a key in what is printed.
  Shows : AesKey → Option Text → Type 0
  Shows k out = (before text : Text) × (out ≡ some (before ++ (headline k ++ text))) × Reads k text

  Shows-before :
      (k : AesKey) (first : Text) (out : Option Text)
      → Shows k out
      → Shows k (join (some first) out)
  unfolding Shows
  Shows-before k first out (before, text, printed, reads) = (
    first ++ before,
    text,
    rw printed (ap (λ (s : Text). some s) (sym (append_assoc first before (headline k ++ text)))),
    reads,
  )

  Shows-after :
      (k : AesKey) (rest : Text) (out : Option Text) → Shows k out → Shows k (join out (some rest))
  unfolding Shows
  Shows-after k rest out (before, text, printed, reads) = (
    before,
    text ++ rest,
    rw printed (
        ap (λ (s : Text). some s)
          (append_assoc before (headline k ++ text) rest
            ∙ ap (λ (s : Text). before ++ s) (append_assoc (headline k) text rest))),
    Reads-append k text rest reads,
  )

  aes_table_lem :
      (t : Table AesKey) (i : ℤ) (k : AesKey)
      → AllKeys IsWhole t
      → keystore_key_lookup t i ≡ some k
      → Shows k (print_table (aeskey_hexdump decimal pem) t)
  unfolding print_table keystore_key_lookup
  aes_table_lem [] i k w h = absurd (none-ne-some k h)
  aes_table_lem ((j, k') ∷ t) i k w h = elim (Bool-cases (j ==ℤ i)) [
    | inl e ↦
        let same : k' ≡ k = some-injective k' k (rw e at h) in
        let (first, printed, reads) = aeskey_lem k' w.0 in
        let (rest, more) = aes_table_total t w.1 in
        let shown : Shows k' (aeskey_hexdump decimal pem k') =
          unfold Shows in ([], first, printed, reads) in
        subst
          (λ (k : AesKey).
            Shows k
              (join (aeskey_hexdump decimal pem k') (print_table (aeskey_hexdump decimal pem) t)))
          same (rw more (Shows-after k' rest (aeskey_hexdump decimal pem k') shown))
    | inr e ↦
        let (first, printed, reads) = aeskey_lem k' w.0 in
        rw printed (
          Shows-before k (headline k' ++ first) (print_table (aeskey_hexdump decimal pem) t)
            (aes_table_lem t i k w.1 (rw e at h)))
  ]

  rsa_total : (k : RsaKey Rsa) → (text : Text) × (rsakey_hexdump decimal pem k ≡ some text)
  unfolding rsakey_hexdump
  rsa_total k = (rsa_keylen ++ (decimal k.keylen ++ (rsa_key ++ (pem k.rsa ++ (10 ∷ [])))), refl)

  rsa_table_total :
      (t : Table (RsaKey Rsa))
      → (text : Text) × (print_table (rsakey_hexdump decimal pem) t ≡ some text)
  unfolding print_table
  rsa_table_total [] = ([], refl)
  rsa_table_total ((i, k) ∷ t) =
      let (first, printed) = rsa_total k in
      let (rest, more) = rsa_table_total t in (first ++ rest, rw (printed, more) refl)

  -- What `nyx_module_close` prints first shows the secrets: for every AES key in the store, when all of
  -- them have as many bytes as their lengths say, there is a headline with its length, and the key can
  -- be read from the hexadecimal digits behind it.
  pub dump_lem :
      (s : Store Rsa) (i : ℤ) (k : AesKey)
      → AllKeys IsWhole s.aes
      → keystore_key_lookup s.aes i ≡ some k
      → (before text : Text) × (keystore_dump decimal pem s ≡ some (before ++ (headline k ++ text)))
        × (read_bytes text ≡ k.key)
  unfolding keystore_dump Shows Reads
  dump_lem s i k w h =
      let (rest, printed) = rsa_table_total s.rsa in
      let (before, text, out, reads) =
        Shows-after k rest (print_table (aeskey_hexdump decimal pem) s.aes)
          (aes_table_lem s.aes i k w h) in
      (before, text, rw printed out, ap read_bytes (sym (append-nil text)) ∙ reads [])
