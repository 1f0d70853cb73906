-- ===== src/Security/RoundTrip.antt =====
-- aes.c: what has been encrypted with a key of the key store is decrypted with it.
use nyx_modules.Base.{
  ℕ, ◌+◌, ℤ, pos, ◌+ℤ◌, ◌-ℤ◌, true, false, List, [], ◌∷◌, ◌++◌, Option, none, some, length, take,
  drop, ◌≡◌, refl, sym, ap, ◌∙◌, arith, length-append,
}
use mathlib.Core.Option.{some-injective}
use mathlib.Core.Bool.{false≢true}
use mathlib.Core.Path.{subst}
use nyx_modules.Nyx.{ok, is_ok}
use nyx_modules.Security.Keystore.{Table}
use nyx_modules.Security.Aes.{
  AesKey, BlockMode, Cipher, AlgoData, Evp, Crypt, aes_block_size, add_final, add_update,
  encrypt_with, decrypt_with, crypt_with, aes_crypt,
}

module _ (evp : Evp) where
  -- What OpenSSL says of a cipher: a text that has been encrypted is decrypted by the same key and the same
  -- initialisation vector.
  unfoldable pub IsInverse : Type 0
  IsInverse =
      (c : Cipher) (key iv src u f : List ℕ)
      → evp.update c key iv true src (pos (length src)) ≡ some u
      → evp.final c key iv true src (pos (length src)) ≡ some f
      → (v : List ℕ) × (w : List ℕ) × (evp.update c key iv false (u ++ f) (pos (length (u ++ f)))
          ≡ some v)
        × (evp.final c key iv false (u ++ f) (pos (length (u ++ f))) ≡ some w)
        × (v ++ w ≡ src)

  add_update_cases :
      (before : List ℕ) (n : ℤ) (u f : Option (List ℕ))
      → (add_update true before n (pos aes_block_size) u f).result ≡ ok
      → (v : List ℕ) × (w : List ℕ) × (u ≡ some v) × (f ≡ some w)
  unfolding add_update add_final
  add_update_cases before n none f h = absurd (false≢true (ap is_ok h))
  add_update_cases before n (some u) none h = absurd (false≢true (ap is_ok h))
  add_update_cases before n (some u) (some f) h = (u, f, refl, refl)

  take-append : (xs ys : List ℕ) → take (length xs) (xs ++ ys) ≡ xs
  take-append [] ys = refl
  take-append (x ∷ xs) ys = ap (λ (t : List ℕ). x ∷ t) (take-append xs ys)

  drop-append : (xs ys : List ℕ) → drop (length xs) (xs ++ ys) ≡ ys
  drop-append [] ys = refl
  drop-append (x ∷ xs) ys = drop-append xs ys

  rest_length : (n : ℕ) → pos (16 + n) -ℤ pos 16 ≡ pos n
  unfolding ◌-ℤ◌
  rest_length n = ground arith

  unfoldable decrypted : List ℕ → Crypt
  decrypted src = record {
    result = ok;
    dest = src;
    destlen = pos (length src);
    ivlen = pos aes_block_size;
  }

  sum_pos : (a b : ℕ) → pos a +ℤ pos b ≡ pos (a + b)
  unfolding ◌+ℤ◌
  sum_pos a b = ground arith

  decrypt_parts :
      (c : Cipher) (key iv u f v w : List ℕ) (m : ℤ)
      → length iv ≡ aes_block_size
      → evp.update c key iv false (u ++ f) (pos (length (u ++ f))) ≡ some v
      → evp.final c key iv false (u ++ f) (pos (length (u ++ f))) ≡ some w
      → decrypt_with evp c key (iv ++ (u ++ f)) m ≡ decrypted (v ++ w)
  unfolding decrypt_with add_update add_final decrypted
  decrypt_parts c key iv u f v w m size ev ew =
      let front : take 16 (iv ++ (u ++ f)) ≡ iv =
        subst (λ (k : ℕ). take k (iv ++ (u ++ f)) ≡ iv) size (take-append iv (u ++ f)) in
      let back : drop 16 (iv ++ (u ++ f)) ≡ u ++ f =
        subst (λ (k : ℕ). drop k (iv ++ (u ++ f)) ≡ u ++ f) size (drop-append iv (u ++ f)) in
      let size : pos (length (iv ++ (u ++ f))) -ℤ pos 16 ≡ pos (length (u ++ f)) =
        ap (λ (k : ℕ). pos k -ℤ pos 16) (omega (arith, length-append iv (u ++ f), size))
        ∙ rest_length (length (u ++ f)) in
      rw (front, back, size, ev, ew) (rw (length-append v w, sum_pos (length v) (length w)) refl)

  length_of_parts :
      (iv u f : List ℕ)
      → length iv ≡ aes_block_size
      → pos (length u) +ℤ pos (length f) +ℤ pos aes_block_size ≡ pos (length (iv ++ (u ++ f)))
  length_of_parts iv u f size =
      let e1 = length-append iv (u ++ f) in
      let e2 = length-append u f in
      rw (sum_pos (length u) (length f), sum_pos (length u + length f) 16)
        (ap pos (omega (arith, e1, e2, size)))

  pub encrypt_parts :
      (c : Cipher) (key iv src u f : List ℕ) (n : ℤ)
      → evp.update c key iv true src (pos (length src)) ≡ some u
      → evp.final c key iv true src (pos (length src)) ≡ some f
      → encrypt_with evp c key (some iv) src n ≡ record {
        result = ok;
        dest = iv ++ (u ++ f);
        destlen = pos (length u) +ℤ pos (length f) +ℤ pos aes_block_size;
        ivlen = pos aes_block_size;
      }
  unfolding encrypt_with add_update add_final
  encrypt_parts c key iv src u f n eu ef = rw (eu, ef) refl

  crypt_cases :
      (k : Option AesKey) (o : Option AlgoData) (iv src : List ℕ) (n l : ℤ) (r : Crypt)
      → crypt_with evp k o (some iv) true src n l ≡ some r
      → r.result ≡ ok
      → (key : AesKey) × (a : AlgoData) × (k ≡ some key)
        × (o ≡ some a)
        × (r ≡ encrypt_with evp a.cipher key.key (some iv) src n)
  unfolding crypt_with
  crypt_cases none o iv src n l r h good =
      absurd
        (false≢true (ap (λ (r : Crypt). is_ok r.result) (some-injective _ r h) ∙ ap is_ok good))
  crypt_cases (some k) none iv src n l r h good =
      absurd
        (false≢true (ap (λ (r : Crypt). is_ok r.result) (some-injective _ r h) ∙ ap is_ok good))
  crypt_cases (some k) (some a) iv src n l r h good = (k, a, refl, refl, sym (some-injective _ r h))

  encrypt_cases :
      (c : Cipher) (key iv src : List ℕ) (n : ℤ)
      → (encrypt_with evp c key (some iv) src n).result ≡ ok
      → (u : List ℕ) × (f : List ℕ) × (evp.update c key iv true src (pos (length src)) ≡ some u)
        × (evp.final c key iv true src (pos (length src)) ≡ some f)
  unfolding encrypt_with
  encrypt_cases c key iv src n h = add_update_cases iv n _ _ h

  -- What an encryption has left is as long as it says, and is decrypted.
  unfoldable IsDecrypted : Cipher → List ℕ → List ℕ → ℤ → Crypt → Type 0
  IsDecrypted c key src m r =
      (decrypt_with evp c key r.dest m ≡ decrypted src)
      × (r.destlen ≡ pos (length r.dest))
      × (r.ivlen ≡ pos aes_block_size)

  encrypt-IsDecrypted :
      IsInverse
      → (c : Cipher) (key iv src : List ℕ) (n m : ℤ) → length iv ≡ aes_block_size
      → (encrypt_with evp c key (some iv) src n).result ≡ ok
      → IsDecrypted c key src m (encrypt_with evp c key (some iv) src n)
  unfolding IsInverse IsDecrypted
  encrypt-IsDecrypted law c key iv src n m size good =
      let (u, f, eu, ef) = encrypt_cases c key iv src n good in
      let (v, w, ev, ew, back) = law c key iv src u f eu ef in
      let d = decrypt_parts c key iv u f v w m size ev ew in
      subst (λ (r : Crypt). IsDecrypted c key src m r)
        (sym (encrypt_parts c key iv src u f n eu ef))
        (d ∙ ap (λ (s : List ℕ). decrypted s) back, length_of_parts iv u f size, refl)

  decrypt_found :
      (ko : Option AesKey) (o : Option AlgoData) (k : AesKey) (a : AlgoData)
      (random : Option (List ℕ)) (src : List ℕ) (m l : ℤ)
      → ko ≡ some k
      → o ≡ some a
      → l ≡ pos aes_block_size
      → crypt_with evp ko o random false src m l ≡ some (decrypt_with evp a.cipher k.key src m)
  unfolding crypt_with
  decrypt_found ko o k a random src m l ek ea el = rw (ek, ea, el) refl

  -- For a cipher that inverts itself: when an encryption with a key of the store and an initialisation vector
  -- of the block size succeeds, what it wrote is as long as it says, and a decryption of that with the same
  -- key index, mode and length of the vector succeeds and gives the source text and its length.
  pub decrypt_encrypted :
      IsInverse
      → (t : Table AesKey) (index : ℤ) (mode : BlockMode) (iv src : List ℕ) (n l m : ℤ)
        (random : Option (List ℕ)) (r : Crypt)
      → length iv ≡ aes_block_size
      → aes_crypt evp (some iv) t index true mode src n l ≡ some r
      → r.result ≡ ok
      → (r.destlen ≡ pos (length r.dest))
        × (aes_crypt evp random t index false mode r.dest m r.ivlen
            ≡ some (record {
              result = ok;
              dest = src;
              destlen = pos (length src);
              ivlen = pos aes_block_size;
            }))
  unfolding aes_crypt decrypted IsDecrypted
  decrypt_encrypted law t index mode iv src n l m random r size h good =
      let (k, a, ek, ea, er) = crypt_cases _ _ iv src n l r h good in
      let found = subst (λ (r : Crypt). r.result ≡ ok) er good in
      let (d, length_ok, vector) =
        subst (λ (r : Crypt). IsDecrypted a.cipher k.key src m r) (sym er)
          (encrypt-IsDecrypted law a.cipher k.key iv src n m size found) in
      (
        length_ok,
        decrypt_found _ _ k a random r.dest m r.ivlen ek ea vector ∙ ap (λ (c : Crypt). some c) d,
      )
