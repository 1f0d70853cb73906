-- ===== src/Security/Ownership.antt =====
-- keystore.c: the keys that the tables own, and which of them are destroyed when.
mod Examples
use nyx_modules.Base.{
  ℤ, negsuc, pos, ◌==ℤ◌, true, false, if◌then◌else◌, Bool-cases, Option-cases, List, [], ◌∷◌, ◌++◌,
  Option, none, some, ◌≡◌, refl, sym, ap, ap₂, inl, inr, suc, length,
}
use mathlib.Core.Option.{none-ne-some, some-injective}
use mathlib.Core.Path.{subst}
use mathlib.Core.List.{append_assoc, append-nil, perm_middle, Perm}
use mathlib.Core.List.Perm
use nyx_modules.Security.Keystore.{Table, remove, replace, free_index, put_at, keystore_key_replace}
use nyx_modules.Security.Aes.{AesKey}
use nyx_modules.Security.Rsa.{RsaKey}
use nyx_modules.Security.KeyFile.{Store}

-- What is given back: the memory of a key, by `g_free`, and an RSA object, by `RSA_free`.
pub data Freed (Rsa : Type 0) : Type 0 where
  aes_memory : AesKey → Freed Rsa
  rsa_object : Rsa → Freed Rsa
  rsa_memory : RsaKey Rsa → Freed Rsa

module _ {Rsa : Type 0} where
  unfoldable pub aes_destroy_key : AesKey → List (Freed Rsa)
  aes_destroy_key key = aes_memory key ∷ []

  unfoldable pub rsa_destroy_key : RsaKey Rsa → List (Freed Rsa)
  rsa_destroy_key key = rsa_object key.rsa ∷ rsa_memory key ∷ []

module _ {V F : Type 0} (destroy : V → List F) where
  -- `g_hash_table_destroy` of a table with that function.
  unfoldable pub destroy_table : Table V → List F
  destroy_table [] = []
  destroy_table ((i, k) ∷ t) = destroy k ++ destroy_table t

  -- What `g_hash_table_replace` destroys in a table.
  unfoldable pub removed : Table V → ℤ → List F
  removed [] i = []
  removed ((j, k) ∷ t) i = let rest = removed t i in if j ==ℤ i then destroy k ++ rest else rest

  -- Keys that are put into a table, each at the index that is asked for, with what has been given back before.
  unfoldable pub put_keys : List (V × ℤ) → Table V → List F → Option (Table V × List F)
  put_keys [] t freed = some (t, freed)
  put_keys ((k, index) ∷ keys) t freed = elim (keystore_key_replace t k index) [
    | none ↦ none
    | some r ↦ put_keys keys r.0 (removed t r.1 ++ freed)
  ]

  -- What the keys consist of.
  unfoldable pub parts_of : List (V × ℤ) → List F
  parts_of [] = []
  parts_of ((k, index) ∷ keys) = destroy k ++ parts_of keys

-- `keystore_destroy`
unfoldable pub keystore_destroy : {Rsa : Type 0} → Store Rsa → List (Freed Rsa)
unfolding destroy_table aes_destroy_key rsa_destroy_key
keystore_destroy s = destroy_table aes_destroy_key s.aes ++ destroy_table rsa_destroy_key s.rsa

append_swap : {F : Type 0} → (a b c : List F) → Perm (a ++ (b ++ c)) (b ++ (a ++ c))
append_swap [] b c = Perm.refl (b ++ c)
append_swap (x ∷ a) b c =
    Perm.trans (Perm.cons x (append_swap a b c)) (Perm.symm (perm_middle b (a ++ c)))

interleave : {F : Type 0} → (a b c d : List F) → Perm ((a ++ b) ++ (c ++ d)) ((a ++ c) ++ (b ++ d))
interleave {F} a b c d =
    subst (λ (l : List F). Perm l ((a ++ c) ++ (b ++ d))) (sym (append_assoc a b (c ++ d)))
      (subst (λ (l : List F). Perm (a ++ (b ++ (c ++ d))) l) (sym (append_assoc a c (b ++ d)))
        (Perm.append_left a (append_swap b c d)))

-- Wherever a key is put, it replaces what is there.
replace_lem :
    {V : Type 0}
    → (t : Table V) (k : V) (index : ℤ) (r : Table V × ℤ) → keystore_key_replace t k index ≡ some r
    → r.0 ≡ replace t r.1 k
unfolding keystore_key_replace put_at
replace_lem {V} t k index r h = elim (Bool-cases (index ==ℤ negsuc 0)) [
  | inr e ↦
      subst (λ (r : Table V × ℤ). r.0 ≡ replace t r.1 k)
        (some-injective (replace t index k, index) r (rw e at h)) refl
  | inl e ↦ elim (Option-cases (free_index (suc (length t)) 0 t)) [
    | inl stuck ↦ absurd (none-ne-some r (rw (e, stuck) at h))
    | inr (i, found) ↦
        subst (λ (r : Table V × ℤ). r.0 ≡ replace t r.1 k)
          (some-injective (replace t (pos i) k, pos i) r (rw (e, found) at h)) refl
  ]
]

module _ {V F : Type 0} (destroy : V → List F) where
  remove-Perm :
      (t : Table V) (i : ℤ)
      → Perm (destroy_table destroy t) (destroy_table destroy (remove t i) ++ removed destroy t i)
  unfolding remove removed destroy_table
  remove-Perm [] i = Perm.refl []
  remove-Perm ((j, k) ∷ t) i = elim (Bool-cases (j ==ℤ i)) [
    | inl e ↦ rw e (
        Perm.trans (Perm.append_left (destroy k) (remove-Perm t i))
          (append_swap (destroy k) (destroy_table destroy (remove t i)) (removed destroy t i)))
    | inr e ↦ rw e (
        subst (λ (l : List F). Perm (destroy k ++ destroy_table destroy t) l)
          (sym
            (append_assoc (destroy k) (destroy_table destroy (remove t i)) (removed destroy t i)))
          (Perm.append_left (destroy k) (remove-Perm t i)))
  ]

  -- The key in front of the others moves to its place in the table, and what it replaces is given back.
  step-Perm :
      (t : Table V) (k : V) (i : ℤ) (parts freed : List F)
      → Perm
          ((destroy k ++ parts) ++ (destroy_table destroy t ++ freed))
          (parts ++ (destroy_table destroy (replace t i k) ++ (removed destroy t i ++ freed)))
  unfolding replace destroy_table
  step-Perm t k i parts freed =
      let rest = destroy_table destroy (remove t i) in
      let gone = removed destroy t i in
      let inner : Perm (destroy_table destroy t ++ freed) (rest ++ (gone ++ freed)) =
        subst (λ (l : List F). Perm (destroy_table destroy t ++ freed) l)
          (append_assoc rest gone freed) (Perm.append_right freed (remove-Perm t i)) in
      let moved : Perm (destroy k ++ (destroy_table destroy t ++ freed))
          ((destroy k ++ rest) ++ (gone ++ freed)) =
        subst (λ (l : List F). Perm (destroy k ++ (destroy_table destroy t ++ freed)) l)
          (sym (append_assoc (destroy k) rest (gone ++ freed)))
          (Perm.append_left (destroy k) inner) in
      subst (λ (l : List F). Perm l (parts ++ ((destroy k ++ rest) ++ (gone ++ freed))))
        (sym (append_assoc (destroy k) parts (destroy_table destroy t ++ freed)))
        (Perm.trans (append_swap (destroy k) parts (destroy_table destroy t ++ freed))
          (Perm.append_left parts moved))

  put_keys-Perm :
      (keys : List (V × ℤ)) (t t' : Table V) (freed freed' : List F)
      → put_keys destroy keys t freed ≡ some (t', freed')
      → Perm
          (parts_of destroy keys ++ (destroy_table destroy t ++ freed))
          (destroy_table destroy t' ++ freed')
  unfolding put_keys parts_of
  put_keys-Perm [] t t' freed freed' h =
      subst
        (λ (r : Table V × List F).
          Perm (destroy_table destroy t ++ freed) (destroy_table destroy r.0 ++ r.1))
        (some-injective (t, freed) (t', freed') h) (Perm.refl (destroy_table destroy t ++ freed))
  put_keys-Perm ((k, index) ∷ keys) t t' freed freed' h =
      elim (Option-cases (keystore_key_replace t k index)) [
        | inl stuck ↦ absurd (none-ne-some (t', freed') (rw (stuck, put_keys) at h))
        | inr (r, run) ↦
            let rest =
              put_keys-Perm keys r.0 t' (removed destroy t r.1 ++ freed) freed'
                (rw (run, put_keys) at h) in
            Perm.trans
              (subst
                (λ (u : Table V).
                  Perm ((destroy k ++ parts_of destroy keys) ++ (destroy_table destroy t ++ freed))
                    (parts_of destroy keys
                      ++ (destroy_table destroy u ++ (removed destroy t r.1 ++ freed))))
                (sym (replace_lem t k index r run))
                (step-Perm t k r.1 (parts_of destroy keys) freed))
              rest
      ]

  table_lem :
      (keys : List (V × ℤ)) (t : Table V) (freed : List F)
      → put_keys destroy keys [] [] ≡ some (t, freed)
      → Perm (parts_of destroy keys) (destroy_table destroy t ++ freed)
  unfolding destroy_table
  table_lem keys t freed h =
      subst (λ (l : List F). Perm l (destroy_table destroy t ++ freed))
        (append-nil (parts_of destroy keys)) (put_keys-Perm keys [] t [] freed h)

-- What is allocated for the keys of a session: memory for each, and for each RSA key its object too.
unfoldable pub aes_made : {Rsa : Type 0} → List (AesKey × ℤ) → List (Freed Rsa)
aes_made [] = []
aes_made ((k, index) ∷ keys) = aes_memory k ∷ aes_made keys

unfoldable pub rsa_made : {Rsa : Type 0} → List (RsaKey Rsa × ℤ) → List (Freed Rsa)
rsa_made [] = []
rsa_made ((k, index) ∷ keys) = rsa_object k.rsa ∷ rsa_memory k ∷ rsa_made keys

aes_made_lem :
    {Rsa : Type 0}
    → (keys : List (AesKey × ℤ)) → parts_of (aes_destroy_key {Rsa = Rsa}) keys ≡ aes_made keys
unfolding parts_of aes_destroy_key aes_made
aes_made_lem [] = refl
aes_made_lem ((k, index) ∷ keys) = ap (λ (l : List (Freed _)). aes_memory k ∷ l) (aes_made_lem keys)

rsa_made_lem :
    {Rsa : Type 0} → (keys : List (RsaKey Rsa × ℤ)) → parts_of rsa_destroy_key keys ≡ rsa_made keys
unfolding parts_of rsa_destroy_key rsa_made
rsa_made_lem [] = refl
rsa_made_lem ((k, index) ∷ keys) =
    ap (λ (l : List (Freed _)). rsa_object k.rsa ∷ rsa_memory k ∷ l) (rsa_made_lem keys)

-- A session with a new key store, whatever AES and RSA keys are put into it, at indices that are asked
-- for or found: what has been given back when keys were replaced, with what `keystore_destroy` gives
-- back at the end, is the memory of every key and the object of every RSA key, each once.
pub ownership_lem :
    {Rsa : Type 0}
    → (aes : List (AesKey × ℤ)) (rsa : List (RsaKey Rsa × ℤ)) (s : Store Rsa)
      (aes_freed rsa_freed : List (Freed Rsa))
    → put_keys aes_destroy_key aes [] [] ≡ some (s.aes, aes_freed)
    → put_keys rsa_destroy_key rsa [] [] ≡ some (s.rsa, rsa_freed)
    → Perm (aes_made aes ++ rsa_made rsa) (keystore_destroy s ++ (aes_freed ++ rsa_freed))
unfolding keystore_destroy
ownership_lem {Rsa} aes rsa s aes_freed rsa_freed h h' =
    rw (sym (aes_made_lem {Rsa = Rsa} aes), sym (rsa_made_lem rsa))
      (Perm.trans
        (Perm.append (table_lem aes_destroy_key aes s.aes aes_freed h)
          (table_lem rsa_destroy_key rsa s.rsa rsa_freed h'))
        (interleave (destroy_table aes_destroy_key s.aes) aes_freed
          (destroy_table rsa_destroy_key s.rsa) rsa_freed))
