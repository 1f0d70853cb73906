-- ===== src/Security/Restart.antt =====
-- security.c: a module that is closed and opened again, and an opening that fails.
use nyx_modules.Base.{
  ℕ, ne→==, Bool, true, false, List, [], ◌∷◌, Option, none, some, ◌≡◌, refl, ap, ◌∙◌,
}
use nyx_modules.Nyx.{NyxError, ok, generic, invalid_value}
use nyx_modules.Security.KeyFile.{Codec, Store, KeyFile, keystore_save, keystore_load, load_file}
use nyx_modules.Security.SaveLoad.{IsExact, IsSame, Lives, Lives-round_trip}
use nyx_modules.Security.Device.{
  SecurityMethod, security_methods, register_all, keystore_init, opened, initialized,
  nyx_module_open, nyx_module_close,
}

register_all_ok :
    (register : SecurityMethod → NyxError) (ms : List SecurityMethod)
    → ((m : SecurityMethod) → register m ≡ ok)
    → register_all register ms ≡ ok
unfolding register_all
register_all_ok register [] h = refl
register_all_ok register (m ∷ ms) h = rw (h m) (register_all_ok register ms h)

module _ {Rsa : Type 0} (c : Codec Rsa) where
  -- An opening that is not refused before goes on to the key store.
  reaches_keystore :
      (memory : ℕ) (register : SecurityMethod → NyxError) (exists : Bool) (file : Option KeyFile)
      → ¬ (memory ≡ 0)
      → ((m : SecurityMethod) → register m ≡ ok)
      → nyx_module_open c memory register true true exists file (some 0)
        ≡ opened memory (keystore_load c exists file (record { aes = []; rsa = [] }))
  unfolding nyx_module_open initialized keystore_init
  reaches_keystore memory register exists file h all =
      rw (ne→== memory 0 h, register_all_ok register security_methods all) refl

  -- A module that is closed, with its file written, and is opened again with no device, with memory and with
  -- every method registered: the opening succeeds with a device that is not freed, and the key store looks up the
  -- keys of both kinds that it had at every index, whatever it was used for before.
  pub restart :
      IsExact c
      → (s : Store Rsa) → Lives c s
      → (exists : Bool) (file : Option KeyFile) (memory : ℕ) (register : SecurityMethod → NyxError)
      → ¬ (memory ≡ 0)
      → ((m : SecurityMethod) → register m ≡ ok)
      → (s' : Store Rsa) × (nyx_module_open c memory register true true
            (nyx_module_close c true exists file s).0
            (nyx_module_close c true exists file s).1
            (some 0)
          ≡ some (record { result = ok; device = memory; freed = false; keystore = some s' }))
        × IsSame c s s'
  unfolding nyx_module_close
  restart law s lives exists file memory register h all =
      let (s', run, same) = Lives-round_trip c law s lives in
      (
        s',
        reaches_keystore memory register true (some (keystore_save c s)) h all
            ∙ ap (λ (o : Option (Store Rsa × NyxError)). opened memory o) run
            ∙ unfold opened in refl,
        same,
      )

  -- With no device before, with memory and with every method registered, an opening that finds a
  -- file of keys which cannot be read fails with a general error and frees its device, but leaves
  -- the freed device in the pointer of the client, so that the next opening with it is refused.
  pub unreadable_file :
      (memory : ℕ) (register : SecurityMethod → NyxError)
      → ¬ (memory ≡ 0)
      → ((m : SecurityMethod) → register m ≡ ok)
      → (nyx_module_open c memory register true true true none (some 0)
          ≡ some (record { result = generic; device = memory; freed = true; keystore = none }))
        × ((memory' : ℕ) (register' : SecurityMethod → NyxError) (exists : Bool)
              (file : Option KeyFile)
            → nyx_module_open c memory' register' true true exists file (some memory)
              ≡ some (record {
                result = invalid_value;
                device = memory;
                freed = false;
                keystore = none;
              }))
  unreadable_file memory register h all = (
    reaches_keystore memory register true none h all
        ∙ unfold keystore_load in unfold load_file in unfold opened in refl,
    λ memory' register' exists file. unfold nyx_module_open in rw (ne→== memory 0 h) refl,
  )
