-- ===== src/Keys/Lookup.antt =====
-- `lookup_key`: the key that an input code stands for.
use nyx_modules.Base.{
  ℕ, ◌≡◌, ◌≢◌, refl, ap, ◌⊎◌, inl, inr, ◌==◌, if◌then◌else◌, Option, none, some, arith,
}

-- The `NYX_KEYS_CUSTOM_KEY_` constants of nyx-lib that the module uses.
pub data CustomKey : Type 0 where
  home vol_up vol_down power_on media_play media_pause media_stop media_next : CustomKey
  media_previous search_key brightness_down brightness_up vol_mute media_rewind : CustomKey
  media_fastforward : CustomKey

-- `nyx_key_type_t`
pub data KeyType : Type 0 where
  standard custom : KeyType

-- The `int` that `lookup_key` returns: a custom key, or a number.
pub data Key : Type 0 where
  custom_key : CustomKey → Key
  code_key : ℕ → Key

-- `KEY_LEFTSHIFT` of linux/input.h
abbrev pub key_leftshift : ℕ
key_leftshift = 42

-- The `switch`, with the codes of linux/input.h: KEY_HOME, KEY_VOLUMEUP, KEY_VOLUMEDOWN, KEY_END,
-- KEY_PLAY, KEY_PAUSE, KEY_STOP, KEY_NEXT, KEY_PREVIOUS, KEY_SEARCH, KEY_BRIGHTNESSDOWN,
-- KEY_BRIGHTNESSUP, KEY_MUTE, KEY_REWIND, KEY_FASTFORWARD.
unfoldable pub custom_of : ℕ → Option CustomKey
custom_of c =
    if c == 102
    then some home
    else if c == 115
    then some vol_up
    else if c == 114
    then some vol_down
    else if c == 107
    then some power_on
    else if c == 207
    then some media_play
    else if c == 119
    then some media_pause
    else if c == 128
    then some media_stop
    else if c == 0x197
    then some media_next
    else if c == 0x19c
    then some media_previous
    else if c == 217
    then some search_key
    else if c == 224
    then some brightness_down
    else if c == 225
    then some brightness_up
    else if c == 113
    then some vol_mute
    else if c == 168
    then some media_rewind
    else if c == 208
    then some media_fastforward
    else none

-- The test behind the `switch`, on the type that it leaves.
unfoldable pub standard_key : KeyType → ℕ → Key
standard_key standard c = if c == key_leftshift then code_key key_leftshift else code_key c
standard_key custom c = code_key 0

unfoldable pub lookup_from : Option CustomKey → ℕ → KeyType → Key × KeyType
unfolding standard_key
lookup_from (some k) c t = (custom_key k, custom)
lookup_from none c t = (standard_key t c, t)

-- `lookup_key`, with the content of `*key_type_out_ptr` before and after.
unfoldable pub lookup_key : ℕ → KeyType → Key × KeyType
unfolding custom_of lookup_from
lookup_key c t = lookup_from (custom_of c) c t

-- The codes of the table: which code each custom key has.
abbrev pub code_of : CustomKey → ℕ
code_of home = 102
code_of vol_up = 115
code_of vol_down = 114
code_of power_on = 107
code_of media_play = 207
code_of media_pause = 119
code_of media_stop = 128
code_of media_next = 0x197
code_of media_previous = 0x19c
code_of search_key = 217
code_of brightness_down = 224
code_of brightness_up = 225
code_of vol_mute = 113
code_of media_rewind = 168
code_of media_fastforward = 208

custom_of-code_of : (k : CustomKey) → custom_of (code_of k) ≡ some k
unfolding custom_of
custom_of-code_of home = refl
custom_of-code_of vol_up = refl
custom_of-code_of vol_down = refl
custom_of-code_of power_on = refl
custom_of-code_of media_play = refl
custom_of-code_of media_pause = refl
custom_of-code_of media_stop = refl
custom_of-code_of media_next = refl
custom_of-code_of media_previous = refl
custom_of-code_of search_key = refl
custom_of-code_of brightness_down = refl
custom_of-code_of brightness_up = refl
custom_of-code_of vol_mute = refl
custom_of-code_of media_rewind = refl
custom_of-code_of media_fastforward = refl

code_of-custom_of : (c : ℕ) (k : CustomKey) → custom_of c ≡ some k → code_of k ≡ c
unfolding custom_of
code_of-custom_of c k h = ground arith

-- From a standard type, a code gives a custom key exactly if it is that key's code in the table; any
-- other code gives itself, as a standard key.
pub lookup_key_lem :
    (c : ℕ)
    → ((k : CustomKey) × (code_of k ≡ c) × (lookup_key c standard ≡ (custom_key k, custom)))
      ⊎ (((k : CustomKey) → code_of k ≢ c) × (lookup_key c standard ≡ (code_key c, standard)))
unfolding lookup_key
lookup_key_lem c = go (custom_of c) refl
  where
    go :
        (o : Option CustomKey)
        → custom_of c ≡ o
        → ((k : CustomKey) × (code_of k ≡ c)
            × (lookup_from (custom_of c) c standard ≡ (custom_key k, custom)))
          ⊎ (((k : CustomKey) → code_of k ≢ c)
              × (lookup_from (custom_of c) c standard ≡ (code_key c, standard)))
    go (some k) e = inl (k, code_of-custom_of c k e, rw (e, lookup_from))
    go none e = inr (
      λ k h. cc (e, ap custom_of h, custom_of-code_of k),
      rw (e, lookup_from) (unfold standard_key in ground arith),
    )
