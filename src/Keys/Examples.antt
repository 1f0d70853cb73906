-- ===== src/Keys/Examples.antt =====
-- The keys of one read, and the theorems at calls for them.
use nyx_modules.Base.{
  ℕ, ◌≡◌, refl, inl, pos, true, false, List, [], ◌∷◌, ◌++◌, some, replicate, arith,
}
use nyx_modules.Gestures.Types.{InputEvent, ev_key, ev_syn}
use nyx_modules.Keys.Device.{
  Keys, quiet, input, got, interrupted, key_event, pending, keys_get_event,
}
use nyx_modules.Keys.Pending.{key_events, IsValid, left}
use nyx_modules.Keys.Stream.{calls, calls_lem, get_event_reads}

abbrev raw : ℕ → ℕ → InputEvent
raw type code = record {
  time = record { sec = 0; usec = 0 };
  type = type;
  code = code;
  value = pos 1;
}

-- Two keys with the events that end their reports.
abbrev two_keys : List InputEvent
two_keys = raw ev_key 30 ∷ raw ev_syn 0 ∷ raw ev_key 102 ∷ raw ev_syn 0 ∷ []

abbrev fresh_keys : Keys
fresh_keys = record { raw_events = []; event_count = pos 0; event_iter = 0; current = false }

-- The first key has been taken.
abbrev half_read : Keys
half_read = record { raw_events = two_keys; event_count = pos 4; event_iter = 1; current = false }

half_read-IsValid : IsValid half_read
half_read-IsValid = record {
  count = 4;
  counted = refl;
  memory = omega arith;
  inside = inl (omega arith);
}

half_read-left : left half_read ≡ key_event (raw ev_key 102) ∷ []
unfolding pending key_events
half_read-left = refl

two_key_events : key_events two_keys ≡ key_event (raw ev_key 30) ∷ key_event (raw ev_key 102) ∷ []
unfolding key_events
two_key_events = refl

calls_lem_example :
    (k' : Keys) × (calls (quiet ∷ []) half_read ≡ some (k', some (key_event (raw ev_key 102)) ∷ []))
    × IsValid k'
    × (left k' ≡ [])
calls_lem_example =
    calls_lem (quiet ∷ []) half_read (key_event (raw ev_key 102) ∷ []) half_read-IsValid
      half_read-left refl

get_event_reads_example :
    (k' : Keys) × (keys_get_event true
        (input (replicate 2 interrupted ++ (got two_keys ∷ [])))
        fresh_keys
      ≡ some (k', some (key_event (raw ev_key 30))))
    × IsValid k'
    × (left k' ≡ key_event (raw ev_key 102) ∷ [])
get_event_reads_example =
    get_event_reads 2 two_keys [] fresh_keys (key_event (raw ev_key 30))
      (key_event (raw ev_key 102) ∷ []) refl two_key_events
