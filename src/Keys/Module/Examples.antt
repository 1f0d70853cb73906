-- ===== src/Keys/Module/Examples.antt =====
-- A module without events, and the theorems at it.
use nyx_modules.Base.{ℕ, ◌+◌, ◌≡◌, refl, inl, pos, true, false, List, [], ◌∷◌, some, arith}
use nyx_modules.Runs.{run}
use nyx_modules.Gestures.Types.{InputEvent, ev_key}
use nyx_modules.Keys.Device.{
  Keys, quiet, no_input, input, got, key_event, pending, keys_get_event, take_key, find_key,
  read_input_event,
}
use nyx_modules.Keys.Pending.{key_events, IsValid, left}
use nyx_modules.Keys.Stream.{calls}
use nyx_modules.Keys.Module.{KeysModule, KeysAction, get, release, restart, acts}
use nyx_modules.Keys.Module.Memory.{account, all_forgotten, account_lem}
use nyx_modules.Keys.Module.Reopened.{reopened, stale_lem}

abbrev keyless : Keys
keyless = record { raw_events = []; event_count = pos 0; event_iter = 0; current = false }

abbrev empty : KeysModule
empty = record {
  keys = keyless;
  keypad_event_fd = pos 3;
  descriptors = [];
  allocated = 0;
  held = 0;
}

abbrev press : ℕ → InputEvent
press code = record {
  time = record { sec = 0; usec = 0 };
  type = ev_key;
  code = code;
  value = pos 1;
}

abbrev two_keys : List InputEvent
two_keys = press 30 ∷ press 102 ∷ []

-- Two idle calls, a key that the client releases, and a new start.
abbrev session : List KeysAction
session =
    get true no_input
    ∷ get true no_input
    ∷ get true (input (got two_keys ∷ []))
    ∷ release
    ∷ restart (some (pos 4))
    ∷ []

-- What is left behind it: the second key, and the two events that the later calls forgot.
abbrev behind : KeysModule
behind = record {
  keys = record { raw_events = two_keys; event_count = pos 2; event_iter = 1; current = false };
  keypad_event_fd = pos 4;
  descriptors = pos 4 ∷ [];
  allocated = 2;
  held = 0;
}

session_run : acts session empty ≡ some behind
unfolding acts run keys_get_event read_input_event take_key find_key
session_run = refl

account_lem_example : behind.allocated ≡ account behind (0 + all_forgotten session empty)
account_lem_example = account_lem session empty behind 0 refl session_run

behind-IsValid : IsValid behind.keys
behind-IsValid = record {
  count = 2;
  counted = refl;
  memory = omega arith;
  inside = inl (omega arith);
}

behind-left : left behind.keys ≡ key_event (press 102) ∷ []
unfolding pending key_events
behind-left = refl

stale_lem_example :
    (k : Keys) × (calls (quiet ∷ []) (reopened (some (pos 5)) behind).keys
      ≡ some (k, some (key_event (press 102)) ∷ []))
stale_lem_example =
    stale_lem (some (pos 5)) behind (quiet ∷ []) (key_event (press 102) ∷ []) behind-IsValid
      behind-left refl
