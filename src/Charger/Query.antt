-- ===== src/Charger/Query.antt =====
-- charger/emulator/chargerlib.c and chargerlib.c: two queries of the charger event, one after the other.
use nyx_modules.Base.{
  ℕ, ◌==◌, Option, none, some, Bool-cases, ==_iff, eq→==, ◌≡◌, refl, sym, ◌∙◌, ◌⊎◌, inl, inr,
}
use mathlib.Core.Bool.{false≢true}
use nyx_modules.Nyx.{NyxError}
use nyx_modules.Charger.Events.{EventFlags, no_new_event}
use nyx_modules.Charger.Library.{Library, emulator_query_charger_event, device_query_charger_event}

-- Two queries of the same device by a client, by the way in which one query is done.
unfoldable pub query_twice :
    (ℕ → EventFlags → Library → EventFlags × NyxError × Option EventFlags)
    → ℕ
    → EventFlags
    → Library
    → Option EventFlags × Option EventFlags
query_twice query handle current l =
    let first = query handle current l in
    let second = query handle (first.0) l in (first.2, second.2)

-- With the handle of the device, the emulator hands an event out once and then says that there is no new
-- one, while the device hands the same event out twice; with another handle, neither hands out any.
pub event_once :
    (handle : ℕ) (current : EventFlags) (l : Library)
    → ((handle ≡ l.nyx_dev)
        × (query_twice emulator_query_charger_event handle current l
            ≡ (some current, some no_new_event))
        × (query_twice device_query_charger_event handle current l ≡ (some current, some current)))
      ⊎ ((¬ (handle ≡ l.nyx_dev))
          × (query_twice emulator_query_charger_event handle current l ≡ (none, none))
          × (query_twice device_query_charger_event handle current l ≡ (none, none)))
unfolding query_twice emulator_query_charger_event device_query_charger_event
event_once handle current l = elim (Bool-cases (handle == l.nyx_dev)) [
  | inl e ↦ inl ((==_iff handle l.nyx_dev).0 e, rw e refl, rw e refl)
  | inr e ↦ inr (λ h. false≢true (sym e ∙ eq→== handle l.nyx_dev h), rw e refl, rw e refl)
]
