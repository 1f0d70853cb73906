-- ===== src/Charger/Emulation.antt =====
-- charger/emulator/chargerlib.c against chargerlib.c with charger/emulator/charger.c.
use mathlib.Core.Path.{subst}
use nyx_modules.Base.{
  arith, if_elim, ℕ, not, ◌==◌, if◌then◌else◌, All, List, [], ◌∷◌, none, some, ◌≡◌, refl, ap, ◌∙◌,
  inl, inr, ◌⊎◌,
}
use nyx_modules.Nyx.{NyxError, ok, out_of_memory, invalid_handle, invalid_value}
use nyx_modules.Charger.Events.{EventFlags, no_new_event}
use nyx_modules.Charger.Device.{ChargerStatus, no_charger}
use nyx_modules.Charger.Library.{
  Library, nyx_module_open, status_method, register_charger_status_callback,
  register_state_change_callback,
}
use nyx_modules.Charger.Emulator.{
  Standalone, Answer, plain, standalone_open, standalone_close, standalone_query_status,
  standalone_enable_charging, standalone_disable_charging, standalone_register_status,
  standalone_register_state_change, standalone_query_event, driver_init, driver_read_status,
  driver_enable_charging, driver_disable_charging, driver_query_event, Call, open_device,
  close_device, query_status, enable_charging, disable_charging, register_status,
  register_state_change, query_event, standalone_step, Built, built_query_event, built_step,
  driver_start, answers,
}

-- The variables of the two files as those of the one.
unfoldable pub joined : Built → Standalone
joined b = record {
  nyx_dev = b.library.nyx_dev;
  charger_status_callback = b.library.charger_status_callback;
  charger_status_callback_context = b.library.charger_status_callback_context;
  state_change_callback = b.library.state_change_callback;
  state_change_callback_context = b.library.state_change_callback_context;
  status = b.driver.status;
  current_event = b.driver.current_event;
}

abbrev joined_first : Built × Answer → Standalone × Answer
joined_first (b, a) = (joined b, a)

step_lem : (c : Call) (b : Built) → standalone_step c (joined b) ≡ joined_first (built_step c b)
unfolding joined standalone_step built_step
step_lem (open_device memory) b =
    unfold standalone_open in unfold nyx_module_open in unfold driver_init in ground arith
step_lem close_device b = unfold standalone_close in refl
step_lem (query_status handle status) b =
    unfold standalone_query_status in
    unfold status_method in unfold driver_read_status in ground arith
step_lem (enable_charging handle status) b =
    unfold standalone_enable_charging in
    unfold status_method in unfold driver_enable_charging in ground arith
step_lem (disable_charging handle status) b =
    unfold standalone_disable_charging in
    unfold status_method in unfold driver_disable_charging in ground arith
step_lem (register_status handle func context) b =
    unfold standalone_register_status in unfold register_charger_status_callback in ground arith
step_lem (register_state_change handle func context) b =
    unfold standalone_register_state_change in unfold register_state_change_callback in ground arith
step_lem (query_event handle) b =
    unfold standalone_query_event in
    unfold built_query_event in unfold driver_query_event in ground arith

-- The library in one file and the library with the driver answer alike: from states with the same variables, every
-- sequence of calls gets the same answers of the one and of the other.
pub same_answers :
    (cs : List Call) (b : Built) → answers standalone_step cs (joined b) ≡ answers built_step cs b
unfolding answers
same_answers [] b = refl
same_answers (c ∷ cs) b =
    rw (step_lem c b)
      (ap (λ (l : List Answer). (built_step c b).1 ∷ l) (same_answers cs (built_step c b).0))

-- An answer does not tell of a charger or of an event.
unfoldable pub IsQuiet : Answer → Type 0
IsQuiet a =
    ((a.status ≡ none) ⊎ (a.status ≡ some no_charger))
    × ((a.event ≡ none) ⊎ (a.event ≡ some no_new_event))

IsStill : Standalone → Type 0
IsStill s = (s.status ≡ no_charger) × (s.current_event ≡ no_new_event)

-- What a step has to leave.
Leaves : Standalone × Answer → Type 0
Leaves p = IsStill p.0 × IsQuiet p.1

plain-Leaves :
    (s s' : Standalone) (r : NyxError)
    → IsStill s
    → s'.status ≡ s.status
    → s'.current_event ≡ s.current_event
    → Leaves (s', plain r)
unfolding Leaves IsStill IsQuiet
plain-Leaves s s' r h same same' = ((same ∙ h.0, same' ∙ h.1), (inl refl, inl refl))

told-Leaves :
    (s : Standalone) → IsStill s → Leaves (s, record (plain ok) { status = some s.status })
unfolding Leaves IsStill IsQuiet
told-Leaves s h = (h, (inr (ap (λ (t : ChargerStatus). some t) h.0), inl refl))

-- Both guards of a method.
guarded :
    (handle pointer : ℕ) (s : Standalone) (r : Standalone × Answer)
    → IsStill s
    → Leaves r
    → Leaves (
        if not (handle == s.nyx_dev)
        then (s, plain invalid_handle)
        else if pointer == 0
        then (s, plain invalid_value)
        else r)
guarded handle pointer s r h last =
    if_elim Leaves (not (handle == s.nyx_dev)) (plain-Leaves s s invalid_handle h refl refl)
      (if_elim Leaves (pointer == 0) (plain-Leaves s s invalid_value h refl refl) last)

opened-Leaves :
    (s : Standalone) (memory : ℕ)
    → IsStill s
    → Leaves (record s { nyx_dev = memory }, record (plain ok) { device = some memory })
unfolding Leaves IsStill IsQuiet
opened-Leaves s memory h = (h, (inl refl, inl refl))

event-Leaves :
    (s : Standalone)
    → IsStill s
    → Leaves (
      record s { current_event = no_new_event },
      record (plain ok) { event = some s.current_event },
    )
unfolding Leaves IsStill IsQuiet
event-Leaves s h = ((h.0, refl), (inl refl, inr (ap (λ (e : EventFlags). some e) h.1)))

step_quiet : (c : Call) (s : Standalone) → IsStill s → Leaves (standalone_step c s)
unfolding standalone_step standalone_open standalone_close standalone_query_status
    standalone_enable_charging standalone_disable_charging standalone_register_status
    standalone_register_state_change standalone_query_event
step_quiet (open_device memory) s h =
    if_elim Leaves (not (s.nyx_dev == 0)) (plain-Leaves s s ok h refl refl) (
      if_elim Leaves (memory == 0)
        (plain-Leaves s (record s { nyx_dev = 0 }) out_of_memory h refl refl)
        (opened-Leaves s memory h))
step_quiet close_device s h = plain-Leaves s s ok h refl refl
step_quiet (query_status handle status) s h = guarded handle status s _ h (told-Leaves s h)
step_quiet (enable_charging handle status) s h = guarded handle status s _ h (told-Leaves s h)
step_quiet (disable_charging handle status) s h = guarded handle status s _ h (told-Leaves s h)
step_quiet (register_status handle func context) s h =
    guarded handle func s _ h (plain-Leaves s _ ok h refl refl)
step_quiet (register_state_change handle func context) s h =
    guarded handle func s _ h (plain-Leaves s _ ok h refl refl)
step_quiet (query_event handle) s h =
    if_elim Leaves (not (handle == s.nyx_dev)) (plain-Leaves s s invalid_handle h refl refl)
      ((event-Leaves s h))

answers-IsQuiet :
    (cs : List Call) (s : Standalone) → IsStill s → All IsQuiet (answers standalone_step cs s)
unfolding answers Leaves
answers-IsQuiet [] s h = tt
answers-IsQuiet (c ∷ cs) s h =
    let p = step_quiet c s h in (p.1, answers-IsQuiet cs (standalone_step c s).0 p.0)

-- The emulated charger is never there: from its initial variables, with any variables of the library, no answer to
-- any sequence of calls has a status other than the one of no charger, or an event other than no new event.
pub never_reports :
    (cs : List Call) (l : Library)
    → All IsQuiet (answers built_step cs (record { library = l; driver = driver_start }))
never_reports cs l =
    subst (λ (a : List Answer). All IsQuiet a)
      (same_answers cs (record { library = l; driver = driver_start }))
      (answers-IsQuiet cs (joined (record { library = l; driver = driver_start }))
        (unfold IsStill in unfold joined in (refl, refl)))
