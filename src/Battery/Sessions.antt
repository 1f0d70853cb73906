-- ===== src/Battery/Sessions.antt =====
-- batterylib.c and battery/device/battery.c: the device over the calls of clients, and the start of the events.
use nyx_modules.Base.{
  ℕ, ℤ, pos, ltb_ℤ, Bool, true, false, not, ◌==◌, ne→==, if_elim, List, [], ◌∷◌, Option, none, some,
  ◌≡◌, refl, sym, ap, ◌∙◌, ◌⊎◌, inl, inr,
}
use nyx_modules.Nyx.{NyxError, ok, generic}
use nyx_modules.Battery.Status.{BatteryStatus}
use nyx_modules.Battery.Library.{
  BatteryLibrary, nyx_module_open, nyx_module_close, battery_register_battery_status_callback,
  Started, start_monitor, battery_read_init,
}

-- The calls that can change the variables of the library.
pub data BatteryCall : Type 0 where
  open_device : ℕ → NyxError → BatteryCall
  close_device : BatteryCall
  register_callback : ℕ → ℕ → ℕ → BatteryCall

unfoldable pub battery_step : BatteryCall → BatteryLibrary → BatteryLibrary
battery_step (open_device memory init) l = (nyx_module_open memory init l).0
battery_step close_device l = (nyx_module_close l).0
battery_step (register_callback handle func context) l =
    (battery_register_battery_status_callback handle func context l).0

unfoldable pub battery_run : List BatteryCall → BatteryLibrary → BatteryLibrary
battery_run [] l = l
battery_run (c ∷ cs) l = battery_run cs (battery_step c l)

open_again :
    (memory : ℕ) (init : NyxError) (l : BatteryLibrary)
    → ¬ (l.nyx_dev ≡ 0)
    → nyx_module_open memory init l ≡ (l, ok, some l.nyx_dev)
unfolding nyx_module_open
open_again memory init l h = rw (ne→== l.nyx_dev 0 h) refl

step_keeps :
    (c : BatteryCall) (l : BatteryLibrary)
    → ¬ (l.nyx_dev ≡ 0)
    → (battery_step c l).nyx_dev ≡ l.nyx_dev
unfolding battery_step
step_keeps (open_device memory init) l h =
    ap (λ (r : BatteryLibrary × NyxError × Option ℕ). r.0.nyx_dev) (open_again memory init l h)
step_keeps close_device l h = unfold nyx_module_close in refl
step_keeps (register_callback handle func context) l h =
    unfold battery_register_battery_status_callback in
    if_elim (λ (r : BatteryLibrary × NyxError). r.0.nyx_dev ≡ l.nyx_dev) (not (handle == l.nyx_dev))
      refl
      (if_elim (λ (r : BatteryLibrary × NyxError). r.0.nyx_dev ≡ l.nyx_dev) (func == 0) refl refl)

run_keeps :
    (cs : List BatteryCall) (l : BatteryLibrary)
    → ¬ (l.nyx_dev ≡ 0)
    → (battery_run cs l).nyx_dev ≡ l.nyx_dev
unfolding battery_run
run_keeps [] l h = refl
run_keeps (c ∷ cs) l h =
    let kept = step_keeps c l h in run_keeps cs (battery_step c l) (λ e. h (sym kept ∙ e)) ∙ kept

first_open :
    (memory : ℕ) (init : NyxError) (l : BatteryLibrary)
    → ¬ (memory ≡ 0)
    → l.nyx_dev ≡ 0
    → nyx_module_open memory init l ≡ (record l { nyx_dev = memory }, init, some memory)
unfolding nyx_module_open
first_open memory init l h closed = rw (closed, ne→== memory 0 h) refl

-- The first opening, with memory, gives its device and what the start of the battery returns. From
-- then on, after any calls, closings included, an opening is successful and gives that device, also
-- when the start has failed.
pub stays_open :
    (memory : ℕ) (init : NyxError) (l : BatteryLibrary)
    → ¬ (memory ≡ 0)
    → l.nyx_dev ≡ 0
    → ((nyx_module_open memory init l).1 ≡ init)
      × ((nyx_module_open memory init l).2 ≡ some memory)
      × ((cs : List BatteryCall) (memory' : ℕ) (init' : NyxError)
          → let l' = battery_run cs (nyx_module_open memory init l).0 in
            nyx_module_open memory' init' l' ≡ (l', ok, some memory))
stays_open memory init l h closed =
    rw (first_open memory init l h closed) (refl, refl, λ cs memory' init'. later cs memory' init')
  where
    later :
        (cs : List BatteryCall) (memory' : ℕ) (init' : NyxError)
        → nyx_module_open memory' init' (battery_run cs (record l { nyx_dev = memory }))
          ≡ (battery_run cs (record l { nyx_dev = memory }), ok, some memory)
    later cs memory' init' =
        let l' = battery_run cs (record l { nyx_dev = memory }) in
        let kept : l'.nyx_dev ≡ memory = run_keeps cs (record l { nyx_dev = memory }) h in
        open_again memory' init' l' (λ e. h (sym kept ∙ e)) ∙ ap (λ (n : ℕ). (l', ok, some n)) kept

-- The events are watched exactly if the result is no error.
unfoldable pub IsHonest : Started → Type 0
IsHonest r =
    ((r.watches ≡ true) × (r.result ≡ some ok))
    ⊎ ((r.watches ≡ false) × ((r.result ≡ some generic) ⊎ (r.result ≡ none)))

monitor_lem :
    (s : BatteryStatus) (monitor : Bool) (filter enable : ℤ)
    → IsHonest (start_monitor s monitor filter enable)
      × ((start_monitor s monitor filter enable).state ≡ some s)
unfolding start_monitor IsHonest
monitor_lem s monitor filter enable =
    let P : Started → Type 0 = λ (r : Started). IsHonest r × (r.state ≡ some s) in
    if_elim P (not monitor) (inr (refl, inl refl), refl)
      (if_elim P (ltb_ℤ filter (pos 0)) (inr (refl, inl refl), refl)
        (if_elim P (ltb_ℤ enable (pos 0)) (inr (refl, inl refl), refl) (inl (refl, refl), refl)))

-- The start of the device's battery, with a status that is read without a crash: the events are watched exactly if
-- the result is no error, and otherwise the result is a general error or none is returned. The status that has been
-- read is kept in every case but the one where there is no udev, in which no result is returned.
pub start_lem :
    (udev : Bool) (s : BatteryStatus) (monitor : Bool) (filter enable : ℤ)
    → (r : Started) × (battery_read_init udev (some s) monitor filter enable ≡ some r)
      × IsHonest r
      × (((udev ≡ false) × (r.result ≡ none)) ⊎ ((udev ≡ true) × (r.state ≡ some s)))
unfolding battery_read_init
start_lem false s monitor filter enable = (
  record { result = none; state = none; watches = false },
  refl,
  unfold IsHonest in inr (refl, inr refl),
  inl (refl, refl),
)
start_lem true s monitor filter enable =
    let (honest, kept) = monitor_lem s monitor filter enable in
    (start_monitor s monitor filter enable, refl, honest, inr (refl, kept))
