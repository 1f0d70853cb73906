-- ===== src/System/Watch.antt =====
-- rtc.c and system.c: the channel on which an alarm is noticed, over sequences of calls.
use nyx_modules.Base.{
  ℕ, ℤ, ◌==◌, true, not, if_elim, Bool-cases, Option, none, some, ◌≡◌, refl, sym, ap, ◌∙◌, ◌⊎◌, inl,
  inr, Option-cases,
}
use mathlib.Core.Bool.{false≢true}
use mathlib.Core.Option.{none-ne-some}
use nyx_modules.Nyx.{NyxError}
use nyx_modules.System.Rtc.{Driver, Calendar, Rtc, is_negative, rtc_close}
use nyx_modules.System.Device.{
  System, system_set_alarm, system_query_next_alarm, system_query_rtc_time, rtc_event,
  nyx_module_open, nyx_module_close,
}
use nyx_modules.System.Watching.{
  IsWatching, set_alarm-IsWatching, query-IsWatching, event-IsWatching,
}

module _ {Hw : Type 0} (drv : Driver Hw) (cal : Calendar) where
  -- The calls of the module that change its state, its opening and its closing among them, with any arguments, and
  -- an event on the channel.
  pub data Step (s : System Hw) : System Hw → Type 0 where
    module_opened : (memory : ℕ) → Step s (nyx_module_open memory s).0
    module_closed : Step s (nyx_module_close s).0
    set_alarm :
        (handle : ℕ) (time : ℤ) (func : ℕ) → Step s (system_set_alarm drv cal handle time func s).0
    query_next_alarm : (handle : ℕ) → Step s (system_query_next_alarm drv cal handle s).0
    query_rtc_time : (handle : ℕ) → Step s (system_query_rtc_time drv cal handle s).0
    alarm_event : Step s (rtc_event drv cal s).0

  pub data Reach (s : System Hw) : System Hw → Type 0 where
    here : Reach s s
    next : {t u : System Hw} → Reach s t → Step t u → Reach s u

  -- On the way from `s` to `t` the module has been closed while a channel was set.
  abbrev pub ClosedWatching : System Hw → System Hw → Type 0
  ClosedWatching s t =
      (u : System Hw) × (fd : ℤ) × Reach s u
      × (u.rtc.rtc_channel ≡ some fd)
      × Reach (nyx_module_close u).0 t

  open_module-IsWatching :
      (memory : ℕ) (s : System Hw) → IsWatching s.rtc → IsWatching (nyx_module_open memory s).0.rtc
  unfolding nyx_module_open
  open_module-IsWatching memory s v =
      if_elim (λ (p : System Hw × NyxError × Option ℕ). IsWatching p.0.rtc) (not (s.nyx_dev == 0)) v
        (if_elim (λ (p : System Hw × NyxError × Option ℕ). IsWatching p.0.rtc) (memory == 0) v v)

  close-channel : (s : System Hw) → (nyx_module_close s).0.rtc.rtc_channel ≡ s.rtc.rtc_channel
  unfolding nyx_module_close rtc_close
  close-channel s =
      if_elim (λ (r : Rtc Hw). r.rtc_channel ≡ s.rtc.rtc_channel) (is_negative s.rtc.rtc_fd) refl
        refl

  close-IsWatching :
      (s : System Hw) → s.rtc.rtc_channel ≡ none → IsWatching (nyx_module_close s).0.rtc
  close-IsWatching s e = record {
    watched = λ fd h. absurd (none-ne-some fd (sym (close-channel s ∙ e) ∙ h));
  }

  close_fd : (s : System Hw) → is_negative (nyx_module_close s).0.rtc.rtc_fd ≡ true
  unfolding nyx_module_close rtc_close
  close_fd s = elim (Bool-cases (is_negative s.rtc.rtc_fd)) [ inl e ↦ rw e e | inr e ↦ rw e refl ]

  -- A module that is closed while a channel is set keeps the channel, which then watches no open descriptor.
  pub closed_stale :
      (s : System Hw) (fd : ℤ)
      → s.rtc.rtc_channel ≡ some fd
      → ¬ IsWatching (nyx_module_close s).0.rtc
  closed_stale s fd e v =
      let w = v.watched fd (close-channel s ∙ e) in
      false≢true (sym w.1 ∙ ap (λ (n : ℤ). is_negative n) (sym w.0) ∙ close_fd s)

  Step-IsWatching :
      {s t : System Hw}
      → Step s t
      → IsWatching s.rtc
      → IsWatching t.rtc
        ⊎ ((fd : ℤ) × (s.rtc.rtc_channel ≡ some fd) × Reach (nyx_module_close s).0 t)
  Step-IsWatching {s} (module_opened memory) v = inl (open_module-IsWatching memory s v)
  Step-IsWatching {s} module_closed v = elim (Option-cases s.rtc.rtc_channel) [
    | inl e ↦ inl (close-IsWatching s e)
    | inr (fd, e) ↦ inr (fd, e, here)
  ]
  Step-IsWatching {s} (set_alarm handle time func) v =
      inl (set_alarm-IsWatching drv cal handle time func s v)
  Step-IsWatching {s} (query_next_alarm handle) v = inl (query-IsWatching drv cal handle s v).0
  Step-IsWatching {s} (query_rtc_time handle) v = inl (query-IsWatching drv cal handle s v).1
  Step-IsWatching {s} alarm_event v = inl (event-IsWatching drv cal s v)

  -- Whatever calls, openings, closings and events there are, and whatever the driver answers: from a state in
  -- which the channel, if there is one, watches the descriptor that is open, every state is such, unless the
  -- module has been closed on the way while a channel was set.
  pub Reach-IsWatching :
      {s t : System Hw} → Reach s t → IsWatching s.rtc → IsWatching t.rtc ⊎ ClosedWatching s t
  Reach-IsWatching here v = inl v
  Reach-IsWatching (next {t} {u} r st) v = elim (Reach-IsWatching r v) [
    | inr (w, fd, before, e, after) ↦ inr (w, fd, before, e, next after st)
    | inl w ↦ elim (Step-IsWatching st w) [
      | inl w' ↦ inl w'
      | inr (fd, e, after) ↦ inr (t, fd, r, e, after)
    ]
  ]
