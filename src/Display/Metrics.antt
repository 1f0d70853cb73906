-- ===== src/Display/Metrics.antt =====
-- display.c: when the opening succeeds, and what it leaves.
use native.Mathlib.Nat.{mod-eq_of_lt}
use nyx_modules.Base.{
  ℕ, ◌<◌, ◌%◌, ◌-◌, ℤ, pos, negsuc, ltb_ℤ, ◌==ℤ◌, true, false, ◌==◌, ◌||◌, ne→==, ltb, Bool-cases,
  [], ◌∷◌, none, some, ◌≡◌, refl, ◌⊎◌, inl, inr, arith,
}
use nyx_modules.Nyx.{
  NyxError, ok, is_ok, value_out_of_range, invalid_operation, invalid_file_access,
}
use nyx_modules.Display.Device.{
  Floats, ScreenInfo, DisplayOpened, int16_of, metrics_of, out, read_screen, nyx_module_open,
}

mod_small : (n : ℕ) → n < 32768 → n % 65536 ≡ n
mod_small n h = mod-eq_of_lt (omega arith)

small_fd : (n : ℕ) → n < 32768 → int16_of (pos n) ≡ pos n
unfolding int16_of
small_fd n h = rw (mod_small n h) (ground arith)

large_fd : (n : ℕ) → 32767 < n → n < 65536 → int16_of (pos n) ≡ negsuc (65535 - n)
unfolding int16_of
large_fd n h fits = rw (mod-eq_of_lt fits) (ground arith)

not_negative : (n : ℕ) → ltb_ℤ (pos n) (pos 0) ≡ false
not_negative n = ground arith

below_zero : (k : ℕ) → ltb_ℤ (negsuc k) (pos 0) ≡ true
below_zero k = ground arith

module _ {F : Type 0} (fl : Floats F) where
  -- The screen has a resolution and a size.
  unfoldable pub IsSized : ScreenInfo → Type 0
  IsSized s = ((s.xres == 0 || s.yres == 0) ≡ false) × ((s.width == 0 || s.height == 0) ≡ false)

  -- What the opening leaves with a descriptor of the frame buffer.
  unfoldable pub IsOpened : ℕ → ℤ → ℤ → ScreenInfo → DisplayOpened F → Type 0
  IsOpened memory fd result s r =
      (r.closed ≡ fd ∷ [])
      × (r.device ≡ some memory)
      × (((r.result ≡ ok)
            × (result ==ℤ pos 0 ≡ true)
            × IsSized s
            × (r.metrics ≡ some (metrics_of fl s)))
          ⊎ ((is_ok r.result ≡ false) × (r.metrics ≡ none)))

  failed :
      (memory n : ℕ) (result : ℤ) (s : ScreenInfo) (e : NyxError)
      → is_ok e ≡ false
      → IsOpened memory (pos n) result s (out fl memory (pos n) e none)
  unfolding IsOpened out
  failed memory n result s e h = rw (not_negative n) (refl, refl, inr (h, refl))

  succeeded :
      (memory n : ℕ) (result : ℤ) (s : ScreenInfo)
      → result ==ℤ pos 0 ≡ true
      → ((s.xres == 0 || s.yres == 0) ≡ false) × ((s.width == 0 || s.height == 0) ≡ false)
      → IsOpened memory (pos n) result s (out fl memory (pos n) ok (some (metrics_of fl s)))
  unfolding IsOpened IsSized out
  succeeded memory n result s e sized = rw (not_negative n) (refl, refl, inl (refl, e, sized, refl))

  read_lem :
      (memory n : ℕ) (result : ℤ) (s : ScreenInfo)
      → IsOpened memory (pos n) result s (read_screen fl memory (pos n) result s)
  unfolding read_screen
  read_lem memory n result s = elim (Bool-cases (result ==ℤ pos 0)) [
    | inr e ↦ rw e (failed memory n result s invalid_operation refl)
    | inl e ↦ elim (Bool-cases (s.xres == 0 || s.yres == 0)) [
      | inl e' ↦ rw (e, e') (failed memory n result s value_out_of_range refl)
      | inr e' ↦ elim (Bool-cases (s.width == 0 || s.height == 0)) [
        | inl e'' ↦ rw (e, e', e'') (failed memory n result s value_out_of_range refl)
        | inr e'' ↦ rw (e, e', e'') (succeeded memory n result s e (e', e''))
      ]
    ]
  ]

  small_fd_opens :
      (memory n : ℕ) (result : ℤ) (s : ScreenInfo)
      → ¬ (memory ≡ 0)
      → n < 32768
      → IsOpened memory (pos n) result s (nyx_module_open fl memory (pos n) result s (some 0))
  unfolding nyx_module_open
  small_fd_opens memory n result s h small =
      rw (ne→== memory 0 h, small_fd n small, not_negative n) (read_lem memory n result s)

  -- A descriptor that is too large for 16 bits is taken for an error: the opening fails, frees its device, and does
  -- not close the descriptor.
  large_fd_leaks :
      (memory n : ℕ) (result : ℤ) (s : ScreenInfo)
      → ¬ (memory ≡ 0)
      → 32767 < n
      → n < 65536
      → ((nyx_module_open fl memory (pos n) result s (some 0)).closed ≡ [])
        × ((nyx_module_open fl memory (pos n) result s (some 0)).freed ≡ true)
        × ((nyx_module_open fl memory (pos n) result s (some 0)).result ≡ invalid_file_access)
  unfolding nyx_module_open
  large_fd_leaks memory n result s h large fits =
      rw (ne→== memory 0 h, large_fd n large fits, below_zero (65535 - n)) (refl, refl, refl)

  -- With no device before, with memory, and with a descriptor of the frame buffer: the opening closes that descriptor
  -- and hands out its device whatever happens, if the descriptor fits 16 bits with a sign; it succeeds with the
  -- metrics of the screen, only if the request has succeeded and no length is 0, or it fails and leaves the metrics
  -- zero. A larger descriptor, below 65536, is taken for an error: the opening fails with invalid file access, frees
  -- its device, and closes no descriptor.
  pub metrics_lem :
      (memory n : ℕ) (result : ℤ) (s : ScreenInfo)
      → ¬ (memory ≡ 0)
      → n < 65536
      → ((n < 32768)
          × IsOpened memory (pos n) result s (nyx_module_open fl memory (pos n) result s (some 0)))
        ⊎ ((32767 < n)
            × ((nyx_module_open fl memory (pos n) result s (some 0)).closed ≡ [])
            × ((nyx_module_open fl memory (pos n) result s (some 0)).freed ≡ true)
            × ((nyx_module_open fl memory (pos n) result s (some 0)).result ≡ invalid_file_access))
  metrics_lem memory n result s h fits = elim (Bool-cases (ltb n 32768)) [
    | inl e ↦
        let small : n < 32768 = ground (arith, e) in
        inl (small, small_fd_opens memory n result s h small)
    | inr e ↦
        let large : 32767 < n = ground (arith, e) in
        let (closed, freed, failed) = large_fd_leaks memory n result s h large fits in
        inr (large, closed, freed, failed)
  ]
