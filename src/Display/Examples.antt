-- ===== src/Display/Examples.antt =====
-- A screen with numbers in place of floats, and the theorem at it.
use nyx_modules.Base.{◌<◌, ◌⊎◌, ◌≡◌, [], true, ℕ, ◌*◌, ◌/◌, pos, some, arith}
use nyx_modules.Nyx.{invalid_file_access}
use nyx_modules.Display.Device.{Floats, ScreenInfo, nyx_module_open}
use nyx_modules.Display.Metrics.{IsOpened, metrics_lem}

abbrev integers : Floats ℕ
integers = record { of_nat = λ n. n; times = λ a b. a * b; divide = λ a b. a / b; mm_per_inch = 25 }

abbrev screen : ScreenInfo
screen = record { xres = 320; yres = 480; width = 50; height = 75 }

metrics_lem_example :
    ((5 < 32768)
      × IsOpened integers 16
          (pos 5)
          (pos 0)
          screen
          (nyx_module_open integers 16 (pos 5) (pos 0) screen (some 0)))
    ⊎ ((32767 < 5)
        × ((nyx_module_open integers 16 (pos 5) (pos 0) screen (some 0)).closed ≡ [])
        × ((nyx_module_open integers 16 (pos 5) (pos 0) screen (some 0)).freed ≡ true)
        × ((nyx_module_open integers 16 (pos 5) (pos 0) screen (some 0)).result
            ≡ invalid_file_access))
metrics_lem_example = metrics_lem integers 16 5 (pos 0) screen (λ e. omega arith) (omega arith)
