-- ===== src/Display/Device.antt =====
-- display.c. A pointer is its address, 0 for NULL. The floats and their operations are a parameter.
use nyx_modules.Base.{
  ℕ, ◌-◌, ◌%◌, ℤ, pos, negsuc, ltb_ℤ, ltb, ◌==ℤ◌, Bool, true, false, not, ◌==◌, ◌||◌, if◌then◌else◌,
  List, [], ◌∷◌, Option, none, some,
}
use nyx_modules.Nyx.{
  NyxError, ok, out_of_memory, invalid_value, invalid_file_access, invalid_operation,
  value_out_of_range,
}

-- `(float)x` of an unsigned number, `*` and `/`, and 25.4f
pub record Floats (F : Type 0) : Type 0 where
  pub of_nat : ℕ → F
  pub times : F → F → F
  pub divide : F → F → F
  pub mm_per_inch : F

-- The fields of `struct fb_var_screeninfo` that are read.
pub record ScreenInfo : Type 0 where
  pub xres : ℕ
  pub yres : ℕ
  pub width : ℕ
  pub height : ℕ

-- `display_metrics`
pub record DisplayMetrics (F : Type 0) : Type 0 where
  pub horizontal_pixels : ℕ
  pub vertical_pixels : ℕ
  pub horizontal_dpi : F
  pub vertical_dpi : F

-- What a call leaves: its result, `*d` if it is written, the metrics of the device, with `none` for the zeroes of
-- `calloc`, whether the device has been freed, and the descriptors that are closed.
pub record DisplayOpened (F : Type 0) : Type 0 where
  pub result : NyxError
  pub device : Option ℕ
  pub metrics : Option (DisplayMetrics F)
  pub freed : Bool
  pub closed : List ℤ

-- A descriptor in an `int16_t`.
unfoldable pub int16_of : ℤ → ℤ
int16_of (pos n) = let m = n % 65536 in if ltb m 32768 then pos m else negsuc (65535 - m)
int16_of (negsuc n) = let m = n % 65536 in if ltb m 32768 then negsuc m else pos (65535 - m)

module _ {F : Type 0} (fl : Floats F) where
  unfoldable pub dpi : ℕ → ℕ → F
  dpi pixels length = fl.divide (fl.times (fl.of_nat pixels) fl.mm_per_inch) (fl.of_nat length)

  unfoldable pub metrics_of : ScreenInfo → DisplayMetrics F
  metrics_of s = record {
    horizontal_pixels = s.xres;
    vertical_pixels = s.yres;
    horizontal_dpi = dpi s.xres s.width;
    vertical_dpi = dpi s.yres s.height;
  }

  -- From `out:` on.
  unfoldable pub out : ℕ → ℤ → NyxError → Option (DisplayMetrics F) → DisplayOpened F
  out memory fd error metrics = record {
    result = error;
    device = some memory;
    metrics = metrics;
    freed = false;
    closed = if ltb_ℤ fd (pos 0) then [] else fd ∷ [];
  }

  -- What follows the opening of the frame buffer, by the result of the `ioctl` and what it writes.
  unfoldable pub read_screen : ℕ → ℤ → ℤ → ScreenInfo → DisplayOpened F
  read_screen memory fd result s =
      if not (result ==ℤ pos 0)
      then out memory fd invalid_operation none
      else if s.xres == 0 || s.yres == 0
      then out memory fd value_out_of_range none
      else if s.width == 0 || s.height == 0
      then out memory fd value_out_of_range none
      else out memory fd ok (some (metrics_of s))

  abbrev pub refused : NyxError → Bool → DisplayOpened F
  refused error freed = record {
    result = error;
    device = none;
    metrics = none;
    freed = freed;
    closed = [];
  }

  -- `nyx_module_open`, by the address that `calloc` returns, the result of `open`, and the `ioctl`. `d` is `none` for
  -- NULL, and else what `*d` is.
  unfoldable pub nyx_module_open : ℕ → ℤ → ℤ → ScreenInfo → Option ℕ → DisplayOpened F
  nyx_module_open memory opened result s none = refused invalid_value false
  nyx_module_open memory opened result s (some d) =
      let fd = int16_of opened in
      if not (d == 0)
      then refused invalid_value false
      else if memory == 0
      then refused out_of_memory false
      else if ltb_ℤ fd (pos 0)
      then refused invalid_file_access true
      else read_screen memory fd result s

-- `nyx_module_close`: the device that is freed, and the result.
unfoldable pub nyx_module_close : ℕ → ℕ × NyxError
nyx_module_close d = (d, ok)
