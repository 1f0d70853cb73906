-- ===== src/Battery/Emulator.antt =====
-- battery/emulator/fake_battery.c: the battery of the emulator, by the files that a script writes.
use nyx_modules.Base.{
  Text, ◌/◌, ℤ, pos, negsuc, pos_part, ltb_ℤ, ◌==ℤ◌, Bool, true, false, if◌then◌else◌, Option, none,
  some,
}
use nyx_modules.Nyx.{NyxError, ok}
use nyx_modules.Utils.Files.{file_get_double}

-- What `nyx_utils_read_value` returns for the files of numbers, and the contents of the others, with `none` for one
-- that cannot be read.
pub record FakeFiles : Type 0 where
  pub percent : ℤ
  pub temperature : ℤ
  pub voltage : ℤ
  pub current : ℤ
  pub avg_current : ℤ
  pub full_40 : Option Text
  pub raw_coulomb : Option Text
  pub coulomb : Option Text
  pub age : Option Text

-- `battery_percent` and `battery_temperature`
unfoldable pub fake_percent : FakeFiles → ℤ
fake_percent f = if ltb_ℤ f.percent (pos 0) then negsuc 0 else f.percent

unfoldable pub fake_temperature : FakeFiles → ℤ
fake_temperature f = if ltb_ℤ f.temperature (pos 0) then negsuc 0 else f.temperature

-- `val / 1000`, for a number that is not negative
abbrev pub thousandth : ℤ → ℤ
thousandth n = pos (pos_part n / 1000)

-- `battery_voltage`, `battery_current` and `battery_avg_current`
unfoldable pub fake_voltage : FakeFiles → ℤ
fake_voltage f = if ltb_ℤ f.voltage (pos 0) then negsuc 0 else thousandth f.voltage

unfoldable pub fake_current : FakeFiles → ℤ
fake_current f = if ltb_ℤ f.current (pos 0) then negsuc 0 else thousandth f.current

unfoldable pub fake_avg_current : FakeFiles → ℤ
fake_avg_current f = if ltb_ℤ f.avg_current (pos 0) then negsuc 0 else thousandth f.avg_current

-- `battery_is_present`
unfoldable pub fake_is_present : FakeFiles → Bool
fake_is_present f = ltb_ℤ (pos 0) (fake_voltage f)

-- `battery_read_init`, whatever the script does.
unfoldable pub fake_read_init : NyxError
fake_read_init = ok

-- A type of numbers with `strtod`, 0 and -1.
pub record Numbers (D : Type 0) : Type 0 where
  pub strtod : Text → Option D
  pub zero_number : D
  pub minus_one : D

-- `nyx_battery_status_t` with its numbers.
pub record FakeStatus (D : Type 0) : Type 0 where
  pub present : Bool
  pub percentage : ℤ
  pub temperature : ℤ
  pub current : ℤ
  pub voltage : ℤ
  pub avg_current : ℤ
  pub capacity : D
  pub capacity_raw : D
  pub capacity_full40 : D
  pub age : D
  pub charging : Bool

module _ {D : Type 0} (num : Numbers D) where
  -- `if (FileGetDouble(path, &val)) return -1; return val;`, by what the variable holds before.
  unfoldable pub number_or : D → Option D × ℤ → D
  number_or before (none, result) = if result ==ℤ pos 0 then before else num.minus_one
  number_or before (some value, result) = if result ==ℤ pos 0 then value else num.minus_one

  -- `battery_full40`, `battery_rawcoulomb`, `battery_coulomb` and `battery_age`
  unfoldable pub fake_full40 : D → FakeFiles → D
  fake_full40 before f = number_or before (file_get_double num.strtod f.full_40 (some before))

  unfoldable pub fake_rawcoulomb : D → FakeFiles → D
  fake_rawcoulomb before f =
      number_or before (file_get_double num.strtod f.raw_coulomb (some before))

  unfoldable pub fake_coulomb : D → FakeFiles → D
  fake_coulomb before f = number_or before (file_get_double num.strtod f.coulomb (some before))

  unfoldable pub fake_age : D → FakeFiles → D
  fake_age before f = number_or before (file_get_double num.strtod f.age (some before))

  -- `battery_read_status` of batterylib.c with these functions; the battery is read twice for `avg_current`, from
  -- the same file of the current.
  unfoldable pub fake_read_status : D → FakeFiles → FakeStatus D
  fake_read_status before f =
      if fake_is_present f
      then record {
        present = true;
        percentage = fake_percent f;
        temperature = fake_temperature f;
        current = fake_current f;
        voltage = fake_voltage f;
        avg_current = fake_current f;
        capacity = fake_coulomb before f;
        capacity_raw = fake_rawcoulomb before f;
        capacity_full40 = fake_full40 before f;
        age = fake_age before f;
        charging = ltb_ℤ (pos 0) (fake_current f);
      }
      else record {
        present = false;
        percentage = pos 0;
        temperature = pos 0;
        current = pos 0;
        voltage = pos 0;
        avg_current = pos 0;
        capacity = num.zero_number;
        capacity_raw = num.zero_number;
        capacity_full40 = num.zero_number;
        age = num.zero_number;
        charging = false;
      }
