-- ===== src/Utils/Files.antt =====
-- utils.c: a string and a number of a file. A text is the list of its bytes.
use nyx_modules.Base.{Text, ℕ, ◌-◌, ℤ, pos, negsuc, ◌==◌, take, if◌then◌else◌, Option, none, some}

-- `g_strlcpy` to a buffer, by its size.
unfoldable pub copy_text : Text → ℕ → Text → Text
copy_text source size buffer = if size == 0 then buffer else take (size - 1) source

-- `FileGetString`, with `g_strstrip` as a parameter, and the contents of the file, or `none` for a path that is NULL
-- or a file that cannot be read: the buffer and the result.
unfoldable pub file_get_string : (Text → Text) → Option Text → ℕ → Text → Text × ℤ
file_get_string strip none size buffer = (buffer, negsuc 0)
file_get_string strip (some contents) size buffer = (copy_text (strip contents) size buffer, pos 0)

-- `FileGetDouble` over a type of numbers: `strtod` gives `none` if it reads none, and `*ret_data` is `none` for a
-- pointer that is NULL.
unfoldable pub store_number {ℓ} : {D : Type ℓ} → Option D → Option D → Option D
store_number none ret_data = ret_data
store_number (some value) none = none
store_number (some value) (some before) = some value

unfoldable pub file_get_double {ℓ} :
    {D : Type ℓ} → (Text → Option D) → Option Text → Option D → Option D × ℤ
file_get_double strtod none ret_data = (ret_data, negsuc 0)
file_get_double strtod (some contents) ret_data = (store_number (strtod contents) ret_data, pos 0)
