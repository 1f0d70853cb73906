-- ===== src/Nyx.antt =====
-- The error codes of nyx-lib that the modules of this repository return. nyx-lib is not part of the
-- repository: the enumerators are told apart by their names alone.
use nyx_modules.Base.{Bool, true, false}

-- `nyx_error_t`
pub data NyxError : Type 0 where
  ok generic not_implemented device_unavailable invalid_value invalid_handle : NyxError
  invalid_operation invalid_file_access out_of_memory value_out_of_range not_found : NyxError

-- The test `error == NYX_ERROR_NONE`.
abbrev pub is_ok : NyxError → Bool
is_ok ok = true
is_ok _ = false
