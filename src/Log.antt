-- ===== src/Log.antt =====
-- The log of src/log.c, as CMakeLists.txt builds it, with standard output.
mod Tests
use ps_libmctp_win.Prelude.{
  ℕ, ◌+◌, Bool, true, false, Option, none, some, List, [], ◌∷◌, leb, if◌then◌else◌,
}

-- A C `int`.
pub data ℤ : Type 0 where
  pos negsuc : ℕ → ℤ

-- `<=`
unfoldable pub leb_int : ℤ → ℤ → Bool
leb_int (pos m) (pos n) = leb m n
leb_int (pos m) (negsuc n) = false
leb_int (negsuc m) (pos n) = true
leb_int (negsuc m) (negsuc n) = leb n m

-- The type of `log_type`
pub data LogType : Type 0 where
  log_none log_stdio log_custom : LogType

-- The variables of the file. `log_custom_fn` is a flag: whether the pointer is set.
pub record Log : Type 0 where
  pub log_type : LogType
  pub log_stdio_level : ℤ
  pub log_custom_fn : Bool

-- What a message comes to: lines on the standard error output, or a call of the custom function.
pub data Line : Type 0 where
  printed : List ℕ → Line
  passed : ℤ → List ℕ → Line

unfoldable pub initial : Log
initial = record { log_type = log_none; log_stdio_level = pos 0; log_custom_fn = false }

-- `mctp_prlog` of a message in its text; `none` is a call through a NULL pointer.
unfoldable pub prlog : Log → ℤ → List ℕ → Option (List Line)
prlog log level text = elim log.log_type [
  | log_none ↦ some []
  | log_stdio ↦ some (if leb_int level log.log_stdio_level then printed text ∷ [] else [])
  | log_custom ↦ if log.log_custom_fn then some (passed level text ∷ []) else none
]

-- `mctp_set_log_stdio`
unfoldable pub set_log_stdio : ℤ → Log → Log
set_log_stdio level log = record log { log_type = log_stdio; log_stdio_level = level }

-- `mctp_set_log_custom`
unfoldable pub set_log_custom : Bool → Log → Log
set_log_custom fn log = record log { log_type = log_custom; log_custom_fn = fn }
