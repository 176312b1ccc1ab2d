-- ===== src/Logger.antt =====
-- The logs: logger/logger.go. The caller of a line, the date and the writes of the system are arguments.
pub mod Files
mod Examples
use dove.Base.{
  ℕ, ◌+◌, ◌/◌, Bool, true, false, not, Option, none, some, List, [], ◌∷◌, ◌++◌, leb, if◌then◌else◌,
  length, take, Bytes, codes, nat_eq, bytes_eq,
}
use dove.Base.Dict.{Dict, lookup, insert}
use dove.Base.Text.{to_lower, trim_right}
use dove.Base.Decimal.{itoa}
use dove.Util.{in_array_string}
use dove.Watcher.Local.{base_of}

abbrev pub valid_levels : List Bytes
valid_levels = codes "INFO" ∷ codes "ERROR" ∷ codes "WARN" ∷ codes "DEFAULT" ∷ []

pub record DatetimeLogFileWriter : Type 0 where
  pub log_dir : Bytes
  pub level : Bytes

pub record CoSafeLogger : Type 0 where
  pub out : DatetimeLogFileWriter
  pub short_file : Bool

unfoldable pub get_logger_by_level : Bytes → Dict Bytes CoSafeLogger → Option CoSafeLogger
get_logger_by_level level loggers = lookup level loggers

unfoldable pub add_to_loggers :
    Bytes → CoSafeLogger → Dict Bytes CoSafeLogger → Dict Bytes CoSafeLogger
add_to_loggers level logger loggers = insert level logger loggers

unfoldable pub create_logger : Bytes → Bytes → CoSafeLogger
create_logger dir level = record {
  out = record { log_dir = dir; level = level };
  short_file = true;
}

-- `none` is the panic at a level that is not valid.
unfoldable pub get_logger :
    Bytes → Bytes → Dict Bytes CoSafeLogger → Option (CoSafeLogger × Dict Bytes CoSafeLogger)
unfolding get_logger_by_level add_to_loggers
get_logger dir level loggers =
    let logger = create_logger dir level in
    if not (in_array_string valid_levels level)
    then none
    else elim (get_logger_by_level level loggers) [
      | some l ↦ some (l, loggers)
      | none ↦ some (logger, add_to_loggers level logger loggers)
    ]

-- The file, with slashes, and the line that the runtime gives.
unfoldable pub get_format_header : CoSafeLogger → Option (Bytes × ℕ) → Bytes
get_format_header cl caller = if not cl.short_file then [] else elim caller [
  | none ↦ base_of (codes "???") ++ codes ":" ++ itoa 0 ++ codes ":"
  | some (file, lineno) ↦ base_of file ++ codes ":" ++ itoa lineno ++ codes ":"
]

unfoldable pub log_filename : Bool → DatetimeLogFileWriter → Bytes → Bytes
log_filename as_single_file w suffix =
    let dir = trim_right w.log_dir (codes "/") ++ codes "/" in
    if as_single_file
    then dir ++ codes "all." ++ suffix ++ codes ".log"
    else dir ++ to_lower w.level ++ codes "." ++ suffix ++ codes ".log"

unfoldable pub log_text : Bool → DatetimeLogFileWriter → Bytes → Bytes
log_text as_single_file w p = if as_single_file then codes "[" ++ w.level ++ codes "] " ++ p else p

abbrev pub content : Bytes → Dict Bytes Bytes → Bytes
content name files = elim (lookup name files) [ none ↦ [] | some s ↦ s ]

-- `opens` says which files can be opened, and `room` how many bytes the system takes. The number that
-- is returned, whether there is no error, and the files behind the write.
unfoldable pub write :
    Bool
    → DatetimeLogFileWriter
    → Bytes
    → (Bytes → Bool)
    → ℕ
    → Bytes
    → Dict Bytes Bytes
    → ℕ × Bool × Dict Bytes Bytes
write as_single_file w suffix opens room p files =
    let name = log_filename as_single_file w suffix in
    let text = log_text as_single_file w p in
    if opens name
    then (
      length (take room text),
      leb (length text) room,
      insert name (content name files ++ take room text) files,
    )
    else (0, false, files)

-- NullWriter.Write.
unfoldable pub null_write : Bytes → ℕ × Bool
null_write p = (0, true)

-- The default logger of the library: it writes to a file only in the debug mode.
unfoldable pub default_write :
    Bool
    → Bool
    → Bytes
    → Bytes
    → (Bytes → Bool)
    → ℕ
    → Bytes
    → Dict Bytes Bytes
    → ℕ × Bool × Dict Bytes Bytes
unfolding null_write
default_write debug as_single_file dir suffix opens room p files =
    if debug
    then write as_single_file (record { log_dir = dir; level = codes "DEFAULT" }) suffix opens room
        p files
    else ((null_write p).0, (null_write p).1, files)
