-- ===== src/Logger.antt =====
-- pkg/logger/logger.go: the levels of the logger and the lines that it writes. The time, the place of the call
-- and the formatted message are arguments; what the writers have taken is a list of lines.
use Prim.Native.String.{String, ◌++◌}
use text.Mathlib.Text.{◌==◌ as str_eq}
use mathlib.Core.List.{◌++◌ as append}
use thermal_recovery_flow.Base.{
  ℕ, Bool, true, false, Option, none, some, List, [], ◌∷◌, if◌then◌else◌, ltb, ◌==◌, Result, ok,
  err,
}

pub data LogLevel : Type 0 where
  level_debug level_info level_warn level_error level_fatal : LogLevel

abbrev pub level_number : LogLevel → ℕ
level_number level_debug = 0
level_number level_info = 1
level_number level_warn = 2
level_number level_error = 3
level_number level_fatal = 4

-- `file` says whether it is not nil; `exited` whether `os.Exit` has been called.
pub record Logger : Type 0 where
  pub level : LogLevel
  pub file : Bool
  pub lines : List String
  pub exited : Bool

-- What one line is made of: the formatted time, the base name and line of the call, and the message.
pub record Call : Type 0 where
  pub now : String
  pub file : String
  pub line : String
  pub message : String

-- `NewLogger`, with the errors of `os.MkdirAll` and `os.OpenFile`.
pub new_logger {ℓ} : {E : Type ℓ} → LogLevel → String → Option E → Option E → Result E Logger
new_logger level log_file mkdir open_file =
    let made : Bool → Logger =
      λ file. record { level = level; file = file; lines = []; exited = false } in
    if str_eq log_file "" then ok (made false) else elim mkdir [
      | some e ↦ err e
      | none ↦ elim open_file [ some e ↦ err e | none ↦ ok (made true) ]
    ]

pub set_level : Logger → LogLevel → Logger
set_level l level = record l { level = level }

level_str : LogLevel → String
level_str level_debug = "DEBUG"
level_str level_info = "INFO"
level_str level_warn = "WARN"
level_str level_error = "ERROR"
level_str level_fatal = "FATAL"

log_msg : LogLevel → Call → String
unfolding level_str
log_msg level c =
    c.now ++ " [" ++ level_str level ++ "] " ++ c.file ++ ":" ++ c.line ++ " " ++ c.message ++ "\n"

-- `log`, which Debug, Info, Warn, Error and Fatal call with their level.
pub log : Logger → LogLevel → Call → Logger
unfolding log_msg
log l level c = if ltb (level_number level) (level_number l.level) then l else record l {
  lines = append l.lines (log_msg level c ∷ []);
  exited = if level_number level == 4 then true else l.exited;
}
