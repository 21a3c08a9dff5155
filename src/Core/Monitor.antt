-- ===== src/Core/Monitor.antt =====
-- core/monitor.ts: what a monitor is, which requests are admitted, and the texts that it keeps. The
-- tests of types that the types of the source decide already are not repeated. A timeout is a whole
-- number of milliseconds.
pub mod Active
pub mod Lines
pub mod Manager
use Prim.Native.Nat.{bit_xor}
use pi_persona.Base.{
  ℕ, ◌+◌, ◌-◌, ◌*◌, ◌%◌, ◌^◌, Bool, true, false, not, ◌&&◌, ◌||◌, Option, none, some, List, [], ◌∷◌,
  ◌++◌, ltb, leb, ◌==◌, if◌then◌else◌, or_else, any, take, take_last, length, Text, codes, is_empty,
  trim,
}

pub data MonitorMode : Type 0 where
  output_mode exit_mode : MonitorMode

-- A number of a request: whole, or one that the tests on numbers refuse.
pub data Amount : Type 0 where
  whole : ℕ → Amount
  unusable : Amount

pub record MonitorSpec : Type 0 where
  pub command : Text
  pub args : Option (List Text)
  pub cwd : Text
  pub label : Text
  pub mode : MonitorMode
  pub timeout_ms : Option Amount
  pub max_events : Option Amount

-- The id `<prefix>-<n>` of a monitor is its number n.
pub record MonitorEntry : Type 0 where
  pub id : ℕ
  pub label : Text
  pub command : Text
  pub args : List Text
  pub cwd : Text
  pub mode : MonitorMode
  pub started_at : ℕ
  pub expires_at : ℕ
  pub max_events : ℕ

abbrev pub monitor_max_active : ℕ
monitor_max_active = 8

abbrev pub monitor_default_timeout_ms : ℕ
monitor_default_timeout_ms = 600000

abbrev pub monitor_min_timeout_ms : ℕ
monitor_min_timeout_ms = 1000

abbrev pub monitor_max_timeout_ms : ℕ
monitor_max_timeout_ms = 86400000

abbrev pub monitor_default_max_events : ℕ
monitor_default_max_events = 1

abbrev pub monitor_max_events : ℕ
monitor_max_events = 20

abbrev pub monitor_max_line_chars : ℕ
monitor_max_line_chars = 4000

abbrev pub monitor_max_diagnostic_chars : ℕ
monitor_max_diagnostic_chars = 4000

abbrev pub monitor_max_command_chars : ℕ
monitor_max_command_chars = 4096

abbrev pub monitor_max_args : ℕ
monitor_max_args = 64

abbrev pub monitor_max_arg_chars : ℕ
monitor_max_arg_chars = 8192

abbrev pub monitor_max_argv_chars : ℕ
monitor_max_argv_chars = 24000

abbrev pub monitor_max_label_chars : ℕ
monitor_max_label_chars = 120

-- "…[truncated]"
abbrev pub monitor_truncation_marker : Text
monitor_truncation_marker = 0x2026 ∷ codes "[truncated]"

pub data MonitorError : Type 0 where
  no_command long_command nul_command no_cwd nul_cwd no_label long_label nul_label : MonitorError
  many_args nul_arg long_arg long_argv short_timeout long_timeout no_events many_events :
      MonitorError
  too_many : MonitorError
  not_started : Text → MonitorError

abbrev is_blank_text : Text → Bool
is_blank_text s = is_empty (trim s)

abbrev has_nul : Text → Bool
has_nul s = any (λ c. c == 0) s

abbrev pub argv_chars : List Text → ℕ
argv_chars [] = 0
argv_chars (a ∷ args) = length a + argv_chars args

validate_texts : MonitorSpec → Option MonitorError
validate_texts r =
    if is_blank_text r.command
    then some no_command
    else if ltb monitor_max_command_chars (length r.command)
    then some long_command
    else if has_nul r.command
    then some nul_command
    else if is_blank_text r.cwd
    then some no_cwd
    else if has_nul r.cwd
    then some nul_cwd
    else if is_blank_text r.label
    then some no_label
    else if ltb monitor_max_label_chars (length r.label)
    then some long_label
    else if has_nul r.label
    then some nul_label
    else none

validate_args : List Text → Option MonitorError
validate_args args =
    if ltb monitor_max_args (length args)
    then some many_args
    else if any has_nul args
    then some nul_arg
    else if any (λ a. ltb monitor_max_arg_chars (length a)) args
    then some long_arg
    else if ltb monitor_max_argv_chars (argv_chars args)
    then some long_argv
    else none

validate_timeout : Amount → Option MonitorError
validate_timeout unusable = some short_timeout
validate_timeout (whole t) =
    if ltb t monitor_min_timeout_ms
    then some short_timeout
    else if ltb monitor_max_timeout_ms t
    then some long_timeout
    else none

validate_events : Amount → Option MonitorError
validate_events unusable = some no_events
validate_events (whole n) =
    if ltb n 1 then some no_events else if ltb monitor_max_events n then some many_events else none

-- The first error of two checks.
or_then : Option MonitorError → Option MonitorError → Option MonitorError
or_then none e = e
or_then (some e) _ = some e

pub validate : MonitorSpec → Option MonitorError
validate r = or_then (validate_texts r) (
    or_then (validate_args (or_else r.args [])) (
      or_then (validate_timeout (or_else r.timeout_ms (whole monitor_default_timeout_ms)))
        (validate_events (or_else r.max_events (whole monitor_default_max_events)))))

-- The number of an amount that `validate` let through.
pub amount_or : Option Amount → ℕ → ℕ
amount_or none d = d
amount_or (some (whole n)) d = n
amount_or (some unusable) d = d

abbrev pub line_keep : ℕ
line_keep = monitor_max_line_chars - length monitor_truncation_marker

abbrev pub tail_keep : ℕ
tail_keep = monitor_max_diagnostic_chars - length monitor_truncation_marker

-- `appendTail`, whose limit is always that of the diagnostics.
pub append_tail : Text → Text → Text
append_tail current chunk =
    let room = tail_keep - length chunk in
    if is_empty chunk
    then current
    else if leb (length current + length chunk) monitor_max_diagnostic_chars
    then current ++ chunk
    else if leb tail_keep (length chunk)
    then monitor_truncation_marker ++ take_last tail_keep chunk
    else monitor_truncation_marker
      ++ ((if ltb room (length current) then take_last room current else current) ++ chunk)

pub append_bounded_line : Text → Text → Text
append_bounded_line current chunk =
    if is_empty chunk
    then current
    else if leb (length current + length chunk) monitor_max_line_chars
    then current ++ chunk
    else (if leb line_keep (length current)
        then take line_keep current
        else current ++ take (line_keep - length current) chunk)
      ++ monitor_truncation_marker

-- FNV-1a over the code units: `Math.imul(value ^ unit, 16777619) >>> 0`.
pub hash_line : ℕ → Text → ℕ
hash_line value [] = value
hash_line value (c ∷ s) = hash_line ((bit_xor value c * 16777619) % 2 ^ 32) s

abbrev pub hash_start : ℕ
hash_start = 2166136261
