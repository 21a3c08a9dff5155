-- ===== src/Core/Monitor/Manager.antt =====
-- core/monitor.ts: the operations of the class MonitorManager, and the handlers that it gives to the
-- process of a monitor.
pub mod Chunks
pub mod Steps
pub mod Keeping
pub mod Counts
pub mod Lifecycle
mod Tests
use pi_persona.Base.{
  ℕ, suc, ◌+◌, ◌-◌, Bool, true, false, not, ◌&&◌, ◌||◌, Option, none, some, List, [], ◌∷◌, ◌++◌,
  leb, ◌==◌, if◌then◌else◌, or_else, any, find, filter, length, Text, codes, is_empty, trim,
  Outcome, error, ok,
}
use pi_persona.Core.Monitor.{
  MonitorMode, output_mode, exit_mode, MonitorSpec, MonitorEntry, MonitorError, too_many,
  not_started, monitor_max_active, monitor_default_timeout_ms, monitor_default_max_events, validate,
  amount_or, append_tail, append_bounded_line, hash_line, hash_start,
}
use pi_persona.Core.Monitor.Active.{
  EventKind, output_event, exit_event, error_event, timeout_event, EventText, line, timed_out,
  exited, failed, MonitorEvent, stdout, stderr, ActiveMonitor, MonitorManager, Notice, armed,
  observed, happened, timer_set, stopped, is_live, put, active_count, finish_monitor,
  remove_without_event, on_monitor,
}

new_entry : MonitorSpec → ℕ → ℕ → MonitorEntry
new_entry request id now = record {
  id = id;
  label = trim request.label;
  command = request.command;
  args = or_else request.args [];
  cwd = request.cwd;
  mode = request.mode;
  started_at = now;
  expires_at = now + amount_or request.timeout_ms monitor_default_timeout_ms;
  max_events = amount_or request.max_events monitor_default_max_events;
}

new_active : MonitorEntry → ActiveMonitor
new_active entry = record {
  entry = entry;
  has_handle = false;
  starting = true;
  start_error = none;
  has_process = false;
  terminal = false;
  stdout_buffer = [];
  stdout_tail = [];
  stderr_tail = [];
  seen_lines = [];
  events_seen = 0;
  line_hash = hash_start;
  line_length = 0;
}

-- `arm` up to the start of the process.
pub arm : MonitorManager → MonitorSpec → ℕ → Outcome MonitorError (MonitorManager × List Notice)
arm m request now = elim (validate request) [
  | some e ↦ error e
  | none ↦
      let id = suc m.sequence in
      let entry = new_entry request id now in
      if leb monitor_max_active (active_count m)
      then error too_many
      else ok (
        record { sequence = id; monitors = m.monitors ++ (new_active entry ∷ []) },
        armed entry ∷ [],
      )
]

started_by :
    MonitorManager
    → ActiveMonitor
    → Outcome MonitorError MonitorEntry × MonitorManager × List Notice
started_by m a = elim a.start_error [
  | some e ↦ (error (not_started e), m, stopped a.entry.id ∷ [])
  | none ↦ if a.terminal then (ok a.entry, m, stopped a.entry.id ∷ []) else (
    ok a.entry,
    put m (record a { has_process = true; starting = false; has_handle = true }),
    timer_set a.entry.id ∷ [],
  )
]

-- `arm` once the process was started, for a monitor that was armed: the object may have been removed by
-- an error, or be terminal.
pub arm_started :
    MonitorManager → ℕ → Option (Outcome MonitorError MonitorEntry × MonitorManager × List Notice)
arm_started m id = elim (find (λ a. a.entry.id == id) m.monitors) [
  | none ↦ none
  | some a ↦ some (started_by m a)
]

-- `arm` where starting the process throws.
pub arm_failed : MonitorManager → ℕ → MonitorManager × List Notice
arm_failed m id = on_monitor m id remove_without_event

pub diagnostics : ActiveMonitor → Text
diagnostics a =
    let out = if is_empty a.stdout_tail then [] else codes "stdout:\n" ++ a.stdout_tail in
    let partial =
      if not (is_empty a.stdout_buffer)
        && (elim a.entry.mode [ output_mode ↦ true | exit_mode ↦ false ])
      then codes "partial stdout (unterminated):\n" ++ a.stdout_buffer
      else [] in
    let err = if is_empty a.stderr_tail then [] else codes "stderr:\n" ++ a.stderr_tail in
    join_parts (out ∷ partial ∷ err ∷ [])
  where
    -- `parts.join("\n")`, of the parts that are not empty.
    join_parts : List Text → Text
    join_parts [] = []
    join_parts (p ∷ parts) =
        let rest = join_parts parts in
        if is_empty p then rest else if is_empty rest then p else p ++ (10 ∷ rest)

abbrev event_of : ActiveMonitor → EventKind → ℕ → EventText → Bool → MonitorEvent
event_of a kind now text terminal = record {
  id = a.entry.id;
  label = a.entry.label;
  kind = kind;
  at = now;
  text = text;
  terminal = terminal;
}

-- `emitOutput`; the identity of a line is its length and its hash.
pub emit_output : ActiveMonitor → Text → ℕ × ℕ → ℕ → ActiveMonitor × List Notice
emit_output a raw identity now =
    let text = trim raw in
    if is_empty text || a.terminal || any (λ s. s.0 == identity.0 && s.1 == identity.1) a.seen_lines
    then (a, [])
    else let b = record a {
      seen_lines = a.seen_lines ++ (identity ∷ []);
      events_seen = suc a.events_seen;
    } in
      if leb a.entry.max_events (suc a.events_seen)
      then finish_monitor b (event_of a output_event now (line text) true)
      else (b, happened (event_of a output_event now (line text) false) ∷ [])

-- A piece of a line is taken in.
pub absorb : ActiveMonitor → Text → ActiveMonitor
absorb a piece = record a {
  stdout_buffer = append_bounded_line a.stdout_buffer piece;
  line_hash = hash_line a.line_hash piece;
  line_length = a.line_length + length piece;
}

pub end_line : ActiveMonitor → ℕ → ActiveMonitor × List Notice
end_line a now =
    let (b, out) = emit_output a a.stdout_buffer (a.line_length, a.line_hash) now in
    (record b { stdout_buffer = []; line_hash = hash_start; line_length = 0 }, out)

-- A unit before the lines of a chunk and what is behind its last line break.
pub onto_first : ℕ → List Text × Text → List Text × Text
onto_first c ([], rest) = ([], c ∷ rest)
onto_first c (l ∷ lines, rest) = ((c ∷ l) ∷ lines, rest)

-- The lines of a chunk that are ended in it, and what is behind its last line break.
pub cut : Text → List Text × Text
cut [] = ([], [])
cut (c ∷ s) =
    let (lines, rest) = cut s in if c == 10 then ([] ∷ lines, rest) else onto_first c (lines, rest)

pub feed_lines : ActiveMonitor → List Text → Text → ℕ → ActiveMonitor × List Notice
feed_lines a [] rest now = (absorb a rest, [])
feed_lines a (l ∷ lines) rest now =
    let (b, out) = end_line (absorb a l) now in
    let (c, more) = feed_lines b lines rest now in if b.terminal then (b, out) else (c, out ++ more)

pub feed_by : MonitorMode → ActiveMonitor → Text → ℕ → ActiveMonitor × List Notice
feed_by exit_mode a chunk now = (record a { stdout_tail = append_tail a.stdout_tail chunk }, [])
feed_by output_mode a chunk now = let (lines, rest) = cut chunk in feed_lines a lines rest now

-- `receiveStdout` behind its guards.
pub feed_stdout : ActiveMonitor → Text → ℕ → ActiveMonitor × List Notice
feed_stdout a chunk now = feed_by a.entry.mode a chunk now

pub receive_stdout : MonitorManager → ℕ → Text → ℕ → MonitorManager × List Notice
receive_stdout m id chunk now =
    if is_empty chunk
    then (m, [])
    else on_monitor m id
        (λ a. let (b, out) = feed_stdout a chunk now in (b, observed id stdout chunk ∷ out))

pub receive_stderr : MonitorManager → ℕ → Text → MonitorManager × List Notice
receive_stderr m id chunk =
    if is_empty chunk
    then (m, [])
    else on_monitor m id (λ a.
      (record a { stderr_tail = append_tail a.stderr_tail chunk }, observed id stderr chunk ∷ []))

pub receive_exit : MonitorManager → ℕ → Option ℕ → Option Text → ℕ → MonitorManager × List Notice
receive_exit m id code signal now =
    on_monitor m id
      (λ a. finish_monitor a (event_of a exit_event now (exited code signal (diagnostics a)) true))

pub receive_error : MonitorManager → ℕ → Text → ℕ → MonitorManager × List Notice
receive_error m id message now = on_monitor m id (λ a.
    if a.starting
    then remove_without_event (record a { start_error = some message })
    else finish_monitor a (event_of a error_event now (failed message (diagnostics a)) true))

pub time_out : MonitorManager → ℕ → ℕ → MonitorManager × List Notice
time_out m id now = on_monitor m id (λ a. finish_monitor a (
    event_of a timeout_event now
      (timed_out (a.entry.expires_at - a.entry.started_at) (diagnostics a)) true))

pub cancel_monitor : MonitorManager → ℕ → MonitorManager × List Notice
cancel_monitor m id = on_monitor m id remove_without_event

pub cancel_each : MonitorManager → List ActiveMonitor → MonitorManager × List Notice
cancel_each m [] = (m, [])
cancel_each m (a ∷ rest) =
    let (m', out) = on_monitor m a.entry.id remove_without_event in
    let (m'', more) = cancel_each m' rest in (m'', out ++ more)

pub cancel_all : MonitorManager → MonitorManager × List Notice
cancel_all m = cancel_each m (filter is_live m.monitors)
