-- ===== src/Core/Monitor/Active.antt =====
-- core/monitor.ts: the class MonitorManager. A monitor whose object is terminal is not in the map any
-- more: `finish` and `removeWithoutEvent`, which alone do either, do both. So the map is the list of
-- the objects made, and what is in it are those that are not terminal. An operation hands on its calls
-- of the injected functions, in their order; these do not call the manager back, except while a process
-- is started, which is a phase of its own.
use pi_persona.Base.{
  ℕ, Bool, true, not, ◌&&◌, Option, none, some, List, [], ◌∷◌, ◌++◌, map, ◌==◌, if◌then◌else◌, find,
  filter, length, Text,
}
use pi_persona.Core.Monitor.{MonitorEntry}

pub data EventKind : Type 0 where
  output_event exit_event error_event timeout_event : EventKind

-- The parts that the text of an event is made of.
pub data EventText : Type 0 where
  line : Text → EventText
  timed_out : ℕ → Text → EventText
  exited : Option ℕ → Option Text → Text → EventText
  failed : Text → Text → EventText

pub record MonitorEvent : Type 0 where
  pub id : ℕ
  pub label : Text
  pub kind : EventKind
  pub at : ℕ
  pub text : EventText
  pub terminal : Bool

pub data Stream : Type 0 where
  stdout stderr : Stream

pub record ActiveMonitor : Type 0 where
  pub entry : MonitorEntry
  pub has_handle : Bool
  pub starting : Bool
  pub start_error : Option Text
  pub has_process : Bool
  pub terminal : Bool
  pub stdout_buffer : Text
  pub stdout_tail : Text
  pub stderr_tail : Text
  pub seen_lines : List (ℕ × ℕ)
  pub events_seen : ℕ
  pub line_hash : ℕ
  pub line_length : ℕ

pub record MonitorManager : Type 0 where
  pub sequence : ℕ
  pub monitors : List ActiveMonitor

-- The calls of the injected functions.
pub data Notice : Type 0 where
  armed : MonitorEntry → Notice
  observed : ℕ → Stream → Text → Notice
  happened : MonitorEvent → Notice
  removed : MonitorEntry → Notice
  timer_set timer_cleared stopped : ℕ → Notice

unfoldable pub new_manager : MonitorManager
new_manager = record { sequence = 0; monitors = [] }

abbrev pub is_live : ActiveMonitor → Bool
is_live a = not a.terminal

-- `this.monitors.get(id)`
abbrev pub get : MonitorManager → ℕ → Option ActiveMonitor
get m id = find (λ a. a.entry.id == id && is_live a) m.monitors

-- The object in the map that has the id of `a` becomes `a`.
abbrev pub put : MonitorManager → ActiveMonitor → MonitorManager
put m a = record m {
  monitors = map (λ b. if b.entry.id == a.entry.id && is_live b then a else b) m.monitors;
}

abbrev pub active_count : MonitorManager → ℕ
active_count m = length (filter is_live m.monitors)

-- What `finish` and `removeWithoutEvent` release.
unfoldable pub release_all : ActiveMonitor → List Notice
release_all a =
    (if a.has_handle then timer_cleared a.entry.id ∷ [] else [])
    ++ (if a.has_process then stopped a.entry.id ∷ [] else [])

unfoldable pub finish_monitor : ActiveMonitor → MonitorEvent → ActiveMonitor × List Notice
finish_monitor a event =
    if a.terminal
    then (a, [])
    else (record a { terminal = true }, release_all a ++ (happened event ∷ []))

unfoldable pub remove_without_event : ActiveMonitor → ActiveMonitor × List Notice
remove_without_event a =
    if a.terminal
    then (a, [])
    else (record a { terminal = true }, release_all a ++ (removed a.entry ∷ []))

-- An operation on the object of an id, which does nothing where the map has none.
unfoldable pub on_monitor :
    MonitorManager
    → ℕ
    → (ActiveMonitor → ActiveMonitor × List Notice)
    → MonitorManager × List Notice
on_monitor m id act = elim (get m id) [
  | none ↦ (m, [])
  | some a ↦ let (b, out) = act a in (put m b, out)
]
