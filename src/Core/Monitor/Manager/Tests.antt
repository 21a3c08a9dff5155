-- ===== src/Core/Monitor/Manager/Tests.antt =====
-- A monitor of one line, and one that is cancelled.
use pi_persona.Base.{
  ◌+◌, ◌≤◌, ◌≡◌, refl, true, false, none, some, [], ◌∷◌, ◌++◌, codes, ok, trim, drop_spaces,
  is_space,
}
use pi_persona.Core.Monitor.{
  validate, validate_texts, validate_args, validate_timeout, validate_events, or_then, amount_or,
  MonitorSpec, MonitorEntry, output_mode, monitor_max_active, hash_start, whole,
}
use pi_persona.Core.Monitor.Active.{ActiveMonitor, MonitorManager, new_manager, active_count, armed}
use pi_persona.Core.Monitor.Manager.{arm, cancel_monitor, feed_stdout, new_active, new_entry}
use pi_persona.Core.Monitor.Manager.Chunks.{and_then, feed_stdout-append}
use pi_persona.Core.Monitor.Manager.Steps.{armed_count, ended_count}
use pi_persona.Core.Monitor.Manager.Keeping.{live_count}
use pi_persona.Core.Monitor.Manager.Lifecycle.{created, arming, cancelling, announced_once}

abbrev request : MonitorSpec
request = record {
  command = codes "tail";
  args = none;
  cwd = codes "/";
  label = codes "log";
  mode = output_mode;
  timeout_ms = none;
  max_events = some (whole 2);
}

abbrev first_entry : MonitorEntry
first_entry = record {
  id = 1;
  label = codes "log";
  command = codes "tail";
  args = [];
  cwd = codes "/";
  mode = output_mode;
  started_at = 7;
  expires_at = 600007;
  max_events = 2;
}

abbrev watching : ActiveMonitor
watching = record {
  entry = first_entry;
  has_handle = false;
  starting = true;
  start_error = none;
  has_process = false;
  terminal = false;
  stdout_buffer = [];
  stdout_tail = [];
  stderr_tail = [];
  seen_lines = [];
  events_seen = 0;
  line_hash = hash_start;
  line_length = 0;
}

abbrev armed_first : MonitorManager
armed_first = record { sequence = 1; monitors = watching ∷ [] }

arms_first : arm new_manager request 7 ≡ ok (armed_first, armed first_entry ∷ [])
unfolding arm new_manager new_active new_entry validate validate_texts validate_args
    validate_timeout validate_events or_then amount_or trim drop_spaces is_space
arms_first = refl

announced_once_example :
    let (m, out) = cancel_monitor armed_first 1 in
    let log = (armed first_entry ∷ []) ++ out in
    (live_count 1 m + ended_count 1 log ≡ armed_count 1 log)
    × (armed_count 1 log ≤ 1)
    × (active_count m ≤ monitor_max_active)
announced_once_example =
    announced_once _ _
      (cancelling 1 (arming request 7 armed_first (armed first_entry ∷ []) created arms_first)) 1

-- The line "ab" in two chunks.
feed_stdout-append_example :
    feed_stdout watching (codes "ab\n") 9
    ≡ and_then (feed_stdout watching (codes "a") 9) (λ b. feed_stdout b (codes "b\n") 9)
feed_stdout-append_example = feed_stdout-append watching (codes "a") (codes "b\n") 9 refl refl
