-- ===== src/Core/Monitor/Manager/Lifecycle.antt =====
-- The states that a manager of monitors can come to, with what it announced on the way.
use pi_persona.Base.{
  ℕ, suc, ◌+◌, ◌≤◌, ◌<◌, ◌≡◌, refl, inl, inr, false, Option, some, List, [], ◌++◌, arith, ◌==◌,
  length-append, filter, filter-append, Bool-cases, Text, Outcome, ok,
}
use pi_persona.Core.Monitor.{MonitorSpec, MonitorEntry, MonitorError, monitor_max_active}
use pi_persona.Core.Monitor.Active.{MonitorManager, Notice, is_live, active_count, new_manager}
use pi_persona.Core.Monitor.Manager.{
  arm, arm_started, arm_failed, receive_stdout, receive_stderr, receive_exit, receive_error,
  time_out, cancel_monitor, cancel_all,
}
use pi_persona.Core.Monitor.Manager.Steps.{arms, ends, armed_count, ended_count}
use pi_persona.Core.Monitor.Manager.Keeping.{live_count, Keeps}
use pi_persona.Core.Monitor.Manager.Counts.{
  Arms, receive_stdout-Keeps, receive_stderr-Keeps, receive_exit-Keeps, receive_error-Keeps,
  time_out-Keeps, cancel-Keeps, cancel_each-Keeps, arm_started-Keeps, arm-Arms,
}

pub data Reachable : MonitorManager → List Notice → Type 0 where
  created : Reachable new_manager []
  arming :
      {m : MonitorManager} {log : List Notice} (request : MonitorSpec) (now : ℕ)
      (m' : MonitorManager) (out : List Notice)
      → Reachable m log
      → arm m request now ≡ ok (m', out)
      → Reachable m' (log ++ out)
  starting :
      {m : MonitorManager} {log : List Notice} (id : ℕ) (r : Outcome MonitorError MonitorEntry)
      (m' : MonitorManager) (out : List Notice)
      → Reachable m log
      → arm_started m id ≡ some (r, m', out)
      → Reachable m' (log ++ out)
  failing :
      {m : MonitorManager} {log : List Notice} (id : ℕ)
      → Reachable m log
      → Reachable (arm_failed m id).0 (log ++ (arm_failed m id).1)
  writing :
      {m : MonitorManager} {log : List Notice} (id : ℕ) (chunk : Text) (now : ℕ)
      → Reachable m log
      → Reachable (receive_stdout m id chunk now).0 (log ++ (receive_stdout m id chunk now).1)
  complaining :
      {m : MonitorManager} {log : List Notice} (id : ℕ) (chunk : Text)
      → Reachable m log
      → Reachable (receive_stderr m id chunk).0 (log ++ (receive_stderr m id chunk).1)
  exiting :
      {m : MonitorManager} {log : List Notice} (id : ℕ) (code : Option ℕ) (signal : Option Text)
      (now : ℕ)
      → Reachable m log
      → Reachable
          (receive_exit m id code signal now).0
          (log ++ (receive_exit m id code signal now).1)
  breaking :
      {m : MonitorManager} {log : List Notice} (id : ℕ) (message : Text) (now : ℕ)
      → Reachable m log
      → Reachable (receive_error m id message now).0 (log ++ (receive_error m id message now).1)
  timing_out :
      {m : MonitorManager} {log : List Notice} (id now : ℕ)
      → Reachable m log
      → Reachable (time_out m id now).0 (log ++ (time_out m id now).1)
  cancelling :
      {m : MonitorManager} {log : List Notice} (id : ℕ)
      → Reachable m log
      → Reachable (cancel_monitor m id).0 (log ++ (cancel_monitor m id).1)
  cancelling_all :
      {m : MonitorManager} {log : List Notice}
      → Reachable m log
      → Reachable (cancel_all m).0 (log ++ (cancel_all m).1)

record IsAccounted (m : MonitorManager) (log : List Notice) : Type 0 where
  pub sum : (i : ℕ) → live_count i m + ended_count i log ≡ armed_count i log
  pub once : (i : ℕ) → armed_count i log ≤ 1
  pub fresh : (i : ℕ) → m.sequence < i → armed_count i log ≡ 0
  pub few : active_count m ≤ monitor_max_active

armed_count-append :
    (i : ℕ) (log out : List Notice)
    → armed_count i (log ++ out) ≡ armed_count i log + armed_count i out
armed_count-append i log out =
    rw (filter-append (arms i) log out) (length-append (filter (arms i) log) (filter (arms i) out))

ended_count-append :
    (i : ℕ) (log out : List Notice)
    → ended_count i (log ++ out) ≡ ended_count i log + ended_count i out
ended_count-append i log out =
    rw (filter-append (ends i) log out) (length-append (filter (ends i) log) (filter (ends i) out))

kept :
    {m m' : MonitorManager} {log out : List Notice}
    → Keeps m m' out
    → IsAccounted m log
    → IsAccounted m' (log ++ out)
kept {log} {out} k h = record {
  sum = λ i.
      rw (ended_count-append i log out, armed_count-append i log out)
        (omega (arith, k.moves i (omega (arith, h.sum i, h.once i)), h.sum i, k.arms_none i));
  once = λ i. rw (armed_count-append i log out) (omega (arith, h.once i, k.arms_none i));
  fresh = λ i l.
      rw (armed_count-append i log out)
        (omega (arith, h.fresh i (omega (arith, l, k.sequence)), k.arms_none i));
  few = omega (arith, k.fewer, h.few);
}

grown :
    {m m' : MonitorManager} {log out : List Notice}
    → Arms m m' out
    → IsAccounted m log
    → IsAccounted m' (log ++ out)
grown {m} {log} {out} k h = record {
  sum = λ i.
      rw (ended_count-append i log out, armed_count-append i log out)
        (omega (arith, k.lives i, h.sum i, k.arms_one i, k.ends_none i));
  once = λ i.
      rw (armed_count-append i log out, k.arms_one i)
        (elim (Bool-cases (suc m.sequence == i)) [
          | inl new ↦ let l : m.sequence < i = ground arith in rw new (omega (arith, h.fresh i l))
          | inr old ↦ rw old (omega (arith, h.once i))
        ]);
  fresh = λ i l.
      rw (armed_count-append i log out, k.arms_one i)
        (let old : (suc m.sequence == i) ≡ false = ground (arith, l, k.sequence) in
          rw old (omega (arith, h.fresh i (omega (arith, l, k.sequence)))));
  few = k.few;
}

Reachable-IsAccounted :
    {m : MonitorManager} {log : List Notice} → Reachable m log → IsAccounted m log
unfolding new_manager arm_failed cancel_monitor cancel_all
Reachable-IsAccounted created = record {
  sum = λ i. omega arith;
  once = λ i. omega arith;
  fresh = λ i l. refl;
  few = omega arith;
}
Reachable-IsAccounted (arming {m} request now m' out r e) =
    grown (arm-Arms m request now m' out e) (Reachable-IsAccounted r)
Reachable-IsAccounted (starting {m} id s m' out r e) =
    kept (arm_started-Keeps m id s m' out e) (Reachable-IsAccounted r)
Reachable-IsAccounted (failing {m} id r) = kept (cancel-Keeps m id) (Reachable-IsAccounted r)
Reachable-IsAccounted (writing {m} id chunk now r) =
    kept (receive_stdout-Keeps m id chunk now) (Reachable-IsAccounted r)
Reachable-IsAccounted (complaining {m} id chunk r) =
    kept (receive_stderr-Keeps m id chunk) (Reachable-IsAccounted r)
Reachable-IsAccounted (exiting {m} id code signal now r) =
    kept (receive_exit-Keeps m id code signal now) (Reachable-IsAccounted r)
Reachable-IsAccounted (breaking {m} id message now r) =
    kept (receive_error-Keeps m id message now) (Reachable-IsAccounted r)
Reachable-IsAccounted (timing_out {m} id now r) =
    kept (time_out-Keeps m id now) (Reachable-IsAccounted r)
Reachable-IsAccounted (cancelling {m} id r) = kept (cancel-Keeps m id) (Reachable-IsAccounted r)
Reachable-IsAccounted (cancelling_all {m} r) =
    kept (cancel_each-Keeps (filter is_live m.monitors) m) (Reachable-IsAccounted r)

-- In every state that the operations and the handlers lead to, in any order, each monitor that was
-- announced is either active, or its end was announced by one terminal event or one removal, and not
-- both; no id is announced twice, and at most eight monitors are active.
pub announced_once :
    (m : MonitorManager) (log : List Notice)
    → Reachable m log
    → (id : ℕ)
    → (live_count id m + ended_count id log ≡ armed_count id log)
      × (armed_count id log ≤ 1)
      × (active_count m ≤ monitor_max_active)
announced_once m log r id = let h = Reachable-IsAccounted r in (h.sum id, h.once id, h.few)
