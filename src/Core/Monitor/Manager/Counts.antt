-- ===== src/Core/Monitor/Manager/Counts.antt =====
-- What the operations of a manager do to the counts of its monitors.
use mathlib.Core.Option.{some-injective}
use pi_persona.Base.{
  ℕ, suc, ◌+◌, ◌≤◌, ◌≡◌, ◌∙◌, sym, refl, subst, inl, inr, false, ◌&&◌, Option, none, some, List, [],
  ◌∷◌, ◌++◌, arith, leb, ◌==◌, if◌then◌else◌, length-append, filter, filter-append, find,
  Bool-cases, Option-cases, Text, is_empty, Outcome, ok, error,
}
use pi_persona.Core.Monitor.{
  MonitorSpec, MonitorEntry, MonitorError, too_many, monitor_max_active, validate,
}
use pi_persona.Core.Monitor.Active.{
  ActiveMonitor, MonitorManager, Notice, armed, timer_set, is_live, put, active_count,
  remove_without_event, on_monitor,
}
use pi_persona.Core.Monitor.Manager.{
  new_entry, new_active, arm, started_by, arm_started, feed_stdout, receive_stdout, receive_stderr,
  receive_exit, receive_error, time_out, cancel_each,
}
use pi_persona.Core.Monitor.Manager.Steps.{
  armed_count, ended_count, IsStepOf, feed_by-IsStep, finish-IsStep, remove-IsStep, quiet-IsStep,
  IsStep-from, if_true, if_false,
}
use pi_persona.Core.Monitor.Manager.Keeping.{
  live_count, Keeps, Keeps-refl, put-live_count, put-active_count, on_monitor-Keeps, Keeps-append,
}

pub receive_stdout-Keeps :
    (m : MonitorManager) (id : ℕ) (chunk : Text) (now : ℕ)
    → Keeps m (receive_stdout m id chunk now).0 (receive_stdout m id chunk now).1
unfolding receive_stdout feed_stdout
receive_stdout-Keeps m id chunk now = elim (Bool-cases (is_empty chunk)) [
  | inl nothing ↦ rw nothing (Keeps-refl m [] (λ i. refl) (λ i. refl))
  | inr bytes ↦ rw bytes (
      on_monitor-Keeps m id _ (λ a live.
        let h = feed_by-IsStep a.entry.mode a chunk now live in
        record { entry = h.entry; arms_none = h.arms_none; ends_once = h.ends_once }))
]

pub receive_stderr-Keeps :
    (m : MonitorManager) (id : ℕ) (chunk : Text)
    → Keeps m (receive_stderr m id chunk).0 (receive_stderr m id chunk).1
unfolding receive_stderr
receive_stderr-Keeps m id chunk = elim (Bool-cases (is_empty chunk)) [
  | inl nothing ↦ rw nothing (Keeps-refl m [] (λ i. refl) (λ i. refl))
  | inr bytes ↦
      rw bytes
        (on_monitor-Keeps m id _ (λ a live. quiet-IsStep a _ _ refl live (λ i. refl) (λ i. refl)))
]

pub receive_exit-Keeps :
    (m : MonitorManager) (id : ℕ) (code : Option ℕ) (signal : Option Text) (now : ℕ)
    → Keeps m (receive_exit m id code signal now).0 (receive_exit m id code signal now).1
unfolding receive_exit
receive_exit-Keeps m id code signal now =
    on_monitor-Keeps m id _ (λ a live. finish-IsStep a _ live refl refl)

pub time_out-Keeps :
    (m : MonitorManager) (id now : ℕ) → Keeps m (time_out m id now).0 (time_out m id now).1
unfolding time_out
time_out-Keeps m id now = on_monitor-Keeps m id _ (λ a live. finish-IsStep a _ live refl refl)

pub receive_error-Keeps :
    (m : MonitorManager) (id : ℕ) (message : Text) (now : ℕ)
    → Keeps m (receive_error m id message now).0 (receive_error m id message now).1
unfolding receive_error
receive_error-Keeps m id message now = on_monitor-Keeps m id _ (λ a live.
    elim (Bool-cases a.starting) [
      | inl early ↦
          subst (IsStepOf a) (sym (if_true a.starting _ _ early)) (
            IsStep-from _ a _ _ refl (remove-IsStep (record a { start_error = some message }) live))
      | inr late ↦
          subst (IsStepOf a) (sym (if_false a.starting _ _ late)) (finish-IsStep a _ live refl refl)
    ])

pub cancel-Keeps :
    (m : MonitorManager) (id : ℕ)
    → Keeps m (on_monitor m id remove_without_event).0 (on_monitor m id remove_without_event).1
cancel-Keeps m id = on_monitor-Keeps m id remove_without_event remove-IsStep

pub cancel_each-Keeps :
    (objects : List ActiveMonitor) (m : MonitorManager)
    → Keeps m (cancel_each m objects).0 (cancel_each m objects).1
unfolding cancel_each
cancel_each-Keeps [] m = Keeps-refl m [] (λ i. refl) (λ i. refl)
cancel_each-Keeps (a ∷ objects) m =
    Keeps-append (cancel-Keeps m a.entry.id) (cancel_each-Keeps objects _)

put-quiet :
    (m : MonitorManager) (b : ActiveMonitor) (id : ℕ)
    → b.terminal ≡ false
    → Keeps m (put m b) (timer_set id ∷ [])
put-quiet m b id live = record {
  sequence = refl;
  arms_none = λ i. refl;
  moves = λ i few. rw (put-live_count b i m.monitors) (ground arith);
  fewer = put-active_count b m.monitors;
}

abbrev KeepsOf :
    MonitorManager → Outcome MonitorError MonitorEntry × MonitorManager × List Notice → Type 0
KeepsOf m (r, m', out) = Keeps m m' out

started_by-Keeps : (m : MonitorManager) (a : ActiveMonitor) → KeepsOf m (started_by m a)
unfolding started_by
started_by-Keeps m a = elim (Option-cases a.start_error) [
  | inr (e, failed) ↦ rw (failed, started_by) (Keeps-refl m _ (λ i. refl) (λ i. refl))
  | inl fine ↦ elim (Bool-cases a.terminal) [
    | inl over ↦
        rw (fine, started_by)
          (subst (KeepsOf m) (sym (if_true a.terminal _ _ over))
            (Keeps-refl m _ (λ i. refl) (λ i. refl)))
    | inr on ↦
        rw (fine, started_by)
          (subst (KeepsOf m) (sym (if_false a.terminal _ _ on)) (put-quiet m _ a.entry.id on))
  ]
]

pub arm_started-Keeps :
    (m : MonitorManager) (id : ℕ) (r : Outcome MonitorError MonitorEntry) (m' : MonitorManager)
    (out : List Notice)
    → arm_started m id ≡ some (r, m', out)
    → Keeps m m' out
unfolding arm_started
arm_started-Keeps m id r m' out e = elim (Option-cases (find (λ a. a.entry.id == id) m.monitors)) [
  | inl unknown ↦ absurd (let k : none ≡ some (r, m', out) = rw (unknown, arm_started) at e in cc)
  | inr (a, found) ↦
      let k = some-injective _ _ (rw (found, arm_started) at e) in
      subst
        (λ (p : Outcome MonitorError MonitorEntry × MonitorManager × List Notice). Keeps m p.1 p.2)
        k (started_by-Keeps m a)
]

-- What an admitted monitor does to the counts.
pub record Arms (m m' : MonitorManager) (out : List Notice) : Type 0 where
  pub sequence : m'.sequence ≡ suc m.sequence
  pub arms_one : (i : ℕ) → armed_count i out ≡ (if suc m.sequence == i then 1 else 0)
  pub ends_none : (i : ℕ) → ended_count i out ≡ 0
  pub lives : (i : ℕ) → live_count i m' ≡ live_count i m + (if suc m.sequence == i then 1 else 0)
  pub few : active_count m' ≤ monitor_max_active

abbrev ArmsOf : MonitorManager → Outcome MonitorError (MonitorManager × List Notice) → Type 0
ArmsOf m (error e) = Unit
ArmsOf m (ok (m', out)) = Arms m m' out

armed_one :
    (m : MonitorManager) (e : MonitorEntry)
    → leb monitor_max_active (active_count m) ≡ false
    → e.id ≡ suc m.sequence
    → Arms m
        (record { sequence = suc m.sequence; monitors = m.monitors ++ (new_active e ∷ []) })
        (armed e ∷ [])
unfolding new_active
armed_one m e room own = record {
  sequence = refl;
  arms_one = λ i. rw own (ground arith);
  ends_none = λ i. refl;
  lives = λ i.
      rw (filter-append (λ a. a.entry.id == i && is_live a) m.monitors (new_active e ∷ [])) (
        length-append (filter (λ a. a.entry.id == i && is_live a) m.monitors) _
        ∙ rw own (ground arith));
  few =
      rw (filter-append is_live m.monitors (new_active e ∷ [])) (
        let l = length-append (filter is_live m.monitors) (new_active e ∷ []) in ground (arith, l));
}

pub arm-Arms :
    (m : MonitorManager) (request : MonitorSpec) (now : ℕ) (m' : MonitorManager) (out : List Notice)
    → arm m request now ≡ ok (m', out)
    → Arms m m' out
unfolding arm new_entry
arm-Arms m request now m' out e = elim (Option-cases (validate request)) [
  | inr (why, bad) ↦ absurd (let k : error why ≡ ok (m', out) = rw (bad, arm) at e in cc)
  | inl good ↦ elim (Bool-cases (leb monitor_max_active (active_count m))) [
    | inl full ↦ absurd (let k : error too_many ≡ ok (m', out) = rw (good, arm, full) at e in cc)
    | inr room ↦
        subst (λ (r : Outcome MonitorError (MonitorManager × List Notice)). ArmsOf m r)
          (rw (good, arm, room) at e)
          (armed_one m (new_entry request (suc m.sequence) now) room refl)
  ]
]
