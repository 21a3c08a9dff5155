-- ===== src/Core/Monitor/Manager/Steps.antt =====
-- What an operation on one live monitor may do, and that each operation does no more.
use pi_persona.Base.{
  ℕ, suc, ◌≡◌, ◌∙◌, sym, refl, subst, inl, inr, Bool, true, false, ◌&&◌, ◌||◌, List, [], ◌∷◌, ◌++◌,
  arith, leb, ◌==◌, if◌then◌else◌, length, length-append, filter, filter-append, any, Bool-cases,
  Text, is_empty, trim,
}
use pi_persona.Core.Monitor.{MonitorEntry, MonitorMode, output_mode, exit_mode}
use pi_persona.Core.Monitor.Active.{
  ActiveMonitor, MonitorEvent, MonitorManager, Notice, armed, happened, removed, is_live,
  release_all, finish_monitor, remove_without_event,
}
use pi_persona.Core.Monitor.Manager.{emit_output, absorb, end_line, feed_lines, feed_by, cut}

-- The announcement of a new monitor, and what tells that one is gone.
abbrev pub arms : ℕ → Notice → Bool
arms id (armed e) = e.id == id
arms id _ = false

abbrev pub ends : ℕ → Notice → Bool
ends id (happened e) = e.terminal && e.id == id
ends id (removed e) = e.id == id
ends id _ = false

abbrev pub armed_count : ℕ → List Notice → ℕ
armed_count id log = length (filter (arms id) log)

abbrev pub ended_count : ℕ → List Notice → ℕ
ended_count id log = length (filter (ends id) log)

abbrev pub live_count : ℕ → MonitorManager → ℕ
live_count id m = length (filter (λ a. a.entry.id == id && is_live a) m.monitors)

-- What an operation on one live object may do: nothing is armed, and the end is announced once where the
-- object becomes terminal.
pub record IsStep (a b : ActiveMonitor) (out : List Notice) : Type 0 where
  pub entry : b.entry ≡ a.entry
  pub arms_none : (i : ℕ) → armed_count i out ≡ 0
  pub ends_once : (i : ℕ) → ended_count i out ≡ (if b.terminal && a.entry.id == i then 1 else 0)

abbrev pub IsStepOf : ActiveMonitor → ActiveMonitor × List Notice → Type 0
IsStepOf a (b, out) = IsStep a b out

release_all-quiet :
    (a : ActiveMonitor) (i : ℕ)
    → (armed_count i (release_all a) ≡ 0) × (ended_count i (release_all a) ≡ 0)
unfolding release_all
release_all-quiet a i = elim (Bool-cases a.has_handle) [
  | inl h ↦ elim (Bool-cases a.has_process) [
    | inl p ↦ rw (h, p) (refl, refl)
    | inr p ↦ rw (h, p) (refl, refl)
  ]
  | inr h ↦ elim (Bool-cases a.has_process) [
    | inl p ↦ rw (h, p) (refl, refl)
    | inr p ↦ rw (h, p) (refl, refl)
  ]
]

-- The release of an object and one announcement of its end.
ending :
    (a b : ActiveMonitor) (n : Notice)
    → b.entry ≡ a.entry
    → b.terminal ≡ true
    → ((i : ℕ) → arms i n ≡ false)
    → ((i : ℕ) → ends i n ≡ (a.entry.id == i))
    → IsStep a b (release_all a ++ (n ∷ []))
ending a b n same over quiet own = record {
  entry = same;
  arms_none = λ i. rw (filter-append (arms i) (release_all a) (n ∷ [])) (
      omega (
        arith,
        length-append (filter (arms i) (release_all a)) (filter (arms i) (n ∷ [])),
        (release_all-quiet a i).0,
        (let e : length (filter (arms i) (n ∷ [])) ≡ 0 = rw (quiet i) refl in e),
      ));
  ends_once = λ i.
      rw (filter-append (ends i) (release_all a) (n ∷ []), over)
        (let e : length (filter (ends i) (n ∷ [])) ≡ (if a.entry.id == i then 1 else 0) =
            rw (own i) (ground arith) in
          omega (
            arith,
            length-append (filter (ends i) (release_all a)) (filter (ends i) (n ∷ [])),
            (release_all-quiet a i).1,
            e,
          ));
}

pub if_true {ℓ} : {A : Type ℓ} (b : Bool) (x y : A) → b ≡ true → (if b then x else y) ≡ x
if_true b x y e = rw e refl

pub if_false {ℓ} : {A : Type ℓ} (b : Bool) (x y : A) → b ≡ false → (if b then x else y) ≡ y
if_false b x y e = rw e refl

pub finish-IsStep :
    (a : ActiveMonitor) (e : MonitorEvent)
    → a.terminal ≡ false
    → e.terminal ≡ true
    → e.id ≡ a.entry.id
    → IsStep a (finish_monitor a e).0 (finish_monitor a e).1
unfolding finish_monitor
finish-IsStep a e live last own = subst (IsStepOf a) (sym (if_false a.terminal _ _ live)) (
    ending a (record a { terminal = true }) (happened e) refl refl (λ i. refl)
      (λ i. rw (last, own) refl))

pub remove-IsStep :
    (a : ActiveMonitor)
    → a.terminal ≡ false
    → IsStep a (remove_without_event a).0 (remove_without_event a).1
unfolding remove_without_event
remove-IsStep a live =
    subst (IsStepOf a) (sym (if_false a.terminal _ _ live))
      (ending a (record a { terminal = true }) (removed a.entry) refl refl (λ i. refl) (λ i. refl))

-- An announcement of neither kind, from a live object to a live one.
pub quiet-IsStep :
    (a b : ActiveMonitor) (out : List Notice)
    → b.entry ≡ a.entry
    → b.terminal ≡ false
    → ((i : ℕ) → armed_count i out ≡ 0)
    → ((i : ℕ) → ended_count i out ≡ 0)
    → IsStep a b out
quiet-IsStep a b out same live h k = record {
  entry = same;
  arms_none = h;
  ends_once = λ i. rw (live, k i) refl;
}

pub IsStep-from :
    (a a' b : ActiveMonitor) (out : List Notice)
    → a.entry ≡ a'.entry
    → IsStep a b out
    → IsStep a' b out
IsStep-from a a' b out e h = record {
  entry = h.entry ∙ e;
  arms_none = h.arms_none;
  ends_once = λ i.
      subst (λ (k : MonitorEntry). ended_count i out ≡ (if b.terminal && k.id == i then 1 else 0)) e
        (h.ends_once i);
}

-- One step behind another, which left the object live.
pub IsStep-append :
    (a b c : ActiveMonitor) (out more : List Notice)
    → b.terminal ≡ false
    → IsStep a b out
    → IsStep b c more
    → IsStep a c (out ++ more)
IsStep-append a b c out more live h k = record {
  entry = k.entry ∙ h.entry;
  arms_none = λ i. rw (filter-append (arms i) out more) (
      omega (
        arith,
        length-append (filter (arms i) out) (filter (arms i) more),
        h.arms_none i,
        k.arms_none i,
      ));
  ends_once = λ i. rw (filter-append (ends i) out more) (
      let none : ended_count i out ≡ 0 = h.ends_once i ∙ rw live refl in
      let one : ended_count i more ≡ (if c.terminal && a.entry.id == i then 1 else 0) =
        subst
          (λ (e : MonitorEntry). ended_count i more ≡ (if c.terminal && e.id == i then 1 else 0))
          h.entry (k.ends_once i) in
      length-append (filter (ends i) out) (filter (ends i) more) ∙ omega (arith, none, one));
}

emit_output-IsStep :
    (a : ActiveMonitor) (raw : Text) (identity : ℕ × ℕ) (now : ℕ)
    → a.terminal ≡ false
    → IsStep a (emit_output a raw identity now).0 (emit_output a raw identity now).1
unfolding emit_output
emit_output-IsStep a raw identity now live =
    elim (Bool-cases (
      is_empty (trim raw)
      || a.terminal
      || any (λ s. s.0 == identity.0 && s.1 == identity.1) a.seen_lines)) [
        | inl skipped ↦ rw skipped (quiet-IsStep a a [] refl live (λ i. refl) (λ i. refl))
        | inr new ↦ elim (Bool-cases (leb a.entry.max_events (suc a.events_seen))) [
          | inl last ↦ rw (new, last) (IsStep-from _ a _ _ refl (finish-IsStep _ _ live refl refl))
          | inr more ↦ rw (new, more) (quiet-IsStep a _ _ refl live (λ i. refl) (λ i. refl))
        ]
      ]

end_line-IsStep :
    (a : ActiveMonitor) (now : ℕ)
    → a.terminal ≡ false
    → IsStep a (end_line a now).0 (end_line a now).1
unfolding end_line
end_line-IsStep a now live =
    let h = emit_output-IsStep a a.stdout_buffer (a.line_length, a.line_hash) now live in
    record { entry = h.entry; arms_none = h.arms_none; ends_once = h.ends_once }

absorb-IsStep : (a : ActiveMonitor) (s : Text) → a.terminal ≡ false → IsStep a (absorb a s) []
unfolding absorb
absorb-IsStep a s live = quiet-IsStep a _ [] refl live (λ i. refl) (λ i. refl)

absorb-live : (a : ActiveMonitor) (s : Text) → (absorb a s).terminal ≡ a.terminal
unfolding absorb
absorb-live a s = refl

feed_lines-IsStep :
    (lines : List Text) (a : ActiveMonitor) (rest : Text) (now : ℕ)
    → a.terminal ≡ false
    → IsStep a (feed_lines a lines rest now).0 (feed_lines a lines rest now).1
unfolding feed_lines
feed_lines-IsStep [] a rest now live = absorb-IsStep a rest live
feed_lines-IsStep (l ∷ lines) a rest now live =
    let h =
      IsStep-append a (absorb a l) _ [] _ (absorb-live a l ∙ live) (absorb-IsStep a l live)
        (end_line-IsStep (absorb a l) now (absorb-live a l ∙ live)) in
    elim (Bool-cases (end_line (absorb a l) now).0.terminal) [
      | inl over ↦ subst (IsStepOf a) (sym (if_true _ _ _ over)) h
      | inr on ↦ subst (IsStepOf a) (sym (if_false _ _ _ on)) (
          IsStep-append a _ _ _ _ on h
            (feed_lines-IsStep lines (end_line (absorb a l) now).0 rest now on))
    ]

pub feed_by-IsStep :
    (mode : MonitorMode) (a : ActiveMonitor) (chunk : Text) (now : ℕ)
    → a.terminal ≡ false
    → IsStep a (feed_by mode a chunk now).0 (feed_by mode a chunk now).1
unfolding feed_by
feed_by-IsStep exit_mode a chunk now live = quiet-IsStep a _ [] refl live (λ i. refl) (λ i. refl)
feed_by-IsStep output_mode a chunk now live =
    feed_lines-IsStep (cut chunk).0 a (cut chunk).1 now live
