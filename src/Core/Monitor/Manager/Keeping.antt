-- ===== src/Core/Monitor/Manager/Keeping.antt =====
-- What an operation on one monitor of a manager does to the counts of its monitors.
use pi_persona.Base.{
  ℕ, ◌+◌, ◌≤◌, ◌≡◌, ◌∙◌, refl, ap, subst, inl, inr, false, ◌&&◌, some, List, [], ◌∷◌, ◌++◌, map,
  arith, ◌==◌, if◌then◌else◌, length, length-append, filter, filter-append, find, find-filter,
  Bool-cases, Option-cases,
}
use pi_persona.Core.Monitor.{MonitorEntry}
use pi_persona.Core.Monitor.Active.{
  ActiveMonitor, MonitorManager, Notice, is_live, get, put, active_count, on_monitor,
}
use pi_persona.Core.Monitor.Manager.Steps.{arms, ends, armed_count, ended_count, IsStep, IsStepOf}

abbrev pub live_count : ℕ → MonitorManager → ℕ
live_count id m = length (filter (λ a. a.entry.id == id && is_live a) m.monitors)

-- What an operation on the manager that arms nothing does to the counts.
pub record Keeps (m m' : MonitorManager) (out : List Notice) : Type 0 where
  pub sequence : m'.sequence ≡ m.sequence
  pub arms_none : (i : ℕ) → armed_count i out ≡ 0
  pub moves : (i : ℕ) → live_count i m ≤ 1 → live_count i m' + ended_count i out ≡ live_count i m
  pub fewer : active_count m' ≤ active_count m

pub Keeps-refl :
    (m : MonitorManager) (out : List Notice)
    → ((i : ℕ) → armed_count i out ≡ 0)
    → ((i : ℕ) → ended_count i out ≡ 0)
    → Keeps m m out
Keeps-refl m out h k = record {
  sequence = refl;
  arms_none = h;
  moves = λ i few. omega (arith, k i);
  fewer = omega arith;
}

pub put-live_count :
    (b : ActiveMonitor) (i : ℕ) (objects : List ActiveMonitor)
    → length (
        filter
          (λ a. a.entry.id == i && is_live a)
          (map (λ a. if a.entry.id == b.entry.id && is_live a then b else a) objects))
      ≡ (if b.entry.id == i && b.terminal
          then 0
          else length (filter (λ a. a.entry.id == i && is_live a) objects))
put-live_count b i [] = ground arith
put-live_count b i (a ∷ objects) = ground (arith, put-live_count b i objects)

pub put-active_count :
    (b : ActiveMonitor) (objects : List ActiveMonitor)
    → length
        (filter is_live (map (λ a. if a.entry.id == b.entry.id && is_live a then b else a) objects))
      ≤ length (filter is_live objects)
put-active_count b [] = omega arith
put-active_count b (a ∷ objects) = ground (arith, put-active_count b objects)

found-live :
    (id : ℕ) (objects : List ActiveMonitor) (a : ActiveMonitor)
    → find (λ b. b.entry.id == id && is_live b) objects ≡ some a
    → 1 ≤ length (filter (λ b. b.entry.id == id && is_live b) objects)
found-live id [] a h = ground arith
found-live id (b ∷ objects) a h = ground (arith, found-live id objects a)

pub put-Keeps :
    (m : MonitorManager) (id : ℕ) (a b : ActiveMonitor) (out : List Notice)
    → get m id ≡ some a
    → IsStep a b out
    → Keeps m (put m b) out
put-Keeps m id a b out e h = record {
  sequence = refl;
  arms_none = h.arms_none;
  moves = λ i few.
      let c = put-live_count b i m.monitors in
      let own : a.entry.id ≡ id =
        ground (arith, find-filter (λ b. b.entry.id == id && is_live b) m.monitors a e) in
      let same : b.entry.id ≡ id = ap (λ (k : MonitorEntry). k.id) h.entry ∙ own in
      let one : ended_count i out ≡ (if b.terminal && id == i then 1 else 0) =
        rw own at (h.ends_once i) in
      let has = found-live id m.monitors a e in
      rw c (
        rw (one, same)
          (elim (Bool-cases b.terminal) [
            | inl over ↦ elim (Bool-cases (id == i)) [
              | inl hit ↦
                  let k : id ≡ i = ground arith in
                  let l : 1 ≤ live_count i m = subst (λ j. 1 ≤ live_count j m) k has in
                  rw (over, hit) (omega (arith, few, l))
              | inr miss ↦ rw (over, miss) (omega arith)
            ]
            | inr on ↦ ground arith
          ]));
  fewer = put-active_count b m.monitors;
}

pub on_monitor-Keeps :
    (m : MonitorManager) (id : ℕ) (act : ActiveMonitor → ActiveMonitor × List Notice)
    → ((a : ActiveMonitor) → a.terminal ≡ false → IsStepOf a (act a))
    → Keeps m (on_monitor m id act).0 (on_monitor m id act).1
unfolding on_monitor
on_monitor-Keeps m id act f = elim (Option-cases (get m id)) [
  | inl unknown ↦ rw (unknown, on_monitor) (Keeps-refl m [] (λ i. refl) (λ i. refl))
  | inr (a, e) ↦
      let live : a.terminal ≡ false =
        ground (arith, find-filter (λ b. b.entry.id == id && is_live b) m.monitors a e) in
      rw (e, on_monitor) (put-Keeps m id a (act a).0 (act a).1 e (f a live))
]

pub Keeps-append :
    {m m' m'' : MonitorManager} {out more : List Notice}
    → Keeps m m' out
    → Keeps m' m'' more
    → Keeps m m'' (out ++ more)
Keeps-append {m} {m'} {m''} {out} {more} h k = record {
  sequence = k.sequence ∙ h.sequence;
  arms_none = λ i. rw (filter-append (arms i) out more) (
      omega (
        arith,
        length-append (filter (arms i) out) (filter (arms i) more),
        h.arms_none i,
        k.arms_none i,
      ));
  moves = λ i few. rw (filter-append (ends i) out more) (
      omega (
        arith,
        length-append (filter (ends i) out) (filter (ends i) more),
        h.moves i few,
        k.moves i (omega (arith, h.moves i few, few)),
      ));
  fewer = omega (arith, h.fewer, k.fewer);
}
