-- ===== src/Orchestration/FlowRun.antt =====
-- orchestration/flow-run.ts: the rounds of runFlow, for a run that no signal aborts. A phase that runs is
-- its result and the order in which the results of a round come in; both are arguments, as is the answer
-- at a checkpoint. The texts of the tasks, the journal and the report are left out.
use pi_persona.Base.{
  ℕ, zero, suc, ◌≡◌, Bool, true, false, not, ◌&&◌, ◌||◌, Option, none, some, List, [], ◌∷◌, ◌++◌,
  map, if◌then◌else◌, or_else, filter, any, all, find, length, is_some, Text, text_eq, includes,
  is_empty, codes, TextMap, lookup, insert, All,
}
use pi_persona.Orchestration.Flow.{FlowPhase, needs_of, ids_of}
use pi_persona.Orchestration.Flow.Edges.{HasDistinctIds}
pub mod Coverage
pub mod Gates
pub mod Progress
pub mod Resolved
pub mod Rounds
mod Tests

pub data RunError : Type 0 where
  gate_refused need_failed_error : RunError
  need_lost : Text → RunError
  thrown : Text → RunError

-- The fields of a result that the rounds read.
pub record PhaseResult : Type 0 where
  pub ok : Bool
  pub output : Text
  pub error_text : Option RunError
  pub receipt_ref : Option Text
  pub journal_ref : Option Text
  pub is_version_one : Bool
  pub ref_unavailable : Option Text
  pub gate_approved : Bool

pub data GateState : Type 0 where
  passed rejected : GateState

pub record FlowState : Type 0 where
  pub done : TextMap PhaseResult
  pub gates : TextMap GateState
  pub blocked_ids : List Text

abbrev pub has_done : FlowState → Text → Bool
has_done s id = is_some (lookup id s.done)

abbrev pub is_lost : PhaseResult → Bool
is_lost r = elim r.ref_unavailable [ none ↦ false | some why ↦ not (is_empty why) ]

-- `byId.get(id)?.gate`
abbrev pub is_gated : List FlowPhase → Text → Bool
is_gated phases id = elim (find (λ p. text_eq p.id id) phases) [ none ↦ false | some p ↦ p.gate ]

-- What the archive has for a reference. A run without a reader finds all references unreadable.
pub data Archived : Type 0 where
  unreadable : Text → Archived
  unfinished : Archived
  whole : Text → Archived

pub lose : Text → PhaseResult → PhaseResult
lose why r = record r { output = []; ref_unavailable = some why }

pub read_back : (Text → Archived) → Text → PhaseResult → PhaseResult
read_back archive ref r = elim (archive ref) [
  | unreadable why ↦ lose why r
  | unfinished ↦ lose (codes "archived result is not done") r
  | whole body ↦ record r { output = body; receipt_ref = some ref }
]

pub restore_resumed : (Text → Archived) → PhaseResult → PhaseResult
restore_resumed archive r = if is_lost r then record r { output = [] } else elim r.journal_ref [
  | none ↦ lose (codes "journaled without a reference") r
  | some ref ↦
      if not r.is_version_one
      then lose (codes "unsupported journal version") r
      else read_back archive ref r
]

-- A restored result without a reference is lost, for the reason that it has, if it has one.
pub keep_or_lose : PhaseResult → PhaseResult
keep_or_lose r = if is_some r.receipt_ref then r else record r {
  ref_unavailable = some (or_else r.ref_unavailable (codes "no archived result reference"));
}

pub resumed : Bool → (Text → Archived) → PhaseResult → PhaseResult
resumed reference archive r =
    if reference && r.ok then keep_or_lose (restore_resumed archive r) else r

-- The results that an earlier run left, restored.
pub seed_one : List FlowPhase → Text → PhaseResult → FlowState → FlowState
seed_one phases id r s =
    if is_gated phases id && (r.ok && (not r.gate_approved && not (is_lost r)))
    then s
    else record s {
      done = insert id r s.done;
      gates = if is_gated phases id && r.gate_approved then insert id passed s.gates else s.gates;
    }

pub seed : List FlowPhase → TextMap PhaseResult → FlowState → FlowState
seed phases [] s = s
seed phases ((id, r) ∷ resume) s = seed phases resume (seed_one phases id r s)

abbrev pub empty_run : FlowState
empty_run = record { done = []; gates = []; blocked_ids = [] }

pub is_failed : Option PhaseResult → Bool
is_failed none = false
is_failed (some r) = not r.ok

abbrev pub is_done_not_ok : FlowState → Text → Bool
is_done_not_ok s id = is_failed (lookup id s.done)

abbrev pub is_rejected : FlowState → Text → Bool
is_rejected s id = elim (lookup id s.gates) [ some rejected ↦ true | _ ↦ false ]

pub gate_resolved : List FlowPhase → FlowState → Text → Bool
gate_resolved phases s id =
    not (is_gated phases id) || (is_some (lookup id s.gates) || is_done_not_ok s id)

pub need_failed : FlowState → Text → Bool
need_failed s id = is_done_not_ok s id || is_rejected s id

pub need_unavailable : FlowState → Text → Bool
need_unavailable s id = elim (lookup id s.done) [ none ↦ false | some r ↦ is_lost r ]

pub is_ready : List FlowPhase → FlowState → FlowPhase → Bool
is_ready phases s p = all (λ n. has_done s n && gate_resolved phases s n) (needs_of p)

pub is_blocked : FlowState → FlowPhase → Bool
is_blocked s p = any (λ n. need_failed s n || need_unavailable s n) (needs_of p)

pub blocked_result : FlowState → FlowPhase → PhaseResult
blocked_result s p = record {
  ok = false;
  output = [];
  error_text = some (
      if any (is_rejected s) (needs_of p)
      then gate_refused
      else elim (find (need_unavailable s) (needs_of p)) [
        | some n ↦ need_lost n
        | none ↦ need_failed_error
      ]);
  receipt_ref = none;
  journal_ref = none;
  is_version_one = false;
  ref_unavailable = none;
  gate_approved = false;
}

pub block_each : List FlowPhase → FlowState → FlowState
block_each [] s = s
block_each (p ∷ ps) s = block_each ps (record s {
  done = insert p.id (blocked_result s p) s.done;
  blocked_ids = s.blocked_ids ++ (p.id ∷ []);
})

-- What runs a phase, what a checkpoint is answered, and the order in which the results of a round come
-- in: each phase of the round settles once.
pub record Runner : Type 1 where
  pub run_phase : FlowPhase → PhaseResult
  pub approve_gate : FlowPhase → PhaseResult → Bool
  pub archive : Text → Archived
  pub arrange : List FlowPhase → List FlowPhase
  pub each_settles :
      (ps : List FlowPhase) (x : Text) → includes (ids_of (arrange ps)) x ≡ includes (ids_of ps) x
  pub settles_once : (ps : List FlowPhase) → HasDistinctIds ps → HasDistinctIds (arrange ps)
  pub settles_only : (P : FlowPhase → Type 0) (ps : List FlowPhase) → All P ps → All P (arrange ps)

pub settled_result : Bool → PhaseResult → PhaseResult
settled_result reference r =
    if reference && (r.ok && not (is_some r.receipt_ref))
    then record r { ref_unavailable = some (codes "no archived result reference") }
    else r

-- The phases without a result.
abbrev pub still_open : FlowState → List FlowPhase → List FlowPhase
still_open s ps = filter (λ p. not (has_done s p.id)) ps

module _ (phases : List FlowPhase) (reference : Bool) (runner : Runner) where
  pub settle_each : List FlowPhase → FlowState → FlowState
  settle_each [] s = s
  settle_each (p ∷ ps) s =
      settle_each ps
        (record s { done = insert p.id (settled_result reference (runner.run_phase p)) s.done })

  -- The checkpoint of a phase that a round completed.
  pub answer_gate : FlowPhase → FlowState → FlowState
  answer_gate p s =
      let r = settled_result reference (runner.run_phase p) in
      if p.gate && (r.ok && not (is_some (lookup p.id s.gates)))
      then record s {
        gates = insert p.id (if runner.approve_gate p r then passed else rejected) s.gates;
      }
      else s

  pub pass_gates : List FlowPhase → FlowState → FlowState
  pass_gates [] s = s
  pass_gates (p ∷ ps) s = pass_gates ps (answer_gate p s)

  pub round : List FlowPhase → FlowState → FlowState
  round ready s =
      let blocked = filter (is_blocked s) ready in
      let settled = runner.arrange (filter (λ p. not (is_blocked s p)) ready) in
      pass_gates settled (settle_each settled (block_each blocked s))

  -- The loop, with one round for each phase that is left.
  pub run_rounds : ℕ → List FlowPhase → FlowState → FlowState
  run_rounds zero left s = s
  run_rounds (suc rounds) left s = elim (filter (is_ready phases s) left) [
    | [] ↦ s
    | p ∷ ready ↦ let next = round (p ∷ ready) s in run_rounds rounds (still_open next left) next
  ]

  abbrev pub restored : TextMap PhaseResult → TextMap PhaseResult
  restored resume = map (λ e. (e.0, resumed reference runner.archive e.1)) resume

  pub run_flow : TextMap PhaseResult → FlowState
  run_flow resume =
      let start = seed phases (restored resume) empty_run in
      let left = still_open start phases in run_rounds (length left) left start
