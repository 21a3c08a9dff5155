-- ===== src/Orchestration/FlowRun/Tests.antt =====
-- Runs of a flow of three phases.
use pi_persona.Base.{
  ◌≡◌, refl, Bool, true, false, not, Option, none, some, List, [], ◌∷◌, Text, codes, text_eq,
  lookup, insert, All, map,
}
use pi_persona.Orchestration.Flow.{FlowPhase}
use pi_persona.Orchestration.Flow.Tests.{ladder, phase}
use pi_persona.Orchestration.FlowFile.Tests.{ladder_file, ladder_flow, parse_flow-ladder}
use pi_persona.Orchestration.FlowRun.{
  PhaseResult, FlowState, unreadable, resumed, restore_resumed, keep_or_lose, read_back, lose,
  restored, Runner, seed_one, seed, gate_resolved, is_failed, need_failed, need_unavailable,
  is_ready, is_blocked, blocked_result, block_each, settled_result, settle_each, answer_gate,
  pass_gates, round, run_rounds, run_flow,
}
use pi_persona.Orchestration.FlowRun.Progress.{IsRecorded}
use pi_persona.Orchestration.FlowRun.Resolved.{IsReadable}
use pi_persona.Orchestration.FlowRun.Rounds.{run_flow-parsed}

abbrev result : Bool → PhaseResult
result good = record {
  ok = good;
  output = codes "done";
  error_text = none;
  receipt_ref = none;
  journal_ref = some (codes "r1");
  is_version_one = true;
  ref_unavailable = none;
  gate_approved = false;
}

-- All phases succeed but `b`, in the order of the file.
abbrev runner : Runner
runner = record {
  run_phase = λ p. result (not (text_eq p.id (codes "b")));
  approve_gate = λ p r. true;
  archive = λ ref. unreadable (codes "gone");
  arrange = λ ps. ps;
  each_settles = λ ps x. refl;
  settles_once = λ ps d. d;
  settles_only = λ P ps h. h;
}

abbrev outcome : FlowState → Text → Option Bool
outcome s id = elim (lookup id s.done) [ none ↦ none | some r ↦ some r.ok ]

-- `c` needs `b`, which fails, so it is blocked.
run_flow-ladder :
    map (outcome (run_flow ladder false runner [])) (codes "a" ∷ codes "b" ∷ codes "c" ∷ [])
    ≡ some true ∷ some false ∷ some false ∷ []
unfolding resumed restore_resumed keep_or_lose read_back lose run_flow run_rounds seed seed_one
    gate_resolved is_failed need_failed need_unavailable is_ready is_blocked blocked_result
    block_each settled_result settle_each answer_gate pass_gates round lookup insert text_eq
run_flow-ladder = refl

resumed-IsReadable :
    All (IsReadable ladder) (restored ladder false runner ((codes "a", result true) ∷ []))
unfolding text_eq resumed
resumed-IsReadable = (refl, tt)

run_flow-parsed_example :
    IsRecorded ladder (run_flow ladder false runner ((codes "a", result true) ∷ []))
run_flow-parsed_example =
    run_flow-parsed ladder_file ladder_flow false runner ((codes "a", result true) ∷ [])
      parse_flow-ladder resumed-IsReadable

-- `a` has a checkpoint that was not answered and a result that cannot be read back.
abbrev gated : List FlowPhase
gated = record (phase (codes "a") []) { gate = true } ∷ phase (codes "b") (codes "a" ∷ []) ∷ []

-- Its dependent is neither run nor blocked: no result of it is recorded.
run_flow-lost :
    map
      (outcome (run_flow gated true runner ((codes "a", result true) ∷ [])))
      (codes "a" ∷ codes "b" ∷ [])
    ≡ some true ∷ none ∷ []
unfolding resumed restore_resumed keep_or_lose read_back lose run_flow run_rounds seed seed_one
    gate_resolved is_failed need_failed need_unavailable is_ready is_blocked blocked_result
    block_each settled_result settle_each answer_gate pass_gates round lookup insert text_eq
run_flow-lost = refl
