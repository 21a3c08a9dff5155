-- ===== src/Orchestration/FlowRun/Rounds.antt =====
-- A run records every phase.
use pi_persona.Base.{
  ℕ, zero, suc, ◌+◌, ◌≤◌, ◌≡◌, ◌∙◌, sym, refl, ap, subst, Bool, true, not, List, [], ◌∷◌, arith,
  filter, length, Text, TextMap, lookup, All, All-mono, All-filter, ok,
}
use pi_persona.Orchestration.Flow.{FlowPhase, FlowSpec}
use pi_persona.Orchestration.FlowFile.{RawFile, parse_flow}
use pi_persona.Orchestration.Flow.Edges.{HasDistinctIds}
use pi_persona.Orchestration.Flow.Order.{IsTopological}
use pi_persona.Orchestration.FlowFile.Parsing.{parse_flow-IsRunnable}
use pi_persona.Orchestration.FlowRun.{
  PhaseResult, FlowState, has_done, is_ready, seed, empty_run, Runner, round, still_open,
  run_rounds, restored, run_flow,
}
use pi_persona.Orchestration.FlowRun.Coverage.{round-done}
use pi_persona.Orchestration.FlowRun.Resolved.{IsResolved, IsReadable, seed-IsResolved}
use pi_persona.Orchestration.FlowRun.Gates.{round-IsResolved}
use pi_persona.Orchestration.FlowRun.Progress.{
  IsRecorded, none_ready-IsRecorded, own_included, filter_shrinks, filter_twice, distinct-filter,
  own_gates,
}

length-none : (xs : List FlowPhase) → length xs ≤ 0 → xs ≡ []
length-none [] h = refl
length-none (x ∷ xs) h = absurd (omega (arith, h))

module _ (phases : List FlowPhase) (reference : Bool) (runner : Runner) (order : List Text)
    (distinct : HasDistinctIds phases) (sorted : IsTopological phases order) where
  abbrev ready_in : FlowState → List FlowPhase
  ready_in s = filter (is_ready phases s) (still_open s phases)

  abbrev after_round : FlowState → FlowState
  after_round s = round phases reference runner (ready_in s) s

  after_round-keeps :
      (s : FlowState) (q : FlowPhase)
      → has_done s q.id ≡ true
      → has_done (after_round s) q.id ≡ true
  after_round-keeps s q h =
      round-done phases reference runner (ready_in s) s q.id ∙ rw h (ground arith)

  after_round-left :
      (s : FlowState)
      → still_open (after_round s) (still_open s phases) ≡ still_open (after_round s) phases
  after_round-left s =
      filter_twice (λ q. has_done s q.id) (λ q. has_done (after_round s) q.id) phases
        (after_round-keeps s)

  -- A round with a phase that is ready leaves fewer phases.
  after_round-shrinks :
      (s : FlowState)
      → length (still_open (after_round s) phases) + length (ready_in s)
        ≤ length (still_open s phases)
  after_round-shrinks s =
      subst (λ xs. length xs + length (ready_in s) ≤ length (still_open s phases))
        (after_round-left s)
        (filter_shrinks (λ q. has_done (after_round s) q.id) (is_ready phases s)
          (still_open s phases)
          (All-mono
            (λ q k ready.
              round-done phases reference runner (ready_in s) s q.id ∙ rw (k ready) refl)
            (still_open s phases) (own_included (is_ready phases s) (still_open s phases))))

  after_round-IsResolved : (s : FlowState) → IsResolved phases s → IsResolved phases (after_round s)
  after_round-IsResolved s h =
      round-IsResolved phases reference runner (ready_in s) s
        (distinct-filter _ (ready_in s)
          (distinct-filter _ (still_open s phases) (distinct-filter _ phases distinct)))
        (All-filter _ (is_ready phases s) (still_open s phases)
          (All-filter _ (λ p. not (has_done s p.id)) phases (own_gates phases distinct)))
        h

  run_rounds-IsRecorded :
      (rounds : ℕ) (s : FlowState)
      → length (still_open s phases) ≤ rounds
      → IsResolved phases s
      → IsRecorded phases (run_rounds phases reference runner rounds (still_open s phases) s)
  unfolding run_rounds
  run_rounds-IsRecorded zero s few h =
      none_ready-IsRecorded phases s order sorted h
        (ap (filter (is_ready phases s)) (length-none (still_open s phases) few))
  run_rounds-IsRecorded (suc rounds) s few h = recorded_from (ready_in s) refl (λ l.
      subst
        (λ left. IsRecorded phases (run_rounds phases reference runner rounds left (after_round s)))
        (sym (after_round-left s))
        (run_rounds-IsRecorded rounds (after_round s) l (after_round-IsResolved s h)))
    where
      recorded_from :
          (ready : List FlowPhase)
          → ready_in s ≡ ready
          → (length (still_open (after_round s) phases) ≤ rounds
              → IsRecorded phases (
                  run_rounds phases reference runner rounds
                    (still_open (after_round s) (still_open s phases))
                    (after_round s)))
          → IsRecorded phases (elim ready [
            | [] ↦ s
            | p ∷ ps ↦
                let next = round phases reference runner (p ∷ ps) s in
                run_rounds phases reference runner rounds
                  (still_open next (still_open s phases))
                  next
          ])
      recorded_from [] e rest = none_ready-IsRecorded phases s order sorted h e
      recorded_from (p ∷ ps) e rest =
          let few' : length (still_open (after_round s) phases) ≤ rounds =
            let k = after_round-shrinks s in
            let n : length (ready_in s) ≡ suc (length ps) = ap length e in
            omega (arith, k, n, few) in
          subst
            (λ ready. IsRecorded phases (
              run_rounds phases reference runner rounds
                (still_open (round phases reference runner ready s) (still_open s phases))
                (round phases reference runner ready s)))
            e (rest few')

-- A flow whose phases have ids that differ and an order, resumed from results that, once restored,
-- have their reference where a checkpoint is open, records a result for every phase, whatever the phases and the checkpoints
-- answer, and whatever the order in which the results of a round come in.
pub run_flow-IsRecorded :
    (phases : List FlowPhase) (reference : Bool) (runner : Runner) (order : List Text)
    (resume : TextMap PhaseResult)
    → HasDistinctIds phases
    → IsTopological phases order
    → All (IsReadable phases) (restored phases reference runner resume)
    → IsRecorded phases (run_flow phases reference runner resume)
unfolding run_flow lookup
run_flow-IsRecorded phases reference runner order resume distinct sorted readable =
    run_rounds-IsRecorded phases reference runner order distinct sorted _
      (seed phases (restored phases reference runner resume) empty_run) (omega arith)
      (seed-IsResolved phases (restored phases reference runner resume) empty_run readable
        (λ x there. absurd (cc)))

-- A run of a flow that was parsed, resumed from results that, once restored, have their
-- reference where a checkpoint is open, records a result for every phase, whatever the phases and the checkpoints answer, and whatever the
-- order in which the results of a round come in.
pub run_flow-parsed :
    (file : RawFile) (flow : FlowSpec) (reference : Bool) (runner : Runner)
    (resume : TextMap PhaseResult)
    → parse_flow file ≡ ok flow
    → All (IsReadable flow.phases) (restored flow.phases reference runner resume)
    → IsRecorded flow.phases (run_flow flow.phases reference runner resume)
run_flow-parsed file flow reference runner resume parsed readable =
    let (distinct, (order, _, sorted)) = parse_flow-IsRunnable file flow parsed in
    run_flow-IsRecorded flow.phases reference runner order resume distinct sorted readable
