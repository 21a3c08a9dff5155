-- ===== src/Orchestration/FlowRun/Coverage.antt =====
-- Which phases a round records.
use pi_persona.Base.{
  ◌≡◌, ◌∙◌, refl, ap, inl, inr, Bool, not, ◌&&◌, ◌||◌, List, [], ◌∷◌, arith, filter, is_some,
  Bool-cases, Text, text_eq, includes, TextMap, lookup, insert, lookup-insert,
}
use pi_persona.Orchestration.Flow.{FlowPhase, ids_of}
use pi_persona.Orchestration.FlowRun.{
  PhaseResult, FlowState, has_done, is_blocked, blocked_result, block_each, Runner, settled_result,
  settle_each, answer_gate, pass_gates, round,
}

done-insert :
    (k x : Text) (r : PhaseResult) (m : TextMap PhaseResult)
    → is_some (lookup x (insert k r m)) ≡ (text_eq k x || is_some (lookup x m))
done-insert k x r m = elim (Bool-cases (text_eq k x)) [
  | inl same ↦ rw (lookup-insert k x r m, same) refl
  | inr other ↦ rw (lookup-insert k x r m, other) refl
]

pub block_each-done :
    (ps : List FlowPhase) (s : FlowState) (x : Text)
    → has_done (block_each ps s) x ≡ (includes (ids_of ps) x || has_done s x)
unfolding block_each
block_each-done [] s x = refl
block_each-done (p ∷ ps) s x =
    block_each-done ps _ x ∙ rw (done-insert p.id x (blocked_result s p) s.done) (ground arith)

module _ (phases : List FlowPhase) (reference : Bool) (runner : Runner) where
  pub settle_each-done :
      (ps : List FlowPhase) (s : FlowState) (x : Text)
      → has_done (settle_each phases reference runner ps s) x
        ≡ (includes (ids_of ps) x || has_done s x)
  unfolding settle_each
  settle_each-done [] s x = refl
  settle_each-done (p ∷ ps) s x =
      settle_each-done ps _ x ∙ rw (done-insert p.id x _ s.done) (ground arith)

  pub answer_gate-done :
      (p : FlowPhase) (s : FlowState) → (answer_gate phases reference runner p s).done ≡ s.done
  unfolding answer_gate
  answer_gate-done p s =
      elim (Bool-cases (
        p.gate
        && ((settled_result reference (runner.run_phase p)).ok
            && not (is_some (lookup p.id s.gates))))) [
              | inl asks ↦ rw asks refl
              | inr stays ↦ rw stays refl
            ]

  pub pass_gates-done :
      (ps : List FlowPhase) (s : FlowState)
      → (pass_gates phases reference runner ps s).done ≡ s.done
  unfolding pass_gates
  pass_gates-done [] s = refl
  pass_gates-done (p ∷ ps) s = pass_gates-done ps _ ∙ answer_gate-done p s

  includes-split :
      (b : FlowPhase → Bool) (ps : List FlowPhase) (x : Text)
      → (includes (ids_of (filter (λ p. not (b p)) ps)) x || includes (ids_of (filter b ps)) x)
        ≡ includes (ids_of ps) x
  includes-split b [] x = refl
  includes-split b (p ∷ ps) x = ground (arith, includes-split b ps x)

  -- A round records the phases that were ready, and keeps what was recorded.
  pub round-done :
      (ready : List FlowPhase) (s : FlowState) (x : Text)
      → has_done (round phases reference runner ready s) x
        ≡ (includes (ids_of ready) x || has_done s x)
  unfolding round
  round-done ready s x =
      let blocked = filter (is_blocked s) ready in
      let runnable = filter (λ p. not (is_blocked s p)) ready in
      let settled = runner.arrange runnable in
      ap (λ m. is_some (lookup x m))
        (pass_gates-done settled
          (settle_each phases reference runner settled (block_each blocked s)))
      ∙ rw
          (
            settle_each-done settled (block_each blocked s) x,
            block_each-done blocked s x,
            runner.each_settles runnable x,
            ← includes-split (is_blocked s) ready x,
          )
          (ground arith)
