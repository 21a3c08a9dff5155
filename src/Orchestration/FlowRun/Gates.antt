-- ===== src/Orchestration/FlowRun/Gates.antt =====
-- A round answers the checkpoints of the phases that it completes.
use pi_persona.Base.{
  ◌≡◌, ◌∙◌, sym, refl, ap, inl, inr, subst, Bool, true, false, not, ◌&&◌, some, List, [], ◌∷◌,
  arith, if◌then◌else◌, filter, is_some, Bool-cases, Text, text_eq, text_eq_iff, text_eq_refl,
  includes, lookup, lookup-insert, All, All-mono, All-both, All-filter,
}
use pi_persona.Orchestration.Flow.{FlowPhase, ids_of}
use pi_persona.Orchestration.Flow.Edges.{HasDistinctIds}
use pi_persona.Orchestration.FlowRun.{
  PhaseResult, passed, rejected, FlowState, has_done, is_gated, is_failed, gate_resolved,
  is_blocked, block_each, Runner, settled_result, settle_each, answer_gate, pass_gates, round,
}
use pi_persona.Orchestration.FlowRun.Coverage.{answer_gate-done}
use pi_persona.Orchestration.FlowRun.Resolved.{
  IsResolved, IsPending, block_each-IsResolved, gates-insert_own,
}

module _ (phases : List FlowPhase) (reference : Bool) (runner : Runner) where
  abbrev result_of : FlowPhase → PhaseResult
  result_of p = settled_result reference (runner.run_phase p)

  settle-other :
      (ps : List FlowPhase) (s : FlowState) (x : Text)
      → includes (ids_of ps) x ≡ false
      → lookup x (settle_each phases reference runner ps s).done ≡ lookup x s.done
  unfolding settle_each
  settle-other [] s x h = refl
  settle-other (p ∷ ps) s x h = elim (Bool-cases (text_eq p.id x)) [
    | inl same ↦ absurd (let k = rw same at h in cc)
    | inr other ↦
        settle-other ps _ x (rw other at h)
        ∙ rw (lookup-insert p.id x (result_of p) s.done, other) refl
  ]

  settle-gates :
      (ps : List FlowPhase) (s : FlowState)
      → (settle_each phases reference runner ps s).gates ≡ s.gates
  unfolding settle_each
  settle-gates [] s = refl
  settle-gates (p ∷ ps) s = settle-gates ps _

  not_among :
      (x : Text) (ps : List FlowPhase)
      → All (λ q. text_eq x q.id ≡ false) ps
      → includes (ids_of ps) x ≡ false
  not_among x [] h = refl
  not_among x (q ∷ ps) (h, hs) =
      ground (arith, h, not_among x ps hs, text_eq_iff x q.id, text_eq_iff q.id x)

  settle-lookup :
      (ps : List FlowPhase) (s : FlowState)
      → HasDistinctIds ps
      → All
          (λ p. lookup p.id (settle_each phases reference runner ps s).done ≡ some (result_of p))
          ps
  unfolding settle_each
  settle-lookup [] s d = tt
  settle-lookup (p ∷ ps) s (d, ds) = (
    settle-other ps _ p.id (not_among p.id ps d)
        ∙ rw (lookup-insert p.id p.id (result_of p) s.done, text_eq_refl p.id) refl,
    settle-lookup ps _ ds,
  )

  settle-IsPending :
      (ps : List FlowPhase) (s : FlowState)
      → IsResolved phases s
      → IsPending phases ps (settle_each phases reference runner ps s)
  unfolding gate_resolved
  settle-IsPending ps s h x there = elim (Bool-cases (includes (ids_of ps) x)) [
    | inl new ↦ inr new
    | inr old ↦ inl (
        let was : has_done s x ≡ true = ap is_some (sym (settle-other ps s x old)) ∙ there in
        rw (settle-gates ps s, settle-other ps s x old) (h x was))
  ]

  answer_gate-keeps :
      (p : FlowPhase) (s : FlowState) (x : Text)
      → gate_resolved phases s x ≡ true
      → gate_resolved phases (answer_gate phases reference runner p s) x ≡ true
  unfolding answer_gate gate_resolved
  answer_gate-keeps p s x h =
      elim (Bool-cases (p.gate && ((result_of p).ok && not (is_some (lookup p.id s.gates))))) [
        | inl asks ↦ rw asks (elim (Bool-cases (text_eq p.id x)) [
          | inl same ↦ rw (lookup-insert p.id x _ s.gates, same) (ground arith)
          | inr other ↦ rw (lookup-insert p.id x _ s.gates, other) h
        ])
        | inr stays ↦ rw stays h
      ]

  answer_gate-own :
      (p : FlowPhase) (s : FlowState)
      → lookup p.id s.done ≡ some (result_of p)
      → is_gated phases p.id ≡ p.gate
      → gate_resolved phases (answer_gate phases reference runner p s) p.id ≡ true
  unfolding answer_gate gate_resolved is_failed
  answer_gate-own p s found gated =
      elim (Bool-cases (p.gate && ((result_of p).ok && not (is_some (lookup p.id s.gates))))) [
        | inl asks ↦
            rw
              (
                asks,
                gates-insert_own p.id
                    (if runner.approve_gate p (result_of p) then passed else rejected) s.gates,
              )
              (ground arith)
        | inr stays ↦ rw (stays, found, gated) (ground (arith, stays))
      ]

  pass_gates-IsResolved :
      (ps : List FlowPhase) (s : FlowState)
      → All (λ p. (lookup p.id s.done ≡ some (result_of p)) × (is_gated phases p.id ≡ p.gate)) ps
      → IsPending phases ps s
      → IsResolved phases (pass_gates phases reference runner ps s)
  unfolding pass_gates
  pass_gates-IsResolved [] s k h =
      λ x there. elim (h x there) [ inl fine ↦ fine | inr bad ↦ absurd (cc) ]
  pass_gates-IsResolved (p ∷ ps) s ((found, gated), rest) h =
      let same_done = answer_gate-done phases reference runner p s in
      pass_gates-IsResolved ps (answer_gate phases reference runner p s)
        (All-mono (λ q k. (ap (λ m. lookup q.id m) same_done ∙ k.0, k.1)) ps rest)
        (λ x there.
          let was : has_done s x ≡ true = ap (λ m. is_some (lookup x m)) (sym same_done) ∙ there in
          elim (Bool-cases (text_eq p.id x)) [
            | inl same ↦ inl (
                subst (λ y. gate_resolved phases (answer_gate phases reference runner p s) y ≡ true)
                  ((text_eq_iff p.id x).0 same) (answer_gate-own p s found gated))
            | inr other ↦ elim (h x was) [
              | inl fine ↦ inl (answer_gate-keeps p s x fine)
              | inr among ↦ inr (rw other at among)
            ]
          ])

  -- A round leaves no checkpoint open.
  pub round-IsResolved :
      (ready : List FlowPhase) (s : FlowState)
      → HasDistinctIds (filter (λ p. not (is_blocked s p)) ready)
      → All (λ p. is_gated phases p.id ≡ p.gate) ready
      → IsResolved phases s
      → IsResolved phases (round phases reference runner ready s)
  unfolding round
  round-IsResolved ready s distinct gated h =
      let runnable = filter (λ p. not (is_blocked s p)) ready in
      let settled = runner.arrange runnable in
      let before = block_each (filter (is_blocked s) ready) s in
      pass_gates-IsResolved settled (settle_each phases reference runner settled before)
        (All-both _ _ settled (settle-lookup settled before (runner.settles_once runnable distinct))
          (runner.settles_only (λ p. is_gated phases p.id ≡ p.gate) runnable
            (All-filter (λ p. is_gated phases p.id ≡ p.gate) (λ p. not (is_blocked s p)) ready
              gated)))
        (settle-IsPending settled before
          (block_each-IsResolved phases (filter (is_blocked s) ready) s h))
