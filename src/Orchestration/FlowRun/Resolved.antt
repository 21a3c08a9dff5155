-- ===== src/Orchestration/FlowRun/Resolved.antt =====
-- Which checkpoints are answered: between two rounds, those of all phases that are done.
use pi_persona.Base.{
  ◌≡◌, ◌⊎◌, refl, inl, inr, subst, true, false, not, ◌&&◌, ◌||◌, some, List, [], ◌∷◌, arith,
  is_some, Bool-cases, Text, text_eq, text_eq_iff, text_eq_refl, includes, TextMap, lookup, insert,
  lookup-insert, All,
}
use pi_persona.Orchestration.Flow.{FlowPhase, ids_of}
use pi_persona.Orchestration.FlowRun.{
  PhaseResult, GateState, passed, FlowState, has_done, is_lost, is_gated, seed_one, seed, is_failed,
  is_done_not_ok, gate_resolved, blocked_result, block_each,
}

-- The checkpoint of every phase that is done is answered, or there is none to answer.
abbrev pub IsResolved : List FlowPhase → FlowState → Type 0
IsResolved phases s = (x : Text) → has_done s x ≡ true → gate_resolved phases s x ≡ true

-- No phase is done whose checkpoint is open, but for those of a list.
abbrev pub IsPending : List FlowPhase → List FlowPhase → FlowState → Type 0
IsPending phases ps s =
    (x : Text)
    → has_done s x ≡ true
    → (gate_resolved phases s x ≡ true) ⊎ (includes (ids_of ps) x ≡ true)

-- A result of an earlier run whose checkpoint was not answered is not lost.
abbrev pub IsReadable : List FlowPhase → Text × PhaseResult → Type 0
IsReadable phases e =
    (is_gated phases e.0 && (e.1.ok && (not e.1.gate_approved && is_lost e.1))) ≡ false

-- One more result, and the answers that it brings.
insert-IsResolved :
    (phases : List FlowPhase) (s : FlowState) (id x : Text) (r : PhaseResult)
    (gates : TextMap GateState) (blocked : List Text)
    → (text_eq id x ≡ false → lookup x gates ≡ lookup x s.gates)
    → (has_done s x ≡ true → gate_resolved phases s x ≡ true)
    → (not (is_gated phases id) || (is_some (lookup id gates) || not r.ok)) ≡ true
    → has_done (record { done = insert id r s.done; gates = gates; blocked_ids = blocked }) x ≡ true
    → gate_resolved phases
        (record { done = insert id r s.done; gates = gates; blocked_ids = blocked })
        x
      ≡ true
unfolding gate_resolved is_failed
insert-IsResolved phases s id x r gates blocked keeps old new there =
    elim (Bool-cases (text_eq id x)) [
      | inl same ↦
          subst
            (λ y.
              (not (is_gated phases y)
                || (is_some (lookup y gates)
                    || is_done_not_ok
                        (record { done = insert id r s.done; gates = gates; blocked_ids = blocked })
                        y))
              ≡ true)
            ((text_eq_iff id x).0 same) (rw (lookup-insert id id r s.done, text_eq_refl id) new)
      | inr other ↦
          let was : has_done s x ≡ true = rw (lookup-insert id x r s.done, other) at there in
          rw (lookup-insert id x r s.done, other, keeps other) (old was)
    ]

pub gates-insert :
    (k x : Text) (g : GateState) (m : TextMap GateState)
    → text_eq k x ≡ false
    → lookup x (insert k g m) ≡ lookup x m
gates-insert k x g m h = rw (lookup-insert k x g m, h) refl

pub gates-insert_own :
    (k : Text) (g : GateState) (m : TextMap GateState) → lookup k (insert k g m) ≡ some g
gates-insert_own k g m = rw (lookup-insert k k g m, text_eq_refl k) refl

pub block_each-IsResolved :
    (phases ps : List FlowPhase) (s : FlowState)
    → IsResolved phases s
    → IsResolved phases (block_each ps s)
unfolding block_each blocked_result
block_each-IsResolved phases [] s h = h
block_each-IsResolved phases (p ∷ ps) s h = block_each-IsResolved phases ps _ (λ x.
    insert-IsResolved phases s p.id x (blocked_result s p) s.gates _ (λ _. refl) (h x)
      (ground arith))

seed_one-IsResolved :
    (phases : List FlowPhase) (id : Text) (r : PhaseResult) (s : FlowState)
    → IsReadable phases (id, r)
    → IsResolved phases s
    → IsResolved phases (seed_one phases id r s)
unfolding seed_one
seed_one-IsResolved phases id r s readable h =
    elim (Bool-cases (is_gated phases id && (r.ok && (not r.gate_approved && not (is_lost r))))) [
      | inl again ↦ rw again h
      | inr kept ↦ rw kept (λ x. elim (Bool-cases (is_gated phases id && r.gate_approved)) [
        | inl approved ↦ rw approved (
            insert-IsResolved phases s id x r _ _ (gates-insert id x passed s.gates) (h x)
              (rw (gates-insert_own id passed s.gates) (ground arith)))
        | inr still ↦ rw still (
            insert-IsResolved phases s id x r s.gates _ (λ _. refl) (h x)
              (ground (arith, readable, kept, still)))
      ])
    ]

pub seed-IsResolved :
    (phases : List FlowPhase) (resume : TextMap PhaseResult) (s : FlowState)
    → All (IsReadable phases) resume
    → IsResolved phases s
    → IsResolved phases (seed phases resume s)
unfolding seed
seed-IsResolved phases [] s readable h = h
seed-IsResolved phases ((id, r) ∷ resume) s (first, rest) h =
    seed-IsResolved phases resume _ rest (seed_one-IsResolved phases id r s first h)
