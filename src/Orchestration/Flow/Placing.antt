-- ===== src/Orchestration/Flow/Placing.antt =====
-- The rounds of the loop that takes phases from the queue.
use mathlib.Core.List.{append_assoc, append-nil}
use pi_persona.Base.{
  ℕ, zero, suc, ◌+◌, ◌≤◌, ◌≡◌, sym, refl, inl, inr, subst, Bool, true, false, List, [], ◌∷◌, ◌++◌,
  arith, or_else, all, length, length-append, Bool-cases, Text, text_eq, text_eq_iff, text_eq_refl,
  includes, TextMap, lookup, All, All-mono, All-both, ◌==◌,
}
use pi_persona.Orchestration.Flow.{FlowPhase, needs_of, degree, release_each, place, ids_of}
use pi_persona.Orchestration.Flow.Edges.{occ, occ-append, HasDistinctIds, edge_count, own_counts}
use pi_persona.Orchestration.Flow.Missing.{missing_in, occ-some, missing-snoc, missing-none}
use pi_persona.Orchestration.Flow.Queue.{IsCounted, release_each-IsCounted}

-- Each phase of the list comes behind what it needs; `done` is what comes before the list.
abbrev pub Respects : List FlowPhase → List Text → List Text → Type 0
Respects phases done [] = Unit
Respects phases done (x ∷ xs) =
    All (λ p. text_eq p.id x ≡ true → all (includes done) (needs_of p) ≡ true) phases
    × Respects phases (done ++ (x ∷ [])) xs

Respects-snoc :
    (phases : List FlowPhase) (done xs : List Text) (x : Text)
    → Respects phases done xs
    → All (λ p. text_eq p.id x ≡ true → all (includes (done ++ xs)) (needs_of p) ≡ true) phases
    → Respects phases done (xs ++ (x ∷ []))
Respects-snoc phases done [] x h k = (
  subst (λ d. All (λ p. text_eq p.id x ≡ true → all (includes d) (needs_of p) ≡ true) phases)
      (append-nil done) k,
  tt,
)
Respects-snoc phases done (y ∷ xs) x (h, hs) k = (
  h,
  Respects-snoc phases (done ++ (y ∷ [])) xs x hs (
      subst (λ d. All (λ p. text_eq p.id x ≡ true → all (includes d) (needs_of p) ≡ true) phases)
        (sym (append_assoc done (y ∷ []) xs)) k),
)

-- The state between two rounds.
pub record IsPlacing (phases : List FlowPhase) (indeg : TextMap ℕ) (order queue : List Text)
    : Type 0 where
  pub counted : IsCounted phases (λ p. missing_in order (needs_of p)) indeg [] (order ++ queue)
  pub respected : Respects phases [] order

all_when :
    (p : Text → Bool) (xs : List Text) → ((x : Text) → 1 ≤ occ x xs → p x ≡ true) → all p xs ≡ true
all_when p [] h = refl
all_when p (x ∷ xs) h =
    let k = h x (rw (text_eq_refl x) (omega arith)) in
    let more = all_when p xs (λ y few. h y (elim (Bool-cases (text_eq x y)) [
      | inl same ↦ rw same (omega (arith, few))
      | inr other ↦ rw other few
    ])) in
    rw (k, more) refl

includes-middle : (xs ys : List Text) (a : Text) → includes (xs ++ (a ∷ ys)) a ≡ true
includes-middle [] ys a = rw (text_eq_refl a) refl
includes-middle (x ∷ xs) ys a = ground (arith, includes-middle xs ys a)

edge_count-known :
    (x n : Text) (phases : List FlowPhase)
    → 1 ≤ edge_count x n phases
    → includes (ids_of phases) x ≡ true
edge_count-known x n [] h = absurd (omega (arith, h))
edge_count-known x n (p ∷ phases) h = ground (arith, edge_count-known x n phases)

module _ (phases : List FlowPhase) (distinct : HasDistinctIds phases)
    (dependents : TextMap (List Text))
    (edges : (x n : Text) → occ x (or_else (lookup n dependents) []) ≡ edge_count x n phases) where
  -- The next phase of the queue goes to the order; its edges are still there.
  take_next :
      (indeg : TextMap ℕ) (order queue : List Text) (id : Text)
      → IsPlacing phases indeg order (id ∷ queue)
      → IsCounted phases
          (λ p. missing_in (order ++ (id ∷ [])) (needs_of p))
          indeg
          (or_else (lookup id dependents) [])
          ((order ++ (id ∷ [])) ++ queue)
  take_next indeg order queue id h =
      let new : includes order id ≡ false = elim (Bool-cases (includes order id)) [
        | inl twice ↦
            let few : occ id (order ++ (id ∷ queue)) ≡ occ id order + suc (occ id queue) =
              rw (occ-append id order (id ∷ queue), text_eq_refl id) refl in
            absurd (omega (arith, few, h.counted.apart id, occ-some order id twice))
        | inr once ↦ once
      ] in
      record {
        each =
            All-mono (λ p k. take_counts p (k.0) (k.1.1 id) new) phases
              (All-both _ _ phases (h.counted.each) (own_counts phases distinct));
        size = rw (append_assoc order (id ∷ []) queue) (h.counted.size);
        apart = λ x. rw (append_assoc order (id ∷ []) queue) (h.counted.apart x);
        known = rw (append_assoc order (id ∷ []) queue) (h.counted.known);
      }
    where
      take_counts :
          (p : FlowPhase)
          → (degree indeg p.id ≡ missing_in order (needs_of p) + 0)
            × (includes (order ++ (id ∷ queue)) p.id ≡ ((missing_in order (needs_of p) + 0) == 0))
          → edge_count p.id id phases ≡ occ id (needs_of p)
          → includes order id ≡ false
          → (degree indeg p.id
              ≡ missing_in (order ++ (id ∷ [])) (needs_of p)
                + occ p.id (or_else (lookup id dependents) []))
            × (includes ((order ++ (id ∷ [])) ++ queue) p.id ≡ (
                (missing_in (order ++ (id ∷ [])) (needs_of p)
                  + occ p.id (or_else (lookup id dependents) []))
                == 0))
      take_counts p (d, q) e new =
          let sum : missing_in (order ++ (id ∷ [])) (needs_of p)
                + occ p.id (or_else (lookup id dependents) [])
              ≡ missing_in order (needs_of p) + 0 =
            omega (arith, e, edges p.id id, missing-snoc (needs_of p) order id new) in
          (rw sum d, rw (append_assoc order (id ∷ []) queue, sum) q)

  place_round :
      (indeg : TextMap ℕ) (order queue : List Text) (id : Text)
      → IsPlacing phases indeg order (id ∷ queue)
      → IsPlacing phases
          (release_each (or_else (lookup id dependents) []) indeg queue).0
          (order ++ (id ∷ []))
          (release_each (or_else (lookup id dependents) []) indeg queue).1
  place_round indeg order queue id h = record {
    counted =
        release_each-IsCounted phases distinct _ (or_else (lookup id dependents) [])
          (order ++ (id ∷ [])) queue indeg
          (all_when (includes (ids_of phases)) _
            (λ x few. edge_count-known x id phases (subst (λ n. 1 ≤ n) (edges x id) few)))
          (take_next indeg order queue id h);
    respected = Respects-snoc phases [] order id h.respected (
        All-mono
          (λ p k same. missing-none (needs_of p) order (
            let here : includes (order ++ (id ∷ queue)) p.id ≡ true =
              subst (λ x. includes (order ++ (id ∷ queue)) x ≡ true)
                (sym ((text_eq_iff p.id id).0 same)) (includes-middle order queue id) in
            ground (arith, k.1, here)))
          phases h.counted.each);
  }

  -- With a round for each phase that is not placed, the queue is empty at the end.
  pub place-IsPlacing :
      (rounds : ℕ) (indeg : TextMap ℕ) (order queue : List Text)
      → rounds + length order ≡ length phases
      → IsPlacing phases indeg order queue
      → (last : TextMap ℕ) × IsPlacing phases last (place rounds dependents indeg order queue) []
  unfolding place
  place-IsPlacing zero indeg order [] e h = (indeg, h)
  place-IsPlacing zero indeg order (id ∷ queue) e h =
      absurd (omega (arith, e, h.counted.size, length-append order (id ∷ queue)))
  place-IsPlacing (suc rounds) indeg order [] e h = (indeg, h)
  place-IsPlacing (suc rounds) indeg order (id ∷ queue) e h =
      place-IsPlacing rounds _ (order ++ (id ∷ [])) _
        (omega (arith, e, length-append order (id ∷ []))) (place_round indeg order queue id h)
