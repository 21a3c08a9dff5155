-- ===== src/Orchestration/FlowRun/Progress.antt =====
-- Every round has a phase that is ready, so a run records every phase.
use pi_persona.Base.{
  ◌+◌, ◌≤◌, ◌≡◌, sym, refl, ap, inl, inr, subst, Bool, true, false, not, ◌&&◌, List, [], ◌∷◌, ◌++◌,
  arith, filter, all, length, Bool-cases, &&-eq-true, Text, text_eq, text_eq_iff, text_eq_refl,
  includes, all-includes, All, All-mono, All-both, All-filter,
}
use pi_persona.Orchestration.Flow.{FlowPhase, needs_of, ids_of}
use pi_persona.Orchestration.Flow.Edges.{HasDistinctIds}
use pi_persona.Orchestration.Flow.Missing.{phase_at}
use pi_persona.Orchestration.Flow.Queue.{all-snoc}
use pi_persona.Orchestration.Flow.Placing.{Respects}
use pi_persona.Orchestration.Flow.Order.{IsTopological}
use pi_persona.Orchestration.FlowRun.{
  FlowState, has_done, is_gated, is_ready, gate_resolved, still_open,
}
use pi_persona.Orchestration.FlowRun.Resolved.{IsResolved}

needs-ready :
    (phases : List FlowPhase) (s : FlowState) (done needs : List Text)
    → IsResolved phases s
    → all (has_done s) done ≡ true
    → all (includes done) needs ≡ true
    → all (λ n. has_done s n && gate_resolved phases s n) needs ≡ true
needs-ready phases s done [] h k l = refl
needs-ready phases s done (n ∷ needs) h k l =
    let (first, rest) = &&-eq-true _ _ l in
    let there : has_done s n ≡ true = all-includes (has_done s) done n k first in
    rw (there, h n there, needs-ready phases s done needs h k rest) refl

-- Where no phase that is left is ready, all of an order is done.
order-done :
    (phases : List FlowPhase) (s : FlowState) (done xs : List Text)
    → IsResolved phases s
    → All (λ p. has_done s p.id ≡ false → is_ready phases s p ≡ false) phases
    → all (has_done s) done ≡ true
    → all (includes (ids_of phases)) xs ≡ true
    → Respects phases done xs
    → all (has_done s) xs ≡ true
unfolding is_ready
order-done phases s done [] h idle k known r = refl
order-done phases s done (x ∷ xs) h idle k known (first, rest) =
    let (here, more) = &&-eq-true (includes (ids_of phases) x) _ known in
    let (p, own, (waits, behind)) = phase_at _ phases x (All-both _ _ phases idle first) here in
    let there : has_done s x ≡ true = elim (Bool-cases (has_done s x)) [
      | inl in_it ↦ in_it
      | inr away ↦
          let a = waits (subst (λ y. has_done s y ≡ false) (sym own) away) in
          let b =
            needs-ready phases s done (needs_of p) h k (behind ((text_eq_iff p.id x).1 own)) in
          absurd (cc)
    ] in
    rw there (
      order-done phases s (done ++ (x ∷ [])) xs h idle
        (rw (all-snoc (has_done s) done x, k, there) refl) more rest)

idle_of :
    (phases ps : List FlowPhase) (s : FlowState)
    → filter (is_ready phases s) (still_open s ps) ≡ []
    → All (λ p. has_done s p.id ≡ false → is_ready phases s p ≡ false) ps
idle_of phases [] s h = tt
idle_of phases (p ∷ ps) s h = elim (Bool-cases (has_done s p.id)) [
  | inl there ↦ (λ away. absurd (cc), idle_of phases ps s (rw there at h))
  | inr away ↦ elim (Bool-cases (is_ready phases s p)) [
    | inl ready ↦ absurd (let k = rw (away, ready) at h in cc)
    | inr waits ↦ (λ _. waits, idle_of phases ps s (rw (away, waits) at h))
  ]
]

abbrev pub IsRecorded : List FlowPhase → FlowState → Type 0
IsRecorded phases s = All (λ p. has_done s p.id ≡ true) phases

-- A run in which no phase is ready is over.
pub none_ready-IsRecorded :
    (phases : List FlowPhase) (s : FlowState) (order : List Text)
    → IsTopological phases order
    → IsResolved phases s
    → filter (is_ready phases s) (still_open s phases) ≡ []
    → IsRecorded phases s
none_ready-IsRecorded phases s order t h e =
    let inside =
      order-done phases s [] order h (idle_of phases phases s e) refl t.known t.respects in
    All-mono (λ p k. all-includes (has_done s) order p.id inside k) phases t.complete

pub own_included :
    (r : FlowPhase → Bool) (xs : List FlowPhase)
    → All (λ q. r q ≡ true → includes (ids_of (filter r xs)) q.id ≡ true) xs
own_included r [] = tt
own_included r (x ∷ xs) = (
  λ h. rw h (rw (text_eq_refl x.id) refl),
  All-mono
      (λ q k h. elim (Bool-cases (r x)) [
        | inl there ↦ rw (there, k h) (ground arith)
        | inr away ↦ rw away (k h)
      ])
      xs (own_included r xs),
)

pub filter_shrinks :
    (d r : FlowPhase → Bool) (xs : List FlowPhase)
    → All (λ q. r q ≡ true → d q ≡ true) xs
    → length (filter (λ q. not (d q)) xs) + length (filter r xs) ≤ length xs
filter_shrinks d r [] h = omega arith
filter_shrinks d r (x ∷ xs) (h, hs) = ground (arith, h, filter_shrinks d r xs hs)

pub filter_twice :
    (d e : FlowPhase → Bool) (xs : List FlowPhase)
    → ((q : FlowPhase) → d q ≡ true → e q ≡ true)
    → filter (λ q. not (e q)) (filter (λ q. not (d q)) xs) ≡ filter (λ q. not (e q)) xs
filter_twice d e [] h = refl
filter_twice d e (x ∷ xs) h = elim (Bool-cases (d x)) [
  | inl old ↦ rw (old, h x old) (filter_twice d e xs h)
  | inr new ↦ rw new (elim (Bool-cases (e x)) [
    | inl there ↦ rw there (filter_twice d e xs h)
    | inr away ↦ rw away (ap (◌∷◌ x) (filter_twice d e xs h))
  ])
]

pub distinct-filter :
    (c : FlowPhase → Bool) (xs : List FlowPhase) → HasDistinctIds xs → HasDistinctIds (filter c xs)
distinct-filter c [] h = tt
distinct-filter c (x ∷ xs) (h, hs) = elim (Bool-cases (c x)) [
  | inl there ↦
      rw there (All-filter (λ q. text_eq x.id q.id ≡ false) c xs h, distinct-filter c xs hs)
  | inr away ↦ rw away (distinct-filter c xs hs)
]

gated_later :
    (p : FlowPhase) (phases xs : List FlowPhase)
    → All (λ q. text_eq p.id q.id ≡ false) xs
    → All (λ q. is_gated phases q.id ≡ q.gate) xs
    → All (λ q. is_gated (p ∷ phases) q.id ≡ q.gate) xs
gated_later p phases xs h k = All-mono (λ q e. rw (is_gated, e.0) (e.1)) xs (All-both _ _ xs h k)

pub own_gates :
    (phases : List FlowPhase)
    → HasDistinctIds phases
    → All (λ p. is_gated phases p.id ≡ p.gate) phases
own_gates [] h = tt
own_gates (p ∷ phases) (h, hs) =
    (rw (is_gated, text_eq_refl p.id) refl, gated_later p phases phases h (own_gates phases hs))
