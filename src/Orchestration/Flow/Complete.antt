-- ===== src/Orchestration/Flow/Complete.antt =====
-- A flow that can be ordered is ordered.
use pi_persona.Base.{
  ◌≡◌, ◌↔◌, sym, refl, inl, inr, subst, true, false, not, ◌&&◌, List, [], ◌∷◌, ◌++◌, arith, any,
  all, Bool-cases, &&-eq-true, Text, text_eq, text_eq_iff, includes, all-includes, All, All-mono,
  All-both, Outcome, error, ok,
}
use pi_persona.Orchestration.Flow.{
  FlowPhase, FlowError, unknown_need, has_cycle, needs_of, topo_order, ids_of,
}
use pi_persona.Orchestration.Flow.Edges.{HasDistinctIds}
use pi_persona.Orchestration.Flow.Missing.{left_out, phase_at}
use pi_persona.Orchestration.Flow.Queue.{all-snoc}
use pi_persona.Orchestration.Flow.Placing.{Respects}
use pi_persona.Orchestration.Flow.Order.{
  IsTopological, IsStuck, IsUnknown, IsAnswer, topo_order-IsAnswer,
}

none_away :
    (needs done placed ids : List Text)
    → all (includes placed) done ≡ true
    → all (includes done) needs ≡ true
    → any (λ n. includes ids n && not (includes placed n)) needs ≡ false
none_away [] done placed ids h k = refl
none_away (n ∷ needs) done placed ids h k =
    let (first, rest) = &&-eq-true _ _ k in
    let there = all-includes (includes placed) done n h first in
    ground (arith, there, none_away needs done placed ids h rest)

-- Every phase of an order is among those that a loop places.
Respects-placed :
    (phases : List FlowPhase) (placed done xs : List Text)
    → IsStuck phases placed
    → all (includes placed) done ≡ true
    → all (includes (ids_of phases)) xs ≡ true
    → Respects phases done xs
    → all (includes placed) xs ≡ true
Respects-placed phases placed done [] stuck h known r = refl
Respects-placed phases placed done (x ∷ xs) stuck h known (first, rest) =
    let (here, more) = &&-eq-true _ _ known in
    let (p, own, (waits, behind)) =
      phase_at _ phases x (All-both _ _ phases stuck.waits first) here in
    let there : includes placed x ≡ true = elim (Bool-cases (includes placed x)) [
      | inl in_it ↦ in_it
      | inr away ↦
          let a = waits (subst (λ y. includes placed y ≡ false) (sym own) away) in
          let b =
            none_away (needs_of p) done placed (ids_of phases) h
              (behind ((text_eq_iff p.id x).1 own)) in
          absurd (cc)
    ] in
    rw there (
      Respects-placed phases placed (done ++ (x ∷ [])) xs stuck
        (rw (all-snoc (includes placed) done x, h, there) refl) more rest)

none_out :
    (phases : List FlowPhase) (placed : List Text)
    → All (λ p. includes placed p.id ≡ true) phases
    → left_out placed phases ≡ 0
none_out [] placed h = refl
none_out (p ∷ phases) placed (h, hs) = rw h (none_out phases placed hs)

stuck-unordered :
    (phases : List FlowPhase) (placed order : List Text)
    → IsStuck phases placed
    → ¬ IsTopological phases order
stuck-unordered phases placed order stuck h =
    let inside = Respects-placed phases placed [] order stuck refl h.known h.respects in
    let z =
      none_out phases placed
        (All-mono (λ p k. all-includes (includes placed) order p.id inside k) phases h.complete) in
    omega (arith, z, stuck.left)

all-through :
    (needs done ids : List Text)
    → all (includes done) needs ≡ true
    → all (includes ids) done ≡ true
    → all (includes ids) needs ≡ true
all-through [] done ids h k = refl
all-through (n ∷ needs) done ids h k =
    let (first, rest) = &&-eq-true _ _ h in
    rw (all-includes (includes ids) done n k first) (all-through needs done ids rest k)

of_none :
    (Q : FlowPhase → Type 0) (phases : List FlowPhase)
    → All (λ p. includes [] p.id ≡ true → Q p) phases
of_none Q [] = tt
of_none Q (p ∷ phases) = (λ k. absurd (cc), of_none Q phases)

-- The phases of an order need phases only.
Respects-known :
    (phases : List FlowPhase) (done xs : List Text)
    → all (includes (ids_of phases)) done ≡ true
    → all (includes (ids_of phases)) xs ≡ true
    → Respects phases done xs
    → All (λ p. includes xs p.id ≡ true → all (includes (ids_of phases)) (needs_of p) ≡ true) phases
Respects-known phases done [] h known r = of_none _ phases
Respects-known phases done (x ∷ xs) h known (first, rest) =
    let (here, more) = &&-eq-true (includes (ids_of phases) x) _ known in
    let later =
      Respects-known phases (done ++ (x ∷ [])) xs
        (rw (all-snoc (includes (ids_of phases)) done x, h, here) refl) more rest in
    All-mono
      (λ p k there. elim (Bool-cases (text_eq p.id x)) [
        | inl same ↦ all-through (needs_of p) done (ids_of phases) (k.0 same) h
        | inr other ↦ k.1 (ground (arith, there, other, text_eq_iff p.id x, text_eq_iff x p.id))
      ])
      phases (All-both _ _ phases first later)

IsUnknown-refuted :
    (ids : List Text) (id n : Text) (phases : List FlowPhase)
    → All (λ p. all (includes ids) (needs_of p) ≡ true) phases
    → ¬ IsUnknown ids id n phases
IsUnknown-refuted ids id n [] h k = k
IsUnknown-refuted ids id n (p ∷ phases) (h, hs) (inl (_, there, away)) =
    let k = all-includes (includes ids) (needs_of p) n h there in absurd (cc)
IsUnknown-refuted ids id n (p ∷ phases) (h, hs) (inr k) = IsUnknown-refuted ids id n phases hs k

-- For phases with ids that differ, the code finds an order exactly where there is one.
pub topo_order-ok_iff :
    (phases : List FlowPhase)
    → HasDistinctIds phases
    → ((order : List Text) × (topo_order phases ≡ ok order))
      ↔ ((order : List Text) × IsTopological phases order)
topo_order-ok_iff phases distinct = (
  λ (order, e). (order, subst (IsAnswer phases) e (topo_order-IsAnswer phases distinct)),
  λ (order, h). found_from (topo_order phases) (topo_order-IsAnswer phases distinct) order h,
)
  where
    found_from :
        (o : Outcome FlowError (List Text))
        → IsAnswer phases o
        → (order : List Text) → IsTopological phases order
        → (found : List Text) × (o ≡ ok found)
    found_from (ok found) _ _ _ = (found, refl)
    found_from (error has_cycle) (placed, stuck) order h =
        absurd (stuck-unordered phases placed order stuck h)
    found_from (error (unknown_need id n)) bad order h =
        let known = Respects-known phases [] order refl h.known h.respects in
        absurd (
          IsUnknown-refuted (ids_of phases) id n phases
            (All-mono (λ p k. k.0 k.1) phases (All-both _ _ phases known h.complete)) bad)
    found_from (error _) bad order h = absurd bad
