-- ===== src/Orchestration/Flow/Order.antt =====
-- What the order of the phases promises, and what a refusal shows.
use mathlib.Core.List.{append-nil}
use pi_persona.Base.{
  ◌+◌, ◌≤◌, ◌<◌, ◌≡◌, ◌⊎◌, refl, inl, inr, subst, true, false, not, ◌&&◌, List, [], ◌∷◌, arith,
  if◌then◌else◌, filter, any, all, length, Bool-cases, Text, text_eq, text_eq_refl, includes, All,
  All-mono, All-both, Outcome, error, ok, ◌==◌, ==_iff,
}
use pi_persona.Orchestration.Flow.{
  FlowPhase, FlowError, unknown_need, has_cycle, needs_of, Degrees, start_degrees, add_edge,
  wire_needs, wire, degree, place_all, topo_order, ids_of,
}
use pi_persona.Orchestration.Flow.Edges.{occ, HasDistinctIds, IsWired, wire-IsWired}
use pi_persona.Orchestration.Flow.Missing.{missing_in, left_out, missing-some}
use pi_persona.Orchestration.Flow.Queue.{IsCounted}
use pi_persona.Orchestration.Flow.Placing.{Respects, place-IsPlacing}
use pi_persona.Orchestration.Flow.Start.{start_edges, start-IsPlacing}

-- An order holds each phase once and nothing else, each behind what it needs.
pub record IsTopological (phases : List FlowPhase) (order : List Text) : Type 0 where
  pub complete : All (λ p. includes order p.id ≡ true) phases
  pub once : (x : Text) → occ x order ≤ 1
  pub known : all (includes (ids_of phases)) order ≡ true
  pub respects : Respects phases [] order

-- Some phases are not in `placed`, and each of them needs another that is not.
pub record IsStuck (phases : List FlowPhase) (placed : List Text) : Type 0 where
  pub left : 0 < left_out placed phases
  pub waits :
      All
        (λ p.
          includes placed p.id ≡ false
          → any (λ n. includes (ids_of phases) n && not (includes placed n)) (needs_of p) ≡ true)
        phases

-- A phase of the list needs a name that no phase has.
abbrev pub IsUnknown : List Text → Text → Text → List FlowPhase → Type 0
IsUnknown ids id n [] = ⊥
IsUnknown ids id n (p ∷ phases) =
    ((p.id ≡ id) × (includes (needs_of p) n ≡ true) × (includes ids n ≡ false))
    ⊎ IsUnknown ids id n phases

abbrev pub IsAnswer : List FlowPhase → Outcome FlowError (List Text) → Type 0
IsAnswer phases (ok order) = IsTopological phases order
IsAnswer phases (error has_cycle) = (placed : List Text) × IsStuck phases placed
IsAnswer phases (error (unknown_need id n)) = IsUnknown (ids_of phases) id n phases
IsAnswer phases (error _) = ⊥

-- What an error of the tables shows.
abbrev IsRefusal : List Text → List FlowPhase → Outcome FlowError Degrees → Type 0
IsRefusal ids phases (ok g) = Unit
IsRefusal ids phases (error (unknown_need id n)) = IsUnknown ids id n phases
IsRefusal ids phases (error _) = ⊥

abbrev IsNeedError : List Text → Text → List Text → Outcome FlowError Degrees → Type 0
IsNeedError ids id needs (ok g) = Unit
IsNeedError ids id needs (error (unknown_need i n)) =
    (id ≡ i) × (includes needs n ≡ true) × (includes ids n ≡ false)
IsNeedError ids id needs (error _) = ⊥

IsNeedError-more :
    (ids : List Text) (id n : Text) (needs : List Text) (o : Outcome FlowError Degrees)
    → IsNeedError ids id needs o
    → IsNeedError ids id (n ∷ needs) o
IsNeedError-more ids id n needs (ok g) h = tt
IsNeedError-more ids id n needs (error (unknown_need i m)) (a, b, c) =
    (a, elim (Bool-cases (text_eq n m)) [ inl same ↦ rw same refl | inr other ↦ rw other b ], c)
IsNeedError-more ids id n needs (error e) h = absurd h

wire_needs-IsNeedError :
    (ids : List Text) (id : Text) (needs : List Text) (g : Degrees)
    → IsNeedError ids id needs (wire_needs ids id needs g)
unfolding wire_needs
wire_needs-IsNeedError ids id [] g = tt
wire_needs-IsNeedError ids id (n ∷ needs) g = elim (Bool-cases (includes ids n)) [
  | inl there ↦ rw there (
      IsNeedError-more ids id n needs (wire_needs ids id needs (add_edge id n g))
        (wire_needs-IsNeedError ids id needs (add_edge id n g)))
  | inr unknown ↦ rw unknown (refl, rw (text_eq_refl n) refl, unknown)
]

wire-IsRefusal :
    (ids : List Text) (phases : List FlowPhase) (g : Degrees)
    → IsRefusal ids phases (wire ids phases g)
unfolding wire
wire-IsRefusal ids [] g = tt
wire-IsRefusal ids (p ∷ phases) g =
    refused_from (wire_needs ids p.id (needs_of p) g)
      (wire_needs-IsNeedError ids p.id (needs_of p) g) (wire-IsRefusal ids phases)
  where
    later : (o : Outcome FlowError Degrees) → IsRefusal ids phases o → IsRefusal ids (p ∷ phases) o
    later (ok g) h = tt
    later (error (unknown_need id n)) h = inr h
    later (error e) h = absurd h

    refused_from :
        (o : Outcome FlowError Degrees)
        → IsNeedError ids p.id (needs_of p) o
        → ((m : Degrees) → IsRefusal ids phases (wire ids phases m))
        → IsRefusal ids (p ∷ phases) (elim o [ error e ↦ error e | ok m ↦ wire ids phases m ])
    refused_from (ok m) h rest = later (wire ids phases m) (rest m)
    refused_from (error (unknown_need id n)) h rest = inl h
    refused_from (error e) h rest = absurd h

none_left :
    (phases : List FlowPhase) (out : List Text)
    → left_out out phases ≡ 0
    → All (λ p. includes out p.id ≡ true) phases
none_left [] out h = tt
none_left (p ∷ phases) out h = elim (Bool-cases (includes out p.id)) [
  | inl there ↦ (there, none_left phases out (rw there at h))
  | inr missing ↦ absurd (let k = rw missing at h in omega (arith, k))
]

waits_at :
    (phases : List FlowPhase) (order : List Text) (p : FlowPhase)
    → includes order p.id ≡ ((missing_in order (needs_of p) + 0) == 0)
    → all (includes (ids_of phases)) (needs_of p) ≡ true
    → includes order p.id ≡ false
    → any (λ n. includes (ids_of phases) n && not (includes order n)) (needs_of p) ≡ true
waits_at phases order p e known away =
    missing-some (needs_of p) order (ids_of phases) (ground (arith, e, away)) known

module _ (phases : List FlowPhase) (distinct : HasDistinctIds phases) where
  place_all-IsAnswer :
      (g : Degrees)
      → IsWired
          (ids_of phases)
          phases
          (record { indeg = start_degrees phases []; dependents = [] })
          g
      → IsAnswer phases (
          if not (length (place_all phases g) == length phases)
          then error has_cycle
          else ok (place_all phases g))
  unfolding place_all
  place_all-IsAnswer g wired =
      let order = place_all phases g in
      let (last, end) =
        place-IsPlacing phases distinct g.dependents (start_edges phases distinct g wired)
          (length phases) g.indeg [] (ids_of (filter (λ p. degree g.indeg p.id == 0) phases))
          (omega arith) (start-IsPlacing phases distinct g wired) in
      let h : IsCounted phases (λ p. missing_in order (needs_of p)) last [] order =
        subst (IsCounted phases (λ p. missing_in order (needs_of p)) last []) (append-nil order)
          (end.counted) in
      elim (Bool-cases (length order == length phases)) [
        | inl all_placed ↦ rw all_placed (record {
          complete = none_left phases order (omega (arith, h.size, (==_iff _ _).0 all_placed));
          once = h.apart;
          known = h.known;
          respects = end.respected;
        })
        | inr cycle ↦ rw cycle (
          order,
          record {
            left = ground (arith, h.size, cycle, ==_iff (length order) (length phases));
            waits =
                All-mono (λ p k away. waits_at phases order p k.0.1 k.1 away) phases
                  (All-both _ _ phases h.each wired.known);
          },
        )
      ]

  -- For phases with ids that differ, the answer is an order that holds each phase once and nothing else,
  -- each behind all that it needs; or the error of a need that a phase lists and no phase has; or the
  -- error of a cycle, where there are phases that are not placed, at least one, each of which needs
  -- another of them.
  pub topo_order-IsAnswer : IsAnswer phases (topo_order phases)
  unfolding topo_order
  topo_order-IsAnswer =
      answer_from
        (wire (ids_of phases) phases (record { indeg = start_degrees phases []; dependents = [] }))
        refl (wire-IsRefusal (ids_of phases) phases _)
    where
      answer_from :
          (o : Outcome FlowError Degrees)
          → wire
              (ids_of phases)
              phases
              (record { indeg = start_degrees phases []; dependents = [] })
            ≡ o
          → IsRefusal (ids_of phases) phases o
          → IsAnswer phases (elim o [
            | error e ↦ error e
            | ok g ↦
                let order = place_all phases g in
                if not (length order == length phases) then error has_cycle else ok order
          ])
      answer_from (ok g) e h = place_all-IsAnswer g (wire-IsWired (ids_of phases) phases _ g e)
      answer_from (error (unknown_need id n)) e h = h
      answer_from (error e) _ h = absurd h
