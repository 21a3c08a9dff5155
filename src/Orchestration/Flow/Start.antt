-- ===== src/Orchestration/Flow/Start.antt =====
-- The tables and the queue that the loop starts from.
use pi_persona.Base.{
  ◌+◌, ◌≤◌, ◌≡◌, ◌∙◌, refl, ap, inl, inr, subst, Bool, true, false, ◌&&◌, List, [], ◌∷◌, arith,
  filter, all, length, Bool-cases, &&-eq-true, Text, text_eq, text_eq_iff, text_eq_refl, includes,
  lookup, All, All-mono, All-both, ◌==◌,
}
use pi_persona.Orchestration.Flow.{FlowPhase, needs_of, Degrees, start_degrees, degree, ids_of}
use pi_persona.Orchestration.Flow.Edges.{
  occ, deps_of, HasDistinctIds, need_count, edge_count, own_counts, IsWired, start_degrees-zero,
}
use pi_persona.Orchestration.Flow.Missing.{missing_in, left_out, missing-nil}
use pi_persona.Orchestration.Flow.Placing.{IsPlacing}

module _ (c : Text → Bool) where
  abbrev picked : List FlowPhase → List Text
  picked phases = ids_of (filter (λ p. c p.id) phases)

  includes-picked :
      (phases : List FlowPhase) (x : Text)
      → includes (picked phases) x ≡ (includes (ids_of phases) x && c x)
  includes-picked [] x = refl
  includes-picked (p ∷ phases) x = elim (Bool-cases (text_eq p.id x)) [
    | inl same ↦
        let e = (text_eq_iff p.id x).0 same in
        let k : c p.id ≡ c x = ap c e in ground (arith, includes-picked phases x, same, k)
    | inr other ↦ ground (arith, includes-picked phases x, other)
  ]

  occ-picked : (phases : List FlowPhase) (x : Text) → occ x (picked phases) ≤ occ x (ids_of phases)
  occ-picked [] x = omega arith
  occ-picked (p ∷ phases) x = ground (arith, occ-picked phases x)

  picked-known :
      (phases : List FlowPhase) (ids : List Text)
      → all (includes ids) (ids_of phases) ≡ true
      → all (includes ids) (picked phases) ≡ true
  picked-known [] ids h = refl
  picked-known (p ∷ phases) ids h = ground (arith, picked-known phases ids)

  -- Which phases are left out of a list that picks some of them.
  left_out-picked :
      (out : List Text) (phases : List FlowPhase)
      → All (λ p. includes out p.id ≡ c p.id) phases
      → length (picked phases) + left_out out phases ≡ length phases
  left_out-picked out [] h = refl
  left_out-picked out (p ∷ phases) (h, hs) = ground (arith, h, left_out-picked out phases hs)

ids_of-known :
    (phases : List FlowPhase) (ids : List Text)
    → all (includes ids) (ids_of phases) ≡ true
    → All (λ p. includes ids p.id ≡ true) phases
ids_of-known [] ids h = tt
ids_of-known (p ∷ phases) ids h = let (a, b) = &&-eq-true _ _ h in (a, ids_of-known phases ids b)

all-includes_more :
    (xs ids : List Text) (a : Text)
    → all (includes ids) xs ≡ true
    → all (includes (a ∷ ids)) xs ≡ true
all-includes_more [] ids a h = refl
all-includes_more (x ∷ xs) ids a h = ground (arith, all-includes_more xs ids a)

pub all-includes_self : (xs : List Text) → all (includes xs) xs ≡ true
all-includes_self [] = refl
all-includes_self (x ∷ xs) =
    rw (text_eq_refl x, all-includes_more xs xs x (all-includes_self xs)) refl

not_later :
    (x : Text) (phases : List FlowPhase)
    → All (λ q. text_eq x q.id ≡ false) phases
    → occ x (ids_of phases) ≡ 0
not_later x [] h = refl
not_later x (q ∷ phases) (h, hs) =
    let k : text_eq q.id x ≡ false = ground (arith, h, text_eq_iff q.id x, text_eq_iff x q.id) in
    rw k (not_later x phases hs)

distinct-occ :
    (phases : List FlowPhase) (x : Text) → HasDistinctIds phases → occ x (ids_of phases) ≤ 1
distinct-occ [] x h = omega arith
distinct-occ (p ∷ phases) x (h, hs) = elim (Bool-cases (text_eq p.id x)) [
  | inl same ↦
      let z =
        subst (λ y. occ y (ids_of phases) ≡ 0) ((text_eq_iff p.id x).0 same)
          (not_later p.id phases h) in
      rw same (omega (arith, z))
  | inr other ↦ rw other (distinct-occ phases x hs)
]

module _ (phases : List FlowPhase) (distinct : HasDistinctIds phases) (g : Degrees)
    (wired : IsWired
      (ids_of phases)
      phases
      (record { indeg = start_degrees phases []; dependents = [] })
      g) where
  abbrev is_free : Text → Bool
  is_free x = degree g.indeg x == 0

  pub start_edges : (x n : Text) → occ x (deps_of g n) ≡ edge_count x n phases
  unfolding lookup
  start_edges x n = omega (arith, wired.edges x n)

  start_degree : (x : Text) → degree g.indeg x ≡ need_count x phases
  unfolding lookup
  start_degree x = omega (arith, wired.degrees x, start_degrees-zero phases [] x refl)

  pub start-IsPlacing :
      IsPlacing phases g.indeg [] (ids_of (filter (λ p. degree g.indeg p.id == 0) phases))
  start-IsPlacing =
      let ids = ids_of-known phases (ids_of phases) (all-includes_self (ids_of phases)) in
      let free : All (λ p. includes (picked is_free phases) p.id ≡ is_free p.id) phases =
        All-mono (λ p k. rw (includes-picked is_free phases p.id, k) refl) phases ids in
      record {
        counted = record {
          each =
              All-mono
                (λ p k.
                  let d : degree g.indeg p.id ≡ missing_in [] (needs_of p) + 0 =
                    omega (arith, start_degree p.id, k.1.0, missing-nil (needs_of p)) in
                  (d, k.0 ∙ ap (λ n. n == 0) d))
                phases (All-both _ _ phases free (own_counts phases distinct));
          size = left_out-picked is_free (picked is_free phases) phases free;
          apart = λ x. omega (arith, occ-picked is_free phases x, distinct-occ phases x distinct);
          known = picked-known is_free phases (ids_of phases) (all-includes_self (ids_of phases));
        };
        respected = tt;
      }
