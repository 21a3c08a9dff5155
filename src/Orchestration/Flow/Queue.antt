-- ===== src/Orchestration/Flow/Queue.antt =====
-- The loop that takes phases from the queue: what holds of its tables between two rounds.
use mathlib.Core.List.{append_assoc}
use pi_persona.Base.{
  ℕ, suc, ◌+◌, ◌-◌, ◌≤◌, ◌≡◌, ◌∙◌, sym, refl, inl, inr, subst, Bool, true, false, ◌&&◌, List, [],
  ◌∷◌, ◌++◌, arith, if◌then◌else◌, all, length, length-append, Bool-cases, &&-eq-true, Text,
  text_eq, text_eq_iff, includes, TextMap, insert, All, All-mono, ◌==◌,
}
use pi_persona.Orchestration.Flow.{FlowPhase, degree, release_each, ids_of}
use pi_persona.Orchestration.Flow.Edges.{occ, occ-append, degree-insert, HasDistinctIds}
use pi_persona.Orchestration.Flow.Missing.{
  left_out, includes-snoc, occ-none, left_out-snoc, phase_at,
}

-- The degree of each phase is `f` and the edges that are still to be dropped, and it is queued or placed
-- exactly where none are left.
pub record IsCounted (phases : List FlowPhase) (f : FlowPhase → ℕ) (indeg : TextMap ℕ)
    (deps out : List Text) : Type 0 where
  pub each :
      All
        (λ p.
          (degree indeg p.id ≡ f p + occ p.id deps)
          × (includes out p.id ≡ ((f p + occ p.id deps) == 0)))
        phases
  pub size : length out + left_out out phases ≡ length phases
  pub apart : (x : Text) → occ x out ≤ 1
  pub known : all (includes (ids_of phases)) out ≡ true

pub all-snoc :
    (p : Text → Bool) (xs : List Text) (a : Text) → all p (xs ++ (a ∷ [])) ≡ (all p xs && p a)
all-snoc p [] a = ground arith
all-snoc p (x ∷ xs) a = ground (arith, all-snoc p xs a)

-- The counts of one phase before and after an edge to `dep` is dropped.
edge_each :
    (f : FlowPhase → ℕ) (indeg : TextMap ℕ) (dep : Text) (deps out : List Text) (b : Bool)
    (r : FlowPhase)
    → (degree indeg r.id ≡ f r + occ r.id (dep ∷ deps))
      × (includes out r.id ≡ ((f r + occ r.id (dep ∷ deps)) == 0))
    → (degree indeg dep == 1) ≡ b
    → (degree (insert dep (degree indeg dep - 1) indeg) r.id ≡ f r + occ r.id deps)
      × (includes (if b then out ++ (dep ∷ []) else out) r.id ≡ ((f r + occ r.id deps) == 0))
edge_each f indeg dep deps out b r (d, q) e = elim (Bool-cases (text_eq dep r.id)) [
  | inl same ↦
      let k : dep ≡ r.id = (text_eq_iff dep r.id).0 same in
      let d' : degree indeg dep ≡ f r + suc (occ r.id deps) =
        subst (λ x. degree indeg x ≡ f r + suc (occ r.id deps)) (sym k) (rw same at d) in
      let q' : includes out r.id ≡ ((f r + suc (occ r.id deps)) == 0) = rw same at q in
      (
        rw (degree-insert dep r.id (degree indeg dep - 1) indeg, same) (omega (arith, d')),
        elim (Bool-cases (degree indeg dep == 1)) [
          | inl last ↦
              rw (sym e ∙ last, includes-snoc out dep r.id, same) (ground (arith, d', q', last))
          | inr more ↦ rw (sym e ∙ more) (ground (arith, d', q', more))
        ],
      )
  | inr other ↦ (
    rw (degree-insert dep r.id (degree indeg dep - 1) indeg, other) (ground (arith, d, other)),
    elim (Bool-cases b) [
      | inl last ↦ rw (last, includes-snoc out dep r.id, other) (ground (arith, q, other))
      | inr more ↦ rw more (ground (arith, q, other))
    ],
  )
]

module _ (phases : List FlowPhase) (distinct : HasDistinctIds phases) where
  -- One edge is dropped, and its phase queued where it was the last.
  drop_edge :
      (f : FlowPhase → ℕ) (indeg : TextMap ℕ) (dep : Text) (deps out : List Text)
      → includes (ids_of phases) dep ≡ true
      → IsCounted phases f indeg (dep ∷ deps) out
      → IsCounted phases f
          (insert dep (degree indeg dep - 1) indeg)
          deps
          (if degree indeg dep == 1 then out ++ (dep ∷ []) else out)
  drop_edge f indeg dep deps out there h =
      let (p, own, (d, q)) = phase_at _ phases dep h.each there in
      let mine : text_eq dep p.id ≡ true = (text_eq_iff dep p.id).1 (sym own) in
      let q0 : includes out p.id ≡ ((f p + suc (occ p.id deps)) == 0) = rw mine at q in
      let q' : includes out dep ≡ false =
        subst (λ x. includes out x ≡ false) own (ground (arith, q0)) in
      elim (Bool-cases (degree indeg dep == 1)) [
        | inl last ↦ rw last (record {
          each = All-mono (λ r k. edge_each f indeg dep deps out true r k last) phases h.each;
          size = omega (
            arith,
            h.size,
            length-append out (dep ∷ []),
            left_out-snoc phases out dep distinct there q',
          );
          apart = λ x. rw (occ-append x out (dep ∷ [])) (
              let few = h.apart x in
              elim (Bool-cases (text_eq dep x)) [
                | inl same ↦
                    let z = subst (λ y. includes out y ≡ false) ((text_eq_iff dep x).0 same) q' in
                    rw same (omega (arith, few, occ-none out x z))
                | inr other ↦ rw other (omega (arith, few))
              ]);
          known = rw (all-snoc (includes (ids_of phases)) out dep, h.known, there) refl;
        })
        | inr more ↦ rw more (record {
          each = All-mono (λ r k. edge_each f indeg dep deps out false r k more) phases h.each;
          size = h.size;
          apart = h.apart;
          known = h.known;
        })
      ]

  -- All the edges of one phase are dropped.
  pub release_each-IsCounted :
      (f : FlowPhase → ℕ) (deps order queue : List Text) (indeg : TextMap ℕ)
      → all (includes (ids_of phases)) deps ≡ true
      → IsCounted phases f indeg deps (order ++ queue)
      → IsCounted phases f
          (release_each deps indeg queue).0
          []
          (order ++ (release_each deps indeg queue).1)
  unfolding release_each
  release_each-IsCounted f [] order queue indeg known h = h
  release_each-IsCounted f (dep ∷ deps) order queue indeg known h =
      let (there, rest) = &&-eq-true _ _ known in
      let next = drop_edge f indeg dep deps (order ++ queue) there h in
      let queue' = if degree indeg dep == 1 then queue ++ (dep ∷ []) else queue in
      release_each-IsCounted f deps order queue' (insert dep (degree indeg dep - 1) indeg) rest (
        subst (IsCounted phases f (insert dep (degree indeg dep - 1) indeg) deps)
          (elim (Bool-cases (degree indeg dep == 1)) [
            | inl last ↦ rw last (append_assoc order queue (dep ∷ []))
            | inr more ↦ rw more refl
          ])
          next)
