-- ===== src/Orchestration/Flow/Missing.antt =====
-- Counts of the needs that are not placed yet, and of the phases that are not.
use pi_persona.Base.{
  ℕ, suc, ◌+◌, ◌≤◌, ◌<◌, ◌≡◌, sym, refl, ap, inl, inr, subst, true, false, not, ◌&&◌, ◌||◌, List,
  [], ◌∷◌, ◌++◌, arith, filter, any, all, length, Bool-cases, Text, text_eq, text_eq_iff, includes,
  All,
}
use pi_persona.Orchestration.Flow.{FlowPhase, ids_of}
use pi_persona.Orchestration.Flow.Edges.{occ, HasDistinctIds}

-- How many of the needs are not in a list.
abbrev pub missing_in : List Text → List Text → ℕ
missing_in done needs = length (filter (λ n. not (includes done n)) needs)

-- How many phases are not in a list.
abbrev pub left_out : List Text → List FlowPhase → ℕ
left_out out phases = length (filter (λ p. not (includes out p.id)) phases)

pub includes-snoc :
    (xs : List Text) (a x : Text) → includes (xs ++ (a ∷ [])) x ≡ (includes xs x || text_eq a x)
includes-snoc [] a x = ground arith
includes-snoc (y ∷ xs) a x = ground (arith, includes-snoc xs a x)

pub occ-none : (xs : List Text) (x : Text) → includes xs x ≡ false → occ x xs ≡ 0
occ-none [] x h = refl
occ-none (y ∷ xs) x h = ground (arith, occ-none xs x)

pub occ-some : (xs : List Text) (x : Text) → includes xs x ≡ true → 1 ≤ occ x xs
occ-some [] x h = ground arith
occ-some (y ∷ xs) x h = ground (arith, occ-some xs x)

-- A name that is placed is no longer missing.
pub missing-snoc :
    (needs done : List Text) (id : Text)
    → includes done id ≡ false
    → missing_in done needs ≡ missing_in (done ++ (id ∷ [])) needs + occ id needs
missing-snoc [] done id h = omega arith
missing-snoc (n ∷ needs) done id h =
    let r = missing-snoc needs done id h in
    let s = includes-snoc done id n in
    elim (Bool-cases (text_eq id n)) [
      | inl same ↦
          let e : id ≡ n = (text_eq_iff id n).0 same in
          let k : text_eq n id ≡ true = ground (arith, text_eq_iff n id) in
          let g : includes done n ≡ false = subst (λ m. includes done m ≡ false) e h in
          ground (arith, r, s, k, g, same)
      | inr other ↦
          let k : text_eq n id ≡ false =
            ground (arith, other, text_eq_iff n id, text_eq_iff id n) in
          ground (arith, r, s, k, other)
    ]

pub missing-none :
    (needs done : List Text) → missing_in done needs ≡ 0 → all (includes done) needs ≡ true
missing-none [] done h = refl
missing-none (n ∷ needs) done h = ground (arith, missing-none needs done)

pub missing-some :
    (needs done ids : List Text)
    → 0 < missing_in done needs
    → all (includes ids) needs ≡ true
    → any (λ n. includes ids n && not (includes done n)) needs ≡ true
missing-some [] done ids h k = absurd (omega arith)
missing-some (n ∷ needs) done ids h k = ground (arith, missing-some needs done ids)

pub missing-nil : (needs : List Text) → missing_in [] needs ≡ length needs
missing-nil [] = refl
missing-nil (n ∷ needs) = ap suc (missing-nil needs)

left_out-other :
    (phases : List FlowPhase) (out : List Text) (x : Text)
    → All (λ q. text_eq x q.id ≡ false) phases
    → left_out (out ++ (x ∷ [])) phases ≡ left_out out phases
left_out-other [] out x h = refl
left_out-other (q ∷ phases) out x (h, hs) =
    ground (arith, includes-snoc out x q.id, h, left_out-other phases out x hs)

-- A phase that is queued is no longer left out.
pub left_out-snoc :
    (phases : List FlowPhase) (out : List Text) (x : Text)
    → HasDistinctIds phases
    → includes (ids_of phases) x ≡ true
    → includes out x ≡ false
    → left_out (out ++ (x ∷ [])) phases + 1 ≡ left_out out phases
left_out-snoc [] out x d h k = ground arith
left_out-snoc (p ∷ phases) out x (h, hs) there k =
    let s = includes-snoc out x p.id in
    elim (Bool-cases (text_eq p.id x)) [
      | inl same ↦
          let e : p.id ≡ x = (text_eq_iff p.id x).0 same in
          let o =
            left_out-other phases out x
              (subst (λ y. All (λ q. text_eq y q.id ≡ false) phases) e h) in
          let g : includes out p.id ≡ false = subst (λ y. includes out y ≡ false) (sym e) k in
          let l : text_eq x p.id ≡ true = ground (arith, text_eq_iff x p.id) in
          ground (arith, s, o, g, l)
      | inr other ↦
          let l : text_eq x p.id ≡ false =
            ground (arith, other, text_eq_iff x p.id, text_eq_iff p.id x) in
          let r = left_out-snoc phases out x hs (rw other at there) k in ground (arith, s, r, l)
    ]

-- A property of the phase that has an id.
pub phase_at :
    (P : FlowPhase → Type 0) (phases : List FlowPhase) (x : Text)
    → All P phases
    → includes (ids_of phases) x ≡ true
    → (p : FlowPhase) × (p.id ≡ x) × P p
phase_at P [] x h k = absurd (ground arith)
phase_at P (p ∷ phases) x (h, hs) k = elim (Bool-cases (text_eq p.id x)) [
  | inl same ↦ (p, (text_eq_iff p.id x).0 same, h)
  | inr other ↦ phase_at P phases x hs (rw other at k)
]
