-- ===== src/Orchestration/Flow/Edges.antt =====
-- The tables of degrees and dependents that the needs of the phases make.
use pi_persona.Base.{
  ℕ, ◌+◌, ◌≡◌, refl, inl, inr, subst, true, false, List, [], ◌∷◌, ◌++◌, arith, if◌then◌else◌,
  or_else, filter, filter-append, all, length, length-append, Bool-cases, Text, text_eq,
  text_eq_iff, text_eq_refl, includes, TextMap, lookup, insert, lookup-insert, All, All-mono,
  All-both, AllPairs, Outcome, error, ok,
}
use pi_persona.Orchestration.Flow.{
  FlowPhase, FlowError, unknown_need, needs_of, Degrees, start_degrees, add_edge, wire_needs, wire,
  degree,
}

-- How often a name stands in a list.
abbrev pub occ : Text → List Text → ℕ
occ x xs = length (filter (λ y. text_eq y x) xs)

abbrev pub deps_of : Degrees → Text → List Text
deps_of g n = or_else (lookup n g.dependents) []

pub occ-append : (x : Text) (xs ys : List Text) → occ x (xs ++ ys) ≡ occ x xs + occ x ys
occ-append x xs ys =
    rw (filter-append (λ y. text_eq y x) xs ys)
      (length-append (filter (λ y. text_eq y x) xs) (filter (λ y. text_eq y x) ys))

pub degree-insert :
    (k x : Text) (d : ℕ) (m : TextMap ℕ)
    → degree (insert k d m) x ≡ (if text_eq k x then d else degree m x)
degree-insert k x d m = elim (Bool-cases (text_eq k x)) [
  | inl same ↦ rw (lookup-insert k x d m, same) refl
  | inr other ↦ rw (lookup-insert k x d m, other) refl
]

pub start_degrees-zero :
    (phases : List FlowPhase) (indeg : TextMap ℕ) (x : Text)
    → degree indeg x ≡ 0
    → degree (start_degrees phases indeg) x ≡ 0
unfolding start_degrees
start_degrees-zero [] indeg x h = h
start_degrees-zero (p ∷ phases) indeg x h = start_degrees-zero phases (insert p.id 0 indeg) x (
    rw (degree-insert p.id x 0 indeg)
      (elim (Bool-cases (text_eq p.id x)) [ inl same ↦ rw same refl | inr other ↦ rw other h ]))

-- The tables after the needs of one phase.
record Wired (ids : List Text) (id : Text) (needs : List Text) (g g' : Degrees) : Type 0 where
  pub degrees :
      (x : Text) → degree g'.indeg x ≡ degree g.indeg x + (if text_eq id x then length needs else 0)
  pub edges :
      (x n : Text)
      → occ x (deps_of g' n) ≡ occ x (deps_of g n) + (if text_eq id x then occ n needs else 0)
  pub known : all (includes ids) needs ≡ true

add_edge-edges :
    (id n : Text) (g : Degrees) (x m : Text)
    → occ x (deps_of (add_edge id n g) m)
      ≡ occ x (deps_of g m) + (if text_eq id x then occ m (n ∷ []) else 0)
unfolding add_edge
add_edge-edges id n g x m =
    rw (lookup-insert n m (or_else (lookup n g.dependents) [] ++ (id ∷ [])) g.dependents)
      (elim (Bool-cases (text_eq n m)) [
        | inl same ↦
            let e : n ≡ m = (text_eq_iff n m).0 same in
            rw (same, occ-append x (or_else (lookup n g.dependents) []) (id ∷ []), e) (ground arith)
        | inr other ↦ rw other (ground arith)
      ])

wire_needs-Wired :
    (ids : List Text) (id : Text) (needs : List Text) (g g' : Degrees)
    → wire_needs ids id needs g ≡ ok g'
    → Wired ids id needs g g'
unfolding wire_needs
wire_needs-Wired ids id [] g g' h =
    let e : g ≡ g' = cc in
    subst (Wired ids id [] g) e
      (record { degrees = λ x. ground arith; edges = λ x n. ground arith; known = refl })
wire_needs-Wired ids id (n ∷ needs) g g' h = elim (Bool-cases (includes ids n)) [
  | inr unknown ↦ absurd (let k : error (unknown_need id n) ≡ ok g' = rw unknown at h in cc)
  | inl there ↦
      let r = wire_needs-Wired ids id needs (add_edge id n g) g' (rw there at h) in
      record {
        degrees = λ x.
            let e : degree (add_edge id n g).indeg x
                ≡ (if text_eq id x then degree g.indeg id + 1 else degree g.indeg x) =
              unfold add_edge in degree-insert id x _ g.indeg in
            elim (Bool-cases (text_eq id x)) [
              | inl same ↦
                  let k : id ≡ x = (text_eq_iff id x).0 same in
                  let d = r.degrees x in ground (arith, d, e, same, k)
              | inr other ↦ let d = r.degrees x in ground (arith, d, e, other)
            ];
        edges = λ x m.
            let a = r.edges x m in
            let b = add_edge-edges id n g x m in
            elim (Bool-cases (text_eq id x)) [
              | inl same ↦ ground (arith, a, b, same)
              | inr other ↦ ground (arith, a, b, other)
            ];
        known = rw there (r.known);
      }
]

-- Sums over the phases of one id.
abbrev pub need_count : Text → List FlowPhase → ℕ
need_count x [] = 0
need_count x (p ∷ phases) =
    (if text_eq p.id x then length (needs_of p) else 0) + need_count x phases

abbrev pub edge_count : Text → Text → List FlowPhase → ℕ
edge_count x n [] = 0
edge_count x n (p ∷ phases) =
    (if text_eq p.id x then occ n (needs_of p) else 0) + edge_count x n phases

pub record IsWired (ids : List Text) (phases : List FlowPhase) (g g' : Degrees) : Type 0 where
  pub degrees : (x : Text) → degree g'.indeg x ≡ degree g.indeg x + need_count x phases
  pub edges : (x n : Text) → occ x (deps_of g' n) ≡ occ x (deps_of g n) + edge_count x n phases
  pub known : All (λ p. all (includes ids) (needs_of p) ≡ true) phases

pub wire-IsWired :
    (ids : List Text) (phases : List FlowPhase) (g g' : Degrees)
    → wire ids phases g ≡ ok g'
    → IsWired ids phases g g'
unfolding wire
wire-IsWired ids [] g g' h =
    let e : g ≡ g' = cc in
    subst (IsWired ids [] g) e
      (record { degrees = λ x. omega arith; edges = λ x n. omega arith; known = tt })
wire-IsWired ids (p ∷ phases) g g' h =
    wired_from (wire_needs ids p.id (needs_of p) g) refl h (λ m l. wire-IsWired ids phases m g' l)
  where
    wired_from :
        (o : Outcome FlowError Degrees)
        → wire_needs ids p.id (needs_of p) g ≡ o
        → (elim o [ error e ↦ error e | ok m ↦ wire ids phases m ]) ≡ ok g'
        → ((m : Degrees) → wire ids phases m ≡ ok g' → IsWired ids phases m g')
        → IsWired ids (p ∷ phases) g g'
    wired_from (error e) k l _ = absurd (cc)
    wired_from (ok m) k l rest =
        let one = wire_needs-Wired ids p.id (needs_of p) g m k in
        let more = rest m l in
        record {
          degrees = λ x. omega (arith, one.degrees x, more.degrees x);
          edges = λ x n. omega (arith, one.edges x n, more.edges x n);
          known = (one.known, more.known);
        }

abbrev pub HasDistinctIds : List FlowPhase → Type 0
HasDistinctIds phases = AllPairs (λ p q. text_eq p.id q.id ≡ false) phases

count_other :
    (x : Text) (phases : List FlowPhase)
    → All (λ q. text_eq x q.id ≡ false) phases
    → (need_count x phases ≡ 0) × ((n : Text) → edge_count x n phases ≡ 0)
count_other x [] h = (refl, λ n. refl)
count_other x (q ∷ phases) (h, hs) =
    let k : text_eq q.id x ≡ false = ground (arith, h, text_eq_iff q.id x, text_eq_iff x q.id) in
    let (a, b) = count_other x phases hs in
    (rw k (omega (arith, a)), λ n. rw k (omega (arith, b n)))

pub own_counts :
    (phases : List FlowPhase)
    → HasDistinctIds phases
    → All
        (λ p.
          (need_count p.id phases ≡ length (needs_of p))
          × ((n : Text) → edge_count p.id n phases ≡ occ n (needs_of p)))
        phases
own_counts [] h = tt
own_counts (p ∷ phases) (h, hs) =
    let (a, b) = count_other p.id phases h in
    let same = text_eq_refl p.id in
    (
      (rw same (omega (arith, a)), λ n. rw same (omega (arith, b n))),
      All-mono (λ q k. (rw (k.0) (omega (arith, k.1.0)), λ n. rw (k.0) (omega (arith, k.1.1 n))))
          phases (All-both _ _ phases h (own_counts phases hs)),
    )
