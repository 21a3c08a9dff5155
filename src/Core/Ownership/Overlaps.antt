-- ===== src/Core/Ownership/Overlaps.antt =====
-- No overlap is found exactly when all write sets are disjoint, and a list of parallel tasks is let
-- through exactly when all their paths are fine as well.
use pi_persona.Base.{
  ℕ, suc, ◌≡◌, refl, sym, ◌∙◌, ◌↔◌, inl, inr, Bool, false, ◌||◌, none, some, List, [], ◌∷◌, ◌++◌,
  arith, if◌then◌else◌, or_else, Text, text_eq, text_eq_iff, All, AllPairs, Bool-cases,
  Option-cases,
}
use pi_persona.Core.Ownership.{
  PathModule, WriteSetOwner, NormalizedWritePath, WriteSetOverlap, paths_overlap, is_ancestor,
  collide, collisions, overlaps_of, overlaps_behind, overlaps_from, find_write_set_overlaps,
  write_set_path_error, first_path_error, first_error, first_overlap, validate_parallel_write_sets,
}

abbrev pub paths_of : WriteSetOwner → List Text
paths_of t = or_else t.write_set []

append-eq_nil : {A : Type 0} (xs ys : List A) → (xs ++ ys ≡ []) ↔ ((xs ≡ []) × (ys ≡ []))
append-eq_nil [] ys = (λ e. (refl, e), λ e. e.1)
append-eq_nil (x ∷ xs) ys = (λ e. cc, λ e. cc)

text_eq_comm : (a b : Text) → text_eq a b ≡ text_eq b a
text_eq_comm a b = ground (arith, text_eq_iff a b, text_eq_iff b a)

or_comm : (a b : Bool) → (a || b) ≡ (b || a)
or_comm a b = ground arith

related_comm :
    (l r : Text)
    → (text_eq l r || is_ancestor l r || is_ancestor r l)
      ≡ (text_eq r l || is_ancestor r l || is_ancestor l r)
related_comm l r = ground (arith, text_eq_comm l r)

module _ (host : PathModule) where
  abbrev pub folded : Bool → NormalizedWritePath → Text
  folded b path = if b then host.to_lower path.value else path.value

  -- The order of two paths does not matter.
  paths_overlap_comm : (a b : NormalizedWritePath) → paths_overlap host a b ≡ paths_overlap host b a
  unfolding paths_overlap
  paths_overlap_comm a b =
      rw (or_comm a.windows b.windows)
        (related_comm (folded (b.windows || a.windows) a) (folded (b.windows || a.windows) b))

  -- No path of the one meets a path of the other; blank paths meet nothing.
  abbrev pub IsDisjoint : WriteSetOwner → WriteSetOwner → Type 0
  IsDisjoint a b = All (λ p. All (λ q. collide host p q ≡ false) (paths_of b)) (paths_of a)

  collisions-nil_iff :
      (i j : ℕ) (p : Text) (qs : List Text)
      → (collisions host i j p qs ≡ []) ↔ All (λ q. collide host p q ≡ false) qs
  unfolding collisions
  collisions-nil_iff i j p [] = (λ _. tt, λ _. refl)
  collisions-nil_iff i j p (q ∷ qs) = elim (Bool-cases (collide host p q)) [
    | inl e ↦ rw e (λ h. cc, λ h. cc)
    | inr e ↦ let ih = collisions-nil_iff i j p qs in rw e (λ h. (refl, ih.0 h), λ h. ih.1 h.1)
  ]

  overlaps_of-nil_iff :
      (i j : ℕ) (ps qs : List Text)
      → (overlaps_of host i j ps qs ≡ []) ↔ All (λ p. All (λ q. collide host p q ≡ false) qs) ps
  unfolding overlaps_of
  overlaps_of-nil_iff i j [] qs = (λ _. tt, λ _. refl)
  overlaps_of-nil_iff i j (p ∷ ps) qs =
      let both = append-eq_nil (collisions host i j p qs) (overlaps_of host i j ps qs) in
      let now = collisions-nil_iff i j p qs in
      let ih = overlaps_of-nil_iff i j ps qs in
      (λ e. let (a, b) = both.0 e in (now.0 a, ih.0 b), λ (a, b). both.1 (now.1 a, ih.1 b))

  overlaps_behind-nil_iff :
      (i j : ℕ) (first : WriteSetOwner) (tasks : List WriteSetOwner)
      → (overlaps_behind host i j first tasks ≡ []) ↔ All (IsDisjoint first) tasks
  unfolding overlaps_behind
  overlaps_behind-nil_iff i j first [] = (λ _. tt, λ _. refl)
  overlaps_behind-nil_iff i j first (t ∷ tasks) =
      let both =
        append-eq_nil (overlaps_of host i j (paths_of first) (paths_of t))
          (overlaps_behind host i (suc j) first tasks) in
      let now = overlaps_of-nil_iff i j (paths_of first) (paths_of t) in
      let ih = overlaps_behind-nil_iff i (suc j) first tasks in
      (λ e. let (a, b) = both.0 e in (now.0 a, ih.0 b), λ (a, b). both.1 (now.1 a, ih.1 b))

  overlaps_from-nil_iff :
      (i : ℕ) (tasks : List WriteSetOwner)
      → (overlaps_from host i tasks ≡ []) ↔ AllPairs IsDisjoint tasks
  unfolding overlaps_from
  overlaps_from-nil_iff i [] = (λ _. tt, λ _. refl)
  overlaps_from-nil_iff i (t ∷ tasks) =
      let both =
        append-eq_nil (overlaps_behind host i (suc i) t tasks) (overlaps_from host (suc i) tasks) in
      let now = overlaps_behind-nil_iff i (suc i) t tasks in
      let ih = overlaps_from-nil_iff (suc i) tasks in
      (λ e. let (a, b) = both.0 e in (now.0 a, ih.0 b), λ (a, b). both.1 (now.1 a, ih.1 b))

  -- There is no overlap exactly when every two owners have disjoint write sets.
  pub find_write_set_overlaps-nil_iff :
      (tasks : List WriteSetOwner)
      → (find_write_set_overlaps host tasks ≡ []) ↔ AllPairs IsDisjoint tasks
  unfolding find_write_set_overlaps
  find_write_set_overlaps-nil_iff tasks = overlaps_from-nil_iff 0 tasks

  abbrev pub HasFinePaths : WriteSetOwner → Type 0
  HasFinePaths t = All (λ p. write_set_path_error host p ≡ none) (paths_of t)

  first_path_error-none_iff :
      (i : ℕ) (ps : List Text)
      → (first_path_error host i ps ≡ none) ↔ All (λ p. write_set_path_error host p ≡ none) ps
  unfolding first_path_error
  first_path_error-none_iff i [] = (λ _. tt, λ _. refl)
  first_path_error-none_iff i (p ∷ ps) = elim (Option-cases (write_set_path_error host p)) [
    | inl e ↦
        let ih = first_path_error-none_iff i ps in
        rw (e, first_path_error) (λ h. (refl, ih.0 h), λ h. ih.1 h.1)
    | inr (x, e) ↦ rw (e, first_path_error) (λ h. cc, λ h. let no = h.0 in cc)
  ]

  first_error-none_iff :
      (i : ℕ) (tasks : List WriteSetOwner)
      → (first_error host i tasks ≡ none) ↔ All HasFinePaths tasks
  unfolding first_error
  first_error-none_iff i [] = (λ _. tt, λ _. refl)
  first_error-none_iff i (t ∷ tasks) =
      let now = first_path_error-none_iff i (paths_of t) in
      elim (Option-cases (first_path_error host i (paths_of t))) [
        | inl e ↦
            let ih = first_error-none_iff (suc i) tasks in
            rw (e, first_error) (λ h. (now.0 e, ih.0 h), λ h. ih.1 h.1)
        | inr (x, e) ↦
            rw (e, first_error) (λ h. cc, λ h. let no : some x ≡ none = sym e ∙ now.1 h.0 in cc)
      ]

  first_overlap-none_iff : (os : List WriteSetOverlap) → (first_overlap host os ≡ none) ↔ (os ≡ [])
  unfolding first_overlap
  first_overlap-none_iff [] = (λ _. refl, λ _. refl)
  first_overlap-none_iff (o ∷ os) = (λ e. cc, λ e. cc)

  -- Parallel tasks are let through exactly when the tests of the paths and of their overlaps pass.
  pub validate_parallel_write_sets_iff_tests :
      (tasks : List WriteSetOwner)
      → (validate_parallel_write_sets host tasks ≡ none)
        ↔ (All HasFinePaths tasks × AllPairs IsDisjoint tasks)
  unfolding validate_parallel_write_sets
  validate_parallel_write_sets_iff_tests tasks =
      let fine = first_error-none_iff 0 tasks in
      let apart = find_write_set_overlaps-nil_iff tasks in
      let first = first_overlap-none_iff (find_write_set_overlaps host tasks) in
      elim (Option-cases (first_error host 0 tasks)) [
        | inl e ↦
            rw (e, validate_parallel_write_sets)
              (λ h. (fine.0 e, apart.0 (first.0 h)), λ h. first.1 (apart.1 h.1))
        | inr (x, e) ↦
            rw (e, validate_parallel_write_sets)
              (λ h. cc, λ h. let no : some x ≡ none = sym e ∙ fine.1 h.0 in cc)
      ]
