-- ===== src/Core/Ownership/Meaning.antt =====
-- What it means that two paths meet, and what the check of parallel tasks says.
use pi_persona.Base.{
  All-mono, AllPairs-mono, ◌≡◌, ◌≢◌, ◌↔◌, ◌⊎◌, refl, inl, inr, subst, Bool, true, false, not, ◌&&◌,
  ◌||◌, none, List, [], arith, Text, text_eq, text_eq_iff, trim, All, AllPairs, Bool-cases,
}
use pi_persona.Core.Ownership.{
  PathModule, WriteSetOwner, NormalizedWritePath, normalize_write_path, paths_overlap, is_ancestor,
  is_blank, collide, validate_parallel_write_sets,
}
use pi_persona.Core.Ownership.Overlaps.{
  paths_of, folded, IsDisjoint, validate_parallel_write_sets_iff_tests,
}
use pi_persona.Core.Ownership.Relations.{IsRelated, is_ancestor_iff}
use pi_persona.Core.Ownership.Forms.{
  IsFormOf, normalize_write_path-IsFormOf, normalize_write_path_unique,
}
use pi_persona.Core.Ownership.Inside.{IsInside, is_empty-nil, write_set_path_error-none_iff}

module _ (host : PathModule) where
  -- One normal form is the other or behind it; if one of them is of Windows, in lower case.
  abbrev AreRelated : NormalizedWritePath → NormalizedWritePath → Type 0
  AreRelated a b =
      IsRelated (folded host (a.windows || b.windows) a) (folded host (a.windows || b.windows) b)

  -- Two paths that are not blank meet where their normal forms are related; if one of them is a path of
  -- Windows, the case of letters does not matter.
  abbrev pub Meets : Text → Text → Type 0
  Meets p q =
      (trim p ≢ [])
      × (trim q ≢ [])
      × ((a : NormalizedWritePath) × (b : NormalizedWritePath) × IsFormOf host p a
          × IsFormOf host q b
          × AreRelated a b)

  or_three :
      (a b c : Bool) (A B C : Type 0)
      → (a ≡ true) ↔ A
      → (b ≡ true) ↔ B
      → (c ≡ true) ↔ C
      → ((a || b || c) ≡ true) ↔ (A ⊎ (B ⊎ C))
  or_three true b c A B C f g h = (λ e. inl (f.0 refl), λ q. refl)
  or_three false true c A B C f g h = (λ e. inr (inl (g.0 refl)), λ q. refl)
  or_three false false c A B C f g h = (
    λ e. inr (inr (h.0 e)),
    λ q. elim q [
      | inl x ↦ absurd (let k = f.1 x in cc)
      | inr r ↦ elim r [ inl y ↦ absurd (let k = g.1 y in cc) | inr z ↦ h.1 z ]
    ],
  )

  unless_blank :
      (b c r : Bool) → ((not b && not c && r) ≡ true) ↔ ((b ≡ false) × (c ≡ false) × (r ≡ true))
  unless_blank b c r = ground arith

  collide-true_iff : (p q : Text) → (collide host p q ≡ true) ↔ Meets p q
  unfolding collide paths_overlap
  collide-true_iff p q =
      let a = normalize_write_path host p in
      let b = normalize_write_path host q in
      let left = folded host (a.windows || b.windows) a in
      let right = folded host (a.windows || b.windows) b in
      let related =
        or_three (text_eq left right) (is_ancestor left right) (is_ancestor right left) _ _ _
          (text_eq_iff left right) (is_ancestor_iff left right) (is_ancestor_iff right left) in
      let first = is_empty-nil (trim p) in
      let second = is_empty-nil (trim q) in
      let tests =
        unless_blank (is_blank p) (is_blank q)
          (text_eq left right || is_ancestor left right || is_ancestor right left) in
      (
        λ h.
            let (x, y, z) = tests.0 h in
            (
              first.0 x,
              second.0 y,
              (
                a,
                b,
                normalize_write_path-IsFormOf host p,
                normalize_write_path-IsFormOf host q,
                related.0 z,
              ),
            ),
        λ (x, y, (c, d, is_c, is_d, z)).
            let moved : AreRelated a d =
              subst (λ n. AreRelated n d) (normalize_write_path_unique host p c is_c) z in
            let z' =
              subst (λ n. AreRelated a n) (normalize_write_path_unique host q d is_d) moved in
            tests.1 (first.1 x, second.1 y, related.1 z'),
      )

  collide-false_iff : (p q : Text) → (collide host p q ≡ false) ↔ (¬ Meets p q)
  collide-false_iff p q =
      let e = collide-true_iff p q in
      (
        λ h m. let k = e.1 m in cc,
        λ n. elim (Bool-cases (collide host p q)) [
          | inl meets ↦ absurd (n (e.0 meets))
          | inr apart ↦ apart
        ],
      )

  abbrev pub AreApart : WriteSetOwner → WriteSetOwner → Type 0
  AreApart a b = All (λ p. All (λ q. ¬ Meets p q) (paths_of b)) (paths_of a)

  abbrev pub LieInside : WriteSetOwner → Type 0
  LieInside t = All (IsInside host) (paths_of t)

  IsDisjoint-AreApart : (a b : WriteSetOwner) → IsDisjoint host a b ↔ AreApart a b
  IsDisjoint-AreApart a b = (
    All-mono (λ p. All-mono (λ q. (collide-false_iff p q).0) (paths_of b)) (paths_of a),
    All-mono (λ p. All-mono (λ q. (collide-false_iff p q).1) (paths_of b)) (paths_of a),
  )

  -- Parallel tasks are let through exactly when each path of theirs is not blank, is not absolute on either
  -- system and does not leave the directory, and no path of a task meets one of another task: in their
  -- normal forms, in lower case if one of the two is a path of Windows, they are neither the same nor
  -- one behind the other.
  pub validate_parallel_write_sets-none_iff :
      (tasks : List WriteSetOwner)
      → (validate_parallel_write_sets host tasks ≡ none)
        ↔ (All LieInside tasks × AllPairs AreApart tasks)
  validate_parallel_write_sets-none_iff tasks =
      let tests = validate_parallel_write_sets_iff_tests host tasks in
      (
        λ h.
            let (fine, apart) = tests.0 h in
            (
              All-mono (λ t. All-mono (λ p. (write_set_path_error-none_iff host p).0) (paths_of t))
                  tasks fine,
              AllPairs-mono (λ a b. (IsDisjoint-AreApart a b).0) tasks apart,
            ),
        λ (fine, apart). tests.1 (
          All-mono (λ t. All-mono (λ p. (write_set_path_error-none_iff host p).1) (paths_of t))
              tasks fine,
          AllPairs-mono (λ a b. (IsDisjoint-AreApart a b).1) tasks apart,
        ),
      )
