-- ===== src/Core/Ownership/Relations.antt =====
-- When a path is behind another.
use mathlib.Core.List.{append_assoc}
use pi_persona.Base.{
  ℕ, ◌≡◌, ◌≢◌, ◌∙◌, ◌↔◌, ◌⊎◌, refl, sym, ap, subst, inl, inr, true, false, [], ◌∷◌, ◌++◌, arith,
  ◌==◌, ==_iff, Text, codes, text_eq, text_eq_iff, starts_with, Bool-cases, &&-eq-true,
}
use pi_persona.Core.Ownership.{is_ancestor, slash}

starts_with_iff : (p s : Text) → (starts_with p s ≡ true) ↔ ((rest : Text) × (s ≡ p ++ rest))
unfolding starts_with
starts_with_iff [] s = (λ _. (s, refl), λ _. refl)
starts_with_iff (x ∷ p) [] = (λ h. absurd (cc), λ (rest, e). absurd (cc))
starts_with_iff (x ∷ p) (y ∷ s) =
    let ih = starts_with_iff p s in
    (
      λ h.
          let (a, b) = &&-eq-true (x == y) (starts_with p s) h in
          let (rest, e) = ih.0 b in let same : x ≡ y = (==_iff x y).0 a in (rest, let k = e in cc),
      λ (rest, e).
          let a : x ≡ y = cc in
          let b : s ≡ p ++ rest = cc in rw ((==_iff x y).1 a, ih.1 (rest, b)) refl,
    )

-- The text does not start with a slash.
abbrev pub IsRelative : Text → Type 0
IsRelative [] = Unit
IsRelative (c ∷ s) = c ≢ 0x2f

-- The one path is behind the other: it goes on from it behind a slash, or the other is the root and it is
-- rooted, or the other is `.` and it is not.
abbrev pub IsBelow : Text → Text → Type 0
IsBelow child parent =
    ((rest : Text) × (child ≡ parent ++ (slash ++ rest)))
    ⊎ (((parent ≡ slash) × ((rest : Text) × (child ≡ slash ++ rest)))
        ⊎ ((parent ≡ codes ".") × IsRelative child))

rooted-IsRelative : (s : Text) → (starts_with slash s ≡ false) ↔ IsRelative s
unfolding starts_with
rooted-IsRelative [] = (λ _. tt, λ _. refl)
rooted-IsRelative (c ∷ s) = ground (arith)

rooted_more : (p rest : Text) → starts_with slash (slash ++ (p ++ rest)) ≡ true
unfolding starts_with
rooted_more p rest = refl

lead : Text → ℕ
lead [] = 0
lead (c ∷ s) = c

slash_not_dot : slash ≢ codes "."
unfolding lead
slash_not_dot e = let k : 0x2f ≡ 0x2e = ap lead e in omega (arith, k)

pub is_ancestor_iff :
    (parent child : Text) → (is_ancestor parent child ≡ true) ↔ IsBelow child parent
unfolding is_ancestor
is_ancestor_iff parent child =
    let rooted = starts_with_iff slash child in
    let behind = starts_with_iff (parent ++ slash) child in
    let relative = rooted-IsRelative child in
    elim (Bool-cases (text_eq parent slash)) [
      | inl root ↦
          let e : parent ≡ slash = (text_eq_iff parent slash).0 root in
          (
            λ h. inr (inl (e, rooted.0 (rw root at h))),
            λ q. rw root (
                rooted.1 (elim q [
                  | inl (rest, k) ↦ (slash ++ rest, k ∙ ap (λ p. p ++ (slash ++ rest)) e)
                  | inr other ↦ elim other [
                    | inl (_, more) ↦ more
                    | inr (here, _) ↦ absurd (slash_not_dot (sym e ∙ here))
                  ]
                ])),
          )
      | inr not_root ↦ elim (Bool-cases (text_eq parent (codes "."))) [
        | inl here ↦
            let e : parent ≡ codes "." = (text_eq_iff parent (codes ".")).0 here in
            (
              λ h.
                  let free : starts_with slash child ≡ false =
                    let k = rw (not_root, here) at h in ground (arith, k) in
                  inr (inr (e, relative.0 free)),
              λ q.
                  let free : starts_with slash child ≡ false = elim q [
                    | inl (rest, k) ↦
                        let f : child ≡ codes "." ++ (slash ++ rest) =
                          k ∙ ap (λ p. p ++ (slash ++ rest)) e in
                        relative.1 (subst IsRelative (sym f) (omega arith))
                    | inr other ↦ elim other [
                      | inl (root, _) ↦ absurd (slash_not_dot (sym root ∙ e))
                      | inr (_, k) ↦ relative.1 k
                    ]
                  ] in
                  rw (not_root, here, free) refl,
            )
        | inr plain ↦ (
          λ h.
              let (rest, e) = behind.0 (rw (not_root, plain) at h) in
              inl (rest, e ∙ append_assoc parent slash rest),
          λ q.
              let more : (rest : Text) × (child ≡ (parent ++ slash) ++ rest) = elim q [
                | inl (rest, e) ↦ (rest, e ∙ sym (append_assoc parent slash rest))
                | inr other ↦ elim other [
                  | inl (root, _) ↦ absurd (let t = (text_eq_iff parent slash).1 root in cc)
                  | inr (here, _) ↦ absurd (let t = (text_eq_iff parent (codes ".")).1 here in cc)
                ]
              ] in
              rw (not_root, plain) (behind.1 more),
        )
      ]
    ]

-- The two paths are the same, or the one is behind the other.
abbrev pub IsRelated : Text → Text → Type 0
IsRelated left right = (left ≡ right) ⊎ (IsBelow right left ⊎ IsBelow left right)
