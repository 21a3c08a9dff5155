-- ===== src/Core/Ownership/Inside.antt =====
-- What it means that a path lies within the repository.
use pi_persona.Base.{
  ◌≡◌, ◌≢◌, ◌∙◌, ◌↔◌, ◌⊎◌, refl, sym, ap, subst, inl, inr, Bool, true, false, ◌||◌, Option, none,
  some, [], ◌∷◌, ◌++◌, arith, ◌==◌, ==_iff, if◌then◌else◌, Text, codes, text_eq, text_eq_iff,
  starts_with, trim, is_empty, All, Bool-cases,
}
use pi_persona.Core.Ownership.{
  PathModule, PathError, empty, outside, is_blank, slash, forward_slashes, write_set_path_error,
}

-- A copy of a text with slashes for backslashes.
abbrev pub IsSlashed : Text → Text → Type 0
IsSlashed [] [] = Unit
IsSlashed [] (d ∷ t) = ⊥
IsSlashed (c ∷ s) [] = ⊥
IsSlashed (c ∷ s) (d ∷ t) = (((c ≡ 0x5c) × (d ≡ 0x2f)) ⊎ ((c ≢ 0x5c) × (d ≡ c))) × IsSlashed s t

pub forward_slashes-IsSlashed : (s : Text) → IsSlashed s (forward_slashes s)
unfolding forward_slashes
forward_slashes-IsSlashed [] = tt
forward_slashes-IsSlashed (c ∷ s) = elim (Bool-cases (c == 0x5c)) [
  | inl back ↦ rw back (inl ((==_iff c 0x5c).0 back, refl), forward_slashes-IsSlashed s)
  | inr other ↦ rw other (inr (λ e. ground (arith, e, other), refl), forward_slashes-IsSlashed s)
]

pub forward_slashes_unique : (s t : Text) → IsSlashed s t → t ≡ forward_slashes s
unfolding forward_slashes
forward_slashes_unique [] [] h = refl
forward_slashes_unique [] (d ∷ t) h = absurd h
forward_slashes_unique (c ∷ s) [] h = absurd h
forward_slashes_unique (c ∷ s) (d ∷ t) (h, hs) =
    let ih = forward_slashes_unique s t hs in
    elim h [
      | inl (e, f) ↦ rw ((==_iff c 0x5c).1 e, f, ih) refl
      | inr (n, f) ↦ let other : (c == 0x5c) ≡ false = ground (arith, n) in rw (other, f, ih) refl
    ]

-- What comes before the first slash.
pub first_segment : Text → Text
first_segment [] = []
first_segment (c ∷ s) = let rest = first_segment s in if c == 0x2f then [] else c ∷ rest

-- The path is not blank, is not absolute on either system, and does not leave the directory: the first
-- segment of its normal form is not `..`.
abbrev pub IsInside : PathModule → Text → Type 0
IsInside host path =
    (slashed : Text) × IsSlashed (trim path) slashed
    × (trim path ≢ [])
    × (host.posix_is_absolute slashed ≡ false)
    × (host.win32_is_absolute (trim path) ≡ false)
    × (first_segment (host.posix_normalize slashed) ≢ codes "..")

first_segment_lem :
    (p s : Text)
    → All (λ c. c ≢ 0x2f) p
    → (text_eq s p || starts_with (p ++ slash) s) ≡ text_eq (first_segment s) p
unfolding first_segment text_eq starts_with
first_segment_lem [] [] h = refl
first_segment_lem [] (c ∷ s) h = ground arith
first_segment_lem (x ∷ p) [] h = refl
first_segment_lem (x ∷ p) (c ∷ s) (n, h) = ground (arith, n, first_segment_lem p s h)

-- The test of the source for a path that leaves the directory.
leaves_lem :
    (s : Text)
    → (text_eq s (codes "..") || starts_with (codes "../") s)
      ≡ text_eq (first_segment s) (codes "..")
leaves_lem s = first_segment_lem (codes "..") s (λ e. omega (arith, e), (λ e. omega (arith, e), tt))

pub is_empty-nil : (s : Text) → (is_empty s ≡ false) ↔ (s ≢ [])
is_empty-nil [] = (λ h. absurd (cc), λ n. absurd (n refl))
is_empty-nil (c ∷ s) = (λ _ e. cc, λ _. refl)

abbrev path_error : Bool → Bool → Bool → Bool → Bool → Option PathError
path_error blank posix win32 dots more =
    if blank then some empty else if posix || win32 || dots || more then some outside else none

path_error-none_iff :
    (blank posix win32 dots more : Bool)
    → (path_error blank posix win32 dots more ≡ none)
      ↔ ((blank ≡ false) × (posix ≡ false) × (win32 ≡ false) × ((dots || more) ≡ false))
path_error-none_iff true posix win32 dots more = (λ h. absurd (cc), λ q. absurd (let k = q.0 in cc))
path_error-none_iff false true win32 dots more = (λ h. absurd (cc), λ q. absurd (let k = q.1 in cc))
path_error-none_iff false false true dots more = (λ h. absurd (cc), λ q. absurd (let k = q.2 in cc))
path_error-none_iff false false false true more =
    (λ h. absurd (cc), λ q. absurd (let k = q.3 in cc))
path_error-none_iff false false false false true =
    (λ h. absurd (cc), λ q. absurd (let k = q.3 in cc))
path_error-none_iff false false false false false = (λ h. (refl, refl, refl, refl), λ q. refl)

module _ (host : PathModule) where
  pub write_set_path_error-none_iff :
      (path : Text) → (write_set_path_error host path ≡ none) ↔ IsInside host path
  unfolding write_set_path_error forward_slashes
  write_set_path_error-none_iff path =
      let raw = trim path in
      let s = forward_slashes raw in
      let normal = host.posix_normalize s in
      let blank = is_empty-nil raw in
      let out = leaves_lem normal in
      let dots = text_eq_iff (first_segment normal) (codes "..") in
      let tests =
        path_error-none_iff (is_blank path) (host.posix_is_absolute s) (host.win32_is_absolute raw)
          (text_eq normal (codes "..")) (starts_with (codes "../") normal) in
      (
        λ h.
            let (a, b, c, d) = tests.0 h in
            (
              s,
              forward_slashes-IsSlashed raw,
              blank.0 a,
              b,
              c,
              λ e. let t = dots.1 e in let u = sym out ∙ d in absurd (cc),
            ),
        λ (t, slashed, filled, posix, win32, stays).
            let e : t ≡ s = forward_slashes_unique raw t slashed in
            tests.1 (
              blank.1 filled,
              subst (λ x. host.posix_is_absolute x ≡ false) e posix,
              win32,
              out ∙ elim (Bool-cases (text_eq (first_segment normal) (codes ".."))) [
                | inl up ↦
                    absurd (stays (ap (λ x. first_segment (host.posix_normalize x)) e ∙ dots.0 up))
                | inr fine ↦ fine
              ],
            ),
      )
