-- ===== src/Core/Permissions/Documented.antt =====
-- The rules of the comments of core/permissions.ts, where `*` stands for any run and `?` for any one unit,
-- and where the resolver departs from them: in names with a line terminator.
use pi_persona.Base.{
  ℕ, ◌≡◌, ◌≢◌, ◌↔◌, ◌⊎◌, refl, inl, inr, Bool, true, false, Option, none, some, List, [], ◌∷◌,
  arith, any, Text, codes, All, Bool-cases,
}
use pi_persona.Core.Permissions.{
  Permission, any_run, compile, part_of, is_line_end, test, Cache, is_allowed,
}
use pi_persona.Core.Permissions.Globs.{
  IsInLine, Matches, done, run_end, run_on, one, itself, test-compile,
}
use pi_persona.Core.Permissions.Resolution.{
  IsSound, MatchesAny, IsDenied, IsListed, IsPermitted, is_allowed_lem,
}

-- `*` stands for any run of units, `?` for exactly one, any other unit for itself.
pub data IsGlobOf : Text → Text → Type 0 where
  at_end : IsGlobOf [] []
  star_ends : {a : ℕ} {p s : Text} → a ≡ b'*' → IsGlobOf p s → IsGlobOf (a ∷ p) s
  star_takes : {a c : ℕ} {p s : Text} → a ≡ b'*' → IsGlobOf (a ∷ p) s → IsGlobOf (a ∷ p) (c ∷ s)
  mark_takes : {a c : ℕ} {p s : Text} → a ≡ b'?' → IsGlobOf p s → IsGlobOf (a ∷ p) (c ∷ s)
  unit_takes :
      {a c : ℕ} {p s : Text} → a ≢ b'*' → a ≢ b'?' → a ≡ c → IsGlobOf p s → IsGlobOf (a ∷ p) (c ∷ s)

Matches-IsGlobOf : {p s : Text} → Matches p s → IsGlobOf p s
Matches-IsGlobOf done = at_end
Matches-IsGlobOf (run_end e m) = star_ends e (Matches-IsGlobOf m)
Matches-IsGlobOf (run_on e l m) = star_takes e (Matches-IsGlobOf m)
Matches-IsGlobOf (one e l m) = mark_takes e (Matches-IsGlobOf m)
Matches-IsGlobOf (itself n k e m) = unit_takes n k e (Matches-IsGlobOf m)

IsGlobOf-Matches : {p s : Text} → IsGlobOf p s → All IsInLine s → Matches p s
IsGlobOf-Matches at_end h = done
IsGlobOf-Matches (star_ends e m) h = run_end e (IsGlobOf-Matches m h)
IsGlobOf-Matches (star_takes e m) (l, h) = run_on e l (IsGlobOf-Matches m h)
IsGlobOf-Matches (mark_takes e m) (l, h) = one e l (IsGlobOf-Matches m h)
IsGlobOf-Matches (unit_takes n k e m) (l, h) = itself n k e (IsGlobOf-Matches m h)

-- Some pattern of the list is one of the name.
abbrev pub HasGlobIn : Text → List Text → Type 0
HasGlobIn name [] = ⊥
HasGlobIn name (p ∷ patterns) = IsGlobOf p name ⊎ HasGlobIn name patterns

abbrev pub IsRefused : Text → Option (List Text) → Type 0
IsRefused name none = ⊥
IsRefused name (some deny) = HasGlobIn name deny

abbrev pub IsAdmitted : Text → Option (List Text) → Option (List Text) → Bool → Type 0
IsAdmitted name (some allow) deny default_allow = HasGlobIn name allow
IsAdmitted name none (some deny) default_allow = Unit
IsAdmitted name none none default_allow = default_allow ≡ true

-- Deny wins; then the allow list decides, if there is one; then all pass if there is a deny list; then the
-- default decides.
abbrev pub IsGranted : Text → Option Permission → Bool → Type 0
IsGranted name none default_allow = default_allow ≡ true
IsGranted name (some perm) default_allow =
    (¬ IsRefused name perm.deny) × IsAdmitted name perm.allow perm.deny default_allow

module _ (name : Text) (in_line : All IsInLine name) where
  MatchesAny-HasGlobIn : (patterns : List Text) → MatchesAny name patterns ↔ HasGlobIn name patterns
  MatchesAny-HasGlobIn [] = (λ h. h, λ h. h)
  MatchesAny-HasGlobIn (p ∷ patterns) =
      let ih = MatchesAny-HasGlobIn patterns in
      (
        λ h. elim h [ inl m ↦ inl (Matches-IsGlobOf m) | inr k ↦ inr (ih.0 k) ],
        λ h. elim h [ inl m ↦ inl (IsGlobOf-Matches m in_line) | inr k ↦ inr (ih.1 k) ],
      )

  IsDenied-IsRefused : (deny : Option (List Text)) → IsDenied name deny ↔ IsRefused name deny
  IsDenied-IsRefused none = (λ h. h, λ h. h)
  IsDenied-IsRefused (some deny) = MatchesAny-HasGlobIn deny

  IsListed-IsAdmitted :
      (allow deny : Option (List Text)) (b : Bool)
      → IsListed name allow deny b ↔ IsAdmitted name allow deny b
  IsListed-IsAdmitted (some allow) deny b = MatchesAny-HasGlobIn allow
  IsListed-IsAdmitted none (some deny) b = (λ h. h, λ h. h)
  IsListed-IsAdmitted none none b = (λ h. h, λ h. h)

  IsPermitted-IsGranted :
      (perm : Option Permission) (b : Bool) → IsPermitted name perm b ↔ IsGranted name perm b
  IsPermitted-IsGranted none b = (λ h. h, λ h. h)
  IsPermitted-IsGranted (some perm) b =
      let d = IsDenied-IsRefused perm.deny in
      let l = IsListed-IsAdmitted perm.allow perm.deny b in
      (λ h. (λ r. h.0 (d.1 r), l.0 h.1), λ h. (λ r. h.0 (d.0 r), l.1 h.1))

  -- For a name without a line terminator (LF, CR, U+2028 or U+2029), and from a sound cache, the resolver
  -- answers as its comments say: no deny pattern fits the name, and an allow pattern does, or there is
  -- no allow list and either a deny list is present or the default is to allow; `*` fits any run of
  -- units and `?` exactly one. The cache stays sound and within its bound.
  pub is_allowed-IsGranted :
      (cache : Cache) (perm : Option Permission) (default_allow : Bool)
      → IsSound cache
      → ((is_allowed cache name perm default_allow).0 ≡ true ↔ IsGranted name perm default_allow)
        × IsSound (is_allowed cache name perm default_allow).1
  is_allowed-IsGranted cache perm b h =
      let (e, k) = is_allowed_lem name cache perm b h in
      let g = IsPermitted-IsGranted perm b in ((λ t. g.0 (e.0 t), λ t. e.1 (g.1 t)), k)

star-in_line : (s : Text) → test (any_run ∷ []) s ≡ true → any is_line_end s ≡ false
unfolding test
star-in_line [] h = refl
star-in_line (c ∷ s) h = ground (arith, star-in_line s)

star-unmatched : (name : Text) → any is_line_end name ≡ true → ¬ Matches (codes "*") name
unfolding compile part_of
star-unmatched name h m =
    let passes = (test-compile (codes "*") name).1 m in let no = star-in_line name passes in cc

-- A name with a line terminator is refused by the allow list `["*"]`, and let through by the deny list
-- `["*"]`, whatever the default.
pub is_allowed-line_end :
    (cache : Cache) (name : Text) (default_allow : Bool)
    → IsSound cache
    → any is_line_end name ≡ true
    → ((is_allowed cache name
          (some (record { allow = some (codes "*" ∷ []); deny = none }))
          default_allow).0
        ≡ false)
      × ((is_allowed cache name
            (some (record { allow = none; deny = some (codes "*" ∷ []) }))
            default_allow).0
          ≡ true)
is_allowed-line_end cache name b h line =
    let nowhere = star-unmatched name line in
    let all_in : Option Permission = some (record { allow = some (codes "*" ∷ []); deny = none }) in
    let all_out : Option Permission =
      some (record { allow = none; deny = some (codes "*" ∷ []) }) in
    let unlisted : ¬ MatchesAny name (codes "*" ∷ []) =
      λ k. elim k [ inl m ↦ nowhere m | inr n ↦ n ] in
    (
      elim (Bool-cases (is_allowed cache name all_in b).0) [
        | inl passes ↦ absurd (unlisted (((is_allowed_lem name cache all_in b h).0.0 passes).1))
        | inr fails ↦ fails
      ],
      (is_allowed_lem name cache all_out b h).0.1 (unlisted, tt),
    )
