-- ===== src/Core/Permissions/Resolution.antt =====
-- The answer of the resolver, whatever the cache of compiled patterns holds.
use pi_persona.Base.{
  ◌≤◌, ◌≡◌, refl, ◌↔◌, ◌⊎◌, inl, inr, Bool, true, false, Option, none, some, List, [], ◌∷◌, arith,
  Text, text_eq_iff, length, length-append, All, All-append, Bool-cases, Option-cases,
  if◌then◌else◌, leb,
}
use pi_persona.Core.Permissions.{
  Permission, RegExp, compile, test, Cache, glob_cache_max, cached, store, glob_to_reg_exp,
  matches_any, check_allow, resolve, is_allowed,
}
use pi_persona.Core.Permissions.Globs.{Matches, test-compile}

-- Each entry holds its own pattern's expression, and the cache stays within its bound.
pub record IsSound (cache : Cache) : Type 0 where
  pub genuine : All (λ e. e.1 ≡ compile e.0) cache
  pub bounded : length cache ≤ glob_cache_max

cached-genuine :
    (cache : Cache) (pattern : Text) (re : RegExp)
    → All (λ e. e.1 ≡ compile e.0) cache
    → cached cache pattern ≡ some re
    → re ≡ compile pattern
unfolding cached
cached-genuine [] pattern re h e = cc
cached-genuine ((k, r) ∷ cache) pattern re (g, h) e =
    ground (arith, cached-genuine cache pattern re h, text_eq_iff k pattern)

store-IsSound :
    (cache : Cache) (pattern : Text)
    → IsSound cache
    → IsSound (store cache pattern (compile pattern))
unfolding store
store-IsSound cache pattern h = elim (Bool-cases (leb glob_cache_max (length cache))) [
  | inl full ↦ rw full (record { genuine = (refl, tt); bounded = omega arith })
  | inr room ↦ rw room (record {
    genuine = All-append _ cache ((pattern, compile pattern) ∷ []) h.genuine (refl, tt);
    bounded = ground (arith, length-append cache ((pattern, compile pattern) ∷ []));
  })
]

-- The cache changes no answer.
glob_to_reg_exp_lem :
    (cache : Cache) (pattern : Text)
    → IsSound cache
    → ((glob_to_reg_exp cache pattern).0 ≡ compile pattern)
      × IsSound (glob_to_reg_exp cache pattern).1
unfolding glob_to_reg_exp
glob_to_reg_exp_lem cache pattern h = elim (Option-cases (cached cache pattern)) [
  | inl e ↦ rw (e, glob_to_reg_exp) (refl, store-IsSound cache pattern h)
  | inr (re, e) ↦ rw (e, glob_to_reg_exp) (cached-genuine cache pattern re h.genuine e, h)
]

-- Some pattern of the list matches the name.
abbrev pub MatchesAny : Text → List Text → Type 0
MatchesAny name [] = ⊥
MatchesAny name (p ∷ patterns) = Matches p name ⊎ MatchesAny name patterns

-- What a computed test says of a statement.
pub data Reflects (P : Type 0) : Bool → Type 0 where
  holds : P → Reflects P true
  fails : ¬ P → Reflects P false

Reflects-iff : {P : Type 0} {b : Bool} → Reflects P b → (b ≡ true) ↔ P
Reflects-iff (holds p) = (λ _. p, λ _. refl)
Reflects-iff (fails n) = (λ e. cc, λ p. absurd (n p))

Reflects-of_iff : {P : Type 0} (b : Bool) → ((b ≡ true) ↔ P) → Reflects P b
Reflects-of_iff true h = holds (h.0 refl)
Reflects-of_iff false h = fails (λ p. let e : false ≡ true = h.1 p in cc)

or-Reflects :
    {P Q : Type 0} {b c : Bool}
    → Reflects P b
    → Reflects Q c
    → Reflects (P ⊎ Q) (if b then true else c)
or-Reflects (holds p) r = holds (inl p)
or-Reflects (fails n) (holds q) = holds (inr q)
or-Reflects (fails n) (fails m) = fails (λ e. elim e [ inl p ↦ n p | inr q ↦ m q ])

test-Reflects :
    (re : RegExp) (pattern name : Text)
    → re ≡ compile pattern
    → Reflects (Matches pattern name) (test re name)
test-Reflects re pattern name e = rw e (Reflects-of_iff _ (test-compile pattern name))

module _ (name : Text) where
  -- The statement that `step` proves of one pattern, and the recursive call of the rest.
  matches_step :
      (p : Text) (patterns : List Text) (re : RegExp) (cache : Cache) (rest : Bool × Cache)
      → re ≡ compile p
      → IsSound cache
      → Reflects (MatchesAny name patterns) rest.0 × IsSound rest.1
      → Reflects (MatchesAny name (p ∷ patterns)) (if test re name then (true, cache) else rest).0
        × IsSound (if test re name then (true, cache) else rest).1
  matches_step p patterns re cache rest e h (r, k) = elim (Bool-cases (test re name)) [
    | inl t ↦ rw t (or-Reflects (rw t at (test-Reflects re p name e)) r, h)
    | inr t ↦ rw t (or-Reflects (rw t at (test-Reflects re p name e)) r, k)
  ]

  matches_any_lem :
      (cache : Cache) (patterns : List Text)
      → IsSound cache
      → Reflects (MatchesAny name patterns) (matches_any cache name patterns).0
        × IsSound (matches_any cache name patterns).1
  unfolding matches_any
  matches_any_lem cache [] h = (fails (λ e. e), h)
  matches_any_lem cache (p ∷ patterns) h =
      let (e, k) = glob_to_reg_exp_lem cache p h in
      matches_step p patterns _ _ _ e k (matches_any_lem (glob_to_reg_exp cache p).1 patterns k)

  -- Some pattern of the deny list matches.
  abbrev pub IsDenied : Option (List Text) → Type 0
  IsDenied none = ⊥
  IsDenied (some deny) = MatchesAny name deny

  -- The rule of a block for a name that no deny pattern matches.
  abbrev pub IsListed : Option (List Text) → Option (List Text) → Bool → Type 0
  IsListed (some allow) deny default_allow = MatchesAny name allow
  IsListed none (some deny) default_allow = Unit
  IsListed none none default_allow = default_allow ≡ true

  abbrev pub IsPermitted : Option Permission → Bool → Type 0
  IsPermitted none default_allow = default_allow ≡ true
  IsPermitted (some perm) default_allow =
      (¬ IsDenied perm.deny) × IsListed perm.allow perm.deny default_allow

  check_allow_lem :
      (cache : Cache) (allow : Option (List Text)) (b : Bool)
      → IsSound cache
      → ((check_allow cache name allow b).0 ≡ true ↔ IsListed allow none b)
        × IsSound (check_allow cache name allow b).1
  unfolding check_allow
  check_allow_lem cache (some allow) b h =
      let (r, k) = matches_any_lem cache allow h in (Reflects-iff r, k)
  check_allow_lem cache none b h = ((λ p. p, λ p. p), h)

  -- A deny list that does not match leaves the allow list to decide, or lets all pass.
  IsListed-deny :
      (allow : Option (List Text)) (deny : List Text) (b : Bool)
      → IsListed allow none true ↔ IsListed allow (some deny) b
  IsListed-deny none deny b = (λ _. tt, λ _. refl)
  IsListed-deny (some allow) deny b = (λ p. p, λ p. p)

  after_deny :
      (allow : Option (List Text)) (deny : List Text) (b : Bool) (denied checked : Bool × Cache)
      → Reflects (MatchesAny name deny) denied.0 × IsSound denied.1
      → (checked.0 ≡ true ↔ IsListed allow none true) × IsSound checked.1
      → ((if denied.0 then (false, denied.1) else checked).0 ≡ true
          ↔ IsPermitted (some (record { allow = allow; deny = some deny })) b)
        × IsSound (if denied.0 then (false, denied.1) else checked).1
  after_deny allow deny b (true, c) checked (holds m, k) h = ((λ e. cc, λ q. absurd (q.0 m)), k)
  after_deny allow deny b (false, c) checked (fails n, k) (e, l) = (
    (
      λ t. (n, (IsListed-deny allow deny b).0 (e.0 t)),
      λ q. e.1 ((IsListed-deny allow deny b).1 q.1),
    ),
    l,
  )

  resolve_lem :
      (cache : Cache) (allow deny : Option (List Text)) (b : Bool)
      → IsSound cache
      → ((resolve cache name allow deny b).0 ≡ true
          ↔ IsPermitted (some (record { allow = allow; deny = deny })) b)
        × IsSound (resolve cache name allow deny b).1
  unfolding resolve
  resolve_lem cache allow none b h =
      let (e, k) = check_allow_lem cache allow b h in ((λ t. (λ q. q, e.0 t), λ q. e.1 q.1), k)
  resolve_lem cache allow (some deny) b h =
      let denied = matches_any_lem cache deny h in
      after_deny allow deny b _ _ denied (check_allow_lem _ allow true denied.1)

  -- From a sound cache the resolver answers, for every name, by what the regular expressions of the
  -- patterns match: no deny pattern matches, and an allow pattern does, or there is no allow list and either a deny list is present or the default is to
  -- allow. The cache stays sound and within its bound.
  pub is_allowed_lem :
      (cache : Cache) (perm : Option Permission) (default_allow : Bool)
      → IsSound cache
      → ((is_allowed cache name perm default_allow).0 ≡ true ↔ IsPermitted perm default_allow)
        × IsSound (is_allowed cache name perm default_allow).1
  unfolding is_allowed
  is_allowed_lem cache none b h = unfold resolve check_allow in ((λ p. p, λ p. p), h)
  is_allowed_lem cache (some perm) b h = resolve_lem cache perm.allow perm.deny b h
