-- ===== src/Core/Capabilities/Callable.antt =====
-- Which tools a persona may call, by its rules.
use pi_persona.Base.{
  ◌≡◌, ◌↔◌, ◌⊎◌, refl, inl, inr, true, false, Option, none, some, List, arith, Bool-cases,
  &&-eq-true, Text, includes,
}
use pi_persona.Core.Permissions.{Permission}
use pi_persona.Core.Permissions.Resolution.{IsDenied, IsPermitted}
use pi_persona.Core.Capabilities.{
  Resolver, EffectiveCapabilities, exocom_tool_names, deny_only, denied_by, explicitly_denied,
  can_call_tool,
}
use pi_persona.Core.Capabilities.Grants.{IsDeniedBy, explicitly_denied-true}

-- A tool of the bus, for a persona that has the bus and does not deny the tool; or another tool, that
-- the persona's rules permit by name or that it held when it was activated.
abbrev pub IsCallable : EffectiveCapabilities → Text → Type 0
IsCallable caps name =
    ((includes exocom_tool_names name ≡ true)
      × (caps.can_use_bus ≡ true)
      × (¬ IsDeniedBy name caps.tools_perm))
    ⊎ ((includes exocom_tool_names name ≡ false)
        × (IsPermitted name caps.tools_perm true ⊎ (includes caps.tools name ≡ true)))

module _ (r : Resolver) where
  explicitly_denied-false_iff :
      (name : Text) (perm : Option Permission)
      → (explicitly_denied r name perm ≡ false) ↔ (¬ IsDeniedBy name perm)
  unfolding explicitly_denied denied_by deny_only
  explicitly_denied-false_iff name none = (λ h d. d, λ n. refl)
  explicitly_denied-false_iff name (some perm) = (
    λ h d. let k = (explicitly_denied-true r name (some perm) d).0 in cc,
    λ n. undenied perm.deny n,
  )
    where
      undenied : (deny : Option (List Text)) → ¬ IsDenied name deny → denied_by r name deny ≡ false
      undenied none n = refl
      undenied (some deny) n =
          let passes = (r.law name (some (deny_only deny)) true).1 (n, tt) in rw passes refl

  pub can_call_tool_iff :
      (caps : EffectiveCapabilities) (name : Text)
      → (can_call_tool r caps name ≡ true) ↔ IsCallable caps name
  unfolding can_call_tool
  can_call_tool_iff caps name =
      let free = explicitly_denied-false_iff name caps.tools_perm in
      let law = r.law name caps.tools_perm true in
      elim (Bool-cases (includes exocom_tool_names name)) [
        | inl bus ↦ (
          λ h.
              let (on, undenied) = &&-eq-true _ _ (rw bus at h) in
              inl (bus, on, free.0 (ground (arith, undenied))),
          λ q. elim q [
            | inl (_, on, n) ↦ let k = free.1 n in rw (bus, on, k) refl
            | inr (plain, _) ↦ absurd (cc)
          ],
        )
        | inr plain ↦ elim (Bool-cases (r.allows name caps.tools_perm true)) [
          | inl passes ↦ (λ h. inr (plain, inl (law.0 passes)), λ q. rw (plain, passes) refl)
          | inr fails ↦ (
            λ h. inr (plain, inr (rw (plain, fails) at h)),
            λ q. elim q [
              | inl (bus, _, _) ↦ absurd (cc)
              | inr (_, way) ↦ elim way [
                | inl permitted ↦ absurd (let k = law.1 permitted in cc)
                | inr held ↦ rw (plain, fails) held
              ]
            ],
          )
        ]
      ]
