-- ===== src/Core/Capabilities/Grants.antt =====
-- What the resolved capabilities of a persona grant.
use pi_persona.Base.{
  ◌≡◌, ◌↔◌, ◌⊎◌, sym, refl, inl, inr, subst, Bool, true, false, not, ◌&&◌, Option, none, some, List,
  [], ◌∷◌, ◌++◌, arith, or_else, filter, Bool-cases, &&-eq-true, Text, text_eq, text_eq_iff,
  includes,
}
use pi_persona.Core.Permissions.{Permission, Cache, is_allowed}
use pi_persona.Core.Permissions.Resolution.{IsSound, IsPermitted, IsDenied, is_allowed_lem}
use pi_persona.Core.Capabilities.{
  Resolver, CapabilityInputs, default_delegate_tool, exocom_tool_names, add_name, deny_only,
  denied_by, explicitly_denied, held_tools, resolve_capabilities, can_call_tool, can_delegate_to,
}

-- The resolver of core/permissions.ts with any sound cache.
pub cached_resolver : (cache : Cache) → IsSound cache → Resolver
cached_resolver cache h = record {
  allows = λ name perm b. (is_allowed cache name perm b).0;
  law = λ name perm b. (is_allowed_lem name cache perm b h).0;
}

-- Some deny pattern of the block matches the name.
abbrev pub IsDeniedBy : Text → Option Permission → Type 0
IsDeniedBy name none = ⊥
IsDeniedBy name (some perm) = IsDenied name perm.deny

includes-filter_at :
    (p : Text → Bool) (xs : List Text) (a : Text)
    → includes (filter p xs) a ≡ true
    → (p a ≡ true) × (includes xs a ≡ true)
includes-filter_at p [] a h = ground arith
includes-filter_at p (x ∷ xs) a h = elim (Bool-cases (text_eq x a)) [
  | inl same ↦ elim (Bool-cases (p x)) [
    | inl passes ↦ (subst (λ y. p y ≡ true) ((text_eq_iff x a).0 same) passes, rw same refl)
    | inr fails ↦ let k = includes-filter_at p xs a (rw fails at h) in (k.0, rw same refl)
  ]
  | inr other ↦
      let k = includes-filter_at p xs a (elim (Bool-cases (p x)) [
        | inl passes ↦ rw (passes, other) at h
        | inr fails ↦ rw fails at h
      ]) in
      (k.0, rw other (k.1))
]

filter-includes_at :
    (p : Text → Bool) (xs : List Text) (a : Text)
    → p a ≡ true
    → includes xs a ≡ true
    → includes (filter p xs) a ≡ true
filter-includes_at p [] a q h = ground arith
filter-includes_at p (x ∷ xs) a q h = elim (Bool-cases (text_eq x a)) [
  | inl same ↦
      let k : p x ≡ true = subst (λ y. p y ≡ true) (sym ((text_eq_iff x a).0 same)) q in
      rw (k, same) refl
  | inr other ↦
      let k = filter-includes_at p xs a q (rw other at h) in
      elim (Bool-cases (p x)) [ inl passes ↦ rw (passes, other) k | inr fails ↦ rw fails k ]
]

includes-append_one :
    (xs : List Text) (b a : Text)
    → includes (xs ++ (b ∷ [])) a ≡ true
    → (includes xs a ≡ true) ⊎ (b ≡ a)
includes-append_one [] b a h = ground (arith, text_eq_iff b a)
includes-append_one (x ∷ xs) b a h = ground (arith, includes-append_one xs b a)

module _ (r : Resolver) where
  denied_by-true :
      (name : Text) (deny : Option (List Text)) → IsDenied name deny → denied_by r name deny ≡ true
  unfolding denied_by deny_only
  denied_by-true name none h = absurd h
  denied_by-true name (some deny) h =
      elim (Bool-cases (r.allows name (some (deny_only deny)) true)) [
        | inl passes ↦ absurd (((r.law name (some (deny_only deny)) true).0 passes).0 h)
        | inr fails ↦ rw fails refl
      ]

  -- A name that a deny pattern matches is denied in so many words, and does not pass.
  pub explicitly_denied-true :
      (name : Text) (perm : Option Permission)
      → IsDeniedBy name perm
      → (explicitly_denied r name perm ≡ true) × ((b : Bool) → r.allows name perm b ≡ false)
  unfolding explicitly_denied
  explicitly_denied-true name none h = absurd h
  explicitly_denied-true name (some perm) h = (
    denied_by-true name perm.deny h,
    λ b. elim (Bool-cases (r.allows name (some perm) b)) [
      | inl passes ↦ absurd (((r.law name (some perm) b).0 passes).0 h)
      | inr fails ↦ fails
    ],
  )

  -- A name that passes the filter of the activation is not denied.
  filtered-not_denied :
      (input : CapabilityInputs) (name : Text)
      → includes (filter (λ n. r.allows n input.tools true) input.all_tool_names) name ≡ true
      → ¬ IsDeniedBy name input.tools
  filtered-not_denied input name h d =
      let k = includes-filter_at (λ n. r.allows n input.tools true) input.all_tool_names name h in
      let refused = (explicitly_denied-true name input.tools d).1 true in
      absurd (let a : r.allows name input.tools true ≡ true = k.0 in cc)

  held_tools-not_denied :
      (input : CapabilityInputs) (tool name : Text)
      → includes (held_tools r input tool) name ≡ true
      → ¬ IsDeniedBy name input.tools
  unfolding held_tools add_name
  held_tools-not_denied input tool name h d =
      let tools = filter (λ n. r.allows n input.tools true) input.all_tool_names in
      elim (Bool-cases
        (includes input.all_tool_names tool && not (explicitly_denied r tool input.tools))) [
          | inr without ↦ filtered-not_denied input name (rw without at h) d
          | inl kept ↦ elim (Bool-cases (includes tools tool)) [
            | inl there ↦ filtered-not_denied input name (rw (kept, there) at h) d
            | inr new ↦ elim (includes-append_one tools tool name (rw (kept, new) at h)) [
              | inl old ↦ filtered-not_denied input name old d
              | inr same ↦
                  let e =
                    (explicitly_denied-true tool input.tools
                      (subst (λ n. IsDeniedBy n input.tools) (sym same) d)).0 in
                  absurd (
                    let f : not (explicitly_denied r tool input.tools) ≡ true =
                      (&&-eq-true _ _ kept).1 in
                    ground (arith, e, f))
            ]
          ]
        ]

  -- A tool that a deny pattern of the persona matches is never called, whether it was known when the
  -- capabilities were resolved or not, the delegate tool and the tools of the bus included.
  pub can_call_tool-denied :
      (input : CapabilityInputs) (name : Text)
      → IsDeniedBy name input.tools
      → can_call_tool r (resolve_capabilities r input) name ≡ false
  unfolding can_call_tool resolve_capabilities
  can_call_tool-denied input name d =
      let (denied, refused) = explicitly_denied-true name input.tools d in
      elim (Bool-cases (includes exocom_tool_names name)) [
        | inl bus ↦ rw (bus, denied) (ground arith)
        | inr plain ↦
            rw (plain, refused true)
              (elim (Bool-cases (
                includes (held_tools r input (or_else input.delegate_tool default_delegate_tool))
                  name)) [
                    | inl held ↦ absurd (held_tools-not_denied input _ name held d)
                    | inr free ↦ free
                  ])
      ]

  -- The delegate targets of a persona are, exactly, the known agents that its delegate permission
  -- admits, and none where it does not hold the delegate tool.
  pub can_delegate_to_iff :
      (input : CapabilityInputs) (agent : Text)
      → (can_delegate_to r (resolve_capabilities r input) agent ≡ true) ↔ (
          (includes
              (held_tools r input (or_else input.delegate_tool default_delegate_tool))
              (or_else input.delegate_tool default_delegate_tool)
            ≡ true)
          × (includes input.known_agents agent ≡ true)
          × IsPermitted agent input.delegate (or_else input.delegate_default_allow true))
  unfolding can_delegate_to resolve_capabilities
  can_delegate_to_iff input agent =
      let tool = or_else input.delegate_tool default_delegate_tool in
      let allowed : Text → Bool =
        λ a. r.allows a input.delegate (or_else input.delegate_default_allow true) in
      let law = r.law agent input.delegate (or_else input.delegate_default_allow true) in
      elim (Bool-cases (includes (held_tools r input tool) tool)) [
        | inr without ↦ (
          λ h. absurd (let k : false ≡ true = rw without at h in cc),
          λ q. absurd (let k = q.0 in cc),
        )
        | inl held ↦ (
          λ h.
              let k = includes-filter_at allowed input.known_agents agent (rw held at h) in
              (held, k.1, law.0 k.0),
          λ q. rw held (filter-includes_at allowed input.known_agents agent (law.1 q.2) q.1),
        )
      ]
