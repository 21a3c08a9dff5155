-- ===== src/Persona/Gating/Calls.antt =====
-- What the gate lets through.
use pi_persona.Base.{
  all-IsAmong, ◌≡◌, ◌↔◌, ◌∙◌, sym, refl, inl, inr, Bool, true, not, ◌&&◌, Option, none, some, List,
  [], ◌∷◌, ◌++◌, arith, or_else, filter, all, Bool-cases, Text, text_eq, text_eq_iff, includes,
  all-includes,
}
use pi_persona.Core.Capabilities.{
  Resolver, CapabilityInputs, EffectiveCapabilities, default_delegate_tool, add_name, can_call_tool,
  can_delegate_to, resolve_capabilities,
}
use pi_persona.Core.Capabilities.Callable.{IsCallable, can_call_tool_iff}
use pi_persona.Core.Capabilities.Grants.{IsDeniedBy, can_call_tool-denied}
use pi_persona.Persona.Gating.{
  DelegateInput, extract_delegate_targets, distinct_names, extract_delegate_tools, GateResult,
  tool_blocked, unless_empty, gate_delegate, gate_tool_call,
}
use pi_persona.Persona.Gating.Inputs.{IsTarget, IsGift, granted, targets_iff, gifts_iff}

module _ (p : Text → Bool) where
  filter-not-nil_iff : (xs : List Text) → (filter (λ x. not (p x)) xs ≡ []) ↔ (all p xs ≡ true)
  filter-not-nil_iff [] = (λ _. refl, λ _. refl)
  filter-not-nil_iff (x ∷ xs) = ground (arith, filter-not-nil_iff xs)

  all-append : (xs ys : List Text) → all p (xs ++ ys) ≡ (all p xs && all p ys)
  all-append [] ys = refl
  all-append (x ∷ xs) ys = ground (arith, all-append xs ys)

  all-add_name : (xs : List Text) (a : Text) → all p (add_name xs a) ≡ (all p xs && p a)
  unfolding add_name
  all-add_name xs a = elim (Bool-cases (includes xs a)) [
    | inl known ↦ rw known (elim (Bool-cases (all p xs)) [
      | inl every ↦ rw (every, all-includes p xs a every known) refl
      | inr some_not ↦ rw some_not refl
    ])
    | inr new ↦ rw (new, all-append xs (a ∷ [])) (ground arith)
  ]

  all-distinct_names :
      (xs seen : List Text) → all p (distinct_names seen xs) ≡ (all p seen && all p xs)
  unfolding distinct_names
  all-distinct_names [] seen = ground arith
  all-distinct_names (x ∷ xs) seen =
      rw (all-distinct_names xs (add_name seen x), all-add_name seen x) (ground arith)

  all-granted :
      (input : Option DelegateInput) → all p (extract_delegate_tools input) ≡ all p (granted input)
  unfolding extract_delegate_tools
  all-granted none = refl
  all-granted (some o) = all-distinct_names (granted (some o)) []

unless_empty-none_iff :
    (xs : List Text) (f : List Text → GateResult) (rest : Option GateResult)
    → (unless_empty xs f rest ≡ none) ↔ ((xs ≡ []) × (rest ≡ none))
unfolding unless_empty
unless_empty-none_iff [] f rest = (λ h. (refl, h), λ q. q.1)
unless_empty-none_iff (x ∷ xs) f rest = (λ h. absurd (cc), λ q. absurd (let k = q.0 in cc))

module _ (r : Resolver) where
  gate_delegate-none_iff :
      (caps : EffectiveCapabilities) (input : Option DelegateInput)
      → (gate_delegate r caps input ≡ none) ↔ (
          (all (can_delegate_to r caps) (extract_delegate_targets input) ≡ true)
          × (all (can_call_tool r caps) (granted input) ≡ true))
  unfolding gate_delegate
  gate_delegate-none_iff caps input =
      let targets = filter-not-nil_iff (can_delegate_to r caps) (extract_delegate_targets input) in
      let tools = filter-not-nil_iff (can_call_tool r caps) (extract_delegate_tools input) in
      let same = all-granted (can_call_tool r caps) input in
      let first =
        unless_empty-none_iff
          (filter (λ t. not (can_delegate_to r caps t)) (extract_delegate_targets input)) in
      let second =
        unless_empty-none_iff
          (filter (λ t. not (can_call_tool r caps t)) (extract_delegate_tools input)) in
      (
        λ h.
            let (a, b) = (first _ _).0 h in
            let (c, _) = (second _ _).0 b in (targets.0 a, sym same ∙ tools.0 c),
        λ q. (first _ _).1 (targets.1 q.0, (second _ _).1 (tools.1 (same ∙ q.1), refl)),
      )

  -- The same by the code's own tests of the names.
  gate_tool_call-all_iff :
      (caps : EffectiveCapabilities) (tool_name : Text) (input : Option DelegateInput)
      (delegate_tool : Option Text)
      → (gate_tool_call r caps tool_name input delegate_tool ≡ none) ↔ (
          (can_call_tool r caps tool_name ≡ true)
          × (tool_name ≡ or_else delegate_tool default_delegate_tool
              → (all (can_delegate_to r caps) (extract_delegate_targets input) ≡ true)
                × (all (can_call_tool r caps) (granted input) ≡ true)))
  unfolding gate_tool_call
  gate_tool_call-all_iff caps tool_name input delegate_tool =
      let tool = or_else delegate_tool default_delegate_tool in
      let inner = gate_delegate-none_iff caps input in
      elim (Bool-cases (can_call_tool r caps tool_name)) [
        | inr blocked ↦ (
          λ h. absurd (let k : some (tool_blocked tool_name) ≡ none = rw blocked at h in cc),
          λ q. absurd (let k = q.0 in cc),
        )
        | inl may ↦ elim (Bool-cases (text_eq tool_name tool)) [
          | inl delegates ↦ (
            λ h. (may, λ _. inner.0 (rw (may, delegates) at h)),
            λ q. rw (may, delegates) (inner.1 (q.1 ((text_eq_iff tool_name tool).0 delegates))),
          )
          | inr other ↦ (
            λ h. (may, λ same. absurd (let k = (text_eq_iff tool_name tool).1 same in cc)),
            λ q. rw (may, other) refl,
          )
        ]
      ]

  -- A delegate call that the gate lets through for a persona grants no sub-agent, by name, a tool that a
  -- deny pattern of the persona matches.
  pub granted-not_denied :
      (inputs : CapabilityInputs) (input : Option DelegateInput) (delegate_tool : Option Text)
      (name : Text)
      → gate_tool_call r
          (resolve_capabilities r inputs)
          (or_else delegate_tool default_delegate_tool)
          input
          delegate_tool
        ≡ none
      → includes (granted input) name ≡ true
      → ¬ IsDeniedBy name inputs.tools
  granted-not_denied inputs input delegate_tool name h k d =
      let passed =
        (gate_tool_call-all_iff (resolve_capabilities r inputs) _ input delegate_tool).0 h in
      let callable =
        all-includes (can_call_tool r (resolve_capabilities r inputs)) (granted input) name
          (passed.1 refl).1 k in
      let refused = can_call_tool-denied r inputs name d in
      let e : can_call_tool r (resolve_capabilities r inputs) name ≡ true = callable in cc

  -- A call passes the gate exactly where the persona may call the tool, and, for the delegate tool, where
  -- every agent that the input names, itself or in a task, is a delegate target, and every tool that the
  -- input gives to a sub-agent, itself or in a task, is one that the persona may call. A persona may call
  -- a tool of the bus where it has the bus and no deny pattern matches the tool, and another tool where its
  -- rules permit the name or it held the tool when it was activated.
  pub gate_tool_call-none_iff :
      (caps : EffectiveCapabilities) (tool_name : Text) (input : Option DelegateInput)
      (delegate_tool : Option Text)
      → (gate_tool_call r caps tool_name input delegate_tool ≡ none) ↔ (
          IsCallable caps tool_name
          × (tool_name ≡ or_else delegate_tool default_delegate_tool
              → ((a : Text) → IsTarget input a → includes caps.delegate_targets a ≡ true)
                × ((name : Text) → IsGift input name → IsCallable caps name)))
  gate_tool_call-none_iff caps tool_name input delegate_tool =
      let tests = gate_tool_call-all_iff caps tool_name input delegate_tool in
      let callable = can_call_tool_iff r caps in
      let targets = all-IsAmong (can_delegate_to r caps) (extract_delegate_targets input) in
      let gifts = all-IsAmong (can_call_tool r caps) (granted input) in
      (
        λ h.
            let (may, inner) = tests.0 h in
            (
              (callable tool_name).0 may,
              λ e.
                  let (a, b) = inner e in
                  (
                    λ x k. unfold can_delegate_to in targets.0 a x ((targets_iff input x).1 k),
                    λ x k. (callable x).0 (gifts.0 b x ((gifts_iff input x).1 k)),
                  ),
            ),
        λ q. tests.1 (
          (callable tool_name).1 q.0,
          λ e.
              let (a, b) = q.1 e in
              (
                targets.1 (λ x m. unfold can_delegate_to in a x ((targets_iff input x).0 m)),
                gifts.1 (λ x m. (callable x).1 (b x ((gifts_iff input x).0 m))),
              ),
        ),
      )
