-- ===== src/Persona/Gating/Tests.antt =====
-- A persona that may use all tools but `rm_*`, and may delegate to one agent.
use pi_persona.Base.{
  Text, ◌≡◌, ◌↔◌, refl, true, false, none, some, [], ◌∷◌, arith, includes, codes, inl,
}
use pi_persona.Core.Permissions.{Cache}
use pi_persona.Core.Permissions.Resolution.{IsSound, IsPermitted}
use pi_persona.Core.Permissions.Globs.{done, itself}
use pi_persona.Core.Capabilities.{
  Resolver, CapabilityInputs, EffectiveCapabilities, resolve_capabilities, default_delegate_tool,
  held_tools, can_call_tool, can_delegate_to,
}
use pi_persona.Core.Capabilities.Grants.{
  IsDeniedBy, cached_resolver, can_call_tool-denied, can_delegate_to_iff,
}
use pi_persona.Core.Capabilities.Callable.{IsCallable}
use pi_persona.Persona.Gating.{DelegateInput, gate_tool_call}
use pi_persona.Persona.Gating.Inputs.{IsTarget, IsGift}
use pi_persona.Persona.Gating.Calls.{gate_tool_call-none_iff}

abbrev empty : Cache
empty = []

empty-IsSound : IsSound empty
empty-IsSound = record { genuine = tt; bounded = omega arith }

abbrev r : Resolver
r = cached_resolver empty empty-IsSound

abbrev input : CapabilityInputs
input = record {
  all_tool_names = codes "ls" ∷ codes "delegate" ∷ [];
  known_agents = codes "scout" ∷ [];
  tools = some (record { allow = none; deny = some (codes "rm" ∷ []) });
  delegate = none;
  delegate_tool = none;
  delegate_default_allow = none;
}

rm_denied : IsDeniedBy (codes "rm") input.tools
rm_denied =
    inl (itself (omega arith) (omega arith) refl (itself (omega arith) (omega arith) refl done))

can_call_tool-denied_example : can_call_tool r (resolve_capabilities r input) (codes "rm") ≡ false
can_call_tool-denied_example = can_call_tool-denied r input (codes "rm") rm_denied

can_delegate_to_iff_example :
    (can_delegate_to r (resolve_capabilities r input) (codes "scout") ≡ true) ↔ (
      (includes (held_tools r input default_delegate_tool) default_delegate_tool ≡ true)
      × (includes input.known_agents (codes "scout") ≡ true)
      × IsPermitted (codes "scout") none true)
can_delegate_to_iff_example = can_delegate_to_iff r input (codes "scout")

abbrev call : DelegateInput
call = record {
  own = record { agent = some (codes "scout"); tools = some (some (codes "ls") ∷ none ∷ []) };
  tasks = some (
      some (record { agent = some (codes "scout"); tools = some (some (codes "delegate") ∷ []) })
      ∷ none
      ∷ []);
}

abbrev caps : EffectiveCapabilities
caps = record {
  tools = codes "ls" ∷ codes "delegate" ∷ [];
  delegate_targets = codes "scout" ∷ [];
  can_use_bus = true;
  tools_perm = input.tools;
}

gate_tool_call-none_iff_example :
    (gate_tool_call r caps (codes "delegate") (some call) none ≡ none) ↔ (
      IsCallable caps (codes "delegate")
      × (codes "delegate" ≡ default_delegate_tool
          → ((a : Text) → IsTarget (some call) a → includes caps.delegate_targets a ≡ true)
            × ((name : Text) → IsGift (some call) name → IsCallable caps name)))
gate_tool_call-none_iff_example = gate_tool_call-none_iff r caps (codes "delegate") (some call) none
