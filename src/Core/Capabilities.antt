-- ===== src/Core/Capabilities.antt =====
-- core/capabilities.ts: what a persona may call and whom it may delegate to. A set is the list of its
-- elements in insertion order. The permission resolver of core/permissions.ts, whose answers do not
-- depend on its cache, is a parameter with its law; Core/Capabilities/Grants gives it.
pub mod Callable
pub mod Grants
use pi_persona.Base.{
  ℕ, Bool, true, false, not, ◌&&◌, ◌||◌, Option, none, some, List, [], ◌∷◌, ◌++◌, if◌then◌else◌,
  or_else, filter, ◌≡◌, ◌↔◌, Text, codes, text_eq, includes,
}
use pi_persona.Core.Permissions.{Permission}
use pi_persona.Core.Permissions.Resolution.{IsPermitted}

-- `isAllowed`, and what it answers.
pub record Resolver : Type 0 where
  pub allows : Text → Option Permission → Bool → Bool
  pub law :
      (name : Text) (perm : Option Permission) (default_allow : Bool)
      → (allows name perm default_allow ≡ true) ↔ IsPermitted name perm default_allow

pub record CapabilityInputs : Type 0 where
  pub all_tool_names : List Text
  pub known_agents : List Text
  pub tools : Option Permission
  pub delegate : Option Permission
  pub delegate_tool : Option Text
  pub delegate_default_allow : Option Bool

pub record EffectiveCapabilities : Type 0 where
  pub tools : List Text
  pub delegate_targets : List Text
  pub can_use_bus : Bool
  pub tools_perm : Option Permission

abbrev pub default_delegate_tool : Text
default_delegate_tool = codes "delegate"

abbrev pub exocom_tool_names : List Text
exocom_tool_names =
    codes "exocom_list"
    ∷ codes "exocom_send"
    ∷ codes "exocom_name"
    ∷ codes "exocom_claim"
    ∷ codes "exocom_ask"
    ∷ codes "exocom_answer"
    ∷ codes "exocom_decline"
    ∷ codes "exocom_wait"
    ∷ codes "exocom_release"
    ∷ codes "exocom_progress"
    ∷ codes "exocom_status"
    ∷ codes "exocom_task"
    ∷ codes "exocom_offer"
    ∷ codes "exocom_publish"
    ∷ codes "exocom_profile"
    ∷ []

-- `set.add(a)`
unfoldable pub add_name : List Text → Text → List Text
add_name names a = if includes names a then names else names ++ (a ∷ [])

-- `{ deny: perm.deny }`
deny_only : List Text → Permission
deny_only deny = record { allow = none; deny = some deny }

module _ (r : Resolver) where
  denied_by : Text → Option (List Text) → Bool
  unfolding deny_only
  denied_by name none = false
  denied_by name (some deny) = not (r.allows name (some (deny_only deny)) true)

  pub explicitly_denied : Text → Option Permission → Bool
  unfolding denied_by
  explicitly_denied name none = false
  explicitly_denied name (some perm) = denied_by name perm.deny

  -- The tools that pass, with the delegate tool unless it is denied in so many words.
  pub held_tools : CapabilityInputs → Text → List Text
  held_tools input delegate_tool =
      let tools = filter (λ n. r.allows n input.tools true) input.all_tool_names in
      if includes input.all_tool_names delegate_tool
        && not (explicitly_denied delegate_tool input.tools)
      then add_name tools delegate_tool
      else tools

  pub resolve_capabilities : CapabilityInputs → EffectiveCapabilities
  resolve_capabilities input =
      let delegate_tool = or_else input.delegate_tool default_delegate_tool in
      let default_allow = or_else input.delegate_default_allow true in
      let tools = held_tools input delegate_tool in
      record {
        tools = tools;
        delegate_targets =
            if includes tools delegate_tool
            then filter (λ a. r.allows a input.delegate default_allow) input.known_agents
            else [];
        can_use_bus = not (explicitly_denied (codes "intercom") input.tools);
        tools_perm = input.tools;
      }

  pub can_fan_out : EffectiveCapabilities → Option Text → Bool
  can_fan_out caps delegate_tool = includes caps.tools (or_else delegate_tool default_delegate_tool)

  pub can_call_tool : EffectiveCapabilities → Text → Bool
  can_call_tool caps tool_name =
      if includes exocom_tool_names tool_name
      then caps.can_use_bus && not (explicitly_denied tool_name caps.tools_perm)
      else if r.allows tool_name caps.tools_perm true
      then true
      else includes caps.tools tool_name

  pub can_participate_in_exocom : Option EffectiveCapabilities → Bool
  can_participate_in_exocom none = true
  can_participate_in_exocom (some caps) =
      caps.can_use_bus
      && (can_call_tool caps (codes "exocom_answer") || can_call_tool caps (codes "exocom_decline"))

  unfoldable pub can_delegate_to : EffectiveCapabilities → Text → Bool
  can_delegate_to caps agent = includes caps.delegate_targets agent
