-- ===== src/Persona/Gating.antt =====
-- persona/gating.ts: the gate that each call of a tool passes. Of the input of a delegate call, which is
-- of any type, the model has what the gate looks at: its own fields and those of its tasks, where a
-- field that is not of the type wanted is none.
pub mod Calls
pub mod Inputs
mod Tests
use pi_persona.Base.{
  ℕ, Bool, true, false, not, ◌&&◌, Option, none, some, List, [], ◌∷◌, ◌++◌, ltb, if◌then◌else◌,
  or_else, filter, take, length, Text, text_eq,
}
use pi_persona.Core.Capabilities.{
  Resolver, EffectiveCapabilities, default_delegate_tool, add_name, can_call_tool, can_delegate_to,
}

-- The fields `agent`, if it is a string, and `tools`, if it is an array, of which the strings are some.
pub record Fields : Type 0 where
  pub agent : Option Text
  pub tools : Option (List (Option Text))

-- An input that is an object; a task that is no object is none.
pub record DelegateInput : Type 0 where
  pub own : Fields
  pub tasks : Option (List (Option Fields))

pub agents_of : Option Text → List Text
agents_of none = []
agents_of (some a) = a ∷ []

pub task_agents : List (Option Fields) → List Text
task_agents [] = []
task_agents (none ∷ tasks) = task_agents tasks
task_agents (some t ∷ tasks) = agents_of t.agent ++ task_agents tasks

pub extract_delegate_targets : Option DelegateInput → List Text
extract_delegate_targets none = []
extract_delegate_targets (some o) = agents_of o.own.agent ++ task_agents (or_else o.tasks [])

pub strings_of : List (Option Text) → List Text
strings_of [] = []
strings_of (none ∷ ts) = strings_of ts
strings_of (some t ∷ ts) = t ∷ strings_of ts

pub tools_of : Fields → List Text
tools_of o = strings_of (or_else o.tools [])

pub task_tools : List (Option Fields) → List Text
task_tools [] = []
task_tools (none ∷ tasks) = task_tools tasks
task_tools (some t ∷ tasks) = tools_of t ++ task_tools tasks

-- `[...new Set(names)]`, on top of the names that the set has.
pub distinct_names : List Text → List Text → List Text
distinct_names seen [] = seen
distinct_names seen (a ∷ names) = distinct_names (add_name seen a) names

pub extract_delegate_tools : Option DelegateInput → List Text
extract_delegate_tools none = []
extract_delegate_tools (some o) =
    distinct_names [] (tools_of o.own ++ task_tools (or_else o.tasks []))

-- Why a call is blocked: the tool; the targets, with the first of those that are allowed and whether
-- there are more; or the tools that the persona lacks itself.
pub data GateResult : Type 0 where
  tool_blocked : Text → GateResult
  targets_blocked : List Text → List Text → Bool → GateResult
  tools_blocked : List Text → GateResult

abbrev hint_max : ℕ
hint_max = 12

-- `if (names.length > 0) return …`
unless_empty : List Text → (List Text → GateResult) → Option GateResult → Option GateResult
unless_empty [] blocked rest = rest
unless_empty (t ∷ ts) blocked rest = some (blocked (t ∷ ts))

module _ (r : Resolver) where
  pub gate_delegate : EffectiveCapabilities → Option DelegateInput → Option GateResult
  gate_delegate caps input =
      unless_empty (filter (λ t. not (can_delegate_to r caps t)) (extract_delegate_targets input))
        (λ blocked.
          targets_blocked blocked (take hint_max caps.delegate_targets)
            (ltb hint_max (length caps.delegate_targets)))
        (unless_empty (filter (λ t. not (can_call_tool r caps t)) (extract_delegate_tools input))
          tools_blocked none)

  -- None: the call is allowed.
  pub gate_tool_call :
      EffectiveCapabilities → Text → Option DelegateInput → Option Text → Option GateResult
  gate_tool_call caps tool_name input delegate_tool =
      if not (can_call_tool r caps tool_name)
      then some (tool_blocked tool_name)
      else if not (text_eq tool_name (or_else delegate_tool default_delegate_tool))
      then none
      else gate_delegate caps input
