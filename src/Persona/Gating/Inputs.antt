-- ===== src/Persona/Gating/Inputs.antt =====
-- Which agents and tools the input of a delegate call names.
use mathlib.Core.Option.{some-injective}
use pi_persona.Base.{
  ap, subst, ◌⊎◌, IsAmong, IsAmong-append, ◌≡◌, ◌↔◌, ◌∙◌, sym, refl, inl, inr, Option, none, some,
  List, [], ◌∷◌, ◌++◌, or_else, Text,
}
use pi_persona.Persona.Gating.{
  Fields, DelegateInput, agents_of, task_agents, strings_of, extract_delegate_targets, task_tools,
  tools_of,
}

-- A task of the input.
abbrev pub IsTask : DelegateInput → Fields → Type 0
IsTask o t = (tasks : List (Option Fields)) × (o.tasks ≡ some tasks) × IsAmong (some t) tasks

-- The agents that an input names: its own, and those of its tasks.
abbrev pub IsTarget : Option DelegateInput → Text → Type 0
IsTarget none a = ⊥
IsTarget (some o) a = (o.own.agent ≡ some a) ⊎ ((t : Fields) × IsTask o t × (t.agent ≡ some a))

abbrev pub HasTool : Fields → Text → Type 0
HasTool f name = (tools : List (Option Text)) × (f.tools ≡ some tools) × IsAmong (some name) tools

-- The tools that an input gives to sub-agents: its own, and those of its tasks.
abbrev pub IsGift : Option DelegateInput → Text → Type 0
IsGift none name = ⊥
IsGift (some o) name = HasTool o.own name ⊎ ((t : Fields) × IsTask o t × HasTool t name)

agents_of_iff : (o : Option Text) (a : Text) → IsAmong a (agents_of o) ↔ (o ≡ some a)
unfolding agents_of
agents_of_iff none a = (λ h. absurd h, λ e. absurd (cc))
agents_of_iff (some b) a = (λ h. elim h [ inl e ↦ ap some e | inr n ↦ absurd n ], λ e. inl cc)

task_agents_iff :
    (tasks : List (Option Fields)) (a : Text)
    → IsAmong a (task_agents tasks) ↔ ((t : Fields) × IsAmong (some t) tasks × (t.agent ≡ some a))
unfolding task_agents
task_agents_iff [] a = (λ h. absurd h, λ (t, n, e). n)
task_agents_iff (none ∷ tasks) a =
    let ih = task_agents_iff tasks a in
    (
      λ h. let (t, m, e) = ih.0 h in (t, inr m, e),
      λ (t, m, e). elim m [ inl bad ↦ absurd (cc) | inr k ↦ ih.1 (t, k, e) ],
    )
task_agents_iff (some u ∷ tasks) a =
    let ih = task_agents_iff tasks a in
    let split = IsAmong-append a (agents_of u.agent) (task_agents tasks) in
    let own = agents_of_iff u.agent a in
    (
      λ h. elim (split.0 h) [
        | inl m ↦ (u, inl refl, own.0 m)
        | inr k ↦ let (t, m, e) = ih.0 k in (t, inr m, e)
      ],
      λ (t, m, e). elim m [
        | inl same ↦
            let k : u ≡ t = some-injective _ _ same in
            split.1 (inl (own.1 (ap (λ f. f.agent) k ∙ e)))
        | inr k ↦ split.1 (inr (ih.1 (t, k, e)))
      ],
    )

strings_of_iff :
    (ts : List (Option Text)) (a : Text) → IsAmong a (strings_of ts) ↔ IsAmong (some a) ts
unfolding strings_of
strings_of_iff [] a = (λ h. h, λ h. h)
strings_of_iff (none ∷ ts) a =
    let ih = strings_of_iff ts a in
    (λ h. inr (ih.0 h), λ h. elim h [ inl bad ↦ absurd (cc) | inr k ↦ ih.1 k ])
strings_of_iff (some t ∷ ts) a =
    let ih = strings_of_iff ts a in
    (
      λ h. elim h [ inl e ↦ inl (ap some e) | inr k ↦ inr (ih.0 k) ],
      λ h. elim h [ inl e ↦ inl (some-injective _ _ e) | inr k ↦ inr (ih.1 k) ],
    )

-- What a field that may be absent has.
or_nil_iff :
    {A : Type 0}
    → (o : Option (List A)) (a : A)
    → IsAmong a (or_else o []) ↔ ((xs : List A) × (o ≡ some xs) × IsAmong a xs)
or_nil_iff none a = (λ h. absurd h, λ (xs, e, m). absurd (cc))
or_nil_iff (some ys) a =
    (λ h. (ys, refl, h), λ (xs, e, m). subst (IsAmong a) (sym (some-injective _ _ e)) m)

tools_of_iff : (f : Fields) (a : Text) → IsAmong a (tools_of f) ↔ HasTool f a
unfolding tools_of
tools_of_iff f a =
    let each = strings_of_iff (or_else f.tools []) a in
    let field = or_nil_iff f.tools (some a) in (λ h. field.0 (each.0 h), λ h. each.1 (field.1 h))

task_tools_iff :
    (tasks : List (Option Fields)) (a : Text)
    → IsAmong a (task_tools tasks) ↔ ((t : Fields) × IsAmong (some t) tasks × HasTool t a)
unfolding task_tools
task_tools_iff [] a = (λ h. absurd h, λ (t, n, e). n)
task_tools_iff (none ∷ tasks) a =
    let ih = task_tools_iff tasks a in
    (
      λ h. let (t, m, e) = ih.0 h in (t, inr m, e),
      λ (t, m, e). elim m [ inl bad ↦ absurd (cc) | inr k ↦ ih.1 (t, k, e) ],
    )
task_tools_iff (some u ∷ tasks) a =
    let ih = task_tools_iff tasks a in
    let split = IsAmong-append a (tools_of u) (task_tools tasks) in
    let own = tools_of_iff u a in
    (
      λ h. elim (split.0 h) [
        | inl m ↦ (u, inl refl, own.0 m)
        | inr k ↦ let (t, m, e) = ih.0 k in (t, inr m, e)
      ],
      λ (t, m, e). elim m [
        | inl same ↦
            let k : u ≡ t = some-injective _ _ same in
            split.1 (inl (own.1 (subst (λ f. HasTool f a) (sym k) e)))
        | inr k ↦ split.1 (inr (ih.1 (t, k, e)))
      ],
    )

-- The tools that the input grants to sub-agents.
abbrev pub granted : Option DelegateInput → List Text
granted none = []
granted (some o) = tools_of o.own ++ task_tools (or_else o.tasks [])

pub targets_iff :
    (input : Option DelegateInput) (a : Text)
    → IsAmong a (extract_delegate_targets input) ↔ IsTarget input a
unfolding extract_delegate_targets
targets_iff none a = (λ h. h, λ h. h)
targets_iff (some o) a =
    let split = IsAmong-append a (agents_of o.own.agent) (task_agents (or_else o.tasks [])) in
    let own = agents_of_iff o.own.agent a in
    let each = task_agents_iff (or_else o.tasks []) a in
    (
      λ h. elim (split.0 h) [
        | inl m ↦ inl (own.0 m)
        | inr k ↦ let (t, m, e) = each.0 k in inr (t, (or_nil_iff o.tasks (some t)).0 m, e)
      ],
      λ h. elim h [
        | inl e ↦ split.1 (inl (own.1 e))
        | inr (t, m, e) ↦ split.1 (inr (each.1 (t, (or_nil_iff o.tasks (some t)).1 m, e)))
      ],
    )

pub gifts_iff :
    (input : Option DelegateInput) (a : Text) → IsAmong a (granted input) ↔ IsGift input a
gifts_iff none a = (λ h. h, λ h. h)
gifts_iff (some o) a =
    let split = IsAmong-append a (tools_of o.own) (task_tools (or_else o.tasks [])) in
    let own = tools_of_iff o.own a in
    let each = task_tools_iff (or_else o.tasks []) a in
    (
      λ h. elim (split.0 h) [
        | inl m ↦ inl (own.0 m)
        | inr k ↦ let (t, m, e) = each.0 k in inr (t, (or_nil_iff o.tasks (some t)).0 m, e)
      ],
      λ h. elim h [
        | inl e ↦ split.1 (inl (own.1 e))
        | inr (t, m, e) ↦ split.1 (inr (each.1 (t, (or_nil_iff o.tasks (some t)).1 m, e)))
      ],
    )
