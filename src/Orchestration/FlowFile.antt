-- ===== src/Orchestration/FlowFile.antt =====
-- orchestration/flow.ts: a flow from the text of its file, and the check of its names. What JSON.parse makes
-- of the file is an argument: a field that is not of the type wanted is none.
pub mod Parsing
pub mod Tests
use pi_persona.Base.{
  ℕ, zero, suc, ◌+◌, ◌-◌, Bool, true, false, not, ◌&&◌, ◌||◌, Option, none, some, List, [], ◌∷◌,
  ◌++◌, map, filter, ◌==◌, if◌then◌else◌, or_else, all, find, length, Text, text_eq, includes,
  is_empty, trim, TextMap, lookup, insert, Outcome, error, ok,
}
use pi_persona.Orchestration.Flow.{
  FlowPhase, Handoff, FlowSpec, FlowError, not_json, not_object, no_name, no_phases, not_a_phase,
  phase_without_id, duplicate_phase, phase_without_strategy, needs_not_strings, bad_handoff,
  unknown_strategy, unknown_roster, topo_order,
}

-- The fields of a phase of the file.
pub record RawPhase : Type 0 where
  pub id : Option Text
  pub strategy : Option Text
  pub roster : Option Text
  pub needs : Option (List (Option Text))
  pub params : Option ℕ
  pub gate : Bool

pub data RawHandoff : Type 0 where
  absent other : RawHandoff
  given : Handoff → RawHandoff

pub record RawFlow : Type 0 where
  pub name : Option Text
  pub description : Option Text
  pub handoff : RawHandoff
  pub phases : Option (List (Option RawPhase))

pub data RawFile : Type 0 where
  no_json no_object : RawFile
  object : RawFlow → RawFile

-- A text that is there and is not blank.
pub filled_text : Option Text → Option Text
filled_text none = none
filled_text (some s) = if is_empty (trim s) then none else some s

pub all_strings : List (Option Text) → Option (List Text)
all_strings [] = some []
all_strings (none ∷ ts) = none
all_strings (some t ∷ ts) = elim (all_strings ts) [ none ↦ none | some r ↦ some (t ∷ r) ]

pub parse_needs : Text → Option (List (Option Text)) → Outcome FlowError (Option (List Text))
parse_needs id none = ok none
parse_needs id (some ts) = elim (all_strings ts) [
  | none ↦ error (needs_not_strings id)
  | some r ↦ ok (some r)
]

-- The rest of a phase whose id is good.
pub parse_body : RawPhase → Text → Outcome FlowError FlowPhase
parse_body p id = elim (filled_text p.strategy) [
  | none ↦ error (phase_without_strategy id)
  | some strategy ↦ elim (parse_needs id p.needs) [
    | error e ↦ error e
    | ok needs ↦ ok (record {
      id = id;
      strategy = strategy;
      roster = filled_text p.roster;
      needs = needs;
      params = p.params;
      gate = p.gate;
    })
  ]
]

pub parse_phase : ℕ → List Text → Option RawPhase → Outcome FlowError FlowPhase
parse_phase i seen none = error (not_a_phase i)
parse_phase i seen (some p) = elim (filled_text p.id) [
  | none ↦ error (phase_without_id i)
  | some id ↦ if includes seen id then error (duplicate_phase id) else parse_body p id
]

pub parse_phases : ℕ → List Text → List (Option RawPhase) → Outcome FlowError (List FlowPhase)
parse_phases i seen [] = ok []
parse_phases i seen (p ∷ ps) = elim (parse_phase i seen p) [
  | error e ↦ error e
  | ok phase ↦ elim (parse_phases (i + 1) (seen ++ (phase.id ∷ [])) ps) [
    | error e ↦ error e
    | ok phases ↦ ok (phase ∷ phases)
  ]
]

pub parse_handoff : RawHandoff → Outcome FlowError (Option Handoff)
parse_handoff absent = ok none
parse_handoff other = error bad_handoff
parse_handoff (given h) = ok (some h)

pub parse_phase_list : Option (List (Option RawPhase)) → Outcome FlowError (List FlowPhase)
parse_phase_list none = error no_phases
parse_phase_list (some []) = error no_phases
parse_phase_list (some (p ∷ ps)) = parse_phases 0 [] (p ∷ ps)

pub finish_flow : RawFlow → Text → List FlowPhase → Outcome FlowError FlowSpec
finish_flow raw name phases = elim (topo_order phases) [
  | error e ↦ error e
  | ok order ↦ elim (parse_handoff raw.handoff) [
    | error e ↦ error e
    | ok handoff ↦
        ok (record {
          name = name;
          description = raw.description;
          handoff = handoff;
          phases = phases;
        })
  ]
]

pub parse_flow : RawFile → Outcome FlowError FlowSpec
parse_flow no_json = error not_json
parse_flow no_object = error not_object
parse_flow (object raw) = elim (filled_text raw.name) [
  | none ↦ error no_name
  | some name ↦ elim (parse_phase_list raw.phases) [
    | error e ↦ error e
    | ok phases ↦ finish_flow raw name phases
  ]
]

pub verify_phases : List FlowPhase → List Text → List Text → Option FlowError
verify_phases [] strategies teams = none
verify_phases (p ∷ phases) strategies teams =
    let rest = verify_phases phases strategies teams in
    if not (includes strategies p.strategy)
    then some (unknown_strategy p.strategy)
    else elim p.roster [
      | none ↦ rest
      | some [] ↦ rest
      | some (c ∷ s) ↦ if not (includes teams (c ∷ s)) then some (unknown_roster (c ∷ s)) else rest
    ]

pub verify_flow_refs : FlowSpec → List Text → List Text → Outcome FlowError FlowSpec
verify_flow_refs flow strategies teams = elim (verify_phases flow.phases strategies teams) [
  | none ↦ ok flow
  | some e ↦ error e
]
