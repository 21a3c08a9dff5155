-- ===== src/Orchestration/FlowFile/Tests.antt =====
-- The file of a flow of three phases.
use pi_persona.Base.{
  ◌≡◌, refl, text_eq, trim, is_space, false, Option, none, some, List, [], ◌∷◌, Text, codes, ok,
}
use pi_persona.Orchestration.Flow.{topo_order, FlowPhase, FlowSpec, topo_order}
use pi_persona.Orchestration.FlowFile.{
  RawFlow, RawPhase, RawFile, object, absent, filled_text, all_strings, parse_needs, parse_body,
  parse_phase, parse_phases, parse_handoff, parse_phase_list, finish_flow, parse_flow,
}
use pi_persona.Orchestration.Flow.Tests.{ladder, ladder_order, topo_order-ladder}
use pi_persona.Orchestration.Flow.Edges.{HasDistinctIds}
use pi_persona.Orchestration.Flow.Order.{IsTopological}
use pi_persona.Orchestration.FlowFile.Parsing.{parse_flow-IsRunnable}

abbrev raw_phase : Text → List (Option Text) → Option RawPhase
raw_phase id needs = some (record {
  id = some id;
  strategy = some (codes "solo");
  roster = none;
  needs = some needs;
  params = none;
  gate = false;
})

abbrev pub ladder_file : RawFile
ladder_file = object (record {
  name = some (codes "ladder");
  description = none;
  handoff = absent;
  phases = some (
      raw_phase (codes "c") (some (codes "a") ∷ some (codes "b") ∷ [])
      ∷ raw_phase (codes "b") (some (codes "a") ∷ [])
      ∷ raw_phase (codes "a") []
      ∷ []);
})

abbrev pub ladder_flow : FlowSpec
ladder_flow = record { name = codes "ladder"; description = none; handoff = none; phases = ladder }

finish_flow_ordered :
    (raw : RawFlow) (name : Text) (phases : List FlowPhase) (order : List Text)
    → topo_order phases ≡ ok order
    → raw.handoff ≡ absent
    → finish_flow raw name phases
      ≡ ok (record { name = name; description = raw.description; handoff = none; phases = phases })
unfolding finish_flow parse_handoff
finish_flow_ordered raw name phases order e f = rw (finish_flow, e, f) refl

pub parse_flow-ladder : parse_flow ladder_file ≡ ok ladder_flow
unfolding parse_flow parse_phase_list parse_phases parse_phase parse_body parse_needs all_strings
    filled_text text_eq trim is_space
parse_flow-ladder = finish_flow_ordered _ _ ladder ladder_order topo_order-ladder refl

parse_flow-IsRunnable_example :
    HasDistinctIds ladder
    × ((order : List Text) × (topo_order ladder ≡ ok order) × IsTopological ladder order)
parse_flow-IsRunnable_example = parse_flow-IsRunnable ladder_file ladder_flow parse_flow-ladder
