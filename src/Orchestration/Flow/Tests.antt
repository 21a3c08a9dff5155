-- ===== src/Orchestration/Flow/Tests.antt =====
-- Flows of a few phases.
use pi_persona.Base.{
  ◌≡◌, ◌↔◌, refl, text_eq, false, none, some, List, [], ◌∷◌, Text, codes, error, ok, lookup, insert,
}
use pi_persona.Orchestration.Flow.{
  FlowPhase, has_cycle, unknown_need, start_degrees, add_edge, wire_needs, wire, release_each,
  place, place_all, topo_order,
}
use pi_persona.Orchestration.Flow.Edges.{HasDistinctIds}
use pi_persona.Orchestration.Flow.Order.{IsTopological, IsAnswer, topo_order-IsAnswer}
use pi_persona.Orchestration.Flow.Complete.{topo_order-ok_iff}

abbrev pub phase : Text → List Text → FlowPhase
phase id needs = record {
  id = id;
  strategy = codes "solo";
  roster = none;
  needs = some needs;
  params = none;
  gate = false;
}

-- `c` needs `a` and `b`, and `b` needs `a`; the file lists them in another order.
abbrev pub ladder : List FlowPhase
ladder =
    phase (codes "c") (codes "a" ∷ codes "b" ∷ [])
    ∷ phase (codes "b") (codes "a" ∷ [])
    ∷ phase (codes "a") []
    ∷ []

abbrev pub ladder_order : List Text
ladder_order = codes "a" ∷ codes "b" ∷ codes "c" ∷ []

ladder-HasDistinctIds : HasDistinctIds ladder
unfolding text_eq
ladder-HasDistinctIds = ((refl, (refl, tt)), ((refl, tt), (tt, tt)))

pub topo_order-ladder : topo_order ladder ≡ ok ladder_order
unfolding topo_order wire wire_needs add_edge start_degrees place_all place release_each lookup
    insert text_eq
topo_order-ladder = refl

-- `a` and `b` need each other.
topo_order_cycle :
    topo_order (
      phase (codes "a") (codes "b" ∷ [])
      ∷ phase (codes "b") (codes "a" ∷ [])
      ∷ phase (codes "c") []
      ∷ [])
    ≡ error has_cycle
unfolding topo_order wire wire_needs add_edge start_degrees place_all place release_each lookup
    insert text_eq
topo_order_cycle = refl

topo_order_unknown :
    topo_order (phase (codes "a") (codes "x" ∷ []) ∷ [])
    ≡ error (unknown_need (codes "a") (codes "x"))
unfolding topo_order wire wire_needs add_edge start_degrees text_eq
topo_order_unknown = refl

topo_order-IsAnswer_example : IsAnswer ladder (topo_order ladder)
topo_order-IsAnswer_example = topo_order-IsAnswer ladder ladder-HasDistinctIds

topo_order-ok_iff_example :
    ((order : List Text) × (topo_order ladder ≡ ok order))
    ↔ ((order : List Text) × IsTopological ladder order)
topo_order-ok_iff_example = topo_order-ok_iff ladder ladder-HasDistinctIds
