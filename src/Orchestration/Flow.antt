-- ===== src/Orchestration/Flow.antt =====
-- orchestration/flow.ts: the declarative graph of phases and their order. `params` has a handle for the
-- object.
pub mod Complete
pub mod Edges
pub mod Missing
pub mod Order
pub mod Placing
pub mod Queue
pub mod Start
pub mod Tests
use pi_persona.Base.{
  ℕ, zero, suc, ◌+◌, ◌-◌, Bool, true, false, not, ◌&&◌, ◌||◌, Option, none, some, List, [], ◌∷◌,
  ◌++◌, map, filter, ◌==◌, if◌then◌else◌, or_else, all, find, length, Text, text_eq, includes,
  is_empty, trim, TextMap, lookup, insert, Outcome, error, ok,
}

pub record FlowPhase : Type 0 where
  pub id : Text
  pub strategy : Text
  pub roster : Option Text
  pub needs : Option (List Text)
  pub params : Option ℕ
  pub gate : Bool

pub data Handoff : Type 0 where
  inline reference : Handoff

pub record FlowSpec : Type 0 where
  pub name : Text
  pub description : Option Text
  pub handoff : Option Handoff
  pub phases : List FlowPhase

pub data FlowError : Type 0 where
  not_json not_object no_name no_phases : FlowError
  not_a_phase phase_without_id : ℕ → FlowError
  duplicate_phase phase_without_strategy needs_not_strings : Text → FlowError
  unknown_need : Text → Text → FlowError
  has_cycle bad_handoff : FlowError
  unknown_strategy unknown_roster : Text → FlowError

abbrev pub needs_of : FlowPhase → List Text
needs_of p = or_else p.needs []

-- The tables `indeg` and `dependents`.
pub record Degrees : Type 0 where
  pub indeg : TextMap ℕ
  pub dependents : TextMap (List Text)

pub start_degrees : List FlowPhase → TextMap ℕ → TextMap ℕ
start_degrees [] indeg = indeg
start_degrees (p ∷ phases) indeg = start_degrees phases (insert p.id 0 indeg)

-- One edge: the phase `id` needs the phase `n`.
pub add_edge : Text → Text → Degrees → Degrees
add_edge id n g = record {
  indeg = insert id (or_else (lookup id g.indeg) 0 + 1) g.indeg;
  dependents = insert n (or_else (lookup n g.dependents) [] ++ (id ∷ [])) g.dependents;
}

pub wire_needs : List Text → Text → List Text → Degrees → Outcome FlowError Degrees
wire_needs ids id [] g = ok g
wire_needs ids id (n ∷ needs) g =
    let rest = wire_needs ids id needs (add_edge id n g) in
    if not (includes ids n) then error (unknown_need id n) else rest

pub wire : List Text → List FlowPhase → Degrees → Outcome FlowError Degrees
wire ids [] g = ok g
wire ids (p ∷ phases) g = elim (wire_needs ids p.id (needs_of p) g) [
  | error e ↦ error e
  | ok g' ↦ wire ids phases g'
]

abbrev pub degree : TextMap ℕ → Text → ℕ
degree indeg id = or_else (lookup id indeg) 0

-- The edges of a phase that is placed are dropped; a phase is queued where its last edge goes. The
-- source's `d === 0` for `d = degree - 1` is written `degree == 1`; the degree of a name that is among
-- the dependents counts that edge, so it is not 0.
pub release_each : List Text → TextMap ℕ → List Text → TextMap ℕ × List Text
release_each [] indeg queue = (indeg, queue)
release_each (dep ∷ deps) indeg queue =
    release_each deps (insert dep (degree indeg dep - 1) indeg)
      (if degree indeg dep == 1 then queue ++ (dep ∷ []) else queue)

-- The loop on the queue, with one round for each phase.
pub place : ℕ → TextMap (List Text) → TextMap ℕ → List Text → List Text → List Text
place zero dependents indeg order queue = order
place (suc rounds) dependents indeg order [] = order
place (suc rounds) dependents indeg order (id ∷ queue) =
    let (indeg', queue') = release_each (or_else (lookup id dependents) []) indeg queue in
    place rounds dependents indeg' (order ++ (id ∷ [])) queue'

abbrev pub ids_of : List FlowPhase → List Text
ids_of phases = map (λ p. p.id) phases

pub place_all : List FlowPhase → Degrees → List Text
place_all phases g =
    place (length phases) g.dependents g.indeg []
      (ids_of (filter (λ p. degree g.indeg p.id == 0) phases))

pub topo_order : List FlowPhase → Outcome FlowError (List Text)
topo_order phases =
    elim (wire (ids_of phases) phases
      (record { indeg = start_degrees phases []; dependents = [] })) [
        | error e ↦ error e
        | ok g ↦
            let order = place_all phases g in
            if not (length order == length phases) then error has_cycle else ok order
      ]
