-- ===== src/Orchestration/FlowFile/Parsing.antt =====
-- What a flow that is parsed is like: its ids differ and its phases can be ordered.
use pi_persona.Base.{
  ℕ, ◌+◌, ◌≡◌, sym, refl, ap, inl, inr, subst, false, if◌then◌else◌, Option, none, some, List, [],
  ◌∷◌, ◌++◌, arith, Bool-cases, Text, text_eq, includes, All, All-mono, Outcome, error, ok,
}
use pi_persona.Orchestration.Flow.{
  Handoff, no_name, FlowPhase, FlowSpec, FlowError, topo_order, duplicate_phase, phase_without_id,
  phase_without_strategy,
}
use pi_persona.Orchestration.FlowFile.{
  no_json, no_object, object, RawPhase, RawFlow, RawFile, filled_text, parse_needs, parse_body,
  parse_phase, parse_phases, parse_handoff, parse_phase_list, finish_flow, parse_flow,
}
use pi_persona.Orchestration.Flow.Edges.{HasDistinctIds}
use pi_persona.Orchestration.Flow.Missing.{includes-snoc}
use pi_persona.Orchestration.Flow.Order.{IsTopological, IsAnswer, topo_order-IsAnswer}

abbrev HasId : Text → Outcome FlowError FlowPhase → Type 0
HasId id (error e) = Unit
HasId id (ok p) = p.id ≡ id

parse_body-HasId : (raw : RawPhase) (id : Text) → HasId id (parse_body raw id)
unfolding parse_body
parse_body-HasId raw id =
    elim (filled_text raw.strategy)
      as (λ o. HasId id (elim o [
        | none ↦ error (phase_without_strategy id)
        | some strategy ↦ elim (parse_needs id raw.needs) [
          | error e ↦ error e
          | ok needs ↦ ok (record {
            id = id;
            strategy = strategy;
            roster = filled_text raw.roster;
            needs = needs;
            params = raw.params;
            gate = raw.gate;
          })
        ]
      ])) [
        | none ↦ tt
        | some strategy ↦
            elim (parse_needs id raw.needs)
              as (λ o. HasId id (elim o [
                | error e ↦ error e
                | ok needs ↦ ok (record {
                  id = id;
                  strategy = strategy;
                  roster = filled_text raw.roster;
                  needs = needs;
                  params = raw.params;
                  gate = raw.gate;
                })
              ])) [ error e ↦ tt | ok needs ↦ refl ]
      ]

-- A phase is read only where its id is new.
parse_phase_new :
    (i : ℕ) (seen : List Text) (raw : Option RawPhase) (p : FlowPhase)
    → parse_phase i seen raw ≡ ok p
    → includes seen p.id ≡ false
unfolding parse_phase
parse_phase_new i seen none p h = absurd (cc)
parse_phase_new i seen (some raw) p h = new_from (filled_text raw.id) h
  where
    new_from :
        (o : Option Text)
        → (elim o [
          | none ↦ error (phase_without_id i)
          | some id ↦ if includes seen id then error (duplicate_phase id) else parse_body raw id
        ])
          ≡ ok p
        → includes seen p.id ≡ false
    new_from none h = absurd (cc)
    new_from (some id) h = elim (Bool-cases (includes seen id)) [
      | inl old ↦ absurd (let k : error (duplicate_phase id) ≡ ok p = rw old at h in cc)
      | inr new ↦
          let k : parse_body raw id ≡ ok p = rw new at h in
          let own : p.id ≡ id = subst (HasId id) k (parse_body-HasId raw id) in
          subst (λ x. includes seen x ≡ false) (sym own) new
    ]

cons_of :
    (q : FlowPhase) (o : Outcome FlowError (List FlowPhase)) (phases : List FlowPhase)
    → (elim o [ error e ↦ error e | ok r ↦ ok (q ∷ r) ]) ≡ ok phases
    → (r : List FlowPhase) × (o ≡ ok r) × (q ∷ r ≡ phases)
cons_of q (error e) phases h = absurd (cc)
cons_of q (ok r) phases h = (r, refl, cc)

ok-injective : {f g : FlowSpec} → (h : ◌≡◌ {A = Outcome FlowError FlowSpec} (ok f) (ok g)) → f ≡ g
ok-injective {f} {g} h = cc

parse_phases_distinct :
    (i : ℕ) (seen : List Text) (raws : List (Option RawPhase)) (phases : List FlowPhase)
    → parse_phases i seen raws ≡ ok phases
    → HasDistinctIds phases × All (λ p. includes seen p.id ≡ false) phases
unfolding parse_phases
parse_phases_distinct i seen [] phases h =
    let e : [] ≡ phases = cc in
    subst (λ ps. HasDistinctIds ps × All (λ p. includes seen p.id ≡ false) ps) e (tt, tt)
parse_phases_distinct i seen (raw ∷ raws) phases h =
    first_from (parse_phase i seen raw) refl h
      (λ q ps e. parse_phases_distinct (i + 1) (seen ++ (q.id ∷ [])) raws ps e)
  where
    first_from :
        (o : Outcome FlowError FlowPhase)
        → parse_phase i seen raw ≡ o
        → (elim o [
          | error e ↦ error e
          | ok phase ↦ elim (parse_phases (i + 1) (seen ++ (phase.id ∷ [])) raws) [
            | error e ↦ error e
            | ok phases ↦ ok (phase ∷ phases)
          ]
        ])
          ≡ ok phases
        → ((q : FlowPhase) (ps : List FlowPhase)
            → parse_phases (i + 1) (seen ++ (q.id ∷ [])) raws ≡ ok ps
            → HasDistinctIds ps × All (λ p. includes (seen ++ (q.id ∷ [])) p.id ≡ false) ps)
        → HasDistinctIds phases × All (λ p. includes seen p.id ≡ false) phases
    first_from (error e) k h rest = absurd (cc)
    first_from (ok q) k h rest =
        let (r, e, same) = cons_of q (parse_phases (i + 1) (seen ++ (q.id ∷ [])) raws) phases h in
        let (apart, new) = rest q r e in
        let split : All (λ p. (text_eq q.id p.id ≡ false) × (includes seen p.id ≡ false)) r =
          All-mono (λ p n. ground (arith, includes-snoc seen q.id p.id, n)) r new in
        subst (λ ps. HasDistinctIds ps × All (λ p. includes seen p.id ≡ false) ps) same
          (
            (All-mono (λ p n. n.0) r split, apart),
            (parse_phase_new i seen raw q k, All-mono (λ p n. n.1) r split),
          )

parse_phase_list_distinct :
    (raws : Option (List (Option RawPhase))) (phases : List FlowPhase)
    → parse_phase_list raws ≡ ok phases
    → HasDistinctIds phases
unfolding parse_phase_list
parse_phase_list_distinct none phases h = absurd (cc)
parse_phase_list_distinct (some []) phases h = absurd (cc)
parse_phase_list_distinct (some (raw ∷ raws)) phases h =
    (parse_phases_distinct 0 [] (raw ∷ raws) phases h).0

-- A flow that is parsed has phases that an order was found for.
finish_flow-ordered :
    (raw : RawFlow) (name : Text) (phases : List FlowPhase) (flow : FlowSpec)
    → finish_flow raw name phases ≡ ok flow
    → (order : List Text) × (topo_order phases ≡ ok order) × (phases ≡ flow.phases)
unfolding finish_flow
finish_flow-ordered raw name phases flow h = ordered_from (topo_order phases) refl h
  where
    handed_on :
        (o : Outcome FlowError (Option Handoff))
        → (elim o [
          | error e ↦ error e
          | ok handoff ↦ ok (record {
            name = name;
            description = raw.description;
            handoff = handoff;
            phases = phases;
          })
        ])
          ≡ ok flow
        → phases ≡ flow.phases
    handed_on (error e) h = absurd (cc)
    handed_on (ok handoff) h = ap FlowSpec.phases (ok-injective h)

    ordered_from :
        (o : Outcome FlowError (List Text))
        → topo_order phases ≡ o
        → (elim o [
          | error e ↦ error e
          | ok order ↦ elim (parse_handoff raw.handoff) [
            | error e ↦ error e
            | ok handoff ↦ ok (record {
              name = name;
              description = raw.description;
              handoff = handoff;
              phases = phases;
            })
          ]
        ])
          ≡ ok flow
        → (order : List Text) × (topo_order phases ≡ ok order) × (phases ≡ flow.phases)
    ordered_from (error e) k h = absurd (cc)
    ordered_from (ok order) k h = (order, k, handed_on (parse_handoff raw.handoff) h)

abbrev IsRunnable : FlowSpec → Type 0
IsRunnable flow =
    HasDistinctIds flow.phases
    × ((order : List Text) × (topo_order flow.phases ≡ ok order) × IsTopological flow.phases order)

-- The phases of a flow that is parsed have ids that differ, and they can be ordered: their order, which
-- the code computes, holds each phase once and nothing else, each behind all that it needs.
pub parse_flow-IsRunnable :
    (file : RawFile) (flow : FlowSpec)
    → parse_flow file ≡ ok flow
    → HasDistinctIds flow.phases
      × ((order : List Text) × (topo_order flow.phases ≡ ok order)
          × IsTopological flow.phases order)
unfolding parse_flow
parse_flow-IsRunnable no_json flow h = absurd (cc)
parse_flow-IsRunnable no_object flow h = absurd (cc)
parse_flow-IsRunnable (object raw) flow h = named (filled_text raw.name) h
  where
    listed :
        (name : Text) (o : Outcome FlowError (List FlowPhase))
        → parse_phase_list raw.phases ≡ o
        → (elim o [ error e ↦ error e | ok phases ↦ finish_flow raw name phases ]) ≡ ok flow
        → IsRunnable flow
    listed name (error e) k h = absurd (cc)
    listed name (ok phases) k h =
        let distinct = parse_phase_list_distinct raw.phases phases k in
        let (order, e, same) = finish_flow-ordered raw name phases flow h in
        let good : IsTopological phases order =
          subst (IsAnswer phases) e (topo_order-IsAnswer phases distinct) in
        subst
          (λ ps.
            HasDistinctIds ps
            × ((order : List Text) × (topo_order ps ≡ ok order) × IsTopological ps order))
          same (distinct, (order, e, good))

    named :
        (o : Option Text)
        → (elim o [
          | none ↦ error no_name
          | some name ↦ elim (parse_phase_list raw.phases) [
            | error e ↦ error e
            | ok phases ↦ finish_flow raw name phases
          ]
        ])
          ≡ ok flow
        → IsRunnable flow
    named none h = absurd (cc)
    named (some name) h = listed name (parse_phase_list raw.phases) refl h
