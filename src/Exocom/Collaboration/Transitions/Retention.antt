-- ===== src/Exocom/Collaboration/Transitions/Retention.antt =====
-- The facts that a state retains: an accepted event adds itself to them and nothing else.
use pi_persona.Base.{
  ◌≡◌, refl, sym, ap, ◌∙◌, ◌⊎◌, inl, inr, Bool, true, ◌||◌, none, some, List, [], ◌∷◌, ◌++◌, map,
  arith, Text, Outcome, error, ok, Bool-cases, Option-cases, is_some,
}
use pi_persona.Exocom.Frames.{
  TaskCreate, TaskTake, TaskFinish, Offer, Publish, Progress, WorkFrame, task_create, task_take,
  task_finish, offer, publish, progress, SemanticFrame, work,
}
use pi_persona.Exocom.Collaboration.{
  CollaborationTask, CollaborationState, Runtime, WorkError, find_task, task_event, tasks_event,
  offers_event, evidence_event, retained_collaboration_event, Moment, task_exists,
}
use pi_persona.Exocom.Collaboration.Transitions.{
  transition, apply_collaboration_event, lose_task, release_collaboration, create_task, make_offer,
  update_task, take_task, report, finish_task, next_state, is_plain,
}
use pi_persona.Exocom.Collaboration.Transitions.Changes.{transition-Change, on_task-ok, checked-ok}
use pi_persona.Exocom.Collaboration.Transitions.Retained.{
  or_frame-none, or_frame-some, Change-event, offers_event-append, evidence_event-append,
}

-- What an event adds to the offers and the evidence.
data Facts (s : CollaborationState) : WorkFrame → CollaborationState → Type 0 where
  no_more :
      {e : WorkFrame} {s' : CollaborationState}
      → s'.offers ≡ s.offers
      → s'.evidence ≡ s.evidence
      → Facts s e s'
  offered :
      (o : Offer) {s' : CollaborationState}
      → s'.offers ≡ s.offers ++ (o ∷ [])
      → s'.evidence ≡ s.evidence
      → Facts s (offer o) s'
  published :
      (p : Publish) {s' : CollaborationState}
      → s'.offers ≡ s.offers
      → s'.evidence ≡ s.evidence ++ (p ∷ [])
      → Facts s (publish p) s'

module _ (rt : Runtime) (s : CollaborationState) where
  take_task-Facts :
      (t : CollaborationTask) (e : TaskTake) (s' : CollaborationState)
      → take_task rt s t e ≡ ok s'
      → Facts s (task_take e) s'
  unfolding take_task update_task
  take_task-Facts t e s' h = no_more (ground arith) (ground arith)

  report-Facts :
      (t : CollaborationTask) (e : Progress) (s' : CollaborationState)
      → report rt s t e ≡ ok s'
      → Facts s (progress e) s'
  unfolding report update_task
  report-Facts t e s' h = no_more (ground arith) (ground arith)

  finish_task-Facts :
      (t : CollaborationTask) (e : TaskFinish) (s' : CollaborationState)
      → finish_task rt s t e ≡ ok s'
      → Facts s (task_finish e) s'
  unfolding finish_task update_task
  finish_task-Facts t e s' h = no_more (ground arith) (ground arith)

  make_offer-Facts :
      (t : CollaborationTask) (e : Offer) (s' : CollaborationState)
      → make_offer rt s t e ≡ ok s'
      → Facts s (offer e) s'
  unfolding make_offer
  make_offer-Facts t e s' h = offered e (ground arith) (ground arith)

  create_task-Facts :
      (e : TaskCreate) (s' : CollaborationState)
      → create_task rt s e ≡ ok s'
      → Facts s (task_create e) s'
  unfolding create_task
  create_task-Facts e s' h = no_more (ground arith) (ground arith)

  publish-Facts :
      (e : Publish) (s' : CollaborationState)
      → (let next : Outcome WorkError CollaborationState =
            ok (record s { evidence = s.evidence ++ (e ∷ []) }) in
          next ≡ ok s')
      → Facts s (publish e) s'
  publish-Facts e s' h = published e (ground arith) (ground arith)

  next_state-Facts :
      (e : WorkFrame) (s' : CollaborationState) → next_state rt s e ≡ ok s' → Facts s e s'
  unfolding next_state
  next_state-Facts (task_create e) s' h = elim (Option-cases (find_task e.head.work_key s.tasks)) [
    | inl n ↦ create_task-Facts e s' (rw (n, next_state) at h)
    | inr (x, n) ↦ let no : error task_exists ≡ ok s' = rw (n, next_state) at h in cc
  ]
  next_state-Facts (publish e) s' h =
      let (t, f, key, id, next) = on_task-ok rt s e.head.work_key e.task_id _ s' h in
      publish-Facts e s' next
  next_state-Facts (offer e) s' h =
      let (t, f, key, id, next) = on_task-ok rt s e.head.work_key e.task_id _ s' h in
      make_offer-Facts t e s' next
  next_state-Facts (task_take e) s' h =
      let (t, f, key, id, next) = on_task-ok rt s e.head.work_key e.task_id _ s' h in
      take_task-Facts t e s' next
  next_state-Facts (task_finish e) s' h =
      let (t, f, key, id, next) = on_task-ok rt s e.head.work_key e.task_id _ s' h in
      finish_task-Facts t e s' next
  next_state-Facts (progress e) s' h = elim (Option-cases e.task_id) [
    | inl n ↦
        let h' : (let next : Outcome WorkError CollaborationState = ok s in next ≡ ok s') =
          rw (n, next_state) at h in
        let same : s ≡ s' = cc in rw (← same) (no_more refl refl)
    | inr (task_id, n) ↦
        let (t, f, key, id, next) =
          on_task-ok rt s e.head.work_key task_id _ s' (rw (n, next_state) at h) in
        report-Facts t e s' next
  ]

  transition-Facts :
      (e : WorkFrame) (b : Bool) (s' : CollaborationState)
      → transition rt s e b ≡ ok s'
      → Facts s e s'
  unfolding transition
  transition-Facts e b s' h = elim (Bool-cases (is_plain rt e)) [
    | inl p ↦ let same : s ≡ s' = ground arith in rw (← same) (no_more refl refl)
    | inr p ↦ next_state-Facts e s' (checked-ok rt s b (next_state rt s e) s' (ground arith)).0
  ]

Facts-event :
    (id : Text) (s s' : CollaborationState) (e : WorkFrame) (h : SemanticFrame)
    → Facts s e s'
    → offers_event id s.offers ≡ none
    → evidence_event id s.evidence ≡ none
    → (offers_event id s'.offers ≡ some h) ⊎ (evidence_event id s'.evidence ≡ some h)
    → h ≡ work e
Facts-event id s s' e h (no_more o p) n m (inl k) =
    let no : none ≡ some h = sym n ∙ sym (ap (offers_event id) o) ∙ k in cc
Facts-event id s s' e h (no_more o p) n m (inr k) =
    let no : none ≡ some h = sym m ∙ sym (ap (evidence_event id) p) ∙ k in cc
Facts-event id s s' _ h (offered x o p) n m (inl k) =
    offers_event-append id s.offers x h n (rw o at k)
Facts-event id s s' _ h (offered x o p) n m (inr k) =
    let no : none ≡ some h = sym m ∙ sym (ap (evidence_event id) p) ∙ k in cc
Facts-event id s s' _ h (published x o p) n m (inl k) =
    let no : none ≡ some h = sym n ∙ sym (ap (offers_event id) o) ∙ k in cc
Facts-event id s s' _ h (published x o p) n m (inr k) =
    evidence_event-append id s.evidence x h m (rw p at k)

transition-retained :
    (rt : Runtime) (s : CollaborationState) (e : WorkFrame) (b : Bool) (s' : CollaborationState)
    (id : Text) (h : SemanticFrame)
    → transition rt s e b ≡ ok s'
    → retained_collaboration_event s id ≡ none
    → retained_collaboration_event s' id ≡ some h
    → h ≡ work e
unfolding retained_collaboration_event
transition-retained rt s e b s' id h k n m =
    let (no_task, no_fact) = or_frame-none _ _ n in
    let (no_offer, no_evidence) = or_frame-none _ _ no_fact in
    let facts = transition-Facts rt s e b s' k in
    elim (or_frame-some _ _ h m) [
      | inl of_task ↦
          Change-event id s.tasks s'.tasks e h (transition-Change rt s e b s' k) no_task of_task
      | inr of_fact ↦
          Facts-event id s s' e h facts no_offer no_evidence (or_frame-some _ _ h of_fact)
    ]

-- If no fact of an id is retained before an accepted event and one is after it, that one is the event.
pub apply_collaboration_event-retained :
    (rt : Runtime) (s : CollaborationState) (e : WorkFrame) (s' : CollaborationState) (id : Text)
    (h : SemanticFrame)
    → apply_collaboration_event rt s e ≡ ok s'
    → retained_collaboration_event s id ≡ none
    → retained_collaboration_event s' id ≡ some h
    → h ≡ work e
unfolding apply_collaboration_event
apply_collaboration_event-retained rt s e s' id h = transition-retained rt s e true s' id h

-- A release changes no event that is retained.
lose_task-event :
    (id : Text) (keeps : CollaborationTask → Bool) (now : Moment) (t : CollaborationTask)
    → task_event id (lose_task keeps now t) ≡ task_event id t
unfolding lose_task task_event
lose_task-event id keeps now t = elim (Bool-cases (is_some t.finished || t.stale || keeps t)) [
  | inl h ↦ rw h refl
  | inr h ↦ rw h refl
]

tasks_event-lose :
    (id : Text) (keeps : CollaborationTask → Bool) (now : Moment) (tasks : List CollaborationTask)
    → tasks_event id (map (lose_task keeps now) tasks) ≡ tasks_event id tasks
unfolding tasks_event
tasks_event-lose id keeps now [] = refl
tasks_event-lose id keeps now (t ∷ tasks) =
    rw (lose_task-event id keeps now t, tasks_event-lose id keeps now tasks)

pub release-retained :
    (s : CollaborationState) (session work_key : Text) (now : Moment) (id : Text)
    → retained_collaboration_event (release_collaboration s session work_key now) id
      ≡ retained_collaboration_event s id
unfolding retained_collaboration_event release_collaboration
release-retained s session work_key now id = rw (tasks_event-lose id _ now s.tasks)
