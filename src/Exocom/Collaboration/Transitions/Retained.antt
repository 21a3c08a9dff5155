-- ===== src/Exocom/Collaboration/Transitions/Retained.antt =====
-- Which event a list of tasks, offers or evidence holds under an id, after one change to it.
use pi_persona.Base.{
  ◌≡◌, refl, sym, subst, ◌∙◌, ◌⊎◌, inl, inr, Option, none, some, List, [], ◌∷◌, ◌++◌, arith, Text,
  text_eq, Bool-cases,
}
use pi_persona.Exocom.Frames.{
  TaskCreate, Offer, Publish, WorkFrame, task_create, offer, publish, SemanticFrame, work,
}
use pi_persona.Exocom.Collaboration.{
  CollaborationTask, find_task, replace_task, new_task, or_frame, keep_if, task_event, tasks_event,
  offers_event, evidence_event,
}
use pi_persona.Exocom.Collaboration.Transitions.Changes.{
  Step, take, observe, end, Change, keep, create, update,
}

pub or_frame-none : (a b : Option SemanticFrame) → or_frame a b ≡ none → (a ≡ none) × (b ≡ none)
unfolding or_frame
or_frame-none none b h = (refl, h)
or_frame-none (some x) b h = cc

pub or_frame-some :
    (a b : Option SemanticFrame) (h : SemanticFrame)
    → or_frame a b ≡ some h
    → (a ≡ some h) ⊎ (b ≡ some h)
unfolding or_frame
or_frame-some none b h e = inr e
or_frame-some (some x) b h e = inl e

module _ (id : Text) where
  new_task-event :
      (e : TaskCreate) (h : SemanticFrame)
      → task_event id (new_task e) ≡ some h
      → h ≡ work (task_create e)
  unfolding task_event or_frame keep_if
  new_task-event e h k = ground arith

  Step-event :
      {t t' : CollaborationTask} {e : WorkFrame} (h : SemanticFrame)
      → Step t e t'
      → task_event id t ≡ none
      → task_event id t' ≡ some h
      → h ≡ work e
  unfolding task_event or_frame keep_if
  Step-event h (take e o i k) n s = ground arith
  Step-event h (observe e o w) n s = ground arith
  Step-event h (end e o w) n s = ground arith

  tasks_event-append :
      (tasks : List CollaborationTask) (n : CollaborationTask) (h : SemanticFrame)
      → tasks_event id tasks ≡ none
      → tasks_event id (tasks ++ (n ∷ [])) ≡ some h
      → task_event id n ≡ some h
  unfolding tasks_event
  tasks_event-append [] n h f k = elim (or_frame-some (task_event id n) none h k) [
    | inl e ↦ e
    | inr e ↦ cc
  ]
  tasks_event-append (t ∷ tasks) n h f k =
      let (own, rest) = or_frame-none (task_event id t) (tasks_event id tasks) f in
      elim (or_frame-some (task_event id t) (tasks_event id (tasks ++ (n ∷ []))) h k) [
        | inl e ↦ let no : none ≡ some h = sym own ∙ e in cc
        | inr e ↦ tasks_event-append tasks n h rest e
      ]

  tasks_event-find :
      (key : Text) (tasks : List CollaborationTask) (t : CollaborationTask)
      → tasks_event id tasks ≡ none
      → find_task key tasks ≡ some t
      → task_event id t ≡ none
  unfolding tasks_event find_task
  tasks_event-find key [] t f e = cc
  tasks_event-find key (u ∷ tasks) t f e =
      let (own, rest) = or_frame-none _ _ f in
      elim (Bool-cases (text_eq u.created.head.work_key key)) [
        | inl here ↦ let same : u ≡ t = ground arith in subst (λ x. task_event id x ≡ none) same own
        | inr there ↦ tasks_event-find key tasks t rest (rw there at e)
      ]

  tasks_event-replace :
      (key : Text) (t' : CollaborationTask) (tasks : List CollaborationTask) (h : SemanticFrame)
      → tasks_event id tasks ≡ none
      → tasks_event id (replace_task key t' tasks) ≡ some h
      → task_event id t' ≡ some h
  unfolding tasks_event replace_task
  tasks_event-replace key t' [] h f k = cc
  tasks_event-replace key t' (u ∷ tasks) h f k =
      let (own, rest) = or_frame-none _ _ f in
      elim (Bool-cases (text_eq u.created.head.work_key key)) [
        | inl here ↦ elim (or_frame-some _ _ h (rw here at k)) [
          | inl e ↦ e
          | inr e ↦ let no : none ≡ some h = sym rest ∙ e in cc
        ]
        | inr there ↦ elim (or_frame-some _ _ h (rw there at k)) [
          | inl e ↦ let no : none ≡ some h = sym own ∙ e in cc
          | inr e ↦ tasks_event-replace key t' tasks h rest e
        ]
      ]

  pub Change-event :
      (tasks tasks' : List CollaborationTask) (e : WorkFrame) (h : SemanticFrame)
      → Change tasks e tasks'
      → tasks_event id tasks ≡ none
      → tasks_event id tasks' ≡ some h
      → h ≡ work e
  Change-event tasks _ e h keep f k = let no : none ≡ some h = sym f ∙ k in cc
  Change-event tasks _ _ h (create e free) f k =
      new_task-event e h (tasks_event-append tasks (new_task e) h f k)
  Change-event tasks _ e h (update t t' found st) f k =
      Step-event h st (tasks_event-find t.created.head.work_key tasks t f found)
        (tasks_event-replace t.created.head.work_key t' tasks h f k)

  pub offers_event-append :
      (offers : List Offer) (o : Offer) (h : SemanticFrame)
      → offers_event id offers ≡ none
      → offers_event id (offers ++ (o ∷ [])) ≡ some h
      → h ≡ work (offer o)
  unfolding offers_event
  offers_event-append [] o h f k = ground arith
  offers_event-append (p ∷ offers) o h f k = ground (arith, offers_event-append offers o h)

  pub evidence_event-append :
      (es : List Publish) (p : Publish) (h : SemanticFrame)
      → evidence_event id es ≡ none
      → evidence_event id (es ++ (p ∷ [])) ≡ some h
      → h ≡ work (publish p)
  unfolding evidence_event
  evidence_event-append [] p h f k = ground arith
  evidence_event-append (q ∷ es) p h f k = ground (arith, evidence_event-append es p h)
