-- ===== src/Exocom/Collaboration/Transitions/Lifecycle.antt =====
-- The life of a task: each accepted event moves it at most one step, and what has ended or was lost
-- stays as it is.
use pi_persona.Base.{
  ◌≡◌, refl, sym, subst, ap, ◌∙◌, ◌≢◌, inl, inr, true, some, List, [], ◌∷◌, ◌++◌, arith, Text,
  text_eq, text_eq_iff, ok, Bool-cases,
}
use pi_persona.Exocom.Frames.{WorkFrame}
use pi_persona.Exocom.Collaboration.{
  CollaborationTask, CollaborationState, Runtime, Status, opened, taken, stale, ended,
  collaboration_status, find_task, replace_task, new_task,
}
use pi_persona.Exocom.Collaboration.Transitions.{apply_collaboration_event}
use pi_persona.Exocom.Collaboration.Transitions.Changes.{
  Step, take, observe, end, Change, keep, create, update, transition-Change,
}

Step-created : {t t' : CollaborationTask} {e : WorkFrame} → Step t e t' → t'.created ≡ t.created
Step-created (take e o i k) = refl
Step-created (observe e h w) = refl
Step-created (end e h w) = refl

module _ (key : Text) where
  find_task-append :
      (tasks : List CollaborationTask) (t n : CollaborationTask)
      → find_task key tasks ≡ some t
      → find_task key (tasks ++ (n ∷ [])) ≡ some t
  unfolding find_task
  find_task-append [] t n e = cc
  find_task-append (u ∷ tasks) t n e = ground (arith, find_task-append tasks t n)

  find_task-replace_own :
      (tasks : List CollaborationTask) (t t' : CollaborationTask)
      → t'.created.head.work_key ≡ key
      → find_task key tasks ≡ some t
      → find_task key (replace_task key t' tasks) ≡ some t'
  unfolding find_task replace_task
  find_task-replace_own [] t t' k e = cc
  find_task-replace_own (u ∷ tasks) t t' k e =
      ground (arith, text_eq_iff t'.created.head.work_key key, find_task-replace_own tasks t t' k)

  find_task-replace_other :
      (j : Text) (tasks : List CollaborationTask) (t' : CollaborationTask)
      → t'.created.head.work_key ≡ j
      → j ≢ key
      → find_task key (replace_task j t' tasks) ≡ find_task key tasks
  unfolding find_task replace_task
  find_task-replace_other j [] t' k n = refl
  find_task-replace_other j (u ∷ tasks) t' k n = ground (
    arith,
    text_eq_iff u.created.head.work_key j,
    text_eq_iff u.created.head.work_key key,
    text_eq_iff t'.created.head.work_key key,
    find_task-replace_other j tasks t' k n,
  )

-- At most one step, by this event.
pub data AtMostStep (e : WorkFrame) : CollaborationTask → CollaborationTask → Type 0 where
  rests : {t : CollaborationTask} → AtMostStep e t t
  moves : {t t' : CollaborationTask} → Step t e t' → AtMostStep e t t'

Change-AtMostStep :
    (key : Text) (e : WorkFrame) (tasks tasks' : List CollaborationTask) (t : CollaborationTask)
    → Change tasks e tasks'
    → find_task key tasks ≡ some t
    → (t' : CollaborationTask) × (find_task key tasks' ≡ some t') × AtMostStep e t t'
Change-AtMostStep key ev tasks _ t keep e = (t, e, rests)
Change-AtMostStep key ev tasks _ t (create n free) e =
    (t, find_task-append key tasks t (new_task n) e, rests)
Change-AtMostStep key ev tasks _ t (update u u' held st) e =
    elim (Bool-cases (text_eq u.created.head.work_key key)) [
      | inl same ↦
          let k : u.created.head.work_key ≡ key =
            (text_eq_iff u.created.head.work_key key).0 same in
          let k' : u'.created.head.work_key ≡ key =
            ap (λ c. c.head.work_key) (Step-created st) ∙ k in
          let one : some t ≡ some u = sym e ∙ subst (λ j. find_task j tasks ≡ some u) k held in
          let one' : t ≡ u = cc in
          (
            u',
            subst (λ j. find_task key (replace_task j u' tasks) ≡ some u') (sym k)
                (find_task-replace_own key tasks t u' k' e),
            subst (λ x. AtMostStep ev x u') (sym one') (moves st),
          )
      | inr other ↦
          let n : u.created.head.work_key ≢ key =
            λ h. ground (arith, text_eq_iff u.created.head.work_key key) in
          let k' : u'.created.head.work_key ≡ u.created.head.work_key =
            ap (λ c. c.head.work_key) (Step-created st) in
          (t, find_task-replace_other key u.created.head.work_key tasks u' k' n ∙ e, rests)
    ]

-- An accepted event leaves every task in place, as it was or one step on: it is taken only while it is
-- open, and only its taker reports on it or finishes it, while it is taken.
pub apply_collaboration_event-AtMostStep :
    (rt : Runtime) (s : CollaborationState) (e : WorkFrame) (s' : CollaborationState) (key : Text)
    (t : CollaborationTask)
    → apply_collaboration_event rt s e ≡ ok s'
    → find_task key s.tasks ≡ some t
    → (t' : CollaborationTask) × (find_task key s'.tasks ≡ some t') × AtMostStep e t t'
unfolding apply_collaboration_event
apply_collaboration_event-AtMostStep rt s e s' key t h f =
    Change-AtMostStep key e s.tasks s'.tasks t (transition-Change rt s e true s' h) f

-- The status allows no further event.
abbrev pub IsOver : Status → Type 0
IsOver opened = ⊥
IsOver taken = ⊥
IsOver stale = Unit
IsOver (ended o) = Unit

AtMostStep-IsOver :
    {e : WorkFrame} {t t' : CollaborationTask}
    → AtMostStep e t t'
    → IsOver (collaboration_status t)
    → t' ≡ t
AtMostStep-IsOver rests o = refl
AtMostStep-IsOver (moves (take e h i k)) o = absurd (rw h at o)
AtMostStep-IsOver (moves (observe e h w)) o = absurd (rw h at o)
AtMostStep-IsOver (moves (end e h w)) o = absurd (rw h at o)

-- A task that is done, abandoned or stale stays exactly as it is under every accepted event.
pub apply_collaboration_event-IsOver :
    (rt : Runtime) (s : CollaborationState) (e : WorkFrame) (s' : CollaborationState) (key : Text)
    (t : CollaborationTask)
    → apply_collaboration_event rt s e ≡ ok s'
    → find_task key s.tasks ≡ some t
    → IsOver (collaboration_status t)
    → find_task key s'.tasks ≡ some t
apply_collaboration_event-IsOver rt s e s' key t h f o =
    let (t', f', st) = apply_collaboration_event-AtMostStep rt s e s' key t h f in
    f' ∙ ap some (AtMostStep-IsOver st o)
