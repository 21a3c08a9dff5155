-- ===== src/Exocom/Collaboration/Transitions/Changes.antt =====
-- What an event does to the list of tasks: it keeps it, adds a task of a new work key, or moves one task
-- a step on.
use pi_persona.Base.{
  ◌≡◌, sym, ap, inl, inr, Bool, true, none, some, List, [], ◌∷◌, ◌++◌, arith, Text, text_eq,
  text_eq_iff, Outcome, error, ok, Bool-cases, Option-cases,
}
use pi_persona.Exocom.Frames.{
  TaskCreate, TaskTake, TaskFinish, Offer, Progress, WorkFrame, task_create, task_take, task_finish,
  offer, publish, progress,
}
use pi_persona.Exocom.Collaboration.{
  CollaborationTask, CollaborationState, Runtime, opened, taken, status_of, collaboration_status,
  is_open, is_taken, task_owner, find_task, replace_task, WorkError, unknown_task, task_exists,
  bad_task_path, new_task, earlier,
}
use pi_persona.Exocom.Collaboration.Transitions.{
  task_path_error, create_task, make_offer, update_task, take_task, may_report, report, finish_task,
  act, on_task, next_state, is_plain, checked, bounded, transition, last_observed,
}

-- One step of a task's life: it is taken while it is open, and its taker reports progress or finishes
-- it while it is taken; the event that takes it names this very task.
pub data Step : CollaborationTask → WorkFrame → CollaborationTask → Type 0 where
  take :
      {t : CollaborationTask} (e : TaskTake)
      → collaboration_status t ≡ opened
      → e.task_id ≡ t.created.head.msg_id
      → e.head.work_key ≡ t.created.head.work_key
      → Step t (task_take e) (record t { taken = some e })
  observe :
      {t : CollaborationTask} (e : Progress)
      → collaboration_status t ≡ taken
      → task_owner t ≡ e.head.from_session
      → Step t (progress e) (record t { progress = some e })
  end :
      {t : CollaborationTask} (e : TaskFinish)
      → collaboration_status t ≡ taken
      → task_owner t ≡ e.head.from_session
      → Step t (task_finish e) (record t { finished = some e })

pub data Change (tasks : List CollaborationTask) : WorkFrame → List CollaborationTask → Type 0 where
  keep : {e : WorkFrame} → Change tasks e tasks
  create :
      (e : TaskCreate)
      → find_task e.head.work_key tasks ≡ none
      → Change tasks (task_create e) (tasks ++ (new_task e ∷ []))
  update :
      {e : WorkFrame} (t t' : CollaborationTask)
      → find_task t.created.head.work_key tasks ≡ some t
      → Step t e t'
      → Change tasks e (replace_task t.created.head.work_key t' tasks)

find_task-key :
    (key : Text) (tasks : List CollaborationTask) (t : CollaborationTask)
    → find_task key tasks ≡ some t
    → t.created.head.work_key ≡ key
unfolding find_task
find_task-key key [] t e = cc
find_task-key key (u ∷ tasks) t e = elim (Bool-cases (text_eq u.created.head.work_key key)) [
  | inl h ↦
      let same : u ≡ t = ground arith in rw (← same) ((text_eq_iff u.created.head.work_key key).0 h)
  | inr h ↦ find_task-key key tasks t (rw h at e)
]

status-opened :
    (t : CollaborationTask)
    → is_open (collaboration_status t) ≡ true
    → collaboration_status t ≡ opened
unfolding is_open status_of
status-opened t h = ground arith

status-taken :
    (t : CollaborationTask)
    → is_taken (collaboration_status t) ≡ true
    → collaboration_status t ≡ taken
unfolding is_taken status_of
status-taken t h = ground arith

module _ (rt : Runtime) (s : CollaborationState) where
  moved :
      (e : WorkFrame) (t t' : CollaborationTask) (s' : CollaborationState)
      → find_task t.created.head.work_key s.tasks ≡ some t
      → Step t e t'
      → (let next : Outcome WorkError CollaborationState =
            ok (record s { tasks = replace_task t.created.head.work_key t' s.tasks }) in
          next ≡ ok s')
      → Change s.tasks e s'.tasks
  moved e t t' s' f st h =
      let same : record s { tasks = replace_task t.created.head.work_key t' s.tasks } ≡ s' = cc in
      rw (← same) (update t t' f st)

  may_report-owner :
      (t : CollaborationTask) (session : Text)
      → may_report rt t session ≡ true
      → (collaboration_status t ≡ taken) × (task_owner t ≡ session)
  unfolding may_report
  may_report-owner t session h =
      (status-taken t (ground arith), ground (arith, text_eq_iff (task_owner t) session))

  named :
      (t : CollaborationTask) (id : Text) (next : Outcome WorkError CollaborationState)
      (s' : CollaborationState)
      → act rt s t id next ≡ ok s'
      → id ≡ t.created.head.msg_id
  unfolding act
  named t id next s' h = ground (arith, text_eq_iff id t.created.head.msg_id)

  followed :
      (t : CollaborationTask) (id : Text) (next : Outcome WorkError CollaborationState)
      (s' : CollaborationState)
      → act rt s t id next ≡ ok s'
      → next ≡ ok s'
  unfolding act
  followed t id next s' h = ground arith

  -- What an event on a task went through before its own rules.
  pub on_task-ok :
      (key id : Text) (next : CollaborationTask → Outcome WorkError CollaborationState)
      (s' : CollaborationState)
      → on_task rt s key id next ≡ ok s'
      → (t : CollaborationTask) × (find_task key s.tasks ≡ some t)
        × (t.created.head.work_key ≡ key)
        × (id ≡ t.created.head.msg_id)
        × (next t ≡ ok s')
  unfolding on_task act
  on_task-ok key id next s' h = elim (Option-cases (find_task key s.tasks)) [
    | inl e ↦ let no : error unknown_task ≡ ok s' = rw (e, on_task) at h in cc
    | inr (t, e) ↦
        let h' : act rt s t id (next t) ≡ ok s' = rw (e, on_task) at h in
        (
          t,
          e,
          find_task-key key s.tasks t e,
          named t id (next t) s' h',
          followed t id (next t) s' h',
        )
  ]

  take_task-Change :
      (t : CollaborationTask) (e : TaskTake) (s' : CollaborationState)
      → find_task t.created.head.work_key s.tasks ≡ some t
      → e.task_id ≡ t.created.head.msg_id
      → e.head.work_key ≡ t.created.head.work_key
      → take_task rt s t e ≡ ok s'
      → Change s.tasks (task_take e) s'.tasks
  unfolding take_task update_task
  take_task-Change t e s' f id key h = elim (Bool-cases (is_open (collaboration_status t))) [
    | inl o ↦
        moved (task_take e) t (record t { taken = some e }) s' f (take e (status-opened t o) id key)
          (rw o at h)
    | inr o ↦ absurd (ground arith)
  ]

  report-Change :
      (t : CollaborationTask) (e : Progress) (s' : CollaborationState)
      → find_task t.created.head.work_key s.tasks ≡ some t
      → report rt s t e ≡ ok s'
      → Change s.tasks (progress e) s'.tasks
  unfolding report update_task
  report-Change t e s' f h = elim (Bool-cases (may_report rt t e.head.from_session)) [
    | inl o ↦ elim (Bool-cases (earlier (rt.parse_time e.head.ts) (last_observed rt t))) [
      | inl old ↦ absurd (ground arith)
      | inr new ↦
          let (held, owner) = may_report-owner t e.head.from_session o in
          moved (progress e) t (record t { progress = some e }) s' f (observe e held owner)
            (rw (o, new) at h)
    ]
    | inr o ↦ absurd (ground arith)
  ]

  finish_task-Change :
      (t : CollaborationTask) (e : TaskFinish) (s' : CollaborationState)
      → find_task t.created.head.work_key s.tasks ≡ some t
      → finish_task rt s t e ≡ ok s'
      → Change s.tasks (task_finish e) s'.tasks
  unfolding finish_task update_task
  finish_task-Change t e s' f h = elim (Bool-cases (may_report rt t e.head.from_session)) [
    | inl o ↦
        let (held, owner) = may_report-owner t e.head.from_session o in
        moved (task_finish e) t (record t { finished = some e }) s' f (end e held owner) (rw o at h)
    | inr o ↦ absurd (ground arith)
  ]

  make_offer-tasks :
      (t : CollaborationTask) (e : Offer) (s' : CollaborationState)
      → make_offer rt s t e ≡ ok s'
      → s'.tasks ≡ s.tasks
  unfolding make_offer
  make_offer-tasks t e s' h = ground arith

  create_task-Change :
      (e : TaskCreate) (s' : CollaborationState)
      → find_task e.head.work_key s.tasks ≡ none
      → create_task rt s e ≡ ok s'
      → Change s.tasks (task_create e) s'.tasks
  unfolding create_task
  create_task-Change e s' f h = elim (Option-cases (task_path_error rt e.write_set)) [
    | inl n ↦
        let h' : (let next : Outcome WorkError CollaborationState =
              ok (record s { tasks = s.tasks ++ (new_task e ∷ []) }) in
            next ≡ ok s') =
          rw (n, create_task) at h in
        let same : record s { tasks = s.tasks ++ (new_task e ∷ []) } ≡ s' = cc in
        rw (← same) (create e f)
    | inr (x, n) ↦ let no : error (bad_task_path x) ≡ ok s' = rw (n, create_task) at h in cc
  ]

  next_state-Change :
      (e : WorkFrame) (s' : CollaborationState)
      → next_state rt s e ≡ ok s'
      → Change s.tasks e s'.tasks
  unfolding next_state
  next_state-Change (task_create e) s' h = elim (Option-cases (find_task e.head.work_key s.tasks)) [
    | inl n ↦ create_task-Change e s' n (rw (n, next_state) at h)
    | inr (x, n) ↦ let no : error task_exists ≡ ok s' = rw (n, next_state) at h in cc
  ]
  next_state-Change (publish e) s' h =
      let (t, f, key, id, next) = on_task-ok e.head.work_key e.task_id _ s' h in
      let same : record s { evidence = s.evidence ++ (e ∷ []) } ≡ s' = cc in rw (← same) keep
  next_state-Change (offer e) s' h =
      let (t, f, key, id, next) = on_task-ok e.head.work_key e.task_id _ s' h in
      rw (make_offer-tasks t e s' next) keep
  next_state-Change (task_take e) s' h =
      let (t, f, key, id, next) = on_task-ok e.head.work_key e.task_id _ s' h in
      take_task-Change t e s' (rw key f) id (sym key) next
  next_state-Change (task_finish e) s' h =
      let (t, f, key, id, next) = on_task-ok e.head.work_key e.task_id _ s' h in
      finish_task-Change t e s' (rw key f) next
  next_state-Change (progress e) s' h = elim (Option-cases e.task_id) [
    | inl n ↦
        let h' : (let next : Outcome WorkError CollaborationState = ok s in next ≡ ok s') =
          rw (n, next_state) at h in
        let same : s ≡ s' = cc in rw (← same) keep
    | inr (task_id, n) ↦
        let (t, f, key, id, next) =
          on_task-ok e.head.work_key task_id _ s' (rw (n, next_state) at h) in
        report-Change t e s' (rw key f) next
  ]

  pub checked-ok :
      (b : Bool) (next : Outcome WorkError CollaborationState) (s' : CollaborationState)
      → checked rt b next ≡ ok s'
      → (next ≡ ok s') × (bounded rt s' b ≡ true)
  unfolding checked
  checked-ok b (error x) s' h = cc
  checked-ok b (ok s1) s' h = elim (Bool-cases (bounded rt s1 b)) [
    | inl fits ↦ let same : s1 ≡ s' = ground arith in (ap ok same, rw (← same) fits)
    | inr full ↦ absurd (ground arith)
  ]

  -- Every accepted event changes the tasks in one of these ways.
  pub transition-Change :
      (e : WorkFrame) (b : Bool) (s' : CollaborationState)
      → transition rt s e b ≡ ok s'
      → Change s.tasks e s'.tasks
  unfolding transition
  transition-Change e b s' h = elim (Bool-cases (is_plain rt e)) [
    | inl p ↦ let same : s ≡ s' = ground arith in rw (← same) keep
    | inr p ↦ next_state-Change e s' (checked-ok b (next_state rt s e) s' (ground arith)).0
  ]
