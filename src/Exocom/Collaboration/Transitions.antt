-- ===== src/Exocom/Collaboration/Transitions.antt =====
-- exocom/collaboration.ts: the transitions of the shared tasks, and what happens to them when a lease is
-- lost, when they are released, and when they have been over for long.
pub mod Changes
pub mod Retained
pub mod Retention
pub mod Lifecycle
mod Tests
use pi_persona.Base.{
  ℕ, zero, suc, ◌+◌, Bool, true, false, not, ◌&&◌, ◌||◌, Option, none, some, List, [], ◌∷◌, ◌++◌,
  map, ◌==◌, ltb, leb, if◌then◌else◌, any, filter, find, length, is_some, or_else, Text, codes,
  text_eq, Outcome, error, ok,
}
use pi_persona.Core.Ownership.{PathModule, PathError, write_set_path_error}
use pi_persona.Exocom.Frames.{
  Head, TaskCreate, TaskTake, TaskFinish, TaskOutcome, done, abandoned, Offer, Publish, Progress,
  WorkFrame, task_create, task_take, task_finish, offer, publish, progress, SemanticFrame, work,
}
use pi_persona.Exocom.Collaboration.{
  Moment, at, lowest, CollaborationTask, CollaborationState, max_tasks, max_offers, max_evidence,
  max_bytes, empty_collaboration, Runtime, Status, opened, taken, stale, ended, status_of,
  collaboration_status, is_open, is_taken, owner_of, task_owner, repeat, future_head, future_take,
  future_finish, reserve_task, find_task, replace_task, is_event, or_frame, keep_if, task_event,
  tasks_event, offers_event, evidence_event, retained_collaboration_event, WorkError, task_exists,
  unknown_task, wrong_generation, offer_exists, offer_to_self, offer_not_open, not_open, not_taker,
  progress_too_old, budget_reached, bad_task_path, earlier, new_task,
}

module _ (rt : Runtime) where
  pub bounded : CollaborationState → Bool → Bool
  unfolding reserve_task
  bounded s reserve_lifecycle =
      leb (length s.tasks) max_tasks
      && leb (length s.offers) max_offers
      && leb (length s.evidence) max_evidence
      && leb
          (rt.json_bytes
            (if reserve_lifecycle then record s { tasks = map reserve_task s.tasks } else s))
          max_bytes

  task_path_error : List Text → Option PathError
  task_path_error [] = none
  task_path_error (p ∷ ps) = elim (write_set_path_error rt.paths p) [
    | some e ↦ some e
    | none ↦ task_path_error ps
  ]

  pub create_task : CollaborationState → TaskCreate → Outcome WorkError CollaborationState
  unfolding task_path_error
  create_task s e = elim (task_path_error e.write_set) [
    | some x ↦ error (bad_task_path x)
    | none ↦ ok (record s { tasks = s.tasks ++ (new_task e ∷ []) })
  ]

  pub make_offer :
      CollaborationState → CollaborationTask → Offer → Outcome WorkError CollaborationState
  make_offer s task e =
      if any (λ o. text_eq o.offer_id e.offer_id) s.offers
      then error offer_exists
      else if elim e.to_session [ some to ↦ text_eq to e.head.from_session | none ↦ false ]
      then error offer_to_self
      else if not (is_open (collaboration_status task))
      then error offer_not_open
      else ok (record s { offers = s.offers ++ (e ∷ []) })

  update_task : CollaborationState → CollaborationTask → Outcome WorkError CollaborationState
  unfolding replace_task
  update_task s updated =
      ok (record s { tasks = replace_task updated.created.head.work_key updated s.tasks })

  pub take_task :
      CollaborationState → CollaborationTask → TaskTake → Outcome WorkError CollaborationState
  unfolding update_task
  take_task s task e =
      if not (is_open (collaboration_status task))
      then error not_open
      else update_task s (record task { taken = some e })

  -- `status !== "taken" || task.taken?.from_session !== event.from_session`
  may_report : CollaborationTask → Text → Bool
  may_report task session =
      is_taken (collaboration_status task)
      && elim task.taken [ some e ↦ text_eq e.head.from_session session | none ↦ false ]

  -- The time that a further observation may not predate.
  last_observed : CollaborationTask → Option ℕ
  last_observed task = elim task.progress [
    | some p ↦ rt.parse_time p.head.ts
    | none ↦ elim task.taken [ some e ↦ rt.parse_time e.head.ts | none ↦ none ]
  ]

  pub report :
      CollaborationState → CollaborationTask → Progress → Outcome WorkError CollaborationState
  unfolding may_report last_observed earlier update_task
  report s task e =
      if not (may_report task e.head.from_session)
      then error not_taker
      else if earlier (rt.parse_time e.head.ts) (last_observed task)
      then error progress_too_old
      else update_task s (record task { progress = some e })

  pub finish_task :
      CollaborationState → CollaborationTask → TaskFinish → Outcome WorkError CollaborationState
  unfolding may_report update_task
  finish_task s task e =
      if not (may_report task e.head.from_session)
      then error not_taker
      else update_task s (record task { finished = some e })

  -- The event on the task of its work key, if its task id is that of the task.
  pub act :
      CollaborationState
      → CollaborationTask
      → Text
      → Outcome WorkError CollaborationState
      → Outcome WorkError CollaborationState
  act s task task_id next =
      if text_eq task_id task.created.head.msg_id then next else error wrong_generation

  pub on_task :
      CollaborationState
      → Text
      → Text
      → (CollaborationTask → Outcome WorkError CollaborationState)
      → Outcome WorkError CollaborationState
  unfolding find_task act
  on_task s key task_id next = elim (find_task key s.tasks) [
    | none ↦ error unknown_task
    | some task ↦ act s task task_id (next task)
  ]

  -- The next state, before its bounds are tested.
  pub next_state : CollaborationState → WorkFrame → Outcome WorkError CollaborationState
  unfolding create_task find_task on_task make_offer take_task report finish_task
  next_state s (task_create e) = elim (find_task e.head.work_key s.tasks) [
    | some task ↦ error task_exists
    | none ↦ create_task s e
  ]
  next_state s (publish e) =
      on_task s e.head.work_key e.task_id
        (λ task. ok (record s { evidence = s.evidence ++ (e ∷ []) }))
  next_state s (offer e) = on_task s e.head.work_key e.task_id (λ task. make_offer s task e)
  next_state s (task_take e) = on_task s e.head.work_key e.task_id (λ task. take_task s task e)
  next_state s (task_finish e) = on_task s e.head.work_key e.task_id (λ task. finish_task s task e)
  next_state s (progress e) = elim e.task_id [
    | none ↦ ok s
    | some task_id ↦ on_task s e.head.work_key task_id (λ task. report s task e)
  ]

  -- A progress report without a task is no fact of the state, and its bounds are not tested.
  pub is_plain : WorkFrame → Bool
  is_plain (progress e) = not (is_some e.task_id)
  is_plain _ = false

  pub checked : Bool → Outcome WorkError CollaborationState → Outcome WorkError CollaborationState
  unfolding bounded
  checked reserve_lifecycle (error x) = error x
  checked reserve_lifecycle (ok s) =
      if bounded s reserve_lifecycle then ok s else error budget_reached

  pub transition : CollaborationState → WorkFrame → Bool → Outcome WorkError CollaborationState
  unfolding is_plain checked next_state
  transition s e reserve_lifecycle =
      if is_plain e then ok s else checked reserve_lifecycle (next_state s e)

  pub apply_collaboration_event :
      CollaborationState → WorkFrame → Outcome WorkError CollaborationState
  unfolding transition
  apply_collaboration_event s e = transition s e true

-- The owner's lease is lost: the task is stale from now on.
lose_task : (CollaborationTask → Bool) → Moment → CollaborationTask → CollaborationTask
lose_task keeps now t =
    if is_some t.finished || t.stale || keeps t
    then t
    else record t { stale = true; stale_at = some now }

pub stale_collaboration : CollaborationState → (Text → Bool) → Moment → CollaborationState
unfolding lose_task
stale_collaboration s is_live now = record s {
  tasks = map (lose_task (λ t. is_live (task_owner t)) now) s.tasks;
}

pub release_collaboration : CollaborationState → Text → Text → Moment → CollaborationState
unfolding lose_task
release_collaboration s session work_key now = record s {
  tasks =
      map
        (lose_task
          (λ t. not (text_eq t.created.head.work_key work_key && text_eq (task_owner t) session))
          now)
        s.tasks;
}

-- `now - t <= ttl`, where NaN fails and the lowest number is too long ago.
pub is_recent : ℕ → ℕ → Moment → Bool
is_recent now ttl (at (some t)) = leb now (t + ttl)
is_recent now ttl (at none) = false
is_recent now ttl lowest = false

module _ (rt : Runtime) where
  -- A task that is over is kept for its time to live.
  is_kept : ℕ → ℕ → CollaborationTask → Bool
  unfolding is_recent
  is_kept now ttl t = elim t.finished [
    | some e ↦ is_recent now ttl (at (rt.parse_time e.head.ts))
    | none ↦ elim t.stale_at [ some m ↦ is_recent now ttl m | none ↦ true ]
  ]

  pub prune_collaboration : CollaborationState → ℕ → ℕ → (Text → Bool) → CollaborationState
  unfolding is_kept stale_collaboration
  prune_collaboration s now ttl is_live =
      let tasks = filter (is_kept now ttl) (stale_collaboration s is_live (at (some now))).tasks in
      let retained = λ (h : Head). any (λ t. text_eq t.created.head.work_key h.work_key) tasks in
      record {
        tasks = tasks;
        offers =
            filter (λ o. retained o.head && is_recent now ttl (at (rt.parse_time o.expires_at)))
              s.offers;
        evidence =
            filter (λ e. retained e.head && is_recent now ttl (at (rt.parse_time e.head.ts)))
              s.evidence;
      }
