-- ===== src/Exocom/Collaboration.antt =====
-- exocom/collaboration.ts: the voluntary work of peers, which create, take and finish tasks. Objects of
-- the runtime are parameters, gathered in one record.
pub mod Transitions
use pi_persona.Base.{
  ℕ, zero, suc, ◌+◌, Bool, true, false, not, ◌&&◌, ◌||◌, Option, none, some, List, [], ◌∷◌, ◌++◌,
  map, ◌==◌, ltb, leb, if◌then◌else◌, any, filter, find, length, is_some, or_else, Text, codes,
  text_eq, Outcome, error, ok,
}
use pi_persona.Core.Ownership.{PathModule, PathError, write_set_path_error}
use pi_persona.Exocom.Frames.{
  Head, TaskCreate, TaskTake, TaskFinish, TaskOutcome, done, abandoned, Offer, Publish, Progress,
  WorkFrame, task_create, task_take, task_finish, offer, publish, progress, SemanticFrame, work,
}

-- A time in a state: what `Date.parse` gave, where none is NaN, or `-Number.MAX_VALUE`.
pub data Moment : Type 0 where
  at : Option ℕ → Moment
  lowest : Moment

pub record CollaborationTask : Type 0 where
  pub created : TaskCreate
  pub taken : Option TaskTake
  pub progress : Option Progress
  pub finished : Option TaskFinish
  pub stale : Bool
  pub stale_at : Option Moment

pub record CollaborationState : Type 0 where
  pub tasks : List CollaborationTask
  pub offers : List Offer
  pub evidence : List Publish

abbrev pub max_tasks : ℕ
max_tasks = 64

abbrev pub max_offers : ℕ
max_offers = 64

abbrev pub max_evidence : ℕ
max_evidence = 64

abbrev pub max_bytes : ℕ
max_bytes = 131072

abbrev pub empty_collaboration : CollaborationState
empty_collaboration = record { tasks = []; offers = []; evidence = [] }

-- `Date.parse`, `JSON.stringify` of a state, as the number of its bytes, and the path module.
pub record Runtime : Type 0 where
  pub parse_time : Text → Option ℕ
  pub json_bytes : CollaborationState → ℕ
  pub paths : PathModule

pub data Status : Type 0 where
  opened taken stale : Status
  ended : TaskOutcome → Status

pub status_of : Option TaskFinish → Bool → Option TaskTake → Status
status_of (some e) lost take = ended e.outcome
status_of none true take = stale
status_of none false (some e) = taken
status_of none false none = opened

abbrev pub collaboration_status : CollaborationTask → Status
unfolding status_of
collaboration_status t = status_of t.finished t.stale t.taken

pub is_open : Status → Bool
is_open opened = true
is_open _ = false

pub is_taken : Status → Bool
is_taken taken = true
is_taken _ = false

-- `task.taken?.from_session ?? task.created.from_session`
abbrev pub owner_of : Option TaskTake → TaskCreate → Text
owner_of (some e) created = e.head.from_session
owner_of none created = created.head.from_session

abbrev pub task_owner : CollaborationTask → Text
task_owner t = owner_of t.taken t.created

repeat : ℕ → ℕ → Text
repeat zero c = []
repeat (suc n) c = c ∷ repeat n c

-- The largest identity that a local event can have.
future_head : TaskCreate → Head
unfolding repeat
future_head created = record {
  work_key = created.head.work_key;
  from_session = repeat 128 b'x';
  from_name = repeat 256 0x754c;
  msg_id = repeat 128 b'x';
  ts = codes "9999-12-31T23:59:59.999Z";
  signature = none;
}

future_take : TaskCreate → TaskTake
unfolding future_head
future_take created = record { head = future_head created; task_id = created.head.msg_id }

future_finish : TaskCreate → TaskFinish
unfolding future_head
future_finish created = record {
  head = future_head created;
  task_id = created.head.msg_id;
  outcome = abandoned;
  note = codes "x";
}

reserve_task : CollaborationTask → CollaborationTask
unfolding future_take future_finish
reserve_task t = if is_some t.finished then t else record t {
  stale = true;
  stale_at = some lowest;
  taken = some (or_else t.taken (future_take t.created));
  finished = some (future_finish t.created);
}

-- The first task of a work key.
pub find_task : Text → List CollaborationTask → Option CollaborationTask
find_task key tasks = find (λ t. text_eq t.created.head.work_key key) tasks

-- `tasks.map((value) => value === task ? updated : value)` for the task that `find` gave.
pub replace_task : Text → CollaborationTask → List CollaborationTask → List CollaborationTask
replace_task key updated [] = []
replace_task key updated (t ∷ tasks) =
    if text_eq t.created.head.work_key key
    then updated ∷ tasks
    else t ∷ replace_task key updated tasks

is_event : Text → Head → Bool
is_event msg_id h = text_eq h.msg_id msg_id

unfoldable pub or_frame : Option SemanticFrame → Option SemanticFrame → Option SemanticFrame
or_frame (some e) other = some e
or_frame none other = other

keep_if : Bool → SemanticFrame → Option SemanticFrame
keep_if b e = if b then some e else none

-- The inner loop of `retainedCollaborationEvent` over the events of one task.
pub task_event : Text → CollaborationTask → Option SemanticFrame
unfolding is_event or_frame keep_if
task_event id t = or_frame (keep_if (is_event id t.created.head) (work (task_create t.created))) (
    or_frame
      (elim t.taken [ some e ↦ keep_if (is_event id e.head) (work (task_take e)) | none ↦ none ])
      (or_frame
        (elim t.progress [
          | some e ↦ keep_if (is_event id e.head) (work (progress e))
          | none ↦ none
        ])
        (elim t.finished [
          | some e ↦ keep_if (is_event id e.head) (work (task_finish e))
          | none ↦ none
        ])))

unfoldable pub tasks_event : Text → List CollaborationTask → Option SemanticFrame
unfolding task_event
tasks_event id [] = none
tasks_event id (t ∷ tasks) = or_frame (task_event id t) (tasks_event id tasks)

unfoldable pub offers_event : Text → List Offer → Option SemanticFrame
unfolding is_event
offers_event id [] = none
offers_event id (e ∷ es) = if is_event id e.head then some (work (offer e)) else offers_event id es

unfoldable pub evidence_event : Text → List Publish → Option SemanticFrame
unfolding is_event
evidence_event id [] = none
evidence_event id (e ∷ es) =
    if is_event id e.head then some (work (publish e)) else evidence_event id es

unfoldable pub retained_collaboration_event : CollaborationState → Text → Option SemanticFrame
unfolding tasks_event offers_event evidence_event
retained_collaboration_event s id =
    or_frame (tasks_event id s.tasks)
      (or_frame (offers_event id s.offers) (evidence_event id s.evidence))

pub data WorkError : Type 0 where
  task_exists unknown_task wrong_generation offer_exists offer_to_self offer_not_open not_open
        not_taker progress_too_old budget_reached :
      WorkError
  bad_task_path : PathError → WorkError

-- `Date.parse(a) < Date.parse(b)`
earlier : Option ℕ → Option ℕ → Bool
earlier (some a) (some b) = ltb a b
earlier _ _ = false

abbrev pub new_task : TaskCreate → CollaborationTask
new_task e = record {
  created = e;
  taken = none;
  progress = none;
  finished = none;
  stale = false;
  stale_at = none;
}
