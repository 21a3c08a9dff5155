-- ===== src/Exocom/Ledger.antt =====
-- exocom/ledger.ts: the ledger of claims, asks and answers of a workspace, as a reducer of semantic
-- frames. Reading and writing of the file are left out. A set of live sessions is a test.
pub mod Events
use pi_persona.Base.{
  ℕ, ◌+◌, Bool, true, false, not, ◌&&◌, ◌||◌, Option, none, some, List, [], ◌∷◌, ◌++◌, map, ◌==◌,
  ltb, leb, if◌then◌else◌, any, filter, find, length, take, take_last, includes, is_some, or_else,
  is_empty, Text, codes, text_eq, Outcome, error, ok,
}
use pi_persona.Core.Ownership.{
  WriteSetOwner, WriteSetOverlap, PathError, write_set_path_error, find_write_set_overlaps,
}
use pi_persona.Exocom.Frames.{
  Head, Claim, Ask, Answer, TaskTake, TaskCreate, WorkFrame, task_create, task_take, task_finish,
  offer, publish, progress, SemanticFrame, claim, ask, answer, release, work, head_of, head_of_work,
  is_semantic_frame, Value, payload_values,
}
use pi_persona.Exocom.Collaboration.{
  CollaborationTask, CollaborationState, Runtime, WorkError, at, empty_collaboration, find_task,
  task_owner, retained_collaboration_event,
}
use pi_persona.Exocom.Collaboration.Transitions.{
  apply_collaboration_event, release_collaboration, prune_collaboration,
}

pub record LedgerClaim : Type 0 where
  pub work_key : Text
  pub from_session : Text
  pub from_name : Text
  pub write_set : List Text
  pub slice : Text
  pub msg_id : Text
  pub ts : Text

pub record LedgerAsk : Type 0 where
  pub ask_id : Text
  pub work_key : Text
  pub from_session : Text
  pub from_name : Text
  pub to_session : Text
  pub question : Text
  pub msg_id : Text
  pub ts : Text

-- The receipt of an answer, with the ask that it closes.
pub record LedgerAnswer : Type 0 where
  pub ask_id : Text
  pub work_key : Text
  pub requester_session : Text
  pub requester_name : Text
  pub to_session : Text
  pub question : Text
  pub ask_msg_id : Text
  pub ask_ts : Text
  pub from_session : Text
  pub from_name : Text
  pub ok : Bool
  pub evidence : Text
  pub msg_id : Text
  pub ts : Text

pub record LedgerState : Type 0 where
  pub claims : List LedgerClaim
  pub asks : List LedgerAsk
  pub answers : List LedgerAnswer
  pub ask_ids : List Text
  pub seen : List Text
  pub collaboration : Option CollaborationState

abbrev pub max_claims : ℕ
max_claims = 128

abbrev pub max_asks : ℕ
max_asks = 128

abbrev pub max_results : ℕ
max_results = 256

abbrev pub max_ask_ids : ℕ
max_ask_ids = 4096

abbrev pub max_seen : ℕ
max_seen = 4096

abbrev pub max_asks_from_to : ℕ
max_asks_from_to = 3

abbrev pub empty_ledger : LedgerState
empty_ledger = record {
  claims = [];
  asks = [];
  answers = [];
  ask_ids = [];
  seen = [];
  collaboration = some empty_collaboration;
}

-- `state.collaboration ?? emptyCollaboration()`
abbrev pub collaboration_of : LedgerState → CollaborationState
collaboration_of s = or_else s.collaboration empty_collaboration

pub data LedgerError : Type 0 where
  empty_write_set malformed conflict claim_limit ask_id_used ask_id_limit ask_limit no_recipient
        ask_to_self ask_limit_from_to ask_pending unknown_ask wrong_work_key not_recipient
        nothing_to_release pickup_conflict :
      LedgerError
  bad_claim_path : Text → PathError → LedgerError
  overlap : WriteSetOverlap → LedgerError
  refused : WorkError → LedgerError

-- The state and whether the event was a duplicate.
abbrev pub ApplyResult : Type 0
ApplyResult = Outcome LedgerError (LedgerState × Bool)

-- The id counts as seen from now on.
pub remember : LedgerState → Text → LedgerState
remember s msg_id =
    let seen = if includes s.seen msg_id then s.seen else s.seen ++ (msg_id ∷ []) in
    record s { seen = if ltb max_seen (length seen) then take_last max_seen seen else seen }

-- The state of a result that is no error.
abbrev pub state_or : LedgerState → ApplyResult → LedgerState
state_or s (error x) = s
state_or s (ok r) = r.0

abbrev pub accept : LedgerState → Text → ApplyResult
accept s msg_id = ok (remember s msg_id, false)

pub claim_of : Claim → LedgerClaim
claim_of e = record {
  work_key = e.head.work_key;
  from_session = e.head.from_session;
  from_name = e.head.from_name;
  write_set = e.write_set;
  slice = e.slice;
  msg_id = e.head.msg_id;
  ts = e.head.ts;
}

pub ask_of : Ask → LedgerAsk
ask_of e = record {
  ask_id = e.ask_id;
  work_key = e.head.work_key;
  from_session = e.head.from_session;
  from_name = e.head.from_name;
  to_session = e.to_session;
  question = e.question;
  msg_id = e.head.msg_id;
  ts = e.head.ts;
}

pub answer_of : Answer → LedgerAsk → LedgerAnswer
answer_of e asked = record {
  ask_id = e.ask_id;
  work_key = e.head.work_key;
  requester_session = asked.from_session;
  requester_name = asked.from_name;
  to_session = asked.to_session;
  question = asked.question;
  ask_msg_id = asked.msg_id;
  ask_ts = asked.ts;
  from_session = e.head.from_session;
  from_name = e.head.from_name;
  ok = e.ok;
  evidence = e.evidence;
  msg_id = e.head.msg_id;
  ts = e.head.ts;
}

abbrev pub owner_of_claim : LedgerClaim → WriteSetOwner
owner_of_claim c = record { agent = some c.from_session; write_set = some c.write_set }

-- Both the work key and the session are these.
abbrev pub is_of : Text → Text → Text → Text → Bool
is_of key session work_key from_session = text_eq work_key key && text_eq from_session session

pub pending_asks_to : LedgerState → Text → List LedgerAsk
pending_asks_to s session = filter (λ a. text_eq a.to_session session) s.asks

pub answer_for : LedgerState → Text → Option Text → Option LedgerAnswer
answer_for s ask_id requester =
    find
      (λ a.
        text_eq a.ask_id ask_id
        && elim requester [ none ↦ true | some r ↦ text_eq a.requester_session r ])
      s.answers

-- `[...new Set(xs)]`
dedupe : List Text → List Text
dedupe [] = []
dedupe (x ∷ xs) = x ∷ filter (λ y. not (text_eq y x)) (dedupe xs)

module _ (rt : Runtime) where
  is_fresh : Text → ℕ → ℕ → Bool
  is_fresh ts now ttl = elim (rt.parse_time ts) [ some t ↦ leb now (t + ttl) | none ↦ false ]

  pub prune_ledger : LedgerState → ℕ → ℕ → (Text → Bool) → LedgerState
  unfolding is_fresh dedupe
  prune_ledger s now ttl is_live =
      let asks = filter (λ a. is_live a.from_session && is_live a.to_session) s.asks in
      let answers = take_last max_results (filter (λ a. is_fresh a.ts now ttl) s.answers) in
      record s {
        claims = filter (λ c. is_live c.from_session) s.claims;
        asks = asks;
        answers = answers;
        ask_ids = dedupe (map (λ a. a.ask_id) asks ++ map (λ a. a.ask_id) answers);
        collaboration = some (prune_collaboration rt (collaboration_of s) now ttl is_live);
      }

pub dropped_ask_ids : LedgerState → LedgerState → List Text
dropped_ask_ids before after =
    map (λ a. a.ask_id)
      (filter (λ a. not (includes (map (λ b. b.ask_id) after.asks) a.ask_id)) before.asks)
