-- ===== src/Exocom/Ledger/Events.antt =====
-- exocom/ledger.ts: applyLedgerEvent, with a function for each kind of event.
pub mod Admission
pub mod Claims
pub mod Asks
pub mod Invariant
pub mod Reachable
pub mod Idempotence
mod Tests
use pi_persona.Base.{
  ℕ, ◌+◌, Bool, true, false, not, ◌&&◌, ◌||◌, Option, none, some, List, [], ◌∷◌, ◌++◌, map, ◌==◌,
  ltb, leb, if◌then◌else◌, any, filter, find, length, take, take_last, includes, is_some, or_else,
  is_empty, Text, codes, text_eq, Outcome, error, ok,
}
use pi_persona.Core.Ownership.{
  WriteSetOwner, WriteSetOverlap, PathError, write_set_path_error, find_write_set_overlaps,
}
use pi_persona.Exocom.Frames.{
  Head, Claim, Ask, Answer, TaskTake, TaskCreate, WorkFrame, task_create, task_take, task_finish,
  offer, publish, progress, SemanticFrame, claim, ask, answer, release, work, head_of, head_of_work,
  is_semantic_frame, Value, payload_values,
}
use pi_persona.Exocom.Collaboration.{
  CollaborationTask, CollaborationState, Runtime, WorkError, at, empty_collaboration, find_task,
  task_owner, retained_collaboration_event,
}
use pi_persona.Exocom.Collaboration.Transitions.{
  apply_collaboration_event, release_collaboration, prune_collaboration,
}
use pi_persona.Exocom.Ledger.{
  LedgerClaim, LedgerAsk, LedgerAnswer, LedgerState, max_claims, max_asks, max_results, max_ask_ids,
  max_seen, max_asks_from_to, empty_ledger, collaboration_of, LedgerError, empty_write_set,
  malformed, conflict, claim_limit, ask_id_used, ask_id_limit, ask_limit, no_recipient, ask_to_self,
  ask_limit_from_to, ask_pending, unknown_ask, wrong_work_key, not_recipient, nothing_to_release,
  pickup_conflict, bad_claim_path, overlap, refused, ApplyResult, remember, state_or, accept,
  claim_of, ask_of, answer_of, owner_of_claim, is_of, pending_asks_to, answer_for, dedupe, is_fresh,
  prune_ledger, dropped_ask_ids,
}

pub make_ask : LedgerState → Ask → ApplyResult
unfolding ask_of
make_ask s e =
    if includes s.ask_ids e.ask_id
    then error ask_id_used
    else if leb max_ask_ids (length s.ask_ids)
    then error ask_id_limit
    else if leb max_asks (length s.asks)
    then error ask_limit
    else if is_empty e.to_session || text_eq e.to_session (codes "*")
    then error no_recipient
    else if text_eq e.to_session e.head.from_session
    then error ask_to_self
    else if leb max_asks_from_to (
        length (
          filter
            (λ a. text_eq a.from_session e.head.from_session && text_eq a.to_session e.to_session)
            s.asks))
    then error ask_limit_from_to
    else if any (λ a. text_eq a.work_key e.head.work_key && text_eq a.to_session e.to_session)
        s.asks
    then error ask_pending
    else accept
        (record s { asks = s.asks ++ (ask_of e ∷ []); ask_ids = s.ask_ids ++ (e.ask_id ∷ []) })
        e.head.msg_id

pub make_answer : LedgerState → Answer → Option LedgerAsk → ApplyResult
unfolding answer_of
make_answer s e none = error unknown_ask
make_answer s e (some asked) =
    if not (text_eq asked.work_key e.head.work_key)
    then error wrong_work_key
    else if not (text_eq e.head.from_session asked.to_session)
    then error not_recipient
    else accept
        (record s {
          asks = filter (λ a. not (text_eq a.ask_id e.ask_id)) s.asks;
          answers = take_last max_results (s.answers ++ (answer_of e asked ∷ []));
        })
        e.head.msg_id

-- The session owns an unfinished task of the work key that is not stale.
owns_task : CollaborationState → Head → Bool
owns_task c h =
    any
      (λ t.
        text_eq t.created.head.work_key h.work_key
        && not (is_some t.finished)
        && not t.stale
        && text_eq (task_owner t) h.from_session)
      c.tasks

module _ (rt : Runtime) where
  -- The state without the claims, asks and tasks of the session on the work key.
  abbrev pub released : LedgerState → Head → LedgerState
  released s h = record s {
    claims = filter (λ c. not (is_of h.work_key h.from_session c.work_key c.from_session)) s.claims;
    asks = filter (λ a. not (is_of h.work_key h.from_session a.work_key a.from_session)) s.asks;
    collaboration = some (
        release_collaboration (collaboration_of s) h.from_session h.work_key
          (at (rt.parse_time h.ts)));
  }

  pub make_release : LedgerState → Head → ApplyResult
  unfolding owns_task
  make_release s h =
      let owned =
        filter (λ c. is_of h.work_key h.from_session c.work_key c.from_session) s.claims in
      let outbound =
        filter (λ a. is_of h.work_key h.from_session a.work_key a.from_session) s.asks in
      if length owned == 0 && length outbound == 0 && not (owns_task (collaboration_of s) h)
      then error nothing_to_release
      else accept (released s h) h.msg_id

  claim_path_error : List Text → Option LedgerError
  claim_path_error [] = none
  claim_path_error (p ∷ ps) = elim (write_set_path_error rt.paths p) [
    | some e ↦ some (bad_claim_path p e)
    | none ↦ claim_path_error ps
  ]

  -- The claim after its paths are checked.
  join_claim : LedgerState → Claim → List WriteSetOverlap → ApplyResult
  unfolding claim_of
  join_claim s e (o ∷ os) = error (overlap o)
  join_claim s e [] = accept (record s { claims = s.claims ++ (claim_of e ∷ []) }) e.head.msg_id

  pub make_claim : LedgerState → Claim → ApplyResult
  unfolding claim_path_error join_claim
  make_claim s e =
      let overlaps =
        find_write_set_overlaps rt.paths
          (map owner_of_claim s.claims ++ (owner_of_claim (claim_of e) ∷ [])) in
      if leb max_claims (length s.claims)
      then error claim_limit
      else elim (claim_path_error e.write_set) [ some x ↦ error x | none ↦ join_claim s e overlaps ]

  module _ (stringify : List Value → Text) where
    -- Two frames that say the same: `frameSigningPayload(a) === frameSigningPayload(b)`.
    same_payload : SemanticFrame → SemanticFrame → Bool
    same_payload a b = text_eq (stringify (payload_values a)) (stringify (payload_values b))

    malformed_error : SemanticFrame → LedgerError
    malformed_error (claim e) = if length e.write_set == 0 then empty_write_set else malformed
    malformed_error _ = malformed

    -- What every event goes through before its own rules.
    pub guarded : LedgerState → SemanticFrame → ApplyResult → ApplyResult
    unfolding same_payload malformed_error
    guarded s e next =
        if not (is_semantic_frame rt.parse_time e)
        then error (malformed_error e)
        else elim (retained_collaboration_event (collaboration_of s) (head_of e).msg_id) [
          | some held ↦ if same_payload held e then ok (s, true) else error conflict
          | none ↦ if includes s.seen (head_of e).msg_id then ok (s, true) else next
        ]

    -- The claim that taking a task makes.
    pub claim_for : TaskTake → TaskCreate → Claim
    claim_for e created = record {
      head = record {
        work_key = e.head.work_key;
        from_session = e.head.from_session;
        from_name = e.head.from_name;
        msg_id = e.head.msg_id;
        ts = e.head.ts;
        signature = none;
      };
      write_set = created.write_set;
      slice = take 256 created.description;
    }

    claims_in : ApplyResult → Outcome LedgerError (List LedgerClaim)
    claims_in (error x) = error x
    claims_in (ok r) = ok r.0.claims

    pub pick_up : LedgerState → TaskTake → TaskCreate → Outcome LedgerError (List LedgerClaim)
    unfolding guarded claim_for make_claim claims_in
    pick_up s e created =
        if any (λ c. is_of e.head.work_key e.head.from_session c.work_key c.from_session) s.claims
        then error pickup_conflict
        else claims_in
            (guarded s (claim (claim_for e created)) (make_claim s (claim_for e created)))

    -- The claims after an event of peer work on `task`, the task of its work key before it.
    pub claims_after :
        LedgerState → WorkFrame → Option CollaborationTask → Outcome LedgerError (List LedgerClaim)
    unfolding pick_up
    claims_after s (task_take e) (some task) =
        if length task.created.write_set == 0 then ok s.claims else pick_up s e task.created
    claims_after s (task_finish e) (some task) = elim task.taken [
      | none ↦ ok s.claims
      | some taken_by ↦ ok (filter (λ c. not (text_eq c.msg_id taken_by.head.msg_id)) s.claims)
    ]
    claims_after s e task = ok s.claims

    -- The outcome, once the next peer work and the next claims are known.
    settle :
        LedgerState
        → WorkFrame
        → CollaborationState
        → Outcome LedgerError (List LedgerClaim)
        → ApplyResult
    settle s e next (error x) = error x
    settle s e next (ok claims) =
        accept (record s { claims = claims; collaboration = some next }) (head_of_work e).msg_id

    settle_work : LedgerState → WorkFrame → Outcome WorkError CollaborationState → ApplyResult
    unfolding settle claims_after
    settle_work s e (error x) = error (refused x)
    settle_work s e (ok next) =
        settle s e next
          (claims_after s e (find_task (head_of_work e).work_key (collaboration_of s).tasks))

    pub do_work : LedgerState → WorkFrame → ApplyResult
    unfolding settle_work
    do_work s e = settle_work s e (apply_collaboration_event rt (collaboration_of s) e)

    pub apply_by_kind : LedgerState → SemanticFrame → ApplyResult
    unfolding make_claim make_ask make_answer make_release do_work
    apply_by_kind s (claim e) = make_claim s e
    apply_by_kind s (ask e) = make_ask s e
    apply_by_kind s (answer e) = make_answer s e (find (λ a. text_eq a.ask_id e.ask_id) s.asks)
    apply_by_kind s (release h) = make_release s h
    apply_by_kind s (work e) = do_work s e

    pub apply_ledger_event : LedgerState → SemanticFrame → ApplyResult
    unfolding guarded apply_by_kind
    apply_ledger_event s e = guarded s e (apply_by_kind s e)
