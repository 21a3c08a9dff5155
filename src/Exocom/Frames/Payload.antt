-- ===== src/Exocom/Frames/Payload.antt =====
-- exocom/envelope.ts: frameSigningPayload, what the signature of a frame covers.
pub mod Coverage
mod Tests
use pi_persona.Base.{Bool, Option, none, some, List, [], ◌∷◌, Text, codes}
use pi_persona.Exocom.Frames.Types.{
  TaskOutcome, done, abandoned, WorkFrame, task_create, task_take, task_finish, offer, publish,
  progress, SemanticFrame, claim, ask, answer, release, work,
}

-- The elements of the array that is signed.
pub data Value : Type 0 where
  null : Value
  string : Text → Value
  strings : List Text → Value
  bool : Bool → Value

or_null : Option Text → Value
or_null none = null
or_null (some s) = string s

outcome_text : TaskOutcome → Text
outcome_text done = codes "done"
outcome_text abandoned = codes "abandoned"

work_payload : WorkFrame → List Value
unfolding or_null outcome_text
work_payload (task_create e) =
    string (codes "task_create")
    ∷ string e.head.msg_id
    ∷ string e.head.work_key
    ∷ string e.head.from_session
    ∷ string e.head.from_name
    ∷ string e.description
    ∷ strings e.write_set
    ∷ string e.head.ts
    ∷ []
work_payload (task_take e) =
    string (codes "task_take")
    ∷ string e.head.msg_id
    ∷ string e.head.work_key
    ∷ string e.task_id
    ∷ string e.head.from_session
    ∷ string e.head.from_name
    ∷ string e.head.ts
    ∷ []
work_payload (task_finish e) =
    string (codes "task_finish")
    ∷ string e.head.msg_id
    ∷ string e.head.work_key
    ∷ string e.task_id
    ∷ string e.head.from_session
    ∷ string e.head.from_name
    ∷ string (outcome_text e.outcome)
    ∷ string e.note
    ∷ string e.head.ts
    ∷ []
work_payload (offer e) =
    string (codes "offer")
    ∷ string e.head.msg_id
    ∷ string e.offer_id
    ∷ string e.head.work_key
    ∷ string e.task_id
    ∷ string e.head.from_session
    ∷ string e.head.from_name
    ∷ or_null e.to_session
    ∷ string e.expires_at
    ∷ string e.head.ts
    ∷ []
work_payload (publish e) =
    string (codes "publish")
    ∷ string e.head.msg_id
    ∷ string e.head.work_key
    ∷ string e.task_id
    ∷ string e.head.from_session
    ∷ string e.head.from_name
    ∷ string e.title
    ∷ string e.excerpt
    ∷ string e.head.ts
    ∷ []
work_payload (progress e) =
    string (codes "progress")
    ∷ string e.head.msg_id
    ∷ string e.head.work_key
    ∷ string e.head.from_session
    ∷ string e.head.from_name
    ∷ string e.note
    ∷ string e.head.ts
    ∷ or_null e.task_id
    ∷ []

-- The array of `frameSigningPayload`, before it is written as JSON.
unfoldable pub payload_values : SemanticFrame → List Value
unfolding work_payload
payload_values (claim e) =
    string (codes "claim")
    ∷ string e.head.msg_id
    ∷ string e.head.work_key
    ∷ string e.head.from_session
    ∷ string e.head.from_name
    ∷ strings e.write_set
    ∷ string e.slice
    ∷ string e.head.ts
    ∷ []
payload_values (ask e) =
    string (codes "ask")
    ∷ string e.head.msg_id
    ∷ string e.ask_id
    ∷ string e.head.work_key
    ∷ string e.head.from_session
    ∷ string e.head.from_name
    ∷ string e.to_session
    ∷ string e.question
    ∷ string e.head.ts
    ∷ []
payload_values (answer e) =
    string (codes "answer")
    ∷ string e.head.msg_id
    ∷ string e.ask_id
    ∷ string e.head.work_key
    ∷ string e.head.from_session
    ∷ string e.head.from_name
    ∷ bool e.ok
    ∷ string e.evidence
    ∷ string e.head.ts
    ∷ []
payload_values (release h) =
    string (codes "release")
    ∷ string h.msg_id
    ∷ string h.work_key
    ∷ string h.from_session
    ∷ string h.from_name
    ∷ string h.ts
    ∷ []
payload_values (work e) = work_payload e
