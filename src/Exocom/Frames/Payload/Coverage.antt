-- ===== src/Exocom/Frames/Payload/Coverage.antt =====
-- The signature of a frame covers every field but itself: the payload can be read back.
use pi_persona.Base.{
  ◌≡◌, refl, sym, ap, ◌∙◌, Option, none, some, List, [], ◌∷◌, if◌then◌else◌, Text, codes, text_eq,
}
use pi_persona.Exocom.Frames.Types.{
  Head, TaskOutcome, done, abandoned, WorkFrame, task_create, task_take, task_finish, offer,
  publish, progress, SemanticFrame, claim, ask, answer, release, work,
}
use pi_persona.Exocom.Frames.Payload.{
  Value, string, strings, bool, or_null, outcome_text, work_payload, payload_values,
}

abbrev bare : Head → Head
bare h = record h { signature = none }

abbrev unsigned_work : WorkFrame → WorkFrame
unsigned_work (task_create e) = task_create (record e { head = bare e.head })
unsigned_work (task_take e) = task_take (record e { head = bare e.head })
unsigned_work (task_finish e) = task_finish (record e { head = bare e.head })
unsigned_work (offer e) = offer (record e { head = bare e.head })
unsigned_work (publish e) = publish (record e { head = bare e.head })
unsigned_work (progress e) = progress (record e { head = bare e.head })

-- The frame without its signature.
abbrev pub unsigned : SemanticFrame → SemanticFrame
unsigned (claim e) = claim (record e { head = bare e.head })
unsigned (ask e) = ask (record e { head = bare e.head })
unsigned (answer e) = answer (record e { head = bare e.head })
unsigned (release h) = release (bare h)
unsigned (work e) = work (unsigned_work e)

-- A head from its id, work key, session, name and time.
abbrev head_with : Text → Text → Text → Text → Text → Head
head_with id key session name ts = record {
  work_key = key;
  from_session = session;
  from_name = name;
  msg_id = id;
  ts = ts;
  signature = none;
}

optional : Value → Option Text
optional (string s) = some s
optional _ = none

outcome_of : Text → TaskOutcome
outcome_of s = if text_eq s (codes "done") then done else abandoned

read_claim : List Value → Option SemanticFrame
read_claim
      (string id
        ∷ string key
        ∷ string session
        ∷ string name
        ∷ strings paths
        ∷ string slice
        ∷ string ts
        ∷ []) =
    some
      (claim (record { head = head_with id key session name ts; write_set = paths; slice = slice }))
read_claim _ = none

read_ask : List Value → Option SemanticFrame
read_ask
      (string id
        ∷ string ask_id
        ∷ string key
        ∷ string session
        ∷ string name
        ∷ string to
        ∷ string question
        ∷ string ts
        ∷ []) =
    some (
      ask (record {
        head = head_with id key session name ts;
        ask_id = ask_id;
        to_session = to;
        question = question;
      }))
read_ask _ = none

read_answer : List Value → Option SemanticFrame
read_answer
      (string id
        ∷ string ask_id
        ∷ string key
        ∷ string session
        ∷ string name
        ∷ bool b
        ∷ string evidence
        ∷ string ts
        ∷ []) =
    some (
      answer (record {
        head = head_with id key session name ts;
        ask_id = ask_id;
        ok = b;
        evidence = evidence;
      }))
read_answer _ = none

read_release : List Value → Option SemanticFrame
read_release (string id ∷ string key ∷ string session ∷ string name ∷ string ts ∷ []) =
    some (release (head_with id key session name ts))
read_release _ = none

read_create : List Value → Option SemanticFrame
read_create
      (string id
        ∷ string key
        ∷ string session
        ∷ string name
        ∷ string text
        ∷ strings paths
        ∷ string ts
        ∷ []) =
    some (
      work (
        task_create (record {
          head = head_with id key session name ts;
          description = text;
          write_set = paths;
        })))
read_create _ = none

read_take : List Value → Option SemanticFrame
read_take
      (string id ∷ string key ∷ string task_id ∷ string session ∷ string name ∷ string ts ∷ []) =
    some (work (task_take (record { head = head_with id key session name ts; task_id = task_id })))
read_take _ = none

read_finish : List Value → Option SemanticFrame
read_finish
      (string id
        ∷ string key
        ∷ string task_id
        ∷ string session
        ∷ string name
        ∷ string end
        ∷ string note
        ∷ string ts
        ∷ []) =
    some (
      work (
        task_finish (record {
          head = head_with id key session name ts;
          task_id = task_id;
          outcome = outcome_of end;
          note = note;
        })))
read_finish _ = none

read_offer : List Value → Option SemanticFrame
read_offer
      (string id
        ∷ string offer_id
        ∷ string key
        ∷ string task_id
        ∷ string session
        ∷ string name
        ∷ to
        ∷ string until
        ∷ string ts
        ∷ []) =
    some (
      work (
        offer (record {
          head = head_with id key session name ts;
          task_id = task_id;
          offer_id = offer_id;
          to_session = optional to;
          expires_at = until;
        })))
read_offer _ = none

read_publish : List Value → Option SemanticFrame
read_publish
      (string id
        ∷ string key
        ∷ string task_id
        ∷ string session
        ∷ string name
        ∷ string title
        ∷ string excerpt
        ∷ string ts
        ∷ []) =
    some (
      work (
        publish (record {
          head = head_with id key session name ts;
          task_id = task_id;
          title = title;
          excerpt = excerpt;
        })))
read_publish _ = none

read_progress : List Value → Option SemanticFrame
read_progress
      (string id
        ∷ string key
        ∷ string session
        ∷ string name
        ∷ string note
        ∷ string ts
        ∷ task_id
        ∷ []) =
    some (
      work (
        progress (record {
          head = head_with id key session name ts;
          note = note;
          task_id = optional task_id;
        })))
read_progress _ = none

read_kind : Text → List Value → Option SemanticFrame
read_kind k vs =
    if text_eq k (codes "claim")
    then read_claim vs
    else if text_eq k (codes "ask")
    then read_ask vs
    else if text_eq k (codes "answer")
    then read_answer vs
    else if text_eq k (codes "release")
    then read_release vs
    else if text_eq k (codes "task_create")
    then read_create vs
    else if text_eq k (codes "task_take")
    then read_take vs
    else if text_eq k (codes "task_finish")
    then read_finish vs
    else if text_eq k (codes "offer")
    then read_offer vs
    else if text_eq k (codes "publish")
    then read_publish vs
    else if text_eq k (codes "progress")
    then read_progress vs
    else none

read : List Value → Option SemanticFrame
read (string k ∷ vs) = read_kind k vs
read _ = none

optional-or_null : (o : Option Text) → optional (or_null o) ≡ o
unfolding optional or_null
optional-or_null none = refl
optional-or_null (some s) = refl

outcome_of-outcome_text : (o : TaskOutcome) → outcome_of (outcome_text o) ≡ o
unfolding outcome_of outcome_text text_eq
outcome_of-outcome_text done = refl
outcome_of-outcome_text abandoned = refl

read-payload_values : (f : SemanticFrame) → read (payload_values f) ≡ some (unsigned f)
unfolding read read_kind payload_values work_payload text_eq read_claim read_ask read_answer
    read_release read_create read_take read_finish read_offer read_publish read_progress
read-payload_values (claim e) = refl
read-payload_values (ask e) = refl
read-payload_values (answer e) = refl
read-payload_values (release h) = refl
read-payload_values (work (task_create e)) = refl
read-payload_values (work (task_take e)) = refl
read-payload_values (work (task_finish e)) = rw (outcome_of-outcome_text e.outcome) refl
read-payload_values (work (offer e)) = rw (optional-or_null e.to_session) refl
read-payload_values (work (publish e)) = refl
read-payload_values (work (progress e)) = rw (optional-or_null e.task_id) refl

frame_or : SemanticFrame → Option SemanticFrame → SemanticFrame
frame_or f none = f
frame_or f (some g) = g

-- Two frames with the same payload agree in their kind and in every field but the signature.
pub payload_values-injective :
    (f g : SemanticFrame) → payload_values f ≡ payload_values g → unsigned f ≡ unsigned g
unfolding frame_or
payload_values-injective f g e =
    ap (frame_or f) (sym (read-payload_values f) ∙ (ap read e ∙ read-payload_values g))
