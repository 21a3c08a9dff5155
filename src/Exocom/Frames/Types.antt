-- ===== src/Exocom/Frames/Types.antt =====
-- exocom/envelope.ts: the semantic frames.
use pi_persona.Base.{Bool, Option, List, Text}

-- The fields that all semantic frames share.
pub record Head : Type 0 where
  pub work_key : Text
  pub from_session : Text
  pub from_name : Text
  pub msg_id : Text
  pub ts : Text
  pub signature : Option Text

pub record Claim : Type 0 where
  pub head : Head
  pub write_set : List Text
  pub slice : Text

pub record Ask : Type 0 where
  pub head : Head
  pub ask_id : Text
  pub to_session : Text
  pub question : Text

pub record Answer : Type 0 where
  pub head : Head
  pub ask_id : Text
  pub ok : Bool
  pub evidence : Text

pub record Progress : Type 0 where
  pub head : Head
  pub note : Text
  pub task_id : Option Text

pub record TaskCreate : Type 0 where
  pub head : Head
  pub description : Text
  pub write_set : List Text

pub record TaskTake : Type 0 where
  pub head : Head
  pub task_id : Text

pub data TaskOutcome : Type 0 where
  done abandoned : TaskOutcome

pub record TaskFinish : Type 0 where
  pub head : Head
  pub task_id : Text
  pub outcome : TaskOutcome
  pub note : Text

pub record Offer : Type 0 where
  pub head : Head
  pub task_id : Text
  pub offer_id : Text
  pub to_session : Option Text
  pub expires_at : Text

pub record Publish : Type 0 where
  pub head : Head
  pub task_id : Text
  pub title : Text
  pub excerpt : Text

-- `ExocomCollaborationFrame | ExocomProgress`
pub data WorkFrame : Type 0 where
  task_create : TaskCreate → WorkFrame
  task_take : TaskTake → WorkFrame
  task_finish : TaskFinish → WorkFrame
  offer : Offer → WorkFrame
  publish : Publish → WorkFrame
  progress : Progress → WorkFrame

pub data SemanticFrame : Type 0 where
  claim : Claim → SemanticFrame
  ask : Ask → SemanticFrame
  answer : Answer → SemanticFrame
  release : Head → SemanticFrame
  work : WorkFrame → SemanticFrame

abbrev pub head_of_work : WorkFrame → Head
head_of_work (task_create e) = e.head
head_of_work (task_take e) = e.head
head_of_work (task_finish e) = e.head
head_of_work (offer e) = e.head
head_of_work (publish e) = e.head
head_of_work (progress e) = e.head

abbrev pub head_of : SemanticFrame → Head
head_of (claim e) = e.head
head_of (ask e) = e.head
head_of (answer e) = e.head
head_of (release h) = h
head_of (work e) = head_of_work e
