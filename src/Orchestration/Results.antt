-- ===== src/Orchestration/Results.antt =====
-- orchestration/types.ts: the result of one agent. Objects are compared by reference in the source:
-- `handle` stands for the reference.
use pi_persona.Base.{ℕ, Bool, true, false, Option, some, Text}

pub data FailureKind : Type 0 where
  provider abort timeout contract unknown_agent unknown_model agent verification : FailureKind

-- A field of the structured answer, as far as the reducers look at it.
pub data Json : Type 0 where
  string : Text → Json
  number : ℕ → Json
  other : Json

-- `structured`, with the fields that votes are read from.
pub record Structured : Type 0 where
  pub vote : Option Json
  pub result : Option Json
  pub confidence : Option Json

pub record AgentResult : Type 0 where
  pub handle : ℕ
  pub agent : Text
  pub output : Text
  pub structured : Option Structured
  pub ok : Bool
  pub error : Option Text
  pub model_used : Option Text
  pub failure_kind : Option FailureKind

-- `failureKind === "contract"`
abbrev pub is_contract : Option FailureKind → Bool
is_contract (some contract) = true
is_contract _ = false
