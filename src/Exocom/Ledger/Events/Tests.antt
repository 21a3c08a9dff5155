-- ===== src/Exocom/Ledger/Events/Tests.antt =====
-- A ledger with one ask.
use pi_persona.Base.{◌≡◌, refl, Bool, true, false, [], ◌∷◌, Text, codes, text_eq, ok}
use pi_persona.Exocom.Frames.{
  Ask, ask, is_semantic_frame, is_head, timestamp, is_stamp, fits, metadata, is_markup,
  optional_bounded, token, is_token_char, bounded_text,
}
use pi_persona.Exocom.Collaboration.{
  retained_collaboration_event, tasks_event, offers_event, evidence_event, or_frame,
}
use pi_persona.Exocom.Ledger.{LedgerState, empty_ledger, ask_of, remember, prune_ledger}
use pi_persona.Exocom.Ledger.Events.{apply_ledger_event, guarded, apply_by_kind, make_ask}
use pi_persona.Exocom.Ledger.Events.Invariant.{IsSound}
use pi_persona.Exocom.Ledger.Events.Reachable.{start, step, pruned, Reachable-IsSound}
use pi_persona.Exocom.Ledger.Events.Idempotence.{apply_ledger_event_twice}
use pi_persona.Exocom.Samples.{sample_runtime, sample_stringify, sample_head}

abbrev question : Ask
question = record {
  head = sample_head (codes "a") (codes "m1");
  ask_id = codes "q1";
  to_session = codes "b";
  question = codes "why";
}

abbrev asked : LedgerState
unfolding ask_of
asked = record empty_ledger {
  asks = ask_of question ∷ [];
  ask_ids = codes "q1" ∷ [];
  seen = codes "m1" ∷ [];
}

asking :
    apply_ledger_event sample_runtime sample_stringify empty_ledger (ask question)
    ≡ ok (asked, false)
unfolding asked apply_ledger_event guarded apply_by_kind make_ask ask_of remember is_semantic_frame
    is_head timestamp is_stamp fits metadata is_markup optional_bounded token is_token_char
    bounded_text retained_collaboration_event tasks_event offers_event evidence_event or_frame
    text_eq
asking = refl

apply_ledger_event_twice_example :
    apply_ledger_event sample_runtime sample_stringify asked (ask question) ≡ ok (asked, true)
apply_ledger_event_twice_example =
    apply_ledger_event_twice sample_runtime sample_stringify empty_ledger (ask question) asked false
      asking

abbrev everybody : Text → Bool
everybody session = true

Reachable-IsSound_example : IsSound sample_runtime (prune_ledger sample_runtime asked 9 5 everybody)
Reachable-IsSound_example =
    Reachable-IsSound sample_runtime sample_stringify
      (prune_ledger sample_runtime asked 9 5 everybody)
      (pruned 9 5 everybody (step (ask question) asked false start asking))
