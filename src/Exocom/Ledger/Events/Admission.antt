-- ===== src/Exocom/Ledger/Events/Admission.antt =====
-- What every event goes through first: its form, and whether it has been seen.
use pi_persona.Base.{
  ◌≡◌, sym, ap, ◌⊎◌, inl, inr, Bool, true, false, none, List, Text, includes, error, ok, Bool-cases,
  Option-cases,
}
use pi_persona.Exocom.Frames.{SemanticFrame, head_of, is_semantic_frame, Value}
use pi_persona.Exocom.Collaboration.{Runtime, retained_collaboration_event}
use pi_persona.Exocom.Ledger.{LedgerState, conflict, ApplyResult, state_or, collaboration_of}
use pi_persona.Exocom.Ledger.Events.{guarded, same_payload, malformed_error}

abbrev pub duplicate_or : LedgerState → ApplyResult → Bool
duplicate_or s (error x) = false
duplicate_or s (ok r) = r.1

module _ (rt : Runtime) (stringify : List Value → Text) where
  -- An event that is let through is a duplicate, which changes nothing, or goes by its own rules; then
  -- it is well formed, is not retained, and its id has not been seen.
  pub record IsNew (s : LedgerState) (e : SemanticFrame) : Type 0 where
    pub formed : is_semantic_frame rt.parse_time e ≡ true
    pub fresh : retained_collaboration_event (collaboration_of s) (head_of e).msg_id ≡ none
    pub unseen : includes s.seen (head_of e).msg_id ≡ false

  pub guarded-cases :
      (s : LedgerState) (e : SemanticFrame) (next : ApplyResult) (s' : LedgerState) (b : Bool)
      → guarded rt stringify s e next ≡ ok (s', b)
      → ((s' ≡ s) × (b ≡ true)) ⊎ (IsNew s e × (next ≡ ok (s', b)))
  unfolding guarded
  guarded-cases s e next s' b h = elim (Bool-cases (is_semantic_frame rt.parse_time e)) [
    | inr bad ↦
        let no : error (malformed_error rt stringify e) ≡ ok (s', b) = rw (bad, guarded) at h in cc
    | inl formed ↦
        elim (Option-cases (retained_collaboration_event (collaboration_of s) (head_of e).msg_id)) [
          | inl fresh ↦ elim (Bool-cases (includes s.seen (head_of e).msg_id)) [
            | inl seen ↦
                let twice : ok (s, true) ≡ ok (s', b) = rw (formed, fresh, seen, guarded) at h in
                inl (sym (ap (state_or s) twice), sym (ap (duplicate_or s) twice))
            | inr unseen ↦ inr (
              record { formed = formed; fresh = fresh; unseen = unseen },
              rw (formed, fresh, unseen, guarded) at h,
            )
          ]
          | inr (held, kept) ↦ elim (Bool-cases (same_payload rt stringify held e)) [
            | inl same ↦
                let twice : ok (s, true) ≡ ok (s', b) = rw (formed, kept, same, guarded) at h in
                inl (sym (ap (state_or s) twice), sym (ap (duplicate_or s) twice))
            | inr other ↦
                let no : error conflict ≡ ok (s', b) = rw (formed, kept, other, guarded) at h in cc
          ]
        ]
  ]
