-- ===== src/Exocom/Ledger/Events/Idempotence.antt =====
-- An event that comes again is a duplicate and changes nothing.
use pi_persona.Base.{
  ℕ, zero, suc, ◌-◌, ◌≤◌, ◌≡◌, refl, sym, subst, ap, ◌∙◌, inl, inr, Bool, true, false, none, some,
  List, [], ◌∷◌, ◌++◌, arith, ltb, length, length-append, drop, Text, text_eq_refl, includes,
  Outcome, error, ok, Bool-cases, Option-cases,
}
use pi_persona.Exocom.Frames.{
  SemanticFrame, claim, ask, answer, release, work, Head, head_of, head_of_work, WorkFrame,
  is_semantic_frame, Value, payload_values,
}
use pi_persona.Exocom.Collaboration.{
  CollaborationState, Runtime, WorkError, retained_collaboration_event, at,
}
use pi_persona.Exocom.Collaboration.Transitions.{apply_collaboration_event}
use pi_persona.Exocom.Collaboration.Transitions.Retention.{
  apply_collaboration_event-retained, release-retained,
}
use pi_persona.Exocom.Ledger.{
  LedgerState, LedgerClaim, LedgerError, max_seen, ApplyResult, state_or, remember,
  collaboration_of, claim_of,
}
use pi_persona.Exocom.Ledger.Events.{
  released, make_release, settle, settle_work, do_work, apply_by_kind, apply_ledger_event, guarded,
  same_payload,
}
use pi_persona.Exocom.Ledger.Events.Admission.{guarded-cases, IsNew}
use pi_persona.Exocom.Ledger.Events.Claims.{make_claim-AreApart}
use pi_persona.Exocom.Ledger.Events.Asks.{make_ask-state, make_answer-state, with_ask, with_answer}

includes-drop :
    (k : ℕ) (xs : List Text) (id : Text)
    → k ≤ length xs
    → includes (drop k (xs ++ (id ∷ []))) id ≡ true
includes-drop zero [] id h = ground (arith, text_eq_refl id)
includes-drop zero (x ∷ xs) id h = ground (arith, includes-drop zero xs id)
includes-drop (suc k) [] id h = absurd (omega arith)
includes-drop (suc k) (x ∷ xs) id h = includes-drop k xs id (omega arith)

includes-remember :
    (s : LedgerState) (id : Text)
    → includes s.seen id ≡ false
    → includes (remember s id).seen id ≡ true
unfolding remember
includes-remember s id n =
    let more = s.seen ++ (id ∷ []) in
    rw n (elim (Bool-cases (ltb max_seen (length more))) [
      | inl long ↦ rw long (
          includes-drop (length more - max_seen) s.seen id
            (omega (arith, length-append s.seen (id ∷ []))))
      | inr short ↦ rw short (includes-drop zero s.seen id (omega arith))
    ])

-- The state has seen the event, and retains nothing else under its id.
record HasTaken (s : LedgerState) (e : SemanticFrame) : Type 0 where
  pub seen : includes s.seen (head_of e).msg_id ≡ true
  pub only :
      (h : SemanticFrame)
      → retained_collaboration_event (collaboration_of s) (head_of e).msg_id ≡ some h
      → h ≡ e

module _ (rt : Runtime) (stringify : List Value → Text) where
  again :
      (s : LedgerState) (e : SemanticFrame) (next : ApplyResult)
      → is_semantic_frame rt.parse_time e ≡ true
      → HasTaken s e
      → guarded rt stringify s e next ≡ ok (s, true)
  unfolding guarded same_payload
  again s e next formed t =
      elim (Option-cases (retained_collaboration_event (collaboration_of s) (head_of e).msg_id)) [
        | inl free ↦ rw (formed, free, t.seen, guarded) refl
        | inr (h, held) ↦
            let alike : same_payload rt stringify h e ≡ true =
              subst (λ x. same_payload rt stringify x e ≡ true) (sym (t.only h held))
                (text_eq_refl (stringify (payload_values e))) in
            rw (formed, held, alike, guarded) refl
      ]

  -- The new state is one with other claims and asks, and the id is remembered.
  taken_plain :
      (s base s' : LedgerState) (e : SemanticFrame)
      → IsNew rt stringify s e
      → s' ≡ remember base (head_of e).msg_id
      → base.seen ≡ s.seen
      → ((h : SemanticFrame)
          → retained_collaboration_event (collaboration_of base) (head_of e).msg_id ≡ some h
          → h ≡ e)
      → HasTaken s' e
  taken_plain s base s' e new same seen only =
      subst (λ x. HasTaken x e) (sym same)
        (record {
          seen = includes-remember base (head_of e).msg_id (rw seen new.unseen);
          only = unfold remember in only;
        })

  fresh_only :
      (c : CollaborationState) (id : Text) (e : SemanticFrame)
      → retained_collaboration_event c id ≡ none
      → (h : SemanticFrame) → retained_collaboration_event c id ≡ some h
      → h ≡ e
  fresh_only c id e n h k = let no : none ≡ some h = sym n ∙ k in cc

  release-HasTaken :
      (s : LedgerState) (h : Head) (s' : LedgerState) (b : Bool)
      → IsNew rt stringify s (release h)
      → make_release rt s h ≡ ok (s', b)
      → HasTaken s' (release h)
  unfolding make_release
  release-HasTaken s h s' b new k =
      taken_plain s (released rt s h) s' (release h) new (ground arith) refl (
        fresh_only _ h.msg_id (release h) (
          release-retained (collaboration_of s) h.from_session h.work_key (at (rt.parse_time h.ts))
            h.msg_id
          ∙ new.fresh))

  settle-HasTaken :
      (s : LedgerState) (e : WorkFrame) (next : CollaborationState)
      (claims : Outcome LedgerError (List LedgerClaim)) (s' : LedgerState) (b : Bool)
      → IsNew rt stringify s (work e)
      → apply_collaboration_event rt (collaboration_of s) e ≡ ok next
      → settle rt stringify s e next claims ≡ ok (s', b)
      → HasTaken s' (work e)
  unfolding settle
  settle-HasTaken s e next (error x) s' b new a k = cc
  settle-HasTaken s e next (ok cs) s' b new a k =
      taken_plain s (record s { claims = cs; collaboration = some next }) s' (work e) new
        (sym (ap (state_or s) k)) refl
        (λ h held.
          apply_collaboration_event-retained rt (collaboration_of s) e next (head_of_work e).msg_id
            h a new.fresh held)

  settle_work-HasTaken :
      (s : LedgerState) (e : WorkFrame) (next : Outcome WorkError CollaborationState)
      (s' : LedgerState) (b : Bool)
      → IsNew rt stringify s (work e)
      → apply_collaboration_event rt (collaboration_of s) e ≡ next
      → settle_work rt stringify s e next ≡ ok (s', b)
      → HasTaken s' (work e)
  unfolding settle_work
  settle_work-HasTaken s e (error x) s' b new a k = cc
  settle_work-HasTaken s e (ok next) s' b new a k = settle-HasTaken s e next _ s' b new a k

  apply_by_kind-HasTaken :
      (s : LedgerState) (e : SemanticFrame) (s' : LedgerState) (b : Bool)
      → IsNew rt stringify s e
      → apply_by_kind rt stringify s e ≡ ok (s', b)
      → HasTaken s' e
  unfolding apply_by_kind do_work
  apply_by_kind-HasTaken s (claim e) s' b new k =
      taken_plain s (record s { claims = s.claims ++ (claim_of e ∷ []) }) s' (claim e) new
        (make_claim-AreApart rt s e s' b k).0 refl (fresh_only _ _ (claim e) new.fresh)
  apply_by_kind-HasTaken s (ask e) s' b new k =
      taken_plain s (with_ask s e) s' (ask e) new (make_ask-state s e s' b k) refl
        (fresh_only _ _ (ask e) new.fresh)
  apply_by_kind-HasTaken s (answer e) s' b new k =
      let (asked, found, key, to, same) = make_answer-state s e _ s' b k in
      taken_plain s (with_answer s e asked) s' (answer e) new same refl
        (fresh_only _ _ (answer e) new.fresh)
  apply_by_kind-HasTaken s (release h) s' b new k = release-HasTaken s h s' b new k
  apply_by_kind-HasTaken s (work e) s' b new k = settle_work-HasTaken s e _ s' b new refl k

  -- An event that was let through, be it new or a duplicate, is a duplicate when it comes again at
  -- once, and changes nothing, whatever its kind.
  pub apply_ledger_event_twice :
      (s : LedgerState) (e : SemanticFrame) (s' : LedgerState) (b : Bool)
      → apply_ledger_event rt stringify s e ≡ ok (s', b)
      → apply_ledger_event rt stringify s' e ≡ ok (s', true)
  unfolding apply_ledger_event
  apply_ledger_event_twice s e s' b k = elim (guarded-cases rt stringify s e _ s' b k) [
    | inl (same, dup) ↦
        subst (λ x. apply_ledger_event rt stringify x e ≡ ok (s', true)) (sym same)
          (k ∙ ap (λ x. ok (s', x)) dup)
    | inr (new, next) ↦ again s' e _ new.formed (apply_by_kind-HasTaken s e s' b new next)
  ]
