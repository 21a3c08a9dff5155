-- ===== src/Exocom/Ledger/Events/Invariant.antt =====
-- What holds of every ledger that events and prunings lead to from the empty one.
use pi_persona.Base.{
  ◌≤◌, ◌≡◌, refl, sym, subst, ap, inl, inr, Bool, Option, some, List, [], ◌∷◌, ◌++◌, arith,
  if◌then◌else◌, length, length-take_last, take_last, Text, includes, Outcome, error, ok,
}
use pi_persona.Exocom.Frames.{
  SemanticFrame, claim, ask, answer, release, work, Head, Answer, WorkFrame, head_of_work, Value,
}
use pi_persona.Exocom.Collaboration.{CollaborationState, Runtime, WorkError}
use pi_persona.Exocom.Ledger.{
  LedgerAsk, LedgerClaim, LedgerAnswer, LedgerState, LedgerError, max_results, max_seen, state_or,
  remember, answer_of, claim_of,
}
use pi_persona.Exocom.Ledger.Events.{
  released, make_release, settle, settle_work, do_work, apply_by_kind, apply_ledger_event,
  make_answer,
}
use pi_persona.Exocom.Ledger.Events.Admission.{guarded-cases}
use pi_persona.Exocom.Ledger.Events.Claims.{
  AreApart, filter-AreApart, make_claim-AreApart, claims_after-AreApart,
}
use pi_persona.Exocom.Ledger.Events.Asks.{
  AsksSound, filter-AsksSound, make_ask-AsksSound, make_answer-state, with_ask, with_answer,
}

module _ (rt : Runtime) where
  -- The claims are disjoint and the asks are told apart; each list is within its bound.
  pub record IsSound (s : LedgerState) : Type 0 where
    pub claims : AreApart rt s.claims
    pub asks : AsksSound s.asks s.ask_ids
    pub answers : length s.answers ≤ max_results
    pub seen : length s.seen ≤ max_seen

  remember-seen : (s : LedgerState) (id : Text) → length (remember s id).seen ≤ max_seen
  unfolding remember
  remember-seen s id = ground (
    arith,
    length-take_last max_seen (if includes s.seen id then s.seen else s.seen ++ (id ∷ [])),
  )

  -- Only the claims, asks and answers of an accepted state matter.
  accepted :
      (s s' : LedgerState) (id : Text)
      → s' ≡ remember s id
      → AreApart rt s.claims
      → AsksSound s.asks s.ask_ids
      → length s.answers ≤ max_results
      → IsSound s'
  accepted s s' id e c a n = subst IsSound (sym e) (record {
    claims = unfold remember in c;
    asks = unfold remember in a;
    answers = unfold remember in n;
    seen = remember-seen s id;
  })

  answers-bound :
      (answers : List LedgerAnswer) → length (take_last max_results answers) ≤ max_results
  answers-bound answers = omega (arith, length-take_last max_results answers)

  make_release-IsSound :
      (s : LedgerState) (h : Head) (s' : LedgerState) (b : Bool)
      → IsSound s
      → make_release rt s h ≡ ok (s', b)
      → IsSound s'
  unfolding make_release
  make_release-IsSound s h s' b i k =
      accepted (released rt s h) s' h.msg_id (ground arith) (filter-AreApart rt _ s.claims i.claims)
        (filter-AsksSound _ s.asks s.ask_ids i.asks) i.answers

  make_answer-IsSound :
      (s : LedgerState) (e : Answer) (o : Option LedgerAsk) (s' : LedgerState) (b : Bool)
      → IsSound s
      → make_answer s e o ≡ ok (s', b)
      → IsSound s'
  make_answer-IsSound s e o s' b i k =
      let (asked, found, key, to, same) = make_answer-state s e o s' b k in
      accepted (with_answer s e asked) s' e.head.msg_id same i.claims
        (filter-AsksSound _ s.asks s.ask_ids i.asks)
        (answers-bound (s.answers ++ (answer_of e asked ∷ [])))

  module _ (stringify : List Value → Text) where
    settle-IsSound :
        (s : LedgerState) (e : WorkFrame) (next : CollaborationState)
        (claims : Outcome LedgerError (List LedgerClaim)) (s' : LedgerState) (b : Bool)
        → IsSound s
        → ((cs : List LedgerClaim) → claims ≡ ok cs → AreApart rt cs)
        → settle rt stringify s e next claims ≡ ok (s', b)
        → IsSound s'
    unfolding settle
    settle-IsSound s e next (error x) s' b i c k = cc
    settle-IsSound s e next (ok cs) s' b i c k =
        accepted (record s { claims = cs; collaboration = some next }) s' (head_of_work e).msg_id
          (sym (ap (state_or s) k)) (c cs refl) i.asks i.answers

    settle_work-IsSound :
        (s : LedgerState) (e : WorkFrame) (next : Outcome WorkError CollaborationState)
        (s' : LedgerState) (b : Bool)
        → IsSound s
        → settle_work rt stringify s e next ≡ ok (s', b)
        → IsSound s'
    unfolding settle_work
    settle_work-IsSound s e (error x) s' b i k = cc
    settle_work-IsSound s e (ok next) s' b i k =
        settle-IsSound s e next _ s' b i
          (λ cs. claims_after-AreApart rt stringify s e _ cs i.claims) k

    apply_by_kind-IsSound :
        (s : LedgerState) (e : SemanticFrame) (s' : LedgerState) (b : Bool)
        → IsSound s
        → apply_by_kind rt stringify s e ≡ ok (s', b)
        → IsSound s'
    unfolding apply_by_kind do_work
    apply_by_kind-IsSound s (claim e) s' b i k =
        let (same, apart) = make_claim-AreApart rt s e s' b k in
        accepted (record s { claims = s.claims ++ (claim_of e ∷ []) }) s' e.head.msg_id same apart
          i.asks i.answers
    apply_by_kind-IsSound s (ask e) s' b i k =
        let (same, sound) = make_ask-AsksSound s e s' b i.asks k in
        accepted (with_ask s e) s' e.head.msg_id same i.claims sound i.answers
    apply_by_kind-IsSound s (answer e) s' b i k = make_answer-IsSound s e _ s' b i k
    apply_by_kind-IsSound s (release h) s' b i k = make_release-IsSound s h s' b i k
    apply_by_kind-IsSound s (work e) s' b i k = settle_work-IsSound s e _ s' b i k

    pub apply_ledger_event-IsSound :
        (s : LedgerState) (e : SemanticFrame) (s' : LedgerState) (b : Bool)
        → IsSound s
        → apply_ledger_event rt stringify s e ≡ ok (s', b)
        → IsSound s'
    unfolding apply_ledger_event
    apply_ledger_event-IsSound s e s' b i k = elim (guarded-cases rt stringify s e _ s' b k) [
      | inl (same, _) ↦ subst IsSound (sym same) i
      | inr (_, next) ↦ apply_by_kind-IsSound s e s' b i next
    ]
