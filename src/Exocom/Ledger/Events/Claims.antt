-- ===== src/Exocom/Ledger/Events/Claims.antt =====
-- The claims of the ledger: within their number, and no two of them on overlapping paths.
use pi_persona.Base.{
  ◌≤◌, ◌<◌, ◌≡◌, refl, sym, subst, ap, inl, inr, Bool, not, Option, none, some, List, [], ◌∷◌, ◌++◌,
  map, arith, leb, any, filter, length, length-append, length-filter-le, All, AllPairs, Text, error,
  ok, Bool-cases, Option-cases, text_eq, ◌==◌,
}
use pi_persona.Core.Ownership.{WriteSetOverlap, find_write_set_overlaps}
use pi_persona.Core.Ownership.Overlaps.{IsDisjoint, find_write_set_overlaps-nil_iff}
use pi_persona.Exocom.Frames.{
  Claim, TaskTake, TaskCreate, claim, WorkFrame, task_create, task_take, task_finish, offer,
  publish, progress, Value,
}
use pi_persona.Exocom.Collaboration.{CollaborationTask, Runtime}
use pi_persona.Exocom.Ledger.Events.Admission.{guarded-cases}
use pi_persona.Exocom.Ledger.{
  LedgerClaim, LedgerState, max_claims, ApplyResult, state_or, remember, claim_of, owner_of_claim,
  is_of,
}
use pi_persona.Exocom.Ledger.Events.{
  claim_path_error, join_claim, make_claim, guarded, claim_for, pick_up, claims_in, claims_after,
}

module _ {A : Type 0} {B : Type 0} (f : A → B) where
  map-append : (xs ys : List A) → map f (xs ++ ys) ≡ map f xs ++ map f ys
  map-append [] ys = refl
  map-append (x ∷ xs) ys = ap (◌∷◌ (f x)) (map-append xs ys)

  All-map-filter :
      (P : B → Type 0) (p : A → Bool) (xs : List A) → All P (map f xs) → All P (map f (filter p xs))
  All-map-filter P p [] h = tt
  All-map-filter P p (x ∷ xs) (h, hs) = elim (Bool-cases (p x)) [
    | inl e ↦ rw e (h, All-map-filter P p xs hs)
    | inr e ↦ rw e (All-map-filter P p xs hs)
  ]

  AllPairs-map-filter :
      (R : B → B → Type 0) (p : A → Bool) (xs : List A)
      → AllPairs R (map f xs)
      → AllPairs R (map f (filter p xs))
  AllPairs-map-filter R p [] h = tt
  AllPairs-map-filter R p (x ∷ xs) (h, hs) = elim (Bool-cases (p x)) [
    | inl e ↦ rw e (All-map-filter (R (f x)) p xs h, AllPairs-map-filter R p xs hs)
    | inr e ↦ rw e (AllPairs-map-filter R p xs hs)
  ]

module _ (rt : Runtime) where
  -- At most so many claims, and every two of them are disjoint.
  pub record AreApart (claims : List LedgerClaim) : Type 0 where
    pub bound : length claims ≤ max_claims
    pub apart : AllPairs (IsDisjoint rt.paths) (map owner_of_claim claims)

  pub filter-AreApart :
      (p : LedgerClaim → Bool) (claims : List LedgerClaim)
      → AreApart claims
      → AreApart (filter p claims)
  filter-AreApart p claims h = record {
    bound = omega (arith, h.bound, length-filter-le p claims);
    apart = AllPairs-map-filter owner_of_claim (IsDisjoint rt.paths) p claims h.apart;
  }

  join_claim-AreApart :
      (s : LedgerState) (e : Claim) (os : List WriteSetOverlap) (s' : LedgerState) (b : Bool)
      → length s.claims < max_claims
      → find_write_set_overlaps rt.paths
          (map owner_of_claim s.claims ++ (owner_of_claim (claim_of e) ∷ []))
        ≡ os
      → join_claim rt s e os ≡ ok (s', b)
      → (s' ≡ remember (record s { claims = s.claims ++ (claim_of e ∷ []) }) e.head.msg_id)
        × AreApart (s.claims ++ (claim_of e ∷ []))
  unfolding join_claim
  join_claim-AreApart s e (o ∷ os) s' b room none_found h = absurd (ground arith)
  join_claim-AreApart s e [] s' b room none_found h = (
    sym (ap (state_or s) h),
    record {
      bound = omega (arith, length-append s.claims (claim_of e ∷ []));
      apart =
          rw (map-append owner_of_claim s.claims (claim_of e ∷ []))
            ((find_write_set_overlaps-nil_iff rt.paths _).0 none_found);
    },
  )

  -- An accepted claim is added to the others, and they are still apart.
  pub make_claim-AreApart :
      (s : LedgerState) (e : Claim) (s' : LedgerState) (b : Bool)
      → make_claim rt s e ≡ ok (s', b)
      → (s' ≡ remember (record s { claims = s.claims ++ (claim_of e ∷ []) }) e.head.msg_id)
        × AreApart (s.claims ++ (claim_of e ∷ []))
  unfolding make_claim
  make_claim-AreApart s e s' b h = elim (Bool-cases (leb max_claims (length s.claims))) [
    | inl full ↦ absurd (ground arith)
    | inr room ↦ elim (Option-cases (claim_path_error rt e.write_set)) [
      | inl fine ↦
          join_claim-AreApart s e _ s' b (ground arith) refl (rw (room, fine, make_claim) at h)
      | inr (x, bad) ↦ let no : error x ≡ ok (s', b) = rw (room, bad, make_claim) at h in cc
    ]
  ]

  guarded-AreApart :
      (stringify : List Value → Text) (s : LedgerState) (e : Claim) (s' : LedgerState) (b : Bool)
      → AreApart s.claims
      → guarded rt stringify s (claim e) (make_claim rt s e) ≡ ok (s', b)
      → AreApart s'.claims
  guarded-AreApart stringify s e s' b h k =
      elim (guarded-cases rt stringify s (claim e) (make_claim rt s e) s' b k) [
        | inl (same, _) ↦ subst (λ x. AreApart x.claims) (sym same) h
        | inr (_, next) ↦
            let (same, apart) = make_claim-AreApart s e s' b next in
            subst (λ x. AreApart x.claims) (sym same) (unfold remember in apart)
      ]

  module _ (stringify : List Value → Text) where
    claims_in-ok :
        (r : ApplyResult) (claims : List LedgerClaim)
        → claims_in rt stringify r ≡ ok claims
        → (s' : LedgerState) × (b : Bool) × (r ≡ ok (s', b)) × (s'.claims ≡ claims)
    unfolding claims_in
    claims_in-ok (error x) claims h = cc
    claims_in-ok (ok (s', b)) claims h = (s', b, refl, ground arith)

    pick_up-AreApart :
        (s : LedgerState) (e : TaskTake) (created : TaskCreate) (claims : List LedgerClaim)
        → AreApart s.claims
        → pick_up rt stringify s e created ≡ ok claims
        → AreApart claims
    unfolding pick_up
    pick_up-AreApart s e created claims h k =
        elim (Bool-cases (
          any (λ c. is_of e.head.work_key e.head.from_session c.work_key c.from_session)
            s.claims)) [
              | inl double ↦ absurd (ground arith)
              | inr single ↦
                  let (s', b, done, same) = claims_in-ok _ claims (rw single at k) in
                  rw (← same)
                    (guarded-AreApart stringify s (claim_for rt stringify e created) s' b h done)
            ]

    pub claims_after-AreApart :
        (s : LedgerState) (e : WorkFrame) (task : Option CollaborationTask)
        (claims : List LedgerClaim)
        → AreApart s.claims
        → claims_after rt stringify s e task ≡ ok claims
        → AreApart claims
    unfolding claims_after
    claims_after-AreApart s (task_take e) (some task) claims h k =
        elim (Bool-cases (length task.created.write_set == 0)) [
          | inl none_needed ↦ let same : s.claims ≡ claims = ground arith in rw (← same) h
          | inr needed ↦ pick_up-AreApart s e task.created claims h (ground arith)
        ]
    claims_after-AreApart s (task_finish e) (some task) claims h k =
        elim (Option-cases task.taken) [
          | inl n ↦ let same : s.claims ≡ claims = ground arith in rw (← same) h
          | inr (by, n) ↦
              let same : filter (λ c. not (text_eq c.msg_id by.head.msg_id)) s.claims ≡ claims =
                ground arith in
              rw (← same) (filter-AreApart _ s.claims h)
        ]
    claims_after-AreApart s (task_take e) none claims h k =
        let same : s.claims ≡ claims = ground arith in rw (← same) h
    claims_after-AreApart s (task_finish e) none claims h k =
        let same : s.claims ≡ claims = ground arith in rw (← same) h
    claims_after-AreApart s (task_create e) task claims h k =
        let same : s.claims ≡ claims = ground arith in rw (← same) h
    claims_after-AreApart s (offer e) task claims h k =
        let same : s.claims ≡ claims = ground arith in rw (← same) h
    claims_after-AreApart s (publish e) task claims h k =
        let same : s.claims ≡ claims = ground arith in rw (← same) h
    claims_after-AreApart s (progress e) task claims h k =
        let same : s.claims ≡ claims = ground arith in rw (← same) h
