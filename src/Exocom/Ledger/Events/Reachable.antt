-- ===== src/Exocom/Ledger/Events/Reachable.antt =====
-- The ledgers that a workspace can come to: from the empty one by events that are accepted and by
-- prunings at any time.
use pi_persona.Base.{
  ℕ, ◌≤◌, ◌≡◌, refl, inl, inr, Bool, true, false, not, ◌&&◌, List, [], ◌∷◌, ◌++◌, map, arith,
  filter, length, length-append, length-filter-le, length-take_last, length-map, All, All-mono,
  Text, text_eq, text_eq_iff, includes, ok, Bool-cases, take_last,
}
use pi_persona.Exocom.Frames.{SemanticFrame, Value}
use pi_persona.Exocom.Collaboration.{Runtime}
use pi_persona.Exocom.Ledger.{
  LedgerAsk, LedgerAnswer, LedgerState, max_results, empty_ledger, dedupe, is_fresh, prune_ledger,
}
use pi_persona.Exocom.Ledger.Events.{apply_ledger_event}
use pi_persona.Exocom.Ledger.Events.Claims.{filter-AreApart}
use pi_persona.Exocom.Ledger.Events.Asks.{filter-AsksSound}
use pi_persona.Exocom.Ledger.Events.Invariant.{IsSound, apply_ledger_event-IsSound}

length-dedupe : (xs : List Text) → length (dedupe xs) ≤ length xs
unfolding dedupe
length-dedupe [] = omega arith
length-dedupe (x ∷ xs) =
    omega (arith, length-dedupe xs, length-filter-le (λ y. not (text_eq y x)) (dedupe xs))

includes-filter :
    (x a : Text) (xs : List Text)
    → text_eq a x ≡ false
    → includes xs a ≡ true
    → includes (filter (λ y. not (text_eq y x)) xs) a ≡ true
includes-filter x a [] n h = cc
includes-filter x a (y ∷ xs) n h =
    ground (arith, includes-filter x a xs n, text_eq_iff y a, text_eq_iff y x, text_eq_iff a x)

includes-dedupe : (a : Text) (xs : List Text) → includes xs a ≡ true → includes (dedupe xs) a ≡ true
unfolding dedupe
includes-dedupe a [] h = cc
includes-dedupe a (x ∷ xs) h = elim (Bool-cases (text_eq x a)) [
  | inl same ↦ rw same refl
  | inr other ↦
      let n : text_eq a x ≡ false = ground (arith, text_eq_iff x a, text_eq_iff a x) in
      rw other (includes-filter x a (dedupe xs) n (includes-dedupe a xs (rw other at h)))
]

includes-ids :
    (asks : List LedgerAsk) (more : List Text)
    → All (λ a. includes (map (λ b. b.ask_id) asks ++ more) a.ask_id ≡ true) asks
includes-ids [] more = tt
includes-ids (a ∷ asks) more = (
  ground (arith, text_eq_iff a.ask_id a.ask_id),
  All-mono (λ b h. ground arith) asks (includes-ids asks more),
)

module _ (rt : Runtime) where
  prune_ledger-IsSound :
      (s : LedgerState) (now ttl : ℕ) (is_live : Text → Bool)
      → IsSound rt s
      → IsSound rt (prune_ledger rt s now ttl is_live)
  unfolding prune_ledger
  prune_ledger-IsSound s now ttl is_live i =
      let asks = filter (λ a. is_live a.from_session && is_live a.to_session) s.asks in
      let answers = take_last max_results (filter (λ a. is_fresh rt a.ts now ttl) s.answers) in
      let kept =
        filter-AsksSound (λ a. is_live a.from_session && is_live a.to_session) s.asks s.ask_ids
          i.asks in
      let few : length answers ≤ max_results =
        omega (
          arith,
          length-take_last max_results (filter (λ a. is_fresh rt a.ts now ttl) s.answers),
        ) in
      let ids = map (λ (a : LedgerAsk). a.ask_id) asks in
      let more = map (λ (a : LedgerAnswer). a.ask_id) answers in
      record {
        claims = filter-AreApart rt _ s.claims i.claims;
        asks = record {
          bound = kept.bound;
          id_bound = omega (
            arith,
            length-dedupe (ids ++ more),
            length-append ids more,
            length-map (λ (a : LedgerAsk). a.ask_id) asks,
            length-map (λ (a : LedgerAnswer). a.ask_id) answers,
            kept.bound,
            few,
          );
          apart = kept.apart;
          known =
              All-mono (λ a h. includes-dedupe a.ask_id (ids ++ more) h) asks
                (includes-ids asks more);
          each = kept.each;
        };
        answers = few;
        seen = i.seen;
      }

  pub data Reachable (stringify : List Value → Text) : LedgerState → Type 0 where
    start : Reachable stringify empty_ledger
    step :
        {s : LedgerState} (e : SemanticFrame) (s' : LedgerState) (b : Bool)
        → Reachable stringify s
        → apply_ledger_event rt stringify s e ≡ ok (s', b)
        → Reachable stringify s'
    pruned :
        {s : LedgerState} (now ttl : ℕ) (is_live : Text → Bool)
        → Reachable stringify s
        → Reachable stringify (prune_ledger rt s now ttl is_live)

  -- In every ledger that accepted events and prunings lead to, the open claims have disjoint write sets
  -- and are at most 128; the pending asks are at most 128, at most 3 from one session to another, and
  -- differ in their ids and in work key or recipient; their ids are taken; and answers, taken ids and
  -- seen message ids are within their bounds.
  pub Reachable-IsSound :
      (stringify : List Value → Text) (s : LedgerState) → Reachable stringify s → IsSound rt s
  Reachable-IsSound stringify _ start = record {
    claims = record { bound = omega arith; apart = tt };
    asks = record {
      bound = omega arith;
      id_bound = omega arith;
      apart = tt;
      known = tt;
      each = λ sender to. omega arith;
    };
    answers = omega arith;
    seen = omega arith;
  }
  Reachable-IsSound stringify s' (step e _ b r h) =
      apply_ledger_event-IsSound rt stringify _ e s' b (Reachable-IsSound stringify _ r) h
  Reachable-IsSound stringify _ (pruned now ttl is_live r) =
      prune_ledger-IsSound _ now ttl is_live (Reachable-IsSound stringify _ r)
