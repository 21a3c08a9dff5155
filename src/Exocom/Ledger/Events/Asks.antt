-- ===== src/Exocom/Ledger/Events/Asks.antt =====
-- The asks of the ledger: their number in all and from one session to another, no two of one id or of
-- one work key to one session, and all their ids are taken.
use pi_persona.Base.{
  ◌≤◌, ◌<◌, ◌≡◌, refl, subst, inl, inr, Bool, true, false, not, ◌&&◌, Option, none, some, List, [],
  ◌∷◌, ◌++◌, arith, any, filter, length, length-append, length-filter-le, filter-append, All,
  All-append, All-filter, All-mono, AllPairs, AllPairs-filter, AllPairs-append, Text, text_eq,
  text_eq_iff, includes, take_last, ok, Bool-cases,
}
use pi_persona.Exocom.Frames.{Ask, Answer}
use pi_persona.Exocom.Ledger.{
  LedgerAsk, LedgerState, max_asks, max_ask_ids, max_asks_from_to, max_results, remember, ask_of,
  answer_of,
}
use pi_persona.Exocom.Ledger.Events.{make_ask, make_answer}

-- Another id, and not the same question to the same session.
abbrev pub AskApart : LedgerAsk → LedgerAsk → Type 0
AskApart a b =
    (text_eq a.ask_id b.ask_id ≡ false)
    × ((text_eq a.work_key b.work_key && text_eq a.to_session b.to_session) ≡ false)

abbrev pub from_to : Text → Text → LedgerAsk → Bool
from_to sender to a = text_eq a.from_session sender && text_eq a.to_session to

pub record AsksSound (asks : List LedgerAsk) (ids : List Text) : Type 0 where
  pub bound : length asks ≤ max_asks
  pub id_bound : length ids ≤ max_ask_ids
  pub apart : AllPairs AskApart asks
  pub known : All (λ a. includes ids a.ask_id ≡ true) asks
  pub each : (sender to : Text) → length (filter (from_to sender to) asks) ≤ max_asks_from_to

length-filter-filter :
    (p q : LedgerAsk → Bool) (xs : List LedgerAsk)
    → length (filter p (filter q xs)) ≤ length (filter p xs)
length-filter-filter p q [] = omega arith
length-filter-filter p q (x ∷ xs) = ground (arith, length-filter-filter p q xs)

pub filter-AsksSound :
    (p : LedgerAsk → Bool) (asks : List LedgerAsk) (ids : List Text)
    → AsksSound asks ids
    → AsksSound (filter p asks) ids
filter-AsksSound p asks ids h = record {
  bound = omega (arith, h.bound, length-filter-le p asks);
  id_bound = h.id_bound;
  apart = AllPairs-filter AskApart p asks h.apart;
  known = All-filter _ p asks h.known;
  each =
      λ sender to. omega (arith, h.each sender to, length-filter-filter (from_to sender to) p asks);
}

includes-append_left :
    (ids : List Text) (x y : Text) → includes ids x ≡ true → includes (ids ++ (y ∷ [])) x ≡ true
includes-append_left [] x y h = cc
includes-append_left (z ∷ ids) x y h = ground (arith, includes-append_left ids x y)

includes-append_own : (ids : List Text) (y : Text) → includes (ids ++ (y ∷ [])) y ≡ true
includes-append_own [] y = ground (arith, text_eq_iff y y)
includes-append_own (z ∷ ids) y = ground (arith, includes-append_own ids y)

-- An id that is taken is another than one that is not.
known-apart :
    (ids : List Text) (x y : Text)
    → includes ids x ≡ true
    → includes ids y ≡ false
    → text_eq x y ≡ false
known-apart ids x y h k = elim (Bool-cases (text_eq x y)) [
  | inl same ↦ let e : x ≡ y = (text_eq_iff x y).0 same in absurd (ground (arith, e))
  | inr other ↦ other
]

any-false :
    (p : LedgerAsk → Bool) (xs : List LedgerAsk) → any p xs ≡ false → All (λ x. p x ≡ false) xs
any-false p [] h = tt
any-false p (x ∷ xs) h = (ground arith, any-false p xs (ground arith))

-- What the tests of an ask leave.
record CanAsk (s : LedgerState) (e : Ask) : Type 0 where
  pub new_id : includes s.ask_ids e.ask_id ≡ false
  pub id_room : length s.ask_ids < max_ask_ids
  pub room : length s.asks < max_asks
  pub few : length (filter (from_to e.head.from_session e.to_session) s.asks) < max_asks_from_to
  pub single :
      any (λ a. text_eq a.work_key e.head.work_key && text_eq a.to_session e.to_session) s.asks
      ≡ false

abbrev pub with_ask : LedgerState → Ask → LedgerState
with_ask s e = record s { asks = s.asks ++ (ask_of e ∷ []); ask_ids = s.ask_ids ++ (e.ask_id ∷ []) }

make_ask-CanAsk :
    (s : LedgerState) (e : Ask) (s' : LedgerState) (b : Bool)
    → make_ask s e ≡ ok (s', b)
    → CanAsk s e
unfolding make_ask
make_ask-CanAsk s e s' b h = record {
  new_id = ground arith;
  id_room = ground arith;
  room = ground arith;
  few = ground arith;
  single = ground arith;
}

pub make_ask-state :
    (s : LedgerState) (e : Ask) (s' : LedgerState) (b : Bool)
    → make_ask s e ≡ ok (s', b)
    → s' ≡ remember (with_ask s e) e.head.msg_id
unfolding make_ask
make_ask-state s e s' b h = ground arith

All-both :
    (P Q : LedgerAsk → Type 0) (xs : List LedgerAsk) → All P xs → All Q xs → All (λ x. P x × Q x) xs
All-both P Q [] h k = tt
All-both P Q (x ∷ xs) (p, h) (q, k) = ((p, q), All-both P Q xs h k)

few-append :
    (s : LedgerState) (e : Ask) (sender to : Text)
    → CanAsk s e
    → length (filter (from_to sender to) s.asks) ≤ max_asks_from_to
    → length (filter (from_to sender to) (s.asks ++ (ask_of e ∷ []))) ≤ max_asks_from_to
unfolding ask_of
few-append s e sender to can h =
    rw
      (
        filter-append (from_to sender to) s.asks (ask_of e ∷ []),
        length-append (filter (from_to sender to) s.asks)
            (filter (from_to sender to) (ask_of e ∷ [])),
      )
      (elim (Bool-cases (from_to sender to (ask_of e))) [
        | inl own ↦
            let same : (e.head.from_session ≡ sender) × (e.to_session ≡ to) = (
              ground (arith, text_eq_iff e.head.from_session sender),
              ground (arith, text_eq_iff e.to_session to),
            ) in
            let few : length (filter (from_to sender to) s.asks) < max_asks_from_to =
              subst (λ x. length (filter (from_to x to) s.asks) < max_asks_from_to) same.0
                (subst
                  (λ x. length (filter (from_to e.head.from_session x) s.asks) < max_asks_from_to)
                  same.1 can.few) in
            rw own (omega arith)
        | inr other ↦ rw other (omega arith)
      ])

with_ask-AsksSound :
    (s : LedgerState) (e : Ask)
    → CanAsk s e
    → AsksSound s.asks s.ask_ids
    → AsksSound (s.asks ++ (ask_of e ∷ [])) (s.ask_ids ++ (e.ask_id ∷ []))
unfolding ask_of
with_ask-AsksSound s e can h = record {
  bound = omega (arith, can.room, length-append s.asks (ask_of e ∷ []));
  id_bound = omega (arith, can.id_room, length-append s.ask_ids (e.ask_id ∷ []));
  apart = AllPairs-append AskApart s.asks (ask_of e) h.apart (
      All-both _ _ s.asks
        (All-mono (λ a k. known-apart s.ask_ids a.ask_id e.ask_id k can.new_id) s.asks h.known)
        (any-false _ s.asks can.single));
  known =
      All-append _ s.asks (ask_of e ∷ [])
        (All-mono (λ a k. includes-append_left s.ask_ids a.ask_id e.ask_id k) s.asks h.known)
        (includes-append_own s.ask_ids e.ask_id, tt);
  each = λ sender to. few-append s e sender to can (h.each sender to);
}

-- An accepted ask joins the others, and all that is required of them still holds.
pub make_ask-AsksSound :
    (s : LedgerState) (e : Ask) (s' : LedgerState) (b : Bool)
    → AsksSound s.asks s.ask_ids
    → make_ask s e ≡ ok (s', b)
    → (s' ≡ remember (with_ask s e) e.head.msg_id)
      × AsksSound (s.asks ++ (ask_of e ∷ [])) (s.ask_ids ++ (e.ask_id ∷ []))
make_ask-AsksSound s e s' b h k =
    (make_ask-state s e s' b k, with_ask-AsksSound s e (make_ask-CanAsk s e s' b k) h)

abbrev pub with_answer : LedgerState → Answer → LedgerAsk → LedgerState
with_answer s e asked = record s {
  asks = filter (λ a. not (text_eq a.ask_id e.ask_id)) s.asks;
  answers = take_last max_results (s.answers ++ (answer_of e asked ∷ []));
}

-- An accepted answer is one to a pending ask of its work key, by the session that was asked.
pub make_answer-state :
    (s : LedgerState) (e : Answer) (o : Option LedgerAsk) (s' : LedgerState) (b : Bool)
    → make_answer s e o ≡ ok (s', b)
    → (asked : LedgerAsk) × (o ≡ some asked)
      × (asked.work_key ≡ e.head.work_key)
      × (asked.to_session ≡ e.head.from_session)
      × (s' ≡ remember (with_answer s e asked) e.head.msg_id)
unfolding make_answer
make_answer-state s e none s' b h = cc
make_answer-state s e (some asked) s' b h = (
  asked,
  refl,
  ground (arith, text_eq_iff asked.work_key e.head.work_key),
  ground (arith, text_eq_iff e.head.from_session asked.to_session),
  ground arith,
)
