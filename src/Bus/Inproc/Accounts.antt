-- ===== src/Bus/Inproc/Accounts.antt =====
-- Counts of an id among the pending asks and among the settlements.
use pi_persona.Base.{
  ℕ, ◌+◌, ◌≤◌, ◌≡◌, ◌∙◌, sym, refl, subst, inl, inr, not, ◌||◌, Option, none, some, List, [], ◌∷◌,
  ◌++◌, arith, ◌==◌, if◌then◌else◌, length, length-append, filter, filter-append, find, find-filter,
  Bool-cases, Option-cases, Text, text_eq,
}
use pi_persona.Bus.Inproc.{
  PendingAsk, InProcessBus, Reason, unregistered, Settlement, settlement_of, settle_ask, settle_all,
  without_ask, retire_ask_envelope,
}

abbrev pub pending_count : ℕ → InProcessBus → ℕ
pending_count id s = length (filter (λ p. p.id == id) s.pending_asks)

abbrev pub settled_count : ℕ → List Settlement → ℕ
settled_count id log = length (filter (λ e. e.id == id) log)

pub settled_count-append :
    (id : ℕ) (log more : List Settlement)
    → settled_count id (log ++ more) ≡ settled_count id log + settled_count id more
settled_count-append id log more =
    rw (filter-append (λ e. e.id == id) log more)
      (length-append (filter (λ e. e.id == id) log) (filter (λ e. e.id == id) more))

count-without :
    (i id : ℕ) (asks : List PendingAsk)
    → length (filter (λ p. p.id == i) (filter (λ p. not (p.id == id)) asks))
      ≡ (if i == id then 0 else length (filter (λ p. p.id == i) asks))
count-without i id [] = ground arith
count-without i id (p ∷ asks) = ground (arith, count-without i id asks)

found-count :
    (id : ℕ) (asks : List PendingAsk) (p : PendingAsk)
    → find (λ q. q.id == id) asks ≡ some p
    → 1 ≤ length (filter (λ q. q.id == id) asks)
found-count id [] p h = ground arith
found-count id (q ∷ asks) p h = ground (arith, found-count id asks p)

-- A settlement moves the count of each id from the pending asks to the settlements.
pub settle_ask-count :
    (s : InProcessBus) (id : ℕ) (reason : Reason) (reply : Option Text) (i : ℕ)
    → pending_count i s ≤ 1
    → pending_count i (settle_ask s id reason reply).1
        + settled_count i (settle_ask s id reason reply).2
      ≡ pending_count i s
unfolding settle_ask retire_ask_envelope without_ask settlement_of
settle_ask-count s id reason reply i few =
    elim (Option-cases (find (λ p. p.id == id) s.pending_asks)) [
      | inl unknown ↦ rw (unknown, settle_ask) (omega arith)
      | inr (p, found) ↦
          let own : p.id ≡ id =
            ground (arith, find-filter (λ q. q.id == id) s.pending_asks p found) in
          let one = found-count id s.pending_asks p found in
          let left = count-without i id s.pending_asks in
          rw (found, settle_ask, left, own)
            (elim (Bool-cases (i == id)) [
              | inl same ↦
                  let e : i ≡ id = ground arith in
                  ground (arith, few, subst (λ j. 1 ≤ pending_count j s) (sym e) one)
              | inr other ↦ ground arith
            ])
    ]

pub settle_ask-seq :
    (s : InProcessBus) (id : ℕ) (reason : Reason) (reply : Option Text)
    → (settle_ask s id reason reply).1.seq ≡ s.seq
unfolding settle_ask retire_ask_envelope without_ask
settle_ask-seq s id reason reply = elim (Option-cases (find (λ p. p.id == id) s.pending_asks)) [
  | inl unknown ↦ rw (unknown, settle_ask) refl
  | inr (p, found) ↦ rw (found, settle_ask) refl
]

pub settle_all-count :
    (s : InProcessBus) (name : Text) (asks : List PendingAsk) (i : ℕ)
    → pending_count i s ≤ 1
    → pending_count i (settle_all s name asks).0 + settled_count i (settle_all s name asks).1
      ≡ pending_count i s
unfolding settle_all
settle_all-count s name [] i few = omega arith
settle_all-count s name (p ∷ asks) i few =
    elim (Bool-cases (text_eq p.sender name || text_eq p.recipient name)) [
      | inl named ↦
          let s' = (settle_ask s p.id unregistered none).1 in
          let log = (settle_ask s p.id unregistered none).2 in
          let now = settle_ask-count s p.id unregistered none i few in
          let later =
            settle_all-count (settle_ask s p.id unregistered none).1 name asks i
              (omega (arith, now, few)) in
          rw named
            (omega (arith, now, later, settled_count-append i log (settle_all s' name asks).1))
      | inr other ↦ rw other (settle_all-count s name asks i few)
    ]

pub settle_all-seq :
    (s : InProcessBus) (name : Text) (asks : List PendingAsk)
    → (settle_all s name asks).0.seq ≡ s.seq
unfolding settle_all
settle_all-seq s name [] = refl
settle_all-seq s name (p ∷ asks) =
    elim (Bool-cases (text_eq p.sender name || text_eq p.recipient name)) [
      | inl named ↦ rw named (
          settle_all-seq (settle_ask s p.id unregistered none).1 name asks
          ∙ settle_ask-seq s p.id unregistered none)
      | inr other ↦ rw other (settle_all-seq s name asks)
    ]
