-- ===== src/Exocom/Guards/Delivery.antt =====
-- The decision on inbound messages: one message is delivered at most once, and one that was over the
-- budget may come again.
use pi_persona.Base.{
  ℕ, ◌+◌, ◌≤◌, ◌<◌, ◌≡◌, refl, ◌∙◌, ◌⊎◌, inl, inr, true, false, Option, none, some, List, [], ◌∷◌,
  arith, ltb, if◌then◌else◌, Text, text_eq, text_eq_iff, text_eq_refl, lookup, delete,
  lookup-delete, HasDistinctKeys, delete-HasDistinctKeys, All, Bool-cases, ◌≢◌,
}
use pi_persona.Exocom.Guards.{
  SeenMessages, seen_key, hold, seen_before, forget, allow, Inbound, Decision, deliver, duplicate,
  drop_budget, drop_hops, Guards, spend, decide_inbound, max_hops,
}
use pi_persona.Exocom.Guards.Seen.{
  IsHeld, IsHeld-cases, seen_before_held, seen_before_new, hold-IsKept, IsKept,
}

abbrev pub message_key : Inbound → Text
message_key msg = seen_key msg.sender msg.msg_id

-- What a decision keeps of the memory of ids, and what it adds on delivery.
record IsRemembered (t : ℕ) (msg : Inbound) (g : Guards) (r : Decision × Guards) : Type 0 where
  pub ttl : r.1.seen.ttl_ms ≡ g.seen.ttl_ms
  pub distinct : HasDistinctKeys r.1.seen.seen
  pub held :
      (k : Text) (at : ℕ)
      → lookup k g.seen.seen ≡ some at
      → t < at + g.seen.ttl_ms
      → lookup k r.1.seen.seen ≡ some at
  pub own : 0 < g.seen.ttl_ms → r.0 ≡ deliver → lookup (message_key msg) r.1.seen.seen ≡ some t

module _ (g : Guards) (t : ℕ) (msg : Inbound) where
  -- A message whose id is held is not delivered, and changes nothing.
  decide_held :
      IsHeld g.seen t (message_key msg)
      → decide_inbound g t msg ≡ ((if ltb max_hops msg.hops then drop_hops else duplicate), g)
  unfolding decide_inbound seen_before
  decide_held h = rw (seen_before_held g.seen t (message_key msg) h) (ground arith)

  decide_new :
      ((at : ℕ) → lookup (message_key msg) g.seen.seen ≡ some at → at + g.seen.ttl_ms ≤ t)
      → ltb max_hops msg.hops ≡ false
      → decide_inbound g t msg
        ≡ spend (record g { seen = (hold g.seen t (message_key msg)).1 }) t msg
  unfolding decide_inbound seen_before
  decide_new old hops =
      rw (hops, seen_before_new g.seen t (message_key msg) old) (unfold hold in refl)

  decide_far : ltb max_hops msg.hops ≡ true → decide_inbound g t msg ≡ (drop_hops, g)
  unfolding decide_inbound
  decide_far hops = rw hops

  same-IsRemembered :
      (d : Decision) → d ≢ deliver → HasDistinctKeys g.seen.seen → IsRemembered t msg g (d, g)
  same-IsRemembered d n h = record {
    ttl = refl;
    distinct = h;
    held = λ k at e l. e;
    own = λ pos e. absurd (n e);
  }

  -- The id that is given back was not held, so no held id is lost.
  delete-held :
      (seen : SeenMessages)
      → ((at : ℕ) → lookup (message_key msg) g.seen.seen ≡ some at → at + g.seen.ttl_ms ≤ t)
      → IsKept t (message_key msg) g.seen seen
      → (k : Text) (at : ℕ) → lookup k g.seen.seen ≡ some at
      → t < at + g.seen.ttl_ms
      → lookup k (delete (message_key msg) seen.seen) ≡ some at
  delete-held seen old kept k at e l = elim (Bool-cases (text_eq (message_key msg) k)) [
    | inl same ↦
        let one : message_key msg ≡ k = (text_eq_iff (message_key msg) k).0 same in
        absurd (omega (arith, old at (rw one e)))
    | inr other ↦
        rw (lookup-delete (message_key msg) k seen.seen kept.distinct, other) (kept.held k at e l)
  ]

  spend-IsRemembered :
      (seen : SeenMessages)
      → ((at : ℕ) → lookup (message_key msg) g.seen.seen ≡ some at → at + g.seen.ttl_ms ≤ t)
      → IsKept t (message_key msg) g.seen seen
      → IsRemembered t msg g (spend (record g { seen = seen }) t msg)
  unfolding spend
  spend-IsRemembered seen old kept =
      elim (Bool-cases (allow g.budget t msg.sender msg.wire_bytes).0) [
        | inl ok ↦ rw ok (record {
          ttl = kept.ttl;
          distinct = kept.distinct;
          held = kept.held;
          own = λ pos e. kept.own pos;
        })
        | inr over ↦ rw over (
            unfold forget in
            record {
              ttl = kept.ttl;
              distinct = delete-HasDistinctKeys (message_key msg) seen.seen kept.distinct;
              held = λ k at e l. delete-held seen old kept k at e l;
              own = λ pos e. absurd (let f : drop_budget ≡ deliver = e in cc);
            })
      ]

  decide-IsRemembered : HasDistinctKeys g.seen.seen → IsRemembered t msg g (decide_inbound g t msg)
  decide-IsRemembered d = elim (IsHeld-cases g.seen t (message_key msg)) [
    | inl h ↦ rw (decide_held h) (same-IsRemembered _ (ground arith) d)
    | inr old ↦ elim (Bool-cases (ltb max_hops msg.hops)) [
      | inl far ↦ rw (decide_far far) (same-IsRemembered drop_hops (λ e. cc) d)
      | inr near ↦
          rw (decide_new old near)
            (spend-IsRemembered _ old (hold-IsKept g.seen t (message_key msg) d old))
    ]
  ]

-- How often the calls deliver a message with this key.
pub delivered : Text → Guards → List (ℕ × Inbound) → ℕ
delivered key g [] = 0
delivered key g ((t, msg) ∷ calls) =
    let (decision, g') = decide_inbound g t msg in
    let n = delivered key g' calls in
    elim decision [ deliver ↦ if text_eq (message_key msg) key then n + 1 else n | _ ↦ n ]

delivered_other :
    (key : Text) (g : Guards) (t : ℕ) (msg : Inbound) (calls : List (ℕ × Inbound))
    → ((decide_inbound g t msg).0 ≡ deliver → text_eq (message_key msg) key ≡ false)
    → delivered key g ((t, msg) ∷ calls) ≡ delivered key (decide_inbound g t msg).1 calls
unfolding delivered
delivered_other key g t msg calls h = ground arith

delivered_own :
    (key : Text) (g : Guards) (t : ℕ) (msg : Inbound) (calls : List (ℕ × Inbound))
    → (decide_inbound g t msg).0 ≡ deliver
    → text_eq (message_key msg) key ≡ true
    → delivered key g ((t, msg) ∷ calls) ≡ delivered key (decide_inbound g t msg).1 calls + 1
unfolding delivered
delivered_own key g t msg calls d e = ground arith

abbrev pub IsIn : ℕ → ℕ → List (ℕ × Inbound) → Type 0
IsIn t0 ttl = All (λ c. (t0 ≤ c.0) × (c.0 < t0 + ttl))

held_undelivered :
    (key : Text) (t0 at : ℕ) (g : Guards) (t : ℕ) (msg : Inbound)
    → lookup key g.seen.seen ≡ some at
    → t0 ≤ at
    → t < t0 + g.seen.ttl_ms
    → (decide_inbound g t msg).0 ≡ deliver
    → text_eq (message_key msg) key ≡ false
held_undelivered key t0 at g t msg e h late d = elim (Bool-cases (text_eq (message_key msg) key)) [
  | inl same ↦
      let one : message_key msg ≡ key = (text_eq_iff (message_key msg) key).0 same in
      let held = decide_held g t msg (at, rw one e, omega arith) in
      let no : (if ltb max_hops msg.hops then drop_hops else duplicate) ≡ deliver = rw held at d in
      ground arith
  | inr other ↦ other
]

delivers :
    (key : Text) (g : Guards) (t : ℕ) (msg : Inbound)
    → (((decide_inbound g t msg).0 ≡ deliver) × (text_eq (message_key msg) key ≡ true))
      ⊎ ((decide_inbound g t msg).0 ≡ deliver → text_eq (message_key msg) key ≡ false)
delivers key g t msg = ground arith

delivered_held :
    (key : Text) (t0 at : ℕ) (g : Guards) (calls : List (ℕ × Inbound))
    → HasDistinctKeys g.seen.seen
    → lookup key g.seen.seen ≡ some at
    → t0 ≤ at
    → IsIn t0 g.seen.ttl_ms calls
    → delivered key g calls ≡ 0
delivered_held key t0 at g [] d e h times = unfold delivered in refl
delivered_held key t0 at g ((t, msg) ∷ calls) d e h (time, times) =
    let r = decide-IsRemembered g t msg d in
    let g' = (decide_inbound g t msg).1 in
    delivered_other key g t msg calls (held_undelivered key t0 at g t msg e h time.1)
    ∙ delivered_held key t0 at g' calls r.distinct (r.held key at e (omega arith)) h
        (rw r.ttl times)

-- In calls whose times lie within one time to live, a message with given ids is delivered at most
-- once, whatever else arrives in between, budget refusals included.
pub delivered-le-one :
    (key : Text) (t0 : ℕ) (g : Guards) (calls : List (ℕ × Inbound))
    → HasDistinctKeys g.seen.seen
    → IsIn t0 g.seen.ttl_ms calls
    → delivered key g calls ≤ 1
delivered-le-one key t0 g [] d times = unfold delivered in omega arith
delivered-le-one key t0 g ((t, msg) ∷ calls) d (time, times) =
    let r = decide-IsRemembered g t msg d in
    let g' = (decide_inbound g t msg).1 in
    elim (delivers key g t msg) [
      | inl (del, same) ↦
          let one : message_key msg ≡ key = (text_eq_iff (message_key msg) key).0 same in
          let held : lookup key g'.seen.seen ≡ some t = rw one at (r.own (omega arith) del) in
          omega (
            arith,
            delivered_own key g t msg calls del same,
            delivered_held key t0 t g' calls r.distinct held time.0 (rw r.ttl times),
          )
      | inr n ↦
          rw (delivered_other key g t msg calls n)
            (delivered-le-one key t0 g' calls r.distinct (rw r.ttl times))
    ]

none-ne-some : {o : Option ℕ} {a : ℕ} → o ≡ none → o ≡ some a → ⊥
none-ne-some e f = cc

spend-forgets :
    (g : Guards) (t : ℕ) (msg : Inbound)
    → HasDistinctKeys g.seen.seen
    → (spend g t msg).0 ≡ drop_budget
    → lookup (message_key msg) (spend g t msg).1.seen.seen ≡ none
unfolding spend forget
spend-forgets g t msg d e = elim (Bool-cases (allow g.budget t msg.sender msg.wire_bytes).0) [
  | inl ok ↦ ground arith
  | inr over ↦ rw over (
      lookup-delete (message_key msg) (message_key msg) g.seen.seen d
      ∙ rw (text_eq_refl (message_key msg)))
]

decide-forgets :
    (g : Guards) (t : ℕ) (msg : Inbound)
    → HasDistinctKeys g.seen.seen
    → (decide_inbound g t msg).0 ≡ drop_budget
    → lookup (message_key msg) (decide_inbound g t msg).1.seen.seen ≡ none
decide-forgets g t msg d e = elim (IsHeld-cases g.seen t (message_key msg)) [
  | inl h ↦
      let no : (if ltb max_hops msg.hops then drop_hops else duplicate) ≡ drop_budget =
        rw (decide_held g t msg h) at e in
      absurd (ground arith)
  | inr old ↦ elim (Bool-cases (ltb max_hops msg.hops)) [
    | inl far ↦ let no : drop_hops ≡ drop_budget = rw (decide_far g t msg far) at e in cc
    | inr near ↦
        let new = decide_new g t msg old near in
        rw new (
          spend-forgets _ t msg (hold-IsKept g.seen t (message_key msg) d old).distinct
            (rw new at e))
  ]
]

spend-ne-duplicate : (g : Guards) (t : ℕ) (msg : Inbound) → (spend g t msg).0 ≢ duplicate
unfolding spend
spend-ne-duplicate g t msg = ground arith

-- A message that was dropped for the budget is not taken for a duplicate when it comes again, at any
-- later time and with any other text.
pub decide_after_budget :
    (g : Guards) (t t' : ℕ) (msg again : Inbound)
    → HasDistinctKeys g.seen.seen
    → (decide_inbound g t msg).0 ≡ drop_budget
    → message_key again ≡ message_key msg
    → (decide_inbound (decide_inbound g t msg).1 t' again).0 ≢ duplicate
decide_after_budget g t t' msg again d e same h =
    let g' = (decide_inbound g t msg).1 in
    let gone : lookup (message_key again) g'.seen.seen ≡ none =
      rw same (decide-forgets g t msg d e) in
    elim (Bool-cases (ltb max_hops again.hops)) [
      | inl far ↦ let no : drop_hops ≡ duplicate = rw (decide_far g' t' again far) at h in cc
      | inr near ↦
          spend-ne-duplicate _ t' again
            (rw (decide_new g' t' again (λ at f. absurd (none-ne-some gone f)) near) at h)
    ]
