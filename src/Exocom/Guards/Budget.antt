-- ===== src/Exocom/Guards/Budget.antt =====
-- No sender gets more through in one window than its budget.
use pi_persona.Base.{
  ℕ, ◌+◌, ◌≤◌, ◌<◌, ◌≡◌, refl, inl, inr, true, false, ◌&&◌, some, List, [], ◌∷◌, arith, ltb, leb,
  if◌then◌else◌, Text, text_eq, text_eq_iff, text_eq_refl, ◌∙◌, ◌||◌, sym, lookup, insert,
  lookup-insert, All, All-mono, Bool-cases, Option-cases,
}
use pi_persona.Exocom.Guards.{Bucket, SenderBudget, fresh_bucket, roll, charge, allow}

-- No call changes the limits, and a call for one sender leaves the buckets of all others alone.
record IsFrame (k : Text) (s s' : SenderBudget) : Type 0 where
  pub window : s'.window_ms ≡ s.window_ms
  pub msgs : s'.max_msgs ≡ s.max_msgs
  pub bytes : s'.max_bytes ≡ s.max_bytes
  pub others : (j : Text) → text_eq k j ≡ false → lookup j s'.buckets ≡ lookup j s.buckets

IsFrame-refl : (k : Text) (s : SenderBudget) → IsFrame k s s
IsFrame-refl k s = record { window = refl; msgs = refl; bytes = refl; others = λ j h. refl }

IsFrame-trans : {k : Text} {s t u : SenderBudget} → IsFrame k s t → IsFrame k t u → IsFrame k s u
IsFrame-trans h i = record {
  window = i.window ∙ h.window;
  msgs = i.msgs ∙ h.msgs;
  bytes = i.bytes ∙ h.bytes;
  others = λ j e. i.others j e ∙ h.others j e;
}

insert-IsFrame :
    (k : Text) (b : Bucket) (s : SenderBudget)
    → IsFrame k s (record s { buckets = insert k b s.buckets })
insert-IsFrame k b s = record {
  window = refl;
  msgs = refl;
  bytes = refl;
  others = λ j h. rw (lookup-insert k j b s.buckets, h);
}

roll-IsFrame : (s : SenderBudget) (t : ℕ) (k : Text) → IsFrame k s (roll s t k).1
unfolding roll
roll-IsFrame s t k = elim (Option-cases (lookup k s.buckets)) [
  | inl e ↦ rw (e, roll) (insert-IsFrame k (fresh_bucket t) s)
  | inr (b, e) ↦ elim (Bool-cases (leb (b.start + s.window_ms) t)) [
    | inl old ↦ rw (e, roll, old) (insert-IsFrame k (fresh_bucket t) s)
    | inr new ↦ rw (e, roll, new) (IsFrame-refl k s)
  ]
]

charge-IsFrame :
    (b : Bucket) (s : SenderBudget) (k : Text) (n : ℕ) → IsFrame k s (charge (b, s) k n).1
unfolding charge
charge-IsFrame b s k n =
    elim (Bool-cases (ltb s.max_msgs (b.msgs + 1) || ltb s.max_bytes (b.bytes + n))) [
      | inl over ↦ rw over (IsFrame-refl k s)
      | inr fits ↦ rw fits (insert-IsFrame k _ s)
    ]

allow-IsFrame : (s : SenderBudget) (t : ℕ) (k : Text) (n : ℕ) → IsFrame k s (allow s t k n).1
unfolding allow
allow-IsFrame s t k n = IsFrame-trans (roll-IsFrame s t k) (charge-IsFrame _ _ k n)

abbrev with_fresh : SenderBudget → ℕ → Text → SenderBudget
with_fresh s t k = record s { buckets = insert k (fresh_bucket t) s.buckets }

roll_held :
    (s : SenderBudget) (t : ℕ) (k : Text) (b : Bucket)
    → lookup k s.buckets ≡ some b
    → t < b.start + s.window_ms
    → roll s t k ≡ (b, s)
unfolding roll
roll_held s t k b e h = ground arith

roll_over :
    (s : SenderBudget) (t : ℕ) (k : Text)
    → ((b : Bucket) → lookup k s.buckets ≡ some b → b.start + s.window_ms ≤ t)
    → roll s t k ≡ (fresh_bucket t, with_fresh s t k)
unfolding roll
roll_over s t k old = elim (Option-cases (lookup k s.buckets)) [
  | inl e ↦ rw (e, roll)
  | inr (b, e) ↦ let h = old b e in ground arith
]

pub record Call : Type 0 where
  pub time : ℕ
  pub sender : Text
  pub bytes : ℕ

-- The messages and the bytes that the calls let through for one sender.
pub admitted : Text → SenderBudget → List Call → ℕ × ℕ
admitted k s [] = (0, 0)
admitted k s (c ∷ cs) =
    let (ok, s') = allow s c.time c.sender c.bytes in
    let (msgs, bytes) = admitted k s' cs in
    if ok && text_eq c.sender k then (msgs + 1, bytes + c.bytes) else (msgs, bytes)

-- What is still let through fits into what the bucket has left.
abbrev Fits : Text → SenderBudget → List Call → Bucket → Type 0
Fits k s cs b =
    ((admitted k s cs).0 + b.msgs ≤ s.max_msgs) × ((admitted k s cs).1 + b.bytes ≤ s.max_bytes)

abbrev IsWithin : SenderBudget → Bucket → Type 0
IsWithin s b = (b.msgs ≤ s.max_msgs) × (b.bytes ≤ s.max_bytes)

-- Charging a bucket of the map, and then the rest.
module _ (k : Text) (c : Call) (cs : List Call) where
  charge-Fits :
      (b : Bucket) (s : SenderBudget)
      → text_eq c.sender k ≡ true
      → lookup k s.buckets ≡ some b
      → IsWithin s b
      → ((b' : Bucket) (s' : SenderBudget)
          → IsFrame k s s'
          → lookup k s'.buckets ≡ some b'
          → b'.start ≡ b.start
          → IsWithin s' b'
          → Fits k s' cs b')
      → let r = charge (b, s) k c.bytes in
        ((if r.0 then (admitted k r.1 cs).0 + 1 else (admitted k r.1 cs).0) + b.msgs ≤ s.max_msgs)
        × ((if r.0 then (admitted k r.1 cs).1 + c.bytes else (admitted k r.1 cs).1) + b.bytes
            ≤ s.max_bytes)
  unfolding charge
  charge-Fits b s same e h ih =
      elim (Bool-cases (ltb s.max_msgs (b.msgs + 1) || ltb s.max_bytes (b.bytes + c.bytes))) [
        | inl over ↦ rw over (ih b s (IsFrame-refl k s) e refl h)
        | inr fits ↦
            let b' : Bucket = record b { msgs = b.msgs + 1; bytes = b.bytes + c.bytes } in
            let held : lookup k (insert k b' s.buckets) ≡ some b' =
              rw (lookup-insert k k b' s.buckets, text_eq_refl k) in
            let within : IsWithin s b' = (ground arith, ground arith) in
            let later =
              ih b' (record s { buckets = insert k b' s.buckets }) (insert-IsFrame k b' s) held refl
                within in
            rw fits (omega (arith, later))
      ]

-- The verdict on the first call, counted for the sender `k`.
admitted_own :
    (k : Text) (s : SenderBudget) (c : Call) (cs : List Call) (r : Bucket × SenderBudget)
    → text_eq c.sender k ≡ true
    → roll s c.time k ≡ r
    → let q = charge r k c.bytes in
      admitted k s (c ∷ cs) ≡ (
        (if q.0 then (admitted k q.1 cs).0 + 1 else (admitted k q.1 cs).0),
        (if q.0 then (admitted k q.1 cs).1 + c.bytes else (admitted k q.1 cs).1),
      )
unfolding admitted allow
admitted_own k s c cs r same e =
    let one : c.sender ≡ k = (text_eq_iff c.sender k).0 same in
    rw (one, e, text_eq_refl k) (ground arith)

admitted_other :
    (k : Text) (s : SenderBudget) (c : Call) (cs : List Call)
    → text_eq c.sender k ≡ false
    → admitted k s (c ∷ cs) ≡ admitted k (allow s c.time c.sender c.bytes).1 cs
unfolding admitted
admitted_other k s c cs other = ground arith

admitted_open :
    (k : Text) (t0 : ℕ) (s : SenderBudget) (cs : List Call) (b : Bucket)
    → lookup k s.buckets ≡ some b
    → t0 ≤ b.start
    → IsWithin s b
    → All (λ c. c.time < t0 + s.window_ms) cs
    → Fits k s cs b
unfolding admitted
admitted_open k t0 s [] b e began h late = omega arith
admitted_open k t0 s (c ∷ cs) b e began h (soon, late) = elim (Bool-cases (text_eq c.sender k)) [
  | inl same ↦ rw (admitted_own k s c cs (b, s) same (roll_held s c.time k b e (omega arith))) (
      charge-Fits k c cs b s same e h (λ b' s' frame e' st w.
        admitted_open k t0 s' cs b' e' (rw st began) w (rw frame.window late)))
  | inr other ↦
      let frame = allow-IsFrame s c.time c.sender c.bytes in
      let s' = (allow s c.time c.sender c.bytes).1 in
      let rest =
        admitted_open k t0 s' cs b (frame.others k other ∙ e) began (rw (frame.msgs, frame.bytes) h)
          (rw frame.window late) in
      rw (admitted_other k s c cs other) (rw (frame.msgs, frame.bytes) at rest)
]

-- From the first call on, whose window is not over before the last: what one sender gets through
-- stays within the budget, whatever the other senders do. The sender has no bucket yet, or one whose
-- window is over.
pub admitted_bounds :
    (k : Text) (t0 : ℕ) (s : SenderBudget) (cs : List Call)
    → ((b : Bucket) → lookup k s.buckets ≡ some b → b.start + s.window_ms ≤ t0)
    → All (λ c. (t0 ≤ c.time) × (c.time < t0 + s.window_ms)) cs
    → ((admitted k s cs).0 ≤ s.max_msgs) × ((admitted k s cs).1 ≤ s.max_bytes)
admitted_bounds k t0 s [] old times = unfold admitted in omega arith
admitted_bounds k t0 s (c ∷ cs) old (time, times) = elim (Bool-cases (text_eq c.sender k)) [
  | inl same ↦
      let soon = All-mono (λ d h. h.1) cs times in
      let b = fresh_bucket c.time in
      let s' = with_fresh s c.time k in
      let held : lookup k s'.buckets ≡ some b =
        rw (lookup-insert k k b s.buckets, text_eq_refl k) in
      let fits =
        charge-Fits k c cs b s' same held (unfold fresh_bucket in omega arith)
          (λ b' s'' frame e st w.
            admitted_open k t0 s'' cs b' e (rw st (unfold fresh_bucket in time.0)) w
              (rw frame.window soon)) in
      rw (admitted_own k s c cs (b, s') same (roll_over s c.time k (λ d e. omega (arith, old d e))))
        (omega (arith, fits))
  | inr other ↦
      let frame = allow-IsFrame s c.time c.sender c.bytes in
      let s' = (allow s c.time c.sender c.bytes).1 in
      let rest =
        admitted_bounds k t0 s' cs (λ b e. rw frame.window (old b (sym (frame.others k other) ∙ e)))
          (rw frame.window times) in
      rw (admitted_other k s c cs other) (rw (frame.msgs, frame.bytes) at rest)
]
