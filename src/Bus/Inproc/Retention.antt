-- ===== src/Bus/Inproc/Retention.antt =====
-- The retained messages of a bus: `retain` and the cleaning of `unregister` in bus/inproc.ts.
use pi_persona.Base.{
  ℕ, ◌+◌, ◌-◌, ◌≤◌, ◌≡◌, refl, inl, inr, ◌||◌, List, [], ◌∷◌, ◌++◌, map, arith, ltb, ◌==◌, ◌&&◌,
  any, length, length-map, All, All-append, All-mono, Bool-cases, Text, text_eq,
}
use pi_persona.Bus.Inproc.{
  Envelope, max_retained_messages, max_retained_message_chars, shrink, retain, retain_each,
  forget_messages_to, answered,
}

abbrev pub total : List Envelope → ℕ
total [] = 0
total (e ∷ es) = length e.text + total es

-- Messages that may be retained, with the sum of their lengths.
pub record IsRetained (P : Envelope → Type 0) (es : List Envelope) (chars : ℕ) : Type 0 where
  pub each : All P es
  pub sum : chars ≡ total es
  pub few : length es ≤ max_retained_messages
  pub small : chars ≤ max_retained_message_chars

total-append :
    (es : List Envelope) (e : Envelope) → total (es ++ (e ∷ [])) ≡ total es + length e.text
total-append [] e = omega arith
total-append (d ∷ es) e = omega (arith, total-append es e)

module _ (P : Envelope → Type 0) where
  shrink-IsRetained :
      (es : List Envelope) (chars : ℕ)
      → All P es
      → chars ≡ total es
      → IsRetained P (shrink es chars).0 (shrink es chars).1
  unfolding shrink
  shrink-IsRetained [] chars h k = record {
    each = tt;
    sum = k;
    few = omega arith;
    small = omega (arith, k);
  }
  shrink-IsRetained (e ∷ es) chars (p, h) k =
      elim (Bool-cases
        (ltb max_retained_messages (length (e ∷ es)) || ltb max_retained_message_chars chars)) [
          | inl over ↦ rw over (shrink-IsRetained es (chars - length e.text) h (omega (arith, k)))
          | inr fits ↦
              rw fits (record { each = (p, h); sum = k; few = ground arith; small = ground arith })
        ]

  retain-IsRetained :
      (es : List Envelope) (chars : ℕ) (e : Envelope)
      → P e
      → IsRetained P es chars
      → IsRetained P (retain (es, chars) e).0 (retain (es, chars) e).1
  unfolding retain
  retain-IsRetained es chars e p h =
      elim (Bool-cases
        (ltb max_retained_message_chars (length e.text) || any (λ d. d.id == e.id) es)) [
          | inl skip ↦ rw skip h
          | inr new ↦ rw new (
              shrink-IsRetained _ _ (All-append P _ _ h.each (p, tt))
                (omega (arith, h.sum, total-append es e)))
        ]

  pub retain_each-IsRetained :
      (held : List Envelope × ℕ) (es : List Envelope)
      → All P es
      → IsRetained P held.0 held.1
      → IsRetained P (retain_each held es).0 (retain_each held es).1
  unfolding retain_each
  retain_each-IsRetained held [] h k = k
  retain_each-IsRetained held (e ∷ es) (p, h) k =
      retain_each-IsRetained (retain held e) es h (retain-IsRetained held.0 held.1 e p k)

  forget-facts :
      (name : Text) (es : List Envelope) (chars more : ℕ)
      → All P es
      → chars ≡ more + total es
      → (let (kept, left) = forget_messages_to name es chars in
          All P kept × (left ≡ more + total kept) × (length kept ≤ length es) × (left ≤ chars))
  unfolding forget_messages_to
  forget-facts name [] chars more h k = (tt, k, omega arith, omega arith)
  forget-facts name (e ∷ es) chars more (p, h) k = elim (Bool-cases (text_eq e.recipient name)) [
    | inl gone ↦
        let (a, b, c, d) = forget-facts name es (chars - length e.text) more h (omega (arith, k)) in
        rw gone (a, b, omega (arith, c), omega (arith, d))
    | inr kept ↦
        let (a, b, c, d) = forget-facts name es chars (more + length e.text) h (omega (arith, k)) in
        rw kept ((p, a), omega (arith, b), omega (arith, c), d)
  ]

  pub forget_messages_to-IsRetained :
      (name : Text) (es : List Envelope) (chars : ℕ)
      → IsRetained P es chars
      → IsRetained P (forget_messages_to name es chars).0 (forget_messages_to name es chars).1
  forget_messages_to-IsRetained name es chars h =
      let (a, b, c, d) = forget-facts name es chars 0 h.each (omega (arith, h.sum)) in
      record {
        each = a;
        sum = omega (arith, b);
        few = omega (arith, c, h.few);
        small = omega (arith, d, h.small);
      }

total-answered :
    (id : ℕ) (name : Text) (es : List Envelope) → total (map (answered id name) es) ≡ total es
unfolding answered
total-answered id name [] = refl
total-answered id name (e ∷ es) = elim (Bool-cases (e.id == id && text_eq e.recipient name)) [
  | inl same ↦ rw (same, total-answered id name es) refl
  | inr other ↦ rw (other, total-answered id name es) refl
]

All-answered :
    (P Q : Envelope → Type 0) (id : ℕ) (name : Text) (es : List Envelope)
    → ((e : Envelope) → P e → Q (answered id name e))
    → All P es
    → All Q (map (answered id name) es)
All-answered P Q id name [] f h = tt
All-answered P Q id name (e ∷ es) f (p, h) = (f e p, All-answered P Q id name es f h)

-- The retained messages once an ask is settled.
pub IsRetained-answered :
    {P Q : Envelope → Type 0} (id : ℕ) (name : Text) (es : List Envelope) (chars : ℕ)
    → ((e : Envelope) → P e → Q (answered id name e))
    → IsRetained P es chars
    → IsRetained Q (map (answered id name) es) chars
IsRetained-answered {P} {Q} id name es chars f h = record {
  each = All-answered P Q id name es f h.each;
  sum = rw (total-answered id name es) h.sum;
  few = omega (arith, h.few, length-map (answered id name) es);
  small = h.small;
}

pub IsRetained-mono :
    {P Q : Envelope → Type 0} (es : List Envelope) (chars : ℕ)
    → ((e : Envelope) → P e → Q e)
    → IsRetained P es chars
    → IsRetained Q es chars
IsRetained-mono es chars f h = record {
  each = All-mono f es h.each;
  sum = h.sum;
  few = h.few;
  small = h.small;
}
