-- ===== src/Bus/Inproc/Live.antt =====
-- Messages of a bus that still expect a reply, and the asks that are pending.
use pi_persona.Base.{
  ℕ, suc, ◌≤◌, ◌≡◌, ◌≢◌, ◌∙◌, sym, refl, subst, inl, inr, true, not, Option, none, some, List, [],
  ◌∷◌, ◌++◌, arith, ◌==◌, length, filter, find, All, All-mono, All-both, AllPairs, Bool-cases, Text,
}
use pi_persona.Bus.Inproc.{Envelope, PendingAsk, remove_id}

-- The recipient of the pending ask with this id.
abbrev pub asked_to : ℕ → List PendingAsk → Option Text
asked_to id asks = elim (find (λ p. p.id == id) asks) [ none ↦ none | some p ↦ some p.recipient ]

-- A message with an id that was given out; it expects a reply only while its ask is pending.
abbrev pub IsMessage : List PendingAsk → ℕ → Envelope → Type 0
IsMessage asks seq e =
    (e.id ≤ seq) × (e.expects_reply ≡ true → asked_to e.id asks ≡ some e.recipient)

pub record IsBox (max_inbox : ℕ) (asks : List PendingAsk) (seq : ℕ) (name : Text)
    (box : List Envelope) : Type 0 where
  pub each : All (λ e. (e.recipient ≡ name) × IsMessage asks seq e) box
  pub apart : AllPairs (λ e f. e.id ≢ f.id) box
  pub fits : length box ≤ max_inbox

asked_to-append :
    (id : ℕ) (asks more : List PendingAsk) (name : Text)
    → asked_to id asks ≡ some name
    → asked_to id (asks ++ more) ≡ some name
asked_to-append id [] more name h = ground arith
asked_to-append id (p ∷ asks) more name h = ground (arith, asked_to-append id asks more name)

-- A message stays one when an ask is added and ids are given out.
pub IsMessage-append :
    (asks more : List PendingAsk) (seq : ℕ) (e : Envelope)
    → IsMessage asks seq e
    → IsMessage (asks ++ more) (suc seq) e
IsMessage-append asks more seq e (old, live) =
    (omega arith, λ x. asked_to-append e.id asks more e.recipient (live x))

asked_to-without :
    (id j : ℕ) (asks : List PendingAsk)
    → j ≢ id
    → asked_to j (filter (λ p. not (p.id == id)) asks) ≡ asked_to j asks
asked_to-without id j [] n = refl
asked_to-without id j (p ∷ asks) n = ground (arith, asked_to-without id j asks n)

-- A message of another id stays one when an ask is settled.
pub IsMessage-without :
    (id : ℕ) (asks : List PendingAsk) (seq : ℕ) (e : Envelope)
    → (e.expects_reply ≡ true → e.id ≢ id)
    → IsMessage asks seq e
    → IsMessage (filter (λ p. not (p.id == id)) asks) seq e
IsMessage-without id asks seq e other (old, live) =
    (old, λ x. asked_to-without id e.id asks (other x) ∙ live x)

-- Without its first message of an id, a box has no message of that id.
remove_id-gone :
    (id : ℕ) (box : List Envelope)
    → AllPairs (λ e f. e.id ≢ f.id) box
    → All (λ e. e.id ≢ id) (remove_id id box)
unfolding remove_id
remove_id-gone id [] h = tt
remove_id-gone id (e ∷ box) (h, hs) = elim (Bool-cases (e.id == id)) [
  | inl same ↦ let k : e.id ≡ id = ground arith in rw same (All-mono (λ f n x. n (k ∙ sym x)) box h)
  | inr other ↦ rw other (λ x. ground arith, remove_id-gone id box hs)
]

remove_id-All {ℓ} :
    (P : Envelope → Type ℓ) (id : ℕ) (box : List Envelope) → All P box → All P (remove_id id box)
unfolding remove_id
remove_id-All P id [] h = tt
remove_id-All P id (e ∷ box) (p, h) = elim (Bool-cases (e.id == id)) [
  | inl same ↦ rw same h
  | inr other ↦ rw other (p, remove_id-All P id box h)
]

remove_id-apart :
    (id : ℕ) (box : List Envelope)
    → AllPairs (λ e f. e.id ≢ f.id) box
    → AllPairs (λ e f. e.id ≢ f.id) (remove_id id box)
unfolding remove_id
remove_id-apart id [] h = tt
remove_id-apart id (e ∷ box) (p, h) = elim (Bool-cases (e.id == id)) [
  | inl same ↦ rw same h
  | inr other ↦ rw other (remove_id-All _ id box p, remove_id-apart id box h)
]

length-remove_id : (id : ℕ) (box : List Envelope) → length (remove_id id box) ≤ length box
unfolding remove_id
length-remove_id id [] = omega arith
length-remove_id id (e ∷ box) = ground (arith, length-remove_id id box)

-- The recipient's box after its ask is settled.
pub IsBox-retire :
    {max_inbox : ℕ} {asks : List PendingAsk} {seq : ℕ} {name : Text} (id : ℕ) (box : List Envelope)
    → IsBox max_inbox asks seq name box
    → IsBox max_inbox (filter (λ p. not (p.id == id)) asks) seq name (remove_id id box)
IsBox-retire {asks} {seq} id box h = record {
  each =
      All-mono (λ e q. (q.0.0, IsMessage-without id asks seq e (λ _. q.1) q.0.1)) (remove_id id box)
        (All-both _ _ (remove_id id box) (remove_id-All _ id box h.each)
          (remove_id-gone id box h.apart));
  apart = remove_id-apart id box h.apart;
  fits = omega (arith, h.fits, length-remove_id id box);
}

-- A box of another name, after an ask is settled.
pub IsBox-without :
    {max_inbox : ℕ} {asks : List PendingAsk} {seq : ℕ} {name : Text} (id : ℕ) (recipient : Text)
    (box : List Envelope)
    → asked_to id asks ≡ some recipient
    → name ≢ recipient
    → IsBox max_inbox asks seq name box
    → IsBox max_inbox (filter (λ p. not (p.id == id)) asks) seq name box
IsBox-without {asks} {seq} {name} id recipient box to other h = record {
  each =
      All-mono
        (λ e q. (
          q.0,
          IsMessage-without id asks seq e
              (λ x same.
                let live = q.1.1 x in
                let k : some recipient ≡ some e.recipient =
                  sym to ∙ subst (λ j. asked_to j asks ≡ some e.recipient) same live in
                other (let h : e.recipient ≡ name = q.0 in cc))
              q.1,
        ))
        box h.each;
  apart = h.apart;
  fits = h.fits;
}

-- A box of the bus once more ids are given out and asks added.
pub IsBox-grow :
    {max_inbox : ℕ} {asks : List PendingAsk} {seq : ℕ} {name : Text} (more : List PendingAsk)
    (box : List Envelope)
    → IsBox max_inbox asks seq name box
    → IsBox max_inbox (asks ++ more) (suc seq) name box
IsBox-grow {asks} {seq} more box h = record {
  each = All-mono (λ e q. (q.0, IsMessage-append asks more seq e q.1)) box h.each;
  apart = h.apart;
  fits = h.fits;
}
