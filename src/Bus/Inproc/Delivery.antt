-- ===== src/Bus/Inproc/Delivery.antt =====
-- What a delivery does to an inbox: `deliver` of bus/inproc.ts.
use pi_persona.Base.{
  ℕ, ◌+◌, ◌≤◌, ◌<◌, ◌≡◌, ◌↔◌, subst, refl, inl, inr, ◌⊎◌, true, false, none, some, List, [], ◌∷◌,
  ◌++◌, arith, leb, length, length-append, filter, filter-append, All, all, AllPairs, Bool-cases,
  Option-cases,
}
use pi_persona.Bus.Inproc.{Envelope, remove_note, deliver_to}

-- The second list is the first without one message.
pub data Removed : List Envelope → List Envelope → Type 0 where
  here : {e : Envelope} {box : List Envelope} → Removed (e ∷ box) box
  there :
      {e : Envelope} {box rest : List Envelope} → Removed box rest → Removed (e ∷ box) (e ∷ rest)

pub Removed-length : {box rest : List Envelope} → Removed box rest → length rest + 1 ≡ length box
Removed-length here = omega arith
Removed-length (there r) = omega (arith, Removed-length r)

pub Removed-All {ℓ} :
    (P : Envelope → Type ℓ) {box rest : List Envelope} → Removed box rest → All P box → All P rest
Removed-All P here (_, h) = h
Removed-All P (there r) (p, h) = (p, Removed-All P r h)

pub Removed-AllPairs {ℓ} :
    (R : Envelope → Envelope → Type ℓ) {box rest : List Envelope}
    → Removed box rest
    → AllPairs R box
    → AllPairs R rest
Removed-AllPairs R here (_, h) = h
Removed-AllPairs R (there {e} r) (p, h) = (Removed-All (R e) r p, Removed-AllPairs R r h)

pub remove_note-Removed :
    (box rest : List Envelope) → remove_note box ≡ some rest → Removed box rest
unfolding remove_note
remove_note-Removed [] rest h = ground arith
remove_note-Removed (e ∷ box) rest h = elim (Bool-cases e.expects_reply) [
  | inl asks ↦ elim (Option-cases (remove_note box)) [
    | inl n ↦ absurd (ground arith)
    | inr (b, k) ↦
        let same : e ∷ b ≡ rest = ground arith in
        subst (Removed (e ∷ box)) same (there (remove_note-Removed box b k))
  ]
  | inr note ↦ let same : box ≡ rest = ground arith in subst (Removed (e ∷ box)) same here
]

remove_note-asks :
    (box rest : List Envelope)
    → remove_note box ≡ some rest
    → filter (λ e. e.expects_reply) rest ≡ filter (λ e. e.expects_reply) box
unfolding remove_note
remove_note-asks [] rest h = ground arith
remove_note-asks (e ∷ box) rest h = elim (Bool-cases e.expects_reply) [
  | inl asks ↦ elim (Option-cases (remove_note box)) [
    | inl n ↦ absurd (ground arith)
    | inr (b, k) ↦ ground (arith, remove_note-asks box b k)
  ]
  | inr note ↦ ground arith
]

remove_note-none :
    (box : List Envelope) → (remove_note box ≡ none) ↔ (all (λ e. e.expects_reply) box ≡ true)
unfolding remove_note
remove_note-none [] = (λ _. refl, λ _. refl)
remove_note-none (e ∷ box) = ground (arith, remove_note-none box)

-- A delivery is refused exactly where the inbox is full and every message in it is an ask that awaits
-- its reply.
pub deliver_to-none_iff :
    (max_inbox : ℕ) (box : List Envelope) (env : Envelope)
    → (deliver_to max_inbox box env ≡ none)
      ↔ ((max_inbox ≤ length box) × (all (λ e. e.expects_reply) box ≡ true))
unfolding deliver_to
deliver_to-none_iff max_inbox box env = ground (arith, remove_note-none box)

-- The second list is the first without its first message that expects no reply.
pub data WithoutNote : List Envelope → List Envelope → Type 0 where
  here : {e : Envelope} {box : List Envelope} → e.expects_reply ≡ false → WithoutNote (e ∷ box) box
  there :
      {e : Envelope} {box rest : List Envelope}
      → e.expects_reply ≡ true
      → WithoutNote box rest
      → WithoutNote (e ∷ box) (e ∷ rest)

remove_note-WithoutNote :
    (box rest : List Envelope) → remove_note box ≡ some rest → WithoutNote box rest
unfolding remove_note
remove_note-WithoutNote [] rest h = ground arith
remove_note-WithoutNote (e ∷ box) rest h = elim (Bool-cases e.expects_reply) [
  | inl asks ↦ elim (Option-cases (remove_note box)) [
    | inl n ↦ absurd (ground arith)
    | inr (b, k) ↦
        let same : e ∷ b ≡ rest = ground arith in
        subst (WithoutNote (e ∷ box)) same (there asks (remove_note-WithoutNote box b k))
  ]
  | inr note ↦
      let same : box ≡ rest = ground arith in subst (WithoutNote (e ∷ box)) same (here note)
]

-- What an accepted delivery keeps of the inbox.
abbrev pub IsKept : ℕ → List Envelope → List Envelope → Type 0
IsKept max_inbox box kept =
    ((length box < max_inbox) × (kept ≡ box)) ⊎ ((max_inbox ≤ length box) × WithoutNote box kept)

-- A delivery that is accepted puts the message behind what it keeps: all messages of an inbox with room,
-- and of a full one all but the first that expects no reply. So it drops no ask that awaits its reply,
-- and the inbox stays within its bound.
pub deliver_to_lem :
    (max_inbox : ℕ) (box : List Envelope) (env : Envelope) (box' : List Envelope)
    → 0 < max_inbox
    → length box ≤ max_inbox
    → deliver_to max_inbox box env ≡ some box'
    → ((kept : List Envelope) × (box' ≡ kept ++ (env ∷ [])) × IsKept max_inbox box kept)
      × (filter (λ e. e.expects_reply) box'
          ≡ filter (λ e. e.expects_reply) box ++ filter (λ e. e.expects_reply) (env ∷ []))
      × (length box' ≤ max_inbox)
unfolding deliver_to
deliver_to_lem max_inbox box env box' pos fits h = elim (Bool-cases (leb max_inbox (length box))) [
  | inl full ↦ elim (Option-cases (remove_note box)) [
    | inl n ↦ absurd (ground arith)
    | inr (b, k) ↦
        let same : b ++ (env ∷ []) ≡ box' = ground arith in
        rw (← same) (
          (b, refl, inr (ground arith, remove_note-WithoutNote box b k)),
          rw (filter-append (λ e. e.expects_reply) b (env ∷ []), remove_note-asks box b k) refl,
          omega (arith, length-append b (env ∷ []), Removed-length (remove_note-Removed box b k)),
        )
  ]
  | inr room ↦
      let same : box ++ (env ∷ []) ≡ box' = ground arith in
      rw (← same) (
        (box, refl, inl (ground arith, refl)),
        filter-append (λ e. e.expects_reply) box (env ∷ []),
        ground (arith, length-append box (env ∷ [])),
      )
]
