-- ===== src/Core/MonitorOutput/Ring.antt =====
-- The ring holds the last 4000 units that were pushed, and none of them is a control.
use pi_persona.Base.{
  ℕ, zero, suc, ◌+◌, ◌-◌, ◌%◌, ◌≤◌, ◌<◌, ◌≡◌, refl, sym, ◌∙◌, ◌≢◌, inl, inr, true, false, [], ◌∷◌,
  ◌++◌, arith, ◌==◌, ltb, Text, Bool-cases, drop, take_last, length, length-append,
}
use pi_persona.Core.MonitorOutput.{MonitorOutputTail, tail_chars, write_at, push, ring_text}

-- The start is an index of the ring, and no more units are held than it has.
pub record IsRing (m : MonitorOutputTail) : Type 0 where
  pub begins : m.start < tail_chars
  pub fits : m.length ≤ tail_chars

abbrev pub held : MonitorOutputTail → Text
held m = ring_text m.chars m.start m.length

length-ring_text : (chars : ℕ → ℕ) (start n : ℕ) → length (ring_text chars start n) ≡ n
unfolding ring_text
length-ring_text chars start zero = refl
length-ring_text chars start (suc n) = omega (
  arith,
  length-ring_text chars start n,
  length-append (ring_text chars start n) (chars ((start + n) % tail_chars) ∷ []),
)

-- A write at an index that is not read changes nothing.
ring_text-write :
    (chars : ℕ → ℕ) (start n i c : ℕ)
    → ((k : ℕ) → k < n → (start + k) % tail_chars ≢ i)
    → ring_text (write_at chars i c) start n ≡ ring_text chars start n
unfolding ring_text
ring_text-write chars start zero i c far = refl
ring_text-write chars start (suc n) i c far =
    let here : (((start + n) % tail_chars) == i) ≡ false = ground (arith, far n) in
    rw (ring_text-write chars start n i c (λ k h. far k (omega arith)), here)

ring_text-shift :
    (chars : ℕ → ℕ) (start n : ℕ)
    → start < tail_chars
    → ring_text chars start (suc n) ≡ chars start ∷ ring_text chars ((start + 1) % tail_chars) n
unfolding ring_text
ring_text-shift chars start zero h =
    let e : (start + 0) % tail_chars ≡ start = omega arith in rw e refl
ring_text-shift chars start (suc n) h =
    let e : ((start + 1) % tail_chars + n) % tail_chars ≡ (start + suc n) % tail_chars =
      omega arith in
    rw (e, ring_text-shift chars start n h)

-- The oldest unit gives way to the new one.
push_full :
    (chars : ℕ → ℕ) (start n c : ℕ)
    → start < tail_chars
    → suc n ≡ tail_chars
    → ring_text (write_at chars ((start + suc n) % tail_chars) c) ((start + 1) % tail_chars) (suc n)
      ≡ drop 1 (ring_text chars start (suc n) ++ (c ∷ []))
push_full chars start n c h e =
    let own : (start + suc n) % tail_chars ≡ start = omega arith in
    let last : ((start + 1) % tail_chars + n) % tail_chars ≡ start = omega arith in
    let kept : ring_text (write_at chars start c) ((start + 1) % tail_chars) n
        ≡ ring_text chars ((start + 1) % tail_chars) n =
      ring_text-write chars ((start + 1) % tail_chars) n start c (λ k l. omega arith) in
    rw (own, ring_text-shift chars start n h) (unfold ring_text in rw (kept, last) (ground arith))

length-le-take_last : (n : ℕ) (s : Text) → length s ≤ n → take_last n s ≡ s
length-le-take_last n s h = let e : length s - n ≡ 0 = omega arith in rw e refl

length-snoc : (chars : ℕ → ℕ) (start n c : ℕ) → length (ring_text chars start n ++ (c ∷ [])) ≡ n + 1
length-snoc chars start n c =
    omega (arith, length-ring_text chars start n, length-append (ring_text chars start n) (c ∷ []))

full_held :
    (chars : ℕ → ℕ) (start n c : ℕ)
    → start < tail_chars
    → n ≡ tail_chars
    → ring_text (write_at chars ((start + n) % tail_chars) c) ((start + 1) % tail_chars) n
      ≡ take_last tail_chars (ring_text chars start n ++ (c ∷ []))
full_held chars start zero c h e = absurd (omega arith)
full_held chars start (suc n) c h e =
    let one : length (ring_text chars start (suc n) ++ (c ∷ [])) - tail_chars ≡ 1 =
      omega (arith, length-snoc chars start (suc n) c) in
    push_full chars start n c h e ∙ rw one refl

room_held :
    (chars : ℕ → ℕ) (start n c : ℕ)
    → start < tail_chars
    → n < tail_chars
    → ring_text (write_at chars ((start + n) % tail_chars) c) start (n + 1)
      ≡ take_last tail_chars (ring_text chars start n ++ (c ∷ []))
room_held chars start n c h k =
    let kept : ring_text (write_at chars ((start + n) % tail_chars) c) start n
        ≡ ring_text chars start n =
      ring_text-write chars start n ((start + n) % tail_chars) c (λ j l. omega arith) in
    let own : (((start + n) % tail_chars) == ((start + n) % tail_chars)) ≡ true = ground arith in
    let whole : ring_text (write_at chars ((start + n) % tail_chars) c) start (n + 1)
        ≡ ring_text chars start n ++ (c ∷ []) =
      let plus : n + 1 ≡ suc n = omega arith in unfold ring_text in rw (plus, kept, own) refl in
    whole ∙ sym (length-le-take_last tail_chars _ (omega (arith, length-snoc chars start n c)))

module _ (m : MonitorOutputTail) (c : ℕ) where
  pub push-IsRing : IsRing m → IsRing (push m c)
  unfolding push
  push-IsRing h = elim (Bool-cases (ltb m.length tail_chars)) [
    | inl room ↦ rw room (record { begins = h.begins; fits = ground (arith, h.fits) })
    | inr full ↦ rw full (record { begins = omega arith; fits = h.fits })
  ]

  -- A push is a push at the end of a list that is cut to its last 4000 units.
  pub push-held : IsRing m → held (push m c) ≡ take_last tail_chars (held m ++ (c ∷ []))
  unfolding push
  push-held h = elim (Bool-cases (ltb m.length tail_chars)) [
    | inl room ↦ rw room (room_held m.chars m.start m.length c h.begins (ground arith))
    | inr full ↦ rw full (full_held m.chars m.start m.length c h.begins (ground (arith, h.fits)))
  ]
