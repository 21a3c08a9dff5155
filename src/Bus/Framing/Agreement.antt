-- ===== src/Bus/Framing/Agreement.antt =====
-- When two readers hand on the same.
use pi_persona.Base.{
  ℕ, zero, suc, ◌≤◌, ◌≡◌, refl, sym, ap, ◌∙◌, false, List, [], ◌∷◌, ◌++◌, arith, length, take, drop,
}
use pi_persona.Bus.Framing.{Bytes, read_uint32_be, Event, Reader}

pub read_uint32_be-append :
    (buf more : Bytes) → 4 ≤ length buf → read_uint32_be (buf ++ more) ≡ read_uint32_be buf
unfolding read_uint32_be
read_uint32_be-append [] more h = absurd (omega arith)
read_uint32_be-append (a ∷ []) more h = absurd (omega arith)
read_uint32_be-append (a ∷ b ∷ []) more h = absurd (omega arith)
read_uint32_be-append (a ∷ b ∷ c ∷ []) more h = absurd (omega arith)
read_uint32_be-append (a ∷ b ∷ c ∷ d ∷ rest) more h = refl

module _ {ℓ} {A : Type ℓ} where
  pub drop-append : (n : ℕ) (xs ys : List A) → n ≤ length xs → drop n (xs ++ ys) ≡ drop n xs ++ ys
  drop-append zero xs ys h = refl
  drop-append (suc n) [] ys h = absurd (omega arith)
  drop-append (suc n) (x ∷ xs) ys h = drop-append n xs ys (omega arith)

  pub take-append : (n : ℕ) (xs ys : List A) → n ≤ length xs → take n (xs ++ ys) ≡ take n xs
  take-append zero xs ys h = refl
  take-append (suc n) [] ys h = absurd (omega arith)
  take-append (suc n) (x ∷ xs) ys h = ap (◌∷◌ x) (take-append n xs ys (omega arith))

module _ {J : Type 0} where
  -- The same events and the same verdict, and the same bytes kept for later if the reader goes on.
  pub record Agree (x y : Reader × List (Event J)) : Type 0 where
    pub events : x.1 ≡ y.1
    pub verdict : x.0.poisoned ≡ y.0.poisoned
    pub kept : x.0.poisoned ≡ false → x.0.buf ≡ y.0.buf

  abbrev pub then_more : List (Event J) → Reader × List (Event J) → Reader × List (Event J)
  then_more es x = (x.0, es ++ x.1)

  pub Agree-refl : (x : Reader × List (Event J)) → Agree x x
  Agree-refl x = record { events = refl; verdict = refl; kept = λ _. refl }

  pub Agree-trans : {x y z : Reader × List (Event J)} → Agree x y → Agree y z → Agree x z
  Agree-trans h k = record {
    events = h.events ∙ k.events;
    verdict = h.verdict ∙ k.verdict;
    kept = λ e. h.kept e ∙ k.kept (sym h.verdict ∙ e);
  }

  pub Agree-then_all :
      (es : List (Event J)) {x y : Reader × List (Event J)}
      → Agree x y
      → Agree (then_more es x) (then_more es y)
  Agree-then_all es h = record {
    events = ap (◌++◌ es) h.events;
    verdict = h.verdict;
    kept = h.kept;
  }

  pub Agree-then_more :
      (e : Event J) (x y : Reader × List (Event J))
      → Agree x y
      → Agree (x.0, e ∷ x.1) (y.0, e ∷ y.1)
  Agree-then_more e x y h = record {
    events = ap (◌∷◌ e) h.events;
    verdict = h.verdict;
    kept = h.kept;
  }
