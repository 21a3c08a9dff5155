-- ===== src/Core/Monitor/Lines.antt =====
-- The bound on the line that a monitor holds: appendBoundedLine of core/monitor.ts.
use mathlib.Core.List.{append-nil, append_assoc}
use pi_persona.Base.{
  ℕ, zero, suc, ◌+◌, ◌-◌, ◌≤◌, ◌<◌, ◌≡◌, ◌∙◌, sym, refl, ap, inl, inr, true, false, List, [], ◌∷◌,
  ◌++◌, arith, leb, if◌then◌else◌, length, length-append, length-take, take, Bool-cases, lt_or_le,
  Text, is_empty,
}
use pi_persona.Core.Monitor.{
  monitor_max_line_chars, monitor_truncation_marker, line_keep, append_bounded_line,
}

take-append {ℓ} :
    {A : Type ℓ} (n : ℕ) (xs ys : List A) → n ≤ length xs → take n (xs ++ ys) ≡ take n xs
take-append zero xs ys h = refl
take-append (suc n) [] ys h = absurd (omega arith)
take-append (suc n) (x ∷ xs) ys h = ap (◌∷◌ x) (take-append n xs ys (omega arith))

take-append-behind {ℓ} :
    {A : Type ℓ} (n : ℕ) (xs ys : List A)
    → length xs ≤ n
    → take n (xs ++ ys) ≡ xs ++ take (n - length xs) ys
take-append-behind n [] ys h = ap (λ k. take k ys) (omega arith)
take-append-behind zero (x ∷ xs) ys h = absurd (omega arith)
take-append-behind (suc n) (x ∷ xs) ys h =
    let e : suc n - suc (length xs) ≡ n - length xs = omega arith in
    rw e (ap (◌∷◌ x) (take-append-behind n xs ys (omega arith)))

take-all {ℓ} : {A : Type ℓ} (n : ℕ) (xs : List A) → length xs ≤ n → take n xs ≡ xs
take-all zero [] h = refl
take-all zero (x ∷ xs) h = absurd (omega arith)
take-all (suc n) [] h = refl
take-all (suc n) (x ∷ xs) h = ap (◌∷◌ x) (take-all n xs (omega arith))

module _ (keep max : ℕ) (marker : Text) (sized : keep + length marker ≡ max) where
  -- `append_bounded_line` for any bounds that fit each other.
  pub grown : Text → Text → Text
  grown current chunk =
      if is_empty chunk
      then current
      else if leb (length current + length chunk) max
      then current ++ chunk
      else (if leb keep (length current)
          then take keep current
          else current ++ take (keep - length current) chunk)
        ++ marker

  grown-over :
      (current chunk : Text)
      → is_empty chunk ≡ false
      → max < length current + length chunk
      → grown current chunk ≡ take keep (current ++ chunk) ++ marker
  unfolding grown
  grown-over current chunk e h =
      let over : leb (length current + length chunk) max ≡ false = ground arith in
      elim (Bool-cases (leb keep (length current))) [
        | inl long ↦
            rw (e, over, long)
              (ap (λ s. s ++ marker) (sym (take-append keep current chunk (ground arith))))
        | inr short ↦
            rw (e, over, short)
              (ap (λ s. s ++ marker) (sym (take-append-behind keep current chunk (ground arith))))
      ]

  grown-fits :
      (current chunk : Text)
      → length current + length chunk ≤ max
      → grown current chunk ≡ current ++ chunk
  unfolding grown
  grown-fits current [] h = sym (append-nil current)
  grown-fits current (c ∷ s) h =
      let fits : leb (length current + length (c ∷ s)) max ≡ true = ground arith in rw fits refl

  grown-full :
      (current s : Text)
      → length (take keep current ++ marker) ≡ max
      → take keep current ++ marker ≡ grown (take keep current ++ marker) s
  unfolding grown
  grown-full current [] size = refl
  grown-full current (d ∷ s) size =
      let cut = take keep current in
      let l : length cut ≡ keep = omega (arith, size, sized, length-append cut marker) in
      let same : take keep ((cut ++ marker) ++ (d ∷ s)) ≡ cut =
        take-append keep (cut ++ marker) (d ∷ s) (omega (arith, size, sized))
        ∙ take-append keep cut marker (omega (arith, l))
        ∙ take-all keep cut (omega (arith, l)) in
      sym
        (grown-over (cut ++ marker) (d ∷ s) refl (omega (arith, size)) ∙ ap (λ x. x ++ marker) same)

  grown-later :
      (current : Text) (c : ℕ) (s : Text)
      → length current + 1 ≤ max
      → max < length current + length (c ∷ s)
      → grown current (c ∷ s) ≡ grown (current ++ (c ∷ [])) s
  grown-later current c [] room over = absurd (omega arith)
  grown-later current c (d ∷ s) room over =
      grown-over current (c ∷ d ∷ s) refl over
      ∙ ap (λ x. take keep x ++ marker) (sym (append_assoc current (c ∷ []) (d ∷ s)))
      ∙ sym (
          grown-over (current ++ (c ∷ [])) (d ∷ s) refl
            (omega (arith, over, length-append current (c ∷ []))))

  -- The first unit of a piece can be taken in by itself.
  pub grown-cons :
      (current : Text) (c : ℕ) (s : Text) → grown current (c ∷ s) ≡ grown (grown current (c ∷ [])) s
  grown-cons current c s = elim (lt_or_le max (length current + length (c ∷ []))) [
    | inl full ↦
        let whole = grown-over current (c ∷ s) refl (omega arith) in
        let one = grown-over current (c ∷ []) refl full in
        let kept : (t : Text) → take keep (current ++ t) ≡ take keep current =
          λ t. take-append keep current t (omega (arith, sized)) in
        let size : length (take keep current ++ marker) ≡ max =
          omega
            (arith, sized, length-append (take keep current) marker, length-take keep current) in
        rw (whole, one, kept (c ∷ s), kept (c ∷ [])) (grown-full current s size)
    | inr room ↦
        rw (grown-fits current (c ∷ []) room)
          (elim (lt_or_le max (length current + length (c ∷ s))) [
            | inl over ↦ grown-later current c s room over
            | inr fits ↦
                let l : length (current ++ (c ∷ [])) + length s ≤ max =
                  omega (arith, length-append current (c ∷ [])) in
                rw (grown-fits current (c ∷ s) fits, grown-fits (current ++ (c ∷ [])) s l)
                  (sym (append_assoc current (c ∷ []) s))
          ])
  ]

-- The first unit of a piece can be taken in by itself.
pub append_bounded_line-cons :
    (current : Text) (c : ℕ) (s : Text)
    → append_bounded_line current (c ∷ s)
      ≡ append_bounded_line (append_bounded_line current (c ∷ [])) s
unfolding append_bounded_line grown
append_bounded_line-cons current c s =
    grown-cons line_keep monitor_max_line_chars monitor_truncation_marker refl current c s
