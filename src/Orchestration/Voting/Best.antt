-- ===== src/Orchestration/Voting/Best.antt =====
-- The stable sort by confidence, as far as its first element goes.
use pi_persona.Base.{
  ◌≤◌, ◌≡◌, refl, sym, subst, ◌≢◌, ◌⊎◌, inl, inr, none, some, List, [], ◌∷◌, arith, leb, All,
  All-mono, Bool-cases, Option-cases,
}
use pi_persona.Orchestration.Results.{AgentResult}
use pi_persona.Orchestration.Voting.{confidence, insert_best, sort_best, first}

-- The sorted list starts with a result of greatest confidence.
abbrev pub IsBest : AgentResult → List AgentResult → Type 0
IsBest best xs = All (λ r. confidence r ≤ confidence best) xs

-- The result is one of the list.
abbrev pub Among : AgentResult → List AgentResult → Type 0
Among best [] = ⊥
Among best (r ∷ rest) = (best ≡ r) ⊎ Among best rest

-- The head of the list after an insertion: the new result, unless the old head is strictly better.
first-insert_best :
    (r : AgentResult) (sorted : List AgentResult) (b : AgentResult)
    → first (insert_best r sorted) ≡ some b
    → ((b ≡ r) × ((s : AgentResult) → first sorted ≡ some s → confidence s ≤ confidence r))
      ⊎ ((first sorted ≡ some b) × (confidence r ≤ confidence b))
unfolding insert_best
first-insert_best r [] b e = inl (ground arith, λ s f. cc)
first-insert_best r (s ∷ rest) b e = elim (Bool-cases (leb (confidence s) (confidence r))) [
  | inl le ↦ inl (ground arith, λ s' f. ground arith)
  | inr gt ↦ inr (ground arith, ground arith)
]

insert_best_some :
    (r : AgentResult) (sorted : List AgentResult) → first (insert_best r sorted) ≢ none
unfolding insert_best
insert_best_some r [] e = cc
insert_best_some r (s ∷ rest) e = ground arith

pub sort_best_nil : (xs : List AgentResult) → first (sort_best xs) ≡ none → xs ≡ []
unfolding sort_best
sort_best_nil [] e = refl
sort_best_nil (r ∷ rest) e = absurd (insert_best_some r (sort_best rest) e)

rest_below :
    (r : AgentResult) (rest : List AgentResult)
    → ((s : AgentResult) → first (sort_best rest) ≡ some s → confidence s ≤ confidence r)
    → ((s : AgentResult) → first (sort_best rest) ≡ some s → IsBest s rest × Among s rest)
    → IsBest r rest
rest_below r rest le ih = elim (Option-cases (first (sort_best rest))) [
  | inl e ↦ rw (sort_best_nil rest e) tt
  | inr (s, e) ↦ All-mono (λ x h. omega (arith, le s e)) rest (ih s e).0
]

pub first-sort_best :
    (xs : List AgentResult) (b : AgentResult)
    → first (sort_best xs) ≡ some b
    → IsBest b xs × Among b xs
unfolding sort_best
first-sort_best [] b e = cc
first-sort_best (r ∷ rest) b e = elim (first-insert_best r (sort_best rest) b e) [
  | inl (same, le) ↦ (
    subst (λ x. IsBest x (r ∷ rest)) (sym same)
        (omega arith, rest_below r rest le (first-sort_best rest)),
    inl same,
  )
  | inr (held, le) ↦ let (best, among) = first-sort_best rest b held in ((le, best), inr among)
]
