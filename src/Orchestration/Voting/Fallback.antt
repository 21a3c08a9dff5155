-- ===== src/Orchestration/Voting/Fallback.antt =====
-- The fallback to the best single answer: it is one of the answers, none has a greater confidence,
-- and no candidate is lost.
use pi_persona.Base.{
  ◌+◌, ◌<◌, ◌≡◌, refl, ◌≢◌, ◌⊎◌, inl, inr, true, false, some, List, [], ◌∷◌, arith, ◌==◌,
  if◌then◌else◌, Text, filter, length, Bool-cases, Option-cases,
}
use pi_persona.Orchestration.Results.{AgentResult}
use pi_persona.Orchestration.Voting.{
  ReducerStatus, winner, ReducerResult, VoteOpts, Vote, sort_best, first, differs, is_prose,
  without_votes, with_fallback, undecided, results_of, split_votes, vote_reduce, reduce_votes,
  VoteOpts, Aggregate, majority, unanimity, by_aggregate, by_majority, by_unanimity, elected,
  decided, below, tally_votes, max_count, tie, no_consensus,
}
use pi_persona.Orchestration.Voting.Best.{IsBest, Among, sort_best_nil, first-sort_best}

-- Every candidate either casts one vote or is set aside.
split_votes-length :
    (to_lower : Text → Text) (candidates : List AgentResult)
    → length (split_votes to_lower candidates).0 + length (split_votes to_lower candidates).1
      ≡ length candidates
unfolding split_votes
split_votes-length to_lower [] = omega arith
split_votes-length to_lower (r ∷ rest) = ground (arith, split_votes-length to_lower rest)

-- What the best answer is taken from: the voters, or, if nobody voted, the answers in prose.
abbrev pub pool : List AgentResult → List Vote → List AgentResult
pool candidates votes = if length votes == 0 then filter is_prose candidates else results_of votes

-- The outcome of a fallback to `best`.
pub record IsFallback (candidates : List AgentResult) (votes : List Vote) (r : ReducerResult)
    (best : AgentResult) : Type 0 where
  pub chosen : r.winner ≡ some best
  pub among : Among best (pool candidates votes)
  pub best_of : IsBest best (pool candidates votes)
  pub others : r.dissent ≡ some (filter (λ c. differs c best) (pool candidates votes))
  pub honest : r.status ≢ winner

without_votes-IsFallback :
    (candidates invalid : List AgentResult)
    → (without_votes candidates invalid).used_fallback ≡ true
    → (best : AgentResult) × IsFallback candidates [] (without_votes candidates invalid) best
unfolding without_votes
without_votes-IsFallback candidates invalid u =
    elim (Option-cases (first (sort_best (filter is_prose candidates)))) [
      | inl e ↦ let no : false ≡ true = rw (e, without_votes) at u in cc
      | inr (best, e) ↦
          let (top, among) = first-sort_best (filter is_prose candidates) best e in
          (
            best,
            rw (e, without_votes)
                (record {
                  chosen = refl;
                  among = among;
                  best_of = top;
                  others = refl;
                  honest = λ h. cc;
                }),
          )
    ]

no_results : (votes : List Vote) → results_of votes ≡ [] → 0 < length votes → ⊥
no_results [] e pos = omega arith
no_results (v ∷ votes) e pos = cc

module _ (opts : VoteOpts) (candidates : List AgentResult) (votes : List Vote)
    (invalid : List AgentResult) where
  kept-IsFallback :
      (s : ReducerStatus)
      → s ≢ winner
      → 0 < length votes
      → opts.keep_best_fallback ≡ true
      → (best : AgentResult) × IsFallback candidates votes
          (with_fallback opts candidates votes invalid s)
          best
  unfolding with_fallback undecided
  kept-IsFallback s n pos k = elim (Option-cases (first (sort_best (results_of votes)))) [
    | inl e ↦ absurd (no_results votes (sort_best_nil (results_of votes) e) pos)
    | inr (best, e) ↦
        let (top, among) = first-sort_best (results_of votes) best e in
        let voted : (length votes == 0) ≡ false = ground arith in
        (
          best,
          rw (k, e, with_fallback)
              (record {
                chosen = refl;
                among = rw voted among;
                best_of = rw voted top;
                others = rw voted refl;
                honest = n;
              }),
        )
  ]

  with_fallback-IsFallback :
      (s : ReducerStatus)
      → s ≢ winner
      → 0 < length votes
      → (with_fallback opts candidates votes invalid s).used_fallback ≡ true
      → (best : AgentResult) × IsFallback candidates votes
          (with_fallback opts candidates votes invalid s)
          best
  unfolding with_fallback undecided
  with_fallback-IsFallback s n pos u = elim (Bool-cases opts.keep_best_fallback) [
    | inl k ↦ kept-IsFallback s n pos k
    | inr k ↦ let no : false ≡ true = rw (k, with_fallback) at u in cc
  ]

  tie-IsFallback :
      0 < length votes
      → (with_fallback opts candidates votes invalid tie).used_fallback ≡ true
      → (best : AgentResult) × IsFallback candidates votes
          (with_fallback opts candidates votes invalid tie)
          best
  tie-IsFallback = with_fallback-IsFallback tie (λ e. cc)

  no_consensus-IsFallback :
      0 < length votes
      → (with_fallback opts candidates votes invalid no_consensus).used_fallback ≡ true
      → (best : AgentResult) × IsFallback candidates votes
          (with_fallback opts candidates votes invalid no_consensus)
          best
  no_consensus-IsFallback = with_fallback-IsFallback no_consensus (λ e. cc)

  by_majority-IsFallback :
      (keys : List Text)
      → 0 < length votes
      → (by_majority opts candidates votes invalid keys).used_fallback ≡ true
      → (best : AgentResult) × IsFallback candidates votes
          (by_majority opts candidates votes invalid keys)
          best
  unfolding by_majority elected decided
  by_majority-IsFallback [] pos u = tie-IsFallback pos u
  by_majority-IsFallback (key ∷ []) pos u =
      elim (Bool-cases
        (below opts candidates votes invalid (max_count (tally_votes votes)) opts.threshold)) [
          | inl b ↦ rw b (no_consensus-IsFallback pos (rw b at u))
          | inr b ↦ let no : false ≡ true = rw b at u in cc
        ]
  by_majority-IsFallback (key ∷ other ∷ keys) pos u = tie-IsFallback pos u

  by_unanimity-IsFallback :
      0 < length votes
      → (by_unanimity opts candidates votes invalid).used_fallback ≡ true
      → (best : AgentResult) × IsFallback candidates votes
          (by_unanimity opts candidates votes invalid)
          best
  unfolding by_unanimity decided
  by_unanimity-IsFallback pos u = elim (Bool-cases (length (tally_votes votes) == 1)) [
    | inl b ↦ let no : false ≡ true = rw b at u in cc
    | inr b ↦ rw b (no_consensus-IsFallback pos (rw b at u))
  ]

  by_aggregate-IsFallback :
      (a : Aggregate)
      → 0 < length votes
      → (by_aggregate opts candidates votes invalid a).used_fallback ≡ true
      → (best : AgentResult) × IsFallback candidates votes
          (by_aggregate opts candidates votes invalid a)
          best
  unfolding by_aggregate
  by_aggregate-IsFallback majority pos u = by_majority-IsFallback _ pos u
  by_aggregate-IsFallback unanimity pos u = by_unanimity-IsFallback pos u

  reduce_none-IsFallback :
      votes ≡ []
      → (reduce_votes opts candidates votes invalid).used_fallback ≡ true
      → (best : AgentResult) × IsFallback candidates votes
          (reduce_votes opts candidates votes invalid)
          best
  unfolding reduce_votes undecided
  reduce_none-IsFallback e u = elim (Bool-cases opts.keep_best_fallback) [
    | inl k ↦ rw (e, k) (without_votes-IsFallback candidates invalid (rw (e, k) at u))
    | inr k ↦ let no : false ≡ true = rw (e, k) at u in cc
  ]

  reduce_some-IsFallback :
      0 < length votes
      → (reduce_votes opts candidates votes invalid).used_fallback ≡ true
      → (best : AgentResult) × IsFallback candidates votes
          (reduce_votes opts candidates votes invalid)
          best
  unfolding reduce_votes
  reduce_some-IsFallback pos u =
      let voted : (length votes == 0) ≡ false = ground arith in
      rw voted (by_aggregate-IsFallback opts.aggregate pos (rw voted at u))

no_votes-cases : (votes : List Vote) → (votes ≡ []) ⊎ (0 < length votes)
no_votes-cases [] = inl refl
no_votes-cases (v ∷ votes) = inr (omega arith)

-- A result that used the fallback names one of the answers it may be taken from, which are the
-- voters, or, if nobody voted, the answers in prose; no such answer has a greater confidence, all the
-- others are the dissent, and the status is not that of a winner.
pub vote_reduce-IsFallback :
    (to_lower : Text → Text) (candidates : List AgentResult) (opts : VoteOpts)
    → (vote_reduce to_lower candidates opts).used_fallback ≡ true
    → (best : AgentResult) × IsFallback candidates
        (split_votes to_lower candidates).0
        (vote_reduce to_lower candidates opts)
        best
unfolding vote_reduce
vote_reduce-IsFallback to_lower candidates opts u =
    elim (no_votes-cases (split_votes to_lower candidates).0) [
      | inl e ↦ reduce_none-IsFallback opts candidates _ _ e u
      | inr pos ↦ reduce_some-IsFallback opts candidates _ _ pos u
    ]
