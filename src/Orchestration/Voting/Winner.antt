-- ===== src/Orchestration/Voting/Winner.antt =====
-- Who wins a vote by majority: the key that more votes have than any other, and only with as many
-- votes as the threshold asks for.
use mathlib.Core.Option
use pi_persona.Base.{
  ℕ, ◌≤◌, ◌<◌, ◌≡◌, refl, sym, ◌∙◌, ◌≢◌, ◌↔◌, inl, inr, false, not, Option, none, some, List, [],
  ◌∷◌, arith, Text, filter, find, length, All, Option-cases,
}
use pi_persona.Orchestration.Results.{AgentResult}
use pi_persona.Orchestration.Voting.{
  ReducerStatus, winner, tie, no_consensus, invalid_outputs, majority, VoteOpts, Vote, max_count,
  top_keys, tally_votes, voted_for, results_of, below, elected, by_majority, reduce_votes,
  with_fallback, without_votes, split_votes, vote_reduce, first, sort_best, is_prose, undecided,
}
use pi_persona.Orchestration.Voting.Tally.{count, IsCounted, count-pos}
use pi_persona.Orchestration.Voting.Majority.{
  IsPlurality, max_count-IsPlurality, top_keys-IsPlurality, IsPlurality-top_keys,
}

-- The best key has the votes that the threshold asks for, if one is given.
abbrev pub MeetsThreshold : Option ℕ → ℕ → Type 0
MeetsThreshold none n = Unit
MeetsThreshold (some threshold) n = threshold ≤ n

pub nonempty : (votes : List Vote) → votes ≢ [] → 0 < length votes
nonempty [] h = absurd (h refl)
nonempty (v ∷ votes) h = omega arith

module _ (opts : VoteOpts) (candidates : List AgentResult) (votes : List Vote)
    (invalid : List AgentResult) where
  pub with_fallback-status :
      (s : ReducerStatus) → (with_fallback opts candidates votes invalid s).status ≡ s
  unfolding with_fallback
  with_fallback-status s = ground arith

  below-MeetsThreshold :
      (threshold : Option ℕ) (n : ℕ)
      → below opts candidates votes invalid (some n) threshold ≡ false
      → MeetsThreshold threshold n
  unfolding below
  below-MeetsThreshold none n h = tt
  below-MeetsThreshold (some t) n h = ground arith

  MeetsThreshold-below :
      (threshold : Option ℕ) (n : ℕ)
      → MeetsThreshold threshold n
      → below opts candidates votes invalid (some n) threshold ≡ false
  unfolding below
  MeetsThreshold-below none n h = refl
  MeetsThreshold-below (some t) n h = ground arith

  without_votes-status : (without_votes candidates invalid).status ≡ invalid_outputs
  unfolding without_votes
  without_votes-status = elim (Option-cases (first (sort_best (filter is_prose candidates)))) [
    | inl e ↦ rw (e, without_votes)
    | inr (best, e) ↦ rw (e, without_votes)
  ]

  pub reduce_none :
      votes ≡ [] → (reduce_votes opts candidates votes invalid).status ≡ invalid_outputs
  unfolding reduce_votes undecided
  reduce_none e = rw e (ground (arith, without_votes-status))

  pub reduce_some :
      0 < length votes
      → opts.aggregate ≡ majority
      → reduce_votes opts candidates votes invalid
        ≡ by_majority opts candidates votes invalid (top_keys (tally_votes votes))
  unfolding reduce_votes
  reduce_some h m = rw m (ground arith)

  pub tie-ne-winner : (with_fallback opts candidates votes invalid tie).status ≢ winner
  tie-ne-winner h = let e : tie ≡ winner = sym (with_fallback-status tie) ∙ h in cc

  by_majority-winner :
      (keys : List Text)
      → (by_majority opts candidates votes invalid keys).status ≡ winner
      → (key : Text) × (keys ≡ key ∷ [])
        × (below opts candidates votes invalid (max_count (tally_votes votes)) opts.threshold
            ≡ false)
  unfolding by_majority
  by_majority-winner [] h = absurd (tie-ne-winner h)
  by_majority-winner (key ∷ []) h = (key, refl, ground (arith, with_fallback-status no_consensus))
  by_majority-winner (key ∷ other ∷ keys) h = absurd (tie-ne-winner h)

  by_majority-elected :
      (key : Text)
      → below opts candidates votes invalid (max_count (tally_votes votes)) opts.threshold ≡ false
      → by_majority opts candidates votes invalid (key ∷ [])
        ≡ elected opts candidates votes invalid key
  unfolding by_majority
  by_majority-elected key h = rw h

  elected-IsPlurality :
      (key : Text)
      → opts.aggregate ≡ majority
      → All IsCounted votes
      → IsPlurality key votes
      → MeetsThreshold opts.threshold (count key votes)
      → reduce_votes opts candidates votes invalid ≡ elected opts candidates votes invalid key
  elected-IsPlurality key m counted p enough =
      reduce_some (count-pos key votes p.0) m
      ∙ rw (top_keys-IsPlurality votes counted key p) (
          by_majority-elected key (
            rw (max_count-IsPlurality votes counted key p)
              (MeetsThreshold-below opts.threshold _ enough)))

  winner-IsPlurality :
      opts.aggregate ≡ majority
      → All IsCounted votes
      → (reduce_votes opts candidates votes invalid).status ≡ winner
      → (key : Text) × IsPlurality key votes × MeetsThreshold opts.threshold (count key votes)
  winner-IsPlurality m counted h =
      let pos : 0 < length votes =
        nonempty votes (λ e. let e' : invalid_outputs ≡ winner = sym (reduce_none e) ∙ h in cc) in
      let (key, only, over) = by_majority-winner _ (rw (reduce_some pos m) at h) in
      let p = IsPlurality-top_keys votes counted key only in
      (
        key,
        p,
        below-MeetsThreshold opts.threshold _
            (rw (max_count-IsPlurality votes counted key p) at over),
      )

module _ (to_lower : Text → Text) (candidates : List AgentResult) (opts : VoteOpts) where
  abbrev pub votes_of : List Vote
  votes_of = (split_votes to_lower candidates).0

  -- Under majority a panel has a winner exactly when some key has more votes than every other key and
  -- at least as many as the threshold, if there is one; provided that nobody votes `constructor`.
  pub vote_reduce-winner_iff :
      opts.aggregate ≡ majority
      → All IsCounted votes_of
      → (vote_reduce to_lower candidates opts).status ≡ winner ↔ (
          (key : Text) × IsPlurality key votes_of
          × MeetsThreshold opts.threshold (count key votes_of))
  unfolding vote_reduce
  vote_reduce-winner_iff m counted = (
    winner-IsPlurality opts candidates votes_of _ m counted,
    λ (key, p, enough).
        rw
          (elected-IsPlurality opts candidates votes_of (split_votes to_lower candidates).1 key m
            counted p enough)
          (unfold elected in refl),
  )

  -- Under majority, when no key that is voted for is the name of a property that plain objects inherit, and
  -- one key has more votes than every other and at least as many as the threshold, the winner is the first
  -- candidate who voted for it, the dissent is all who voted for another, in their order, those without a
  -- vote are set aside, and no fallback was used.
  pub vote_reduce-elected :
      (key : Text)
      → opts.aggregate ≡ majority
      → All IsCounted votes_of
      → IsPlurality key votes_of
      → MeetsThreshold opts.threshold (count key votes_of)
      → vote_reduce to_lower candidates opts ≡ record {
        status = winner;
        winner = Option.map (λ v. v.result) (find (voted_for key) votes_of);
        dissent = some (results_of (filter (λ v. not (voted_for key v)) votes_of));
        invalid = (split_votes to_lower candidates).1;
        tally = tally_votes votes_of;
        used_fallback = false;
      }
  unfolding vote_reduce
  vote_reduce-elected key m counted p enough =
      elected-IsPlurality opts candidates votes_of _ key m counted p enough ∙ unfold elected in refl
