-- ===== src/Orchestration/Voting/Tests.antt =====
-- Concrete panels.
use mathlib.Core.Option
use pi_persona.Base.{
  ℕ, ◌≡◌, refl, ◌≢◌, ◌↔◌, ◌≤◌, ◌<◌, true, false, not, none, some, List, [], ◌∷◌, arith, Text, codes,
  text_eq, All, is_space, trim, drop_spaces, replace_runs, filter, find, any, lookup, insert,
  text_eq_iff,
}
use pi_persona.Orchestration.Results.{AgentResult, string, number}
use pi_persona.Orchestration.Voting.{
  winner, tie, VoteOpts, majority, vote_reduce, split_votes, vote_key, key_of, normalize_vote,
  or_next, filled, is_separator, strip_dashes, drop_dashes, voted_for, results_of, tally_votes,
  reduce_votes, by_aggregate, by_majority, top_keys, tally_from, add_one, max_count, max_with,
  is_max, with_fallback, undecided, sort_best, insert_best, confidence, confidence_of,
}
use pi_persona.Orchestration.Voting.Tally.{count, IsCounted}
use pi_persona.Orchestration.Voting.Majority.{IsPlurality}
use pi_persona.Orchestration.Voting.Winner.{
  votes_of, MeetsThreshold, vote_reduce-winner_iff, vote_reduce-elected,
}
use pi_persona.Orchestration.Voting.Inherited.{vote_reduce_inherited}
use pi_persona.Orchestration.Voting.Fallback.{IsFallback, vote_reduce-IsFallback}

abbrev lower : Text → Text
lower t = t

abbrev answer : ℕ → Text → ℕ → AgentResult
answer handle vote confidence = record {
  handle = handle;
  agent = codes "judge";
  output = codes "because";
  structured =
      some (record {
        vote = some (string vote);
        result = none;
        confidence = some (number confidence);
      });
  ok = true;
  error = none;
  model_used = none;
  failure_kind = none;
}

abbrev panel : List AgentResult
panel = answer 0 (codes "yes ") 5 ∷ answer 1 (codes "no") 9 ∷ answer 2 (codes "yes") 3 ∷ []

abbrev split_panel : List AgentResult
split_panel = answer 0 (codes "yes") 5 ∷ answer 1 (codes "no") 9 ∷ []

abbrev opts : VoteOpts
opts = record { aggregate = majority; keep_best_fallback = true; threshold = some 2 }

panel-IsCounted : All IsCounted (votes_of lower panel opts)
unfolding split_votes vote_key key_of normalize_vote or_next filled is_separator strip_dashes
    drop_dashes trim drop_spaces is_space replace_runs text_eq
panel-IsCounted = (refl, (refl, (refl, tt)))

-- Two of the three votes are `yes`.
others : (j : Text) → j ≢ codes "yes" → count j (votes_of lower panel opts) < 2
unfolding count split_votes vote_key key_of normalize_vote or_next filled is_separator strip_dashes
    drop_dashes trim drop_spaces is_space replace_runs
others j n = ground (arith, text_eq_iff (codes "yes") j)

panel-IsPlurality : IsPlurality (codes "yes") (votes_of lower panel opts)
unfolding count split_votes vote_key key_of normalize_vote or_next filled is_separator strip_dashes
    drop_dashes trim drop_spaces is_space replace_runs text_eq
panel-IsPlurality = (omega arith, others)

vote_reduce-winner_iff_example : (vote_reduce lower panel opts).status ≡ winner ↔ (
    (key : Text) × IsPlurality key (votes_of lower panel opts)
    × MeetsThreshold (some 2) (count key (votes_of lower panel opts)))
vote_reduce-winner_iff_example = vote_reduce-winner_iff lower panel opts refl panel-IsCounted

panel-MeetsThreshold : 2 ≤ count (codes "yes") (votes_of lower panel opts)
unfolding count split_votes vote_key key_of normalize_vote or_next filled is_separator strip_dashes
    drop_dashes trim drop_spaces is_space replace_runs text_eq
panel-MeetsThreshold = omega arith

vote_reduce-elected_example : vote_reduce lower panel opts ≡ record {
  status = winner;
  winner = Option.map (λ v. v.result) (find (voted_for (codes "yes")) (votes_of lower panel opts));
  dissent =
      some (results_of (filter (λ v. not (voted_for (codes "yes") v)) (votes_of lower panel opts)));
  invalid = (split_votes lower panel).1;
  tally = tally_votes (votes_of lower panel opts);
  used_fallback = false;
}
vote_reduce-elected_example =
    vote_reduce-elected lower panel opts (codes "yes") refl panel-IsCounted panel-IsPlurality
      panel-MeetsThreshold

-- All agree on a key that plain objects inherit a property for.
abbrev unlucky : List AgentResult
unlucky = answer 0 (codes "constructor") 5 ∷ answer 1 (codes "constructor") 9 ∷ []

unlucky-has_vote :
    any (λ v. text_eq v.key (codes "constructor")) (split_votes lower unlucky).0 ≡ true
unfolding split_votes vote_key key_of normalize_vote or_next filled is_separator strip_dashes
    drop_dashes trim drop_spaces is_space replace_runs text_eq
unlucky-has_vote = refl

vote_reduce_inherited_example : (vote_reduce lower unlucky opts).status ≡ tie
vote_reduce_inherited_example = vote_reduce_inherited lower unlucky opts refl unlucky-has_vote

split_panel-used_fallback : (vote_reduce lower split_panel opts).used_fallback ≡ true
unfolding vote_reduce split_votes vote_key key_of normalize_vote or_next filled is_separator
    strip_dashes drop_dashes trim drop_spaces is_space replace_runs text_eq reduce_votes
    by_aggregate by_majority top_keys tally_votes tally_from add_one max_count max_with is_max
    with_fallback undecided sort_best insert_best confidence confidence_of lookup insert
split_panel-used_fallback = refl

vote_reduce-IsFallback_example :
    (best : AgentResult) × IsFallback split_panel
      (split_votes lower split_panel).0
      (vote_reduce lower split_panel opts)
      best
vote_reduce-IsFallback_example =
    vote_reduce-IsFallback lower split_panel opts split_panel-used_fallback
