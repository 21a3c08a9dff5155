-- ===== src/Orchestration/Voting.antt =====
-- orchestration/voting.ts: the votes of a panel are folded into a decision. `toLowerCase` is a
-- parameter, and a confidence is a natural number, its value in some fixed small unit.
pub mod Tally
pub mod Majority
pub mod Winner
pub mod Best
pub mod Fallback
pub mod Inherited
mod Tests
use mathlib.Core.Option
use pi_persona.Base.{
  ℕ, suc, ◌+◌, ◌≡◌, Bool, true, false, not, ◌&&◌, ◌||◌, Option, none, some, List, [], ◌∷◌, ◌++◌,
  map, reverse, ◌==◌, ltb, leb, if◌then◌else◌, max, Text, codes, text_eq, is_space, trim, is_empty,
  replace_runs, TextMap, lookup, insert, filter, find, any, length,
}
use pi_persona.Orchestration.Results.{
  AgentResult, Structured, Json, string, number, other, is_contract,
}

pub data ReducerStatus : Type 0 where
  winner tie no_consensus invalid_outputs : ReducerStatus

-- A count of the tally object: a number, or the string that the inherited property `constructor`
-- of a plain object turns into when one is added to it.
pub data Count : Type 0 where
  num : ℕ → Count
  text : Count

pub record ReducerResult : Type 0 where
  pub status : ReducerStatus
  pub winner : Option AgentResult
  pub dissent : Option (List AgentResult)
  pub invalid : List AgentResult
  pub tally : TextMap Count
  pub used_fallback : Bool

pub data Aggregate : Type 0 where
  majority unanimity : Aggregate

pub record VoteOpts : Type 0 where
  pub aggregate : Aggregate
  pub keep_best_fallback : Bool
  pub threshold : Option ℕ

pub record Vote : Type 0 where
  pub result : AgentResult
  pub key : Text

-- `/[\s_-]/`
is_separator : ℕ → Bool
is_separator c = is_space c || c == b'_' || c == b'-'

drop_dashes : Text → Text
drop_dashes [] = []
drop_dashes (c ∷ s) = if c == b'-' then drop_dashes s else c ∷ s

-- `s.replace(/^-+|-+$/g, "")`
strip_dashes : Text → Text
unfolding drop_dashes
strip_dashes s = reverse (drop_dashes (reverse (drop_dashes s)))

-- A field that is a string and not blank.
filled : Option Json → Option Text
filled (some (string s)) = if is_empty (trim s) then none else some s
filled _ = none

or_next {ℓ} : {A : Type ℓ} → Option A → Option A → Option A
or_next (some a) o = some a
or_next none o = o

pub confidence_of : Option Structured → ℕ
confidence_of none = 0
confidence_of (some s) = elim s.confidence [ some (number c) ↦ c | _ ↦ 0 ]

pub confidence : AgentResult → ℕ
unfolding confidence_of
confidence r = confidence_of r.structured

-- `[...results].sort((a, b) => confidence(b) - confidence(a))`, which is stable.
insert_best : AgentResult → List AgentResult → List AgentResult
insert_best r [] = r ∷ []
insert_best r (s ∷ rest) =
    let later = s ∷ insert_best r rest in
    if leb (confidence s) (confidence r) then r ∷ s ∷ rest else later

pub sort_best : List AgentResult → List AgentResult
unfolding insert_best
sort_best [] = []
sort_best (r ∷ rest) = insert_best r (sort_best rest)

-- `xs[0]`
abbrev first {ℓ} : {A : Type ℓ} → List A → Option A
first [] = none
first (x ∷ xs) = some x

-- `a !== b`
abbrev pub differs : AgentResult → AgentResult → Bool
differs a b = not (a.handle == b.handle)

-- `xs.includes(a)`
abbrev pub includes_result : List AgentResult → AgentResult → Bool
includes_result xs a = any (λ x. x.handle == a.handle) xs

-- One vote more in the tally: `tally[key] = (tally[key] ?? 0) + 1`.
add_one : Text → Option Count → Count
add_one key (some (num n)) = num (n + 1)
add_one key (some text) = text
add_one key none = if text_eq key (codes "constructor") then text else num 1

tally_from : TextMap Count → List Vote → TextMap Count
unfolding add_one
tally_from t [] = t
tally_from t (v ∷ votes) = tally_from (insert v.key (add_one v.key (lookup v.key t)) t) votes

pub tally_votes : List Vote → TextMap Count
unfolding tally_from
tally_votes votes = tally_from [] votes

-- `Math.max(...Object.values(tally))`, where `none` is NaN.
max_with : Option ℕ → Count → Option ℕ
max_with (some m) (num n) = some (max m n)
max_with (some m) text = none
max_with none c = none

pub max_count : TextMap Count → Option ℕ
unfolding max_with
max_count [] = some 0
max_count ((k, c) ∷ t) = max_with (max_count t) c

-- `tally[k] === max`; NaN is equal to nothing.
pub is_max : Option ℕ → Count → Bool
is_max (some m) (num n) = n == m
is_max _ _ = false

pub top_keys : TextMap Count → List Text
unfolding max_count is_max
top_keys t = map (λ e. e.0) (filter (λ e. is_max (max_count t) e.1) t)

abbrev pub results_of : List Vote → List AgentResult
results_of = map (λ v. v.result)

abbrev pub voted_for : Text → Vote → Bool
voted_for key v = text_eq v.key key

module _ (to_lower : Text → Text) where
  pub normalize_vote : Text → Text
  unfolding is_separator strip_dashes
  normalize_vote value = strip_dashes (replace_runs is_separator b'-' false (to_lower (trim value)))

  key_of : Structured → Option Text
  unfolding or_next filled
  key_of s = Option.map normalize_vote (or_next (filled s.vote) (filled s.result))

  pub vote_key : AgentResult → Option Text
  unfolding key_of
  vote_key r = if r.ok then elim r.structured [ some s ↦ key_of s | none ↦ none ] else none

  -- The first loop: the votes, and the candidates that cast none.
  pub split_votes : List AgentResult → List Vote × List AgentResult
  split_votes [] = ([], [])
  split_votes (r ∷ rest) =
      let (votes, invalid) = split_votes rest in
      elim (vote_key r) [
        | none ↦ (votes, r ∷ invalid)
        | some key ↦ (record { result = r; key = key } ∷ votes, invalid)
      ]

-- What a candidate without a vote may still be: an answer in prose.
pub is_prose : AgentResult → Bool
is_prose c = not (is_empty (trim c.output)) && (c.ok || is_contract c.failure_kind)

pub without_votes : List AgentResult → List AgentResult → ReducerResult
without_votes candidates invalid =
    let prose = filter is_prose candidates in
    elim (first (sort_best prose)) [
      | none ↦ record {
        status = invalid_outputs;
        winner = none;
        dissent = none;
        invalid = invalid;
        tally = [];
        used_fallback = false;
      }
      | some best ↦
          let dissent = filter (λ c. differs c best) prose in
          record {
            status = invalid_outputs;
            winner = some best;
            dissent = some dissent;
            invalid = filter (λ c. differs c best && not (includes_result dissent c)) invalid;
            tally = [];
            used_fallback = true;
          }
    ]

module _ (opts : VoteOpts) (candidates : List AgentResult) (votes : List Vote)
    (invalid : List AgentResult) where
  pub undecided :
      ReducerStatus → Option AgentResult → Option (List AgentResult) → Bool → ReducerResult
  undecided status best dissent used = record {
    status = status;
    winner = best;
    dissent = dissent;
    invalid = invalid;
    tally = tally_votes votes;
    used_fallback = used;
  }

  -- `withFallback`; there is a vote, so there is a best one.
  pub with_fallback : ReducerStatus → ReducerResult
  unfolding undecided
  with_fallback status =
      if opts.keep_best_fallback
      then elim (first (sort_best (results_of votes))) [
        | none ↦ undecided status none none true
        | some best ↦
            undecided status (some best) (some (filter (λ c. differs c best) (results_of votes)))
              true
      ]
      else undecided status none none false

  decided : Option AgentResult → List AgentResult → ReducerResult
  decided best dissent = record {
    status = winner;
    winner = best;
    dissent = some dissent;
    invalid = invalid;
    tally = tally_votes votes;
    used_fallback = false;
  }

  -- `max < opts.threshold` for a threshold that is given.
  pub below : Option ℕ → Option ℕ → Bool
  below (some max) (some threshold) = ltb max threshold
  below _ _ = false

  pub elected : Text → ReducerResult
  unfolding decided
  elected key =
      decided (Option.map (λ v. v.result) (find (voted_for key) votes))
        (results_of (filter (λ v. not (voted_for key v)) votes))

  pub by_majority : List Text → ReducerResult
  unfolding elected below
  by_majority (key ∷ []) =
      if below (max_count (tally_votes votes)) opts.threshold
      then with_fallback no_consensus
      else elected key
  by_majority _ = with_fallback tie

  by_unanimity : ReducerResult
  unfolding decided
  by_unanimity =
      if length (tally_votes votes) == 1
      then decided (Option.map (λ v. v.result) (first votes)) []
      else with_fallback no_consensus

  by_aggregate : Aggregate → ReducerResult
  unfolding by_majority by_unanimity
  by_aggregate unanimity = by_unanimity
  by_aggregate majority = by_majority (top_keys (tally_votes votes))

  pub reduce_votes : ReducerResult
  unfolding without_votes by_aggregate
  reduce_votes =
      if length votes == 0
      then if opts.keep_best_fallback
        then without_votes candidates invalid
        else undecided invalid_outputs none none false
      else by_aggregate opts.aggregate

pub vote_reduce : (Text → Text) → List AgentResult → VoteOpts → ReducerResult
vote_reduce to_lower candidates opts =
    let (votes, invalid) = split_votes to_lower candidates in
    reduce_votes opts candidates votes invalid
