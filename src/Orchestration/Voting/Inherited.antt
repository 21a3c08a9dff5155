-- ===== src/Orchestration/Voting/Inherited.antt =====
-- The tally is a plain object, and reads an inherited property for the key `constructor`.
use pi_persona.Base.{
  ℕ, ◌<◌, ◌≡◌, refl, ◌∙◌, inl, inr, ◌⊎◌, Bool, true, false, Option, none, some, List, [], ◌∷◌,
  arith, Text, codes, text_eq, text_eq_iff, text_eq_refl, TextMap, lookup, insert, lookup-insert,
  any, length, filter, map, Bool-cases,
}
use pi_persona.Orchestration.Results.{AgentResult}
use pi_persona.Orchestration.Voting.{
  tie, Count, text, majority, VoteOpts, Vote, add_one, tally_from, tally_votes, max_with, max_count,
  is_max, top_keys, by_majority, vote_reduce, split_votes,
}
use pi_persona.Orchestration.Voting.Winner.{with_fallback-status, reduce_some}

abbrev pub inherited : Text
inherited = codes "constructor"

-- The entry of the inherited key is no number.
abbrev IsOdd : TextMap Count → Type 0
IsOdd t = (lookup inherited t ≡ none) ⊎ (lookup inherited t ≡ some text)

abbrev after : TextMap Count → Vote → TextMap Count
after t v = insert v.key (add_one v.key (lookup v.key t)) t

after_own :
    (t : TextMap Count) (v : Vote)
    → IsOdd t
    → v.key ≡ inherited
    → lookup inherited (after t v) ≡ some text
unfolding add_one
after_own t v odd e =
    rw
      (
        e,
        lookup-insert inherited inherited (add_one inherited (lookup inherited t)) t,
        text_eq_refl inherited,
      )
      (elim odd [ inl n ↦ rw (n, text_eq_refl inherited) | inr s ↦ rw s ])

after_other :
    (t : TextMap Count) (v : Vote)
    → text_eq v.key inherited ≡ false
    → lookup inherited (after t v) ≡ lookup inherited t
after_other t v h = rw (lookup-insert v.key inherited (add_one v.key (lookup v.key t)) t, h)

-- A text in the tally stays a text.
tally_from_text :
    (t : TextMap Count) (votes : List Vote)
    → lookup inherited t ≡ some text
    → lookup inherited (tally_from t votes) ≡ some text
unfolding tally_from
tally_from_text t [] e = e
tally_from_text t (v ∷ votes) e =
    tally_from_text (after t v) votes (elim (Bool-cases (text_eq v.key inherited)) [
      | inl same ↦ after_own t v (inr e) ((text_eq_iff v.key inherited).0 same)
      | inr other ↦ after_other t v other ∙ e
    ])

abbrev pub has_vote : List Vote → Bool
has_vote votes = any (λ v. text_eq v.key inherited) votes

tally_from-inherited :
    (t : TextMap Count) (votes : List Vote)
    → lookup inherited t ≡ none
    → has_vote votes ≡ true
    → lookup inherited (tally_from t votes) ≡ some text
unfolding tally_from
tally_from-inherited t [] e h = cc
tally_from-inherited t (v ∷ votes) e h = elim (Bool-cases (text_eq v.key inherited)) [
  | inl same ↦
      tally_from_text (after t v) votes
        (after_own t v (inl e) ((text_eq_iff v.key inherited).0 same))
  | inr other ↦ tally_from-inherited (after t v) votes (after_other t v other ∙ e) (ground arith)
]

max_with_text : (m : Option ℕ) → max_with m text ≡ none
unfolding max_with
max_with_text none = refl
max_with_text (some m) = refl

has_vote-length : (votes : List Vote) → has_vote votes ≡ true → 0 < length votes
has_vote-length [] h = cc
has_vote-length (v ∷ votes) h = omega arith

max_count_text : (t : TextMap Count) (k : Text) → lookup k t ≡ some text → max_count t ≡ none
unfolding max_count max_with lookup
max_count_text [] k e = cc
max_count_text ((j, c) ∷ t) k e = elim (Bool-cases (text_eq j k)) [
  | inl same ↦ let here : c ≡ text = ground arith in rw here (max_with_text (max_count t))
  | inr other ↦ rw (max_count_text t k (ground arith))
]

no_keys : (t : TextMap Count) → map (λ e. e.0) (filter (λ e. is_max none e.1) t) ≡ []
unfolding is_max
no_keys [] = refl
no_keys ((k, c) ∷ t) = no_keys t

top_keys_inherited : (votes : List Vote) → has_vote votes ≡ true → top_keys (tally_votes votes) ≡ []
unfolding top_keys tally_votes
top_keys_inherited votes h =
    rw
      (max_count_text (tally_from [] votes) inherited
        (tally_from-inherited [] votes (unfold lookup in refl) h))
      (no_keys (tally_from [] votes))

-- Under majority a panel in which anybody votes `constructor` has no winner, even if all agree.
pub vote_reduce_inherited :
    (to_lower : Text → Text) (candidates : List AgentResult) (opts : VoteOpts)
    → opts.aggregate ≡ majority
    → has_vote (split_votes to_lower candidates).0 ≡ true
    → (vote_reduce to_lower candidates opts).status ≡ tie
unfolding vote_reduce
vote_reduce_inherited to_lower candidates opts m h =
    let (votes, invalid) = split_votes to_lower candidates in
    rw
      (
        reduce_some opts candidates votes invalid (has_vote-length votes h) m,
        top_keys_inherited votes h,
      )
      (unfold by_majority in with_fallback-status opts candidates votes invalid tie)
