-- ===== src/Orchestration/Voting/Majority.antt =====
-- The one greatest key of a tally is the one that more votes have than any other.
use pi_persona.Base.{
  ℕ, ◌≤◌, ◌<◌, ◌≡◌, ap, ◌∙◌, ◌≢◌, ◌⊎◌, inl, inr, true, false, some, List, [], ◌∷◌, arith, Text,
  lookup, All, Bool-cases, lt_or_le, text_eq, text_eq_iff,
}
use pi_persona.Orchestration.Voting.{Count, num, Vote, max_count, is_max, top_keys, tally_votes}
use pi_persona.Orchestration.Voting.Tally.{
  count, IsCounted, tally_votes-lookup, tally_votes-HasDistinctKeys, tally_votes-IsNumeric,
  max_count-IsGreatest, keys_where-IsOnly, IsOnly-keys_where,
}

-- More votes have this key than any other.
abbrev pub IsPlurality : Text → List Vote → Type 0
IsPlurality key votes =
    (0 < count key votes) × ((j : Text) → j ≢ key → count j votes < count key votes)

Text-cases : (a b : Text) → (a ≡ b) ⊎ (a ≢ b)
Text-cases a b = elim (Bool-cases (text_eq a b)) [
  | inl same ↦ inl ((text_eq_iff a b).0 same)
  | inr other ↦ inr (λ e. let same : text_eq a b ≡ true = (text_eq_iff a b).1 e in cc)
]

is_max-eq : (m n : ℕ) → is_max (some m) (num n) ≡ true → n ≡ m
unfolding is_max
is_max-eq m n h = ground arith

is_max-ne : (m n : ℕ) → is_max (some m) (num n) ≡ false → n ≢ m
unfolding is_max
is_max-ne m n h = ground arith

below_top : (a b m : ℕ) → 0 < a → a ≡ m → (0 < b → b ≢ m) → (0 < b → b ≤ m) → b < a
below_top a b m pos e ne le = elim (lt_or_le 0 b) [
  | inl h ↦ omega (arith, ne h, le h)
  | inr z ↦ omega arith
]

module _ (votes : List Vote) (counted : All IsCounted votes) where
  tally-voted :
      (key : Text)
      → 0 < count key votes
      → lookup key (tally_votes votes) ≡ some (num (count key votes))
  tally-voted key h = ground (arith, tally_votes-lookup votes key counted)

  voted-tally :
      (key : Text) (c : Count)
      → lookup key (tally_votes votes) ≡ some c
      → (0 < count key votes) × (c ≡ num (count key votes))
  voted-tally key c h = (
    ground (arith, tally_votes-lookup votes key counted),
    ground (arith, tally_votes-lookup votes key counted),
  )

  -- The greatest count is that of a plurality, if there is one.
  pub max_count-IsPlurality :
      (key : Text) → IsPlurality key votes → max_count (tally_votes votes) ≡ some (count key votes)
  max_count-IsPlurality key (pos, more) =
      let (m, i) =
        max_count-IsGreatest (tally_votes votes) (tally_votes-HasDistinctKeys votes)
          (tally_votes-IsNumeric votes counted) in
      i.value
      ∙ ap some (elim i.attained [
        | inl z ↦ absurd (omega (arith, i.bound key (count key votes) (tally-voted key pos)))
        | inr (j, l) ↦ elim (Text-cases j key) [
          | inl same ↦
              let e : num m ≡ num (count j votes) = (voted-tally j (num m) l).1 in
              rw (← same) (ground arith)
          | inr other ↦
              let e : num m ≡ num (count j votes) = (voted-tally j (num m) l).1 in
              let e' : m ≡ count j votes = ground arith in
              absurd
                (omega (arith, more j other, i.bound key (count key votes) (tally-voted key pos)))
        ]
      ])

  pub top_keys-IsPlurality :
      (key : Text) → IsPlurality key votes → top_keys (tally_votes votes) ≡ key ∷ []
  unfolding top_keys
  top_keys-IsPlurality key (pos, more) =
      IsOnly-keys_where _ (tally_votes votes) key (num (count key votes))
        (tally_votes-HasDistinctKeys votes)
        (
          tally-voted key pos,
          rw (max_count-IsPlurality key (pos, more)) (unfold is_max in ground arith),
          λ j w ne l.
              let e = (voted-tally j w l).1 in
              rw (max_count-IsPlurality key (pos, more), e)
                (unfold is_max in ground (arith, more j ne)),
        )

  pub IsPlurality-top_keys :
      (key : Text) → top_keys (tally_votes votes) ≡ key ∷ [] → IsPlurality key votes
  unfolding top_keys
  IsPlurality-top_keys key e =
      let (m, i) =
        max_count-IsGreatest (tally_votes votes) (tally_votes-HasDistinctKeys votes)
          (tally_votes-IsNumeric votes counted) in
      let (c, (l, top, others)) =
        keys_where-IsOnly _ (tally_votes votes) key (tally_votes-HasDistinctKeys votes) e in
      let (pos, own) = voted-tally key c l in
      let best : count key votes ≡ m = is_max-eq m (count key votes) (rw (i.value, own) at top) in
      (
        pos,
        λ j ne.
            below_top (count key votes) (count j votes) m pos best
              (λ h. is_max-ne m (count j votes) (rw i.value at (others j _ ne (tally-voted j h))))
              (λ h. i.bound j (count j votes) (tally-voted j h)),
      )
