-- ===== src/Orchestration/Voting/Tally.antt =====
-- The tally counts the votes of each key, and its greatest keys are those that most votes have.
use pi_persona.Base.{
  ℕ, ◌+◌, ◌≤◌, ◌<◌, ◌≡◌, refl, ap, ◌∙◌, ◌≢◌, ◌⊎◌, inl, inr, Bool, true, false, Option, none, some,
  List, [], ◌∷◌, map, arith, ◌==◌, if◌then◌else◌, max, Text, codes, text_eq, text_eq_iff,
  text_eq_refl, TextMap, lookup, insert, lookup-insert, HasDistinctKeys, insert-HasDistinctKeys,
  filter, length, All, Bool-cases, lt_or_le,
}
use pi_persona.Orchestration.Voting.{
  Count, num, text, Vote, add_one, tally_from, tally_votes, max_with, max_count,
}

-- How many votes have the key.
unfoldable pub count : Text → List Vote → ℕ
count key [] = 0
count key (v ∷ votes) = (if text_eq v.key key then 1 else 0) + count key votes

-- No vote has the key that plain objects inherit a property for.
abbrev pub IsCounted : Vote → Type 0
IsCounted v = text_eq v.key (codes "constructor") ≡ false

-- The entry of a key after so many votes more.
abbrev plus : Option Count → ℕ → Option Count
plus (some (num m)) n = some (num (m + n))
plus (some text) n = some text
plus none n = if n == 0 then none else some (num n)

abbrev pub IsNumeric : TextMap Count → Type 0
IsNumeric = All (λ e. (n : ℕ) × (e.1 ≡ num n))

plus_zero : (o : Option Count) → o ≡ plus o 0
plus_zero none = refl
plus_zero (some text) = refl
plus_zero (some (num n)) = ground arith

plus-add_one :
    (key : Text) (o : Option Count) (n : ℕ)
    → text_eq key (codes "constructor") ≡ false
    → plus (some (add_one key o)) n ≡ plus o (1 + n)
unfolding add_one
plus-add_one key none n h = ground arith
plus-add_one key (some text) n h = refl
plus-add_one key (some (num m)) n h = ground arith

tally_from-lookup :
    (t : TextMap Count) (votes : List Vote) (key : Text)
    → All IsCounted votes
    → lookup key (tally_from t votes) ≡ plus (lookup key t) (count key votes)
unfolding tally_from count
tally_from-lookup t [] key h = plus_zero (lookup key t)
tally_from-lookup t (v ∷ votes) key (h, hs) =
    let t' = insert v.key (add_one v.key (lookup v.key t)) t in
    let ih = tally_from-lookup t' votes key hs in
    let new = lookup-insert v.key key (add_one v.key (lookup v.key t)) t in
    elim (Bool-cases (text_eq v.key key)) [
      | inl same ↦
          let one : v.key ≡ key = (text_eq_iff v.key key).0 same in
          rw same
            (ih ∙ rw (new, same) (plus-add_one v.key (lookup v.key t) (count key votes) h ∙ rw one))
      | inr other ↦ rw other (ih ∙ rw (new, other) (ap (plus (lookup key t)) (omega arith)))
    ]

-- The entry of a key is the number of its votes; a key without votes has none.
pub tally_votes-lookup :
    (votes : List Vote) (key : Text)
    → All IsCounted votes
    → lookup key (tally_votes votes)
      ≡ (if count key votes == 0 then none else some (num (count key votes)))
unfolding tally_votes lookup
tally_votes-lookup votes key h = tally_from-lookup [] votes key h

tally_from-HasDistinctKeys :
    (t : TextMap Count) (votes : List Vote)
    → HasDistinctKeys t
    → HasDistinctKeys (tally_from t votes)
unfolding tally_from
tally_from-HasDistinctKeys t [] d = d
tally_from-HasDistinctKeys t (v ∷ votes) d =
    tally_from-HasDistinctKeys (insert v.key (add_one v.key (lookup v.key t)) t) votes
      (insert-HasDistinctKeys v.key _ t d)

pub tally_votes-HasDistinctKeys : (votes : List Vote) → HasDistinctKeys (tally_votes votes)
unfolding tally_votes
tally_votes-HasDistinctKeys votes = tally_from-HasDistinctKeys [] votes tt

lookup-IsNumeric :
    (t : TextMap Count)
    → HasDistinctKeys t
    → ((k : Text) (c : Count) → lookup k t ≡ some c → (n : ℕ) × (c ≡ num n))
    → IsNumeric t
unfolding lookup
lookup-IsNumeric [] d h = tt
lookup-IsNumeric ((k, c) ∷ t) (n, d) h = (
  h k c (rw (text_eq_refl k)),
  lookup-IsNumeric t d (λ j e l. h j e (ground (arith, text_eq_iff k j))),
)

pub tally_votes-IsNumeric :
    (votes : List Vote) → All IsCounted votes → IsNumeric (tally_votes votes)
tally_votes-IsNumeric votes h =
    lookup-IsNumeric (tally_votes votes) (tally_votes-HasDistinctKeys votes)
      (λ k c e. (count k votes, ground (arith, tally_votes-lookup votes k h)))

-- The maximum of a tally of numbers is a number, bounds all entries, and is one of them unless it is
-- the zero of an empty tally.
pub record IsGreatest (t : TextMap Count) (m : ℕ) : Type 0 where
  pub value : max_count t ≡ some m
  pub bound : (k : Text) (n : ℕ) → lookup k t ≡ some (num n) → n ≤ m
  pub attained : (m ≡ 0) ⊎ ((k : Text) × (lookup k t ≡ some (num m)))

max_attained :
    (t : TextMap Count) (k : Text) (c : Count) (m n : ℕ)
    → c ≡ num n
    → lookup k t ≡ none
    → (m ≡ 0) ⊎ ((j : Text) × (lookup j t ≡ some (num m)))
    → (max m n ≡ 0) ⊎ ((j : Text) × (lookup j ((k, c) ∷ t) ≡ some (num (max m n))))
unfolding lookup
max_attained t k c m n e d a = elim (lt_or_le m n) [
  | inl less ↦ let top : max m n ≡ n = omega arith in inr (k, rw (text_eq_refl k, top) (ap some e))
  | inr le ↦
      let top : max m n ≡ m = omega arith in
      elim a [
        | inl z ↦ inl (top ∙ z)
        | inr (j, l) ↦ inr (j, rw top (ground (arith, text_eq_iff k j)))
      ]
]

pub max_count-IsGreatest :
    (t : TextMap Count) → HasDistinctKeys t → IsNumeric t → (m : ℕ) × IsGreatest t m
unfolding max_count max_with lookup
max_count-IsGreatest [] d h = (0, record { value = refl; bound = λ k n e. cc; attained = inl refl })
max_count-IsGreatest ((k, c) ∷ t) (new, d) ((n, e), h) =
    let (m, i) = max_count-IsGreatest t d h in
    (
      max m n,
      record {
        value = rw (i.value, e);
        bound = λ j l f. ground (arith, i.bound j l);
        attained = max_attained t k c m n e new i.attained;
      },
    )

clash {ℓ} : {A : Type ℓ} {o : Option A} {a : A} → o ≡ none → o ≡ some a → ⊥
clash e f = cc

-- The keys of the entries that pass a test: one key stands alone exactly when its entry passes and
-- no other does.
module _ {V : Type 0} (p : V → Bool) where
  abbrev pub keys_where : TextMap V → List Text
  keys_where t = map (λ e. e.0) (filter (λ e. p e.1) t)

  abbrev pub IsOnly : Text → V → TextMap V → Type 0
  IsOnly k v t =
      (lookup k t ≡ some v)
      × (p v ≡ true)
      × ((j : Text) (w : V) → j ≢ k → lookup j t ≡ some w → p w ≡ false)

  keys_where-nil :
      (t : TextMap V) (k : Text) (v : V)
      → HasDistinctKeys t
      → keys_where t ≡ []
      → lookup k t ≡ some v
      → p v ≡ false
  unfolding lookup
  keys_where-nil [] k v d e l = cc
  keys_where-nil ((j, w) ∷ t) k v (n, d) e l = ground (arith, keys_where-nil t k v d)

  pub keys_where-IsOnly :
      (t : TextMap V) (k : Text)
      → HasDistinctKeys t
      → keys_where t ≡ k ∷ []
      → (v : V) × IsOnly k v t
  unfolding lookup
  keys_where-IsOnly [] k d e = absurd (cc)
  keys_where-IsOnly ((j, w) ∷ t) k (n, d) e = elim (Bool-cases (p w)) [
    | inl pass ↦
        let one : j ≡ k = ground arith in
        let rest : keys_where t ≡ [] = ground arith in
        (
          w,
          (
            rw (one, text_eq_refl k) refl,
            pass,
            λ j' w' ne l. ground (arith, text_eq_iff j j', keys_where-nil t j' w' d rest),
          ),
        )
    | inr miss ↦
        let rest : keys_where t ≡ k ∷ [] = ground arith in
        let (v, (l, q, others)) = keys_where-IsOnly t k d rest in
        (
          v,
          (
            ground (arith, text_eq_iff j k),
            q,
            λ j' w' ne l'. ground (arith, text_eq_iff j j', others j' w'),
          ),
        )
  ]

  keys_where_none :
      (t : TextMap V)
      → HasDistinctKeys t
      → ((j : Text) (w : V) → lookup j t ≡ some w → p w ≡ false)
      → keys_where t ≡ []
  unfolding lookup
  keys_where_none [] d h = refl
  keys_where_none ((j, w) ∷ t) (n, d) h =
      rw (h j w (rw (text_eq_refl j)))
        (keys_where_none t d (λ i v l. h i v (ground (arith, text_eq_iff j i))))

  pub IsOnly-keys_where :
      (t : TextMap V) (k : Text) (v : V) → HasDistinctKeys t → IsOnly k v t → keys_where t ≡ k ∷ []
  unfolding lookup
  IsOnly-keys_where [] k v d (l, q, others) = cc
  IsOnly-keys_where ((j, w) ∷ t) k v (n, d) (l, q, others) = elim (Bool-cases (text_eq j k)) [
    | inl same ↦
        let one : j ≡ k = (text_eq_iff j k).0 same in
        let pass : p w ≡ true = ground arith in
        rw (
          pass,
          one,
          keys_where_none t d (λ i u l'.
              others i u (λ e. absurd (clash (rw (one, ← e) at n) l'))
                (ground (arith, text_eq_iff j i))),
        )
    | inr other ↦
        let miss : p w ≡ false =
          others j w (λ e. ground (arith, text_eq_iff j k)) (rw (text_eq_refl j)) in
        rw miss (
          IsOnly-keys_where t k v d
            (ground arith, q, λ i u ne l'. others i u ne (ground (arith, text_eq_iff j i))))
  ]

-- A key with a vote shows that there is a vote.
pub count-pos : (key : Text) (votes : List Vote) → 0 < count key votes → 0 < length votes
unfolding count
count-pos key [] h = h
count-pos key (v ∷ votes) h = omega arith
