-- ===== src/Exocom/Guards/Seen.antt =====
-- The memory of message ids: what is held stays held for its time.
use pi_persona.Base.{
  ℕ, ◌+◌, ◌≤◌, ◌<◌, ◌≡◌, refl, ◌⊎◌, inl, inr, true, not, some, [], ◌∷◌, arith, ltb, leb, Text,
  text_eq, text_eq_iff, text_eq_refl, TextMap, lookup, insert, lookup-insert, HasDistinctKeys,
  insert-HasDistinctKeys, length, All, Bool-cases, Option-cases, ◌≢◌, lt_or_le, lookup-filter,
  filter-HasDistinctKeys,
}
use pi_persona.Exocom.Guards.{SeenMessages, seen_key, sweep, hold, seen_before_key, seen_max}

-- Ids without the separator give different keys for different pairs.
seen_key-injective :
    (s m s' m' : Text)
    → All (λ c. c ≢ 0x1f) s
    → All (λ c. c ≢ 0x1f) s'
    → seen_key s m ≡ seen_key s' m'
    → (s ≡ s') × (m ≡ m')
unfolding seen_key
seen_key-injective [] m [] m' h k e = (refl, cc)
seen_key-injective [] m (d ∷ s') m' h k e = absurd (k.0 (ground arith))
seen_key-injective (c ∷ s) m [] m' h k e = absurd (h.0 (ground arith))
seen_key-injective (c ∷ s) m (d ∷ s') m' h k e =
    ground (arith, seen_key-injective s m s' m' h.1 k.1)

-- The key is held at the time `t`.
abbrev pub IsHeld : SeenMessages → ℕ → Text → Type 0
IsHeld s t key = (at : ℕ) × (lookup key s.seen ≡ some at) × (t < at + s.ttl_ms)

pub seen_before_held :
    (s : SeenMessages) (t : ℕ) (key : Text) → IsHeld s t key → seen_before_key s t key ≡ (true, s)
unfolding seen_before_key
seen_before_held s t key (at, e, h) = ground arith

pub seen_before_new :
    (s : SeenMessages) (t : ℕ) (key : Text)
    → ((at : ℕ) → lookup key s.seen ≡ some at → at + s.ttl_ms ≤ t)
    → seen_before_key s t key ≡ hold s t key
unfolding seen_before_key
seen_before_new s t key old = elim (Option-cases (lookup key s.seen)) [
  | inl e ↦ rw (e, seen_before_key)
  | inr (at, e) ↦ let h = old at e in ground arith
]

-- A key is held, or its time is over.
pub IsHeld-cases :
    (s : SeenMessages) (t : ℕ) (key : Text)
    → IsHeld s t key ⊎ ((at : ℕ) → lookup key s.seen ≡ some at → at + s.ttl_ms ≤ t)
IsHeld-cases s t key = elim (Option-cases (lookup key s.seen)) [
  | inl e ↦ inr (λ at e'. cc)
  | inr (at, e) ↦ elim (lt_or_le t (at + s.ttl_ms)) [
    | inl h ↦ inl (at, e, h)
    | inr h ↦ inr (λ at' e'. let same : at ≡ at' = cc in rw (← same) h)
  ]
]

sweep-lookup :
    (ttl t : ℕ) (key : Text) (at : ℕ) (m : TextMap ℕ)
    → HasDistinctKeys m
    → lookup key m ≡ some at
    → t < at + ttl
    → lookup key (sweep ttl t m) ≡ some at
unfolding sweep
sweep-lookup ttl t key at m d e h =
    ground (arith, lookup-filter (λ x. not (leb (x.1 + ttl) t)) key at m d e (λ j. ground arith))

sweep-HasDistinctKeys :
    (ttl t : ℕ) (m : TextMap ℕ) → HasDistinctKeys m → HasDistinctKeys (sweep ttl t m)
unfolding sweep
sweep-HasDistinctKeys ttl t m d = elim (Bool-cases (ltb seen_max (length m))) [
  | inl big ↦ rw big (filter-HasDistinctKeys _ m d)
  | inr small ↦ rw small d
]

-- What a call of `seenBefore` on a new key keeps: what is held stays held while its time is not
-- over, and the key itself is held from the time of the call on.
pub record IsKept (t : ℕ) (key : Text) (s s' : SeenMessages) : Type 0 where
  pub ttl : s'.ttl_ms ≡ s.ttl_ms
  pub distinct : HasDistinctKeys s'.seen
  pub held :
      (k : Text) (at : ℕ)
      → lookup k s.seen ≡ some at
      → t < at + s.ttl_ms
      → lookup k s'.seen ≡ some at
  pub own : 0 < s.ttl_ms → lookup key s'.seen ≡ some t

insert-held :
    (s : SeenMessages) (t : ℕ) (key k : Text) (at : ℕ)
    → ((at : ℕ) → lookup key s.seen ≡ some at → at + s.ttl_ms ≤ t)
    → lookup k s.seen ≡ some at
    → t < at + s.ttl_ms
    → lookup k (insert key t s.seen) ≡ some at
insert-held s t key k at old e h = elim (Bool-cases (text_eq key k)) [
  | inl same ↦
      let one : key ≡ k = (text_eq_iff key k).0 same in absurd (omega (arith, old at (rw one e)))
  | inr other ↦ rw (lookup-insert key k t s.seen, other) e
]

pub hold-IsKept :
    (s : SeenMessages) (t : ℕ) (key : Text)
    → HasDistinctKeys s.seen
    → ((at : ℕ) → lookup key s.seen ≡ some at → at + s.ttl_ms ≤ t)
    → IsKept t key s (hold s t key).1
unfolding hold
hold-IsKept s t key d old =
    let d' = insert-HasDistinctKeys key t s.seen d in
    record {
      ttl = refl;
      distinct = sweep-HasDistinctKeys s.ttl_ms t (insert key t s.seen) d';
      held = λ k at e h.
          sweep-lookup s.ttl_ms t k at (insert key t s.seen) d' (insert-held s t key k at old e h)
            h;
      own = λ pos.
          sweep-lookup s.ttl_ms t key t (insert key t s.seen) d'
            (rw (lookup-insert key key t s.seen, text_eq_refl key)) (omega arith);
    }
