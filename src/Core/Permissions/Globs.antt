-- ===== src/Core/Permissions/Globs.antt =====
-- What the regular expression of a pattern matches, where a dot matches no line terminator, and that the
-- test decides it.
use pi_persona.Base.{
  ℕ, ◌≡◌, refl, ◌≢◌, ◌↔◌, ◌⊎◌, inl, inr, true, false, [], ◌∷◌, arith, Text, Bool-cases,
}
use pi_persona.Core.Permissions.{
  any_run, any_one, unit, RegExp, part_of, compile, is_line_end, test,
}

-- The code unit is no line terminator.
abbrev pub IsInLine : ℕ → Type 0
IsInLine c = (c ≢ 0x0a) × (c ≢ 0x0d) × (c ≢ 0x2028) × (c ≢ 0x2029)

-- `*`, compiled to `.*`, stands for any run of units without a line terminator, `?`, compiled to a dot, for
-- one such unit, any other unit for itself.
pub data Matches : Text → Text → Type 0 where
  done : Matches [] []
  run_end : {a : ℕ} {p s : Text} → a ≡ b'*' → Matches p s → Matches (a ∷ p) s
  run_on :
      {a c : ℕ} {p s : Text} → a ≡ b'*' → IsInLine c → Matches (a ∷ p) s → Matches (a ∷ p) (c ∷ s)
  one : {a c : ℕ} {p s : Text} → a ≡ b'?' → IsInLine c → Matches p s → Matches (a ∷ p) (c ∷ s)
  itself :
      {a c : ℕ} {p s : Text} → a ≢ b'*' → a ≢ b'?' → a ≡ c → Matches p s → Matches (a ∷ p) (c ∷ s)

part_of-cases :
    (a : ℕ)
    → ((a ≡ b'*') × (part_of a ≡ any_run))
      ⊎ (((a ≡ b'?') × (part_of a ≡ any_one)) ⊎ ((a ≢ b'*') × (a ≢ b'?') × (part_of a ≡ unit a)))
unfolding part_of
part_of-cases a = ground arith

pub is_line_end-IsInLine : (c : ℕ) → is_line_end c ≡ false → IsInLine c
unfolding is_line_end
is_line_end-IsInLine c h = (ground arith, ground arith, ground arith, ground arith)

IsInLine-is_line_end : (c : ℕ) → IsInLine c → is_line_end c ≡ false
unfolding is_line_end
IsInLine-is_line_end c h = ground arith

module _ (a : ℕ) (p : Text) where
  run_sound :
      (s : Text)
      → a ≡ b'*'
      → test (any_run ∷ compile p) s ≡ true
      → ((t : Text) → test (compile p) t ≡ true → Matches p t)
      → Matches (a ∷ p) s
  unfolding test
  run_sound [] e h ih = run_end e (ih [] h)
  run_sound (c ∷ s) e h ih = elim (Bool-cases (test (compile p) (c ∷ s))) [
    | inl now ↦ run_end e (ih (c ∷ s) now)
    | inr later ↦ run_on e (is_line_end-IsInLine c (ground arith)) (run_sound s e (ground arith) ih)
  ]

  one_sound :
      (s : Text)
      → a ≡ b'?'
      → test (any_one ∷ compile p) s ≡ true
      → ((t : Text) → test (compile p) t ≡ true → Matches p t)
      → Matches (a ∷ p) s
  unfolding test
  one_sound [] e h ih = cc
  one_sound (c ∷ s) e h ih = one e (is_line_end-IsInLine c (ground arith)) (ih s (ground arith))

  unit_sound :
      (s : Text)
      → a ≢ b'*'
      → a ≢ b'?'
      → test (unit a ∷ compile p) s ≡ true
      → ((t : Text) → test (compile p) t ≡ true → Matches p t)
      → Matches (a ∷ p) s
  unfolding test
  unit_sound [] n k h ih = cc
  unit_sound (c ∷ s) n k h ih = itself n k (ground arith) (ih s (ground arith))

test_sound : (p s : Text) → test (compile p) s ≡ true → Matches p s
unfolding test compile
test_sound [] [] h = done
test_sound [] (c ∷ s) h = cc
test_sound (a ∷ p) s h = elim (part_of-cases a) [
  | inl (e, k) ↦ run_sound a p s e (rw k at h) (test_sound p)
  | inr (inl (e, k)) ↦ one_sound a p s e (rw k at h) (test_sound p)
  | inr (inr (n, m, k)) ↦ unit_sound a p s n m (rw k at h) (test_sound p)
]

test-run : (r : RegExp) (s : Text) → test r s ≡ true → test (any_run ∷ r) s ≡ true
unfolding test
test-run r [] h = h
test-run r (c ∷ s) h = ground arith

test_complete : {p s : Text} → Matches p s → test (compile p) s ≡ true
unfolding test compile
test_complete done = refl
test_complete (run_end {a} {p} {s} e m) =
    let k : part_of a ≡ any_run = unfold part_of in ground arith in
    rw k (test-run (compile p) s (test_complete m))
test_complete (run_on {a} {c} {p} {s} e l m) =
    ground (arith, test_complete m, IsInLine-is_line_end c l, part_of-cases a)
test_complete (one {a} {c} {p} {s} e l m) =
    ground (arith, test_complete m, IsInLine-is_line_end c l, part_of-cases a)
test_complete (itself {a} {c} {p} {s} n k e m) = ground (arith, test_complete m, part_of-cases a)

-- The compiled pattern accepts exactly the names that its regular expression matches.
pub test-compile : (p s : Text) → (test (compile p) s ≡ true) ↔ Matches p s
test-compile p s = (test_sound p s, test_complete)
