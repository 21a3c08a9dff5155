-- ===== src/Base/Texts.antt =====
-- JavaScript strings as lists of UTF-16 code units.
use Prim.Native.Char.{code}
use Prim.Native.Nat.{ℕ}
use Prim.Native.String.{String}
use mathlib.Core.Path.{◌≡◌, refl}
use mathlib.Core.Logic.{◌↔◌}
use mathlib.Core.Bool.{Bool, true, false, ◌&&◌, ◌||◌}
use mathlib.Core.List.{List, [], ◌∷◌, reverse}
use native.Mathlib.Omega.{arith}
use pi_persona.Base.Tests.{◌==◌, leb, if◌then◌else◌}
use pi_persona.Base.Lists.{all, any, All, All-reverse}

abbrev pub Text : Type 0
Text = List ℕ

-- The code units of an ASCII literal.
abbrev pub codes : String → Text
codes String.[] = []
codes (String.◌∷◌ c s) = code c ∷ codes s

-- `a === b`
unfoldable pub text_eq : Text → Text → Bool
text_eq [] [] = true
text_eq [] (y ∷ ys) = false
text_eq (x ∷ xs) [] = false
text_eq (x ∷ xs) (y ∷ ys) = x == y && text_eq xs ys

pub text_eq_refl : (a : Text) → text_eq a a ≡ true
unfolding text_eq
text_eq_refl [] = refl
text_eq_refl (x ∷ xs) = ground (arith, text_eq_refl xs)

pub text_eq_sound : (a b : Text) → text_eq a b ≡ true → a ≡ b
unfolding text_eq
text_eq_sound [] [] h = refl
text_eq_sound [] (y ∷ ys) h = ground arith
text_eq_sound (x ∷ xs) [] h = ground arith
text_eq_sound (x ∷ xs) (y ∷ ys) h = ground (arith, text_eq_sound xs ys)

pub text_eq_iff : (a b : Text) → (text_eq a b ≡ true) ↔ (a ≡ b)
text_eq_iff a b = (text_eq_sound a b, λ e. rw e (text_eq_refl b))

-- `s.startsWith(p)`, with the prefix first.
unfoldable pub starts_with : Text → Text → Bool
starts_with [] s = true
starts_with (x ∷ xs) [] = false
starts_with (x ∷ xs) (y ∷ ys) = x == y && starts_with xs ys

-- `xs.includes(a)`
abbrev pub includes : List Text → Text → Bool
includes xs a = any (λ x. text_eq x a) xs

-- What holds of each holds of one of them.
pub all-includes :
    (p : Text → Bool) (xs : List Text) (a : Text)
    → all p xs ≡ true
    → includes xs a ≡ true
    → p a ≡ true
all-includes p [] a h k = ground arith
all-includes p (x ∷ xs) a h k = ground (arith, all-includes p xs a, text_eq_iff x a)

abbrev pub between : ℕ → ℕ → ℕ → Bool
between lo hi c = leb lo c && leb c hi

-- The white space of `\s` and of `trim`.
unfoldable pub is_space : ℕ → Bool
is_space c =
    between 9 13 c
    || c == 32
    || c == 160
    || c == 0x1680
    || between 0x2000 0x200a c
    || c == 0x2028
    || c == 0x2029
    || c == 0x202f
    || c == 0x205f
    || c == 0x3000
    || c == 0xfeff

unfoldable pub drop_spaces : Text → Text
drop_spaces [] = []
drop_spaces (c ∷ s) = if is_space c then drop_spaces s else c ∷ s

-- `s.trim()`
unfoldable pub trim : Text → Text
unfolding drop_spaces
trim s = reverse (drop_spaces (reverse (drop_spaces s)))

module _ {ℓ} (P : ℕ → Type ℓ) where
  All-drop_spaces : (s : Text) → All P s → All P (drop_spaces s)
  unfolding drop_spaces
  All-drop_spaces [] h = tt
  All-drop_spaces (c ∷ s) (k, h) = ground (arith, All-drop_spaces s h)

  -- What holds of every unit of a text holds of every unit of the trimmed text.
  pub All-trim : (s : Text) → All P s → All P (trim s)
  unfolding trim
  All-trim s h = All-reverse P _ (All-drop_spaces _ (All-reverse P _ (All-drop_spaces s h)))

abbrev pub is_empty : Text → Bool
is_empty [] = true
is_empty (c ∷ s) = false

-- `s.replace(/p+/g, r)`: each run of units that pass `p` becomes one `r`. `inside` tells that the
-- unit before was of a run.
unfoldable pub replace_runs : (ℕ → Bool) → ℕ → Bool → Text → Text
replace_runs p r inside [] = []
replace_runs p r inside (c ∷ s) =
    let rest = replace_runs p r (p c) s in
    if p c then (if inside then rest else r ∷ rest) else c ∷ rest
