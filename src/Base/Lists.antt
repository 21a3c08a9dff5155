-- ===== src/Base/Lists.antt =====
-- Lists measured by native numbers and filtered by Boolean tests, under the library's names.
use Prim.Native.Nat.{ℕ, zero, suc, ◌+◌, ◌-◌, ◌≤◌, min}
use mathlib.Core.Path.{◌≡◌, refl, ap, subst}
use mathlib.Core.Logic.{◌↔◌, ◌⊎◌, inl, inr}
use mathlib.Core.Bool.{Bool, true, false, not, ◌&&◌, ◌||◌}
use mathlib.Core.List.{List, [], ◌∷◌, ◌++◌, map, reverse, reverse_aux}
use mathlib.Core.Option.{Option, none, some}
use native.Mathlib.Omega.{arith}
use pi_persona.Base.Tests.{if◌then◌else◌, &&-eq-true}

module _ {ℓ} {A : Type ℓ} where
  abbrev pub length : List A → ℕ
  length [] = 0
  length (x ∷ xs) = suc (length xs)

  abbrev pub filter : (A → Bool) → List A → List A
  filter p [] = []
  filter p (x ∷ xs) = if p x then x ∷ filter p xs else filter p xs

  -- `xs.find(p)`
  abbrev pub find : (A → Bool) → List A → Option A
  find p [] = none
  find p (x ∷ xs) = if p x then some x else find p xs

  -- `xs.some(p)` and `xs.every(p)`
  abbrev pub any : (A → Bool) → List A → Bool
  any p [] = false
  any p (x ∷ xs) = p x || any p xs

  abbrev pub all : (A → Bool) → List A → Bool
  all p [] = true
  all p (x ∷ xs) = p x && all p xs

  abbrev pub get_elem? : List A → ℕ → Option A
  get_elem? [] i = none
  get_elem? (x ∷ xs) zero = some x
  get_elem? (x ∷ xs) (suc i) = get_elem? xs i

  abbrev pub take : ℕ → List A → List A
  take zero xs = []
  take (suc n) [] = []
  take (suc n) (x ∷ xs) = x ∷ take n xs

  abbrev pub drop : ℕ → List A → List A
  drop zero xs = xs
  drop (suc n) [] = []
  drop (suc n) (x ∷ xs) = drop n xs

  abbrev pub flatten : List (List A) → List A
  flatten [] = []
  flatten (xs ∷ xss) = xs ++ flatten xss

  -- `xs.slice(-n)` for a positive `n`
  abbrev pub take_last : ℕ → List A → List A
  take_last n xs = drop (length xs - n) xs

  pub length-append : (xs ys : List A) → length (xs ++ ys) ≡ length xs + length ys
  length-append [] ys = omega arith
  length-append (x ∷ xs) ys = omega (arith, length-append xs ys)

  pub length-drop : (n : ℕ) (xs : List A) → length (drop n xs) ≡ length xs - n
  length-drop zero xs = omega arith
  length-drop (suc n) [] = omega arith
  length-drop (suc n) (x ∷ xs) = omega (arith, length-drop n xs)

  pub length-take : (n : ℕ) (xs : List A) → length (take n xs) ≡ min n (length xs)
  length-take zero xs = omega arith
  length-take (suc n) [] = omega arith
  length-take (suc n) (x ∷ xs) = omega (arith, length-take n xs)

  pub take-append-drop : (n : ℕ) (xs : List A) → take n xs ++ drop n xs ≡ xs
  take-append-drop zero xs = refl
  take-append-drop (suc n) [] = refl
  take-append-drop (suc n) (x ∷ xs) = ap (◌∷◌ x) (take-append-drop n xs)

  pub length-take_last : (n : ℕ) (xs : List A) → length (take_last n xs) ≡ min n (length xs)
  length-take_last n xs = omega (arith, length-drop (length xs - n) xs)

  pub length-filter-le : (p : A → Bool) (xs : List A) → length (filter p xs) ≤ length xs
  length-filter-le p [] = omega arith
  length-filter-le p (x ∷ xs) = ground (arith, length-filter-le p xs)

  pub filter-append :
      (p : A → Bool) (xs ys : List A) → filter p (xs ++ ys) ≡ filter p xs ++ filter p ys
  filter-append p [] ys = refl
  filter-append p (x ∷ xs) ys = ground (arith, filter-append p xs ys)

  -- A filter and its complement split the length.
  pub length-filter-not :
      (p : A → Bool) (xs : List A)
      → length (filter p xs) + length (filter (λ x. not (p x)) xs) ≡ length xs
  length-filter-not p [] = omega arith
  length-filter-not p (x ∷ xs) = ground (arith, length-filter-not p xs)

  pub find-filter : (p : A → Bool) (xs : List A) (a : A) → find p xs ≡ some a → p a ≡ true
  find-filter p [] a e = ground arith
  find-filter p (x ∷ xs) a e = ground (arith, find-filter p xs a)

module _ {ℓ κ} {A : Type ℓ} (P : A → Type κ) where
  -- A predicate at each element, by recursion, which the tactics read and build.
  abbrev pub All : List A → Type κ
  All [] = Unit
  All (x ∷ xs) = P x × All xs

  pub All-append : (xs ys : List A) → All xs → All ys → All (xs ++ ys)
  All-append [] ys h k = k
  All-append (x ∷ xs) ys (p, h) k = (p, All-append xs ys h k)

  pub All-filter : (p : A → Bool) (xs : List A) → All xs → All (filter p xs)
  All-filter p [] h = tt
  All-filter p (x ∷ xs) (q, h) = ground (arith, All-filter p xs h)

  pub All-drop : (n : ℕ) (xs : List A) → All xs → All (drop n xs)
  All-drop zero xs h = h
  All-drop (suc n) [] h = tt
  All-drop (suc n) (x ∷ xs) (q, h) = All-drop n xs h

  pub All-find : (p : A → Bool) (xs : List A) (a : A) → All xs → find p xs ≡ some a → P a
  All-find p [] a h e = ground arith
  All-find p (x ∷ xs) a (q, h) e = ground (arith, All-find p xs a h)

  All-reverse_aux : (xs ys : List A) → All xs → All ys → All (reverse_aux xs ys)
  All-reverse_aux [] ys h k = k
  All-reverse_aux (x ∷ xs) ys (p, h) k = All-reverse_aux xs (x ∷ ys) h (p, k)

  pub All-reverse : (xs : List A) → All xs → All (reverse xs)
  All-reverse xs h = All-reverse_aux xs [] h tt

  pub All-take : (n : ℕ) (xs : List A) → All xs → All (take n xs)
  All-take zero xs h = tt
  All-take (suc n) [] h = tt
  All-take (suc n) (x ∷ xs) (q, h) = (q, All-take n xs h)

module _ {ℓ κ ν} {A : Type ℓ} {P : A → Type κ} {Q : A → Type ν} where
  pub All-mono : ((a : A) → P a → Q a) → (xs : List A) → All P xs → All Q xs
  All-mono f [] h = tt
  All-mono f (x ∷ xs) (p, h) = (f x p, All-mono f xs h)

module _ {ℓ κ ν} {A : Type ℓ} (P : A → Type κ) (Q : A → Type ν) where
  pub All-both : (xs : List A) → All P xs → All Q xs → All (λ x. P x × Q x) xs
  All-both [] h k = tt
  All-both (x ∷ xs) (p, h) (q, k) = ((p, q), All-both xs h k)

module _ {ℓ κ} {A : Type ℓ} {B : Type κ} where
  pub length-map : (f : A → B) (xs : List A) → length (map f xs) ≡ length xs
  length-map f [] = refl
  length-map f (x ∷ xs) = ap suc (length-map f xs)

module _ {A : Type 0} where
  -- The element is one of the list.
  abbrev pub IsAmong : A → List A → Type 0
  IsAmong a [] = ⊥
  IsAmong a (x ∷ xs) = (x ≡ a) ⊎ IsAmong a xs

  pub IsAmong-append :
      (a : A) (xs ys : List A) → IsAmong a (xs ++ ys) ↔ (IsAmong a xs ⊎ IsAmong a ys)
  IsAmong-append a [] ys = (λ h. inr h, λ h. elim h [ inl n ↦ absurd n | inr k ↦ k ])
  IsAmong-append a (x ∷ xs) ys =
      let ih = IsAmong-append a xs ys in
      (
        λ h. elim h [
          | inl e ↦ inl (inl e)
          | inr k ↦ elim (ih.0 k) [ inl m ↦ inl (inr m) | inr m ↦ inr m ]
        ],
        λ h. elim h [
          | inl m ↦ elim m [ inl e ↦ inl e | inr k ↦ inr (ih.1 (inl k)) ]
          | inr k ↦ inr (ih.1 (inr k))
        ],
      )

  pub all-IsAmong :
      (p : A → Bool) (xs : List A) → (all p xs ≡ true) ↔ ((a : A) → IsAmong a xs → p a ≡ true)
  all-IsAmong p [] = (λ h a k. absurd k, λ h. refl)
  all-IsAmong p (x ∷ xs) =
      let ih = all-IsAmong p xs in
      (
        λ h a k. elim k [
          | inl e ↦ subst (λ y. p y ≡ true) e (&&-eq-true (p x) (all p xs) h).0
          | inr m ↦ ih.0 (&&-eq-true (p x) (all p xs) h).1 a m
        ],
        λ h. rw (h x (inl refl), ih.1 (λ a k. h a (inr k))) refl,
      )
