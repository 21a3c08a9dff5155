-- ===== src/Base/Pairs.antt =====
-- Relations that hold between all earlier and later elements of a list.
use mathlib.Core.Bool.{Bool}
use mathlib.Core.List.{List, [], ◌∷◌, ◌++◌}
use pi_persona.Base.Tests.{Bool-cases}
use mathlib.Core.Logic.{inl, inr}
use pi_persona.Base.Lists.{filter, All, All-mono, All-filter, All-append}

module _ {ℓ κ} {A : Type ℓ} (R : A → A → Type κ) where
  abbrev pub AllPairs : List A → Type κ
  AllPairs [] = Unit
  AllPairs (x ∷ xs) = All (R x) xs × AllPairs xs

  pub AllPairs-filter : (p : A → Bool) (xs : List A) → AllPairs xs → AllPairs (filter p xs)
  AllPairs-filter p [] h = tt
  AllPairs-filter p (x ∷ xs) (h, k) = elim (Bool-cases (p x)) [
    | inl e ↦ rw e (All-filter (R x) p xs h, AllPairs-filter p xs k)
    | inr e ↦ rw e (AllPairs-filter p xs k)
  ]

  pub AllPairs-append :
      (xs : List A) (a : A) → AllPairs xs → All (λ x. R x a) xs → AllPairs (xs ++ (a ∷ []))
  AllPairs-append [] a h k = (tt, tt)
  AllPairs-append (x ∷ xs) a (h, hs) (k, ks) =
      (All-append (R x) xs (a ∷ []) h (k, tt), AllPairs-append xs a hs ks)

module _ {ℓ κ} {A : Type ℓ} {R S : A → A → Type κ} where
  pub AllPairs-mono : ((a b : A) → R a b → S a b) → (xs : List A) → AllPairs R xs → AllPairs S xs
  AllPairs-mono f [] h = tt
  AllPairs-mono f (x ∷ xs) (h, hs) = (All-mono (λ y. f x y) xs h, AllPairs-mono f xs hs)
