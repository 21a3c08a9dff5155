-- ===== src/Base/Maps.antt =====
-- A JavaScript `Map` with text keys, in insertion order: a new key goes to the end, a known key keeps
-- its place.
use Prim.Native.Nat.{suc}
use mathlib.Core.Path.{◌≡◌, refl}
use mathlib.Core.Bool.{Bool, true}
use mathlib.Core.List.{List, [], ◌∷◌}
use mathlib.Core.Option.{Option, none, some}
use native.Mathlib.Omega.{arith}
use pi_persona.Base.Tests.{if◌then◌else◌, is_some}
use pi_persona.Base.Lists.{length, filter}
use pi_persona.Base.Texts.{Text, text_eq, text_eq_iff}

module _ {ℓ} where
  abbrev pub TextMap : Type ℓ → Type ℓ
  TextMap V = List (Text × V)

module _ {ℓ} {V : Type ℓ} where
  -- `m.get(k)`
  unfoldable pub lookup : Text → TextMap V → Option V
  lookup k [] = none
  lookup k ((j, v) ∷ m) = if text_eq j k then some v else lookup k m

  -- `m.set(k, v)`
  unfoldable pub insert : Text → V → TextMap V → TextMap V
  insert k v [] = (k, v) ∷ []
  insert k v ((j, w) ∷ m) = if text_eq j k then (j, v) ∷ m else (j, w) ∷ insert k v m

  -- `m.delete(k)`
  unfoldable pub delete : Text → TextMap V → TextMap V
  delete k [] = []
  delete k ((j, v) ∷ m) = if text_eq j k then m else (j, v) ∷ delete k m

  pub lookup-insert :
      (k j : Text) (v : V) (m : TextMap V)
      → lookup j (insert k v m) ≡ (if text_eq k j then some v else lookup j m)
  unfolding lookup insert
  lookup-insert k j v [] = refl
  lookup-insert k j v ((i, w) ∷ m) =
      ground (arith, text_eq_iff k j, text_eq_iff i k, text_eq_iff i j, lookup-insert k j v m)

  -- No key stands twice.
  abbrev pub HasDistinctKeys : TextMap V → Type ℓ
  HasDistinctKeys [] = Unit
  HasDistinctKeys ((k, v) ∷ m) = (lookup k m ≡ none) × HasDistinctKeys m

  pub insert-HasDistinctKeys :
      (k : Text) (v : V) (m : TextMap V) → HasDistinctKeys m → HasDistinctKeys (insert k v m)
  unfolding lookup insert
  insert-HasDistinctKeys k v [] h = (refl, tt)
  insert-HasDistinctKeys k v ((j, w) ∷ m) (h, hs) = ground (
    arith,
    insert-HasDistinctKeys k v m hs,
    lookup-insert k j v m,
    text_eq_iff k j,
    text_eq_iff j k,
  )

  pub lookup-delete :
      (k j : Text) (m : TextMap V)
      → HasDistinctKeys m
      → lookup j (delete k m) ≡ (if text_eq k j then none else lookup j m)
  unfolding lookup delete
  lookup-delete k j [] h = ground arith
  lookup-delete k j ((i, w) ∷ m) (h, hs) =
      ground (arith, lookup-delete k j m hs, text_eq_iff k j, text_eq_iff i k, text_eq_iff i j)

  pub delete-HasDistinctKeys :
      (k : Text) (m : TextMap V) → HasDistinctKeys m → HasDistinctKeys (delete k m)
  unfolding lookup delete
  delete-HasDistinctKeys k [] h = tt
  delete-HasDistinctKeys k ((j, w) ∷ m) (h, hs) =
      ground (arith, delete-HasDistinctKeys k m hs, lookup-delete k j m hs, text_eq_iff k j)

  pub length-insert :
      (k : Text) (v : V) (m : TextMap V)
      → length (insert k v m) ≡ (if is_some (lookup k m) then length m else suc (length m))
  unfolding lookup insert
  length-insert k v [] = refl
  length-insert k v ((j, w) ∷ m) = ground (arith, length-insert k v m)

  pub length-delete :
      (k : Text) (m : TextMap V)
      → (if is_some (lookup k m) then suc (length (delete k m)) else length (delete k m)) ≡ length m
  unfolding lookup delete
  length-delete k [] = refl
  length-delete k ((j, w) ∷ m) = ground (arith, length-delete k m)

  pub lookup-filter :
      (p : Text × V → Bool) (k : Text) (v : V) (m : TextMap V)
      → HasDistinctKeys m
      → lookup k m ≡ some v
      → ((j : Text) → p (j, v) ≡ true)
      → lookup k (filter p m) ≡ some v
  unfolding lookup
  lookup-filter p k v [] h e q = e
  lookup-filter p k v ((j, w) ∷ m) (h, hs) e q = ground (arith, lookup-filter p k v m hs, q j)

  pub lookup-none-filter :
      (p : Text × V → Bool) (k : Text) (m : TextMap V)
      → lookup k m ≡ none
      → lookup k (filter p m) ≡ none
  unfolding lookup
  lookup-none-filter p k [] e = e
  lookup-none-filter p k ((j, w) ∷ m) e = ground (arith, lookup-none-filter p k m)

  pub filter-HasDistinctKeys :
      (p : Text × V → Bool) (m : TextMap V) → HasDistinctKeys m → HasDistinctKeys (filter p m)
  filter-HasDistinctKeys p [] h = tt
  filter-HasDistinctKeys p ((j, w) ∷ m) (h, hs) =
      ground (arith, filter-HasDistinctKeys p m hs, lookup-none-filter p j m)
