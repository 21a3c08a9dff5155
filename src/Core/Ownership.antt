-- ===== src/Core/Ownership.antt =====
-- core/ownership.ts: write sets, the paths that a task or a claim owns, and their overlaps. The path
-- module of the host and `toLowerCase` are parameters, gathered in one record.
pub mod Forms
pub mod Inside
pub mod Meaning
pub mod Relations
pub mod Overlaps
pub mod Windows
mod Tests
use pi_persona.Base.{
  ℕ, zero, suc, ◌+◌, ◌≡◌, Bool, true, false, not, ◌&&◌, ◌||◌, Option, none, some, List, [], ◌∷◌,
  ◌++◌, map, reverse, ◌==◌, ltb, if◌then◌else◌, between, or_else, any, length, Text, codes, text_eq,
  starts_with, trim, is_empty,
}

-- `posix` and `win32` of `node:path`, as far as they are called.
pub record PathModule : Type 0 where
  pub posix_normalize : Text → Text
  pub win32_normalize : Text → Text
  pub posix_is_absolute : Text → Bool
  pub win32_is_absolute : Text → Bool
  pub to_lower : Text → Text

pub record WriteSetOwner : Type 0 where
  pub agent : Option Text
  pub write_set : Option (List Text)

pub record NormalizedWritePath : Type 0 where
  pub value : Text
  pub windows : Bool

-- `replaceAll("\\", "/")`
pub forward_slashes : Text → Text
forward_slashes s = map (λ c. if c == 0x5c then 0x2f else c) s

-- `/^[A-Za-z]:[\\/]/`
pub has_drive : Text → Bool
has_drive (letter ∷ colon ∷ slash ∷ s) =
    (between b'A' b'Z' letter || between b'a' b'z' letter)
    && colon == b':'
    && (slash == 0x5c || slash == 0x2f)
has_drive _ = false

-- Without a slash at the end, unless nothing else is there.
pub drop_last_slash : Text → Text
drop_last_slash [] = []
drop_last_slash (c ∷ []) = if c == 0x2f then [] else c ∷ []
drop_last_slash (c ∷ d ∷ s) = c ∷ drop_last_slash (d ∷ s)

pub is_windows : Text → Bool
unfolding has_drive
is_windows s = any (λ c. c == 0x5c) s || has_drive s || starts_with (0x5c ∷ 0x5c ∷ []) s

-- `!path.trim()`
abbrev pub is_blank : Text → Bool
is_blank path = is_empty (trim path)

-- One is the other, or an ancestor of it.
abbrev pub slash : Text
slash = 0x2f ∷ []

pub is_ancestor : Text → Text → Bool
is_ancestor parent child =
    if text_eq parent slash
    then starts_with slash child
    else if text_eq parent (codes ".")
    then not (starts_with slash child)
    else starts_with (parent ++ slash) child

pub record WriteSetOverlap : Type 0 where
  pub first_index : ℕ
  pub second_index : ℕ
  pub first_path : Text
  pub second_path : Text

pub data PathError : Type 0 where
  empty outside : PathError

module _ (host : PathModule) where
  pub normalize_write_path : Text → NormalizedWritePath
  unfolding is_windows forward_slashes drop_last_slash
  normalize_write_path raw =
      let trimmed = trim raw in
      let windows = is_windows trimmed in
      let normalized =
        forward_slashes
          (if windows then host.win32_normalize trimmed else host.posix_normalize trimmed) in
      let value = if ltb 1 (length normalized) then drop_last_slash normalized else normalized in
      record { value = if windows then host.to_lower value else value; windows = windows }

  pub paths_overlap : NormalizedWritePath → NormalizedWritePath → Bool
  unfolding is_ancestor
  paths_overlap a b =
      let left = if a.windows || b.windows then host.to_lower a.value else a.value in
      let right = if a.windows || b.windows then host.to_lower b.value else b.value in
      text_eq left right || is_ancestor left right || is_ancestor right left

  -- The test of the innermost loop.
  pub collide : Text → Text → Bool
  collide p q =
      not (is_blank p)
      && not (is_blank q)
      && paths_overlap (normalize_write_path p) (normalize_write_path q)

  -- The two inner loops, over the paths of two owners.
  collisions : ℕ → ℕ → Text → List Text → List WriteSetOverlap
  collisions i j p [] = []
  collisions i j p (q ∷ qs) =
      let rest = collisions i j p qs in
      if collide p q
      then record { first_index = i; second_index = j; first_path = p; second_path = q } ∷ rest
      else rest

  overlaps_of : ℕ → ℕ → List Text → List Text → List WriteSetOverlap
  unfolding collisions
  overlaps_of i j [] qs = []
  overlaps_of i j (p ∷ ps) qs = collisions i j p qs ++ overlaps_of i j ps qs

  -- The loop over the owners behind the one at `i`.
  overlaps_behind : ℕ → ℕ → WriteSetOwner → List WriteSetOwner → List WriteSetOverlap
  unfolding overlaps_of
  overlaps_behind i j first [] = []
  overlaps_behind i j first (second ∷ tasks) =
      overlaps_of i j (or_else first.write_set []) (or_else second.write_set [])
      ++ overlaps_behind i (suc j) first tasks

  overlaps_from : ℕ → List WriteSetOwner → List WriteSetOverlap
  unfolding overlaps_behind
  overlaps_from i [] = []
  overlaps_from i (first ∷ tasks) =
      overlaps_behind i (suc i) first tasks ++ overlaps_from (suc i) tasks

  unfoldable pub find_write_set_overlaps : List WriteSetOwner → List WriteSetOverlap
  unfolding overlaps_from
  find_write_set_overlaps tasks = overlaps_from 0 tasks

  -- Nothing for a path within the repository, or the reason why it is none.
  unfoldable pub write_set_path_error : Text → Option PathError
  unfolding forward_slashes
  write_set_path_error path =
      let raw = trim path in
      let slashed = forward_slashes raw in
      let normalized = host.posix_normalize slashed in
      if is_blank path
      then some empty
      else if host.posix_is_absolute slashed
          || host.win32_is_absolute raw
          || text_eq normalized (codes "..")
          || starts_with (codes "../") normalized
      then some outside
      else none

  -- What the message of `validateParallelWriteSets` says.
  pub data ParallelError : Type 0 where
    bad_path : ℕ → Text → PathError → ParallelError
    overlap : WriteSetOverlap → ParallelError

  first_path_error : ℕ → List Text → Option ParallelError
  first_path_error i [] = none
  first_path_error i (p ∷ ps) = elim (write_set_path_error p) [
    | some e ↦ some (bad_path i p e)
    | none ↦ first_path_error i ps
  ]

  first_error : ℕ → List WriteSetOwner → Option ParallelError
  unfolding first_path_error
  first_error i [] = none
  first_error i (t ∷ tasks) = elim (first_path_error i (or_else t.write_set [])) [
    | some e ↦ some e
    | none ↦ first_error (suc i) tasks
  ]

  first_overlap : List WriteSetOverlap → Option ParallelError
  first_overlap [] = none
  first_overlap (o ∷ os) = some (overlap o)

  pub validate_parallel_write_sets : List WriteSetOwner → Option ParallelError
  unfolding first_error first_overlap
  validate_parallel_write_sets tasks = elim (first_error 0 tasks) [
    | some e ↦ some e
    | none ↦ first_overlap (find_write_set_overlaps tasks)
  ]
