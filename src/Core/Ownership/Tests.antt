-- ===== src/Core/Ownership/Tests.antt =====
-- Concrete write sets.
use pi_persona.Base.{
  ◌≡◌, refl, ◌↔◌, false, none, some, List, [], ◌∷◌, Text, codes, text_eq, trim, drop_spaces,
  is_space, starts_with, All, AllPairs,
}
use pi_persona.Core.Ownership.{
  PathModule, WriteSetOwner, normalize_write_path, paths_overlap, find_write_set_overlaps,
  validate_parallel_write_sets, overlaps_from, overlaps_behind, overlaps_of, collisions, collide,
  is_ancestor, is_windows, has_drive, forward_slashes, drop_last_slash,
}
use pi_persona.Core.Ownership.Meaning.{LieInside, AreApart, validate_parallel_write_sets-none_iff}

-- A host whose paths are all in normal form.
abbrev host : PathModule
host = record {
  posix_normalize = λ s. s;
  win32_normalize = λ s. s;
  posix_is_absolute = λ s. starts_with (codes "/") s;
  win32_is_absolute = λ s. false;
  to_lower = λ s. s;
}

abbrev owner : Text → WriteSetOwner
owner path = record { agent = none; write_set = some (path ∷ []) }

abbrev tasks : List WriteSetOwner
tasks = owner (codes "src/a") ∷ owner (codes "src/b/") ∷ []

validate_parallel_write_sets-none_iff_example :
    (validate_parallel_write_sets host tasks ≡ none)
    ↔ (All (LieInside host) tasks × AllPairs (AreApart host) tasks)
validate_parallel_write_sets-none_iff_example = validate_parallel_write_sets-none_iff host tasks

nested :
    find_write_set_overlaps host (owner (codes "src/a") ∷ owner (codes "src/") ∷ [])
    ≡ record {
      first_index = 0;
      second_index = 1;
      first_path = codes "src/a";
      second_path = codes "src/";
    }
      ∷ []
unfolding find_write_set_overlaps overlaps_from overlaps_behind overlaps_of collisions collide
    paths_overlap is_ancestor normalize_write_path is_windows has_drive forward_slashes
    drop_last_slash text_eq trim drop_spaces is_space starts_with
nested = refl
