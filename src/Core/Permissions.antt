-- ===== src/Core/Permissions.antt =====
-- core/permissions.ts: allow and deny lists of glob patterns, with the cache of compiled patterns.
-- A compiled pattern is the list of its regular expression's parts; `test` matches the whole name.
pub mod Documented
pub mod Globs
pub mod Resolution
mod Tests
use pi_persona.Base.{
  ℕ, suc, Bool, true, false, not, ◌&&◌, ◌||◌, Option, none, some, List, [], ◌∷◌, ◌++◌, map, ◌==◌,
  leb, if◌then◌else◌, Text, text_eq, length,
}

pub record Permission : Type 0 where
  pub allow : Option (List Text)
  pub deny : Option (List Text)

-- The parts of a pattern's regular expression: `.*`, `.`, or a code unit for itself.
pub data Part : Type 0 where
  any_run any_one : Part
  unit : ℕ → Part

abbrev pub RegExp : Type 0
RegExp = List Part

pub part_of : ℕ → Part
part_of c = if c == b'*' then any_run else if c == b'?' then any_one else unit c

-- The body of `globToRegExp`: one part for each code unit.
pub compile : Text → RegExp
unfolding part_of
compile [] = []
compile (c ∷ pattern) = part_of c ∷ compile pattern

-- `.` matches no line terminator.
pub is_line_end : ℕ → Bool
is_line_end c = c == 0x0a || c == 0x0d || c == 0x2028 || c == 0x2029

-- `re.test(name)` for an expression that is anchored at both ends.
pub test : RegExp → Text → Bool
test [] [] = true
test [] (c ∷ s) = false
test (any_run ∷ r) [] = test r []
test (any_run ∷ r) (c ∷ s) =
    let longer = test (any_run ∷ r) s in test r (c ∷ s) || (not (is_line_end c) && longer)
test (any_one ∷ r) [] = false
test (any_one ∷ r) (c ∷ s) = not (is_line_end c) && test r s
test (unit a ∷ r) [] = false
test (unit a ∷ r) (c ∷ s) = a == c && test r s

-- `globCache`, in insertion order.
abbrev pub Cache : Type 0
Cache = List (Text × RegExp)

abbrev pub glob_cache_max : ℕ
glob_cache_max = 256

cached : Cache → Text → Option RegExp
cached [] pattern = none
cached ((k, re) ∷ cache) pattern = if text_eq k pattern then some re else cached cache pattern

store : Cache → Text → RegExp → Cache
store cache pattern re =
    if leb glob_cache_max (length cache) then (pattern, re) ∷ [] else cache ++ ((pattern, re) ∷ [])

glob_to_reg_exp : Cache → Text → RegExp × Cache
unfolding cached store
glob_to_reg_exp cache pattern = elim (cached cache pattern) [
  | some re ↦ (re, cache)
  | none ↦ (compile pattern, store cache pattern (compile pattern))
]

-- `patterns.some(…)`, which stops at the first match.
matches_any : Cache → Text → List Text → Bool × Cache
matches_any cache name [] = (false, cache)
matches_any cache name (p ∷ patterns) =
    let (re, cache') = glob_to_reg_exp cache p in
    let rest = matches_any cache' name patterns in if test re name then (true, cache') else rest

-- The rule after the deny list has let the name pass.
check_allow : Cache → Text → Option (List Text) → Bool → Bool × Cache
check_allow cache name (some allow) otherwise = matches_any cache name allow
check_allow cache name none otherwise = (otherwise, cache)

resolve : Cache → Text → Option (List Text) → Option (List Text) → Bool → Bool × Cache
resolve cache name allow none default_allow = check_allow cache name allow default_allow
resolve cache name allow (some deny) default_allow =
    let (denied, cache') = matches_any cache name deny in
    if denied then (false, cache') else check_allow cache' name allow true

unfoldable pub is_allowed : Cache → Text → Option Permission → Bool → Bool × Cache
unfolding resolve check_allow matches_any glob_to_reg_exp test compile is_line_end
is_allowed cache name none default_allow = resolve cache name none none default_allow
is_allowed cache name (some perm) default_allow =
    resolve cache name perm.allow perm.deny default_allow
