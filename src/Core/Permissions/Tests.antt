-- ===== src/Core/Permissions/Tests.antt =====
-- Concrete patterns, names and blocks.
use pi_persona.Base.{
  All, any, Text, none, ◌≡◌, refl, ◌↔◌, true, false, some, [], ◌∷◌, arith, codes, text_eq,
}
use pi_persona.Core.Permissions.{
  Permission, Cache, compile, part_of, test, is_line_end, is_allowed, resolve, check_allow,
  matches_any, glob_to_reg_exp, cached, store,
}
use pi_persona.Core.Permissions.Globs.{IsInLine}
use pi_persona.Core.Permissions.Resolution.{IsSound}
use pi_persona.Core.Permissions.Documented.{IsGranted, is_allowed-IsGranted, is_allowed-line_end}

-- Everything that starts with `mcp_`, but nothing that ends in `_x` and one more unit.
abbrev block : Permission
block = record { allow = some (codes "mcp_*" ∷ []); deny = some (codes "*_x?" ∷ []) }

abbrev warm : Cache
unfolding compile part_of
warm = (codes "mcp_*", compile (codes "mcp_*")) ∷ []

warm-IsSound : IsSound warm
unfolding warm
warm-IsSound = record { genuine = (refl, tt); bounded = omega arith }

mcp_ls-IsInLine : All IsInLine (codes "mcp_ls")
mcp_ls-IsInLine = ground arith

is_allowed-IsGranted_example :
    ((is_allowed warm (codes "mcp_ls") (some block) false).0 ≡ true
      ↔ IsGranted (codes "mcp_ls") (some block) false)
    × IsSound (is_allowed warm (codes "mcp_ls") (some block) false).1
is_allowed-IsGranted_example =
    is_allowed-IsGranted (codes "mcp_ls") mcp_ls-IsInLine warm (some block) false warm-IsSound

-- A name of two lines.
abbrev split_name : Text
split_name = 0x61 ∷ 0x0a ∷ 0x62 ∷ []

split_name-line_end : any is_line_end split_name ≡ true
unfolding is_line_end
split_name-line_end = refl

is_allowed-line_end_example :
    ((is_allowed warm split_name
        (some (record { allow = some (codes "*" ∷ []); deny = none }))
        true).0
      ≡ false)
    × ((is_allowed warm split_name
          (some (record { allow = none; deny = some (codes "*" ∷ []) }))
          true).0
        ≡ true)
is_allowed-line_end_example =
    is_allowed-line_end warm split_name true warm-IsSound split_name-line_end

allowed : (is_allowed warm (codes "mcp_ls") (some block) false).0 ≡ true
unfolding is_allowed warm resolve check_allow matches_any glob_to_reg_exp cached store compile
    part_of test is_line_end text_eq
allowed = refl

denied : (is_allowed warm (codes "mcp_xy") (some block) true).0 ≡ false
unfolding is_allowed warm resolve check_allow matches_any glob_to_reg_exp cached store compile
    part_of test is_line_end text_eq
denied = refl
