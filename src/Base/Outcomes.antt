-- ===== src/Base/Outcomes.antt =====
-- The value of an operation that may refuse, and the size of a text in UTF-8.
use Prim.Native.Nat.{ℕ, ◌+◌}
use mathlib.Core.Bool.{◌&&◌}
use mathlib.Core.List.{[], ◌∷◌}
use pi_persona.Base.Tests.{ltb, if◌then◌else◌}
use pi_persona.Base.Texts.{Text, between}

module _ {ℓ κ} where
  pub data Outcome (E : Type ℓ) (A : Type κ) : Type (ℓ ⊔ κ) where
    error : E → Outcome E A
    ok : A → Outcome E A

unit_bytes : ℕ → ℕ
unit_bytes c = if ltb c 0x80 then 1 else if ltb c 0x800 then 2 else 3

-- `Buffer.byteLength(text, "utf8")`: a surrogate pair takes four bytes, a lone surrogate three.
unfoldable pub byte_length : Text → ℕ
unfolding unit_bytes
byte_length [] = 0
byte_length (c ∷ []) = unit_bytes c
byte_length (c ∷ d ∷ s) =
    let behind_pair = byte_length s in
    let behind_unit = byte_length (d ∷ s) in
    if between 0xd800 0xdbff c && between 0xdc00 0xdfff d
    then 4 + behind_pair
    else unit_bytes c + behind_unit
