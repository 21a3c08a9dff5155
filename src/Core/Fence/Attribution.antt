-- ===== src/Core/Fence/Attribution.antt =====
-- A sender's label outside the fence: a short text over a closed alphabet, whatever the sender
-- calls itself.
use mathlib.Core.List.{append_assoc}
use pi_persona.Base.{
  replace_runs, ℕ, ◌≤◌, ◌<◌, ◌≢◌, All-mono, All-take, All-trim, if◌then◌else◌, ◌∙◌, ◌≡◌, refl, Bool,
  true, false, [], ◌∷◌, ◌++◌, map, arith, Text, codes, All, All-append, length, take, length-take,
  is_space, trim, is_empty, ap,
}
use pi_persona.Core.Fence.{
  is_break, untrusted_header, peer_header, quote_line, strip_terminal_controls, is_label_char, mask,
  safe_attribution, attribute_inbound, attribute_peer, split_lines, fence_untrusted, fence_peer,
}
use pi_persona.Core.Fence.Quoting.{
  IsOneLine, split_lines-append, split_lines-fence_untrusted, split_lines-fence_peer,
}

abbrev IsLabel : Text → Type 0
IsLabel s = All (λ c. is_label_char c ≡ true) s

map-mask-IsLabel : (s : Text) → IsLabel (map mask s)
unfolding is_label_char
map-mask-IsLabel [] = tt
map-mask-IsLabel (c ∷ s) = (ground arith, map-mask-IsLabel s)

replace_runs-IsLabel :
    (p : ℕ → Bool) (inside : Bool) (s : Text) → IsLabel s → IsLabel (replace_runs p b' ' inside s)
unfolding replace_runs
replace_runs-IsLabel p inside [] h = tt
replace_runs-IsLabel p inside (c ∷ s) (k, h) =
    ground (arith, replace_runs-IsLabel p (p c) s h, space_lem)
  where
    space_lem : is_label_char b' ' ≡ true
    space_lem = unfold is_label_char in refl

-- A unit of a label cannot break the line or close the bracket that the label stands in.
abbrev pub IsInert : ℕ → Type 0
IsInert c = (32 ≤ c) × (c ≤ 122) × (c ≢ b'[') × (c ≢ b']')

is_label_char-IsInert : (c : ℕ) → is_label_char c ≡ true → IsInert c
unfolding is_label_char
is_label_char-IsInert c h = (ground arith, ground arith, ground arith, ground arith)

abbrev pub IsSafeLabel : Text → Type 0
IsSafeLabel s = (0 < length s) × (length s ≤ 96) × All IsInert s

or_unknown-IsSafeLabel :
    (s : Text) → IsLabel s → length s ≤ 96 → IsSafeLabel (if is_empty s then codes "unknown" else s)
or_unknown-IsSafeLabel [] h k = omega arith
or_unknown-IsSafeLabel (c ∷ s) h k = (omega arith, k, All-mono is_label_char-IsInert (c ∷ s) h)

-- Whatever a sender calls itself, its label has 1 to 96 units, all printable ASCII and none a
-- square bracket.
pub safe_attribution-IsSafeLabel : (sender : Text) → IsSafeLabel (safe_attribution sender)
unfolding safe_attribution
safe_attribution-IsSafeLabel sender =
    let masked = map mask (replace_runs is_break b' ' false sender) in
    let trimmed = trim (replace_runs is_space b' ' false masked) in
    or_unknown-IsSafeLabel (take 96 trimmed)
      (All-take _ 96 trimmed
        (All-trim _ _ (replace_runs-IsLabel is_space false masked (map-mask-IsLabel _))))
      (omega (arith, length-take 96 trimmed))

IsInert-IsOneLine : (s : Text) → All IsInert s → IsOneLine s
IsInert-IsOneLine = All-mono (λ c h. omega arith)

append-IsOneLine : (s t : Text) → IsOneLine s → IsOneLine t → IsOneLine (s ++ t)
append-IsOneLine = All-append _

abbrev bracketed : Text → Text → Text
bracketed title sender = title ++ (safe_attribution sender ++ codes "]")

regroup :
    (t l s : Text) → t ++ (l ++ (codes "]" ++ (0x0a ∷ s))) ≡ (t ++ (l ++ codes "]")) ++ (0x0a ∷ s)
regroup t l s = simp append_assoc

split_lines-attribute :
    (title sender s : Text)
    → IsOneLine title
    → split_lines (title ++ (safe_attribution sender ++ (codes "]" ++ (0x0a ∷ s))))
      ≡ bracketed title sender ∷ split_lines s
split_lines-attribute title sender s h =
    let head : IsOneLine (bracketed title sender) = append-IsOneLine title _ h (
      append-IsOneLine (safe_attribution sender) _
        (IsInert-IsOneLine _ (safe_attribution-IsSafeLabel sender).2) (omega arith)) in
    ap split_lines (regroup title (safe_attribution sender) s)
    ∙ split_lines-append (bracketed title sender) s head

-- The first line of a delivered message names the sender, the second is the header of the fence, and
-- all others are quoted: neither the label nor the text of a message can forge a line.
pub split_lines-attribute_inbound :
    (sender s : Text)
    → split_lines (attribute_inbound sender s)
      ≡ (codes "[message from " ++ (safe_attribution sender ++ codes "]"))
        ∷ untrusted_header
        ∷ map quote_line (split_lines (strip_terminal_controls s))
unfolding attribute_inbound
split_lines-attribute_inbound sender s =
    split_lines-attribute (codes "[message from ") sender (fence_untrusted s) (omega arith)
    ∙ ap (◌∷◌ (bracketed (codes "[message from ") sender)) (split_lines-fence_untrusted s)

-- The first line of a message from an exocom peer names the peer, the second is the header of the fence,
-- and all others are quoted: neither the label nor the text can start a line of its own.
pub split_lines-attribute_peer :
    (sender s : Text)
    → split_lines (attribute_peer sender s)
      ≡ (codes "[exocom message from " ++ (safe_attribution sender ++ codes "]"))
        ∷ peer_header
        ∷ map quote_line (split_lines (strip_terminal_controls s))
unfolding attribute_peer
split_lines-attribute_peer sender s =
    split_lines-attribute (codes "[exocom message from ") sender (fence_peer s) (omega arith)
    ∙ ap (◌∷◌ (bracketed (codes "[exocom message from ") sender)) (split_lines-fence_peer s)
