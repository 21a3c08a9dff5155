-- ===== src/Core/Fence/Quoting.antt =====
-- The lines of a fenced text: a header, and then nothing but quoted lines.
use pi_persona.Base.{◌≡◌, refl, ap, ◌∙◌, ◌≢◌, List, [], ◌∷◌, ◌++◌, map, arith, Text, All}
use pi_persona.Core.Fence.{
  split_lines_from, split_lines, join_lines, quote_line, quote_untrusted, strip_terminal_controls,
  untrusted_header, peer_header, fence_untrusted, fence_peer,
}

-- No line break stands in the text.
abbrev pub IsOneLine : Text → Type 0
IsOneLine s = All (λ c. c ≢ 0x0a) s

split_lines_from-IsOneLine :
    (s : Text) → IsOneLine (split_lines_from s).0 × All IsOneLine (split_lines_from s).1
unfolding split_lines_from
split_lines_from-IsOneLine [] = (tt, tt)
split_lines_from-IsOneLine (c ∷ s) = ground (arith, split_lines_from-IsOneLine s)

-- The parts that `split` gives hold no line break.
split_lines-IsOneLine : (s : Text) → All IsOneLine (split_lines s)
unfolding split_lines
split_lines-IsOneLine s = split_lines_from-IsOneLine s

split_lines_from-append :
    (line s : Text) → IsOneLine line → split_lines_from (line ++ (0x0a ∷ s)) ≡ (line, split_lines s)
unfolding split_lines_from split_lines
split_lines_from-append [] s h = refl
split_lines_from-append (c ∷ line) s h = ground (arith, split_lines_from-append line s h.1)

split_lines_from_of_IsOneLine : (line : Text) → IsOneLine line → split_lines_from line ≡ (line, [])
unfolding split_lines_from
split_lines_from_of_IsOneLine [] h = refl
split_lines_from_of_IsOneLine (c ∷ line) h = ground (arith, split_lines_from_of_IsOneLine line h.1)

-- A break after a line without breaks ends that line.
pub split_lines-append :
    (line s : Text) → IsOneLine line → split_lines (line ++ (0x0a ∷ s)) ≡ line ∷ split_lines s
unfolding split_lines
split_lines-append line s h = rw (split_lines_from-append line s h)

-- `split` undoes `join` on lines without breaks.
split_lines-join_lines :
    (line : Text) (rest : List Text)
    → All IsOneLine (line ∷ rest)
    → split_lines (join_lines (line ∷ rest)) ≡ line ∷ rest
unfolding join_lines
split_lines-join_lines line [] (h, _) =
    unfold split_lines in rw (split_lines_from_of_IsOneLine line h)
split_lines-join_lines line (next ∷ rest) (h, k) =
    split_lines-append line _ h ∙ ap (◌∷◌ line) (split_lines-join_lines next rest k)

quote-IsOneLine : (lines : List Text) → All IsOneLine lines → All IsOneLine (map quote_line lines)
quote-IsOneLine [] h = tt
quote-IsOneLine (line ∷ lines) (h, k) = ((omega arith, (omega arith, h)), quote-IsOneLine lines k)

-- The lines of a quotation are those of the stripped text, each behind a mark.
pub split_lines-quote_untrusted :
    (s : Text)
    → split_lines (quote_untrusted s) ≡ map quote_line (split_lines (strip_terminal_controls s))
unfolding quote_untrusted
split_lines-quote_untrusted s =
    unfold split_lines in
    split_lines-join_lines _ _ (
      quote-IsOneLine (split_lines (strip_terminal_controls s))
        (split_lines-IsOneLine (strip_terminal_controls s)))

-- A fenced text is its header and then only quoted lines: no text can close its fence.
pub split_lines-fence_untrusted :
    (s : Text)
    → split_lines (fence_untrusted s)
      ≡ untrusted_header ∷ map quote_line (split_lines (strip_terminal_controls s))
unfolding fence_untrusted
split_lines-fence_untrusted s =
    split_lines-append untrusted_header (quote_untrusted s) (omega arith)
    ∙ ap (◌∷◌ untrusted_header) (split_lines-quote_untrusted s)

pub split_lines-fence_peer :
    (s : Text)
    → split_lines (fence_peer s)
      ≡ peer_header ∷ map quote_line (split_lines (strip_terminal_controls s))
unfolding fence_peer
split_lines-fence_peer s =
    split_lines-append peer_header (quote_untrusted s) (omega arith)
    ∙ ap (◌∷◌ peer_header) (split_lines-quote_untrusted s)
