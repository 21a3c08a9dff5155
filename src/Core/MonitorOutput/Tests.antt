-- ===== src/Core/MonitorOutput/Tests.antt =====
-- A progress line that is replaced, and a control sequence that is cut.
use pi_persona.Base.{◌≡◌, refl, ◌++◌, List, [], ◌∷◌, arith, Text, codes, take_last}
use pi_persona.Core.MonitorOutput.{
  tail_chars, new_tail, append, step_from, in_text, show, push, drop_line, is_dropped, shown,
  in_string, in_string_escape, on_escape, within_sequence, ring_text,
}
use pi_persona.Core.MonitorOutput.Ring.{held, push-held}
use pi_persona.Core.MonitorOutput.Display.{IsDisplayable, append_all, append_all-IsDisplayable}

abbrev chunks : List Text
chunks = (codes "10%" ++ (0x0d ∷ 0x1b ∷ [])) ∷ (codes "[31m20%") ∷ []

append_all-IsDisplayable_example : IsDisplayable (append_all new_tail chunks)
append_all-IsDisplayable_example = append_all-IsDisplayable chunks

push-held_example : held (push new_tail 65) ≡ take_last tail_chars (held new_tail ++ (65 ∷ []))
push-held_example = push-held new_tail 65 (record { begins = omega arith; fits = omega arith })

replaced : held (append_all new_tail chunks) ≡ codes "20%"
unfolding append step_from in_text show push drop_line is_dropped shown in_string in_string_escape
    on_escape within_sequence ring_text
replaced = refl
