-- ===== src/Core/MonitorOutput.antt =====
-- core/monitor-output.ts: the sanitized tail of one output stream. The ring `chars` is a function from
-- its indices to the code units stored there.
pub mod Ring
pub mod Display
mod Tests
use pi_persona.Base.{
  ℕ, zero, suc, ◌+◌, ◌-◌, ◌%◌, Bool, true, false, not, ◌&&◌, ◌||◌, Option, none, some, List, [],
  ◌∷◌, ◌++◌, ◌==◌, ltb, leb, if◌then◌else◌, between, Text, reverse, map, filter, trim, drop_spaces,
}

abbrev pub tail_chars : ℕ
tail_chars = 4000

pub data ControlState : Type 0 where
  text escape escape_intermediate csi osc osc_escape string string_escape : ControlState

pub record MonitorOutputTail : Type 0 where
  pub chars : ℕ → ℕ
  pub start : ℕ
  pub length : ℕ
  pub state : ControlState
  pub carriage_return : Bool

abbrev pub new_tail : MonitorOutputTail
new_tail = record { chars = λ i. 0; start = 0; length = 0; state = text; carriage_return = false }

abbrev pub write_at : (ℕ → ℕ) → ℕ → ℕ → ℕ → ℕ
write_at chars i c j = if j == i then c else chars j

pub push : MonitorOutputTail → ℕ → MonitorOutputTail
push m c =
    let chars = write_at m.chars ((m.start + m.length) % tail_chars) c in
    if ltb m.length tail_chars
    then record m { chars = chars; length = m.length + 1 }
    else record m { chars = chars; start = (m.start + 1) % tail_chars }

-- The loop over the current line: the length without it.
pub drop_line : (ℕ → ℕ) → ℕ → ℕ → ℕ
drop_line chars start zero = zero
drop_line chars start (suc n) =
    let shorter = drop_line chars start n in
    if chars ((start + n) % tail_chars) == 0x0a then suc n else shorter

-- The state after a unit while a string or an OSC is read, and after an ESC within one.
in_string : Bool → ℕ → ControlState
in_string is_osc c =
    if c == 0x9c || (c == 0x07 && is_osc)
    then text
    else if c == 0x1b
    then (if is_osc then osc_escape else string_escape)
    else if is_osc
    then osc
    else string

in_string_escape : Bool → ℕ → ControlState
in_string_escape is_osc c =
    if c == 0x5c || c == 0x9c || (c == 0x07 && is_osc)
    then text
    else if not (c == 0x1b)
    then (if is_osc then osc else string)
    else if is_osc
    then osc_escape
    else string_escape

on_escape : ℕ → ControlState
on_escape c =
    if c == b'['
    then csi
    else if c == b']'
    then osc
    else if c == b'P' || c == b'X' || c == b'^' || c == b'_'
    then string
    else if between 0x20 0x2f c
    then escape_intermediate
    else text

within_sequence : ControlState → ℕ → ℕ → ControlState
within_sequence s least c = if between least 0x7e c then text else s

-- Controls and direction marks that are dropped.
pub is_dropped : ℕ → Bool
is_dropped c =
    (ltb c 0x20 && not (c == 0x09))
    || between 0x7f 0x9f c
    || between 0x202a 0x202e c
    || between 0x2066 0x2069 c
    || c == 0x200e
    || c == 0x200f

pub shown : ℕ → ℕ
shown c = if c == 0x09 || c == 0x2028 || c == 0x2029 then b' ' else c

-- A unit that is shown; after a CR it replaces the current line.
pub show : MonitorOutputTail → ℕ → MonitorOutputTail
unfolding push drop_line shown
show m c =
    let replaced = record m {
      length = drop_line m.chars m.start m.length;
      carriage_return = false;
    } in
    if m.carriage_return then push replaced (shown c) else push m (shown c)

-- A unit of text.
pub in_text : MonitorOutputTail → ℕ → MonitorOutputTail
unfolding show is_dropped
in_text m c =
    if c == 0x9b
    then record m { state = csi }
    else if c == 0x9d
    then record m { state = osc }
    else if c == 0x90 || c == 0x98 || c == 0x9e || c == 0x9f
    then record m { state = string }
    else if c == 0x0d
    then record m { carriage_return = true }
    else if c == 0x0a
    then push (record m { carriage_return = false }) 0x0a
    else if is_dropped c
    then m
    else show m c

-- ESC starts a sequence in every state that has no string open.
pub step_from : ControlState → MonitorOutputTail → ℕ → MonitorOutputTail
unfolding in_string in_string_escape on_escape within_sequence in_text
step_from osc m c = record m { state = in_string true c }
step_from string m c = record m { state = in_string false c }
step_from osc_escape m c = record m { state = in_string_escape true c }
step_from string_escape m c = record m { state = in_string_escape false c }
step_from escape m c = record m { state = if c == 0x1b then escape else on_escape c }
step_from escape_intermediate m c = record m {
  state = if c == 0x1b then escape else within_sequence escape_intermediate 0x30 c;
}
step_from csi m c = record m { state = if c == 0x1b then escape else within_sequence csi 0x40 c }
step_from text m c = if c == 0x1b then record m { state = escape } else in_text m c

pub append : MonitorOutputTail → Text → MonitorOutputTail
unfolding step_from
append m [] = m
append m (c ∷ chunk) = append (step_from m.state m c) chunk

-- The units of the ring from its start on, before halves of surrogate pairs are dropped.
pub ring_text : (ℕ → ℕ) → ℕ → ℕ → Text
ring_text chars start zero = []
ring_text chars start (suc n) = ring_text chars start n ++ (chars ((start + n) % tail_chars) ∷ [])

drop_low : Text → Text
drop_low [] = []
drop_low (c ∷ s) = if between 0xdc00 0xdfff c then s else c ∷ s

drop_high : Text → Text
drop_high [] = []
drop_high (c ∷ s) = if between 0xd800 0xdbff c then s else c ∷ s

-- The getter `text`: no half of a surrogate pair at its ends.
pub text_of : MonitorOutputTail → Text
unfolding ring_text drop_low drop_high
text_of m = reverse (drop_high (reverse (drop_low (ring_text m.chars m.start m.length))))

until_break : Text → Text
until_break [] = []
until_break (c ∷ s) = if c == 0x0a then [] else c ∷ until_break s

-- The getter `preview`: the last line that is not blank.
pub preview : MonitorOutputTail → Text
unfolding text_of until_break
preview m =
    let trimmed = reverse (drop_spaces (reverse (text_of m))) in
    trim (reverse (until_break (reverse trimmed)))

pub neutralize_monitor_unicode : Text → Text
neutralize_monitor_unicode s =
    map (λ c. if c == 0x2028 || c == 0x2029 then b' ' else c)
      (filter
        (λ c.
          not (c == 0x200e || c == 0x200f || between 0x202a 0x202e c || between 0x2066 0x2069 c))
        s)
