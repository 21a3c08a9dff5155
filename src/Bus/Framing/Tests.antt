-- ===== src/Bus/Framing/Tests.antt =====
-- Concrete streams of frames.
use pi_persona.Base.{
  zero, ◌≡◌, refl, Bool, true, Option, none, some, List, [], ◌∷◌, map, arith, flatten,
}
use pi_persona.Bus.Framing.{
  Bytes, frame, too_large, malformed, new_reader, encode_frame, write_uint32_be, read_uint32_be,
  deliver_object, poison, drain, feed, feed_all,
}
use pi_persona.Bus.Framing.Agreement.{Agree}
use pi_persona.Bus.Framing.Stream.{feed_all-flatten}
use pi_persona.Bus.Framing.Roundtrip.{feed_all-encode_frame}

-- Values that are their own text; a text that starts with 0 is malformed.
abbrev raw : Bytes → Bytes
raw b = b

abbrev parse_raw : Bytes → Option Bytes
parse_raw (zero ∷ b) = none
parse_raw b = some b

abbrev accept_all : Bytes → Bool
accept_all _ = true

abbrev two_values : List Bytes
two_values = (7 ∷ 8 ∷ []) ∷ (9 ∷ []) ∷ []

-- Cut within the first header, and within the second.
abbrev halves_of : List Bytes
halves_of = (0 ∷ 0 ∷ []) ∷ (0 ∷ 2 ∷ 7 ∷ 8 ∷ 0 ∷ []) ∷ [] ∷ (0 ∷ 0 ∷ 1 ∷ 9 ∷ []) ∷ []

feed_all-encode_frame_example :
    feed_all parse_raw accept_all new_reader halves_of ≡ (new_reader, map frame two_values)
unfolding encode_frame write_uint32_be
feed_all-encode_frame_example =
    feed_all-encode_frame raw parse_raw accept_all two_values halves_of
      (
        record { parsed = refl; fits = omega arith; taken = refl },
        (record { parsed = refl; fits = omega arith; taken = refl }, tt),
      )
      refl

feed_all-flatten_example :
    Agree
      (feed_all parse_raw accept_all new_reader halves_of)
      (feed parse_raw accept_all new_reader (flatten halves_of))
feed_all-flatten_example = feed_all-flatten parse_raw accept_all halves_of

malformed_frame :
    (feed parse_raw accept_all new_reader (0 ∷ 0 ∷ 0 ∷ 1 ∷ 9 ∷ 0 ∷ 0 ∷ 0 ∷ 1 ∷ 0 ∷ 5 ∷ [])).1
    ≡ frame (9 ∷ []) ∷ malformed ∷ []
unfolding feed drain deliver_object poison read_uint32_be
malformed_frame = refl

large_frame :
    (feed parse_raw accept_all new_reader (1 ∷ 0 ∷ 0 ∷ 1 ∷ [])).1 ≡ too_large 16777217 ∷ []
unfolding feed drain deliver_object poison read_uint32_be
large_frame = refl
