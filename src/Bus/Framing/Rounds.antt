-- ===== src/Bus/Framing/Rounds.antt =====
-- The rounds of the loop of a reader.
use pi_persona.Base.{
  ℕ, zero, suc, ◌+◌, ◌≤◌, ◌<◌, ◌≡◌, Bool, true, false, Option, [], ◌∷◌, arith, length, length-drop,
  take, drop,
}
use pi_persona.Bus.Framing.{
  Bytes, max_frame_bytes, read_uint32_be, too_large, deliver_object, poison, drain,
}

abbrev pub body : Bytes → Bytes
body buf = take (read_uint32_be buf) (drop 4 buf)

abbrev pub behind : Bytes → Bytes
behind buf = drop (4 + read_uint32_be buf) buf

module _ {J : Type 0} (parse : Bytes → Option J) (on_frame : J → Bool) where
  pub drain_agree :
      (f g : ℕ) (buf : Bytes)
      → length buf < f
      → length buf < g
      → drain parse on_frame f buf ≡ drain parse on_frame g buf
  unfolding drain
  drain_agree zero g buf h k = absurd (omega arith)
  drain_agree (suc f) zero buf h k = absurd (omega arith)
  drain_agree (suc f) (suc g) buf h k =
      ground (arith, drain_agree f g (behind buf), length-drop (4 + read_uint32_be buf) buf)

  -- The rounds of the loop: no whole header, a frame over the limit, a frame that is not there yet, a
  -- frame that the receiver refuses, and one that it takes.
  module _ (f : ℕ) (buf : Bytes) where
    pub drain_no_header :
        length buf < 4
        → drain parse on_frame (suc f) buf ≡ (record { buf = buf; poisoned = false }, [])
    unfolding drain
    drain_no_header h = ground arith

    pub drain_too_large :
        4 ≤ length buf
        → max_frame_bytes < read_uint32_be buf
        → drain parse on_frame (suc f) buf
          ≡ (record { buf = buf; poisoned = true }, too_large (read_uint32_be buf) ∷ [])
    unfolding drain poison
    drain_too_large h k = ground arith

    pub drain_no_body :
        4 ≤ length buf
        → read_uint32_be buf ≤ max_frame_bytes
        → length buf < 4 + read_uint32_be buf
        → drain parse on_frame (suc f) buf ≡ (record { buf = buf; poisoned = false }, [])
    unfolding drain
    drain_no_body h k l = ground arith

    pub drain_refused :
        4 + read_uint32_be buf ≤ length buf
        → read_uint32_be buf ≤ max_frame_bytes
        → (deliver_object parse on_frame (parse (body buf))).1 ≡ false
        → drain parse on_frame (suc f) buf ≡ (
          record { buf = behind buf; poisoned = true },
          (deliver_object parse on_frame (parse (body buf))).0 ∷ [],
        )
    unfolding drain poison
    drain_refused h k r = ground arith

    pub drain_taken :
        4 + read_uint32_be buf ≤ length buf
        → read_uint32_be buf ≤ max_frame_bytes
        → (deliver_object parse on_frame (parse (body buf))).1 ≡ true
        → drain parse on_frame (suc f) buf ≡ (
          (drain parse on_frame f (behind buf)).0,
          (deliver_object parse on_frame (parse (body buf))).0
              ∷ (drain parse on_frame f (behind buf)).1,
        )
    unfolding drain
    drain_taken h k r = ground arith
