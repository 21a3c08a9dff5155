-- ===== src/Bus/Framing/Stream.antt =====
-- How the stream is cut into chunks makes no difference to what a reader hands on.
use mathlib.Core.List.{append-nil, append_assoc}
use pi_persona.Base.{
  ℕ, zero, suc, ◌+◌, ◌≤◌, ◌<◌, ◌≡◌, refl, Bool, true, false, Option, List, [], ◌∷◌, ◌++◌, arith,
  length, length-append, length-drop, drop, flatten, Bool-cases, lt_or_le, inl, inr,
}
use pi_persona.Bus.Framing.{
  Bytes, max_frame_bytes, read_uint32_be, Event, Reader, new_reader, deliver_object, drain, feed,
  feed_all,
}
use pi_persona.Bus.Framing.Agreement.{
  read_uint32_be-append, drop-append, take-append, Agree, then_more, Agree-refl, Agree-trans,
  Agree-then_all, Agree-then_more,
}
use pi_persona.Bus.Framing.Rounds.{
  body, behind, drain_agree, drain_no_header, drain_too_large, drain_no_body, drain_refused,
  drain_taken,
}

module _ {J : Type 0} (parse : Bytes → Option J) (on_frame : J → Bool) where
  abbrev continue : Reader × List (Event J) → Bytes → Reader × List (Event J)
  continue x more = then_more x.1 (feed parse on_frame x.0 more)

  goes_on :
      (f : ℕ) (buf more : Bytes)
      → length (buf ++ more) < f
      → Agree
          (continue (record { buf = buf; poisoned = false }, []) more)
          (drain parse on_frame f (buf ++ more))
  unfolding feed
  goes_on f buf more h =
      rw (drain_agree parse on_frame f (suc (length (buf ++ more))) (buf ++ more) h (omega arith))
        (Agree-refl _)

  stopped :
      (buf buf' more : Bytes) (e : Event J)
      → Agree
          (continue (record { buf = buf; poisoned = true }, e ∷ []) more)
          (record { buf = buf'; poisoned = true }, e ∷ [])
  unfolding feed
  stopped buf buf' more e = record { events = refl; verdict = refl; kept = λ h. cc }

  body-append :
      (buf more : Bytes) → 4 + read_uint32_be buf ≤ length buf → body (buf ++ more) ≡ body buf
  body-append buf more h =
      rw (read_uint32_be-append buf more (omega arith), drop-append 4 buf more (omega arith))
        (take-append (read_uint32_be buf) (drop 4 buf) more (omega (arith, length-drop 4 buf)))

  behind-append :
      (buf more : Bytes)
      → 4 + read_uint32_be buf ≤ length buf
      → behind (buf ++ more) ≡ behind buf ++ more
  behind-append buf more h =
      rw (read_uint32_be-append buf more (omega arith))
        (drop-append (4 + read_uint32_be buf) buf more h)

  module _ (g f : ℕ) (buf more : Bytes) where
    too_large_append :
        4 ≤ length buf
        → max_frame_bytes < read_uint32_be buf
        → Agree
            (continue (drain parse on_frame (suc g) buf) more)
            (drain parse on_frame (suc f) (buf ++ more))
    too_large_append h k =
        let same = read_uint32_be-append buf more h in
        rw
          (
            drain_too_large parse on_frame g buf h k,
            drain_too_large parse on_frame f (buf ++ more) (omega (arith, length-append buf more))
                (rw same k),
            same,
          )
          (stopped buf (buf ++ more) more _)

    whole_append :
        4 + read_uint32_be buf ≤ length buf
        → read_uint32_be buf ≤ max_frame_bytes
        → Agree
            (continue (drain parse on_frame g (behind buf)) more)
            (drain parse on_frame f (behind buf ++ more))
        → Agree
            (continue (drain parse on_frame (suc g) buf) more)
            (drain parse on_frame (suc f) (buf ++ more))
    whole_append h k ih =
        let same = read_uint32_be-append buf more (omega arith) in
        let length' = length-append buf more in
        let body' : body (buf ++ more) ≡ body buf = body-append buf more h in
        let behind' : behind (buf ++ more) ≡ behind buf ++ more = behind-append buf more h in
        let h' : 4 + read_uint32_be (buf ++ more) ≤ length (buf ++ more) = rw same (omega arith) in
        let k' : read_uint32_be (buf ++ more) ≤ max_frame_bytes = rw same k in
        elim (Bool-cases (deliver_object parse on_frame (parse (body buf))).1) [
          | inl ok ↦
              rw
                (
                  drain_taken parse on_frame g buf h k ok,
                  drain_taken parse on_frame f (buf ++ more) h' k' (rw body' ok),
                  body',
                  behind',
                )
                (Agree-then_more _ _ _ ih)
          | inr bad ↦
              rw
                (
                  drain_refused parse on_frame g buf h k bad,
                  drain_refused parse on_frame f (buf ++ more) h' k' (rw body' bad),
                  body',
                )
                (stopped (behind buf) (behind (buf ++ more)) more _)
        ]

  drain-append :
      (g f : ℕ) (buf more : Bytes)
      → length buf < g
      → length (buf ++ more) < f
      → Agree (continue (drain parse on_frame g buf) more) (drain parse on_frame f (buf ++ more))
  drain-append zero f buf more h k = absurd (omega arith)
  drain-append (suc g) zero buf more h k = absurd (omega arith)
  drain-append (suc g) (suc f) buf more h k = elim (lt_or_le (length buf) 4) [
    | inl short ↦ rw (drain_no_header parse on_frame g buf short) (goes_on (suc f) buf more k)
    | inr header ↦ elim (lt_or_le max_frame_bytes (read_uint32_be buf)) [
      | inl large ↦ too_large_append g f buf more header large
      | inr small ↦ elim (lt_or_le (length buf) (4 + read_uint32_be buf)) [
        | inl short ↦
            rw (drain_no_body parse on_frame g buf header small short) (goes_on (suc f) buf more k)
        | inr whole ↦ whole_append g f buf more whole small (
            drain-append g f (behind buf) more
              (omega (arith, length-drop (4 + read_uint32_be buf) buf))
              (omega (
                arith,
                length-drop (4 + read_uint32_be buf) buf,
                length-append buf more,
                length-append (behind buf) more,
              )))
      ]
    ]
  ]

  feed-append_from :
      (buf : Bytes) (poisoned : Bool) (a b : Bytes)
      → let r : Reader = record { buf = buf; poisoned = poisoned } in
        Agree (continue (feed parse on_frame r a) b) (feed parse on_frame r (a ++ b))
  unfolding feed
  feed-append_from buf true a b = Agree-refl _
  feed-append_from buf false a b =
      rw (← append_assoc buf a b)
        (unfold feed in drain-append _ _ (buf ++ a) b (omega arith) (omega arith))

  -- One chunk in two parts is handed on as the whole.
  feed-append :
      (r : Reader) (a b : Bytes)
      → Agree (continue (feed parse on_frame r a) b) (feed parse on_frame r (a ++ b))
  feed-append r = feed-append_from r.buf r.poisoned

  pub feed_all-flatten_from :
      (r : Reader) (a : Bytes) (chunks : List Bytes)
      → Agree (feed_all parse on_frame r (a ∷ chunks)) (feed parse on_frame r (a ++ flatten chunks))
  unfolding feed_all
  feed_all-flatten_from r a [] =
      rw (append-nil a, append-nil (feed parse on_frame r a).1)
        (Agree-refl (feed parse on_frame r a))
  feed_all-flatten_from r a (b ∷ chunks) =
      Agree-trans
        (Agree-then_all (feed parse on_frame r a).1
          (feed_all-flatten_from (feed parse on_frame r a).0 b chunks))
        (feed-append r a (b ++ flatten chunks))

  -- A new reader that is fed a stream in chunks hands on what it would of the stream in one piece:
  -- the same frames and errors in the same order, the same verdict, and, unless it is poisoned, the
  -- same bytes kept.
  pub feed_all-flatten :
      (chunks : List Bytes)
      → Agree
          (feed_all parse on_frame new_reader chunks)
          (feed parse on_frame new_reader (flatten chunks))
  feed_all-flatten [] = unfold feed_all feed drain in Agree-refl _
  feed_all-flatten (a ∷ chunks) = feed_all-flatten_from new_reader a chunks
