-- ===== src/Bus/Framing/Roundtrip.antt =====
-- What one side encodes, the other side reads.
use mathlib.Core.List.{append_assoc}
use pi_persona.Base.{
  ℕ, zero, suc, ◌+◌, ◌^◌, ◌≤◌, ◌<◌, ◌≡◌, refl, sym, ap, ◌∙◌, Bool, true, Option, some, List, [],
  ◌∷◌, ◌++◌, map, arith, length, length-append, take, drop, flatten, All,
}
use pi_persona.Bus.Framing.{
  Bytes, max_frame_bytes, write_uint32_be, read_uint32_be, frame, new_reader, encode_frame,
  deliver_object, drain, feed, feed_all,
}
use pi_persona.Bus.Framing.Rounds.{drain_taken}
use pi_persona.Bus.Framing.Stream.{feed_all-flatten}

-- The header holds every length below 2^32.
pub read-write_uint32_be :
    (n : ℕ) (rest : Bytes) → n < 2 ^ 32 → read_uint32_be (write_uint32_be n ++ rest) ≡ n
unfolding read_uint32_be write_uint32_be
read-write_uint32_be n rest h = omega arith

module _ {ℓ} {A : Type ℓ} where
  drop_exact : (n : ℕ) (xs ys : List A) → n ≡ length xs → drop n (xs ++ ys) ≡ ys
  drop_exact zero [] ys h = refl
  drop_exact zero (x ∷ xs) ys h = absurd (omega arith)
  drop_exact (suc n) [] ys h = absurd (omega arith)
  drop_exact (suc n) (x ∷ xs) ys h = drop_exact n xs ys (omega arith)

  take_exact : (n : ℕ) (xs ys : List A) → n ≡ length xs → take n (xs ++ ys) ≡ xs
  take_exact zero [] ys h = refl
  take_exact zero (x ∷ xs) ys h = absurd (omega arith)
  take_exact (suc n) [] ys h = absurd (omega arith)
  take_exact (suc n) (x ∷ xs) ys h = ap (◌∷◌ x) (take_exact n xs ys (omega arith))

length-write_uint32_be : (n : ℕ) → length (write_uint32_be n) ≡ 4
unfolding write_uint32_be
length-write_uint32_be n = refl

module _ {J : Type 0} (stringify : J → Bytes) (parse : Bytes → Option J) (on_frame : J → Bool) where
  -- A value that comes back from its text, fits a frame, and does not make the receiver throw.
  pub record IsCarried (x : J) : Type 0 where
    pub parsed : parse (stringify x) ≡ some x
    pub fits : length (stringify x) ≤ max_frame_bytes
    pub taken : on_frame x ≡ true

  length-encode_frame : (x : J) → length (encode_frame stringify x) ≡ 4 + length (stringify x)
  unfolding encode_frame
  length-encode_frame x = omega arith

  deliver_lem :
      (x : J) → IsCarried x → deliver_object parse on_frame (parse (stringify x)) ≡ (frame x, true)
  unfolding deliver_object
  deliver_lem x h = rw (h.parsed, h.taken)

  drain-encode_frame :
      (f : ℕ) (x : J) (rest : Bytes)
      → IsCarried x
      → drain parse on_frame (suc f) (encode_frame stringify x ++ rest)
        ≡ ((drain parse on_frame f rest).0, frame x ∷ (drain parse on_frame f rest).1)
  drain-encode_frame f x rest h =
      let text = stringify x in
      let head = write_uint32_be (length text) in
      let buf = encode_frame stringify x ++ rest in
      let split : buf ≡ head ++ (text ++ rest) =
        unfold encode_frame in append_assoc head text rest in
      let len : read_uint32_be buf ≡ length text =
        rw split (read-write_uint32_be (length text) (text ++ rest) (omega arith)) in
      let body' : take (read_uint32_be buf) (drop 4 buf) ≡ text =
        rw
          (
            len,
            split,
            drop_exact 4 head (text ++ rest) (sym (length-write_uint32_be (length text))),
          )
          (take_exact (length text) text rest refl) in
      let whole : length (encode_frame stringify x) ≡ 4 + length text = length-encode_frame x in
      let behind' : drop (4 + read_uint32_be buf) buf ≡ rest =
        rw len (drop_exact (4 + length text) (encode_frame stringify x) rest (sym whole)) in
      let given : deliver_object parse on_frame (parse text) ≡ (frame x, true) = deliver_lem x h in
      drain_taken parse on_frame f buf
        (rw len (omega (arith, length-append (encode_frame stringify x) rest))) (rw len h.fits)
        (rw (body', given))
      ∙ rw (body', behind', given)

  drain-encode_frames :
      (f : ℕ) (xs : List J)
      → All IsCarried xs
      → length (flatten (map (encode_frame stringify) xs)) < f
      → drain parse on_frame f (flatten (map (encode_frame stringify) xs))
        ≡ (new_reader, map frame xs)
  drain-encode_frames zero xs h k = absurd (omega arith)
  drain-encode_frames (suc f) [] h k = unfold drain in refl
  drain-encode_frames (suc f) (x ∷ xs) (h, hs) k =
      drain-encode_frame f x _ h
      ∙ rw (
          drain-encode_frames f xs hs (
            omega (
              arith,
              length-append (encode_frame stringify x) (flatten (map (encode_frame stringify) xs)),
              length-encode_frame x,
            )))

  feed-encode_frames :
      (xs : List J)
      → All IsCarried xs
      → feed parse on_frame new_reader (flatten (map (encode_frame stringify) xs))
        ≡ (new_reader, map frame xs)
  unfolding feed
  feed-encode_frames xs h = drain-encode_frames _ xs h (omega arith)

  -- Where each value has a JSON text of at most 16 MiB that parses back to it, and the receiver takes it
  -- without throwing: however a stream of such values, encoded, is cut into chunks, a new reader hands
  -- on exactly these values in their order, keeps no byte, and stays usable.
  pub feed_all-encode_frame :
      (xs : List J) (chunks : List Bytes)
      → All IsCarried xs
      → flatten chunks ≡ flatten (map (encode_frame stringify) xs)
      → feed_all parse on_frame new_reader chunks ≡ (new_reader, map frame xs)
  feed_all-encode_frame xs chunks h e =
      let whole : feed parse on_frame new_reader (flatten chunks) ≡ (new_reader, map frame xs) =
        rw e (feed-encode_frames xs h) in
      let agree = feed_all-flatten parse on_frame chunks in
      let going = agree.verdict ∙ ap (λ x. x.0.poisoned) whole in
      λ i. (
        record { buf = (agree.kept going ∙ ap (λ x. x.0.buf) whole) i; poisoned = going i },
        (agree.events ∙ ap (λ x. x.1) whole) i,
      )
