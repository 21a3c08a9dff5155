-- ===== src/Bus/Framing.antt =====
-- bus/broker/framing.ts: length-prefixed frames over a byte stream. `JSON.stringify`, `JSON.parse`
-- and the receiver of the frames are parameters: a receiver that throws is a `false`.
pub mod Agreement
pub mod Rounds
pub mod Stream
pub mod Roundtrip
mod Tests
use pi_persona.Base.{
  ℕ, zero, suc, ◌+◌, ◌*◌, ◌/◌, ◌%◌, ◌^◌, Bool, true, false, Option, none, some, List, [], ◌∷◌, ◌++◌,
  ltb, if◌then◌else◌, length, take, drop,
}

abbrev pub Bytes : Type 0
Bytes = List ℕ

abbrev pub max_frame_bytes : ℕ
max_frame_bytes = 16 * 1024 * 1024

-- `head.writeUInt32BE(n, 0)`
pub write_uint32_be : ℕ → Bytes
write_uint32_be n = (n / 2 ^ 24 % 256) ∷ (n / 2 ^ 16 % 256) ∷ (n / 2 ^ 8 % 256) ∷ (n % 256) ∷ []

-- `buf.readUInt32BE(0)` of a buffer that holds at least four bytes.
pub read_uint32_be : Bytes → ℕ
read_uint32_be (a ∷ b ∷ c ∷ d ∷ rest) = ((a * 256 + b) * 256 + c) * 256 + d
read_uint32_be _ = 0

-- What the reader hands on: a frame, or the error that poisons it.
pub data Event (J : Type 0) : Type 0 where
  frame : J → Event J
  too_large : ℕ → Event J
  malformed : Event J

pub record Reader : Type 0 where
  pub buf : Bytes
  pub poisoned : Bool

abbrev pub new_reader : Reader
new_reader = record { buf = []; poisoned = false }

module _ {J : Type 0} (stringify : J → Bytes) where
  unfoldable pub encode_frame : J → Bytes
  unfolding write_uint32_be
  encode_frame obj = write_uint32_be (length (stringify obj)) ++ stringify obj

module _ {J : Type 0} (parse : Bytes → Option J) (on_frame : J → Bool) where
  -- A frame that the receiver took, or the error: `onFrame` is called inside the `try`.
  pub deliver_object : Option J → Event J × Bool
  deliver_object none = (malformed, false)
  deliver_object (some obj) = if on_frame obj then (frame obj, true) else (malformed, false)

  poison : Bytes → Event J → Reader × List (Event J)
  poison buf e = (record { buf = buf; poisoned = true }, e ∷ [])

  -- The loop over the buffer, with fuel for one round more than it can make.
  pub drain : ℕ → Bytes → Reader × List (Event J)
  drain zero buf = (record { buf = buf; poisoned = false }, [])
  drain (suc fuel) buf =
      let len = read_uint32_be buf in
      let rest = drop (4 + len) buf in
      let (e, taken) = deliver_object (parse (take len (drop 4 buf))) in
      let later = drain fuel rest in
      if ltb (length buf) 4
      then (record { buf = buf; poisoned = false }, [])
      else if ltb max_frame_bytes len
      then poison buf (too_large len)
      else if ltb (length buf) (4 + len)
      then (record { buf = buf; poisoned = false }, [])
      else if taken
      then (later.0, e ∷ later.1)
      else poison rest e

  -- A round takes at least four bytes, so the length is fuel enough.
  pub feed : Reader → Bytes → Reader × List (Event J)
  feed r chunk =
      if r.poisoned then (r, []) else drain (suc (length (r.buf ++ chunk))) (r.buf ++ chunk)

  pub feed_all : Reader → List Bytes → Reader × List (Event J)
  feed_all r [] = (r, [])
  feed_all r (chunk ∷ chunks) =
      let (r', now) = feed r chunk in let (r'', later) = feed_all r' chunks in (r'', now ++ later)
