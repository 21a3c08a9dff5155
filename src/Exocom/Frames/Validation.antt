-- ===== src/Exocom/Frames/Validation.antt =====
-- exocom/envelope.ts: isSemanticFrame, the validation of what a peer sends. `Date.parse` is a parameter.
use pi_persona.Base.{
  ℕ, ◌+◌, Bool, true, false, not, ◌&&◌, ◌||◌, Option, none, some, List, [], ◌∷◌, ◌==◌, ltb, leb,
  if◌then◌else◌, between, all, any, length, Text, codes, text_eq, byte_length,
}
use pi_persona.Exocom.Frames.Types.{
  Head, WorkFrame, task_create, task_take, task_finish, offer, publish, progress, SemanticFrame,
  claim, ask, answer, release, work,
}

unfoldable pub bounded_text : ℕ → Text → Bool
bounded_text max s = ltb 0 (length s) && leb (length s) max

unfoldable pub is_token_char : ℕ → Bool
is_token_char c =
    between b'A' b'Z' c
    || between b'a' b'z' c
    || between b'0' b'9' c
    || c == b'.'
    || c == b'_'
    || c == b':'
    || c == b'-'

unfoldable pub token : Text → Bool
unfolding bounded_text is_token_char
token s = bounded_text 128 s && all is_token_char s

unfoldable pub optional_bounded : ℕ → Option Text → Bool
unfolding bounded_text
optional_bounded max none = true
optional_bounded max (some s) = bounded_text max s

-- `[\p{Cc}\p{Zl}\p{Zp}<>]`
unfoldable pub is_markup : ℕ → Bool
is_markup c =
    leb c 0x1f || between 0x7f 0x9f c || c == 0x2028 || c == 0x2029 || c == b'<' || c == b'>'

unfoldable pub metadata : ℕ → Text → Bool
unfolding bounded_text is_markup
metadata max s = bounded_text max s && not (any is_markup s)

-- The text has the form of the template, in which `d` stands for a digit.
unfoldable pub fits : Text → Text → Bool
fits [] [] = true
fits [] (c ∷ s) = false
fits (t ∷ ts) [] = false
fits (t ∷ ts) (c ∷ s) = (if t == b'd' then between b'0' b'9' c else c == t) && fits ts s

-- The four forms of the regular expression of a timestamp.
unfoldable pub is_stamp : Text → Bool
unfolding fits
is_stamp s =
    fits (codes "dddd-dd-ddTdd:dd:ddZ") s
    || fits (codes "dddd-dd-ddTdd:dd:dd.dZ") s
    || fits (codes "dddd-dd-ddTdd:dd:dd.ddZ") s
    || fits (codes "dddd-dd-ddTdd:dd:dd.dddZ") s

unfoldable pub is_path : Text → Bool
is_path p = ltb 0 (length p) && leb (length p) 256

unfoldable pub is_write_set : List Text → Bool
unfolding is_path
is_write_set paths = ltb 0 (length paths) && leb (length paths) 64 && all is_path paths

abbrev day_ms : ℕ
day_ms = 86400000

-- `b > a && b - a <= 86_400_000`, where NaN fails every test.
within_a_day : Option ℕ → Option ℕ → Bool
within_a_day (some a) (some b) = ltb a b && leb b (a + day_ms)
within_a_day _ _ = false

module _ (parse_time : Text → Option ℕ) where
  unfoldable pub timestamp : Text → Bool
  unfolding bounded_text is_stamp
  timestamp s =
      bounded_text 128 s && is_stamp s && elim (parse_time s) [ some _ ↦ true | none ↦ false ]

  unfoldable pub is_head : Head → Bool
  unfolding token metadata timestamp optional_bounded
  is_head h =
      token h.work_key
      && token h.from_session
      && metadata 256 h.from_name
      && token h.msg_id
      && timestamp h.ts
      && optional_bounded 512 h.signature

  unfoldable pub is_work_frame : WorkFrame → Bool
  unfolding bounded_text is_write_set timestamp within_a_day
  is_work_frame (task_create e) =
      is_head e.head
      && bounded_text 2048 e.description
      && (length e.write_set == 0 || is_write_set e.write_set)
  is_work_frame (task_take e) = is_head e.head && token e.task_id
  is_work_frame (task_finish e) = is_head e.head && token e.task_id && bounded_text 4096 e.note
  is_work_frame (offer e) =
      is_head e.head
      && token e.task_id
      && token e.offer_id
      && elim e.to_session [ none ↦ true | some s ↦ token s ]
      && timestamp e.expires_at
      && within_a_day (parse_time e.head.ts) (parse_time e.expires_at)
  is_work_frame (publish e) =
      is_head e.head
      && token e.task_id
      && bounded_text 160 e.title
      && bounded_text 4096 e.excerpt
      && leb (byte_length e.excerpt) 8192
  is_work_frame (progress e) =
      is_head e.head
      && bounded_text 4096 e.note
      && elim e.task_id [ none ↦ true | some s ↦ token s ]

  unfoldable pub is_semantic_frame : SemanticFrame → Bool
  unfolding is_work_frame
  is_semantic_frame (claim e) =
      is_head e.head && is_write_set e.write_set && bounded_text 256 e.slice
  is_semantic_frame (ask e) =
      is_head e.head
      && token e.ask_id
      && token e.to_session
      && not (text_eq e.to_session (codes "*"))
      && bounded_text 4096 e.question
  is_semantic_frame (answer e) = is_head e.head && token e.ask_id && bounded_text 8192 e.evidence
  is_semantic_frame (release h) = is_head h
  is_semantic_frame (work e) = is_work_frame e
