-- ===== src/Exocom/Guards.antt =====
-- exocom/guards.ts: the budget of each sender and the memory of message ids, and the decision of
-- exocom/inbound.ts on an inbound message, without the text that is then rendered. The clock is an
-- argument of each call; a test `t - start >= w` of the code is written `start + w ≤ t`.
pub mod Budget
pub mod Seen
pub mod Delivery
mod Tests
use pi_persona.Base.{
  ℕ, suc, ◌+◌, Bool, true, false, not, ◌&&◌, ◌||◌, Option, none, some, List, [], ◌∷◌, ◌++◌, ltb,
  leb, if◌then◌else◌, Text, text_eq, TextMap, lookup, insert, delete, filter, length,
}

pub record Bucket : Type 0 where
  pub start : ℕ
  pub msgs : ℕ
  pub bytes : ℕ

pub record SenderBudget : Type 0 where
  pub window_ms : ℕ
  pub max_msgs : ℕ
  pub max_bytes : ℕ
  pub buckets : TextMap Bucket

fresh_bucket : ℕ → Bucket
fresh_bucket t = record { start = t; msgs = 0; bytes = 0 }

-- The bucket that a message is charged to, in the map: a missing one or one whose window is over is
-- replaced.
roll : SenderBudget → ℕ → Text → Bucket × SenderBudget
unfolding fresh_bucket
roll s t sender = elim (lookup sender s.buckets) [
  | none ↦ (fresh_bucket t, record s { buckets = insert sender (fresh_bucket t) s.buckets })
  | some b ↦
      if leb (b.start + s.window_ms) t
      then (fresh_bucket t, record s { buckets = insert sender (fresh_bucket t) s.buckets })
      else (b, s)
]

-- The bucket is an object of the map, so its change is one of the map.
charge : Bucket × SenderBudget → Text → ℕ → Bool × SenderBudget
charge (b, s) sender bytes =
    if ltb s.max_msgs (b.msgs + 1) || ltb s.max_bytes (b.bytes + bytes) then (false, s) else (
      true,
      record s {
        buckets = insert sender (record b { msgs = b.msgs + 1; bytes = b.bytes + bytes }) s.buckets;
      },
    )

pub allow : SenderBudget → ℕ → Text → ℕ → Bool × SenderBudget
allow s t sender bytes = charge (roll s t sender) sender bytes

pub record SeenMessages : Type 0 where
  pub ttl_ms : ℕ
  pub seen : TextMap ℕ

-- `${sender}\x1f${msgId}`
pub seen_key : Text → Text → Text
seen_key sender msg_id = sender ++ (0x1f ∷ msg_id)

abbrev pub seen_max : ℕ
seen_max = 4096

-- Past the bound the entries whose time is over are dropped.
sweep : ℕ → ℕ → TextMap ℕ → TextMap ℕ
sweep ttl t seen =
    if ltb seen_max (length seen) then filter (λ e. not (leb (e.1 + ttl) t)) seen else seen

-- The call on a key that is not held: it is held from now on.
pub hold : SeenMessages → ℕ → Text → Bool × SeenMessages
unfolding sweep
hold s t key = (false, record s { seen = sweep s.ttl_ms t (insert key t s.seen) })

pub seen_before_key : SeenMessages → ℕ → Text → Bool × SeenMessages
unfolding hold
seen_before_key s t key = elim (lookup key s.seen) [
  | none ↦ hold s t key
  | some at ↦ if ltb t (at + s.ttl_ms) then (true, s) else hold s t key
]

pub seen_before : SeenMessages → ℕ → Text → Text → Bool × SeenMessages
seen_before s t sender msg_id = seen_before_key s t (seen_key sender msg_id)

pub forget : SeenMessages → Text → Text → SeenMessages
forget s sender msg_id = record s { seen = delete (seen_key sender msg_id) s.seen }

-- exocom/inbound.ts. The hop count is that of a message that the plane has decoded, a number.
abbrev pub max_hops : ℕ
max_hops = 6

pub record Inbound : Type 0 where
  pub sender : Text
  pub msg_id : Text
  pub hops : ℕ
  pub wire_bytes : ℕ

pub data Decision : Type 0 where
  deliver duplicate drop_budget drop_hops : Decision

pub record Guards : Type 0 where
  pub budget : SenderBudget
  pub seen : SeenMessages

-- After the id is held: the budget is charged, and a message over it gives its id back.
spend : Guards → ℕ → Inbound → Decision × Guards
spend g t msg =
    let (ok, budget) = allow g.budget t msg.sender msg.wire_bytes in
    if ok
    then (deliver, record g { budget = budget })
    else (drop_budget, record { budget = budget; seen = forget g.seen msg.sender msg.msg_id })

pub decide_inbound : Guards → ℕ → Inbound → Decision × Guards
decide_inbound g t msg =
    let (known, seen) = seen_before g.seen t msg.sender msg.msg_id in
    if ltb max_hops msg.hops
    then (drop_hops, g)
    else if known
    then (duplicate, record g { seen = seen })
    else spend (record g { seen = seen }) t msg
