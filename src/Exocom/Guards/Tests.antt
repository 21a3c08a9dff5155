-- ===== src/Exocom/Guards/Tests.antt =====
-- Concrete senders, ids and times.
use pi_persona.Base.{
  ℕ, ◌≡◌, refl, ◌≢◌, ◌≤◌, List, [], ◌∷◌, arith, Text, codes, text_eq, lookup, insert,
}
use pi_persona.Exocom.Guards.{
  SenderBudget, Guards, Inbound, duplicate, drop_budget, seen_key, decide_inbound, allow, charge,
  roll, fresh_bucket, seen_before, seen_before_key, hold, sweep, spend,
}
use pi_persona.Exocom.Guards.Budget.{Call, admitted, admitted_bounds}
use pi_persona.Exocom.Guards.Delivery.{delivered, delivered-le-one, decide_after_budget}

-- One message in a window of ten.
abbrev narrow : SenderBudget
narrow = record { window_ms = 10; max_msgs = 1; max_bytes = 100; buckets = [] }

abbrev guards : Guards
guards = record { budget = narrow; seen = record { ttl_ms = 60; seen = [] } }

abbrev message : Text → Inbound
message id = record { sender = codes "a"; msg_id = id; hops = 0; wire_bytes = 5 }

abbrev calls : List Call
calls =
    record { time = 3; sender = codes "a"; bytes = 5 }
    ∷ record { time = 4; sender = codes "b"; bytes = 5 }
    ∷ record { time = 12; sender = codes "a"; bytes = 5 }
    ∷ []

admitted_bounds_example :
    ((admitted (codes "a") narrow calls).0 ≤ 1) × ((admitted (codes "a") narrow calls).1 ≤ 100)
unfolding lookup
admitted_bounds_example =
    admitted_bounds (codes "a") 3 narrow calls (λ b e. cc)
      (omega arith, (omega arith, (omega arith, tt)))

abbrev arrivals : List (ℕ × Inbound)
arrivals = (5, message (codes "m")) ∷ (6, message (codes "n")) ∷ (7, message (codes "m")) ∷ []

delivered-le-one_example : delivered (seen_key (codes "a") (codes "m")) guards arrivals ≤ 1
delivered-le-one_example =
    delivered-le-one (seen_key (codes "a") (codes "m")) 5 guards arrivals tt
      (omega arith, (omega arith, (omega arith, tt)))

-- The sender has used up its budget.
abbrev spent : Guards
spent = record guards {
  budget = record narrow { buckets = (codes "a", record { start = 0; msgs = 1; bytes = 5 }) ∷ [] };
}

over_budget : (decide_inbound spent 4 (message (codes "m"))).0 ≡ drop_budget
unfolding decide_inbound seen_before seen_before_key hold sweep seen_key spend allow charge roll
    fresh_bucket lookup insert text_eq
over_budget = refl

decide_after_budget_example :
    (decide_inbound (decide_inbound spent 4 (message (codes "m"))).1 20 (message (codes "m"))).0
    ≢ duplicate
decide_after_budget_example =
    decide_after_budget spent 4 20 (message (codes "m")) (message (codes "m")) tt over_budget refl
