-- ===== src/Orchestration/Parallel/Slots.antt =====
-- However calls start, are aborted and finish, no more of them run than there are slots, and no slot is
-- free while a call waits.
use pi_persona.Base.{
  ℕ, ◌+◌, ◌≤◌, ◌<◌, ◌≡◌, inl, inr, Bool, true, false, List, [], ◌∷◌, arith, ◌==◌, ltb, any, length,
  length-append, Bool-cases,
}
use pi_persona.Orchestration.Parallel.{
  Running, slots_of, remove_first, acquire, abort_wait, hand_on, release_slot, idle, begin_call,
  cancel, granted_to, settle_call,
}

pub data Step : Running → Running → Type 0 where
  starts : {r : Running} (id : ℕ) (aborted : Bool) → Step r (begin_call r id aborted)
  cancels : {r : Running} (id : ℕ) → Step r (cancel r id)
  finishes : {r : Running} (id : ℕ) → any (λ x. x == id) r.active ≡ true → Step r (settle_call r id)

pub data Reachable (slots : ℕ) : Running → Type 0 where
  here : Reachable slots (idle slots)
  next : {r r' : Running} → Reachable slots r → Step r r' → Reachable slots r'

-- Every slot is free or held, and no slot is free while a call waits.
record IsBalanced (slots : ℕ) (r : Running) : Type 0 where
  pub balance : r.semaphore.available + length r.active ≡ slots_of slots
  pub busy : (0 < length r.semaphore.waiters) → r.semaphore.available ≡ 0

length-remove_first :
    (id : ℕ) (xs : List ℕ)
    → any (λ x. x == id) xs ≡ true
    → length (remove_first id xs) + 1 ≡ length xs
unfolding remove_first
length-remove_first id [] h = cc
length-remove_first id (x ∷ xs) h = ground (arith, length-remove_first id xs)

length-remove_first-le : (id : ℕ) (xs : List ℕ) → length (remove_first id xs) ≤ length xs
unfolding remove_first
length-remove_first-le id [] = omega arith
length-remove_first-le id (x ∷ xs) = ground (arith, length-remove_first-le id xs)

module _ (slots : ℕ) where
  begin_call-IsBalanced :
      (r : Running) (id : ℕ) (aborted : Bool)
      → IsBalanced slots r
      → IsBalanced slots (begin_call r id aborted)
  unfolding begin_call acquire
  begin_call-IsBalanced r id true h = h
  begin_call-IsBalanced r id false h = elim (Bool-cases (ltb 0 r.semaphore.available)) [
    | inl free ↦ rw free (record {
      balance = ground (arith, h.balance, length-append r.active (id ∷ []));
      busy = λ w. let none_free = h.busy w in absurd (ground arith);
    })
    | inr full ↦ rw full (record { balance = h.balance; busy = λ w. ground arith })
  ]

  cancel-IsBalanced : (r : Running) (id : ℕ) → IsBalanced slots r → IsBalanced slots (cancel r id)
  unfolding cancel abort_wait
  cancel-IsBalanced r id h = record {
    balance = h.balance;
    busy = λ w. h.busy (omega (arith, length-remove_first-le id r.semaphore.waiters));
  }

  settle_call-IsBalanced_from :
      (available : ℕ) (waiters active : List ℕ) (id : ℕ)
      → any (λ x. x == id) active ≡ true
      → (let r : Running = record {
        semaphore = record { available = available; waiters = waiters };
        active = active;
      } in
          IsBalanced slots r → IsBalanced slots (settle_call r id))
  unfolding settle_call release_slot hand_on granted_to
  settle_call-IsBalanced_from available [] active id e h = record {
    balance = omega (arith, h.balance, length-remove_first id active e);
    busy = λ w. absurd (omega arith);
  }
  settle_call-IsBalanced_from available (w ∷ ws) active id e h = record {
    balance = omega (
      arith,
      h.balance,
      length-remove_first id active e,
      length-append (remove_first id active) (w ∷ []),
    );
    busy = λ _. h.busy (omega arith);
  }

  Step-IsBalanced : {r r' : Running} → Step r r' → IsBalanced slots r → IsBalanced slots r'
  Step-IsBalanced {r} (starts id aborted) h = begin_call-IsBalanced r id aborted h
  Step-IsBalanced {r} (cancels id) h = cancel-IsBalanced r id h
  Step-IsBalanced {r} (finishes id e) h =
      settle_call-IsBalanced_from r.semaphore.available r.semaphore.waiters r.active id e h

  Reachable-IsBalanced : {r : Running} → Reachable slots r → IsBalanced slots r
  Reachable-IsBalanced here = record { balance = omega arith; busy = λ w. absurd (omega arith) }
  Reachable-IsBalanced (next r s) = Step-IsBalanced s (Reachable-IsBalanced r)

  -- In every state that starts, aborts and finishes lead to, at most as many callbacks run as there are
  -- slots, which is at least one, and exactly as many while any call waits.
  pub Reachable-bounds :
      (r : Running)
      → Reachable slots r
      → (length r.active ≤ slots_of slots)
        × (0 < length r.semaphore.waiters → length r.active ≡ slots_of slots)
  Reachable-bounds r k =
      let h = Reachable-IsBalanced k in
      (omega (arith, h.balance), λ w. omega (arith, h.balance, h.busy w))
