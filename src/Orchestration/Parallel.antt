-- ===== src/Orchestration/Parallel.antt =====
-- orchestration/parallel.ts: the counting semaphore. A call of `with` has a number; its callback, which
-- runs while it holds a slot, is between its start and its finish. `Number.isFinite` and the floor are
-- those of a natural number.
pub mod Slots
mod Tests
use pi_persona.Base.{
  ℕ, zero, suc, ◌+◌, ◌-◌, Bool, true, false, Option, none, some, List, [], ◌∷◌, ◌++◌, ◌==◌, ltb,
  if◌then◌else◌, max, any,
}

pub record Semaphore : Type 0 where
  pub available : ℕ
  pub waiters : List ℕ

abbrev pub slots_of : ℕ → ℕ
slots_of slots = max 1 slots

-- `waiters.splice(waiters.indexOf(grant), 1)`, if it is there.
pub remove_first : ℕ → List ℕ → List ℕ
remove_first id [] = []
remove_first id (w ∷ ws) = if w == id then ws else w ∷ remove_first id ws

-- Whether the slot is granted at once; otherwise the call waits.
pub acquire : Semaphore → ℕ → Bool × Semaphore
acquire s id =
    if ltb 0 s.available
    then (true, record s { available = s.available - 1 })
    else (false, record s { waiters = s.waiters ++ (id ∷ []) })

-- The abort of a call that waits; one that holds a slot keeps it.
pub abort_wait : Semaphore → ℕ → Semaphore
unfolding remove_first
abort_wait s id = record s { waiters = remove_first id s.waiters }

-- The slot goes to the first waiter, or back.
pub hand_on : Semaphore → List ℕ → Option ℕ × Semaphore
hand_on s [] = (none, record s { available = s.available + 1 })
hand_on s (w ∷ ws) = (some w, record s { waiters = ws })

pub release_slot : Semaphore → Option ℕ × Semaphore
unfolding hand_on
release_slot s = hand_on s s.waiters

-- The semaphore and the calls whose callback runs.
pub record Running : Type 0 where
  pub semaphore : Semaphore
  pub active : List ℕ

abbrev pub idle : ℕ → Running
idle slots = record { semaphore = record { available = slots_of slots; waiters = [] }; active = [] }

-- A call of `with`; one whose signal is aborted already is refused.
pub begin_call : Running → ℕ → Bool → Running
unfolding acquire
begin_call r id aborted =
    let (granted, s) = acquire r.semaphore id in
    if aborted
    then r
    else if granted
    then record { semaphore = s; active = r.active ++ (id ∷ []) }
    else record r { semaphore = s }

pub cancel : Running → ℕ → Running
unfolding abort_wait
cancel r id = record r { semaphore = abort_wait r.semaphore id }

granted_to : Option ℕ → List ℕ → List ℕ
granted_to none active = active
granted_to (some w) active = active ++ (w ∷ [])

-- The callback of a call settles, and its slot is released.
pub settle_call : Running → ℕ → Running
unfolding release_slot remove_first granted_to
settle_call r id =
    let (next, s) = release_slot r.semaphore in
    record { semaphore = s; active = granted_to next (remove_first id r.active) }
