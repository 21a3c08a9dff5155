-- ===== src/Orchestration/Parallel/Tests.antt =====
-- One slot and two calls.
use pi_persona.Base.{◌==◌, ◌≡◌, refl, ◌≤◌, ◌<◌, true, false, [], ◌∷◌, length, any}
use pi_persona.Orchestration.Parallel.{
  Running, slots_of, idle, begin_call, settle_call, acquire, release_slot, hand_on, granted_to,
  remove_first,
}
use pi_persona.Orchestration.Parallel.Slots.{here, next, starts, finishes, Reachable-bounds}

abbrev both : Running
both = begin_call (begin_call (idle 1) 5 false) 6 false

holds : any (λ x. x == 5) both.active ≡ true
unfolding begin_call acquire
holds = refl

handed_on : (settle_call both 5).active ≡ 6 ∷ []
unfolding begin_call acquire settle_call release_slot hand_on granted_to remove_first
handed_on = refl

Reachable-bounds_example :
    (length (settle_call both 5).active ≤ slots_of 1)
    × (0 < length (settle_call both 5).semaphore.waiters
        → length (settle_call both 5).active ≡ slots_of 1)
Reachable-bounds_example =
    Reachable-bounds 1 (settle_call both 5)
      (next (next (next here (starts 5 false)) (starts 6 false)) (finishes 5 holds))
