-- ===== src/Scheduler/Queue.antt =====
-- The scheduler's own pod queue on a resync.
use r_mini_k8s.Prelude.{
  ◌+◌, ◌≤◌, ◌<◌, ◌≡◌, none, some, List, [], ◌∷◌, ◌++◌, arith, length, length-append, map,
}
use mathlib.Core.List.{append_assoc, append-nil}
use r_mini_k8s.Objects.{Pod}
use r_mini_k8s.Scheduler.Run.{PodUpdate, add, capacity, enqueue_all}

enqueue_all-fits :
    (queue : List PodUpdate) (pods : List Pod)
    → length queue + length pods ≤ capacity
    → enqueue_all queue pods ≡ some (queue ++ map add pods)
unfolding enqueue_all
enqueue_all-fits queue [] h = rw append-nil
enqueue_all-fits queue (pod ∷ pods) h = ground (
  arith,
  enqueue_all-fits (queue ++ add pod ∷ []) pods (omega (arith, length-append queue (add pod ∷ []))),
  append_assoc queue (add pod ∷ []) (map add pods),
)

enqueue_all-waits :
    (queue : List PodUpdate) (pods : List Pod)
    → length queue ≤ capacity
    → capacity < length queue + length pods
    → enqueue_all queue pods ≡ none
unfolding enqueue_all
enqueue_all-waits queue [] q h = absurd (omega arith)
enqueue_all-waits queue (pod ∷ pods) q h =
    ground
      (arith, length-append queue (add pod ∷ []), enqueue_all-waits (queue ++ add pod ∷ []) pods)

-- On a queue within its capacity of 16, the resync puts every pod of the store at the end of the
-- queue, in order, if all of them fit; if they do not, the scheduler waits on itself for ever.
pub enqueue_all_lem :
    (queue : List PodUpdate) (pods : List Pod)
    → length queue ≤ capacity
    → (length queue + length pods ≤ capacity
        → enqueue_all queue pods ≡ some (queue ++ map add pods))
      × (capacity < length queue + length pods → enqueue_all queue pods ≡ none)
enqueue_all_lem queue pods q = (enqueue_all-fits queue pods, enqueue_all-waits queue pods q)
