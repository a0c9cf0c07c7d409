-- ===== src/NodeAgent/Resync.antt =====
-- The pod worker's own queue on a resync.
use r_mini_k8s.Prelude.{
  ◌+◌, ◌≤◌, ◌<◌, ◌≡◌, refl, false, none, some, List, [], ◌∷◌, ◌++◌, arith, length, length-append,
  map, filter, count, String, string_eq, unit_eq, leb, Bool-cases, inl, inr,
}
use mathlib.Core.List.{append_assoc, append-nil}
use r_mini_k8s.Prelude.HashMap.{HashMap, HashSet, insert, values}
use r_mini_k8s.Objects.{Pod, is_on_node}
use r_mini_k8s.NodeAgent.Worker.{PodUpdate, update, capacity, resync_all, handle_resync}

-- The updates that a resync sends.
abbrev pub resent : List Pod → List PodUpdate
resent pods = map (λ pod. update pod pod) pods

resync_all-fits :
    (node : String) (names : HashSet String) (queue : List PodUpdate) (pods : List Pod)
    → length queue + count (λ pod. is_on_node pod node) pods ≤ capacity
    → (names' : HashSet String) × (resync_all node names queue pods
        ≡ some (names', queue ++ resent (filter (λ pod. is_on_node pod node) pods)))
unfolding resync_all count filter
resync_all-fits node names queue [] h = (names, rw append-nil refl)
resync_all-fits node names queue (pod ∷ pods) h = elim (Bool-cases (is_on_node pod node)) [
  | inr e ↦
      let (names', e') = resync_all-fits node names queue pods (ground arith) in (names', rw e e')
  | inl e ↦
      let sent = update pod pod ∷ [] in
      let here : List Pod = filter (λ pod. is_on_node pod node) pods in
      let full : leb capacity (length queue) ≡ false = ground arith in
      let (names', e') =
        resync_all-fits node (insert pod.metadata.name tt names) (queue ++ sent) pods
          (ground (arith, length-append queue sent)) in
      (names', rw (e, full, ← append_assoc queue sent (resent here)) e')
]

resync_all-waits :
    (node : String) (names : HashSet String) (queue : List PodUpdate) (pods : List Pod)
    → length queue ≤ capacity
    → capacity < length queue + count (λ pod. is_on_node pod node) pods
    → resync_all node names queue pods ≡ none
unfolding resync_all count
resync_all-waits node names queue [] q h = absurd (omega arith)
resync_all-waits node names queue (pod ∷ pods) q h = ground (
  arith,
  length-append queue (update pod pod ∷ []),
  resync_all-waits node names queue pods q,
  resync_all-waits node (insert pod.metadata.name tt names) (queue ++ update pod pod ∷ []) pods,
)

-- On a queue within its capacity of 16, a resync sends the worker an update for each pod of the
-- store that is on its node, in order, if all of them fit; if they do not, the worker waits on
-- itself for ever.
pub handle_resync_lem :
    (node : String) (store : HashMap String Pod) (names : HashSet String) (queue : List PodUpdate)
    → length queue ≤ capacity
    → (length queue + count (λ pod. is_on_node pod node) (values store) ≤ capacity
        → (names' : HashSet String) × (handle_resync node store names queue
            ≡ some (names', queue ++ resent (filter (λ pod. is_on_node pod node) (values store)))))
      × (capacity < length queue + count (λ pod. is_on_node pod node) (values store)
          → handle_resync node store names queue ≡ none)
unfolding handle_resync
handle_resync_lem node store names queue q = (
  resync_all-fits node names queue (values store),
  resync_all-waits node names queue (values store) q,
)
