-- ===== src/Scheduler/Algorithm.antt =====
-- scheduler/src/algorithm: `simple` takes the ready, matching node with the fewest pods.
use r_mini_k8s.Prelude.{
  Bool, true, false, ◌&&◌, Option, none, some, List, [], ◌∷◌, if◌then◌else◌, ltb,
}
use r_mini_k8s.Prelude.HashMap.{values}
use r_mini_k8s.Objects.{Pod, ObjectReference, matches}
use r_mini_k8s.Scheduler.Cache.{NodeState, Cache}

unfoldable pub is_better_than : Option NodeState → Option NodeState → Bool
is_better_than none node2 = false
is_better_than (some a) none = true
is_better_than (some a) (some b) = ltb a.pod_count b.pod_count

-- The two filters of `simple`.
unfoldable pub eligible : Pod → NodeState → Bool
eligible pod state = state.is_ready && matches state.labels pod.spec.node_selector

-- One step of the `for_each` of `simple`, on a state that the filters have passed or not.
unfoldable pub consider : Pod → Option NodeState → NodeState → Option NodeState
unfolding is_better_than eligible
consider pod candidate state =
    if eligible pod state && is_better_than (some state) candidate then some state else candidate

-- The `for_each`, over the states in the map's order.
unfoldable pub choose : Pod → Option NodeState → List NodeState → Option NodeState
unfolding consider
choose pod candidate [] = candidate
choose pod candidate (state ∷ states) = choose pod (consider pod candidate state) states

abbrev pub reference_of : Option NodeState → Option ObjectReference
reference_of none = none
reference_of (some state) = some (record { kind = "node"; name = state.name })

unfoldable pub simple : Pod → Cache → Option ObjectReference
unfolding choose
simple pod cache = reference_of (choose pod none (values cache.node_states))

-- `dummy`: the algorithm that always answers the local host.
unfoldable pub dummy : Pod → Cache → Option ObjectReference
dummy pod cache = some (record { kind = "node"; name = "localhost" })
