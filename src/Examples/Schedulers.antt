-- ===== src/Examples/Schedulers.antt =====
-- The scheduler on a node and a few pods, and the labels that it matches.
use mathlib.Core.Option
use r_mini_k8s.Prelude.{
  ℕ, ◌+◌, ◌≤◌, ◌<◌, true, false, ◌≡◌, ◌⊎◌, ◌↔◌, refl, none, some, List, [], ◌∷◌, ◌++◌, string_eq,
  arith, map, length, All,
}
use r_mini_k8s.Prelude.HashMap.{get, values}
use r_mini_k8s.Objects.{matches, matches_iff, IncludedIn, Pod, node_is_ready}
use r_mini_k8s.Scheduler.Cache
use r_mini_k8s.Scheduler.Cache.{Cache, NodeState, refresh}
use r_mini_k8s.Scheduler.Algorithm.{simple, eligible}
use r_mini_k8s.Scheduler.Run.{PodUpdate, add, capacity, enqueue_all}
use r_mini_k8s.Scheduler.Least.{IsLeast, simple-IsLeast}
use r_mini_k8s.Scheduler.Balance.{IsBalanced, add_all, add_all-IsBalanced}
use r_mini_k8s.Scheduler.Counts.{fresh_state, get-refresh, handle_pod_delete_wraps}
use r_mini_k8s.Scheduler.Queue.{enqueue_all_lem}
use r_mini_k8s.Examples.Data.{web, new_pod, running_pod, node_1}

abbrev state_1 : NodeState
state_1 = record { name = "node-1"; labels = []; is_ready = true; pod_count = 3 }

abbrev cache_1 : Cache
cache_1 = record {
  pod_cache = ("/api/v1/pods/web-2", running_pod) ∷ [];
  node_cache = ("/api/v1/nodes/node-1", node_1) ∷ [];
  node_states = ("node-1", state_1) ∷ [];
}

matches_iff_example :
    (matches (("env", "test") ∷ web) web ≡ true) ↔ IncludedIn web (("env", "test") ∷ web)
unfolding get
matches_iff_example = matches_iff (("env", "test") ∷ web) web (refl, tt)

simple-IsLeast_example :
    ((simple new_pod cache_1 ≡ none)
      × All (λ s. eligible new_pod s ≡ false) (values cache_1.node_states))
    ⊎ ((best : NodeState) × (simple new_pod cache_1
          ≡ some (record { kind = "node"; name = best.name }))
        × IsLeast new_pod (values cache_1.node_states) best)
simple-IsLeast_example = simple-IsLeast new_pod cache_1

abbrev two_pods : List Pod
two_pods = new_pod ∷ new_pod ∷ []

state_1-IsBalanced : IsBalanced two_pods 3 cache_1.node_states
unfolding eligible get matches
state_1-IsBalanced = record {
  distinct = (refl, tt);
  filed = (refl, tt);
  fit = ((refl, tt), ((refl, tt), tt));
  level = (ground arith, tt);
}

add_all-IsBalanced_example : (low : ℕ) × IsBalanced [] low (add_all cache_1 two_pods).node_states
add_all-IsBalanced_example =
    add_all-IsBalanced two_pods 3 cache_1 (refl, (refl, tt)) (ground arith) state_1-IsBalanced

get-refresh_example :
    get "node-1" (refresh 200 cache_1).node_states
    ≡ Option.map (fresh_state 200 (running_pod ∷ [])) (some node_1)
get-refresh_example = get-refresh 200 cache_1 "node-1"

handle_pod_delete_wraps_example :
    get "node-1"
      (Cache.handle_pod_delete (Cache.handle_node_add 200 cache_1 node_1) running_pod).node_states
    ≡ some (record {
      name = "node-1";
      labels = [];
      is_ready = node_is_ready 200 node_1;
      pod_count = 4_294_967_295;
    })
handle_pod_delete_wraps_example = handle_pod_delete_wraps 200 cache_1 node_1 running_pod refl

abbrev waiting : List PodUpdate
waiting = add new_pod ∷ []

enqueue_all_lem_example :
    (length waiting + length two_pods ≤ capacity
      → enqueue_all waiting two_pods ≡ some (waiting ++ map add two_pods))
    × (capacity < length waiting + length two_pods → enqueue_all waiting two_pods ≡ none)
enqueue_all_lem_example = enqueue_all_lem waiting two_pods (ground arith)
