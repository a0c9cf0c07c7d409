-- ===== src/Scheduler/Counts.antt =====
-- The pod counts of the node states.
use r_mini_k8s.Prelude.{
  ℕ, ◌+◌, ◌%◌, String, ◌≡◌, ap, ◌∙◌, refl, Option, none, some, List, [], ◌∷◌, arith, count,
  string_eq, option_eq, ◌==◌, if◌then◌else◌, u32_mod,
}
use mathlib.Core.Option
use r_mini_k8s.Prelude.HashMap.{HashMap, values, get, insert, get-insert, get-insert_self}
use r_mini_k8s.Objects.{Pod, Node, NaiveDateTime, node_is_ready}
use r_mini_k8s.Scheduler.Cache
use r_mini_k8s.Scheduler.Cache.{
  NodeState, Cache, calculate_node_state, count_pods, states_of, refresh,
}

-- The number of pods whose specification names the node.
abbrev pub pods_on : String → List Pod → ℕ
pods_on name pods = count (λ pod. pod.spec.node_name == some name) pods

count_pods_lem :
    (name : String) (n : ℕ) (pods : List Pod)
    → count_pods name (n % u32_mod) pods ≡ (n + pods_on name pods) % u32_mod
unfolding count_pods count
count_pods_lem name n [] = omega arith
count_pods_lem name n (pod ∷ pods) =
    ground (arith, count_pods_lem name n pods, count_pods_lem name (n + 1) pods)

-- The state that a node has after a refresh.
abbrev pub fresh_state : NaiveDateTime → List Pod → Node → NodeState
fresh_state now pods node = record {
  name = node.metadata.name;
  labels = node.metadata.labels;
  is_ready = node_is_ready now node;
  pod_count = pods_on node.metadata.name pods % u32_mod;
}

fresh_state_lem :
    (now : NaiveDateTime) (pods : HashMap String Pod) (node : Node)
    → calculate_node_state now pods node ≡ fresh_state now (values pods) node
unfolding calculate_node_state
fresh_state_lem now pods node =
    ap
      (λ (n : ℕ). record {
        name = node.metadata.name;
        labels = node.metadata.labels;
        is_ready = node_is_ready now node;
        pod_count = n;
      })
      (count_pods_lem node.metadata.name 0 (values pods) ∙ omega arith)

-- The last node of that name.
abbrev pub last_named : Option Node → String → List Node → Option Node
last_named before name [] = before
last_named before name (node ∷ nodes) =
    last_named (if string_eq.beq node.metadata.name name then some node else before) name nodes

get-states_of :
    (now : NaiveDateTime) (pods : HashMap String Pod) (before : Option Node)
    (states : HashMap String NodeState) (nodes : List Node) (name : String)
    → get name states ≡ Option.map (fresh_state now (values pods)) before
    → get name (states_of now pods states nodes)
      ≡ Option.map (fresh_state now (values pods)) (last_named before name nodes)
unfolding states_of
get-states_of now pods before states [] name h = h
get-states_of now pods before states (node ∷ nodes) name h =
    get-states_of now pods (if string_eq.beq node.metadata.name name then some node else before)
      (insert node.metadata.name (calculate_node_state now pods node) states) nodes name
      (ground (
        arith,
        get-insert node.metadata.name name (calculate_node_state now pods node) states,
        fresh_state_lem now pods node,
        h,
      ))

-- After a refresh the state under a name is that of the cached node of that name (the last one, if
-- several have it): its labels, its readiness, and the number of cached pods that are assigned to
-- it, as a `u32`. Under any other name there is no state.
pub get-refresh :
    (now : NaiveDateTime) (c : Cache) (name : String)
    → get name (refresh now c).node_states
      ≡ Option.map
          (fresh_state now (values c.pod_cache))
          (last_named none name (values c.node_cache))
unfolding refresh get
get-refresh now c name = get-states_of now c.pod_cache none [] (values c.node_cache) name refl

-- A node that is added starts with a count of 0, also if pods are assigned to it already. The
-- deletion of such a pod, as the next event, takes the count to 2^32 - 1.
pub handle_pod_delete_wraps :
    (now : NaiveDateTime) (c : Cache) (node : Node) (pod : Pod)
    → pod.spec.node_name ≡ some node.metadata.name
    → get node.metadata.name
        (Cache.handle_pod_delete (Cache.handle_node_add now c node) pod).node_states
      ≡ some (record {
        name = node.metadata.name;
        labels = node.metadata.labels;
        is_ready = node_is_ready now node;
        pod_count = 4_294_967_295;
      })
unfolding Cache.handle_pod_delete Cache.handle_node_add
handle_pod_delete_wraps now c node pod h =
    rw (h, Cache.handle_pod_delete, get-insert_self) (rw get-insert_self refl)
