-- ===== src/Scheduler/Cache.antt =====
-- scheduler/src/cache.rs. A `Store` is shared with an informer; here it is the map at that moment.
use r_mini_k8s.Prelude.{
  ℕ, String, Bool, Option, none, some, List, [], ◌∷◌, string_eq, option_eq, ◌==◌, if◌then◌else◌,
  add_u32, sub_u32,
}
use r_mini_k8s.Prelude.HashMap.{HashMap, values, get, insert, remove}
use r_mini_k8s.Objects.{Pod, Node, Labels, NaiveDateTime, node_is_ready}

pub record NodeState : Type 0 where
  pub name : String
  pub labels : Labels
  pub is_ready : Bool
  pub pod_count : ℕ

pub record Cache : Type 0 where
  pub pod_cache : HashMap String Pod
  pub node_cache : HashMap String Node
  pub node_states : HashMap String NodeState

unfoldable pub new : HashMap String Pod → HashMap String Node → Cache
new pods nodes = record { pod_cache = pods; node_cache = nodes; node_states = [] }

-- The loop of `calculate_node_state`.
unfoldable pub count_pods : String → ℕ → List Pod → ℕ
count_pods node_name n [] = n
count_pods node_name n (pod ∷ pods) =
    count_pods node_name (if pod.spec.node_name == some node_name then add_u32 n 1 else n) pods

unfoldable pub calculate_node_state : NaiveDateTime → HashMap String Pod → Node → NodeState
unfolding count_pods node_is_ready
calculate_node_state now pods node = record {
  name = node.metadata.name;
  labels = node.metadata.labels;
  is_ready = node_is_ready now node;
  pod_count = count_pods node.metadata.name 0 (values pods);
}

-- The loop of `refresh`.
unfoldable pub states_of :
    NaiveDateTime
    → HashMap String Pod
    → HashMap String NodeState
    → List Node
    → HashMap String NodeState
unfolding calculate_node_state
states_of now pods states [] = states
states_of now pods states (node ∷ nodes) =
    states_of now pods (insert node.metadata.name (calculate_node_state now pods node) states) nodes

unfoldable pub refresh : NaiveDateTime → Cache → Cache
unfolding states_of
refresh now c = record c { node_states = states_of now c.pod_cache [] (values c.node_cache) }

abbrev set_count : Cache → String → (ℕ → ℕ) → Option NodeState → Cache
set_count c node_name f none = c
set_count c node_name f (some state) = record c {
  node_states = insert node_name (record state { pod_count = f state.pod_count }) c.node_states;
}

-- Through `get_mut` an entry is changed in place; an unknown node is logged.
unfoldable pub handle_pod_add : Cache → String → Cache
unfolding get insert
handle_pod_add c node_name = set_count c node_name (λ n. add_u32 n 1) (get node_name c.node_states)

unfoldable pub handle_pod_delete : Cache → Pod → Cache
unfolding get insert
handle_pod_delete c pod = elim pod.spec.node_name [
  | none ↦ c
  | some node_name ↦ set_count c node_name (λ n. sub_u32 n 1) (get node_name c.node_states)
]

unfoldable pub handle_node_add : NaiveDateTime → Cache → Node → Cache
unfolding insert node_is_ready
handle_node_add now c node = record c {
  node_states =
      insert node.metadata.name
        (record {
          name = node.metadata.name;
          labels = node.metadata.labels;
          is_ready = node_is_ready now node;
          pod_count = 0;
        })
        c.node_states;
}

unfoldable pub handle_node_update : NaiveDateTime → Cache → Node → Cache
unfolding insert calculate_node_state
handle_node_update now c node = record c {
  node_states = insert node.metadata.name (calculate_node_state now c.pod_cache node) c.node_states;
}

unfoldable pub handle_node_delete : Cache → Node → Cache
unfolding remove
handle_node_delete c node = record c { node_states = remove node.metadata.name c.node_states }
