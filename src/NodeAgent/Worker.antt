-- ===== src/NodeAgent/Worker.antt =====
-- `PodWorker` (pod_worker.rs) and one round of `StatusManager` (status_manager.rs). The set of names
-- that they share is an argument. What a pod's own methods report is logged and dropped; a panic
-- of theirs ends the worker.
use r_mini_k8s.Prelude.{
  ℕ, String, Bool, true, false, ◌&&◌, not, Option, none, some, List, [], ◌∷◌, ◌++◌, if◌then◌else◌,
  string_eq, unit_eq, Outcome, ok, error, panics, length, leb,
}
use Prim.Native.String
use r_mini_k8s.Prelude.HashMap.{HashMap, HashSet, get, insert, remove, contains_key, values}
use r_mini_k8s.Objects.{Pod, is_on_node, NaiveDateTime}
use r_mini_k8s.NodeAgent.Docker.{Host, Agent, pure, lift, ◌>>=◌, ◌>>◌, attempt, run, put_pod}
use r_mini_k8s.NodeAgent.Naming.{NodePod, load, object}
use r_mini_k8s.NodeAgent.Lifecycle.{create_pod, start_pod, remove_pod, reconcile, update_status}

-- models.rs
pub data PodUpdate : Type 0 where
  add : Pod → PodUpdate
  update : Pod → Pod → PodUpdate
  delete : Pod → PodUpdate

-- `mpsc::channel::<PodUpdate>(16)` of main.rs
abbrev pub capacity : ℕ
capacity = 16

-- The loop of `handle_resync`. A `send` waits while the queue is full, and the only receiver is the
-- task that waits: `none` is that it waits for ever. (The informer sends to the same queue
-- meanwhile; that only takes room away.)
unfoldable pub resync_all :
    String → HashSet String → List PodUpdate → List Pod → Option (HashSet String × List PodUpdate)
unfolding is_on_node insert
resync_all node pods queue [] = some (pods, queue)
resync_all node pods queue (pod ∷ rest) =
    let sent =
      resync_all node (insert pod.metadata.name tt pods) (queue ++ update pod pod ∷ []) rest in
    let skipped = resync_all node pods queue rest in
    if is_on_node pod node then if leb capacity (length queue) then none else sent else skipped

unfoldable pub handle_resync :
    String
    → HashMap String Pod
    → HashSet String
    → List PodUpdate
    → Option (HashSet String × List PodUpdate)
unfolding resync_all
handle_resync node store pods queue = resync_all node pods queue (values store)

module _ (host : Host) (now : NaiveDateTime) (node : String) where
  -- A pod that was created is started.
  abbrev pub start_created : Option NodePod → Agent (Option Unit)
  unfolding start_pod
  start_created none = pure none
  start_created (some pod) = attempt (start_pod host pod)

  -- By whether the pod is on this node
  unfoldable pub add_if : Bool → Pod → HashSet String → Agent (HashSet String)
  unfolding insert create_pod start_pod
  add_if false pod pods = pure pods
  add_if true pod pods = do
    created ← attempt (create_pod host now pod)
    start_created created
    pure (insert pod.metadata.name tt pods)

  unfoldable pub handle_pod_add : Pod → HashSet String → Agent (HashSet String)
  unfolding is_on_node add_if
  handle_pod_add pod = add_if (is_on_node pod node) pod

  -- The name is out of the set while the pod is reconciled.
  unfoldable pub reconcile_loaded :
      String → HashSet String → Outcome NodePod → Agent (HashSet String)
  unfolding reconcile insert remove
  reconcile_loaded name pods (ok pod) = do
    attempt (reconcile host pod)
    pure (insert name tt (remove name pods))
  reconcile_loaded name pods error = pure pods
  reconcile_loaded name pods panics = lift panics

  -- By whether the pod is in the set
  unfoldable pub update_if : Bool → Pod → HashSet String → Agent (HashSet String)
  unfolding reconcile_loaded load
  update_if false pod pods = pure pods
  update_if true pod pods = reconcile_loaded pod.metadata.name pods (load pod)

  unfoldable pub handle_pod_update : Pod → Pod → HashSet String → Agent (HashSet String)
  unfolding is_on_node handle_pod_add contains_key update_if
  handle_pod_update old_pod pod pods =
      if not (is_on_node old_pod node) && is_on_node pod node
      then handle_pod_add pod pods
      else update_if (contains_key pod.metadata.name pods) pod pods

  abbrev remove_loaded : Outcome NodePod → Agent (Option Unit)
  unfolding remove_pod
  remove_loaded (ok pod) = attempt (remove_pod host pod)
  remove_loaded error = pure none
  remove_loaded panics = lift panics

  unfoldable pub delete_if : Bool → Pod → HashSet String → Agent (HashSet String)
  unfolding remove remove_pod load
  delete_if false pod pods = pure pods
  delete_if true pod pods = do remove_loaded (load pod); pure (remove pod.metadata.name pods)

  unfoldable pub handle_pod_delete : Pod → HashSet String → Agent (HashSet String)
  unfolding is_on_node delete_if
  handle_pod_delete pod = delete_if (is_on_node pod node) pod

  unfoldable pub handle_update : PodUpdate → HashSet String → Agent (HashSet String)
  unfolding handle_pod_add handle_pod_update handle_pod_delete
  handle_update (add pod) pods = handle_pod_add pod pods
  handle_update (update old_pod new_pod) pods = handle_pod_update old_pod new_pod pods
  handle_update (delete pod) pods = handle_pod_delete pod pods

  -- The updates in the order in which they are received
  unfoldable pub handle_all : List PodUpdate → HashSet String → Agent (HashSet String)
  unfolding handle_update
  handle_all [] pods = pure pods
  handle_all (u ∷ updates) pods = do pods' ← handle_update u pods; handle_all updates pods'

-- `StatusManager::post_status`, if the status changed; an error is only logged.
abbrev post_changed : Host → Option (NodePod × Bool) → Agent (Option Unit)
unfolding object
post_changed host none = pure none
post_changed host (some (pod, changed)) =
    if changed then attempt (run host (put_pod (object pod))) else pure none

-- One round of `StatusManager::run`. A pod that cannot be loaded is an error that ends the manager.
unfoldable pub status_round : Host → HashMap String Pod → List String → Agent Unit
unfolding update_status load get object
status_round host store [] = pure tt
status_round host store (name ∷ names) = elim (get (String.◌++◌ "/api/v1/pods/" name) store) [
  | none ↦ status_round host store names
  | some stored ↦ do
    pod ← lift (load stored)
    updated ← attempt (update_status host pod)
    post_changed host updated
    status_round host store names
]
