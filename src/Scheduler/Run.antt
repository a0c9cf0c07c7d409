-- ===== src/Scheduler/Run.antt =====
-- scheduler/src/scheduler.rs: one turn of the `select!` loop for each input.
use r_mini_k8s.Prelude.{
  ℕ, Bool, true, false, Option, none, some, List, [], ◌∷◌, ◌++◌, if◌then◌else◌, leb, length,
}
use r_mini_k8s.Prelude.HashMap.{values}
use r_mini_k8s.Objects.{Pod, Node, Binding, ObjectReference, NaiveDateTime}
use r_mini_k8s.Scheduler.Cache
use r_mini_k8s.Scheduler.Cache.{Cache}

pub data PodUpdate : Type 0 where
  add : Pod → PodUpdate
  update : Pod → Pod → PodUpdate
  delete : Pod → PodUpdate

pub data NodeUpdate : Type 0 where
  add : Node → NodeUpdate
  update : Node → Node → NodeUpdate
  delete : Node → NodeUpdate

pub data ResyncNotification : Type 0 where
  enqueue_pods refresh_cache : ResyncNotification

-- What becomes of the POST of a binding: the API server carries it out, or answers an error that
-- `bind` logs and swallows, or the request or the reading of the error fails.
pub data BindOutcome : Type 0 where
  accepted refused failed : BindOutcome

-- The result of `bind`: is it `Ok`?
unfoldable pub bind : BindOutcome → Bool
bind accepted = true
bind refused = true
bind failed = false

-- The binding that `bind` posts.
abbrev binding_for : Pod → ObjectReference → Binding
binding_for pod node = record { metadata = pod.metadata; target = node }

-- What `handle_pod_add` does with the answer of the algorithm: the cache, and the binding posted.
schedule : Cache → Pod → BindOutcome → Option ObjectReference → Cache × Option Binding
unfolding bind Cache.handle_pod_add
schedule cache pod outcome none = (cache, none)
schedule cache pod outcome (some node) = (
  if bind outcome then Cache.handle_pod_add cache node.name else cache,
  some (binding_for pod node),
)

module _ (algorithm : Pod → Cache → Option ObjectReference) where
  unfoldable pub handle_pod_add : Cache → Pod → BindOutcome → Cache × Option Binding
  unfolding schedule
  handle_pod_add cache pod outcome = elim pod.spec.node_name [
    | some _ ↦ (cache, none)
    | none ↦ schedule cache pod outcome (algorithm pod cache)
  ]

  unfoldable pub handle_pod_change : Cache → PodUpdate → BindOutcome → Cache × Option Binding
  unfolding handle_pod_add Cache.handle_pod_delete
  handle_pod_change cache (add pod) outcome = handle_pod_add cache pod outcome
  handle_pod_change cache (update _ _) outcome = (cache, none)
  handle_pod_change cache (delete pod) outcome = (Cache.handle_pod_delete cache pod, none)

unfoldable pub handle_node_change : NaiveDateTime → Cache → NodeUpdate → Cache
unfolding Cache.handle_node_add Cache.handle_node_update Cache.handle_node_delete
handle_node_change now cache (NodeUpdate.add node) = Cache.handle_node_add now cache node
handle_node_change now cache (NodeUpdate.update _ node) = Cache.handle_node_update now cache node
handle_node_change now cache (NodeUpdate.delete node) = Cache.handle_node_delete cache node

-- The capacity of the pod queue: `mpsc::channel::<PodUpdate>(16)` in informer.rs.
abbrev pub capacity : ℕ
capacity = 16

-- The loop that puts every pod of the store into the scheduler's own queue. `send` waits while the
-- queue is full, and the only receiver is the task that waits: `none` is that it waits for ever.
-- (The informer may fill the queue further meanwhile; that only takes room away.)
unfoldable pub enqueue_all : List PodUpdate → List Pod → Option (List PodUpdate)
enqueue_all queue [] = some queue
enqueue_all queue (pod ∷ pods) =
    let rest = enqueue_all (queue ++ add pod ∷ []) pods in
    if leb capacity (length queue) then none else rest

-- The branch of the loop for a resync notification: the cache and the queue after it.
unfoldable pub handle_resync :
    NaiveDateTime → Cache → List PodUpdate → ResyncNotification → Option (Cache × List PodUpdate)
unfolding enqueue_all Cache.refresh
handle_resync now cache queue enqueue_pods = elim (enqueue_all queue (values cache.pod_cache)) [
  | none ↦ none
  | some queue' ↦ some (cache, queue')
]
handle_resync now cache queue refresh_cache = some (Cache.refresh now cache, queue)
