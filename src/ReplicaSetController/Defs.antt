-- ===== src/ReplicaSetController/Defs.antt =====
-- `ReplicaSetController` (controller.rs). The two stores are arguments, the requests to the API
-- server a result: no handler does anything after the answer to one but log it.
use Prim.Native.Nat.{compare, Ordering, lt, eq, gt}
use Prim.Native.String
use r_mini_k8s.Prelude.{
  Outcome, ok, error, panics, ◌>>=◌, ℕ, ◌%◌, String, Bool, true, false, not, Option, none, some,
  List, [], ◌∷◌, ◌++◌, string_eq, nat_eq, ◌==◌, filter, count, length, any, if◌then◌else◌, u32_mod,
}
use r_mini_k8s.Prelude.HashMap.{HashMap, values, get}
use r_mini_k8s.Objects.{
  Pod, PodStatus, PodPhase, failed, pending, running, succeeded, phase_eq, is_ready, matches,
  ReplicaSet, ReplicaSetStatus, rs_status_eq, ObjectReference,
}

-- `Event` of controllers/src/utils.rs
pub data Event (T : Type 0) : Type 0 where
  add : T → Event T
  update : T → T → Event T
  delete : T → Event T

pub data Request : Type 0 where
  post_pod : Pod → Request
  delete_pod : String → Request
  put_status : ReplicaSet → Request

unfoldable pub get_pods : HashMap String Pod → ReplicaSet → List Pod
unfolding filter
get_pods store rs = filter (λ pod. matches pod.metadata.labels rs.spec.selector) (values store)

unfoldable pub calculate_status : HashMap String Pod → ReplicaSet → ReplicaSetStatus
unfolding get_pods count
calculate_status store rs =
    let pods = get_pods store rs in
    record { replicas = length pods % u32_mod; ready_replicas = count is_ready pods % u32_mod }

unfoldable pub update_replicaset : HashMap String Pod → ReplicaSet → Outcome (List Request)
unfolding calculate_status
update_replicaset store rs =
    let new_status = calculate_status store rs in
    elim rs.status [
      | none ↦ error
      | some status ↦ ok (
          if new_status == status
          then []
          else put_status (record rs { status = some new_status }) ∷ [])
    ]

-- The pod that `create_pod` posts.
unfoldable pub new_pod : ReplicaSet → Pod
new_pod rs =
    let template = rs.spec.template in
    record {
      metadata = record (template.metadata) {
        owner_references =
            template.metadata.owner_references
            ++ record { kind = "ReplicaSet"; name = rs.metadata.name } ∷ [];
      };
      spec = template.spec;
      status = none;
    }

-- The table `order` of `get_pod_to_delete`.
unfoldable pub phase_order : PodPhase → ℕ
phase_order failed = 0
phase_order pending = 1
phase_order running = 2
phase_order succeeded = 3

abbrev compare_bool : Bool → Bool → Ordering
compare_bool false true = lt
compare_bool true false = gt
compare_bool _ _ = eq

abbrev differ : Bool → Bool → Bool
differ a b = if a then not b else b

-- The comparison that sorts the pods, each with its status.
unfoldable pub compare_pods : Pod × PodStatus → Pod × PodStatus → Ordering
unfolding phase_order
compare_pods (a, status_a) (b, status_b) =
    if not (status_a.phase == status_b.phase)
    then compare (phase_order status_a.phase) (phase_order status_b.phase)
    else if differ (is_ready a) (is_ready b)
    then compare_bool (is_ready a) (is_ready b)
    else compare status_a.start_time status_b.start_time

abbrev pub is_greater : Ordering → Bool
is_greater gt = true
is_greater _ = false

-- `sort_by`, which is stable: an element moves right past those it is greater than.
unfoldable pub insert_sorted : Pod × PodStatus → List (Pod × PodStatus) → List (Pod × PodStatus)
insert_sorted p [] = p ∷ []
insert_sorted p (q ∷ qs) =
    let rest = insert_sorted p qs in if is_greater (compare_pods p q) then q ∷ rest else p ∷ q ∷ qs

unfoldable pub sort_pods : List (Pod × PodStatus) → List (Pod × PodStatus)
unfolding insert_sorted
sort_pods [] = []
sort_pods (p ∷ ps) = insert_sorted p (sort_pods ps)

-- The `unwrap` of each status, `none` if one of them panics.
unfoldable pub with_statuses : List Pod → Option (List (Pod × PodStatus))
with_statuses [] = some []
with_statuses (pod ∷ pods) = elim (with_statuses pods) [
  | none ↦ none
  | some rest ↦ elim pod.status [ none ↦ none | some status ↦ some ((pod, status) ∷ rest) ]
]

abbrev pub first_name : List (Pod × PodStatus) → Outcome String
first_name [] = panics
first_name ((pod, _) ∷ _) = ok pod.metadata.name

unfoldable pub first_sorted : Option (List (Pod × PodStatus)) → Outcome String
unfolding sort_pods
first_sorted none = panics
first_sorted (some ps) = first_name (sort_pods ps)

-- A single pod is not compared with any, so its status is not looked at.
unfoldable pub least_of : List Pod → Outcome String
unfolding with_statuses first_sorted
least_of [] = panics
least_of (pod ∷ []) = ok pod.metadata.name
least_of pods = first_sorted (with_statuses pods)

unfoldable pub get_pod_to_delete : HashMap String Pod → ReplicaSet → Outcome String
unfolding get_pods least_of
get_pod_to_delete store rs = least_of (get_pods store rs)

unfoldable pub reconcile : HashMap String Pod → ReplicaSet → Outcome (List Request)
unfolding new_pod get_pod_to_delete
reconcile store rs = elim rs.status [
  | none ↦ error
  | some status ↦ elim (compare status.replicas rs.spec.replicas) [
    | lt ↦ ok (post_pod (new_pod rs) ∷ [])
    | gt ↦ get_pod_to_delete store rs >>= λ name. ok (delete_pod name ∷ [])
    | eq ↦ ok []
  ]
]

unfoldable pub handle_rs_event : HashMap String Pod → Event ReplicaSet → Outcome (List Request)
unfolding reconcile
handle_rs_event store (add rs) = reconcile store rs
handle_rs_event store (update _ rs) = reconcile store rs
handle_rs_event store (delete rs) =
    reconcile store (record rs { spec = record (rs.spec) { replicas = 0 } })

abbrev pub only_one : List ObjectReference → Option ObjectReference
only_one (r ∷ []) = some r
only_one _ = none

unfoldable pub resolve_owner : HashMap String ReplicaSet → List ObjectReference → Option ReplicaSet
unfolding get filter
resolve_owner store refs =
    elim (only_one (filter (λ (r : ObjectReference). r.kind == "ReplicaSet") refs)) [
      | none ↦ none
      | some owner ↦ get (String.◌++◌ "/api/v1/replicasets/" owner.name) store
    ]

unfoldable pub handle_pod_change :
    HashMap String ReplicaSet → HashMap String Pod → Pod → Outcome (List Request)
unfolding resolve_owner update_replicaset
handle_pod_change rs_store store pod = elim (resolve_owner rs_store pod.metadata.owner_references) [
  | none ↦ ok []
  | some owner ↦ update_replicaset store owner
]

-- An error is logged.
abbrev pub requests_of : Outcome (List Request) → List Request
requests_of (ok requests) = requests
requests_of _ = []

unfoldable pub resync_rs : HashMap String Pod → List ReplicaSet → List Request
unfolding update_replicaset
resync_rs store [] = []
resync_rs store (rs ∷ rest) = requests_of (update_replicaset store rs) ++ resync_rs store rest

-- `done` is `rs_to_resync`.
unfoldable pub resync_pod :
    HashMap String ReplicaSet → HashMap String Pod → List String → List Pod → List Request
unfolding resolve_owner update_replicaset any
resync_pod rs_store store done [] = []
resync_pod rs_store store done (pod ∷ pods) =
    elim (resolve_owner rs_store pod.metadata.owner_references) [
      | none ↦ resync_pod rs_store store done pods
      | some owner ↦
          if any (λ name. name == owner.metadata.name) done
          then resync_pod rs_store store done pods
          else requests_of (update_replicaset store owner)
            ++ resync_pod rs_store store (owner.metadata.name ∷ done) pods
    ]
