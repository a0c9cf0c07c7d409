-- ===== src/GpuJobController/Defs.antt =====
-- `GpuJobController` (controller.rs). The stores are arguments, the requests to the API server a
-- result. What files, docker and the download of the code come to is the argument `prepared`.
use Prim.Native.Nat.{compare, Ordering, lt, eq, gt}
use Prim.Native.String
use r_mini_k8s.Prelude.{
  Outcome, ok, error, panics, ◌>>=◌, ℕ, ◌%◌, String, Bool, false, ◌&&◌, not, Option, none, some,
  List, [], ◌∷◌, ◌++◌, string_eq, nat_eq, ◌==◌, filter, count, any, if◌then◌else◌, u32_mod, sub_u32,
  min,
}
use r_mini_k8s.Prelude.HashMap.{HashMap, values, get}
use r_mini_k8s.Objects.{
  Pod, PodStatus, PodPhase, failed, succeeded, phase_eq, is_active, GpuJob, GpuJobStatus,
  PodTemplateSpec, ObjectReference, RestartPolicy, if_not_present, default_container,
  default_pod_spec,
}
use r_mini_k8s.ReplicaSetController.Defs.{Event, add, update, delete, least_of, only_one}
use r_mini_k8s.GpuJobController.Files.{get_job_status}

pub data Request : Type 0 where
  post_pod : Pod → Request
  delete_pod : String → Request
  put_status : GpuJob → Request

-- `job.object_reference()`
abbrev pub reference : GpuJob → ObjectReference
reference job = record { kind = "GpuJob"; name = job.metadata.name }

abbrev pub same_reference : ObjectReference → ObjectReference → Bool
same_reference a b = a.kind == b.kind && a.name == b.name

-- `owner_references.contains(&job.object_reference())`
unfoldable pub is_owned : GpuJob → Pod → Bool
unfolding any
is_owned job pod = any (λ r. same_reference r (reference job)) pod.metadata.owner_references

unfoldable pub get_pods : HashMap String Pod → GpuJob → List Pod
unfolding filter is_owned
get_pods store job = filter (is_owned job) (values store)

unfoldable pub get_active_pods : HashMap String Pod → GpuJob → List Pod
unfolding filter is_owned is_active
get_active_pods store job = filter (λ pod. is_active pod && is_owned job pod) (values store)

abbrev pub phase_is : (PodPhase → Bool) → Option PodStatus → Bool
phase_is p none = false
phase_is p (some status) = p status.phase

abbrev pub has_failed : Pod → Bool
has_failed pod = phase_is (λ phase. phase == failed) pod.status

abbrev pub has_succeeded : Pod → Bool
has_succeeded pod = phase_is (λ phase. phase == succeeded) pod.status

abbrev pub counts_active : Pod → Bool
counts_active pod = phase_is (λ phase. not (phase == failed) && not (phase == succeeded)) pod.status

-- The counters are `u32`. A pod without a status is not counted.
unfoldable pub counted_status : List Pod → GpuJobStatus → GpuJobStatus
unfolding count
counted_status pods status = record status {
  active = count counts_active pods % u32_mod;
  failed = count has_failed pods % u32_mod;
  succeeded = count has_succeeded pods % u32_mod;
}

unfoldable pub counted_or_panic : List Pod → Option GpuJobStatus → Outcome GpuJobStatus
unfolding counted_status
counted_or_panic pods none = panics
counted_or_panic pods (some status) = ok (counted_status pods status)

unfoldable pub calculate_status : HashMap String Pod → GpuJob → Outcome GpuJobStatus
unfolding get_pods counted_or_panic
calculate_status store job = counted_or_panic (get_pods store job) job.status

-- `GpuJobStatus::eq` for statuses that differ in the counters only
abbrev pub same_counts : GpuJobStatus → GpuJobStatus → Bool
same_counts a b = a.active == b.active && a.failed == b.failed && a.succeeded == b.succeeded

unfoldable pub update_gpujob : HashMap String Pod → GpuJob → Outcome (List Request)
unfolding calculate_status get_job_status
update_gpujob store job = do
  new_status ← calculate_status store job
  status ← get_job_status job
  ok (
      if same_counts new_status status
      then []
      else put_status (record job { status = some new_status }) ∷ [])

-- The template that `create_pod_template` puts into the status
unfoldable pub pod_template : String → GpuJob → PodTemplateSpec
pod_template image_name job = record {
  metadata = record {
    name = job.metadata.name;
    uid = none;
    labels = [];
    owner_references = reference job ∷ [];
  };
  spec = record default_pod_spec {
    containers =
        record default_container {
          name = job.metadata.name;
          image = image_name;
          image_pull_policy = some if_not_present;
        }
        ∷ [];
    restart_policy = RestartPolicy.never;
  };
}

-- `prepared` is the tag of the image, or the error of the preparation.
unfoldable pub create_pod_template : Outcome String → GpuJob → Outcome (List Request)
unfolding pod_template get_job_status
create_pod_template prepared job = do
  image_name ← prepared
  status ← get_job_status job
  let new_status : GpuJobStatus = record status { template = some (pod_template image_name job) }
  ok (put_status (record job { status = some new_status }) ∷ [])

abbrev posted : Option PodTemplateSpec → Outcome (List Request)
posted none = error
posted (some template) =
    ok
      (post_pod (record { metadata = template.metadata; spec = template.spec; status = none }) ∷ [])

unfoldable pub create_pod : GpuJob → Outcome (List Request)
unfolding get_job_status
create_pod job = do status ← get_job_status job; posted status.template

unfoldable pub get_pod_to_delete : HashMap String Pod → GpuJob → Outcome String
unfolding get_active_pods least_of
get_pod_to_delete store job = least_of (get_active_pods store job)

-- The difference wraps around.
abbrev pub want_active : GpuJob → GpuJobStatus → ℕ
want_active job status = min (sub_u32 job.spec.completions status.succeeded) job.spec.parallelism

unfoldable pub tune : HashMap String Pod → GpuJob → Ordering → Outcome (List Request)
unfolding create_pod get_pod_to_delete
tune store job lt = create_pod job
tune store job gt = do name ← get_pod_to_delete store job; ok (delete_pod name ∷ [])
tune store job eq = ok []

unfoldable pub reconcile : HashMap String Pod → GpuJob → Outcome (List Request)
unfolding get_job_status tune
reconcile store job = do
  status ← get_job_status job
  tune store job (compare status.active (want_active job status))

unfoldable pub handle_job_event :
    Outcome String → HashMap String Pod → Event GpuJob → Outcome (List Request)
unfolding create_pod_template reconcile
handle_job_event prepared store (add job) = create_pod_template prepared job
handle_job_event prepared store (update _ job) = reconcile store job
handle_job_event prepared store (delete job) =
    reconcile store (record job { spec = record (job.spec) { parallelism = 0 } })

unfoldable pub resolve_owner : HashMap String GpuJob → List ObjectReference → Option GpuJob
unfolding get filter
resolve_owner store refs =
    elim (only_one (filter (λ (r : ObjectReference). r.kind == "GpuJob") refs)) [
      | none ↦ none
      | some owner ↦ get (String.◌++◌ "/api/v1/gpujobs/" owner.name) store
    ]

unfoldable pub handle_pod_change :
    HashMap String GpuJob → HashMap String Pod → Pod → Outcome (List Request)
unfolding resolve_owner update_gpujob
handle_pod_change job_store store pod =
    elim (resolve_owner job_store pod.metadata.owner_references) [
      | none ↦ ok []
      | some owner ↦ update_gpujob store owner
    ]

-- An error is logged, a panic ends the controller.
abbrev both : Outcome (List Request) → Outcome (List Request) → Outcome (List Request)
both (ok requests) rest = rest >>= λ later. ok (requests ++ later)
both error rest = rest
both panics rest = panics

unfoldable pub resync_job : HashMap String Pod → List GpuJob → Outcome (List Request)
unfolding update_gpujob
resync_job store [] = ok []
resync_job store (job ∷ jobs) = both (update_gpujob store job) (resync_job store jobs)

-- `done` is `job_to_resync`.
unfoldable pub resync_pod :
    HashMap String GpuJob → HashMap String Pod → List String → List Pod → Outcome (List Request)
unfolding resolve_owner update_gpujob any
resync_pod job_store store done [] = ok []
resync_pod job_store store done (pod ∷ pods) =
    elim (resolve_owner job_store pod.metadata.owner_references) [
      | none ↦ resync_pod job_store store done pods
      | some owner ↦
          if any (λ name. name == owner.metadata.name) done
          then resync_pod job_store store done pods
          else both (update_gpujob store owner)
              (resync_pod job_store store (owner.metadata.name ∷ done) pods)
    ]
