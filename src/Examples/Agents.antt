-- ===== src/Examples/Agents.antt =====
-- The node agent on concrete inputs.
use r_mini_k8s.Prelude.{
  ◌++◌, ◌≡◌, ◌≢◌, ◌↔◌, refl, String, true, false, none, some, [], ◌∷◌, length, ◌<◌, ◌+◌, ◌≤◌, arith,
  ok, panics, filter, count, string_eq, inl,
}
use r_mini_k8s.Prelude.HashMap.{HashMap, HashSet, get, insert, values, contains_key}
use r_mini_k8s.Objects.{
  Pod, succeeded, RestartPolicy, Container, default_container, ContainerStatus, terminated,
  ContainerInspectResponse, ContainerStateStatusEnum, container_state, find_status, is_on_node,
}
use r_mini_k8s.NodeAgent.Docker.{
  Host, Answer, answered, server_error, unavailable, Call, stop_container, remove_container,
  inspect_container,
}
use r_mini_k8s.NodeAgent.Status.{compute_phase}
use r_mini_k8s.NodeAgent.Naming.{NodePod}
use r_mini_k8s.NodeAgent.Lifecycle.{remove_pod, reconcile}
use r_mini_k8s.NodeAgent.Worker.{PodUpdate, add, handle_all, capacity, handle_resync}
use r_mini_k8s.NodeAgent.Phase.{compute_phase_iff, Describes}
use r_mini_k8s.NodeAgent.Finished.{reconcile-finished}
use r_mini_k8s.NodeAgent.Teardown.{remove_pod_calls, teardown, AllGone, sandbox_id}
use r_mini_k8s.NodeAgent.Tracking.{handle_all-Tracks, added, unchanged, then_changed}
use r_mini_k8s.NodeAgent.Resync.{handle_resync_lem, resent}
use r_mini_k8s.Examples.Data.{running_pod, meta, web, status_with, plain_spec}

abbrev sandbox_runs : ContainerInspectResponse
sandbox_runs = record {
  id = some "c0";
  image = some "pause";
  state = some (record { status = some ContainerStateStatusEnum.running; exit_code = none });
  restart_count = none;
  config = none;
  network_settings = none;
}

-- Docker removes containers, or has none of the name, but does not stop them.
abbrev answer : Call → Answer Unit
answer (stop_container _) = unavailable
answer (remove_container _) = server_error 404
answer _ = answered tt

abbrev host : Host
host = record {
  runs = λ calls call. answer call;
  images = λ calls name. answered [];
  creates = λ calls name config. answered "c1";
  inspects = λ calls id. answered sandbox_runs;
  uuid_text = λ uid. "7";
  parse_ip = λ s. none;
}

abbrev exited : ContainerStatus
exited = record {
  name = "main";
  image = "job";
  container_id = "c1";
  state = terminated 0;
  restart_count = 0;
}

abbrev main : Container
main = record default_container { name = "main"; image = "job" }

-- A pod whose container has succeeded.
abbrev job : NodePod
job = record {
  metadata = meta "job-1" web;
  spec = record (plain_spec (some "node-1")) {
    containers = main ∷ [];
    restart_policy = RestartPolicy.on_failure;
  };
  status = record (status_with succeeded false none) { container_statuses = exited ∷ [] };
}

compute_phase_iff_example :
    (compute_phase RestartPolicy.on_failure (exited ∷ []) ≡ succeeded)
    ↔ Describes RestartPolicy.on_failure (exited ∷ []) succeeded
compute_phase_iff_example =
    compute_phase_iff RestartPolicy.on_failure (exited ∷ []) succeeded (omega arith)

reconcile-finished_example :
    reconcile host job [] ≡ (ok tt, [] ++ inspect_container (sandbox_id host 7 job) ∷ [])
unfolding compute_phase find_status container_state
reconcile-finished_example =
    reconcile-finished host 7 job sandbox_runs [] refl refl refl (omega arith) refl (inl refl)
      ((exited, refl), tt)

remove_pod_calls_example :
    ((remove_pod host job []).1 ≡ [] ++ teardown host 7 job)
    × ((remove_pod host job []).0 ≢ panics)
    × (AllGone host → (remove_pod host job []).0 ≡ ok tt)
remove_pod_calls_example = remove_pod_calls host 7 job [] refl

abbrev names : HashSet String
names = ("web-2", tt) ∷ []

abbrev store : HashMap String Pod
store = ("web-2", running_pod) ∷ []

handle_all-Tracks_example : contains_key "web-2" names ≡ true
unfolding handle_all insert contains_key is_on_node get
handle_all-Tracks_example =
    handle_all-Tracks host 5 "node-1" [] store (add running_pod ∷ []) [] names []
      (then_changed [] store store (add running_pod) [] (added [] running_pod refl)
        (unchanged store))
      (λ j. refl) refl "web-2"

handle_resync_lem_example :
    (length {A = PodUpdate} [] + count (λ pod. is_on_node pod "node-1") (values store) ≤ capacity
      → (names' : HashSet String) × (handle_resync "node-1" store [] []
          ≡ some (names', [] ++ resent (filter (λ pod. is_on_node pod "node-1") (values store)))))
    × (capacity < length {A = PodUpdate} [] + count (λ pod. is_on_node pod "node-1") (values store)
        → handle_resync "node-1" store [] [] ≡ none)
handle_resync_lem_example = handle_resync_lem "node-1" store [] [] (omega arith)
