-- ===== src/NodeAgent/Lifecycle.antt =====
-- The public methods of `Pod` (pod.rs): create, start, stop, remove, update its status, reconcile.
use r_mini_k8s.Prelude.{
  String, Bool, true, false, ◌&&◌, not, Option, none, some, List, [], ◌∷◌, map, if◌then◌else◌,
  string_eq,
}
use r_mini_k8s.Objects.{
  Pod, PodStatus, Container, ContainerStatus, container_state, ContainerState, terminated,
  RestartPolicy, find_status, ContainerInspectResponse, default_status, NaiveDateTime,
  pod_status_beq,
}
use r_mini_k8s.NodeAgent.Docker.{
  create_dir_all, Host, Agent, pure, lift, ◌>>=◌, ◌>>◌, attempt, first_error_or_ok, start, stop,
  remove, inspect, start_all, stop_all, remove_all, run,
}
use r_mini_k8s.NodeAgent.Status.{
  compute_phase, determine_conditions, should_restart_container, is_running,
}
use r_mini_k8s.NodeAgent.Naming.{NodePod, statuses_from, ip_of, sandbox, containers, dir}
use r_mini_k8s.NodeAgent.Pods.{
  create_sandbox, create_containers, start_containers, inspect_containers,
}

-- The containers that the loop of `compute_pod_actions` adds.
unfoldable pub containers_to_restart :
    RestartPolicy → List ContainerStatus → List Container → List Container
unfolding find_status should_restart_container
containers_to_restart policy statuses [] = []
containers_to_restart policy statuses (c ∷ cs) =
    let rest = containers_to_restart policy statuses cs in
    let status = find_status c.name statuses in
    if not (runs status) && should_restart_container policy status then c ∷ rest else rest
  where
    runs : Option ContainerStatus → Bool
    runs none = false
    runs (some status) = is_running status

pub record PodActions : Type 0 where
  pub create_sandbox : Bool
  pub start_sandbox : Bool
  pub containers_to_start : List Container
  pub containers_to_remove : List String

abbrev pub is_terminated : ContainerState → Bool
is_terminated (terminated _) = true
is_terminated _ = false

-- By the answer to the inspection of the sandbox; the outer `none` is an error.
unfoldable pub actions_for :
    NodePod → String → List String → Option (Option ContainerInspectResponse) → PodActions
unfolding containers_to_restart container_state
actions_for pod sandbox_name names none = record {
  create_sandbox = true;
  start_sandbox = false;
  containers_to_start = pod.spec.containers;
  containers_to_remove = sandbox_name ∷ names;
}
actions_for pod sandbox_name names (some none) = record {
  create_sandbox = true;
  start_sandbox = false;
  containers_to_start = pod.spec.containers;
  containers_to_remove = names;
}
actions_for pod sandbox_name names (some (some response)) = record {
  create_sandbox = false;
  start_sandbox = is_terminated (container_state response.state);
  containers_to_start =
      containers_to_restart pod.spec.restart_policy pod.status.container_statuses
        pod.spec.containers;
  containers_to_remove = [];
}

module _ (host : Host) where
  unfoldable pub update_status : NodePod → Agent (NodePod × Bool)
  unfolding sandbox inspect inspect_containers statuses_from ip_of compute_phase
      determine_conditions pod_status_beq
  update_status pod = do
    name ← lift (sandbox host pod)
    response ← inspect host name
    responses ← inspect_containers host pod
    statuses ← lift (statuses_from responses)
    let new_status : PodStatus = record (pod.status) {
      phase = compute_phase pod.spec.restart_policy statuses;
      pod_ip = ip_of host response;
      conditions = determine_conditions pod.spec pod.status.conditions statuses;
      container_statuses = statuses;
    }
    pure (record pod { status = new_status }, not (pod_status_beq new_status pod.status))

  unfoldable pub create_pod : NaiveDateTime → Pod → Agent NodePod
  unfolding dir create_sandbox create_containers update_status default_status
  create_pod now pod = do
    let new : NodePod = record {
      metadata = pod.metadata;
      spec = pod.spec;
      status = default_status now;
    }
    path ← lift (dir host new)
    run host (create_dir_all path)
    id ← create_sandbox host new
    create_containers host new id
    (updated, _) ← update_status new
    pure updated

  unfoldable pub start_pod : NodePod → Agent Unit
  unfolding start_all first_error_or_ok
  start_pod pod = do
    results ←
        start_all host (map (λ (s : ContainerStatus). s.container_id) pod.status.container_statuses)
    lift (first_error_or_ok results)

  unfoldable pub stop_pod : NodePod → Agent Unit
  unfolding containers sandbox stop_all stop first_error_or_ok
  stop_pod pod = do
    names ← lift (containers host pod)
    results ← stop_all host names
    name ← lift (sandbox host pod)
    stop host name
    lift (first_error_or_ok results)

  unfoldable pub remove_containers : NodePod → Agent Unit
  unfolding containers sandbox remove_all remove first_error_or_ok
  remove_containers pod = do
    names ← lift (containers host pod)
    results ← remove_all host names
    name ← lift (sandbox host pod)
    remove host name
    lift (first_error_or_ok results)

  -- A failed stop is only logged.
  unfoldable pub remove_pod : NodePod → Agent Unit
  unfolding stop_pod remove_containers
  remove_pod pod = do attempt (stop_pod pod); remove_containers pod

  unfoldable pub compute_pod_actions : NodePod → Agent PodActions
  unfolding sandbox containers inspect actions_for
  compute_pod_actions pod = do
    name ← lift (sandbox host pod)
    response ← attempt (inspect host name)
    names ← lift (containers host pod)
    pure (actions_for pod name names response)

  unfoldable pub reconcile : NodePod → Agent Unit
  unfolding compute_pod_actions remove_all create_sandbox sandbox start start_containers
  reconcile pod = do
    actions ← compute_pod_actions pod
    remove_all host actions.containers_to_remove
    id ← if actions.create_sandbox then create_sandbox host pod else lift (sandbox host pod)
    if actions.start_sandbox then start host id else pure tt
    start_containers host pod id actions.containers_to_start
