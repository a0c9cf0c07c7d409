-- ===== src/NodeAgent/Pods.antt =====
-- What the agent does for a pod: the methods of `Pod` in pod.rs that call docker.
use r_mini_k8s.Prelude.{String, Option, none, some, List, [], ◌∷◌, string_eq, text}
use r_mini_k8s.Prelude.HashMap.{HashMap, insert}
use r_mini_k8s.Objects.{
  Container, state_eq, Volume, ContainerInspectResponse, exposed_ports, network_mode,
  image_pull_policy, cpu_shares, if_not_present,
}
use r_mini_k8s.NodeAgent.Docker.{
  PodVolume, Host, Agent, pure, lift, ◌>>=◌, ◌>>◌, join_all, first_error_or_ok, filter_ok, start,
  inspect, create, image_name, pull_with_policy, provision,
}
use r_mini_k8s.NodeAgent.Naming.{
  NodePod, bind_mounts, get_container_name, containers, dir, container_labels,
}

module _ (host : Host) where
  unfoldable pub volumes_from :
      NodePod → HashMap String PodVolume → List Volume → Agent (HashMap String PodVolume)
  unfolding insert provision dir
  volumes_from pod volumes [] = pure volumes
  volumes_from pod volumes (volume ∷ rest) = do
    pod_dir ← lift (dir host pod)
    let created : PodVolume = record { pod_dir = pod_dir; volume = volume }
    provision host created
    volumes_from pod (insert volume.name created volumes) rest

  unfoldable pub create_volumes : NodePod → Agent (HashMap String PodVolume)
  unfolding volumes_from
  create_volumes pod = volumes_from pod [] pod.spec.volumes

  unfoldable pub create_container : NodePod → String → Container → Agent String
  unfolding create_volumes bind_mounts container_labels get_container_name create dir insert
      pull_with_policy image_pull_policy image_name cpu_shares
  create_container pod sandbox_id c = do
    let image = image_name host c.image
    let mode = some (text ("container:" ∷ sandbox_id ∷ []))
    pull_with_policy host image (image_pull_policy c)
    volumes ← create_volumes pod
    binds ← lift (bind_mounts volumes c.volume_mounts)
    labels ← lift (container_labels host pod)
    name ← lift (get_container_name host pod.metadata c.name)
    create host name record {
      image = image;
      entrypoint = some c.command;
      host_config = record {
        cpu_shares = some (cpu_shares c.resources);
        memory = some c.resources.limits.memory;
        network_mode = mode;
        ipc_mode = mode;
        pid_mode = mode;
        binds = binds;
        restart_policy = some pod.spec.restart_policy;
      };
      labels =
          insert "minik8s.container.type" "container"
            (insert "minik8s.container.name" c.name labels);
      exposed_ports = none;
    }

  unfoldable pub create_containers : NodePod → String → Agent (List String)
  unfolding create_container join_all filter_ok
  create_containers pod sandbox_id = do
    results ← join_all (create_container pod sandbox_id) pod.spec.containers
    pure (filter_ok results)

  unfoldable pub create_sandbox : NodePod → Agent String
  unfolding container_labels get_container_name create start insert pull_with_policy image_name
      exposed_ports network_mode
  create_sandbox pod = do
    let image = image_name host "docker/desktop-kubernetes-pause:3.5"
    pull_with_policy host image if_not_present
    labels ← lift (container_labels host pod)
    name ← lift (get_container_name host pod.metadata "POD")
    id ← create host name record {
      image = image;
      entrypoint = none;
      host_config = record {
        cpu_shares = none;
        memory = none;
        network_mode = some (network_mode pod.spec);
        ipc_mode = some "shareable";
        pid_mode = none;
        binds = none;
        restart_policy = none;
      };
      labels =
          insert "minik8s.container.type" "podsandbox"
            (insert "minik8s.container.name" "POD" labels);
      exposed_ports = some (exposed_ports pod.spec);
    }
    start host id
    pure id

  abbrev existing_or_new :
      NodePod → String → Container → String → Option ContainerInspectResponse → Agent String
  unfolding create_container
  existing_or_new pod sandbox_id c name none = create_container pod sandbox_id c
  existing_or_new pod sandbox_id c name (some _) = pure name

  unfoldable pub start_container : NodePod → String → Container → Agent Unit
  unfolding create_container get_container_name inspect start
  start_container pod sandbox_id c = do
    name ← lift (get_container_name host pod.metadata c.name)
    result ← inspect host name
    id ← existing_or_new pod sandbox_id c name result
    start host id

  unfoldable pub start_containers : NodePod → String → List Container → Agent Unit
  unfolding start_container join_all first_error_or_ok
  start_containers pod sandbox_id cs = do
    results ← join_all (start_container pod sandbox_id) cs
    lift (first_error_or_ok results)

  unfoldable pub inspect_containers : NodePod → Agent (List (Option ContainerInspectResponse))
  unfolding containers inspect join_all filter_ok
  inspect_containers pod = do
    names ← lift (containers host pod)
    results ← join_all (inspect host) names
    pure (filter_ok results)
