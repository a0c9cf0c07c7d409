-- ===== src/NodeAgent/Naming.antt =====
-- `Pod` of pod.rs: a pod with its status, and the methods that ask nothing of docker: the names and
-- labels of its containers, its directory and mounts, its address. A missing uid is a panic.
use r_mini_k8s.Prelude.{
  String, Option, none, some, List, [], ◌∷◌, string_eq, Outcome, ok, error, panics, ◌>>=◌, text,
}
use r_mini_k8s.Prelude.HashMap.{HashMap, get, insert}
use r_mini_k8s.Objects.{
  Pod, PodSpec, PodStatus, Metadata, Container, ContainerStatus, container_status, VolumeMount,
  ContainerInspectResponse, NetworkSettings, EndpointSettings, Ipv4Addr, Uuid,
}
use r_mini_k8s.NodeAgent.Docker.{PodVolume, Host, host_src}

-- `Pod` of rkubelet/src/pod.rs
pub record NodePod : Type 0 where
  pub metadata : Metadata
  pub spec : PodSpec
  pub status : PodStatus

abbrev pub loaded : Metadata → PodSpec → Option PodStatus → Outcome NodePod
loaded metadata spec none = error
loaded metadata spec (some status) = ok record { metadata = metadata; spec = spec; status = status }

-- A pod without a status cannot be loaded.
unfoldable pub load : Pod → Outcome NodePod
load pod = loaded pod.metadata pod.spec pod.status

-- `Pod::object`
unfoldable pub object : NodePod → Pod
object pod = record { metadata = pod.metadata; spec = pod.spec; status = some pod.status }

-- `into_iter().flatten().map(ContainerStatus::from).collect()`
unfoldable pub statuses_from :
    List (Option ContainerInspectResponse) → Outcome (List ContainerStatus)
unfolding container_status
statuses_from [] = ok []
statuses_from (none ∷ responses) = statuses_from responses
statuses_from (some r ∷ responses) = do
  status ← container_status r
  rest ← statuses_from responses
  ok (status ∷ rest)

-- The loop of `bind_mounts`
unfoldable pub binds_from : HashMap String PodVolume → List VolumeMount → Outcome (List String)
unfolding get host_src
binds_from volumes [] = ok []
binds_from volumes (mount ∷ mounts) = elim (get mount.name volumes) [
  | none ↦ error
  | some v ↦ do
    rest ← binds_from volumes mounts
    ok (text (host_src v ∷ ":" ∷ mount.mount_path ∷ []) ∷ rest)
]

unfoldable pub bind_mounts :
    HashMap String PodVolume → List VolumeMount → Outcome (Option (List String))
unfolding binds_from
bind_mounts volumes [] = ok none
bind_mounts volumes (mount ∷ mounts) = do
  binds ← binds_from volumes (mount ∷ mounts)
  ok (some binds)

abbrev pub uid_of : Option Uuid → Outcome Uuid
uid_of none = panics
uid_of (some uid) = ok uid

module _ (host : Host) where
  abbrev pub address_in : Option EndpointSettings → Option Ipv4Addr
  address_in none = none
  address_in (some endpoint) = elim endpoint.ip_address [ none ↦ none | some ip ↦ host.parse_ip ip ]

  abbrev pub address_of : Option NetworkSettings → Option Ipv4Addr
  unfolding get
  address_of none = none
  address_of (some settings) = elim settings.networks [
    | none ↦ none
    | some networks ↦ address_in (get "bridge" networks)
  ]

  -- `Pod::get_ip`, parsed
  unfoldable pub ip_of : Option ContainerInspectResponse → Option Ipv4Addr
  ip_of none = none
  ip_of (some response) = address_of response.network_settings

  unfoldable pub unique_container_name : Uuid → String → String → String
  unique_container_name uid pod_name container_name =
      text ("minik8s_" ∷ container_name ∷ "_" ∷ pod_name ∷ "_" ∷ host.uuid_text uid ∷ [])

  unfoldable pub get_container_name : Metadata → String → Outcome String
  unfolding unique_container_name
  get_container_name metadata container_name = do
    uid ← uid_of metadata.uid
    ok (unique_container_name uid metadata.name container_name)

  unfoldable pub sandbox : NodePod → Outcome String
  unfolding get_container_name
  sandbox pod = get_container_name pod.metadata "POD"

  unfoldable pub names_of : Metadata → List Container → Outcome (List String)
  unfolding get_container_name
  names_of metadata [] = ok []
  names_of metadata (c ∷ cs) = do
    name ← get_container_name metadata c.name
    names ← names_of metadata cs
    ok (name ∷ names)

  unfoldable pub containers : NodePod → Outcome (List String)
  unfolding names_of
  containers pod = names_of pod.metadata pod.spec.containers

  unfoldable pub dir : NodePod → Outcome String
  dir pod = do
    uid ← uid_of pod.metadata.uid
    ok (text ("/var/lib/rkubelet/pods/" ∷ host.uuid_text uid ∷ []))

  unfoldable pub container_labels : NodePod → Outcome (HashMap String String)
  unfolding insert
  container_labels pod = do
    let named = insert "minik8s.pod.name" pod.metadata.name pod.metadata.labels
    uid ← uid_of pod.metadata.uid
    ok (insert "minik8s.pod.uid" (host.uuid_text uid) named)
