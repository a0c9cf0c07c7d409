-- ===== src/Objects/ContainerSpec.antt =====
-- The specification of a pod and of its containers: objects/pod.rs.
use r_mini_k8s.Prelude.{
  ℕ, String, decimal, Bool, true, false, ◌&&◌, ◌||◌, ◌≡◌, ◌↔◌, not, Option, none, some, List, [],
  ◌∷◌, arith, Eq, nat_eq, string_eq, ◌==◌, I64, mul_i64, div_i64, max_i64, if◌then◌else◌,
}
use Prim.Native.String
use r_mini_k8s.Prelude.HashMap.{HashSet, insert}
use r_mini_k8s.Objects.Meta.{Labels}

pub data ImagePullPolicy : Type 0 where
  always never if_not_present : ImagePullPolicy

pub record ContainerPort : Type 0 where
  pub container_port : ℕ

pub record VolumeMount : Type 0 where
  pub mount_path : String
  pub name : String

-- CPU in milli CPU and memory in bytes.
pub record Resource : Type 0 where
  pub cpu : I64
  pub memory : I64

abbrev pub default_resource : Resource
default_resource = record { cpu = 0; memory = 0 }

pub record ResourceRequirements : Type 0 where
  pub limits : Resource
  pub requests : Resource

pub record Container : Type 0 where
  pub name : String
  pub image : String
  pub image_pull_policy : Option ImagePullPolicy
  pub command : List String
  pub ports : List ContainerPort
  pub volume_mounts : List VolumeMount
  pub resources : ResourceRequirements

abbrev pub default_container : Container
default_container = record {
  name = "";
  image = "";
  image_pull_policy = none;
  command = [];
  ports = [];
  volume_mounts = [];
  resources = record { limits = default_resource; requests = default_resource };
}

-- `Container::exposed_ports`, from the loop's start on.
unfoldable pub container_exposed_ports : HashSet String → List ContainerPort → HashSet String
unfolding insert decimal
container_exposed_ports exposed [] = exposed
container_exposed_ports exposed (port ∷ ports) =
    container_exposed_ports (insert (String.◌++◌ (decimal port.container_port) "/tcp") tt exposed)
      ports

-- `metrics::Resource`
pub data ResourceName : Type 0 where
  cpu_resource memory_resource : ResourceName

-- `Container::requests`
unfoldable pub container_requests : Container → ResourceName → I64
container_requests c cpu_resource = c.resources.requests.cpu
container_requests c memory_resource = c.resources.requests.memory

-- `str::ends_with`
unfoldable pub ends_with : String → String → Bool
ends_with String.[] t = String.[] == t
ends_with (String.◌∷◌ c s) t = (String.◌∷◌ c s) == t || ends_with s t

-- `Container::image_pull_policy`
unfoldable pub image_pull_policy : Container → ImagePullPolicy
unfolding ends_with
image_pull_policy c = elim c.image_pull_policy [
  | some policy ↦ policy
  | none ↦ if ends_with c.image ":latest" then always else if_not_present
]

-- `ResourceRequirements::milli_cpu_to_shares`
unfoldable pub milli_cpu_to_shares : I64 → I64
unfolding div_i64
milli_cpu_to_shares milli_cpu =
    if milli_cpu == 0 then 2 else max_i64 (div_i64 (mul_i64 milli_cpu 1024) 1000) 2

-- `ResourceRequirements::cpu_shares`
unfoldable pub cpu_shares : ResourceRequirements → I64
unfolding milli_cpu_to_shares
cpu_shares r =
    milli_cpu_to_shares
      (if r.requests.cpu == 0 && not (r.limits.cpu == 0) then r.limits.cpu else r.requests.cpu)

pub data VolumeConfig : Type 0 where
  host_path : String → VolumeConfig
  empty_dir : VolumeConfig

pub record Volume : Type 0 where
  pub name : String
  pub config : VolumeConfig

pub data RestartPolicy : Type 0 where
  always on_failure never : RestartPolicy

abbrev policy_beq : RestartPolicy → RestartPolicy → Bool
policy_beq RestartPolicy.always RestartPolicy.always = true
policy_beq on_failure on_failure = true
policy_beq RestartPolicy.never RestartPolicy.never = true
policy_beq _ _ = false

pub policy_beq_iff : (a b : RestartPolicy) → (policy_beq a b ≡ true) ↔ (a ≡ b)
policy_beq_iff a b = ground arith

instance abbrev pub policy_eq : Eq RestartPolicy
policy_eq = record { beq = policy_beq; beq_iff = policy_beq_iff }

pub record PodSpec : Type 0 where
  pub containers : List Container
  pub volumes : List Volume
  pub restart_policy : RestartPolicy
  pub host_network : Bool
  pub node_selector : Labels
  pub node_name : Option String

abbrev pub default_pod_spec : PodSpec
default_pod_spec = record {
  containers = [];
  volumes = [];
  restart_policy = RestartPolicy.always;
  host_network = false;
  node_selector = [];
  node_name = none;
}

-- `PodSpec::network_mode`
unfoldable pub network_mode : PodSpec → String
network_mode spec = if spec.host_network then "host" else "bridge"

abbrev extend : HashSet String → HashSet String → HashSet String
extend set [] = set
extend set ((value, _) ∷ values) = extend (insert value tt set) values

abbrev exposed_by : HashSet String → List Container → HashSet String
exposed_by exposed [] = exposed
exposed_by exposed (c ∷ cs) = exposed_by (extend exposed (container_exposed_ports [] c.ports)) cs

-- `PodSpec::exposed_ports`
unfoldable pub exposed_ports : PodSpec → HashSet String
unfolding container_exposed_ports insert
exposed_ports spec = exposed_by [] spec.containers
