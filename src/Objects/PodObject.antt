-- ===== src/Objects/PodObject.antt =====
-- The status of a pod, and the methods of `Pod`: objects/pod.rs.
use r_mini_k8s.Prelude.{
  ℕ, ◌%◌, u32_mod, Outcome, ok, panics, String, Bool, true, false, ◌||◌, ◌&&◌, not, option_beq,
  list_beq, ◌≡◌, ◌↔◌, Option, none, some, List, [], ◌∷◌, arith, Eq, nat_eq, string_eq, option_eq,
  ◌==◌, I64, add_i64, if◌then◌else◌, map,
}
use r_mini_k8s.Prelude.HashMap.{HashMap, get, map_eq}
use r_mini_k8s.Objects.Meta.{Metadata, Ipv4Addr, NaiveDateTime}
use r_mini_k8s.Objects.ContainerSpec.{Container, PodSpec, ResourceName, container_requests}

pub data PodPhase : Type 0 where
  failed pending running succeeded : PodPhase

abbrev phase_beq : PodPhase → PodPhase → Bool
phase_beq failed failed = true
phase_beq pending pending = true
phase_beq running running = true
phase_beq succeeded succeeded = true
phase_beq _ _ = false

pub phase_beq_iff : (a b : PodPhase) → (phase_beq a b ≡ true) ↔ (a ≡ b)
phase_beq_iff a b = ground arith

instance abbrev pub phase_eq : Eq PodPhase
phase_eq = record { beq = phase_beq; beq_iff = phase_beq_iff }

pub data PodConditionType : Type 0 where
  containers_ready pod_scheduled ready : PodConditionType

abbrev condition_beq : PodConditionType → PodConditionType → Bool
condition_beq containers_ready containers_ready = true
condition_beq pod_scheduled pod_scheduled = true
condition_beq ready ready = true
condition_beq _ _ = false

pub condition_beq_iff : (a b : PodConditionType) → (condition_beq a b ≡ true) ↔ (a ≡ b)
condition_beq_iff a b = ground arith

instance abbrev pub condition_eq : Eq PodConditionType
condition_eq = record { beq = condition_beq; beq_iff = condition_beq_iff }

pub record PodCondition : Type 0 where
  pub status : Bool

pub pod_condition_beq_iff : (a b : PodCondition) → (a.status ≡ b.status) ↔ (a ≡ b)
pod_condition_beq_iff a b = ground arith

abbrev pod_condition_beq : PodCondition → PodCondition → Bool
pod_condition_beq a b = if a.status then b.status else not b.status

pub pod_condition_eq_iff : (a b : PodCondition) → (pod_condition_beq a b ≡ true) ↔ (a ≡ b)
pod_condition_eq_iff a b = ground (arith, pod_condition_beq_iff a b)

instance abbrev pub pod_condition_eq : Eq PodCondition
pod_condition_eq = record { beq = pod_condition_beq; beq_iff = pod_condition_eq_iff }

pub data ContainerState : Type 0 where
  running : ContainerState
  terminated : I64 → ContainerState
  waiting : ContainerState

abbrev state_beq : ContainerState → ContainerState → Bool
state_beq ContainerState.running ContainerState.running = true
state_beq (terminated m) (terminated n) = m == n
state_beq waiting waiting = true
state_beq _ _ = false

pub state_beq_iff : (a b : ContainerState) → (state_beq a b ≡ true) ↔ (a ≡ b)
state_beq_iff a b = ground arith

instance abbrev pub state_eq : Eq ContainerState
state_eq = record { beq = state_beq; beq_iff = state_beq_iff }

pub record ContainerStatus : Type 0 where
  pub name : String
  pub image : String
  pub container_id : String
  pub state : ContainerState
  pub restart_count : ℕ

abbrev container_status_beq : ContainerStatus → ContainerStatus → Bool
container_status_beq a b =
    a.name == b.name
    && a.image == b.image
    && a.container_id == b.container_id
    && a.state == b.state
    && a.restart_count == b.restart_count

pub container_status_beq_iff : (a b : ContainerStatus) → (container_status_beq a b ≡ true) ↔ (a ≡ b)
container_status_beq_iff a b = ground (
  arith,
  string_eq.beq_iff a.name b.name,
  string_eq.beq_iff a.image b.image,
  string_eq.beq_iff a.container_id b.container_id,
  state_beq_iff a.state b.state,
)

instance abbrev pub container_status_eq : Eq ContainerStatus
container_status_eq = record { beq = container_status_beq; beq_iff = container_status_beq_iff }

-- `ContainerInspectResponse` of the docker client, the fields that the program reads.
pub data ContainerStateStatusEnum : Type 0 where
  empty created running paused restarting removing exited dead : ContainerStateStatusEnum

pub record DockerState : Type 0 where
  pub status : Option ContainerStateStatusEnum
  pub exit_code : Option I64

pub record EndpointSettings : Type 0 where
  pub ip_address : Option String

pub record NetworkSettings : Type 0 where
  pub networks : Option (HashMap String EndpointSettings)

pub record DockerConfig : Type 0 where
  pub labels : Option (HashMap String String)

pub record ContainerInspectResponse : Type 0 where
  pub id : Option String
  pub image : Option String
  pub state : Option DockerState
  pub restart_count : Option I64
  pub config : Option DockerConfig
  pub network_settings : Option NetworkSettings

abbrev exit_code_of : Option I64 → I64
exit_code_of none = 0
exit_code_of (some code) = code

abbrev state_with : Option I64 → Option ContainerStateStatusEnum → ContainerState
state_with code (some ContainerStateStatusEnum.running) = ContainerState.running
state_with code (some exited) = terminated (exit_code_of code)
state_with code (some dead) = terminated (exit_code_of code)
state_with code _ = waiting

-- `ContainerState::from`
unfoldable pub container_state : Option DockerState → ContainerState
container_state none = waiting
container_state (some state) = state_with state.exit_code state.status

abbrev labels_of : Option DockerConfig → HashMap String String
labels_of none = []
labels_of (some config) = elim config.labels [ none ↦ [] | some labels ↦ labels ]

abbrev or_empty : Option String → String
or_empty none = ""
or_empty (some name) = name

abbrev status_of :
    String → Option String → Option String → ContainerState → ℕ → Outcome ContainerStatus
status_of name (some image) (some id) state count =
    ok
      record { name = name; image = image; container_id = id; state = state; restart_count = count }
status_of name _ _ state count = panics

-- `ContainerStatus::from`: it panics without an image or an id.
unfoldable pub container_status : ContainerInspectResponse → Outcome ContainerStatus
unfolding get container_state
container_status r =
    status_of (or_empty (get "minik8s.container.name" (labels_of r.config))) r.image r.id
      (container_state r.state) (exit_code_of r.restart_count % u32_mod)

pub record PodStatus : Type 0 where
  pub host_ip : Option String
  pub start_time : NaiveDateTime
  pub phase : PodPhase
  pub pod_ip : Option Ipv4Addr
  pub conditions : HashMap PodConditionType PodCondition
  pub container_statuses : List ContainerStatus

-- `PodStatus::eq`
unfoldable pub pod_status_beq : PodStatus → PodStatus → Bool
unfolding map_eq
pod_status_beq a b =
    option_beq a.host_ip b.host_ip
    && a.start_time == b.start_time
    && a.phase == b.phase
    && option_beq a.pod_ip b.pod_ip
    && map_eq a.conditions b.conditions
    && list_beq a.container_statuses b.container_statuses

-- `PodStatus::default`, at the time that the clock shows.
unfoldable pub default_status : NaiveDateTime → PodStatus
default_status now = record {
  host_ip = none;
  start_time = now;
  phase = pending;
  pod_ip = none;
  conditions =
      (containers_ready, record { status = false })
      ∷ (pod_scheduled, record { status = false })
      ∷ (ready, record { status = false })
      ∷ [];
  container_statuses = [];
}

pub record Pod : Type 0 where
  pub metadata : Metadata
  pub spec : PodSpec
  pub status : Option PodStatus

-- `map_or(false, |condition| condition.status)`
abbrev pub condition_holds : Option PodCondition → Bool
condition_holds none = false
condition_holds (some c) = c.status

unfoldable pub is_ready : Pod → Bool
unfolding get
is_ready pod = elim pod.status [
  | some status ↦ condition_holds (get ready status.conditions)
  | none ↦ false
]

unfoldable pub is_active : Pod → Bool
is_active pod = elim pod.status [
  | some status ↦ status.phase == pending || status.phase == PodPhase.running
  | none ↦ false
]

unfoldable pub is_succeeded : Pod → Bool
is_succeeded pod = elim pod.status [ some status ↦ status.phase == succeeded | none ↦ false ]

unfoldable pub is_on_node : Pod → String → Bool
is_on_node pod node_name = elim pod.spec.node_name [ none ↦ false | some name ↦ name == node_name ]

abbrev sum_i64 : List I64 → I64
sum_i64 [] = 0
sum_i64 (x ∷ xs) = add_i64 x (sum_i64 xs)

-- `Pod::requests`
unfoldable pub requests : Pod → ResourceName → I64
unfolding container_requests
requests pod resource = sum_i64 (map (λ c. container_requests c resource) pod.spec.containers)

-- `iter().find(|status| status.name == name)`
unfoldable pub find_status : String → List ContainerStatus → Option ContainerStatus
find_status name [] = none
find_status name (s ∷ ss) = if s.name == name then some s else find_status name ss

abbrev statuses_of : Option PodStatus → List ContainerStatus
statuses_of none = []
statuses_of (some status) = status.container_statuses

-- `Pod::container_pairs`
unfoldable pub container_pairs : Pod → List (Container × Option ContainerStatus)
unfolding find_status
container_pairs pod =
    map (λ c. (c, find_status c.name (statuses_of pod.status))) pod.spec.containers

unfoldable pub get_ip : Pod → Option Ipv4Addr
get_ip pod = elim pod.status [ some status ↦ status.pod_ip | none ↦ none ]
