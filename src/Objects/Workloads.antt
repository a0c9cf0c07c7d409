-- ===== src/Objects/Workloads.antt =====
-- Nodes, replica sets, services, functions, GPU jobs, ingresses, bindings and workflows.
use r_mini_k8s.Prelude.{
  ℕ, ◌+◌, String, Bool, true, false, ◌&&◌, ◌≡◌, ◌↔◌, Option, List, arith, Eq, nat_eq, ◌==◌, ltb,
}
use r_mini_k8s.Prelude.HashMap.{HashMap, HashSet}
use r_mini_k8s.Objects.Meta.{Metadata, ObjectReference, NaiveDateTime, Labels, Ipv4Addr, seconds}
use r_mini_k8s.Objects.ContainerSpec.{PodSpec}
use r_mini_k8s.Objects.Autoscaler.{HpaBehavior, MetricSource}

pub data NodeAddressType : Type 0 where
  hostname external_ip internal_ip : NodeAddressType

abbrev address_beq : NodeAddressType → NodeAddressType → Bool
address_beq hostname hostname = true
address_beq external_ip external_ip = true
address_beq internal_ip internal_ip = true
address_beq _ _ = false

pub address_beq_iff : (a b : NodeAddressType) → (address_beq a b ≡ true) ↔ (a ≡ b)
address_beq_iff a b = ground arith

instance abbrev pub address_eq : Eq NodeAddressType
address_eq = record { beq = address_beq; beq_iff = address_beq_iff }

pub record Capacity : Type 0 where
  pub cpu : ℕ
  pub memory : ℕ

pub record NodeInfo : Type 0 where
  pub architecture : String
  pub machine_id : String
  pub operating_system : String
  pub os_image : String

pub record NodeStatus : Type 0 where
  pub addresses : HashMap NodeAddressType String
  pub allocatable : Capacity
  pub capacity : Capacity
  pub kubelet_port : ℕ
  pub node_info : NodeInfo
  pub last_heartbeat : NaiveDateTime

pub record Node : Type 0 where
  pub metadata : Metadata
  pub status : NodeStatus

-- `KubeletConfig::default`, the two frequencies in seconds.
abbrev pub node_status_report_frequency : ℕ
node_status_report_frequency = 30

abbrev pub node_status_update_frequency : ℕ
node_status_update_frequency = 10

-- `Node::is_ready`: `last_heartbeat > now - frequencies`, with the subtraction moved to the left.
unfoldable pub node_is_ready : NaiveDateTime → Node → Bool
node_is_ready now node = ltb now (
    node.status.last_heartbeat
    + seconds (node_status_report_frequency + node_status_update_frequency))

pub record Binding : Type 0 where
  pub metadata : Metadata
  pub target : ObjectReference

pub record PodTemplateSpec : Type 0 where
  pub metadata : Metadata
  pub spec : PodSpec

pub record ReplicaSetSpec : Type 0 where
  pub selector : Labels
  pub template : PodTemplateSpec
  pub replicas : ℕ

pub record ReplicaSetStatus : Type 0 where
  pub replicas : ℕ
  pub ready_replicas : ℕ

abbrev rs_status_beq : ReplicaSetStatus → ReplicaSetStatus → Bool
rs_status_beq a b = a.replicas == b.replicas && a.ready_replicas == b.ready_replicas

pub rs_status_beq_iff : (a b : ReplicaSetStatus) → (rs_status_beq a b ≡ true) ↔ (a ≡ b)
rs_status_beq_iff a b = ground arith

instance abbrev pub rs_status_eq : Eq ReplicaSetStatus
rs_status_eq = record { beq = rs_status_beq; beq_iff = rs_status_beq_iff }

pub record ReplicaSet : Type 0 where
  pub metadata : Metadata
  pub spec : ReplicaSetSpec
  pub status : Option ReplicaSetStatus

pub record ServicePort : Type 0 where
  pub port : ℕ
  pub target_port : ℕ

pub record ServiceSpec : Type 0 where
  pub selector : Labels
  pub ports : List ServicePort
  pub endpoints : HashSet Ipv4Addr
  pub cluster_ip : Option Ipv4Addr

pub record Service : Type 0 where
  pub metadata : Metadata
  pub spec : ServiceSpec

pub record FunctionSpec : Type 0 where
  pub max_replicas : ℕ
  pub behavior : HpaBehavior
  pub metrics : MetricSource

pub record FunctionStatus : Type 0 where
  pub service_ref : String
  pub filename : String
  pub host : String
  pub image : Option String

pub record Function : Type 0 where
  pub metadata : Metadata
  pub spec : FunctionSpec
  pub status : Option FunctionStatus

pub record SlurmConfig : Type 0 where
  pub partition : String
  pub total_core_number : ℕ
  pub ntasks_per_node : ℕ
  pub cpus_per_task : ℕ
  pub gres : String
  pub scripts : Option (List String)

pub record GpuConfig : Type 0 where
  pub slurm_config : SlurmConfig
  pub compile_scripts : String

pub record GpuJobSpec : Type 0 where
  pub gpu_config : GpuConfig
  pub completions : ℕ
  pub parallelism : ℕ
  pub back_off_limit : ℕ

pub record GpuJobStatus : Type 0 where
  pub active : ℕ
  pub failed : ℕ
  pub succeeded : ℕ
  pub filename : Option String
  pub template : Option PodTemplateSpec

pub record GpuJob : Type 0 where
  pub metadata : Metadata
  pub spec : GpuJobSpec
  pub status : Option GpuJobStatus

pub record IngressPath : Type 0 where
  pub path : String
  pub service_name : String
  pub service_port : ℕ

pub record IngressRule : Type 0 where
  pub host : Option String
  pub paths : List IngressPath

pub record Ingress : Type 0 where
  pub metadata : Metadata
  pub rules : List IngressRule
