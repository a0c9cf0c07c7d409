-- ===== src/Objects/Kind.antt =====
-- `KubeObject` and the trait `Object`: objects/mod.rs.
use Prim.Native.String
use r_mini_k8s.Prelude.{String}
use r_mini_k8s.Objects.Meta.{Metadata, ObjectReference}
use r_mini_k8s.Objects.PodObject.{Pod}
use r_mini_k8s.Objects.Workloads.{Binding, Node, Service, ReplicaSet, Ingress, GpuJob, Function}
use r_mini_k8s.Objects.Autoscaler.{HorizontalPodAutoscaler}
use r_mini_k8s.Objects.Flow.{Workflow}

pub data KubeObject : Type 0 where
  pod : Pod → KubeObject
  binding : Binding → KubeObject
  node : Node → KubeObject
  service : Service → KubeObject
  replica_set : ReplicaSet → KubeObject
  ingress : Ingress → KubeObject
  hpa : HorizontalPodAutoscaler → KubeObject
  gpu_job : GpuJob → KubeObject
  function : Function → KubeObject
  workflow : Workflow → KubeObject

unfoldable pub kind : KubeObject → String
kind (pod _) = "Pod"
kind (binding _) = "Binding"
kind (node _) = "Node"
kind (service _) = "Service"
kind (replica_set _) = "ReplicaSet"
kind (ingress _) = "Ingress"
kind (hpa _) = "HorizontalPodAutoscaler"
kind (gpu_job _) = "GpuJob"
kind (function _) = "Function"
kind (workflow _) = "Workflow"

-- `kind().to_lowercase()`
unfoldable pub lowercase_kind : KubeObject → String
lowercase_kind (pod _) = "pod"
lowercase_kind (binding _) = "binding"
lowercase_kind (node _) = "node"
lowercase_kind (service _) = "service"
lowercase_kind (replica_set _) = "replicaset"
lowercase_kind (ingress _) = "ingress"
lowercase_kind (hpa _) = "horizontalpodautoscaler"
lowercase_kind (gpu_job _) = "gpujob"
lowercase_kind (function _) = "function"
lowercase_kind (workflow _) = "workflow"

abbrev pub metadata_of : KubeObject → Metadata
metadata_of (pod o) = o.metadata
metadata_of (binding o) = o.metadata
metadata_of (node o) = o.metadata
metadata_of (service o) = o.metadata
metadata_of (replica_set o) = o.metadata
metadata_of (ingress o) = o.metadata
metadata_of (hpa o) = o.metadata
metadata_of (gpu_job o) = o.metadata
metadata_of (function o) = o.metadata
metadata_of (workflow o) = o.metadata

unfoldable pub name_of : KubeObject → String
name_of o = (metadata_of o).name

-- `prefix`: the lowercase plural of the kind below `/api/v1/`. An ingress has its own plural.
unfoldable pub prefix : KubeObject → String
unfolding lowercase_kind
prefix (ingress o) = "/api/v1/ingresses"
prefix o = String.◌++◌ "/api/v1/" (String.◌++◌ (lowercase_kind o) "s")

-- `uri`
unfoldable pub uri : KubeObject → String
unfolding prefix name_of
uri o = String.◌++◌ (prefix o) (String.◌++◌ "/" (name_of o))

unfoldable pub object_reference : KubeObject → ObjectReference
unfolding kind name_of
object_reference o = record { kind = kind o; name = name_of o }
