-- ===== src/Objects/Functions.antt =====
-- What is made of a function: `Function::init` (objects/function.rs) and `from_function` of services,
-- replica sets, autoscalers and pod templates. A new identifier is an argument.
use r_mini_k8s.Prelude.{
  String, Option, none, some, [], ◌∷◌, Outcome, ok, panics, ◌>>=◌, text, string_eq,
}
use r_mini_k8s.Prelude.HashMap.{insert}
use r_mini_k8s.Objects.Meta.{Uuid, Ipv4Addr}
use r_mini_k8s.Objects.ContainerSpec.{default_container, default_pod_spec, if_not_present}
use r_mini_k8s.Objects.Autoscaler.{HorizontalPodAutoscaler}
use r_mini_k8s.Objects.Workloads.{Service, ReplicaSet, PodTemplateSpec, Function, FunctionStatus}

-- `Function::init`
unfoldable pub init : Uuid → String → String → Function → Function
unfolding insert
init uid svc_name filename func = record func {
  metadata = record (func.metadata) {
    uid = some uid;
    labels = insert "function" func.metadata.name [];
  };
  status = some record {
    service_ref = svc_name;
    filename = filename;
    host = text (func.metadata.name ∷ ".func.minik8s.com" ∷ []);
    image = none;
  };
}

unfoldable pub service_from_function : Uuid → String → String → Ipv4Addr → Service
service_from_function uid name func_name cluster_ip = record {
  metadata = record {
    name = name;
    uid = some uid;
    labels = [];
    owner_references = record { kind = "function"; name = func_name } ∷ [];
  };
  spec = record {
    selector = ("function", func_name) ∷ [];
    ports = record { port = 80; target_port = 80 } ∷ [];
    endpoints = [];
    cluster_ip = some cluster_ip;
  };
}

abbrev image_of : Option FunctionStatus → Outcome String
image_of none = panics
image_of (some status) = elim status.image [ none ↦ panics | some image ↦ ok image ]

-- It panics without an image.
unfoldable pub template_from_function : Function → Outcome PodTemplateSpec
template_from_function func = do
  image ← image_of func.status
  ok record {
    metadata = record {
      name = func.metadata.name;
      uid = none;
      labels = func.metadata.labels;
      owner_references = [];
    };
    spec = record default_pod_spec {
      containers =
          record default_container {
            name = func.metadata.name;
            image = image;
            image_pull_policy = some if_not_present;
            ports = record { container_port = 80 } ∷ [];
          }
          ∷ [];
    };
  }

unfoldable pub rs_from_function : Function → Outcome ReplicaSet
unfolding template_from_function
rs_from_function func = do
  template ← template_from_function func
  ok record {
    metadata = record {
      name = func.metadata.name;
      uid = none;
      labels = func.metadata.labels;
      owner_references = record { kind = "function"; name = func.metadata.name } ∷ [];
    };
    spec = record { selector = func.metadata.labels; template = template; replicas = 0 };
    status = none;
  }

unfoldable pub hpa_from_function : Function → HorizontalPodAutoscaler
hpa_from_function func = record {
  metadata = record {
    name = func.metadata.name;
    uid = none;
    labels = func.metadata.labels;
    owner_references = record { kind = "function"; name = func.metadata.name } ∷ [];
  };
  spec = record {
    max_replicas = func.spec.max_replicas;
    min_replicas = 0;
    scale_target_ref = record { kind = "ReplicaSet"; name = func.metadata.name };
    behavior = func.spec.behavior;
    metrics = func.spec.metrics;
  };
  status = none;
}
