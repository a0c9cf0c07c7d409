-- ===== src/Examples/Data.antt =====
-- Concrete objects.
use r_mini_k8s.Prelude.{
  ℕ, ◌+◌, ◌-◌, ◌*◌, ◌/◌, ◌%◌, String, Bool, true, false, Option, none, some, [], ◌∷◌, ltb, u32_mod,
  arith,
}
use r_mini_k8s.Objects.{
  Metadata, Labels, Pod, PodSpec, PodStatus, PodPhase, failed, ready, RestartPolicy, Node,
  internal_ip, ReplicaSet, Service, HpaScalingRules, pods, min_change, HorizontalPodAutoscaler,
  function, Ipv4Addr,
}
use r_mini_k8s.PodAutoscaler.Float.{Float64}

abbrev pub web : Labels
web = ("app", "web") ∷ []

abbrev pub meta : String → Labels → Metadata
meta name labels = record { name = name; uid = some 7; labels = labels; owner_references = [] }

abbrev pub plain_spec : Option String → PodSpec
plain_spec node = record {
  containers = [];
  volumes = [];
  restart_policy = RestartPolicy.always;
  host_network = false;
  node_selector = [];
  node_name = node;
}

abbrev pub status_with : PodPhase → Bool → Option Ipv4Addr → PodStatus
status_with phase is_ready ip = record {
  host_ip = none;
  start_time = 5;
  phase = phase;
  pod_ip = ip;
  conditions = (ready, record { status = is_ready }) ∷ [];
  container_statuses = [];
}

-- A pod with no node yet, a running one, a failed one, and one with no labels.
abbrev pub new_pod : Pod
new_pod = record { metadata = meta "web-1" web; spec = plain_spec none; status = none }

abbrev pub running_pod : Pod
running_pod = record {
  metadata = meta "web-2" web;
  spec = plain_spec (some "node-1");
  status = some (status_with PodPhase.running true (some 10));
}

abbrev pub failed_pod : Pod
failed_pod = record {
  metadata = meta "web-3" web;
  spec = plain_spec (some "node-1");
  status = some (status_with failed false none);
}

abbrev pub unlabelled_pod : Pod
unlabelled_pod = record {
  metadata = meta "job-1" [];
  spec = plain_spec (some "node-1");
  status = some (status_with PodPhase.running true (some 11));
}

abbrev pub node_1 : Node
node_1 = record {
  metadata = meta "node-1" [];
  status = record {
    addresses = (internal_ip, "10.0.0.1") ∷ [];
    allocatable = record { cpu = 4; memory = 1024 };
    capacity = record { cpu = 4; memory = 1024 };
    kubelet_port = 10250;
    node_info = record {
      architecture = "x86_64";
      machine_id = "m";
      operating_system = "linux";
      os_image = "linux";
    };
    last_heartbeat = 100;
  };
}

abbrev pub web_rs : ℕ → ReplicaSet
web_rs n = record {
  metadata = meta "web" web;
  spec = record {
    selector = web;
    template = record { metadata = meta "web" web; spec = plain_spec none };
    replicas = n;
  };
  status = none;
}

abbrev pub web_service : Option Ipv4Addr → Service
web_service ip = record {
  metadata = meta "web" [];
  spec = record { selector = web; ports = []; endpoints = []; cluster_ip = ip };
}

abbrev pub rules : HpaScalingRules
rules = record {
  policies = record { type_ = pods; value = 2; period_seconds = 60 } ∷ [];
  select_policy = min_change;
  stabilization_window_seconds = 60;
}

abbrev pub web_hpa : HorizontalPodAutoscaler
web_hpa = record {
  metadata = meta "web" [];
  spec = record {
    max_replicas = 10;
    min_replicas = 1;
    scale_target_ref = record { kind = "ReplicaSet"; name = "web" };
    behavior = record { scale_down = rules; scale_up = rules };
    metrics = function (record { name = "web"; target = 10 });
  };
  status = some (record { desired_replicas = 2; current_replicas = 2; last_scale_time = none });
}

-- Fixed-point numbers with three decimals in place of the processor's.
abbrev pub fixed_point : Float64
fixed_point = record {
  F = ℕ;
  of_nat = λ n. n * 1000;
  of_i64 = λ n. n * 1000;
  add = λ a b. a + b;
  sub = λ a b. a - b;
  mul = λ a b. a * b / 1000;
  div = λ a b. a * 1000 / b;
  lt = ltb;
  ceil_u32 = λ x. (x + 999) / 1000 % u32_mod;
  ceil_u32_lt = λ x. omega arith;
}
