-- ===== src/Examples/Servers.antt =====
-- The API server and the endpoints controller on a node, a pod and a service.
use r_mini_k8s.Prelude.{
  ◌&&◌, ◌||◌, String, Bool, true, ◌≡◌, ◌≢◌, refl, none, some, List, [], ◌∷◌, string_eq, nat_eq,
  unit_eq, option_eq, ◌==◌, all, inl, inr,
}
use r_mini_k8s.Prelude.HashMap.{HashMap, values, get, insert, contains_key, map_eq, includes}
use r_mini_k8s.Objects.{
  KubeObject, pod, node, binding, service, uri, prefix, lowercase_kind, name_of, Pod, Service,
  Binding, matches, get_ip, Ipv4Addr,
}
use r_mini_k8s.ApiServer.Etcd.{
  failure, not_found, AppState, success, etcd_put, etcd_get_object, of_kind,
}
use r_mini_k8s.ApiServer.Handlers.{pod_get, pod_delete, pod_create, created_pod, unique_name}
use r_mini_k8s.ApiServer.Cluster.{bind, bound, service_create, with_uid}
use r_mini_k8s.ApiServer.Filed.{IsFiled}
use r_mini_k8s.ApiServer.Steps.{Call, pod_created, perform, perform_all}
use r_mini_k8s.ApiServer.Invariant.{empty, get-perform_all}
use r_mini_k8s.ApiServer.Bind.{IsBound, bind-IsBound}
use r_mini_k8s.ApiServer.RoundTrips.{pod_get-pod_create}
use r_mini_k8s.ApiServer.Services.{service_create_shared}
use r_mini_k8s.Endpoints.Defs.{
  selector_includes, gathered, gather, resynced, for_each, with_endpoint, added, add_svc_endpoint,
  handle_resync,
}
use r_mini_k8s.Endpoints.Resync.{serves, contains-handle_resync, unlabelled-endpoint}
use r_mini_k8s.Endpoints.Added.{contains-add_svc_endpoint}
use r_mini_k8s.Examples.Data.{new_pod, running_pod, unlabelled_pod, node_1, web_service}

abbrev create : List Call
create = pod_created 9 "abcde" 50 (pod new_pod) ∷ []

abbrev created : KubeObject
created = pod (created_pod 9 "abcde" 50 new_pod)

read_back :
    etcd_get_object (perform_all empty create) "/api/v1/pods/web-1-abcde" "pod" ≡ success created
unfolding perform_all perform pod_create etcd_put created_pod unique_name etcd_get_object of_kind
    get insert uri prefix lowercase_kind name_of
read_back = refl

get-perform_all_example :
    (uri created ≡ "/api/v1/pods/web-1-abcde") × (lowercase_kind created ≡ "pod")
get-perform_all_example = get-perform_all create "/api/v1/pods/web-1-abcde" "pod" created read_back

pod_get-pod_create_example :
    (pod_get (pod_create 9 "abcde" 50 empty (pod new_pod)).0 (unique_name "web-1" "abcde")
      ≡ success created)
    × (pod_get
          (pod_delete
            (pod_create 9 "abcde" 50 empty (pod new_pod)).0
            (unique_name "web-1" "abcde")).0
          (unique_name "web-1" "abcde")
        ≡ failure not_found)
pod_get-pod_create_example = pod_get-pod_create 9 "abcde" 50 empty new_pod

abbrev cluster : AppState
cluster = record {
  etcd = ("/api/v1/nodes/node-1", node node_1) ∷ ("/api/v1/pods/web-2", pod running_pod) ∷ [];
  service_ip_pool = [];
}

cluster-IsFiled : IsFiled cluster
unfolding get uri prefix lowercase_kind name_of
cluster-IsFiled = record { distinct = (refl, (refl, tt)); filed = (refl, (refl, tt)) }

abbrev to_node_1 : Binding
to_node_1 = record {
  metadata = running_pod.metadata;
  target = record { kind = "node"; name = "node-1" };
}

abbrev bound_cluster : AppState
bound_cluster = (bind cluster (binding to_node_1)).0

bind_succeeds : bind cluster (binding to_node_1) ≡ (bound_cluster, success tt)
unfolding bind etcd_get_object of_kind get bound lowercase_kind
bind_succeeds = refl

bind-IsBound_example : IsBound cluster bound_cluster to_node_1
bind-IsBound_example = bind-IsBound cluster bound_cluster to_node_1 cluster-IsFiled bind_succeeds

abbrev api_service : Service
api_service = record (web_service (some 20)) {
  metadata = record ((web_service none).metadata) { name = "api" };
}

service_create_shared_example :
    (app' last : AppState) × (service_create 3 [] cluster (service (web_service (some 20)))
      ≡ some (app', success tt))
    × (service_create 4 [] app' (service api_service) ≡ some (last, success tt))
    × (get (uri (service api_service)) last.etcd ≡ some (service (with_uid 4 api_service)))
    × (uri (service (web_service (some 20))) ≢ uri (service api_service)
        → get (uri (service (web_service (some 20)))) last.etcd
          ≡ some (service (with_uid 3 (web_service (some 20)))))
unfolding contains_key get
service_create_shared_example =
    service_create_shared cluster (web_service (some 20)) api_service 20 3 4 [] [] refl refl refl

abbrev always_sent : Service → Bool
always_sent _ = true

abbrev services : HashMap String Service
services = ("/api/v1/services/web", web_service none) ∷ []

abbrev pods : HashMap String Pod
pods = ("/api/v1/pods/web-2", running_pod) ∷ ("/api/v1/pods/job-1", unlabelled_pod) ∷ []

abbrev synced : Service
synced = record (web_service none) {
  spec = record ((web_service none).spec) { endpoints = (10, tt) ∷ (11, tt) ∷ [] };
}

resync_completes : (handle_resync always_sent pods services).completed ≡ true
unfolding handle_resync for_each resynced gather gathered selector_includes matches all get insert
    get_ip map_eq includes
resync_completes = refl

resync_synced :
    get "/api/v1/services/web" (handle_resync always_sent pods services).store ≡ some synced
unfolding handle_resync for_each resynced gather gathered selector_includes matches all get insert
    get_ip map_eq includes
resync_synced = refl

contains-handle_resync_example :
    contains_key 10 synced.spec.endpoints ≡ serves synced.spec.selector 10 (values pods)
contains-handle_resync_example =
    contains-handle_resync always_sent pods services "/api/v1/services/web" synced 10 (tt, tt)
      resync_completes resync_synced

unlabelled-endpoint_example : contains_key 11 synced.spec.endpoints ≡ true
unfolding get_ip
unlabelled-endpoint_example =
    unlabelled-endpoint always_sent pods services "/api/v1/services/web" synced unlabelled_pod 11
      (tt, tt) resync_completes resync_synced (inr (inl refl)) refl refl

contains-add_svc_endpoint_example :
    (new : Service) × (get "/api/v1/services/web"
        (add_svc_endpoint always_sent services running_pod).store
      ≡ some new)
    × ((j : Ipv4Addr)
        → contains_key j new.spec.endpoints ≡ (
            (10 == j && matches (web_service none).spec.selector running_pod.metadata.labels)
            || contains_key j (web_service none).spec.endpoints))
unfolding add_svc_endpoint added for_each with_endpoint selector_includes matches all get get_ip
    contains_key
contains-add_svc_endpoint_example =
    contains-add_svc_endpoint always_sent services running_pod 10 "/api/v1/services/web"
      (web_service none) refl refl refl
