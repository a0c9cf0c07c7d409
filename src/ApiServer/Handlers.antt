-- ===== src/ApiServer/Handlers.antt =====
-- The handlers of pods and replica sets: api_server/src/handler/pod.rs and replica_set.rs. The
-- new identifier, the random suffix of a name and the time are arguments. The watches and the
-- proxies to rkubelet are streams and left out.
use Prim.Native.String
use r_mini_k8s.Prelude.{String, Option, none, some, List, string_eq}
use r_mini_k8s.Objects.{
  KubeObject, pod, replica_set, uri, Pod, PodStatus, pending, default_status, ReplicaSet, Uuid,
  NaiveDateTime,
}
use r_mini_k8s.ApiServer.Etcd.{
  AppState, HandlerResult, success, failure, panicked, internal_server_error, etcd_put, etcd_delete,
  etcd_get_object, etcd_get_objects_by_prefix, key_of,
}

-- `unique_name`, with the suffix drawn.
unfoldable pub unique_name : String → String → String
unique_name name suffix = String.◌++◌ name (String.◌++◌ "-" suffix)

abbrev status_or_default : NaiveDateTime → Option PodStatus → PodStatus
status_or_default now none = default_status now
status_or_default now (some status) = status

-- The pod that `create` stores.
unfoldable pub created_pod : Uuid → String → NaiveDateTime → Pod → Pod
unfolding unique_name default_status
created_pod uid suffix now object = record object {
  metadata = record (object.metadata) {
    uid = some uid;
    name = unique_name object.metadata.name suffix;
  };
  status = some (record (status_or_default now object.status) { phase = pending });
}

-- The payload is a `KubeObject`, of which only a pod is stored.
unfoldable pub pod_create :
    Uuid → String → NaiveDateTime → AppState → KubeObject → AppState × HandlerResult Unit
unfolding created_pod etcd_put
pod_create uid suffix now app (pod object) =
    (etcd_put app (pod (created_pod uid suffix now object)), success tt)
pod_create uid suffix now app _ = (app, failure internal_server_error)

unfoldable pub pod_get : AppState → String → HandlerResult KubeObject
unfolding etcd_get_object
pod_get app name = etcd_get_object app (key_of "pods" name) "pod"

abbrev pub replace_with :
    AppState → KubeObject → HandlerResult KubeObject → AppState × HandlerResult Unit
replace_with app (pod object) (success _) = (etcd_put app (pod object), success tt)
replace_with app payload (success _) = (app, failure internal_server_error)
replace_with app payload (failure code) = (app, failure code)
replace_with app payload panicked = (app, panicked)

unfoldable pub pod_replace : AppState → String → KubeObject → AppState × HandlerResult Unit
unfolding etcd_get_object etcd_put
pod_replace app name payload =
    replace_with app payload (etcd_get_object app (key_of "pods" name) "pod")

unfoldable pub pod_delete : AppState → String → AppState × HandlerResult Unit
unfolding etcd_delete
pod_delete app name = etcd_delete app (key_of "pods" name)

unfoldable pub pod_list : AppState → HandlerResult (List KubeObject)
unfolding etcd_get_objects_by_prefix
pod_list app = etcd_get_objects_by_prefix app.etcd "/api/v1/pods" "pod"

unfoldable pub created_rs : Uuid → ReplicaSet → ReplicaSet
created_rs uid rs = record rs {
  metadata = record (rs.metadata) { uid = some uid };
  status = some (record { replicas = 0; ready_replicas = 0 });
}

abbrev pub create_unless :
    Uuid → AppState → ReplicaSet → HandlerResult KubeObject → AppState × HandlerResult Unit
create_unless uid app rs (success _) = (app, failure internal_server_error)
create_unless uid app rs _ = (etcd_put app (replica_set (created_rs uid rs)), success tt)

unfoldable pub rs_create : Uuid → AppState → KubeObject → AppState × HandlerResult Unit
unfolding uri etcd_get_object etcd_put created_rs
rs_create uid app (replica_set rs) =
    create_unless uid app rs (etcd_get_object app (uri (replica_set rs)) "replicaset")
rs_create uid app _ = (app, failure internal_server_error)

unfoldable pub rs_get : AppState → String → HandlerResult KubeObject
unfolding etcd_get_object
rs_get app name = etcd_get_object app (key_of "replicasets" name) "replicaset"

unfoldable pub rs_delete : AppState → String → AppState × HandlerResult Unit
unfolding etcd_delete
rs_delete app name = etcd_delete app (key_of "replicasets" name)

-- The name in the path is not looked at.
unfoldable pub rs_update : AppState → String → KubeObject → AppState × HandlerResult Unit
unfolding etcd_put
rs_update app name (replica_set rs) = (etcd_put app (replica_set rs), success tt)
rs_update app name _ = (app, failure internal_server_error)

abbrev pub patch_with :
    AppState → KubeObject → HandlerResult KubeObject → AppState × HandlerResult Unit
patch_with app (replica_set payload) (success (replica_set rs)) =
    (etcd_put app (replica_set (record rs { spec = payload.spec })), success tt)
patch_with app payload (success _) = (app, failure internal_server_error)
patch_with app payload (failure code) = (app, failure code)
patch_with app payload panicked = (app, panicked)

unfoldable pub rs_patch : AppState → String → KubeObject → AppState × HandlerResult Unit
unfolding etcd_get_object etcd_put
rs_patch app name payload =
    patch_with app payload (etcd_get_object app (key_of "replicasets" name) "replicaset")

unfoldable pub rs_list : AppState → HandlerResult (List KubeObject)
unfolding etcd_get_objects_by_prefix
rs_list app = etcd_get_objects_by_prefix app.etcd "/api/v1/replicasets" "replicaset"
