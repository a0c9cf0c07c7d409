-- ===== src/ApiServer/Cluster.antt =====
-- The handlers of nodes, bindings and services: api_server/src/handler/node.rs, binding.rs and
-- service.rs. Whether the metrics server takes a change of its scrape targets is an argument.
use r_mini_k8s.Prelude.{
  Bool, true, String, Option, none, some, List, string_eq, nat_eq, unit_eq, if◌then◌else◌,
}
use r_mini_k8s.Prelude.HashMap.{get, insert, contains_key}
use r_mini_k8s.Objects.{
  KubeObject, pod, node, binding, service, Pod, PodStatus, pod_scheduled, condition_eq, Node,
  internal_ip, address_eq, Binding, Service, Uuid, Ipv4Addr,
}
use r_mini_k8s.ApiServer.Etcd.{
  AppState, HandlerResult, success, failure, panicked, internal_server_error, etcd_put, etcd_delete,
  etcd_get_object, etcd_get_objects_by_prefix, gen_service_ip, key_of,
}

unfoldable pub node_get : AppState → String → HandlerResult KubeObject
unfolding etcd_get_object
node_get app name = etcd_get_object app (key_of "nodes" name) "node"

unfoldable pub node_list : AppState → HandlerResult (List KubeObject)
unfolding etcd_get_objects_by_prefix
node_list app = etcd_get_objects_by_prefix app.etcd "/api/v1/nodes" "node"

-- `addresses.get(&NodeAddressType::InternalIP)`
unfoldable pub internal_address : Node → Option String
unfolding get
internal_address object = get internal_ip object.status.addresses

-- A node with no internal address has nothing to scrape.
abbrev pub scraped : Bool → Option String → Bool
scraped answer none = true
scraped answer (some _) = answer

abbrev pub put_node : AppState → Node → AppState × HandlerResult KubeObject
put_node app object = (etcd_put app (node object), success (node object))

abbrev pub update_node :
    Uuid → Bool → AppState → Node → HandlerResult KubeObject → AppState × HandlerResult KubeObject
update_node uid answer app object (success (node old)) =
    put_node app (record object { metadata = old.metadata })
update_node uid answer app object _ =
    if scraped answer (internal_address object)
    then put_node app (record object { metadata = record (object.metadata) { uid = some uid } })
    else (app, failure internal_server_error)

unfoldable pub node_update :
    Uuid → Bool → AppState → String → KubeObject → AppState × HandlerResult KubeObject
unfolding etcd_get_object etcd_put internal_address
node_update uid answer app name (node object) =
    update_node uid answer app object (etcd_get_object app (key_of "nodes" name) "node")
node_update uid answer app name _ = (app, failure internal_server_error)

-- The targets go after the node; an error of the delete ends the handler.
abbrev pub unscrape :
    Bool → KubeObject → AppState × HandlerResult Unit → AppState × HandlerResult Unit
unscrape answer (node object) (app, success _) = (
  app,
  if scraped answer (internal_address object) then success tt else failure internal_server_error,
)
unscrape answer object deleted = deleted

abbrev pub delete_node :
    Bool → AppState → String → HandlerResult KubeObject → AppState × HandlerResult Unit
delete_node answer app name (success object) =
    unscrape answer object (etcd_delete app (key_of "nodes" name))
delete_node answer app name (failure code) = (app, failure code)
delete_node answer app name panicked = (app, panicked)

unfoldable pub node_delete : Bool → AppState → String → AppState × HandlerResult Unit
unfolding etcd_get_object etcd_delete internal_address
node_delete answer app name =
    delete_node answer app name (etcd_get_object app (key_of "nodes" name) "node")

abbrev pub patch_node :
    AppState → KubeObject → HandlerResult KubeObject → AppState × HandlerResult Unit
patch_node app (node payload) (success (node old)) = (
  etcd_put app
      (node (record old { metadata = record (old.metadata) { labels = payload.metadata.labels } })),
  success tt,
)
patch_node app payload (success _) = (app, failure internal_server_error)
patch_node app payload (failure code) = (app, failure code)
patch_node app payload panicked = (app, panicked)

unfoldable pub node_patch : AppState → String → KubeObject → AppState × HandlerResult Unit
unfolding etcd_get_object etcd_put
node_patch app name payload =
    patch_node app payload (etcd_get_object app (key_of "nodes" name) "node")

unfoldable pub bound_with : Node → Binding → Pod → PodStatus → Pod
unfolding insert internal_address
bound_with target payload object status = record object {
  spec = record (object.spec) { node_name = some payload.target.name };
  status = some (record status {
    conditions = insert pod_scheduled (record { status = true }) status.conditions;
    host_ip = internal_address target;
  });
}

abbrev pub bound_if : Node → Binding → Pod → Option PodStatus → Option Pod
bound_if target payload object none = none
bound_if target payload object (some status) = some (bound_with target payload object status)

-- The pod with the binding written into it; `none` is the panic of a pod with no status.
unfoldable pub bound : Node → Binding → Pod → Option Pod
unfolding bound_with
bound target payload object = bound_if target payload object object.status

-- The pod is put back, then the binding.
abbrev pub put_bound : AppState → Binding → Option Pod → AppState × HandlerResult Unit
put_bound app payload none = (app, panicked)
put_bound app payload (some object) =
    (etcd_put (etcd_put app (pod object)) (binding payload), success tt)

abbrev pub bind_pod :
    AppState → Binding → Node → HandlerResult KubeObject → AppState × HandlerResult Unit
bind_pod app payload target (success (pod object)) =
    put_bound app payload (bound target payload object)
bind_pod app payload target (success _) = (app, failure internal_server_error)
bind_pod app payload target (failure code) = (app, failure code)
bind_pod app payload target panicked = (app, panicked)

abbrev pub bind_to :
    AppState
    → Binding
    → HandlerResult KubeObject
    → HandlerResult KubeObject
    → AppState × HandlerResult Unit
bind_to app payload (success (node target)) object = bind_pod app payload target object
bind_to app payload (success _) object = (app, failure internal_server_error)
bind_to app payload (failure code) object = (app, failure code)
bind_to app payload panicked object = (app, panicked)

unfoldable pub bind : AppState → KubeObject → AppState × HandlerResult Unit
unfolding etcd_get_object etcd_put bound
bind app (binding payload) =
    bind_to app payload (etcd_get_object app (key_of "nodes" payload.target.name) "node")
      (etcd_get_object app (key_of "pods" payload.metadata.name) "pod")
bind app _ = (app, failure internal_server_error)

abbrev pub with_uid : Uuid → Service → Service
with_uid uid object = record object { metadata = record (object.metadata) { uid = some uid } }

abbrev pub with_ip : Service → Ipv4Addr → Service
with_ip object ip = record object { spec = record (object.spec) { cluster_ip = some ip } }

-- An IP that the payload asks for is only looked up in the pool; a generated one enters it. `none`
-- of the generator stands for the draws that never end.
unfoldable pub create_service :
    List Ipv4Addr → AppState → Service → Option Ipv4Addr → Option (AppState × HandlerResult Unit)
unfolding contains_key insert gen_service_ip etcd_put
create_service draws app object (some ip) = some (
    if contains_key ip app.service_ip_pool
    then (app, failure internal_server_error)
    else (etcd_put app (service object), success tt))
create_service draws app object none = elim (gen_service_ip app.service_ip_pool draws) [
  | none ↦ none
  | some ip ↦ some (
    etcd_put (record app { service_ip_pool = insert ip tt app.service_ip_pool })
        (service (with_ip object ip)),
    success tt,
  )
]

unfoldable pub service_create :
    Uuid → List Ipv4Addr → AppState → KubeObject → Option (AppState × HandlerResult Unit)
unfolding create_service
service_create uid draws app (service object) =
    create_service draws app (with_uid uid object) object.spec.cluster_ip
service_create uid draws app _ = some (app, failure internal_server_error)

unfoldable pub service_update : AppState → KubeObject → AppState × HandlerResult Unit
unfolding etcd_put
service_update app (service object) = (etcd_put app (service object), success tt)
service_update app _ = (app, failure internal_server_error)

unfoldable pub service_get : AppState → String → HandlerResult KubeObject
unfolding etcd_get_object
service_get app name = etcd_get_object app (key_of "services" name) "service"

unfoldable pub service_list : AppState → HandlerResult (List KubeObject)
unfolding etcd_get_objects_by_prefix
service_list app = etcd_get_objects_by_prefix app.etcd "/api/v1/services" "service"

unfoldable pub service_delete : AppState → String → AppState × HandlerResult Unit
unfolding etcd_delete
service_delete app name = etcd_delete app (key_of "services" name)
