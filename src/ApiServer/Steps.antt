-- ===== src/ApiServer/Steps.antt =====
-- Sequences of calls: what a client can do to the API server.
use r_mini_k8s.Prelude.{Bool, String, List, [], ◌∷◌, string_eq, nat_eq, unit_eq}
use r_mini_k8s.Objects.{KubeObject, Uuid, NaiveDateTime, Ipv4Addr}
use r_mini_k8s.ApiServer.Etcd.{AppState}
use r_mini_k8s.ApiServer.Filed.{state_after}
use r_mini_k8s.ApiServer.AppSteps.{AppCall, perform_app}
use r_mini_k8s.ApiServer.Handlers.{
  pod_create, pod_replace, pod_delete, rs_create, rs_delete, rs_update, rs_patch,
}
use r_mini_k8s.ApiServer.Cluster.{
  node_update, node_delete, node_patch, bind, service_create, service_update, service_delete,
}

-- A call that changes the state, with what it draws at random and the answer of the metrics server.
pub data Call : Type 0 where
  pod_created : Uuid → String → NaiveDateTime → KubeObject → Call
  pod_replaced : String → KubeObject → Call
  pod_deleted : String → Call
  rs_created : Uuid → KubeObject → Call
  rs_deleted : String → Call
  rs_updated : String → KubeObject → Call
  rs_patched : String → KubeObject → Call
  node_updated : Uuid → Bool → String → KubeObject → Call
  node_deleted : Bool → String → Call
  node_patched : String → KubeObject → Call
  pod_bound : KubeObject → Call
  service_created : Uuid → List Ipv4Addr → KubeObject → Call
  service_updated : KubeObject → Call
  service_deleted : String → Call
  app_called : AppCall → Call

unfoldable pub perform : AppState → Call → AppState
unfolding pod_create pod_replace pod_delete rs_create rs_delete rs_update rs_patch node_update
    node_delete node_patch bind service_create service_update service_delete perform_app
perform app (pod_created uid suffix now payload) = (pod_create uid suffix now app payload).0
perform app (pod_replaced name payload) = (pod_replace app name payload).0
perform app (pod_deleted name) = (pod_delete app name).0
perform app (rs_created uid payload) = (rs_create uid app payload).0
perform app (rs_deleted name) = (rs_delete app name).0
perform app (rs_updated name payload) = (rs_update app name payload).0
perform app (rs_patched name payload) = (rs_patch app name payload).0
perform app (node_updated uid answer name payload) = (node_update uid answer app name payload).0
perform app (node_deleted answer name) = (node_delete answer app name).0
perform app (node_patched name payload) = (node_patch app name payload).0
perform app (pod_bound payload) = (bind app payload).0
perform app (service_created uid draws payload) =
    state_after app (service_create uid draws app payload)
perform app (service_updated payload) = (service_update app payload).0
perform app (service_deleted name) = (service_delete app name).0
perform app (app_called call) = perform_app app call

unfoldable pub perform_all : AppState → List Call → AppState
unfolding perform
perform_all app [] = app
perform_all app (call ∷ calls) = perform_all (perform app call) calls
