-- ===== src/ApiServer/Invariant.antt =====
-- Every call keeps each object under its own key.
use r_mini_k8s.Prelude.{
  Bool, String, Option, none, some, List, [], ◌∷◌, ◌≡◌, refl, arith, string_eq, nat_eq, unit_eq,
  Option-cases, inl, inr, Bool-cases,
}
use r_mini_k8s.Prelude.HashMap.{HashMap, get, insert, contains_key}
use r_mini_k8s.Objects.{
  KubeObject, Node, Binding, Pod, Service, ReplicaSet, pod, replica_set, node, service, binding,
  ingress, hpa, gpu_job, function, workflow, uri, lowercase_kind, Uuid, NaiveDateTime, Ipv4Addr,
}
use r_mini_k8s.ApiServer.Etcd.{
  AppState, HandlerResult, success, failure, panicked, etcd_get_object, of_kind, gen_service_ip,
}
use r_mini_k8s.ApiServer.Handlers.{
  replace_with, created_pod, created_rs, create_unless, patch_with, pod_create, pod_replace,
  pod_delete, rs_create, rs_delete, rs_update, rs_patch,
}
use r_mini_k8s.ApiServer.Cluster.{
  update_node, unscrape, delete_node, patch_node, put_bound, bind_to, create_service, with_ip,
  node_update, node_delete, node_patch, bind, service_create, service_update, service_delete,
}
use r_mini_k8s.ApiServer.Filed.{Filed, IsFiled, put-IsFiled, delete-IsFiled, state_after}
use r_mini_k8s.ApiServer.AppSteps.{perform_app-IsFiled}
use r_mini_k8s.ApiServer.Steps.{
  app_called, Call, pod_created, pod_replaced, pod_deleted, rs_created, rs_deleted, rs_updated,
  rs_patched, node_updated, node_deleted, node_patched, pod_bound, service_created, service_updated,
  service_deleted, perform, perform_all,
}

replace-IsFiled :
    (app : AppState) (payload : KubeObject) (r : HandlerResult KubeObject)
    → IsFiled app
    → IsFiled (replace_with app payload r).0
replace-IsFiled app payload r f = ground (arith, put-IsFiled app payload f)

create-IsFiled :
    (uid : Uuid) (app : AppState) (rs : ReplicaSet) (r : HandlerResult KubeObject)
    → IsFiled app
    → IsFiled (create_unless uid app rs r).0
create-IsFiled uid app rs r f = ground (arith, put-IsFiled app (replica_set (created_rs uid rs)) f)

patch-IsFiled :
    (app : AppState) (payload : KubeObject) (r : HandlerResult KubeObject)
    → IsFiled app
    → IsFiled (patch_with app payload r).0
patch-IsFiled app payload r f = grind (arith, put-IsFiled)

update_node-IsFiled :
    (uid : Uuid) (answer : Bool) (app : AppState) (object : Node) (r : HandlerResult KubeObject)
    → IsFiled app
    → IsFiled (update_node uid answer app object r).0
update_node-IsFiled uid answer app object r f = grind (arith, put-IsFiled)

unscrape-IsFiled :
    (answer : Bool) (object : KubeObject) (r : AppState × HandlerResult Unit)
    → IsFiled r.0
    → IsFiled (unscrape answer object r).0
unscrape-IsFiled answer object r f = ground arith

delete_node-IsFiled :
    (answer : Bool) (app : AppState) (name : String) (r : HandlerResult KubeObject)
    → IsFiled app
    → IsFiled (delete_node answer app name r).0
delete_node-IsFiled answer app name (success object) f =
    unscrape-IsFiled answer object _ (delete-IsFiled app _ f)
delete_node-IsFiled answer app name (failure code) f = f
delete_node-IsFiled answer app name panicked f = f

patch_node-IsFiled :
    (app : AppState) (payload : KubeObject) (r : HandlerResult KubeObject)
    → IsFiled app
    → IsFiled (patch_node app payload r).0
patch_node-IsFiled app payload r f = grind (arith, put-IsFiled)

put_bound-IsFiled :
    (app : AppState) (payload : Binding) (o : Option Pod)
    → IsFiled app
    → IsFiled (put_bound app payload o).0
put_bound-IsFiled app payload none f = f
put_bound-IsFiled app payload (some object) f =
    put-IsFiled _ (binding payload) (put-IsFiled app (pod object) f)

bind-IsFiled :
    (app : AppState) (payload : Binding) (r s : HandlerResult KubeObject)
    → IsFiled app
    → IsFiled (bind_to app payload r s).0
bind-IsFiled app payload r s f = grind (arith, put_bound-IsFiled)

create_service-IsFiled :
    (draws : List Ipv4Addr) (app : AppState) (object : Service) (ip : Option Ipv4Addr)
    → IsFiled app
    → IsFiled (state_after app (create_service draws app object ip))
unfolding create_service
create_service-IsFiled draws app object (some ip) f =
    elim (Bool-cases (contains_key ip app.service_ip_pool)) [
      | inl taken ↦ rw (taken, create_service) f
      | inr free ↦ rw (free, create_service) (put-IsFiled app (service object) f)
    ]
create_service-IsFiled draws app object none f =
    elim (Option-cases (gen_service_ip app.service_ip_pool draws)) [
      | inl over ↦ rw (over, create_service) f
      | inr (ip, e) ↦
          let app' = record app { service_ip_pool = insert ip tt app.service_ip_pool } in
          rw (e, create_service)
            (put-IsFiled app' (service (with_ip object ip))
              (record { distinct = f.distinct; filed = f.filed }))
    ]

pod_create-IsFiled :
    (uid : Uuid) (suffix : String) (now : NaiveDateTime) (app : AppState) (payload : KubeObject)
    → IsFiled app
    → IsFiled (pod_create uid suffix now app payload).0
unfolding pod_create
pod_create-IsFiled uid suffix now app (pod object) f =
    put-IsFiled app (pod (created_pod uid suffix now object)) f
pod_create-IsFiled uid suffix now app (binding _) f = f
pod_create-IsFiled uid suffix now app (node _) f = f
pod_create-IsFiled uid suffix now app (service _) f = f
pod_create-IsFiled uid suffix now app (replica_set _) f = f
pod_create-IsFiled uid suffix now app (ingress _) f = f
pod_create-IsFiled uid suffix now app (hpa _) f = f
pod_create-IsFiled uid suffix now app (gpu_job _) f = f
pod_create-IsFiled uid suffix now app (function _) f = f
pod_create-IsFiled uid suffix now app (workflow _) f = f

pub perform-IsFiled : (app : AppState) (call : Call) → IsFiled app → IsFiled (perform app call)
unfolding perform pod_create pod_replace pod_delete rs_create rs_delete rs_update rs_patch
    node_update node_delete node_patch bind service_create service_update service_delete
perform-IsFiled app (pod_created uid suffix now payload) f =
    pod_create-IsFiled uid suffix now app payload f
perform-IsFiled app (pod_replaced name payload) f = replace-IsFiled app payload _ f
perform-IsFiled app (pod_deleted name) f = delete-IsFiled app _ f
perform-IsFiled app (rs_created uid payload) f = grind (arith, create-IsFiled)
perform-IsFiled app (rs_deleted name) f = delete-IsFiled app _ f
perform-IsFiled app (rs_updated name payload) f = ground (arith, put-IsFiled app payload f)
perform-IsFiled app (rs_patched name payload) f = patch-IsFiled app payload _ f
perform-IsFiled app (node_updated uid answer name payload) f = grind (arith, update_node-IsFiled)
perform-IsFiled app (node_deleted answer name) f = delete_node-IsFiled answer app name _ f
perform-IsFiled app (node_patched name payload) f = patch_node-IsFiled app payload _ f
perform-IsFiled app (pod_bound payload) f = grind (arith, bind-IsFiled)
perform-IsFiled app (service_created uid draws payload) f = grind (arith, create_service-IsFiled)
perform-IsFiled app (service_updated payload) f = ground (arith, put-IsFiled app payload f)
perform-IsFiled app (service_deleted name) f = delete-IsFiled app _ f
perform-IsFiled app (app_called call) f = perform_app-IsFiled app call f

perform_all-IsFiled :
    (app : AppState) (calls : List Call) → IsFiled app → IsFiled (perform_all app calls)
unfolding perform_all
perform_all-IsFiled app [] f = f
perform_all-IsFiled app (call ∷ calls) f =
    perform_all-IsFiled (perform app call) calls (perform-IsFiled app call f)

pub get-Filed :
    (m : HashMap String KubeObject) (key : String) (object : KubeObject)
    → Filed m
    → get key m ≡ some object
    → uri object ≡ key
unfolding get
get-Filed [] key object f g = ground arith
get-Filed ((k, old) ∷ m) key object f g =
    ground (arith, get-Filed m key object f.1, string_eq.beq_iff k key)

abbrev pub empty : AppState
empty = record { etcd = []; service_ip_pool = [] }

-- After any calls on an empty server, an object read at a key has that key as its `uri`, and it is
-- of the kind that was asked for.
pub get-perform_all :
    (calls : List Call) (key kind : String) (object : KubeObject)
    → etcd_get_object (perform_all empty calls) key kind ≡ success object
    → (uri object ≡ key) × (lowercase_kind object ≡ kind)
unfolding etcd_get_object of_kind
get-perform_all calls key kind object e = from (get key (perform_all empty calls).etcd) refl e
  where
    filed : IsFiled (perform_all empty calls)
    filed = perform_all-IsFiled empty calls (record { distinct = tt; filed = tt })

    from :
        (o : Option KubeObject)
        → get key (perform_all empty calls).etcd ≡ o
        → of_kind kind o ≡ success object
        → (uri object ≡ key) × (lowercase_kind object ≡ kind)
    from none g e = ground arith
    from (some found) g e = ground (
      arith,
      string_eq.beq_iff (lowercase_kind found) kind,
      get-Filed (perform_all empty calls).etcd key found filed.filed g,
    )
