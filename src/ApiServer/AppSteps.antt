-- ===== src/ApiServer/AppSteps.antt =====
-- The calls of the handlers of autoscalers, GPU jobs, workflows, ingresses and functions.
use r_mini_k8s.Prelude.{
  ℕ, Bool, true, false, String, Option, none, some, List, arith, string_eq, nat_eq, unit_eq,
}
use r_mini_k8s.Prelude.HashMap.{insert}
use r_mini_k8s.Objects.{
  KubeObject, gpu_job, function, uri, init, Uuid, Ipv4Addr, HorizontalPodAutoscaler, GpuJob,
  Ingress, IngressRule, Function, FunctionStatus, ReplicaSetStatus,
}
use r_mini_k8s.ApiServer.Etcd.{AppState, HandlerResult, success, failure, panicked, etcd_put}
use r_mini_k8s.ApiServer.Apps.{
  put_hpa, create_for, create_hpa_unless, update_hpa, patch_hpa, create_job_unless, create_payload,
  patch_job, created_job, hpa_create, hpa_delete, hpa_update, hpa_patch, job_create, job_delete,
  job_update, job_patch,
}
use r_mini_k8s.ApiServer.Functions.{
  put_if, put_ingress, function_service, function_stored, without_owned, store_function,
  without_service, without_parts, delete_function, workflow_create, workflow_update,
  workflow_delete, ingress_create, ingress_update, ingress_delete, function_create, function_update,
  function_delete,
}
use r_mini_k8s.ApiServer.Filed.{IsFiled, put-IsFiled, delete-IsFiled, state_after}

pub data AppCall : Type 0 where
  hpa_created : (String → String) → Uuid → KubeObject → AppCall
  hpa_deleted : String → AppCall
  hpa_updated : String → KubeObject → AppCall
  hpa_patched : String → KubeObject → AppCall
  job_created : Uuid → Option KubeObject → Option String → AppCall
  job_deleted : String → AppCall
  job_updated : String → KubeObject → AppCall
  job_patched : String → KubeObject → AppCall
  workflow_created : Uuid → KubeObject → AppCall
  workflow_updated : KubeObject → AppCall
  workflow_deleted : String → AppCall
  ingress_created : Uuid → (ℕ → String) → KubeObject → AppCall
  ingress_updated : KubeObject → AppCall
  ingress_deleted : String → AppCall
  function_created :
      Uuid
      → Uuid
      → String
      → List Ipv4Addr
      → (ℕ → HandlerResult KubeObject)
      → Option KubeObject
      → Option String
      → AppCall
  function_updated : KubeObject → AppCall
  function_deleted : String → AppCall

unfoldable pub perform_app : AppState → AppCall → AppState
unfolding hpa_create hpa_delete hpa_update hpa_patch job_create job_delete job_update job_patch
    workflow_create workflow_update workflow_delete ingress_create ingress_update ingress_delete
    function_create function_update function_delete
perform_app app (hpa_created lower uid payload) = (hpa_create lower uid app payload).0
perform_app app (hpa_deleted name) = (hpa_delete app name).0
perform_app app (hpa_updated name payload) = (hpa_update app name payload).0
perform_app app (hpa_patched name payload) = (hpa_patch app name payload).0
perform_app app (job_created uid payload filename) = (job_create uid app payload filename).0
perform_app app (job_deleted name) = (job_delete app name).0
perform_app app (job_updated name payload) = (job_update app name payload).0
perform_app app (job_patched name payload) = (job_patch app name payload).0
perform_app app (workflow_created uid payload) = (workflow_create uid app payload).0
perform_app app (workflow_updated payload) = (workflow_update app payload).0
perform_app app (workflow_deleted name) = (workflow_delete app name).0
perform_app app (ingress_created uid draw payload) = (ingress_create uid draw app payload).0
perform_app app (ingress_updated payload) = (ingress_update app payload).0
perform_app app (ingress_deleted name) = (ingress_delete app name).0
perform_app app (function_created svc_uid uid suffix draws answers payload filename) =
    state_after app (function_create svc_uid uid suffix draws answers app payload filename)
perform_app app (function_updated payload) = (function_update app payload).0
perform_app app (function_deleted name) = (function_delete app name).0

put_hpa-IsFiled :
    (uid : Uuid) (app : AppState) (h : HorizontalPodAutoscaler) (s : Option ReplicaSetStatus)
    → IsFiled app
    → IsFiled (put_hpa uid app h s).0
put_hpa-IsFiled uid app h none f = f
put_hpa-IsFiled uid app h (some status) f = put-IsFiled app _ f

create_for-IsFiled :
    (uid : Uuid) (app : AppState) (h : HorizontalPodAutoscaler) (r : HandlerResult KubeObject)
    → IsFiled app
    → IsFiled (create_for uid app h r).0
create_for-IsFiled uid app h r f = grind (arith, put_hpa-IsFiled)

create_hpa_unless-IsFiled :
    (lower : String → String) (uid : Uuid) (app : AppState) (h : HorizontalPodAutoscaler)
    (r : HandlerResult KubeObject)
    → IsFiled app
    → IsFiled (create_hpa_unless lower uid app h r).0
create_hpa_unless-IsFiled lower uid app h (success _) f = f
create_hpa_unless-IsFiled lower uid app h (failure _) f = create_for-IsFiled uid app h _ f
create_hpa_unless-IsFiled lower uid app h panicked f = create_for-IsFiled uid app h _ f

update_hpa-IsFiled :
    (app : AppState) (payload : KubeObject) (r : HandlerResult KubeObject)
    → IsFiled app
    → IsFiled (update_hpa app payload r).0
update_hpa-IsFiled app payload r f = ground (arith, put-IsFiled app payload f)

patch_hpa-IsFiled :
    (app : AppState) (payload : KubeObject) (r : HandlerResult KubeObject)
    → IsFiled app
    → IsFiled (patch_hpa app payload r).0
patch_hpa-IsFiled app payload r f = grind (arith, put-IsFiled)

patch_job-IsFiled :
    (app : AppState) (payload : KubeObject) (r : HandlerResult KubeObject)
    → IsFiled app
    → IsFiled (patch_job app payload r).0
patch_job-IsFiled app payload r f = grind (arith, put-IsFiled)

create_job_unless-IsFiled :
    (uid : Uuid) (filename : String) (app : AppState) (job : GpuJob) (r : HandlerResult KubeObject)
    → IsFiled app
    → IsFiled (create_job_unless uid filename app job r).0
create_job_unless-IsFiled uid filename app job r f =
    ground (arith, put-IsFiled app (gpu_job (created_job uid filename job)) f)

put_if-IsFiled :
    (b : Bool) (app : AppState) (object : KubeObject)
    → IsFiled app
    → IsFiled (put_if b app object).0
unfolding put_if
put_if-IsFiled true app object f = put-IsFiled app object f
put_if-IsFiled false app object f = f

put_ingress-IsFiled :
    (uid : Uuid) (app : AppState) (i : Ingress) (rules : Option (List IngressRule))
    → IsFiled app
    → IsFiled (put_ingress uid app i rules).0
put_ingress-IsFiled uid app i none f = f
put_ingress-IsFiled uid app i (some rules) f = put-IsFiled app _ f

store_function-IsFiled :
    (svc_uid uid : Uuid) (suffix filename : String) (app : AppState) (func : Function)
    (ip : Ipv4Addr)
    → IsFiled app
    → IsFiled (store_function svc_uid uid suffix filename app func ip)
unfolding function_stored
store_function-IsFiled svc_uid uid suffix filename app func ip f =
    let svc = function_service svc_uid suffix ip func in
    let app' = record app { service_ip_pool = insert ip tt app.service_ip_pool } in
    put-IsFiled (etcd_put app' svc) (function (init uid (uri svc) filename func))
      (put-IsFiled app' svc (record { distinct = f.distinct; filed = f.filed }))

without_service-IsFiled :
    (app : AppState) (status : Option FunctionStatus)
    → IsFiled app
    → IsFiled (without_service app status)
without_service-IsFiled app none f = f
without_service-IsFiled app (some status) f = delete-IsFiled app _ f

without_owned-IsFiled :
    (app : AppState) (name : String) (status : Option FunctionStatus)
    → IsFiled app
    → IsFiled (without_owned app name status)
unfolding without_owned
without_owned-IsFiled app name status f =
    delete-IsFiled _ _ (delete-IsFiled _ _ (without_service-IsFiled app status f))

without_parts-IsFiled :
    (app : AppState) (name : String) (object : KubeObject)
    → IsFiled app
    → IsFiled (without_parts app name object)
unfolding without_parts
without_parts-IsFiled app name object f = grind (arith, without_owned-IsFiled)

delete_function-IsFiled :
    (app : AppState) (name : String) (r : HandlerResult KubeObject)
    → IsFiled app
    → IsFiled (delete_function app name r).0
delete_function-IsFiled app name (success object) f =
    delete-IsFiled _ _ (without_parts-IsFiled app name object f)
delete_function-IsFiled app name (failure code) f = f
delete_function-IsFiled app name panicked f = f

create_payload-IsFiled :
    (uid : Uuid) (filename : String) (app : AppState) (payload : KubeObject)
    → IsFiled app
    → IsFiled (create_payload uid filename app payload).0
create_payload-IsFiled uid filename app payload f = grind (arith, create_job_unless-IsFiled)

pub perform_app-IsFiled :
    (app : AppState) (call : AppCall) → IsFiled app → IsFiled (perform_app app call)
unfolding perform_app
perform_app-IsFiled app (hpa_created lower uid payload) f = grind (arith, create_hpa_unless-IsFiled)
perform_app-IsFiled app (hpa_deleted name) f = delete-IsFiled app _ f
perform_app-IsFiled app (hpa_updated name payload) f = update_hpa-IsFiled app payload _ f
perform_app-IsFiled app (hpa_patched name payload) f = patch_hpa-IsFiled app payload _ f
perform_app-IsFiled app (job_created uid payload filename) f = grind (arith, create_payload-IsFiled)
perform_app-IsFiled app (job_deleted name) f = delete-IsFiled app _ f
perform_app-IsFiled app (job_updated name payload) f = ground (arith, put-IsFiled app payload f)
perform_app-IsFiled app (job_patched name payload) f = patch_job-IsFiled app payload _ f
perform_app-IsFiled app (workflow_created uid payload) f = grind (arith, put_if-IsFiled)
perform_app-IsFiled app (workflow_updated payload) f = grind (arith, put_if-IsFiled)
perform_app-IsFiled app (workflow_deleted name) f = delete-IsFiled app _ f
perform_app-IsFiled app (ingress_created uid draw payload) f = grind (arith, put_ingress-IsFiled)
perform_app-IsFiled app (ingress_updated payload) f = ground (arith, put-IsFiled app payload f)
perform_app-IsFiled app (ingress_deleted name) f = delete-IsFiled app _ f
perform_app-IsFiled app (function_created svc_uid uid suffix draws answers payload filename) f =
    grind (arith, store_function-IsFiled)
perform_app-IsFiled app (function_updated payload) f = ground (arith, put-IsFiled app payload f)
perform_app-IsFiled app (function_deleted name) f = delete_function-IsFiled app name _ f
