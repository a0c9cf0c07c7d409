-- ===== src/ApiServer/Apps.antt =====
-- The handlers of autoscalers and GPU jobs: api_server/src/handler/hpa.rs and gpu_job.rs. The form
-- data of a job and its code file are arguments; the watches are streams and left out.
use r_mini_k8s.Prelude.{String, Option, none, some, List, string_eq, text, [], ◌∷◌}
use r_mini_k8s.Objects.{
  KubeObject, replica_set, hpa, gpu_job, uri, HorizontalPodAutoscaler, GpuJob, ReplicaSetStatus,
  Uuid,
}
use r_mini_k8s.ApiServer.Etcd.{
  AppState, HandlerResult, success, failure, panicked, internal_server_error, bad_request, etcd_put,
  etcd_delete, etcd_get_object, etcd_get_objects_by_prefix, key_of,
}

-- The object that `create` stores; without a status of the target it panics.
abbrev pub put_hpa :
    Uuid
    → AppState
    → HorizontalPodAutoscaler
    → Option ReplicaSetStatus
    → AppState × HandlerResult Unit
put_hpa uid app h none = (app, panicked)
put_hpa uid app h (some status) = (
  etcd_put app (
      hpa (record h {
        metadata = record (h.metadata) { uid = some uid };
        status = some record {
          desired_replicas = status.replicas;
          current_replicas = status.replicas;
          last_scale_time = none;
        };
      })),
  success tt,
)

-- By the object that has the name of the target.
abbrev pub create_for :
    Uuid
    → AppState
    → HorizontalPodAutoscaler
    → HandlerResult KubeObject
    → AppState × HandlerResult Unit
create_for uid app h (success (replica_set rs)) = put_hpa uid app h rs.status
create_for uid app h (success _) = (app, failure internal_server_error)
create_for uid app h (failure _) = (app, failure internal_server_error)
create_for uid app h panicked = (app, panicked)

abbrev pub create_hpa_unless :
    (String → String)
    → Uuid
    → AppState
    → HorizontalPodAutoscaler
    → HandlerResult KubeObject
    → AppState × HandlerResult Unit
create_hpa_unless lower uid app h (success _) = (app, failure internal_server_error)
create_hpa_unless lower uid app h _ =
    let target_kind = lower h.spec.scale_target_ref.kind in
    create_for uid app h (
      etcd_get_object app
        (text ("/api/v1/" ∷ target_kind ∷ "s/" ∷ h.spec.scale_target_ref.name ∷ [])) target_kind)

-- `lower` is `str::to_lowercase`.
unfoldable pub hpa_create :
    (String → String) → Uuid → AppState → KubeObject → AppState × HandlerResult Unit
unfolding uri etcd_get_object etcd_put
hpa_create lower uid app (hpa h) =
    create_hpa_unless lower uid app h (etcd_get_object app (uri (hpa h)) "horizontalpodautoscaler")
hpa_create lower uid app _ = (app, failure internal_server_error)

abbrev pub hpa_at : AppState → String → HandlerResult KubeObject
hpa_at app name =
    etcd_get_object app (key_of "horizontalpodautoscalers" name) "horizontalpodautoscaler"

unfoldable pub hpa_get : AppState → String → HandlerResult KubeObject
hpa_get app name = hpa_at app name

unfoldable pub hpa_delete : AppState → String → AppState × HandlerResult Unit
unfolding etcd_delete
hpa_delete app name = etcd_delete app (key_of "horizontalpodautoscalers" name)

abbrev pub update_hpa :
    AppState → KubeObject → HandlerResult KubeObject → AppState × HandlerResult Unit
update_hpa app (hpa h) (success _) = (etcd_put app (hpa h), success tt)
update_hpa app payload (success _) = (app, failure internal_server_error)
update_hpa app payload (failure code) = (app, failure code)
update_hpa app payload panicked = (app, panicked)

unfoldable pub hpa_update : AppState → String → KubeObject → AppState × HandlerResult Unit
hpa_update app name payload = update_hpa app payload (hpa_at app name)

abbrev pub patch_hpa :
    AppState → KubeObject → HandlerResult KubeObject → AppState × HandlerResult Unit
patch_hpa app (hpa payload) (success (hpa h)) =
    (etcd_put app (hpa (record h { spec = payload.spec })), success tt)
patch_hpa app payload (success _) = (app, failure internal_server_error)
patch_hpa app payload (failure code) = (app, failure code)
patch_hpa app payload panicked = (app, panicked)

unfoldable pub hpa_patch : AppState → String → KubeObject → AppState × HandlerResult Unit
hpa_patch app name payload = patch_hpa app payload (hpa_at app name)

unfoldable pub hpa_list : AppState → HandlerResult (List KubeObject)
unfolding etcd_get_objects_by_prefix
hpa_list app =
    etcd_get_objects_by_prefix app.etcd "/api/v1/horizontalpodautoscalers" "horizontalpodautoscaler"

unfoldable pub created_job : Uuid → String → GpuJob → GpuJob
created_job uid filename job = record job {
  metadata = record (job.metadata) { uid = some uid };
  status =
      some
        record { active = 0; failed = 0; succeeded = 0; filename = some filename; template = none };
}

abbrev pub create_job_unless :
    Uuid → String → AppState → GpuJob → HandlerResult KubeObject → AppState × HandlerResult Unit
create_job_unless uid filename app job (success _) = (app, failure internal_server_error)
create_job_unless uid filename app job _ =
    (etcd_put app (gpu_job (created_job uid filename job)), success tt)

abbrev pub create_payload : Uuid → String → AppState → KubeObject → AppState × HandlerResult Unit
create_payload uid filename app (gpu_job job) =
    create_job_unless uid filename app job (etcd_get_object app (uri (gpu_job job)) "gpujob")
create_payload uid filename app _ = (app, failure internal_server_error)

-- The fields `gpujob` and `code` of the form, as far as they are there.
unfoldable pub job_create :
    Uuid → AppState → Option KubeObject → Option String → AppState × HandlerResult Unit
job_create uid app none filename = (app, failure bad_request)
job_create uid app (some payload) none = (app, failure bad_request)
job_create uid app (some payload) (some filename) = create_payload uid filename app payload

unfoldable pub job_get : AppState → String → HandlerResult KubeObject
unfolding etcd_get_object
job_get app name = etcd_get_object app (key_of "gpujobs" name) "gpujob"

unfoldable pub job_delete : AppState → String → AppState × HandlerResult Unit
unfolding etcd_delete
job_delete app name = etcd_delete app (key_of "gpujobs" name)

-- Unlike for autoscalers, the job need not exist.
unfoldable pub job_update : AppState → String → KubeObject → AppState × HandlerResult Unit
unfolding etcd_put
job_update app name (gpu_job job) = (etcd_put app (gpu_job job), success tt)
job_update app name _ = (app, failure internal_server_error)

abbrev pub patch_job :
    AppState → KubeObject → HandlerResult KubeObject → AppState × HandlerResult Unit
patch_job app (gpu_job payload) (success (gpu_job job)) =
    (etcd_put app (gpu_job (record job { spec = payload.spec })), success tt)
patch_job app payload (success _) = (app, failure internal_server_error)
patch_job app payload (failure code) = (app, failure code)
patch_job app payload panicked = (app, panicked)

unfoldable pub job_patch : AppState → String → KubeObject → AppState × HandlerResult Unit
unfolding job_get
job_patch app name payload = patch_job app payload (job_get app name)

unfoldable pub job_list : AppState → HandlerResult (List KubeObject)
unfolding etcd_get_objects_by_prefix
job_list app = etcd_get_objects_by_prefix app.etcd "/api/v1/gpujobs" "gpujob"
