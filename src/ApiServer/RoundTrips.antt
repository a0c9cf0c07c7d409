-- ===== src/ApiServer/RoundTrips.antt =====
-- What is read after pods and replica sets are written.
use r_mini_k8s.Prelude.{String, ◌≡◌, ap, ◌∙◌, none, string_eq, if◌then◌else◌, beq_refl}
use r_mini_k8s.Prelude.HashMap.{get, get-insert_self, get-remove}
use r_mini_k8s.Objects.{pod, uri, prefix, lowercase_kind, name_of, Pod, Uuid, NaiveDateTime}
use r_mini_k8s.ApiServer.Etcd.{
  AppState, success, failure, not_found, etcd_put, etcd_delete, etcd_get_object, of_kind, key_of,
}
use r_mini_k8s.ApiServer.Handlers.{unique_name, created_pod, pod_create, pod_get, pod_delete}

-- A pod that was created is read back under its new name as it was stored, and after it is deleted
-- the name is not found.
pub pod_get-pod_create :
    (uid : Uuid) (suffix : String) (now : NaiveDateTime) (app : AppState) (object : Pod)
    → let name = unique_name object.metadata.name suffix in
      let created = (pod_create uid suffix now app (pod object)).0 in
      (pod_get created name ≡ success (pod (created_pod uid suffix now object)))
      × (pod_get (pod_delete created name).0 name ≡ failure not_found)
unfolding pod_create pod_get pod_delete etcd_put etcd_delete etcd_get_object of_kind created_pod uri
    prefix lowercase_kind name_of
pod_get-pod_create uid suffix now app object =
    let name = unique_name object.metadata.name suffix in
    let created = (pod_create uid suffix now app (pod object)).0 in
    (
      ap (of_kind "pod")
          (get-insert_self (key_of "pods" name) (pod (created_pod uid suffix now object)) app.etcd),
      ap (of_kind "pod") (
          get-remove (key_of "pods" name) (key_of "pods" name) created.etcd
          ∙ ap (λ b. if b then none else get (key_of "pods" name) created.etcd)
              (beq_refl (key_of "pods" name))),
    )
