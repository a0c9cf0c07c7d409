-- ===== src/ApiServer/Bind.antt =====
-- What `bind` does to the pod, to the binding and to every other object.
use Prim.Native.String
use mathlib.Core.Path.{subst}
use r_mini_k8s.Prelude.{
  true, ◌≢◌, String, Option, none, some, ◌≡◌, refl, sym, ap, ◌∙◌, arith, string_eq, nat_eq, inl,
  inr,
}
use r_mini_k8s.Prelude.HashMap.{get, get-insert, get-insert_self}
use r_mini_k8s.Objects.{
  KubeObject, pod, node, binding, uri, name_of, Pod, PodStatus, pod_scheduled, condition_eq,
  condition_holds, is_on_node, Metadata, Node, Binding,
}
use r_mini_k8s.ApiServer.Etcd.{
  AppState, HandlerResult, success, failure, StatusCode, etcd_put, etcd_get_object, of_kind, key_of,
}
use r_mini_k8s.ApiServer.Cluster.{
  internal_address, bound_with, bound_if, bound, put_bound, bind_to, bind,
}
use r_mini_k8s.ApiServer.Filed.{IsFiled}
use r_mini_k8s.ApiServer.Invariant.{get-Filed}
use r_mini_k8s.ApiServer.Kinds.{pod-apart, of_kind-node, of_kind-pod}

bind_to-node_failed :
    (app app' : AppState) (payload : Binding) (r s : HandlerResult KubeObject) (code : StatusCode)
    → r ≡ failure code
    → bind_to app payload r s ≢ (app', success tt)
bind_to-node_failed app app' payload r s code n e = ground arith

bind_to-pod_failed :
    (app app' : AppState) (payload : Binding) (r s : HandlerResult KubeObject) (t : Node)
    (code : StatusCode)
    → r ≡ success (node t)
    → s ≡ failure code
    → bind_to app payload r s ≢ (app', success tt)
bind_to-pod_failed app app' payload r s t code n q e = ground arith

bind_to-found :
    (app app' : AppState) (payload : Binding) (r s : HandlerResult KubeObject) (t : Node) (p : Pod)
    → r ≡ success (node t)
    → s ≡ success (pod p)
    → bind_to app payload r s ≡ (app', success tt)
    → put_bound app payload (bound t payload p) ≡ (app', success tt)
bind_to-found app app' payload r s t p n q e = ground arith

put_bound-some :
    (app app' : AppState) (payload : Binding) (o : Option Pod)
    → put_bound app payload o ≡ (app', success tt)
    → (new : Pod) × (o ≡ some new) × (etcd_put (etcd_put app (pod new)) (binding payload) ≡ app')
put_bound-some app app' payload none e = ground arith
put_bound-some app app' payload (some new) e = (new, refl, ap (λ r. r.0) e)

-- What the binding changes of the pod.
pub record IsAssigned (target : Node) (payload : Binding) (old new : Pod) : Type 0 where
  pub on_node : is_on_node new payload.target.name ≡ true
  pub status : PodStatus
  pub has_status : new.status ≡ some status
  pub scheduled : condition_holds (get pod_scheduled status.conditions) ≡ true
  pub host : status.host_ip ≡ internal_address target
  pub metadata_kept : new.metadata ≡ old.metadata
  pub containers_kept : new.spec.containers ≡ old.spec.containers

bound_with-IsAssigned :
    (t : Node) (payload : Binding) (old : Pod) (status : PodStatus)
    → IsAssigned t payload old (bound_with t payload old status)
unfolding bound_with is_on_node
bound_with-IsAssigned t payload old status = record {
  on_node = ground (arith, string_eq.beq_iff payload.target.name payload.target.name);
  status = _;
  has_status = refl;
  scheduled =
      ap condition_holds
        (get-insert_self pod_scheduled (record { status = true }) status.conditions);
  host = refl;
  metadata_kept = refl;
  containers_kept = refl;
}

bound-IsAssigned :
    (t : Node) (payload : Binding) (old new : Pod)
    → bound t payload old ≡ some new
    → IsAssigned t payload old new
unfolding bound
bound-IsAssigned t payload old new e = from old.status e
  where
    from :
        (o : Option PodStatus) → bound_if t payload old o ≡ some new → IsAssigned t payload old new
    from none q = ground arith
    from (some status) q =
        subst (IsAssigned t payload old) (cc q) (bound_with-IsAssigned t payload old status)

-- The binding has found its node and its pod, and has been written.
pub record IsBound (app app' : AppState) (payload : Binding) : Type 0 where
  pub target : Node
  pub old : Pod
  pub new : Pod
  pub target_found : get (key_of "nodes" payload.target.name) app.etcd ≡ some (node target)
  pub old_found : get (key_of "pods" payload.metadata.name) app.etcd ≡ some (pod old)
  pub new_stored : get (key_of "pods" payload.metadata.name) app'.etcd ≡ some (pod new)
  pub assigned : IsAssigned target payload old new
  pub others_kept :
      (key : String)
      → key ≢ key_of "pods" payload.metadata.name
      → key ≢ uri (binding payload)
      → get key app'.etcd ≡ get key app.etcd

stored :
    (app app' : AppState) (payload : Binding) (t : Node) (old new : Pod)
    → IsFiled app
    → get (key_of "nodes" payload.target.name) app.etcd ≡ some (node t)
    → get (key_of "pods" payload.metadata.name) app.etcd ≡ some (pod old)
    → IsAssigned t payload old new
    → etcd_put (etcd_put app (pod new)) (binding payload) ≡ app'
    → IsBound app app' payload
unfolding etcd_put uri name_of
stored app app' payload t old new f n q assigned at =
    let filed : uri (pod new) ≡ key_of "pods" payload.metadata.name =
      ap (λ (m : Metadata). String.◌++◌ "/api/v1/pods" (String.◌++◌ "/" m.name))
        assigned.metadata_kept
      ∙ get-Filed app.etcd _ (pod old) f.filed q in
    let after : (key : String) → get key app'.etcd ≡ _ = λ key.
      sym (ap (λ (a : AppState). get key a.etcd) at)
      ∙ get-insert (uri (binding payload)) key (binding payload) _ in
    record {
      target = t;
      old = old;
      new = new;
      target_found = n;
      old_found = q;
      new_stored =
          let key = key_of "pods" payload.metadata.name in
          ground (
            arith,
            after key,
            get-insert (uri (pod new)) key (pod new) app.etcd,
            filed,
            string_eq.beq_iff (uri (binding payload)) key,
            string_eq.beq_iff (uri (pod new)) key,
            pod-apart new payload,
          );
      assigned = assigned;
      others_kept = λ key k l. ground (
        arith,
        after key,
        get-insert (uri (pod new)) key (pod new) app.etcd,
        filed,
        string_eq.beq_iff (uri (binding payload)) key,
        string_eq.beq_iff (uri (pod new)) key,
      );
    }

-- On a state that files every object under its `uri`, a binding that is answered with success
-- has put the pod on the node that it names, and has changed nothing but this pod and the
-- binding itself.
pub bind-IsBound :
    (app app' : AppState) (payload : Binding)
    → IsFiled app
    → bind app (binding payload) ≡ (app', success tt)
    → IsBound app app' payload
unfolding bind etcd_get_object of_kind
bind-IsBound app app' payload f e =
    elim (of_kind-node (get (key_of "nodes" payload.target.name) app.etcd)) [
      | inr (code, n) ↦ absurd (bind_to-node_failed app app' payload _ _ code n e)
      | inl (t, n) ↦ elim (of_kind-pod (get (key_of "pods" payload.metadata.name) app.etcd)) [
        | inr (code, q) ↦
            absurd (bind_to-pod_failed app app' payload _ _ t code (ap (of_kind "node") n) q e)
        | inl (p, q) ↦
            let put =
              bind_to-found app app' payload _ _ t p (ap (of_kind "node") n) (ap (of_kind "pod") q)
                e in
            let (new, b, at) = put_bound-some app app' payload (bound t payload p) put in
            stored app app' payload t p new f n q (bound-IsAssigned t payload p new b) at
      ]
    ]
