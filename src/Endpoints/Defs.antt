-- ===== src/Endpoints/Defs.antt =====
-- The handlers of controllers/src/endpoints/main.rs and utils.rs. Whether a request to the API
-- server goes through is a parameter: one that does not ends the handler there, with what it has
-- changed of the services' store so far. A refusal of the API server is only logged.
use r_mini_k8s.Prelude.{
  Bool, true, false, not, ◌&&◌, String, Option, none, some, List, [], ◌∷◌, ◌++◌, nat_eq, unit_eq,
  string_eq, option_eq, ◌==◌, if◌then◌else◌, any,
}
use r_mini_k8s.Prelude.HashMap.{HashMap, HashSet, values, insert, remove, contains_key, map_eq}
use r_mini_k8s.Objects.{Pod, get_ip, Ipv4Addr, matches, Service}

pub data Notification : Type 0 where
  pod_add : Pod → Notification
  pod_update : Pod → Pod → Notification
  pod_delete : Pod → Notification
  service_add : Service → Notification

-- The services' store after a handler, the services put to the API server, and whether the handler
-- came to its end.
pub record Handled : Type 0 where
  pub store : HashMap String Service
  pub put : List Service
  pub completed : Bool

abbrev pub with_endpoints : Service → HashSet Ipv4Addr → Service
with_endpoints svc endpoints = record svc { spec = record (svc.spec) { endpoints = endpoints } }

-- `svc.spec.selector.matches(&pod.metadata.labels)`: every label of the pod is in the selector.
unfoldable pub selector_includes : Service → Pod → Bool
unfolding matches
selector_includes svc pod = matches svc.spec.selector pod.metadata.labels

unfoldable pub gathered : Service → HashSet Ipv4Addr → Pod → Option Ipv4Addr → HashSet Ipv4Addr
unfolding selector_includes insert
gathered svc endpoints pod none = endpoints
gathered svc endpoints pod (some ip) =
    if selector_includes svc pod then insert ip tt endpoints else endpoints

-- The loop over the pods in `handle_resync`, and that in `add_enpoints`.
unfoldable pub gather : Service → HashSet Ipv4Addr → List Pod → HashSet Ipv4Addr
unfolding gathered get_ip
gather svc endpoints [] = endpoints
gather svc endpoints (pod ∷ pods) = gather svc (gathered svc endpoints pod (get_ip pod)) pods

unfoldable pub resynced : List Pod → Service → Option Service
unfolding gather map_eq
resynced pods svc =
    let new_eps = gather svc [] pods in
    if map_eq svc.spec.endpoints new_eps then none else some (with_endpoints svc new_eps)

abbrev is_some : Option Ipv4Addr → Bool
is_some none = false
is_some (some _) = true

-- The flag `svc_changed` of `add_enpoints`: some pod with an IP passes the test.
unfoldable pub svc_changed : Service → List Pod → Bool
unfolding any selector_includes get_ip
svc_changed svc pods = any (λ pod. is_some (get_ip pod) && selector_includes svc pod) pods

unfoldable pub with_endpoint : Pod → Ipv4Addr → Service → Option Service
unfolding selector_includes contains_key insert
with_endpoint pod pod_ip svc =
    if selector_includes svc pod && not (contains_key pod_ip svc.spec.endpoints)
    then some (with_endpoints svc (insert pod_ip tt svc.spec.endpoints))
    else none

unfoldable pub without_endpoint : Pod → Ipv4Addr → Service → Option Service
unfolding selector_includes contains_key remove
without_endpoint pod pod_ip svc =
    if selector_includes svc pod && contains_key pod_ip svc.spec.endpoints
    then some (with_endpoints svc (remove pod_ip svc.spec.endpoints))
    else none

module _ (sent : Service → Bool) where
  -- A loop over the store: a service that `change` changes is put to the API server.
  unfoldable pub for_each : (Service → Option Service) → HashMap String Service → Handled
  for_each change [] = record { store = []; put = []; completed = true }
  for_each change ((k, svc) ∷ store) =
      let rest = for_each change store in
      elim (change svc) [
        | none ↦ record rest { store = (k, svc) ∷ rest.store }
        | some new ↦
            if sent new
            then record {
              store = (k, new) ∷ rest.store;
              put = new ∷ rest.put;
              completed = rest.completed;
            }
            else record { store = (k, new) ∷ store; put = []; completed = false }
      ]

  unfoldable pub added : HashMap String Service → Pod → Option Ipv4Addr → Handled
  unfolding for_each with_endpoint
  added store pod none = record { store = store; put = []; completed = true }
  added store pod (some pod_ip) = for_each (with_endpoint pod pod_ip) store

  unfoldable pub add_svc_endpoint : HashMap String Service → Pod → Handled
  unfolding added get_ip
  add_svc_endpoint store pod = added store pod (get_ip pod)

  unfoldable pub del_svc_endpoint : HashMap String Service → Pod → Handled
  unfolding for_each without_endpoint get_ip
  del_svc_endpoint store pod = elim (get_ip pod) [
    | none ↦ record { store = store; put = []; completed = true }
    | some pod_ip ↦ for_each (without_endpoint pod pod_ip) store
  ]

  -- Both stores are locked for the whole loop.
  unfoldable pub handle_resync : HashMap String Pod → HashMap String Service → Handled
  unfolding for_each resynced
  handle_resync pod_store store = for_each (resynced (values pod_store)) store

  -- Works on the copy of the service in the notification: the store stays as it is.
  unfoldable pub add_enpoints : HashMap String Pod → HashMap String Service → Service → Handled
  unfolding gather svc_changed
  add_enpoints pod_store store svc =
      let new = with_endpoints svc (gather svc svc.spec.endpoints (values pod_store)) in
      if svc_changed svc (values pod_store)
      then record { store = store; put = if sent new then new ∷ [] else []; completed = sent new }
      else record { store = store; put = []; completed = true }

  -- The second of two handlers runs if the first came to its end.
  abbrev then_also : Handled → (HashMap String Service → Handled) → Handled
  then_also first second =
      let last = second first.store in
      if first.completed then record last { put = first.put ++ last.put } else first

  unfoldable pub handle_notification :
      HashMap String Pod → HashMap String Service → Notification → Handled
  unfolding add_svc_endpoint del_svc_endpoint add_enpoints get_ip
  handle_notification pod_store store (pod_add new) = add_svc_endpoint store new
  handle_notification pod_store store (pod_update old new) =
      if get_ip old == get_ip new
      then record { store = store; put = []; completed = true }
      else then_also (del_svc_endpoint store old) λ store'. add_svc_endpoint store' new
  handle_notification pod_store store (pod_delete old) = del_svc_endpoint store old
  handle_notification pod_store store (service_add new) = add_enpoints pod_store store new
