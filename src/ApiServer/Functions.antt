-- ===== src/ApiServer/Functions.antt =====
-- The handlers of workflows, ingresses and functions: api_server/src/handler/workflow.rs, ingress.rs
-- and function.rs. The form data of a function and its code file are arguments, as are the random
-- draws; the watches are streams and left out.
use r_mini_k8s.Prelude.{
  ℕ, zero, suc, String, Bool, true, false, ◌&&◌, Option, none, some, List, [], ◌∷◌, string_eq,
  unit_eq, nat_eq, ◌==◌, text, if◌then◌else◌, add_u32,
}
use r_mini_k8s.Prelude.HashMap.{HashMap, contains_key, insert}
use r_mini_k8s.Objects.{
  KubeObject, workflow, ingress, function, service, uri, State, task, choice, Workflow, Ingress,
  IngressRule, Function, FunctionStatus, Uuid, Ipv4Addr, init, service_from_function, ends_with,
}
use r_mini_k8s.ApiServer.Etcd.{
  AppState, HandlerResult, success, failure, panicked, internal_server_error, bad_request, etcd_put,
  etcd_delete, etcd_get_object, etcd_get_objects_by_prefix, gen_service_ip, key_of,
}
use r_mini_k8s.ApiServer.Handlers.{unique_name}

abbrev pub is_success : {A : Type 0} → HandlerResult A → Bool
is_success (success _) = true
is_success _ = false

unfoldable pub next_exists : HashMap String State → Option String → Bool
unfolding contains_key
next_exists states none = true
next_exists states (some next) = contains_key next states

-- The check of one state: its function exists, and the state that it names.
unfoldable pub valid_state : AppState → HashMap String State → State → Bool
unfolding etcd_get_object next_exists
valid_state app states (task t) =
    is_success (etcd_get_object app (key_of "functions" t.resource) "function")
    && next_exists states t.next
valid_state app states (choice _) = true

unfoldable pub valid_states : AppState → HashMap String State → HashMap String State → Bool
unfolding valid_state
valid_states app states [] = true
valid_states app states ((_, state) ∷ rest) =
    valid_state app states state && valid_states app states rest

unfoldable pub validate_workflow : AppState → Workflow → Bool
unfolding valid_states
validate_workflow app w = valid_states app w.spec.states w.spec.states

unfoldable pub put_if : Bool → AppState → KubeObject → AppState × HandlerResult Unit
unfolding etcd_put
put_if true app object = (etcd_put app object, success tt)
put_if false app object = (app, failure internal_server_error)

unfoldable pub workflow_create : Uuid → AppState → KubeObject → AppState × HandlerResult Unit
unfolding validate_workflow put_if
workflow_create uid app (workflow w) =
    put_if (validate_workflow app w) app
      (workflow (record w { metadata = record (w.metadata) { uid = some uid } }))
workflow_create uid app _ = (app, failure internal_server_error)

unfoldable pub workflow_update : AppState → KubeObject → AppState × HandlerResult Unit
unfolding validate_workflow put_if
workflow_update app (workflow w) = put_if (validate_workflow app w) app (workflow w)
workflow_update app _ = (app, failure internal_server_error)

unfoldable pub workflow_get : AppState → String → HandlerResult KubeObject
unfolding etcd_get_object
workflow_get app name = etcd_get_object app (key_of "workflows" name) "workflow"

unfoldable pub workflow_delete : AppState → String → AppState × HandlerResult Unit
unfolding etcd_delete
workflow_delete app name = etcd_delete app (key_of "workflows" name)

unfoldable pub workflow_list : AppState → HandlerResult (List KubeObject)
unfolding etcd_get_objects_by_prefix
workflow_list app = etcd_get_objects_by_prefix app.etcd "/api/v1/workflows" "workflow"

abbrev pub with_rule : IngressRule → Option (List IngressRule) → Option (List IngressRule)
with_rule rule none = none
with_rule rule (some rules) = some (rule ∷ rules)

abbrev pub hosted : List IngressRule → (ℕ → String) → ℕ → Option (List IngressRule)
hosted [] draw i = some []
hosted (rule ∷ rules) draw i = elim rule.host [
  | none ↦ with_rule (record rule { host = some (draw i) }) (hosted rules draw (suc i))
  | some host ↦
      if ends_with host ".minik8s.com" then with_rule rule (hosted rules draw (suc i)) else none
]

-- The loop of `create`: a rule without a host gets a drawn one; `none` if a host is refused.
unfoldable pub hosted_rules : List IngressRule → (ℕ → String) → Option (List IngressRule)
hosted_rules rules draw = hosted rules draw 0

abbrev pub put_ingress :
    Uuid → AppState → Ingress → Option (List IngressRule) → AppState × HandlerResult Unit
put_ingress uid app i none = (app, failure internal_server_error)
put_ingress uid app i (some rules) = (
  etcd_put app
      (ingress (record i { metadata = record (i.metadata) { uid = some uid }; rules = rules })),
  success tt,
)

unfoldable pub ingress_create :
    Uuid → (ℕ → String) → AppState → KubeObject → AppState × HandlerResult Unit
unfolding hosted_rules
ingress_create uid draw app (ingress i) = put_ingress uid app i (hosted_rules i.rules draw)
ingress_create uid draw app _ = (app, failure internal_server_error)

unfoldable pub ingress_update : AppState → KubeObject → AppState × HandlerResult Unit
unfolding etcd_put
ingress_update app (ingress i) = (etcd_put app (ingress i), success tt)
ingress_update app _ = (app, failure internal_server_error)

unfoldable pub ingress_get : AppState → String → HandlerResult KubeObject
unfolding etcd_get_object
ingress_get app name = etcd_get_object app (key_of "ingresses" name) "ingress"

unfoldable pub ingress_delete : AppState → String → AppState × HandlerResult Unit
unfolding etcd_delete
ingress_delete app name = etcd_delete app (key_of "ingresses" name)

unfoldable pub ingress_list : AppState → HandlerResult (List KubeObject)
unfolding etcd_get_objects_by_prefix
ingress_list app = etcd_get_objects_by_prefix app.etcd "/api/v1/ingresses" "ingress"

-- The service that `create` stores, with the address that `gen_service_ip` finds
unfoldable pub function_service : Uuid → String → Ipv4Addr → Function → KubeObject
unfolding unique_name service_from_function
function_service svc_uid suffix ip func =
    let svc_name = unique_name (text ("func-" ∷ func.metadata.name ∷ [])) suffix in
    service (service_from_function svc_uid svc_name func.metadata.name ip)

-- The service and the function that `create` stores, one after the other
unfoldable pub function_stored :
    Uuid → Uuid → String → String → Ipv4Addr → AppState → Function → AppState
unfolding function_service init uri etcd_put
function_stored svc_uid uid suffix filename ip app func =
    let svc = function_service svc_uid suffix ip func in
    etcd_put (etcd_put app svc) (function (init uid (uri svc) filename func))

-- A poll of `create` for the image
unfoldable pub poll_image : HandlerResult KubeObject → Option (HandlerResult Unit)
poll_image (success (function func)) = elim func.status [
  | none ↦ some panicked
  | some status ↦ elim status.image [ none ↦ none | some _ ↦ some (success tt) ]
]
poll_image (success _) = none
poll_image (failure code) = some (failure code)
poll_image panicked = some panicked

abbrev pub after_image :
    Bool → Option (HandlerResult Unit) → HandlerResult Unit → HandlerResult Unit
after_image is_last (some result) later = result
after_image is_last none later = if is_last then failure internal_server_error else later

-- The loop of `create` in round `i`, on what etcd answers in each round. After 61 rounds the fuel is
-- not asked for any more.
unfoldable pub wait_image : (ℕ → HandlerResult KubeObject) → ℕ → ℕ → HandlerResult Unit
unfolding poll_image
wait_image answers zero i = failure internal_server_error
wait_image answers (suc fuel) i =
    after_image (i == 60) (poll_image (answers i)) (wait_image answers fuel (add_u32 i 1))

unfoldable pub function_get : AppState → String → HandlerResult KubeObject
unfolding etcd_get_object
function_get app name = etcd_get_object app (key_of "functions" name) "function"

unfoldable pub function_list : AppState → HandlerResult (List KubeObject)
unfolding etcd_get_objects_by_prefix
function_list app = etcd_get_objects_by_prefix app.etcd "/api/v1/functions" "function"

unfoldable pub function_update : AppState → KubeObject → AppState × HandlerResult Unit
unfolding etcd_put
function_update app (function func) = (etcd_put app (function func), success tt)
function_update app _ = (app, failure internal_server_error)

abbrev pub without_service : AppState → Option FunctionStatus → AppState
without_service app none = app
without_service app (some status) = (etcd_delete app status.service_ref).0

-- What belongs to a function goes first; an error of these is only logged.
unfoldable pub without_owned : AppState → String → Option FunctionStatus → AppState
unfolding etcd_delete
without_owned app name status =
    let no_service = without_service app status in
    let no_rs = (etcd_delete no_service (key_of "replicasets" name)).0 in
    (etcd_delete no_rs (key_of "horizontalpodautoscalers" name)).0

unfoldable pub without_parts : AppState → String → KubeObject → AppState
unfolding without_owned
without_parts app name (function func) = without_owned app name func.status
without_parts app name _ = app

abbrev pub delete_function :
    AppState → String → HandlerResult KubeObject → AppState × HandlerResult Unit
delete_function app name (success object) =
    etcd_delete (without_parts app name object) (key_of "functions" name)
delete_function app name (failure code) = (app, failure code)
delete_function app name panicked = (app, panicked)

unfoldable pub function_delete : AppState → String → AppState × HandlerResult Unit
unfolding function_get
function_delete app name = delete_function app name (function_get app name)

abbrev pub store_function :
    Uuid → Uuid → String → String → AppState → Function → Ipv4Addr → AppState
store_function svc_uid uid suffix filename app func ip =
    function_stored svc_uid uid suffix filename ip
      (record app { service_ip_pool = insert ip tt app.service_ip_pool }) func

-- The fields `function` and `code` of the form, as far as they are there. `none` is that the random
-- draws of addresses are used up.
unfoldable pub function_create :
    Uuid
    → Uuid
    → String
    → List Ipv4Addr
    → (ℕ → HandlerResult KubeObject)
    → AppState
    → Option KubeObject
    → Option String
    → Option (AppState × HandlerResult Unit)
unfolding gen_service_ip wait_image
function_create svc_uid uid suffix draws answers app none filename = some (app, failure bad_request)
function_create svc_uid uid suffix draws answers app (some payload) none =
    some (app, failure bad_request)
function_create svc_uid uid suffix draws answers app (some (function func)) (some filename) =
    elim (gen_service_ip app.service_ip_pool draws) [
      | none ↦ none
      | some ip ↦
          some (store_function svc_uid uid suffix filename app func ip, wait_image answers 61 0)
    ]
function_create svc_uid uid suffix draws answers app (some payload) (some filename) =
    some (app, failure internal_server_error)
