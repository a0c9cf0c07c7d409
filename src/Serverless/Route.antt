-- ===== src/Serverless/Route.antt =====
-- `route` and `activate` (route.rs). The store of services changes while a function is activated: the
-- polls of the code read it at successive moments, so it is a function of the number of polls.
use Prim.Native.String
use r_mini_k8s.Prelude.{
  ℕ, suc, zero, String, Bool, true, false, Option, none, some, [], ◌∷◌, string_eq, ◌==◌, nat_eq,
  add_u32, if◌then◌else◌, Outcome, ok, error, panics, ◌>>=◌, is_empty,
}
use r_mini_k8s.Prelude.HashMap.{HashMap, get}
use r_mini_k8s.Objects.{
  Function, FunctionStatus, Service, KubeObject, replica_set, ends_with, Ipv4Addr,
}

-- `activate_rs`: the object that is sent back to the API server.
unfoldable pub activated : Option KubeObject → Outcome KubeObject
activated (some (replica_set rs)) =
    ok (replica_set (record rs { spec = record (rs.spec) { replicas = 1 } }))
activated _ = error

-- `get_svc`
abbrev pub found : Option Service → Outcome Service
found none = error
found (some svc) = ok svc

unfoldable pub get_svc : String → HashMap String Service → Outcome Service
unfolding get
get_svc svc_key svc_store = found (get svc_key svc_store)

-- What a poll sees: no such service, a service with an endpoint, or one without.
pub data Seen : Type 0 where
  missing ready pending : Seen

unfoldable pub seen : Outcome Service → Seen
seen (ok svc) = if is_empty svc.spec.endpoints then pending else ready
seen _ = missing

-- The end of a round, in which the sixtieth is the last to wait, with the result of the later rounds
unfoldable pub after_poll : Seen → Bool → ℕ → Option (Outcome ℕ) → Option (Outcome ℕ)
after_poll missing is_last i later = some error
after_poll ready is_last i later = some (ok i)
after_poll pending true i later = some error
after_poll pending false i later = later

-- The loop of `activate` in round `i`: it ends well with the number of the last poll, or in an error.
-- `none` is that the fuel did not suffice.
unfoldable pub poll : (ℕ → HashMap String Service) → String → ℕ → ℕ → Option (Outcome ℕ)
unfolding get_svc seen after_poll
poll svc_stores svc_key zero i = none
poll svc_stores svc_key (suc fuel) i =
    after_poll (seen (get_svc svc_key (svc_stores i))) (i == 60) i
      (poll svc_stores svc_key fuel (add_u32 i 1))

-- The rounds of `activate` at most
abbrev pub polls : ℕ
polls = 61

-- `activate`: the answer with the replica set, the answer to its update, and the loop
unfoldable pub activate :
    Option KubeObject → Outcome Unit → (ℕ → HashMap String Service) → String → Option (Outcome ℕ)
unfolding activated poll
activate object patched svc_stores svc_key = elim (activated object >>= λ _. patched) [
  | ok _ ↦ poll svc_stores svc_key polls 0
  | error ↦ some error
  | panics ↦ some panics
]

-- The text of a host before its port
abbrev without_port : String → String
without_port host = String.slice host 0 (String.find host ":")

-- The function of a host; a function without a status is a panic.
unfoldable pub find_func :
    String → HashMap String Function → Outcome (String × Function × FunctionStatus)
find_func host [] = error
find_func host ((key, func) ∷ store) = matching func.status (find_func host store)
  where
    matching :
        Option FunctionStatus
        → Outcome (String × Function × FunctionStatus)
        → Outcome (String × Function × FunctionStatus)
    matching none rest = panics
    matching (some status) rest = if status.host == host then ok (key, func, status) else rest

-- Where a request is sent on to, or that it is for a workflow or for no known host
pub data Destination : Type 0 where
  to_workflow : String → Destination
  to_service : Ipv4Addr → Destination
  no_such_host : Destination

abbrev cluster_ip_of : Service → Outcome Destination
cluster_ip_of svc = elim svc.spec.cluster_ip [ some ip ↦ ok (to_service ip) | none ↦ panics ]

-- A request to a function: `now` is the store of services before, `later` after the activation.
abbrev pub forward :
    HashMap String Function
    → HashMap String Service
    → (Service → Outcome Unit)
    → HashMap String Service
    → String
    → Outcome Destination
unfolding find_func get_svc
forward func_store now activation later host = do
  (key, func, status) ← find_func host func_store
  svc ← get_svc status.service_ref now
  _ ← activation svc
  svc' ← get_svc status.service_ref later
  cluster_ip_of svc'

-- `route`, by the header with the host. `activation` is what `activate` ends in.
unfoldable pub route :
    HashMap String Function
    → HashMap String Service
    → Outcome Unit
    → HashMap String Service
    → Option String
    → Outcome Destination
unfolding ends_with forward
route func_store now activation later none = error
route func_store now activation later (some header) =
    let host = without_port header in
    let first = String.slice host 0 (String.find host ".") in
    if ends_with host ".workflow.func.minik8s.com"
    then ok (to_workflow first)
    else if ends_with host ".func.minik8s.com"
    then forward func_store now (λ svc. if is_empty svc.spec.endpoints then activation else ok tt)
        later host
    else ok no_such_host
