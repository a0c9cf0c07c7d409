-- ===== src/ApiServer/Etcd.antt =====
-- `AppState` and the calls of etcd: api_server/src/handler/utils.rs, models/mod.rs. etcd is the map
-- that it documents, always reachable; a value is the object that its JSON text stands for.
use Prim.Native.String
use r_mini_k8s.Prelude.{
  Bool, String, Option, none, some, List, [], ◌∷◌, string_eq, unit_eq, nat_eq, ◌==◌, if◌then◌else◌,
}
use r_mini_k8s.Prelude.HashMap.{HashMap, HashSet, get, insert, remove, contains_key}
use r_mini_k8s.Objects.{KubeObject, uri, lowercase_kind, Ipv4Addr}

pub record AppState : Type 0 where
  pub etcd : HashMap String KubeObject
  pub service_ip_pool : HashSet Ipv4Addr

-- The status codes that an `ErrResponse` has.
pub data StatusCode : Type 0 where
  internal_server_error not_found bad_request : StatusCode

-- A `HandlerResult`, or a panic of the handler.
pub data HandlerResult (A : Type 0) : Type 0 where
  success : A → HandlerResult A
  failure : StatusCode → HandlerResult A
  panicked : HandlerResult A

unfoldable pub etcd_put : AppState → KubeObject → AppState
unfolding uri insert
etcd_put app val = record app { etcd = insert (uri val) val app.etcd }

-- Whether `deleted()` is positive decides on the answer.
unfoldable pub etcd_delete : AppState → String → AppState × HandlerResult Unit
unfolding remove contains_key
etcd_delete app key = (
  record app { etcd = remove key app.etcd },
  if contains_key key app.etcd then success tt else failure not_found,
)

-- The value of a key, if it is of the kind.
unfoldable pub of_kind : String → Option KubeObject → HandlerResult KubeObject
unfolding lowercase_kind
of_kind kind none = failure not_found
of_kind kind (some object) =
    if lowercase_kind object == kind then success object else failure internal_server_error

unfoldable pub etcd_get_object : AppState → String → String → HandlerResult KubeObject
unfolding get of_kind
etcd_get_object app key kind = of_kind kind (get key app.etcd)

abbrev starts_with : String → String → Bool
starts_with prefix key = String.slice key 0 (String.len prefix) == prefix

-- One object of another kind makes the whole request fail.
unfoldable pub etcd_get_objects_by_prefix :
    HashMap String KubeObject → String → String → HandlerResult (List KubeObject)
unfolding lowercase_kind
etcd_get_objects_by_prefix [] prefix kind = success []
etcd_get_objects_by_prefix ((key, object) ∷ etcd) prefix kind =
    let rest = etcd_get_objects_by_prefix etcd prefix kind in
    if starts_with prefix key
    then if lowercase_kind object == kind
      then with_first object rest
      else failure internal_server_error
    else rest
  where
    with_first : KubeObject → HandlerResult (List KubeObject) → HandlerResult (List KubeObject)
    with_first object (success objects) = success (object ∷ objects)
    with_first object other = other

-- `gen_service_ip`: the first of the random draws that is not in the pool, which it enters; `none`
-- if no draw is left.
unfoldable pub gen_service_ip : HashSet Ipv4Addr → List Ipv4Addr → Option Ipv4Addr
unfolding contains_key
gen_service_ip pool [] = none
gen_service_ip pool (ip ∷ draws) =
    let rest = gen_service_ip pool draws in if contains_key ip pool then rest else some ip

-- The key of an object of this plural.
abbrev pub key_of : String → String → String
key_of plural name = String.◌++◌ (String.◌++◌ "/api/v1/" plural) (String.◌++◌ "/" name)
