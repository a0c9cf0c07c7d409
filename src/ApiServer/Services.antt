-- ===== src/ApiServer/Services.antt =====
-- The addresses of services.
use r_mini_k8s.Prelude.{
  true, false, ◌≢◌, Option, none, some, List, [], ◌∷◌, ◌≡◌, refl, ap, arith, string_eq, nat_eq,
  unit_eq, Bool-cases, inl, inr,
}
use r_mini_k8s.Prelude.HashMap.{HashSet, get, insert, contains_key, get-insert_self, get-insert}
use r_mini_k8s.Objects.{service, Service, Uuid, Ipv4Addr, uri, name_of, prefix, lowercase_kind}
use r_mini_k8s.ApiServer.Etcd.{AppState, success, etcd_put, gen_service_ip}
use r_mini_k8s.ApiServer.Cluster.{service_create, create_service, with_uid, with_ip}

gen_service_ip-fresh :
    (pool : HashSet Ipv4Addr) (draws : List Ipv4Addr) (ip : Ipv4Addr)
    → gen_service_ip pool draws ≡ some ip
    → contains_key ip pool ≡ false
unfolding gen_service_ip
gen_service_ip-fresh pool [] ip e = ground arith
gen_service_ip-fresh pool (draw ∷ draws) ip e = elim (Bool-cases (contains_key draw pool)) [
  | inl taken ↦ ground (arith, taken, gen_service_ip-fresh pool draws ip)
  | inr free ↦ ground (arith, free, ap (λ d. contains_key d pool) {x = draw} {y = ip})
]

contains-insert_self :
    (ip : Ipv4Addr) (pool : HashSet Ipv4Addr) → contains_key ip (insert ip tt pool) ≡ true
unfolding contains_key
contains-insert_self ip pool = rw (get-insert_self ip tt pool, contains_key) refl

-- A service that asks for no address, for which the generator finds one, is stored with this
-- address; it was not in the pool, and the pool has it afterwards.
pub service_create-fresh :
    (uid : Uuid) (draws : List Ipv4Addr) (app : AppState) (object : Service) (ip : Ipv4Addr)
    → object.spec.cluster_ip ≡ none
    → gen_service_ip app.service_ip_pool draws ≡ some ip
    → (contains_key ip app.service_ip_pool ≡ false)
      × (app' : AppState) × (service_create uid draws app (service object)
          ≡ some (app', success tt))
      × (get (uri (service object)) app'.etcd ≡ some (service (with_ip (with_uid uid object) ip)))
      × (contains_key ip app'.service_ip_pool ≡ true)
unfolding service_create create_service etcd_put uri name_of prefix lowercase_kind
service_create-fresh uid draws app object ip n g =
    let stored = service (with_ip (with_uid uid object) ip) in
    (
      gen_service_ip-fresh app.service_ip_pool draws ip g,
      etcd_put (record app { service_ip_pool = insert ip tt app.service_ip_pool }) stored,
      rw (n, g, create_service) refl,
      get-insert_self (uri (service object)) stored app.etcd,
      contains-insert_self ip app.service_ip_pool,
    )

create_service-asked :
    (draws : List Ipv4Addr) (app : AppState) (object : Service) (o : Option Ipv4Addr)
    (ip : Ipv4Addr)
    → o ≡ some ip
    → contains_key ip app.service_ip_pool ≡ false
    → create_service draws app object o ≡ some (etcd_put app (service object), success tt)
unfolding create_service
create_service-asked draws app object none ip e free = ground arith
create_service-asked draws app object (some asked) ip e free =
    ground (arith, free, ap (λ x. contains_key x app.service_ip_pool) {x = asked} {y = ip})

-- Two services that ask for the same address, which is not in the pool, are both created with it:
-- an address that is asked for never enters the pool.
pub service_create_shared :
    (app : AppState) (a b : Service) (ip : Ipv4Addr) (i j : Uuid) (d e : List Ipv4Addr)
    → a.spec.cluster_ip ≡ some ip
    → b.spec.cluster_ip ≡ some ip
    → contains_key ip app.service_ip_pool ≡ false
    → (app' last : AppState) × (service_create i d app (service a) ≡ some (app', success tt))
      × (service_create j e app' (service b) ≡ some (last, success tt))
      × (get (uri (service b)) last.etcd ≡ some (service (with_uid j b)))
      × (uri (service a) ≢ uri (service b)
          → get (uri (service a)) last.etcd ≡ some (service (with_uid i a)))
unfolding service_create create_service etcd_put uri name_of prefix lowercase_kind
service_create_shared app a b ip i j d e p q free =
    let first = service (with_uid i a) in
    let second = service (with_uid j b) in
    (
      etcd_put app first,
      etcd_put (etcd_put app first) second,
      create_service-asked d app (with_uid i a) a.spec.cluster_ip ip p free,
      create_service-asked e (etcd_put app first) (with_uid j b) b.spec.cluster_ip ip q free,
      get-insert_self (uri (service b)) second (etcd_put app first).etcd,
      λ apart. ground (
        arith,
        get-insert (uri (service b)) (uri (service a)) second (etcd_put app first).etcd,
        get-insert_self (uri (service a)) first app.etcd,
        string_eq.beq_iff (uri (service b)) (uri (service a)),
        apart,
      ),
    )
