-- ===== src/Endpoints/Added.antt =====
-- What the arrival of a pod adds to the endpoints.
use r_mini_k8s.Prelude.{
  Bool, true, not, ◌&&◌, ◌||◌, String, Option, none, some, ◌≡◌, inl, inr, ap, ◌∙◌, arith, nat_eq,
  unit_eq, string_eq, option_eq, ◌==◌, Bool-cases,
}
use r_mini_k8s.Prelude.HashMap.{HashMap, get, contains_key}
use r_mini_k8s.Objects.{Pod, get_ip, matches, Ipv4Addr, Service}
use r_mini_k8s.Endpoints.Defs.{selector_includes, added, with_endpoint, add_svc_endpoint}
use r_mini_k8s.Endpoints.Resync.{contains-insert, changed, changed_at, get-for_each}

contains-with_endpoint :
    (pod : Pod) (ip : Ipv4Addr) (svc : Service) (j : Ipv4Addr)
    → contains_key j (changed (with_endpoint pod ip) svc).spec.endpoints
      ≡ ((ip == j && selector_includes svc pod) || contains_key j svc.spec.endpoints)
unfolding with_endpoint
contains-with_endpoint pod ip svc j =
    elim (Bool-cases (selector_includes svc pod && not (contains_key ip svc.spec.endpoints))) [
      | inl adds ↦
          rw (adds, changed, with_endpoint)
            (ground (arith, adds, contains-insert ip j svc.spec.endpoints))
      | inr keeps ↦ rw (keeps, changed, with_endpoint) (ground (arith, keeps, same))
    ]
  where
    same : ip ≡ j → contains_key ip svc.spec.endpoints ≡ contains_key j svc.spec.endpoints
    same e = ap (λ x. contains_key x svc.spec.endpoints) e

-- When a pod with an address is added and every request goes through, its address becomes an
-- endpoint of the services that pass the test of the code, those whose selector matches the labels
-- of the pod: every label of the pod is in the selector (the description of the field `selector`
-- asks for the converse). Nothing else changes in any set of endpoints.
pub contains-add_svc_endpoint :
    (sent : Service → Bool) (store : HashMap String Service) (pod : Pod) (ip : Ipv4Addr)
    (k : String) (old : Service)
    → get_ip pod ≡ some ip
    → (add_svc_endpoint sent store pod).completed ≡ true
    → get k store ≡ some old
    → (new : Service) × (get k (add_svc_endpoint sent store pod).store ≡ some new)
      × ((j : Ipv4Addr)
          → contains_key j new.spec.endpoints ≡ (
              (ip == j && matches old.spec.selector pod.metadata.labels)
              || contains_key j old.spec.endpoints))
unfolding add_svc_endpoint selector_includes
contains-add_svc_endpoint sent store pod ip k old a c g = from (get_ip pod) a c
  where
    from :
        (o : Option Ipv4Addr)
        → o ≡ some ip
        → (added sent store pod o).completed ≡ true
        → (new : Service) × (get k (added sent store pod o).store ≡ some new)
          × ((j : Ipv4Addr)
              → contains_key j new.spec.endpoints ≡ (
                  (ip == j && matches old.spec.selector pod.metadata.labels)
                  || contains_key j old.spec.endpoints))
    from none q d = ground arith
    from (some ip') q d =
        let e : ip' ≡ ip = cc in
        (
          changed (with_endpoint pod ip') old,
          get-for_each sent (with_endpoint pod ip') k store d
              ∙ ap (changed_at (with_endpoint pod ip')) g,
          λ j.
              contains-with_endpoint pod ip' old j
              ∙ ap
                  (λ x.
                    (x == j && matches old.spec.selector pod.metadata.labels)
                    || contains_key j old.spec.endpoints)
                  e,
        )
