-- ===== src/Endpoints/Resync.antt =====
-- Which addresses the handlers leave as endpoints.
use r_mini_k8s.Prelude.{
  Bool, true, false, ◌&&◌, ◌||◌, String, Option, none, some, List, [], ◌∷◌, ◌≡◌, refl, sym, ap, ◌∙◌,
  arith, nat_eq, unit_eq, string_eq, option_eq, ◌==◌, any, All, In, inl, inr, Bool-cases,
  get-eq_of_map_eq,
}
use r_mini_k8s.Prelude.HashMap.{
  HashMap, HashSet, values, get, insert, contains_key, map_eq, get-insert, IsMap, insert-IsMap,
}
use r_mini_k8s.Objects.{Pod, get_ip, Ipv4Addr, Labels, matches, Service}
use r_mini_k8s.Endpoints.Defs.{
  selector_includes, gathered, gather, resynced, for_each, handle_resync,
}

pub contains-insert :
    (ip j : Ipv4Addr) (s : HashSet Ipv4Addr)
    → contains_key j (insert ip tt s) ≡ (ip == j || contains_key j s)
unfolding contains_key
contains-insert ip j s = ground (arith, get-insert ip j tt s)

contains-gathered :
    (svc : Service) (s : HashSet Ipv4Addr) (pod : Pod) (o : Option Ipv4Addr) (j : Ipv4Addr)
    → contains_key j (gathered svc s pod o)
      ≡ ((o == some j && selector_includes svc pod) || contains_key j s)
unfolding gathered
contains-gathered svc s pod none j = ground arith
contains-gathered svc s pod (some ip) j = ground (arith, contains-insert ip j s)

-- Does a pod that pass the test of the code on the selector have this address?
pub serves : Labels → Ipv4Addr → List Pod → Bool
serves selector j pods =
    any (λ pod. get_ip pod == some j && matches selector pod.metadata.labels) pods

contains-gather :
    (svc : Service) (s : HashSet Ipv4Addr) (pods : List Pod) (j : Ipv4Addr)
    → contains_key j (gather svc s pods) ≡ (serves svc.spec.selector j pods || contains_key j s)
unfolding gather serves any selector_includes
contains-gather svc s [] j = ground arith
contains-gather svc s (pod ∷ pods) j = ground (
  arith,
  contains-gather svc (gathered svc s pod (get_ip pod)) pods j,
  contains-gathered svc s pod (get_ip pod) j,
)

gathered-IsMap :
    (svc : Service) (s : HashSet Ipv4Addr) (pod : Pod) (o : Option Ipv4Addr)
    → IsMap s
    → IsMap (gathered svc s pod o)
unfolding gathered
gathered-IsMap svc s pod none d = d
gathered-IsMap svc s pod (some ip) d = ground (arith, insert-IsMap ip tt s d)

gather-IsMap :
    (svc : Service) (s : HashSet Ipv4Addr) (pods : List Pod) → IsMap s → IsMap (gather svc s pods)
unfolding gather
gather-IsMap svc s [] d = d
gather-IsMap svc s (pod ∷ pods) d =
    gather-IsMap svc (gathered svc s pod (get_ip pod)) pods
      (gathered-IsMap svc s pod (get_ip pod) d)

abbrev pub changed : (Service → Option Service) → Service → Service
changed change svc = elim (change svc) [ none ↦ svc | some new ↦ new ]

abbrev pub changed_at : (Service → Option Service) → Option Service → Option Service
changed_at change none = none
changed_at change (some svc) = some (changed change svc)

-- The sets of endpoints hold no address twice.
abbrev pub EndpointsAreSets : HashMap String Service → Type 0
EndpointsAreSets store = All (λ svc. IsMap svc.spec.endpoints) (values store)

EndpointsAreSets-get :
    (store : HashMap String Service) (k : String) (svc : Service)
    → EndpointsAreSets store
    → get k store ≡ some svc
    → IsMap svc.spec.endpoints
unfolding get
EndpointsAreSets-get [] k svc h g = ground arith
EndpointsAreSets-get ((j, old) ∷ store) k svc h g =
    ground (arith, EndpointsAreSets-get store k svc h.1)

contains-congruent :
    (j : Ipv4Addr) (s t : HashSet Ipv4Addr)
    → get j s ≡ get j t
    → contains_key j s ≡ contains_key j t
unfolding contains_key
contains-congruent j s t e = rw (e, contains_key) refl

contains-nothing : (j : Ipv4Addr) → contains_key {V = Unit {0}} j [] ≡ false
unfolding contains_key get
contains-nothing j = refl

contains-gather_all :
    (svc : Service) (pods : List Pod) (j : Ipv4Addr)
    → contains_key j (gather svc [] pods) ≡ serves svc.spec.selector j pods
contains-gather_all svc pods j = ground (arith, contains-gather svc [] pods j, contains-nothing j)

changed-selector :
    (pods : List Pod) (svc : Service)
    → (changed (resynced pods) svc).spec.selector ≡ svc.spec.selector
unfolding resynced
changed-selector pods svc = elim (Bool-cases (map_eq svc.spec.endpoints (gather svc [] pods))) [
  | inl same ↦ rw (same, changed, resynced) refl
  | inr differ ↦ rw (differ, changed, resynced) refl
]

-- What a resync leaves a service with.
contains-resynced :
    (pods : List Pod) (svc : Service) (j : Ipv4Addr)
    → IsMap svc.spec.endpoints
    → contains_key j (changed (resynced pods) svc).spec.endpoints ≡ serves svc.spec.selector j pods
unfolding resynced
contains-resynced pods svc j d =
    elim (Bool-cases (map_eq svc.spec.endpoints (gather svc [] pods))) [
      | inl same ↦
          let e =
            get-eq_of_map_eq svc.spec.endpoints (gather svc [] pods) d (gather-IsMap svc [] pods tt)
              same j in
          rw (same, changed, resynced)
            (contains-congruent j svc.spec.endpoints (gather svc [] pods) e
              ∙ contains-gather_all svc pods j)
      | inr differ ↦ rw (differ, changed, resynced) (contains-gather_all svc pods j)
    ]

serves-unlabelled :
    (selector : Labels) (pod : Pod) (j : Ipv4Addr) (pods : List Pod)
    → In pod pods
    → pod.metadata.labels ≡ []
    → get_ip pod ≡ some j
    → serves selector j pods ≡ true
unfolding serves any matches
serves-unlabelled selector pod j [] i l a = elim i [ ]
serves-unlabelled selector pod j (q ∷ pods) (inl e) l a =
    let ip : get_ip q ≡ some j = ap get_ip e ∙ a in
    let m : matches selector q.metadata.labels ≡ true =
      ap (λ (p : Pod). matches selector p.metadata.labels) e ∙ ap (matches selector) l in
    ground (arith, ip, m)
serves-unlabelled selector pod j (q ∷ pods) (inr i) l a =
    ground (arith, serves-unlabelled selector pod j pods i l a)

module _ (sent : Service → Bool) where
  -- A loop that came to its end has changed every service.
  pub get-for_each :
      (change : Service → Option Service) (k : String) (store : HashMap String Service)
      → (for_each sent change store).completed ≡ true
      → get k (for_each sent change store).store ≡ changed_at change (get k store)
  unfolding for_each get
  get-for_each change k [] c = refl
  get-for_each change k ((j, old) ∷ store) c = ground (arith, get-for_each change k store)

  -- If the endpoints of the services hold no address twice: after a resync that came to its
  -- end, the endpoints of a service are exactly the addresses of the pods that its selector
  -- serves.
  pub contains-handle_resync :
      (pod_store : HashMap String Pod) (store : HashMap String Service) (k : String) (svc : Service)
      (j : Ipv4Addr)
      → EndpointsAreSets store
      → (handle_resync sent pod_store store).completed ≡ true
      → get k (handle_resync sent pod_store store).store ≡ some svc
      → contains_key j svc.spec.endpoints ≡ serves svc.spec.selector j (values pod_store)
  unfolding handle_resync
  contains-handle_resync pod_store store k svc j d c g =
      from (get k store) refl (sym (get-for_each (resynced (values pod_store)) k store c) ∙ g)
    where
      from :
          (o : Option Service)
          → get k store ≡ o
          → changed_at (resynced (values pod_store)) o ≡ some svc
          → contains_key j svc.spec.endpoints ≡ serves svc.spec.selector j (values pod_store)
      from none q e = ground arith
      from (some old) q e =
          let was =
            contains-resynced (values pod_store) old j (EndpointsAreSets-get store k old d q) in
          let e' : changed (resynced (values pod_store)) old ≡ svc = cc in
          let selector = ap (λ (x : Service). serves x.spec.selector j (values pod_store)) e' in
          sym (ap (λ (x : Service). contains_key j x.spec.endpoints) e')
          ∙ was
          ∙ sym (ap (λ x. serves x j (values pod_store)) (changed-selector (values pod_store) old))
          ∙ selector

  -- A pod that has an address and no labels is an endpoint of every service after a resync that
  -- came to its end, if the endpoints of the services held no address twice.
  pub unlabelled-endpoint :
      (pod_store : HashMap String Pod) (store : HashMap String Service) (k : String) (svc : Service)
      (pod : Pod) (j : Ipv4Addr)
      → EndpointsAreSets store
      → (handle_resync sent pod_store store).completed ≡ true
      → get k (handle_resync sent pod_store store).store ≡ some svc
      → In pod (values pod_store)
      → pod.metadata.labels ≡ []
      → get_ip pod ≡ some j
      → contains_key j svc.spec.endpoints ≡ true
  unlabelled-endpoint pod_store store k svc pod j d c g i l a =
      contains-handle_resync pod_store store k svc j d c g
      ∙ serves-unlabelled svc.spec.selector pod j (values pod_store) i l a
