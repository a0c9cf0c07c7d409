-- ===== src/IngressController/Proxied.antt =====
-- Which requests nginx passes on to a service.
use r_mini_k8s.Prelude.{
  String, Option, none, some, List, [], ◌∷◌, ◌≡◌, ◌⊎◌, ◌↔◌, inl, inr, refl, ap, sym, ◌∙◌, arith, In,
  Some, bind-ok, sum_iff, ok_inj, Some-append, string_eq, ok,
}
use mathlib.Core.Path.{subst}
use r_mini_k8s.Prelude.HashMap.{HashMap, get}
use r_mini_k8s.Objects.{Service, Ingress, IngressRule, Ipv4Addr, IngressPath as RulePath}
use r_mini_k8s.IngressController.Texts.{IngressPath, IngressHost}
use r_mini_k8s.IngressController.Defs.{
  svc_uri, located, add_path, add_paths, unwrap_host, add_hosts, servers,
}

-- The path of a rule leads to the location: a stored service with an address.
abbrev pub LeadsTo : HashMap String Service → IngressPath → RulePath → Type 0
LeadsTo svc_store location path =
    (svc : Service) × (get (svc_uri path) svc_store ≡ some svc)
    × (svc.spec.cluster_ip ≡ some location.ip)
    × (location.path ≡ path.path)
    × (location.port ≡ path.service_port)

abbrev pub RuleLeadsTo : HashMap String Service → String → IngressPath → IngressRule → Type 0
RuleLeadsTo svc_store host location rule =
    (rule.host ≡ some host) × Some (LeadsTo svc_store location) rule.paths

-- The server of the host has the location.
abbrev pub IsProxied : String → IngressPath → List IngressHost → Type 0
IsProxied host location hosts =
    Some (λ (server : IngressHost). (server.host ≡ host) × In location server.paths) hosts

abbrev IsAt : IngressPath → RulePath → Option Ipv4Addr → Type 0
IsAt location path ip =
    (ip ≡ some location.ip) × (location.path ≡ path.path) × (location.port ≡ path.service_port)

abbrev location_of : RulePath → Ipv4Addr → IngressPath
location_of path ip = record { path = path.path; ip = ip; port = path.service_port }

location_iff :
    (location : IngressPath) (path : RulePath) (ip : Ipv4Addr)
    → (location_of path ip ≡ location) ↔ IsAt location path (some ip)
location_iff location path ip = (
  λ e. (
    ap (λ (l : IngressPath). some l.ip) e,
    sym (ap (λ (l : IngressPath). l.path) e),
    sym (ap (λ (l : IngressPath). l.port) e),
  ),
  λ (at, p, q). ground arith,
)

located-In :
    (location : IngressPath) (path : RulePath) (ip : Option Ipv4Addr) (later all : List IngressPath)
    → located path ip later ≡ ok all
    → In location all ↔ (IsAt location path ip ⊎ In location later)
unfolding located
located-In location path none later all e = ground arith
located-In location path (some ip) later all e =
    let at = sum_iff (location_iff location path ip) (λ (i : In location later). i, λ i. i) in
    let same = sym (ok_inj _ all e) in
    (λ i. at.0 (subst (In location) same i), λ s. subst (In location) (sym same) (at.1 s))

add_path-In :
    (svc_store : HashMap String Service) (location : IngressPath) (path : RulePath)
    (found : Option Service) (later all : List IngressPath)
    → get (svc_uri path) svc_store ≡ found
    → add_path path found later ≡ ok all
    → In location all ↔ (LeadsTo svc_store location path ⊎ In location later)
unfolding add_path located
add_path-In svc_store location path none later all e added =
    let same : all ≡ later = sym (ok_inj later all added) in
    (
      λ i. inr (subst (In location) same i),
      λ s. elim s [
        | inl (svc, found, _, _, _) ↦ ground arith
        | inr i ↦ subst (In location) (sym same) i
      ],
    )
add_path-In svc_store location path (some svc) later all e added =
    let at = located-In location path svc.spec.cluster_ip later all added in
    let stored : (LeadsTo svc_store location path) ↔ IsAt location path svc.spec.cluster_ip = (
      λ (svc', found, ip, p, q).
          let same : svc' ≡ svc = ground arith in
          subst (λ (s : Service). IsAt location path s.spec.cluster_ip) same (ip, p, q),
      λ (ip, p, q). (svc, e, ip, p, q),
    ) in
    let both = sum_iff stored (λ (i : In location later). i, λ i. i) in
    (λ i. both.1 (at.0 i), λ s. at.1 (both.0 s))

add_paths-In :
    (svc_store : HashMap String Service) (location : IngressPath) (rule_paths : List RulePath)
    (paths : List IngressPath)
    → add_paths svc_store rule_paths ≡ ok paths
    → In location paths ↔ Some (LeadsTo svc_store location) rule_paths
unfolding add_paths
add_paths-In svc_store location [] paths e =
    let same = ok_inj [] paths e in (λ i. subst (In location) (sym same) i, λ s. absurd s)
add_paths-In svc_store location (path ∷ rest) paths e =
    let (later, el, e') = bind-ok _ _ paths e in
    let first = add_path-In svc_store location path _ later paths refl e' in
    let rec = sum_iff (λ l. l, λ l. l) (add_paths-In svc_store location rest later el) in
    (λ i. rec.0 (first.0 i), λ s. first.1 (rec.1 s))

pub unwrap_host-ok : (host : Option String) (h : String) → unwrap_host host ≡ ok h → host ≡ some h
unwrap_host-ok none h e = ground arith
unwrap_host-ok (some h') h e = ground arith

rule_iff :
    (svc_store : HashMap String Service) (host h : String) (location : IngressPath)
    (rule : IngressRule) (paths : List IngressPath)
    → rule.host ≡ some h
    → add_paths svc_store rule.paths ≡ ok paths
    → ((h ≡ host) × In location paths) ↔ RuleLeadsTo svc_store host location rule
rule_iff svc_store host h location rule paths hosted added =
    let at = add_paths-In svc_store location rule.paths paths added in
    (
      λ (same, i). (hosted ∙ ap some same, at.0 i),
      λ (hosted', s). (let same : h ≡ host = ground arith in same, at.1 s),
    )

add_hosts-IsProxied :
    (svc_store : HashMap String Service) (host : String) (location : IngressPath)
    (rules : List IngressRule) (hosts : List IngressHost)
    → add_hosts svc_store rules ≡ ok hosts
    → IsProxied host location hosts ↔ Some (RuleLeadsTo svc_store host location) rules
unfolding add_hosts
add_hosts-IsProxied svc_store host location [] hosts e =
    let same = sym (ok_inj [] hosts e) in
    (λ i. subst (IsProxied host location) same i, λ s. absurd s)
add_hosts-IsProxied svc_store host location (rule ∷ rest) hosts e =
    let (h, hosted, e1) = bind-ok _ _ hosts e in
    let (paths, added, e2) = bind-ok _ _ hosts e1 in
    let (later, el, e3) = bind-ok _ _ hosts e2 in
    let here =
      rule_iff svc_store host h location rule paths (unwrap_host-ok rule.host h hosted) added in
    let all = sum_iff here (add_hosts-IsProxied svc_store host location rest later el) in
    let same = sym (ok_inj _ hosts e3) in
    (
      λ i. all.0 (subst (IsProxied host location) same i),
      λ s. subst (IsProxied host location) (sym same) (all.1 s),
    )

-- A rule of a stored ingress leads requests for the host to the location.
abbrev pub IsRouted : HashMap String Service → String → IngressPath → List Ingress → Type 0
IsRouted svc_store host location ingresses =
    Some (λ (ingress : Ingress). Some (RuleLeadsTo svc_store host location) ingress.rules) ingresses

pub servers-IsProxied :
    (svc_store : HashMap String Service) (host : String) (location : IngressPath)
    (ingresses : List Ingress) (hosts : List IngressHost)
    → servers svc_store ingresses ≡ ok hosts
    → IsProxied host location hosts ↔ IsRouted svc_store host location ingresses
unfolding servers
servers-IsProxied svc_store host location [] hosts e =
    let same = sym (ok_inj [] hosts e) in
    (λ i. subst (IsProxied host location) same i, λ s. absurd s)
servers-IsProxied svc_store host location (ingress ∷ rest) hosts e =
    let (first, ef, e1) = bind-ok _ _ hosts e in
    let (later, el, e2) = bind-ok _ _ hosts e1 in
    let split =
      Some-append (λ (s : IngressHost). (s.host ≡ host) × In location s.paths) first later in
    let all =
      sum_iff (add_hosts-IsProxied svc_store host location ingress.rules first ef)
        (servers-IsProxied svc_store host location rest later el) in
    let same = sym (ok_inj _ hosts e2) in
    (
      λ i. all.0 (split.0 (subst (IsProxied host location) same i)),
      λ s. subst (IsProxied host location) (sym same) (split.1 (all.1 s)),
    )
