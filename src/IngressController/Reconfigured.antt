-- ===== src/IngressController/Reconfigured.antt =====
-- What a reconfiguration leaves in the file of nginx.
use r_mini_k8s.Prelude.{
  String, Option, some, List, [], ◌∷◌, ◌++◌, ◌≡◌, ◌≢◌, map, ◌⊎◌, ◌↔◌, inl, inr, refl, ap, sym, ◌∙◌,
  arith, All, bind-ok, ok_inj, append-empty, string_eq, ok,
}
use r_mini_k8s.Prelude.HashMap.{HashMap, values}
use r_mini_k8s.Objects.{Service, Ingress, IngressRule}
use r_mini_k8s.IngressController.Texts.{IngressPath, IngressHost, config_text}
use r_mini_k8s.IngressController.Defs.{
  add_paths, unwrap_host, add_hosts, servers, flush, reconfigure_nginx,
}
use r_mini_k8s.IngressController.Proxied.{IsProxied, IsRouted, servers-IsProxied, unwrap_host-ok}

flush-cases :
    (format : String → Option String) (file : String) (hosts : List IngressHost)
    → (hosts ≡ []) × (flush format file hosts ≡ ok file)
      ⊎ (hosts ≢ []) × (flush format file hosts ≡ config_text format hosts)
unfolding flush
flush-cases format file [] = inl (refl, refl)
flush-cases format file (host ∷ hosts) = inr (λ e. ground (arith, e), refl)

add_hosts-empty :
    (svc_store : HashMap String Service) (rules : List IngressRule)
    → add_hosts svc_store rules ≡ ok []
    → rules ≡ []
unfolding add_hosts
add_hosts-empty svc_store [] e = refl
add_hosts-empty svc_store (rule ∷ rest) e =
    let (h, _, e1) = bind-ok (unwrap_host rule.host) _ [] e in
    let (paths, _, e2) = bind-ok (add_paths svc_store rule.paths) _ [] e1 in
    let (later, _, e3) = bind-ok (add_hosts svc_store rest) _ [] e2 in ground (arith, e3)

servers-empty :
    (svc_store : HashMap String Service) (ingresses : List Ingress)
    → servers svc_store ingresses ≡ ok []
    → All (λ (ingress : Ingress). ingress.rules ≡ []) ingresses
unfolding servers
servers-empty svc_store [] e = tt
servers-empty svc_store (ingress ∷ rest) e =
    let (first, ef, e1) = bind-ok _ _ [] e in
    let (later, el, e2) = bind-ok _ _ [] e1 in
    let both = append-empty first later (ok_inj _ [] e2) in
    (
      add_hosts-empty svc_store ingress.rules (ef ∙ ap ok both.0),
      servers-empty svc_store rest (el ∙ ap ok both.1),
    )

-- No ingress has a rule.
abbrev pub HasNoRule : List Ingress → Type 0
HasNoRule ingresses = All (λ (ingress : Ingress). ingress.rules ≡ []) ingresses

servers-HasNoRule :
    (svc_store : HashMap String Service) (ingresses : List Ingress)
    → HasNoRule ingresses
    → servers svc_store ingresses ≡ ok []
unfolding servers add_hosts
servers-HasNoRule svc_store [] h = refl
servers-HasNoRule svc_store (ingress ∷ rest) (e, h) =
    rw (e, servers-HasNoRule svc_store rest h) refl

-- The rules of all ingresses, in the order of iteration
abbrev pub all_rules : List Ingress → List IngressRule
all_rules [] = []
all_rules (ingress ∷ rest) = ingress.rules ++ all_rules rest

abbrev pub names : List IngressHost → List (Option String)
names servers = map (λ (server : IngressHost). some server.host) servers

abbrev pub rule_names : List IngressRule → List (Option String)
rule_names rules = map (λ (rule : IngressRule). rule.host) rules

names-add_hosts :
    (svc_store : HashMap String Service) (rules : List IngressRule) (hosts : List IngressHost)
    → add_hosts svc_store rules ≡ ok hosts
    → names hosts ≡ rule_names rules
unfolding add_hosts
names-add_hosts svc_store [] hosts e = ap names (sym (ok_inj [] hosts e))
names-add_hosts svc_store (rule ∷ rest) hosts e =
    let (h, hosted, e1) = bind-ok (unwrap_host rule.host) _ hosts e in
    let (paths, added, e2) = bind-ok (add_paths svc_store rule.paths) _ hosts e1 in
    let (later, el, e3) = bind-ok (add_hosts svc_store rest) _ hosts e2 in
    ap names (sym (ok_inj _ hosts e3))
    ∙ rw (unwrap_host-ok rule.host h hosted, names-add_hosts svc_store rest later el) refl

map-append : {A B : Type 0} (f : A → B) (xs ys : List A) → map f (xs ++ ys) ≡ map f xs ++ map f ys
map-append f [] ys = refl
map-append f (x ∷ xs) ys = ap (λ zs. f x ∷ zs) (map-append f xs ys)

names-servers :
    (svc_store : HashMap String Service) (ingresses : List Ingress) (hosts : List IngressHost)
    → servers svc_store ingresses ≡ ok hosts
    → names hosts ≡ rule_names (all_rules ingresses)
unfolding servers
names-servers svc_store [] hosts e = ap names (sym (ok_inj [] hosts e))
names-servers svc_store (ingress ∷ rest) hosts e =
    let (first, ef, e1) = bind-ok (add_hosts svc_store ingress.rules) _ hosts e in
    let (later, el, e2) = bind-ok (servers svc_store rest) _ hosts e1 in
    ap names (sym (ok_inj _ hosts e2))
    ∙ map-append (λ (s : IngressHost). some s.host) first later
    ∙ rw (names-add_hosts svc_store ingress.rules first ef, names-servers svc_store rest later el)
        (sym (map-append (λ (r : IngressRule). r.host) ingress.rules (all_rules rest)))

-- The servers are those of the ingresses: one for each rule, in order, with the host of the rule;
-- and one for the host has the location if and only if a rule for the host leads to it.
abbrev pub IsServing : HashMap String Service → List Ingress → List IngressHost → Type 0
IsServing svc_store ingresses hosts =
    (names hosts ≡ rule_names (all_rules ingresses))
    × ((host : String) (location : IngressPath)
        → IsProxied host location hosts ↔ IsRouted svc_store host location ingresses)

-- A reconfiguration that does not panic either finds no rule in any stored ingress, and then leaves
-- the file of nginx as it was; or there is a rule, and then the file has the text that the code
-- makes of a list of servers: one for each rule, in order and with its host, and a server for a host
-- has a location if and only if a rule of a stored ingress for the host has a path to a stored
-- service, and the location is the path, the address of the service and the port that the rule
-- names. (Two rules for one host are two servers. The text replaces placeholders in names too.)
pub reconfigure_nginx_lem :
    (format : String → Option String) (ingress_store : HashMap String Ingress)
    (svc_store : HashMap String Service) (file result : String)
    → reconfigure_nginx format ingress_store svc_store file ≡ ok result
    → HasNoRule (values ingress_store) × (result ≡ file)
      ⊎ (¬ HasNoRule (values ingress_store))
        × (hosts : List IngressHost) × (config_text format hosts ≡ ok result)
        × IsServing svc_store (values ingress_store) hosts
unfolding reconfigure_nginx
reconfigure_nginx_lem format ingress_store svc_store file result e =
    let (hosts, eh, e1) = bind-ok (servers svc_store (values ingress_store)) _ result e in
    elim (flush-cases format file hosts) [
      | inl (empty, kept) ↦ inl (
        servers-empty svc_store (values ingress_store) (eh ∙ ap ok empty),
        sym (ok_inj file result (sym kept ∙ e1)),
      )
      | inr (full, built) ↦ inr (
        λ none_left. full (
            ok_inj hosts []
              (sym eh ∙ servers-HasNoRule svc_store (values ingress_store) none_left)),
        hosts,
        sym built ∙ e1,
        (
          names-servers svc_store (values ingress_store) hosts eh,
          λ host location.
              servers-IsProxied svc_store host location (values ingress_store) hosts eh,
        ),
      )
    ]
