-- ===== src/IngressController/Defs.antt =====
-- controllers/src/ingress/main.rs and `flush` of nginx_ingress_config.rs: from the stored ingresses
-- and services to the file that configures nginx. The state is the text of the file; its write and
-- the reload of nginx are taken to work, or else the controller panics.
use r_mini_k8s.Prelude.{
  String, Option, none, some, List, [], ◌∷◌, ◌++◌, Outcome, ok, panics, ◌>>=◌, string_eq, text,
}
use r_mini_k8s.Prelude.HashMap.{HashMap, values, get}
use r_mini_k8s.Objects.{Service, Ingress, IngressRule, Ipv4Addr, IngressPath as RulePath}
use r_mini_k8s.IngressController.Texts.{IngressPath, IngressHost, config_text}

unfoldable pub svc_uri : RulePath → String
svc_uri path = text ("/api/v1/services/" ∷ path.service_name ∷ [])

unfoldable pub located : RulePath → Option Ipv4Addr → List IngressPath → Outcome (List IngressPath)
located path none later = panics
located path (some ip) later =
    ok (record { path = path.path; ip = ip; port = path.service_port } ∷ later)

-- A path of a rule, before the later ones: it is left out if the service is not stored.
unfoldable pub add_path : RulePath → Option Service → List IngressPath → Outcome (List IngressPath)
unfolding located
add_path path none later = ok later
add_path path (some svc) later = located path svc.spec.cluster_ip later

unfoldable pub add_paths : HashMap String Service → List RulePath → Outcome (List IngressPath)
unfolding get svc_uri add_path
add_paths svc_store [] = ok []
add_paths svc_store (path ∷ rest) = do
  later ← add_paths svc_store rest
  add_path path (get (svc_uri path) svc_store) later

abbrev pub unwrap_host : Option String → Outcome String
unwrap_host none = panics
unwrap_host (some host) = ok host

unfoldable pub add_hosts : HashMap String Service → List IngressRule → Outcome (List IngressHost)
unfolding add_paths
add_hosts svc_store [] = ok []
add_hosts svc_store (rule ∷ rest) = do
  host ← unwrap_host rule.host
  paths ← add_paths svc_store rule.paths
  later ← add_hosts svc_store rest
  ok (record { host = host; paths = paths } ∷ later)

unfoldable pub servers : HashMap String Service → List Ingress → Outcome (List IngressHost)
unfolding add_hosts
servers svc_store [] = ok []
servers svc_store (ingress ∷ rest) = do
  hosts ← add_hosts svc_store ingress.rules
  later ← servers svc_store rest
  ok (hosts ++ later)

-- Without a server the file stays as it is.
unfoldable pub flush : (String → Option String) → String → List IngressHost → Outcome String
unfolding config_text
flush format file [] = ok file
flush format file (server ∷ servers) = config_text format (server ∷ servers)

-- From the text of the file to the next one
unfoldable pub reconfigure_nginx :
    (String → Option String)
    → HashMap String Ingress
    → HashMap String Service
    → String
    → Outcome String
unfolding servers flush
reconfigure_nginx format ingress_store svc_store file = do
  hosts ← servers svc_store (values ingress_store)
  flush format file hosts
