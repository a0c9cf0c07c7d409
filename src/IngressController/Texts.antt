-- ===== src/IngressController/Texts.antt =====
-- The text of the configuration of nginx: `to_string` in controllers/src/ingress/nginx_ingress_config.rs.
-- The library nginx_config, which reads a text and prints it again, is a parameter: `none` is that it
-- cannot read the text.
use r_mini_k8s.Prelude.{
  ℕ, ◌/◌, ◌%◌, String, Option, none, some, List, [], ◌∷◌, Outcome, ok, panics, text, decimal,
}
use r_mini_k8s.Prelude.Replace.{replace}
use r_mini_k8s.Objects.{Ipv4Addr}

pub record IngressPath : Type 0 where
  pub path : String
  pub ip : Ipv4Addr
  pub port : ℕ

pub record IngressHost : Type 0 where
  pub host : String
  pub paths : List IngressPath

abbrev pub octet : ℕ → ℕ → String
octet ip unit = decimal (ip / unit % 256)

unfoldable pub ip_text : Ipv4Addr → String
unfolding decimal
ip_text ip =
    text (octet ip 16_777_216 ∷ "." ∷ octet ip 65_536 ∷ "." ∷ octet ip 256 ∷ "." ∷ octet ip 1 ∷ [])

abbrev pub location_base : String
location_base = "\nlocation PATH {\n    proxy_pass http://IP:PORT/;\n}\n"

abbrev pub server_base : String
server_base = "\nserver {\n    server_name SERVER_NAME;\n    listen 80;\n\n    LOCATIONS\n}\n"

abbrev pub config_base : String
config_base = text (
    "\nhttp {\n    SERVERS\n\n    server {\n        listen       80 default_server;\n"
    ∷ "        server_name  _;\n    \n        # Everything is a 404\n"
    ∷ "        location / {\n            return 404;\n        }\n    }\n}\n" ∷ [])

abbrev pub config_header : String
config_header = text (
    "\nuser www-data;\nworker_processes auto;\npid /run/nginx.pid;\n"
    ∷ "include /etc/nginx/modules-enabled/*.conf;\n\nevents {\n\tworker_connections 768;\n}\n\n"
    ∷ [])

-- One placeholder after the other: those that occur in the path are replaced too.
unfoldable pub path_text : IngressPath → String
unfolding replace ip_text decimal
path_text path =
    let out = replace location_base "PATH" path.path in
    let out = replace out "IP" (ip_text path.ip) in replace out "PORT" (decimal path.port)

unfoldable pub locations : List IngressPath → String
unfolding path_text
locations [] = ""
locations (path ∷ paths) = text (path_text path ∷ locations paths ∷ [])

unfoldable pub host_text : IngressHost → String
unfolding replace locations
host_text server =
    replace (replace server_base "SERVER_NAME" server.host) "LOCATIONS" (locations server.paths)

unfoldable pub server_texts : List IngressHost → String
unfolding host_text
server_texts [] = ""
server_texts (server ∷ servers) = text (host_text server ∷ server_texts servers ∷ [])

abbrev pub with_header : Option String → Outcome String
with_header none = panics
with_header (some formatted) = ok (text (config_header ∷ formatted ∷ []))

-- `NginxIngressConfig::to_string`; the library's error is unwrapped.
unfoldable pub config_text : (String → Option String) → List IngressHost → Outcome String
unfolding replace server_texts
config_text format servers =
    with_header (format (replace config_base "SERVERS" (server_texts servers)))
