-- ===== src/Examples/Ingresses.antt =====
-- An ingress with a path to a stored service and one to a service that is not stored.
use r_mini_k8s.Prelude.{
  String, Option, some, List, [], ◌∷◌, ◌≡◌, ◌⊎◌, refl, All, ok, text, decimal, string_eq,
}
use r_mini_k8s.Prelude.HashMap.{HashMap, get}
use r_mini_k8s.Prelude.Replace.{is_prefix, scan, replace, lacks}
use r_mini_k8s.Objects.{Service, Ingress}
use r_mini_k8s.IngressController.Texts.{
  IngressHost, ip_text, path_text, locations, host_text, server_texts, config_text,
}
use r_mini_k8s.IngressController.Defs.{
  svc_uri, located, add_path, add_paths, add_hosts, servers, flush, reconfigure_nginx,
}
use r_mini_k8s.IngressController.Reconfigured.{HasNoRule, IsServing, reconfigure_nginx_lem}
use r_mini_k8s.IngressController.Plain.{IsPlainHost, plain_config, printed, config_text_lem}
use r_mini_k8s.Examples.Data.{web_service}

abbrev shop : Ingress
shop = record {
  metadata = (web_service (some 7)).metadata;
  rules =
      record {
        host = some "shop.com";
        paths =
            record { path = "/"; service_name = "web"; service_port = 80 }
            ∷ record { path = "/old"; service_name = "gone"; service_port = 80 }
            ∷ [];
      }
      ∷ [];
}

abbrev svc_store : HashMap String Service
svc_store = ("/api/v1/services/web", web_service (some 7)) ∷ []

-- A library that prints what it reads
abbrev same : String → Option String
same = λ s. some s

-- The file for one server with one location
abbrev file : String
file = text (
    "\nuser www-data;\nworker_processes auto;\npid /run/nginx.pid;\n"
    ∷ "include /etc/nginx/modules-enabled/*.conf;\n\nevents {\n\tworker_connections 768;\n}\n\n"
    ∷ "\nhttp {\n    \nserver {\n    server_name shop.com;\n    listen 80;\n\n"
    ∷ "    \nlocation / {\n    proxy_pass http://0.0.0.7:80/;\n}\n\n}\n\n\n"
    ∷ "    server {\n        listen       80 default_server;\n"
    ∷ "        server_name  _;\n    \n        # Everything is a 404\n"
    ∷ "        location / {\n            return 404;\n        }\n    }\n}\n" ∷ [])

abbrev ingress_store : HashMap String Ingress
ingress_store = ("/api/v1/ingresses/shop", shop) ∷ []

runs : reconfigure_nginx same ingress_store svc_store "" ≡ ok file
unfolding reconfigure_nginx servers flush add_hosts add_paths add_path located svc_uri get
    config_text server_texts host_text locations path_text replace scan is_prefix ip_text decimal
runs = refl

reconfigure_nginx_lem_example :
    HasNoRule (shop ∷ []) × (file ≡ "")
    ⊎ (¬ HasNoRule (shop ∷ []))
      × (hosts : List IngressHost) × (config_text same hosts ≡ ok file)
      × IsServing svc_store (shop ∷ []) hosts
reconfigure_nginx_lem_example = reconfigure_nginx_lem same ingress_store svc_store "" file runs

-- A path that holds a placeholder is spoilt.
spoilt :
    path_text (record { path = "/SHIP"; ip = 167_772_161; port = 80 })
    ≡ "\nlocation /SH10.0.0.1 {\n    proxy_pass http://10.0.0.1:80/;\n}\n"
unfolding path_text replace scan is_prefix ip_text decimal
spoilt = refl

abbrev shop_servers : List IngressHost
shop_servers =
    record { host = "shop.com"; paths = record { path = "/"; ip = 7; port = 80 } ∷ [] } ∷ []

shop_servers-IsPlainHost : All IsPlainHost shop_servers
unfolding lacks
shop_servers-IsPlainHost = ((refl, ((refl, refl), tt)), tt)

config_text_lem_example : config_text same shop_servers ≡ printed (same (plain_config shop_servers))
config_text_lem_example = config_text_lem same shop_servers shop_servers-IsPlainHost
