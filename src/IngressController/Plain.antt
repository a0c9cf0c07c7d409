-- ===== src/IngressController/Plain.antt =====
-- The text of a configuration whose names hold no placeholder.
use Prim.Native.String
use r_mini_k8s.Prelude.{
  ℕ, ◌/◌, ◌%◌, String, true, Option, List, [], ◌∷◌, ◌≡◌, refl, ap, ◌∙◌, All, Outcome, ok, panics,
  none, some, text, decimal,
}
use r_mini_k8s.Prelude.Replace.{
  is_prefix, scan, replace, lacks, lacks-append, replace-lacks, replace-occurs, decimal-lacks,
}
use r_mini_k8s.Objects.{Ipv4Addr}
use r_mini_k8s.IngressController.Texts.{
  IngressPath, IngressHost, octet, ip_text, location_base, server_base, config_base, config_header,
  path_text, locations, host_text, server_texts, with_header, config_text,
}

text-lacks :
    (n : ℕ) (pieces : List String)
    → All (λ piece. lacks n piece ≡ true) pieces
    → lacks n (text pieces) ≡ true
unfolding lacks
text-lacks n [] h = refl
text-lacks n (piece ∷ pieces) (h, hs) =
    lacks-append n piece (text pieces) h (text-lacks n pieces hs)

ip_text-lacks : (ip : Ipv4Addr) → lacks 80 (ip_text ip) ≡ true
unfolding ip_text lacks
ip_text-lacks ip =
    let number = λ (unit : ℕ). decimal-lacks (ip / unit % 256) in
    text-lacks 80
      (octet ip 16_777_216 ∷ "." ∷ octet ip 65_536 ∷ "." ∷ octet ip 256 ∷ "." ∷ octet ip 1 ∷ [])
      (number 16_777_216, (refl, (number 65_536, (refl, (number 256, (refl, (number 1, tt)))))))

-- The text of a location, piece by piece
abbrev pub plain_path : IngressPath → String
plain_path path = text (
    "\nlocation "
    ∷ path.path
    ∷ " {\n    proxy_pass http://"
    ∷ ip_text path.ip
    ∷ ":"
    ∷ decimal path.port
    ∷ "/;\n}\n"
    ∷ [])

with_path :
    (p : String)
    → replace location_base "PATH" p
      ≡ text ("\nlocation " ∷ p ∷ " {\n    proxy_pass http://IP:PORT/;\n}\n" ∷ [])
unfolding replace scan is_prefix lacks
with_path p =
    replace-lacks "P" "ATH" p "\nlocation " "PATH {\n    proxy_pass http://IP:PORT/;\n}\n" refl
    ∙ ap (String.◌++◌ "\nlocation ")
        (replace-occurs "P" "ATH" p " {\n    proxy_pass http://IP:PORT/;\n}\n")

with_ip :
    (p ip : String)
    → lacks 73 p ≡ true
    → replace (text ("\nlocation " ∷ p ∷ " {\n    proxy_pass http://IP:PORT/;\n}\n" ∷ [])) "IP" ip
      ≡ text ("\nlocation " ∷ p ∷ " {\n    proxy_pass http://" ∷ ip ∷ ":PORT/;\n}\n" ∷ [])
unfolding replace scan is_prefix lacks
with_ip p ip h =
    replace-lacks "I" "P" ip "\nlocation "
      (text (p ∷ " {\n    proxy_pass http://IP:PORT/;\n}\n" ∷ [])) refl
    ∙ ap (String.◌++◌ "\nlocation ") (
        replace-lacks "I" "P" ip p " {\n    proxy_pass http://IP:PORT/;\n}\n" h
        ∙ ap (String.◌++◌ p) (
            replace-lacks "I" "P" ip " {\n    proxy_pass http://" "IP:PORT/;\n}\n" refl
            ∙ ap (String.◌++◌ " {\n    proxy_pass http://")
                (replace-occurs "I" "P" ip ":PORT/;\n}\n")))

with_port :
    (p ip port : String)
    → lacks 80 p ≡ true
    → lacks 80 ip ≡ true
    → replace
        (text ("\nlocation " ∷ p ∷ " {\n    proxy_pass http://" ∷ ip ∷ ":PORT/;\n}\n" ∷ []))
        "PORT"
        port
      ≡ text ("\nlocation " ∷ p ∷ " {\n    proxy_pass http://" ∷ ip ∷ ":" ∷ port ∷ "/;\n}\n" ∷ [])
unfolding replace scan is_prefix lacks
with_port p ip port hp hi =
    replace-lacks "P" "ORT" port "\nlocation "
      (text (p ∷ " {\n    proxy_pass http://" ∷ ip ∷ ":PORT/;\n}\n" ∷ [])) refl
    ∙ ap (String.◌++◌ "\nlocation ") (
        replace-lacks "P" "ORT" port p
          (text (" {\n    proxy_pass http://" ∷ ip ∷ ":PORT/;\n}\n" ∷ [])) hp
        ∙ ap (String.◌++◌ p) (
            replace-lacks "P" "ORT" port " {\n    proxy_pass http://"
              (text (ip ∷ ":PORT/;\n}\n" ∷ [])) refl
            ∙ ap (String.◌++◌ " {\n    proxy_pass http://") (
                replace-lacks "P" "ORT" port ip ":PORT/;\n}\n" hi
                ∙ ap (String.◌++◌ ip) (
                    replace-lacks "P" "ORT" port ":" "PORT/;\n}\n" refl
                    ∙ ap (String.◌++◌ ":") (replace-occurs "P" "ORT" port "/;\n}\n")))))

-- The path has neither a capital I nor a capital P, the first letters of the placeholders.
abbrev pub IsPlainPath : IngressPath → Type 0
IsPlainPath path = (lacks 73 path.path ≡ true) × (lacks 80 path.path ≡ true)

path_text_lem : (path : IngressPath) → IsPlainPath path → path_text path ≡ plain_path path
unfolding path_text
path_text_lem path (hi, hp) =
    ap (λ out. replace (replace out "IP" (ip_text path.ip)) "PORT" (decimal path.port))
      (with_path path.path)
    ∙ ap (λ out. replace out "PORT" (decimal path.port)) (with_ip path.path (ip_text path.ip) hi)
    ∙ with_port path.path (ip_text path.ip) (decimal path.port) hp (ip_text-lacks path.ip)

abbrev pub plain_paths : List IngressPath → String
plain_paths [] = ""
plain_paths (path ∷ paths) = text (plain_path path ∷ plain_paths paths ∷ [])

locations_lem :
    (paths : List IngressPath) → All IsPlainPath paths → locations paths ≡ plain_paths paths
unfolding locations
locations_lem [] h = refl
locations_lem (path ∷ paths) (h, hs) = rw (path_text_lem path h, locations_lem paths hs) refl

abbrev pub plain_host : IngressHost → String
plain_host server = text (
    "\nserver {\n    server_name "
    ∷ server.host
    ∷ ";\n    listen 80;\n\n    "
    ∷ plain_paths server.paths
    ∷ "\n}\n"
    ∷ [])

-- The host has no capital L, and its paths are plain.
abbrev pub IsPlainHost : IngressHost → Type 0
IsPlainHost server = (lacks 76 server.host ≡ true) × All IsPlainPath server.paths

with_host :
    (host : String)
    → replace server_base "SERVER_NAME" host
      ≡ text
          ("\nserver {\n    server_name " ∷ host ∷ ";\n    listen 80;\n\n    LOCATIONS\n}\n" ∷ [])
unfolding replace scan is_prefix lacks
with_host host =
    replace-lacks "S" "ERVER_NAME" host "\nserver {\n    server_name "
      "SERVER_NAME;\n    listen 80;\n\n    LOCATIONS\n}\n" refl
    ∙ ap (String.◌++◌ "\nserver {\n    server_name ")
        (replace-occurs "S" "ERVER_NAME" host ";\n    listen 80;\n\n    LOCATIONS\n}\n")

with_locations :
    (host paths : String)
    → lacks 76 host ≡ true
    → replace
        (text
          ("\nserver {\n    server_name " ∷ host ∷ ";\n    listen 80;\n\n    LOCATIONS\n}\n" ∷ []))
        "LOCATIONS"
        paths
      ≡ text (
          "\nserver {\n    server_name " ∷ host ∷ ";\n    listen 80;\n\n    " ∷ paths ∷ "\n}\n"
          ∷ [])
unfolding replace scan is_prefix lacks
with_locations host paths h =
    replace-lacks "L" "OCATIONS" paths "\nserver {\n    server_name "
      (text (host ∷ ";\n    listen 80;\n\n    LOCATIONS\n}\n" ∷ [])) refl
    ∙ ap (String.◌++◌ "\nserver {\n    server_name ") (
        replace-lacks "L" "OCATIONS" paths host ";\n    listen 80;\n\n    LOCATIONS\n}\n" h
        ∙ ap (String.◌++◌ host) (
            replace-lacks "L" "OCATIONS" paths ";\n    listen 80;\n\n    " "LOCATIONS\n}\n" refl
            ∙ ap (String.◌++◌ ";\n    listen 80;\n\n    ")
                (replace-occurs "L" "OCATIONS" paths "\n}\n")))

host_text_lem : (server : IngressHost) → IsPlainHost server → host_text server ≡ plain_host server
unfolding host_text
host_text_lem server (h, hs) =
    ap (λ out. replace out "LOCATIONS" (locations server.paths)) (with_host server.host)
    ∙ with_locations server.host (locations server.paths) h
    ∙ rw (locations_lem server.paths hs) refl

abbrev pub plain_hosts : List IngressHost → String
plain_hosts [] = ""
plain_hosts (server ∷ servers) = text (plain_host server ∷ plain_hosts servers ∷ [])

server_texts_lem :
    (servers : List IngressHost)
    → All IsPlainHost servers
    → server_texts servers ≡ plain_hosts servers
unfolding server_texts
server_texts_lem [] h = refl
server_texts_lem (server ∷ servers) (h, hs) =
    rw (host_text_lem server h, server_texts_lem servers hs) refl

-- What follows the servers: everything else is answered with 404.
abbrev pub default_server : String
default_server = text (
    "\n\n    server {\n        listen       80 default_server;\n"
    ∷ "        server_name  _;\n    \n        # Everything is a 404\n"
    ∷ "        location / {\n            return 404;\n        }\n    }\n}\n" ∷ [])

abbrev pub plain_config : List IngressHost → String
plain_config servers = text ("\nhttp {\n    " ∷ plain_hosts servers ∷ default_server ∷ [])

with_servers :
    (servers : String)
    → replace config_base "SERVERS" servers
      ≡ text ("\nhttp {\n    " ∷ servers ∷ default_server ∷ [])
unfolding replace scan is_prefix lacks
with_servers servers =
    replace-lacks "S" "ERVERS" servers "\nhttp {\n    " (text ("SERVERS" ∷ default_server ∷ []))
      refl
    ∙ ap (String.◌++◌ "\nhttp {\n    ") (replace-occurs "S" "ERVERS" servers default_server)

-- The file for what the library prints
abbrev pub printed : Option String → Outcome String
printed none = panics
printed (some formatted) = ok (text (config_header ∷ formatted ∷ []))

with_header_lem : (o : Option String) → with_header o ≡ printed o
with_header_lem none = refl
with_header_lem (some formatted) = refl

-- If no host has a capital L and no path a capital I or P, then the text that the library formats is
-- the one printed piece by piece: for each server its block with its host, in it for each location
-- its path and a proxy_pass to its address and port, and at the end the default server; the formatted
-- text follows the header, and an error of the library is a panic.
pub config_text_lem :
    (format : String → Option String) (servers : List IngressHost)
    → All IsPlainHost servers
    → config_text format servers ≡ printed (format (plain_config servers))
unfolding config_text
config_text_lem format servers h =
    ap (λ t. with_header (format (replace config_base "SERVERS" t))) (server_texts_lem servers h)
    ∙ ap (λ t. with_header (format t)) (with_servers (plain_hosts servers))
    ∙ with_header_lem (format (plain_config servers))
