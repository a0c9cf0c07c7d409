-- ===== src/Examples/Targets.antt =====
-- The targets of a metrics server that watches the nodes.
use r_mini_k8s.Prelude.{
  String, Bool, true, false, Option, none, some, [], ◌∷◌, ◌++◌, ◌≡◌, refl, string_eq,
}
use r_mini_k8s.Prelude.HashMap.{HashMap, get}
use r_mini_k8s.ApiServer.Etcd.{success}
use r_mini_k8s.ApiServer.Targets.{PromConfig, add_target, remove_target}
use r_mini_k8s.ApiServer.Scraping.{has_target, targets_of, targets_in, remove_target-add_target}

abbrev config : PromConfig
config = record {
  global = record { scrape_interval = some "15s"; external_labels = [] };
  scrape_configs =
      record {
        job_name = "prometheus";
        scrape_interval = none;
        static_configs = record { targets = "localhost:9090" ∷ [] } ∷ [];
      }
      ∷ record {
        job_name = "serverless";
        scrape_interval = some "15s";
        static_configs = record { targets = "10.0.0.1:80" ∷ [] } ∷ [];
      }
      ∷ [];
}

abbrev payload : HashMap String String
payload = ("job", "serverless") ∷ ("target", "10.0.0.2:80") ∷ []

abbrev write : PromConfig → Option PromConfig × Bool
write config = (some config, true)

has_job : get "job" payload ≡ some "serverless"
unfolding get
has_job = refl

has_name : get "target" payload ≡ some "10.0.0.2:80"
unfolding get
has_name = refl

fresh : has_target "10.0.0.2:80" (targets_of "serverless" config.scrape_configs) ≡ false
unfolding has_target targets_of
fresh = refl

remove_target-add_target_example :
    let added = add_target write true (some config) payload in
    let removed = remove_target write true added.0 payload in
    (added.1 ≡ success tt)
    × (targets_in "serverless" added.0
        ≡ targets_of "serverless" config.scrape_configs ++ ("10.0.0.2:80" ∷ []))
    × (removed.1 ≡ success tt)
    × (targets_in "serverless" removed.0 ≡ targets_of "serverless" config.scrape_configs)
remove_target-add_target_example =
    remove_target-add_target write true config payload "serverless" "10.0.0.2:80" "serverless"
      (λ config. refl, refl) ((_, _, refl), ((_, _, refl), tt)) has_job has_name fresh
