-- ===== src/ApiServer/Targets.antt =====
-- The scrape targets of the metrics server: the part of api_server/src/handler/metrics.rs that edits
-- its configuration. The file is what `read_config` makes of it, `none` if it cannot be read. What a
-- write leaves in it and whether it is reported as done is the parameter `write`, whether the
-- metrics server takes the new configuration the parameter `reload`.
use r_mini_k8s.Prelude.{
  String, Bool, true, false, Option, none, some, List, [], ◌∷◌, ◌++◌, any, ◌==◌, string_eq,
  if◌then◌else◌, Outcome, ok, error, panics, ◌>>=◌,
}
use r_mini_k8s.Prelude.HashMap.{HashMap, get}
use r_mini_k8s.ApiServer.Etcd.{HandlerResult, success, failure, panicked, internal_server_error}

pub record PromGlobalConfig : Type 0 where
  pub scrape_interval : Option String
  pub external_labels : HashMap String String

pub record PromStaticConfig : Type 0 where
  pub targets : List String

pub record PromScrapeConfig : Type 0 where
  pub job_name : String
  pub scrape_interval : Option String
  pub static_configs : List PromStaticConfig

pub record PromConfig : Type 0 where
  pub global : PromGlobalConfig
  pub scrape_configs : List PromScrapeConfig

-- `Vec::remove` at the position of the first target that is equal
unfoldable pub remove_first : String → List String → List String
remove_first target [] = []
remove_first target (t ∷ rest) =
    let later = remove_first target rest in if t == target then rest else t ∷ later

unfoldable pub push_target : String → List String → List String
unfolding any
push_target target targets =
    if any (λ t. t == target) targets then targets else targets ++ (target ∷ [])

-- `static_configs[0]` panics where there is none.
unfoldable pub edit_first :
    (List String → List String) → List PromStaticConfig → Outcome (List PromStaticConfig)
edit_first f [] = panics
edit_first f (group ∷ rest) = ok (record { targets = f group.targets } ∷ rest)

-- An edit of the first job of the name; without such a job, `absent` is pushed.
unfoldable pub edit_job :
    String
    → (List String → List String)
    → List PromScrapeConfig
    → List PromScrapeConfig
    → Outcome (List PromScrapeConfig)
unfolding edit_first
edit_job job f absent [] = ok absent
edit_job job f absent (config ∷ rest) =
    let later = edit_job job f absent rest in
    if config.job_name == job
    then (edit_first f config.static_configs >>= λ groups.
        ok (record config { static_configs = groups } ∷ rest))
    else (later >>= λ configs. ok (config ∷ configs))

abbrev pub new_job : String → String → PromScrapeConfig
new_job job target = record {
  job_name = job;
  scrape_interval = some "15s";
  static_configs = record { targets = target ∷ [] } ∷ [];
}

unfoldable pub add_to_configs :
    String → String → List PromScrapeConfig → Outcome (List PromScrapeConfig)
unfolding edit_job push_target
add_to_configs job target = edit_job job (push_target target) (new_job job target ∷ [])

unfoldable pub remove_from_configs :
    String → String → List PromScrapeConfig → Outcome (List PromScrapeConfig)
unfolding edit_job remove_first
remove_from_configs job target = edit_job job (remove_first target) []

module _ (write : PromConfig → Option PromConfig × Bool) (reload : Bool) where
  abbrev pub reloaded : Option PromConfig × Bool → Option PromConfig × HandlerResult Unit
  reloaded (file, true) = (file, if reload then success tt else failure internal_server_error)
  reloaded (file, false) = (file, failure internal_server_error)

  -- `write_config`, then `reload_config`
  unfoldable pub stored_config :
      PromConfig → Outcome (List PromScrapeConfig) → Option PromConfig × HandlerResult Unit
  stored_config config (ok configs) = reloaded (write (record config { scrape_configs = configs }))
  stored_config config error = (some config, failure internal_server_error)
  stored_config config panics = (some config, panicked)

  unfoldable pub add_scrape_target :
      String → String → Option PromConfig → Option PromConfig × HandlerResult Unit
  unfolding add_to_configs stored_config
  add_scrape_target job target none = (none, failure internal_server_error)
  add_scrape_target job target (some config) =
      stored_config config (add_to_configs job target config.scrape_configs)

  unfoldable pub remove_scrape_target :
      String → String → Option PromConfig → Option PromConfig × HandlerResult Unit
  unfolding remove_from_configs stored_config
  remove_scrape_target job target none = (none, failure internal_server_error)
  remove_scrape_target job target (some config) =
      stored_config config (remove_from_configs job target config.scrape_configs)

  -- The two names that a request has to give
  abbrev pub with_names :
      (String → String → Option PromConfig → Option PromConfig × HandlerResult Unit)
      → Option PromConfig
      → Option String
      → Option String
      → Option PromConfig × HandlerResult Unit
  with_names f file (some job) (some target) = f job target file
  with_names f file (some _) none = (file, failure internal_server_error)
  with_names f file none _ = (file, failure internal_server_error)

  unfoldable pub add_target :
      Option PromConfig → HashMap String String → Option PromConfig × HandlerResult Unit
  unfolding add_scrape_target get
  add_target file payload =
      with_names add_scrape_target file (get "job" payload) (get "target" payload)

  unfoldable pub remove_target :
      Option PromConfig → HashMap String String → Option PromConfig × HandlerResult Unit
  unfolding remove_scrape_target get
  remove_target file payload =
      with_names remove_scrape_target file (get "job" payload) (get "target" payload)
