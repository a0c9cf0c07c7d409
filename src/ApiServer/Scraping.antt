-- ===== src/ApiServer/Scraping.antt =====
-- Which targets the metrics server is told to scrape.
use r_mini_k8s.Prelude.{
  Bool-cases, beq_refl, sym, ap, ◌∙◌, inl, inr, String, Bool, true, false, Option, none, some, List,
  [], ◌∷◌, ◌++◌, any, All, ◌≡◌, refl, arith, ◌==◌, string_eq, if◌then◌else◌, Outcome, ok,
}
use r_mini_k8s.Prelude.HashMap.{HashMap, get}
use r_mini_k8s.ApiServer.Etcd.{success}
use r_mini_k8s.ApiServer.Targets.{
  PromStaticConfig, PromScrapeConfig, PromConfig, remove_first, push_target, edit_first, edit_job,
  new_job, add_to_configs, remove_from_configs, stored_config, add_scrape_target,
  remove_scrape_target, add_target, remove_target,
}

-- The job has a group of targets.
abbrev pub HasGroup : PromScrapeConfig → Type 0
HasGroup config =
    (group : PromStaticConfig) × (rest : List PromStaticConfig) × (config.static_configs
      ≡ group ∷ rest)

abbrev pub first_targets : List PromStaticConfig → List String
first_targets [] = []
first_targets (group ∷ rest) = group.targets

-- The targets of a job: those of the first group of the first job of the name.
unfoldable pub targets_of : String → List PromScrapeConfig → List String
targets_of job [] = []
targets_of job (config ∷ rest) =
    let later = targets_of job rest in
    if config.job_name == job then first_targets config.static_configs else later

abbrev pub targets_in : String → Option PromConfig → List String
targets_in job none = []
targets_in job (some config) = targets_of job config.scrape_configs

unfoldable pub has_target : String → List String → Bool
unfolding any
has_target target targets = any (λ t. t == target) targets

remove_first-append :
    (target : String) (targets : List String)
    → has_target target targets ≡ false
    → remove_first target (targets ++ (target ∷ [])) ≡ targets
unfolding remove_first has_target any
remove_first-append target [] fresh = ground (arith, string_eq.beq_iff target target)
remove_first-append target (t ∷ rest) fresh = ground (arith, remove_first-append target rest)

remove_first-push_target :
    (target : String) (targets : List String)
    → has_target target targets ≡ false
    → remove_first target (push_target target targets) ≡ targets
unfolding push_target has_target
remove_first-push_target target targets fresh = ground (arith, remove_first-append target targets)

-- An addition and the removal after it, on the list of jobs
abbrev Undone : String → String → List PromScrapeConfig → Type 0
Undone job target configs =
    (added : List PromScrapeConfig) × (removed : List PromScrapeConfig) × (add_to_configs job target
        configs
      ≡ ok added)
    × (remove_from_configs job target added ≡ ok removed)
    × ((other : String) → targets_of other removed ≡ targets_of other configs)
    × ((other : String)
        → targets_of other added ≡ (
            if job == other
            then targets_of other configs ++ (target ∷ [])
            else targets_of other configs))

edit_job-here :
    (job : String) (f : List String → List String) (absent rest : List PromScrapeConfig)
    (config : PromScrapeConfig) (group : PromStaticConfig) (more : List PromStaticConfig)
    → (config.job_name == job) ≡ true
    → config.static_configs ≡ group ∷ more
    → edit_job job f absent (config ∷ rest)
      ≡ ok (record config { static_configs = record { targets = f group.targets } ∷ more } ∷ rest)
unfolding edit_job edit_first
edit_job-here job f absent rest config group more same groups = rw (same, groups) refl

edit_job-later :
    (job : String) (f : List String → List String) (absent rest edited : List PromScrapeConfig)
    (config : PromScrapeConfig)
    → (config.job_name == job) ≡ false
    → edit_job job f absent rest ≡ ok edited
    → edit_job job f absent (config ∷ rest) ≡ ok (config ∷ edited)
unfolding edit_job
edit_job-later job f absent rest edited config differs e = rw (differs, e) refl

push_target-fresh :
    (target : String) (targets : List String)
    → has_target target targets ≡ false
    → push_target target targets ≡ targets ++ (target ∷ [])
unfolding push_target has_target
push_target-fresh target targets fresh = ground arith

Undone-later :
    (job target : String) (config : PromScrapeConfig) (rest : List PromScrapeConfig)
    → (config.job_name == job) ≡ false
    → Undone job target rest
    → Undone job target (config ∷ rest)
unfolding targets_of add_to_configs remove_from_configs
Undone-later job target config rest differs (added, removed, adds, removes, same, others) = (
  config ∷ added,
  config ∷ removed,
  edit_job-later job (push_target target) (new_job job target ∷ []) rest added config differs adds,
  edit_job-later job (remove_first target) [] added removed config differs removes,
  λ other. rw (same other) refl,
  λ other. ground (
    arith,
    string_eq.beq_iff config.job_name job,
    string_eq.beq_iff config.job_name other,
    string_eq.beq_iff job other,
    others other,
  ),
)

Undone-new : (job target : String) → Undone job target []
unfolding targets_of add_to_configs remove_from_configs edit_job has_target
Undone-new job target =
    let added = new_job job target in
    let group : PromStaticConfig = record { targets = target ∷ [] } in
    let empty = remove_first-append target [] refl in
    (
      added ∷ [],
      record added { static_configs = record { targets = remove_first target (target ∷ []) } ∷ [] }
          ∷ [],
      refl,
      edit_job-here job (remove_first target) [] [] added group [] (beq_refl job) refl,
      λ other. rw (empty) (ground arith),
      λ other. ground arith,
    )

targets_of-here :
    (job : String) (config : PromScrapeConfig) (rest : List PromScrapeConfig)
    (group : PromStaticConfig) (more : List PromStaticConfig)
    → (config.job_name == job) ≡ true
    → config.static_configs ≡ group ∷ more
    → targets_of job (config ∷ rest) ≡ group.targets
unfolding targets_of
targets_of-here job config rest group more same groups = rw (same, groups) refl

targets_of-later :
    (job : String) (config : PromScrapeConfig) (rest : List PromScrapeConfig)
    → (config.job_name == job) ≡ false
    → targets_of job (config ∷ rest) ≡ targets_of job rest
unfolding targets_of
targets_of-later job config rest differs = rw (differs) refl

Undone-here :
    (job target : String) (config : PromScrapeConfig) (rest : List PromScrapeConfig)
    (group : PromStaticConfig) (more : List PromStaticConfig)
    → (config.job_name == job) ≡ true
    → config.static_configs ≡ group ∷ more
    → has_target target group.targets ≡ false
    → Undone job target (config ∷ rest)
unfolding targets_of add_to_configs remove_from_configs
Undone-here job target config rest group more same groups fresh =
    let pushed = push_target target group.targets in
    let add' : PromScrapeConfig = record config {
      static_configs = record { targets = pushed } ∷ more;
    } in
    (
      add' ∷ rest,
      record config { static_configs = record { targets = remove_first target pushed } ∷ more }
          ∷ rest,
      edit_job-here job (push_target target) (new_job job target ∷ []) rest config group more same
          groups,
      edit_job-here job (remove_first target) [] rest add' (record { targets = pushed }) more same
          refl,
      λ other. rw (remove_first-push_target target group.targets fresh, groups) refl,
      λ other. ground (
        arith,
        string_eq.beq_iff config.job_name job,
        string_eq.beq_iff config.job_name other,
        string_eq.beq_iff job other,
        push_target-fresh target group.targets fresh,
      ),
    )

undone :
    (job target : String) (configs : List PromScrapeConfig)
    → All HasGroup configs
    → has_target target (targets_of job configs) ≡ false
    → Undone job target configs
unfolding targets_of add_to_configs remove_from_configs
undone job target [] groups fresh = Undone-new job target
undone job target (config ∷ rest) ((group, more, e), groups) fresh =
    elim (Bool-cases (config.job_name == job)) [
      | inl same ↦
          let here = targets_of-here job config rest group more same e in
          Undone-here job target config rest group more same e
            (sym (ap (has_target target) here) ∙ fresh)
      | inr differs ↦
          let later = targets_of-later job config rest differs in
          let fresh' = sym (ap (has_target target) later) ∙ fresh in
          Undone-later job target config rest differs (undone job target rest groups fresh')
    ]

-- The server replaces the configuration and reloads it without an error.
abbrev pub Works : (PromConfig → Option PromConfig × Bool) → Bool → Type 0
Works write reload = ((config : PromConfig) → write config ≡ (some config, true)) × (reload ≡ true)

stored_config-ok :
    (write : PromConfig → Option PromConfig × Bool) (reload : Bool) (config : PromConfig)
    (configs : List PromScrapeConfig) (result : Outcome (List PromScrapeConfig))
    → Works write reload
    → result ≡ ok configs
    → stored_config write reload config result
      ≡ (some (record config { scrape_configs = configs }), success tt)
unfolding stored_config
stored_config-ok write reload config configs result (writes, reloads) e =
    rw (e, writes (record config { scrape_configs = configs }), reloads) refl

-- If writing and reloading work and each job has a group of targets, then the addition of a target
-- that its job does not have is answered with success and appends it to the targets of this job and
-- no other; the removal of it is then answered with success too, and each job has the targets that
-- it had at first.
pub remove_target-add_target :
    (write : PromConfig → Option PromConfig × Bool) (reload : Bool) (config : PromConfig)
    (payload : HashMap String String) (job target other : String)
    → Works write reload
    → All HasGroup config.scrape_configs
    → get "job" payload ≡ some job
    → get "target" payload ≡ some target
    → has_target target (targets_of job config.scrape_configs) ≡ false
    → let added = add_target write reload (some config) payload in
      let removed = remove_target write reload added.0 payload in
      let before = targets_of other config.scrape_configs in
      (added.1 ≡ success tt)
      × (targets_in other added.0 ≡ (if job == other then before ++ (target ∷ []) else before))
      × (removed.1 ≡ success tt)
      × (targets_in other removed.0 ≡ before)
unfolding add_target remove_target add_scrape_target remove_scrape_target
remove_target-add_target write reload config payload job target other works groups has_job has_name
      fresh =
    let (added, removed, adds, removes, same, others) =
      undone job target config.scrape_configs groups fresh in
    let first = stored_config-ok write reload config added _ works adds in
    let second =
      stored_config-ok write reload (record config { scrape_configs = added }) removed _ works
        removes in
    rw (has_job, has_name, first, second) (refl, others other, refl, same other)
