-- ===== src/NodeAgent/Docker.antt =====
-- Images and containers (docker.rs), volumes (volume.rs), and the monad of the agent: it keeps the
-- calls made so far, and an error or a panic does not undo them. What docker answers may depend on
-- all earlier calls. Calls that the code makes concurrently are made in the order of the list.
use r_mini_k8s.Prelude.{
  ℕ, String, Bool, true, false, not, Option, none, some, List, [], ◌∷◌, ◌++◌, if◌then◌else◌, nat_eq,
  ◌==◌, Outcome, ok, error, panics, is_empty, I64, text, has_text,
}
use r_mini_k8s.Prelude.HashMap.{HashMap, HashSet}
use r_mini_k8s.Objects.{
  Pod, ImagePullPolicy, always, never, if_not_present, RestartPolicy, Volume, host_path, empty_dir,
  ContainerInspectResponse, Ipv4Addr, Uuid,
}

-- `bollard::models::HostConfig` and `bollard::container::Config`, the fields that the agent sets.
pub record HostConfig : Type 0 where
  pub cpu_shares : Option I64
  pub memory : Option I64
  pub network_mode : Option String
  pub ipc_mode : Option String
  pub pid_mode : Option String
  pub binds : Option (List String)
  pub restart_policy : Option RestartPolicy

pub record Config : Type 0 where
  pub image : String
  pub entrypoint : Option (List String)
  pub host_config : HostConfig
  pub labels : HashMap String String
  pub exposed_ports : Option (HashSet String)

-- What the agent asks of docker, of the file system and of the API server.
pub data Call : Type 0 where
  create_image : String → Call
  list_images : String → Call
  create_container : String → Config → Call
  start_container : String → Call
  inspect_container : String → Call
  stop_container : String → Call
  remove_container : String → Call
  create_dir_all : String → Call
  put_pod : Pod → Call

-- An answer of docker: a value, `DockerResponseServerError` with its status, or another error.
pub data Answer (A : Type 0) : Type 0 where
  answered : A → Answer A
  server_error : ℕ → Answer A
  unavailable : Answer A

-- What is not the agent's own code. The calls made before are given to every answer.
pub record Host : Type 0 where
  pub runs : List Call → Call → Answer Unit
  pub images : List Call → String → Answer (List String)
  pub creates : List Call → String → Config → Answer String
  pub inspects : List Call → String → Answer ContainerInspectResponse
  pub uuid_text : Uuid → String
  pub parse_ip : String → Option Ipv4Addr

abbrev pub Agent : Type 0 → Type 0
Agent A = List Call → Outcome A × List Call

abbrev pub pure : {A : Type 0} → A → Agent A
pure a calls = (ok a, calls)

abbrev pub lift : {A : Type 0} → Outcome A → Agent A
lift r calls = (r, calls)

abbrev pub and_then : {A B : Type 0} → Outcome A × List Call → (A → Agent B) → Outcome B × List Call
and_then (ok a, calls) f = f a calls
and_then (error, calls) f = (error, calls)
and_then (panics, calls) f = (panics, calls)

infixl 5 ◌>>=◌ ◌>>◌
abbrev pub ◌>>=◌ : {A B : Type 0} → Agent A → (A → Agent B) → Agent B
(m >>= f) calls = and_then (m calls) f

abbrev pub ◌>>◌ : {A B : Type 0} → Agent A → Agent B → Agent B
m >> k = m >>= λ _. k

-- The result of a call as a value: `none` is an error.
abbrev caught : {A : Type 0} → Outcome A × List Call → Outcome (Option A) × List Call
caught (ok a, calls) = (ok (some a), calls)
caught (error, calls) = (ok none, calls)
caught (panics, calls) = (panics, calls)

abbrev pub attempt : {A : Type 0} → Agent A → Agent (Option A)
attempt m calls = caught (m calls)

-- `join_all` of a task for each element
unfoldable pub join_all : {A B : Type 0} → (A → Agent B) → List A → Agent (List (Option B))
join_all f [] = pure []
join_all f (x ∷ xs) = attempt (f x) >>= λ r. join_all f xs >>= λ rs. pure (r ∷ rs)

-- `first_error_or_ok` of resources/src/utils/mod.rs
unfoldable pub first_error_or_ok : {A : Type 0} → List (Option A) → Outcome Unit
first_error_or_ok [] = ok tt
first_error_or_ok (none ∷ results) = error
first_error_or_ok (some _ ∷ results) = first_error_or_ok results

-- `results.into_iter().filter_map(|r| r.ok())`
unfoldable pub filter_ok : {A : Type 0} → List (Option A) → List A
filter_ok [] = []
filter_ok (none ∷ results) = filter_ok results
filter_ok (some a ∷ results) = a ∷ filter_ok results

abbrev to_result : {A : Type 0} → Answer A → Outcome A
to_result (answered a) = ok a
to_result _ = error

-- Status 404 is that there is no such container.
abbrev or_missing : {A B : Type 0} → (A → B) → B → Answer A → Outcome B
or_missing f missing (answered a) = ok (f a)
or_missing f missing (server_error status_code) = if status_code == 404 then ok missing else error
or_missing f missing unavailable = error

-- `Volume` of volume.rs
pub record PodVolume : Type 0 where
  pub pod_dir : String
  pub volume : Volume

unfoldable pub host_src : PodVolume → String
host_src v = elim v.volume.config [
  | empty_dir ↦ text (v.pod_dir ∷ "/volumes/" ∷ v.volume.name ∷ [])
  | host_path path ↦ path
]

module _ (host : Host) where
  abbrev pub run : Call → Agent Unit
  run call calls = (to_result (host.runs calls call), calls ++ call ∷ [])

  -- `Container::start`, `stop`, `remove`, `inspect` and `create`, of a container's id.
  unfoldable pub start : String → Agent Unit
  start id = run (start_container id)

  unfoldable pub stop : String → Agent Unit
  stop id = run (stop_container id)

  unfoldable pub remove : String → Agent Bool
  remove id calls = (
    or_missing (λ _. true) false (host.runs calls (remove_container id)),
    calls ++ remove_container id ∷ [],
  )

  unfoldable pub inspect : String → Agent (Option ContainerInspectResponse)
  inspect id calls = (
    or_missing (λ response. some response) none (host.inspects calls id),
    calls ++ inspect_container id ∷ [],
  )

  unfoldable pub create : String → Config → Agent String
  create name config calls =
      (to_result (host.creates calls name config), calls ++ create_container name config ∷ [])

  unfoldable pub start_all : List String → Agent (List (Option Unit))
  unfolding join_all start
  start_all = join_all start

  unfoldable pub stop_all : List String → Agent (List (Option Unit))
  unfolding join_all stop
  stop_all = join_all stop

  unfoldable pub remove_all : List String → Agent (List (Option Bool))
  unfolding join_all remove
  remove_all = join_all remove

  -- `Image::new`: the default tag is latest.
  unfoldable pub image_name : String → String
  image_name name = if has_text name ":" then name else text (name ∷ ":latest" ∷ [])

  unfoldable pub pull : String → Agent Unit
  pull image = run (create_image image)

  abbrev any_image : Answer (List String) → Bool
  any_image (answered images) = not (is_empty images)
  any_image _ = false

  unfoldable pub exists : String → Agent Bool
  exists image calls = (ok (any_image (host.images calls image)), calls ++ list_images image ∷ [])

  unfoldable pub pull_with_policy : String → ImagePullPolicy → Agent Unit
  unfolding exists pull
  pull_with_policy image if_not_present =
      exists image >>= λ found. if found then pure tt else pull image
  pull_with_policy image always = pull image
  pull_with_policy image never = pure tt

  -- `Volume::provision`, which `Volume::create` calls
  unfoldable pub provision : PodVolume → Agent Unit
  unfolding host_src
  provision v = elim v.volume.config [
    | empty_dir ↦ run (create_dir_all (host_src v))
    | host_path _ ↦ pure tt
  ]
