-- ===== src/NodeAgent/Teardown.antt =====
-- The calls of the agent's loops over containers, and of `remove_pod`, whatever docker answers.
use r_mini_k8s.Prelude.{
  ◌≡◌, ◌≢◌, ◌==◌, nat_eq, Bool-cases, inl, inr, refl, Outcome, ok, error, panics, List, [], ◌∷◌,
  ◌++◌, map, arith, String, Option, none, some, Bool, true, false, All,
}
use mathlib.Core.List.{append_assoc, append-nil}
use r_mini_k8s.Objects.{Container, Uuid, Metadata}
use r_mini_k8s.NodeAgent.Docker.{
  Host, Agent, Answer, answered, server_error, unavailable, Call, stop_container, remove_container,
  join_all, ◌>>=◌, ◌>>◌, lift, attempt, stop, remove, stop_all, remove_all, first_error_or_ok,
}
use r_mini_k8s.NodeAgent.Naming.{
  NodePod, containers, names_of, get_container_name, unique_container_name, sandbox,
}
use r_mini_k8s.NodeAgent.Lifecycle.{stop_pod, remove_containers, remove_pod}

abbrev outcome_of : {A : Type 0} → Option A → Outcome A
outcome_of none = error
outcome_of (some a) = ok a

-- If `G`, the result is no error.
abbrev Fine : {A : Type 0} → Type 0 → Option A → Type 0
Fine G r = G → r ≢ none

-- The agent makes these calls, does not panic, and if `G`, ends without an error.
abbrev Makes : {B : Type 0} → Type 0 → Agent B → List Call → List Call → Type 0
Makes {B = B} G m calls made = (r : Option B) × (m calls ≡ (outcome_of r, calls ++ made)) × Fine G r

attempt-outcome_of :
    {A : Type 0} (m : Agent A) (calls calls' : List Call) (r : Option A)
    → m calls ≡ (outcome_of r, calls')
    → attempt m calls ≡ (ok r, calls')
attempt-outcome_of m calls calls' none e = rw e refl
attempt-outcome_of m calls calls' (some a) e = rw e refl

join_all-Makes :
    {A B : Type 0} (G : Type 0) (f : A → Agent B) (g : A → Call) (xs : List A) (calls : List Call)
    → ((x : A) (before : List Call) → Makes G (f x) before (g x ∷ []))
    → (rs : List (Option B)) × (join_all f xs calls ≡ (ok rs, calls ++ map g xs)) × All (Fine G) rs
unfolding join_all
join_all-Makes G f g [] calls h = ([], rw (append-nil calls) refl, tt)
join_all-Makes G f g (x ∷ xs) calls h =
    let (r, e, p) = h x calls in
    let e' = attempt-outcome_of (f x) calls (calls ++ g x ∷ []) r e in
    let (rs, es, ps) = join_all-Makes G f g xs (calls ++ g x ∷ []) h in
    (r ∷ rs, rw (e', es, append_assoc calls (g x ∷ []) (map g xs)) refl, (p, ps))

first_error_or_ok_lem :
    {A : Type 0} (G : Type 0) (rs : List (Option A))
    → All (Fine G) rs
    → (r : Option Unit) × (first_error_or_ok rs ≡ outcome_of r) × Fine G r
unfolding first_error_or_ok
first_error_or_ok_lem G [] h = (some tt, refl, λ _. ground arith)
first_error_or_ok_lem G (none ∷ rs) h = (none, refl, λ g e. h.0 g refl)
first_error_or_ok_lem G (some a ∷ rs) h = first_error_or_ok_lem G rs h.1

-- A task for each element, then one more call, then the first error of the tasks.
each_then_last :
    {A B C : Type 0} (G : Type 0) (f : A → Agent B) (g : A → Call) (m : Agent C) (last : Call)
    (xs : List A) (calls : List Call)
    → ((x : A) (before : List Call) → Makes G (f x) before (g x ∷ []))
    → ((before : List Call) → Makes G m before (last ∷ []))
    → Makes G
        (join_all f xs >>= λ rs. m >> lift (first_error_or_ok rs))
        calls
        (map g xs ++ last ∷ [])
each_then_last {B = B} {C = C} G f g m last xs calls h hm =
    let (rs, es, ps) = join_all-Makes G f g xs calls h in
    let (o, eo, po) = first_error_or_ok_lem G rs ps in
    let (r, er, pr) = by_result rs o po (hm (calls ++ map g xs)) in
    (r, rw (es, eo, ← append_assoc calls (map g xs) (last ∷ [])) er, pr)
  where
    by_result :
        (rs : List (Option B)) (o : Option Unit)
        → Fine G o
        → Makes G m (calls ++ map g xs) (last ∷ [])
        → Makes G (m >> lift (outcome_of o)) (calls ++ map g xs) (last ∷ [])
    by_result rs o po (none, e, p) = (none, rw e refl, λ g _. p g refl)
    by_result rs o po (some c, e, p) = (o, rw e refl, po)

-- Docker has the container no longer: it was removed, or there was none.
abbrev pub gone : Answer Unit → Bool
gone (answered _) = true
gone (server_error status_code) = status_code == 404
gone unavailable = false

module _ (host : Host) where
  stop-Makes :
      (id : String) (calls : List Call) → Makes ⊥ (stop host id) calls (stop_container id ∷ [])
  unfolding stop
  stop-Makes id calls = from (host.runs calls (stop_container id)) refl
    where
      from :
          (a : Answer Unit)
          → host.runs calls (stop_container id) ≡ a
          → Makes ⊥ (stop host id) calls (stop_container id ∷ [])
      from (answered a) e = (some tt, rw e refl, λ g. elim g [ ])
      from (server_error a) e = (none, rw e refl, λ g. elim g [ ])
      from unavailable e = (none, rw e refl, λ g. elim g [ ])

  -- Docker answers to every removal that the container is gone.
  abbrev pub AllGone : Type 0
  AllGone = (calls : List Call) (id : String) → gone (host.runs calls (remove_container id)) ≡ true

  remove-Makes :
      (id : String) (calls : List Call)
      → Makes AllGone (remove host id) calls (remove_container id ∷ [])
  unfolding remove
  remove-Makes id calls = from (host.runs calls (remove_container id)) refl
    where
      from :
          (a : Answer Unit)
          → host.runs calls (remove_container id) ≡ a
          → Makes AllGone (remove host id) calls (remove_container id ∷ [])
      from (answered a) e = (some true, rw e refl, λ _. ground arith)
      from unavailable e = (none, rw e refl, λ g. ground (arith, g calls id))
      from (server_error n) e = elim (Bool-cases (n == 404)) [
        | inl t ↦ (some false, rw (e, t) refl, λ _. ground arith)
        | inr f ↦ (none, rw (e, f) refl, λ g. ground (arith, g calls id))
      ]

  -- The docker names of the pod's containers
  abbrev pub ids : Uuid → NodePod → List String
  unfolding unique_container_name
  ids uid pod =
      map (λ c. unique_container_name host uid pod.metadata.name c.name) pod.spec.containers

  abbrev pub sandbox_id : Uuid → NodePod → String
  unfolding unique_container_name
  sandbox_id uid pod = unique_container_name host uid pod.metadata.name "POD"

  pub names_of-ids :
      (uid : Uuid) (metadata : Metadata) (cs : List Container)
      → metadata.uid ≡ some uid
      → names_of host metadata cs
        ≡ ok (map (λ (c : Container). unique_container_name host uid metadata.name c.name) cs)
  unfolding names_of get_container_name
  names_of-ids uid metadata [] e = refl
  names_of-ids uid metadata (c ∷ cs) e = rw (e, names_of-ids uid metadata cs e) refl

  pub sandbox-sandbox_id :
      (uid : Uuid) (pod : NodePod)
      → pod.metadata.uid ≡ some uid
      → sandbox host pod ≡ ok (sandbox_id uid pod)
  unfolding sandbox get_container_name
  sandbox-sandbox_id uid pod e = rw e refl

  stop_pod-Makes :
      (uid : Uuid) (pod : NodePod) (calls : List Call)
      → pod.metadata.uid ≡ some uid
      → Makes ⊥
          (stop_pod host pod)
          calls
          (map stop_container (ids uid pod) ++ stop_container (sandbox_id uid pod) ∷ [])
  unfolding stop_pod stop_all containers
  stop_pod-Makes uid pod calls e =
      rw (names_of-ids uid pod.metadata pod.spec.containers e, sandbox-sandbox_id uid pod e)
        (each_then_last ⊥ (stop host) stop_container (stop host (sandbox_id uid pod))
          (stop_container (sandbox_id uid pod)) (ids uid pod) calls stop-Makes
          (stop-Makes (sandbox_id uid pod)))

  remove_containers-Makes :
      (uid : Uuid) (pod : NodePod) (calls : List Call)
      → pod.metadata.uid ≡ some uid
      → Makes AllGone
          (remove_containers host pod)
          calls
          (map remove_container (ids uid pod) ++ remove_container (sandbox_id uid pod) ∷ [])
  unfolding remove_containers remove_all containers
  remove_containers-Makes uid pod calls e =
      rw (names_of-ids uid pod.metadata pod.spec.containers e, sandbox-sandbox_id uid pod e)
        (each_then_last AllGone (remove host) remove_container (remove host (sandbox_id uid pod))
          (remove_container (sandbox_id uid pod)) (ids uid pod) calls remove-Makes
          (remove-Makes (sandbox_id uid pod)))

  no_error : (r : Option Unit) → r ≢ none → outcome_of r ≡ ok tt
  no_error none h = absurd (h refl)
  no_error (some tt) h = refl

  -- What `remove_pod` asks of docker
  abbrev pub teardown : Uuid → NodePod → List Call
  teardown uid pod =
      (map stop_container (ids uid pod) ++ stop_container (sandbox_id uid pod) ∷ [])
      ++ (map remove_container (ids uid pod) ++ remove_container (sandbox_id uid pod) ∷ [])

  -- For a pod with a uid, whatever docker answers, the removal of a pod asks docker to stop each
  -- container and the sandbox and then to remove each of them, and nothing else, and it does not
  -- panic; if docker answers to every removal that the container is gone, it ends without an error,
  -- even if containers could not be stopped.
  pub remove_pod_calls :
      (uid : Uuid) (pod : NodePod) (calls : List Call)
      → pod.metadata.uid ≡ some uid
      → ((remove_pod host pod calls).1 ≡ calls ++ teardown uid pod)
        × ((remove_pod host pod calls).0 ≢ panics)
        × (AllGone → (remove_pod host pod calls).0 ≡ ok tt)
  unfolding remove_pod
  remove_pod_calls uid pod calls e =
      let stops = map stop_container (ids uid pod) ++ stop_container (sandbox_id uid pod) ∷ [] in
      let (s, es, _) = stop_pod-Makes uid pod calls e in
      let attempted = attempt-outcome_of (stop_pod host pod) calls (calls ++ stops) s es in
      let (r, er, pr) = remove_containers-Makes uid pod (calls ++ stops) e in
      rw (attempted, er) (append_assoc calls stops _, ground arith, λ g. no_error r (pr g))
