-- ===== src/NodeAgent/Tracking.antt =====
-- The names that the pod worker keeps against the pods of the API server.
use r_mini_k8s.Prelude.{
  String, Bool, true, false, ◌≡◌, refl, ap, ◌∙◌, ◌==◌, Option, none, some, List, [], ◌∷◌, arith,
  string_eq, unit_eq, if◌then◌else◌, Outcome, ok, error, panics, ◌&&◌, not,
}
use r_mini_k8s.Prelude.HashMap.{
  HashMap, HashSet, get, insert, remove, contains_key, get-insert, get-remove,
}
use r_mini_k8s.Objects.{Pod, is_on_node, NaiveDateTime}
use r_mini_k8s.NodeAgent.Docker.{Host, Call, Agent, ◌>>=◌, and_then, pure, attempt}
use r_mini_k8s.NodeAgent.Naming.{NodePod}
use r_mini_k8s.NodeAgent.Lifecycle.{create_pod}
use r_mini_k8s.NodeAgent.Worker.{
  PodUpdate, add, update, delete, handle_pod_add, handle_pod_update, handle_pod_delete, add_if,
  update_if, delete_if, start_created, reconcile_loaded, handle_update, handle_all,
}

-- An agent that ends well ends with the value that it was to return.
returned :
    {A B : Type 0} (r : Outcome A × List Call) (x y : B)
    → (and_then r (λ _. pure x)).0 ≡ ok y
    → x ≡ y
returned (ok a, calls) x y e = ground arith
returned (error, calls) x y e = ground arith
returned (panics, calls) x y e = ground arith

returned_after :
    {A B C : Type 0} (r : Outcome A × List Call) (f : A → Agent C) (x y : B)
    → (and_then r (λ a. f a >>= λ _. pure x)).0 ≡ ok y
    → x ≡ y
returned_after (ok a, calls) f x y e = returned (f a calls) x y e
returned_after (error, calls) f x y e = ground arith
returned_after (panics, calls) f x y e = ground arith

-- An agent that ends well has ended well in its first part.
followed :
    {A B : Type 0} (r : Outcome A × List Call) (f : A → Agent B) (b : B)
    → (and_then r f).0 ≡ ok b
    → (a : A) × (r.0 ≡ ok a) × ((f a r.1).0 ≡ ok b)
followed (ok a, calls) f b e = (a, refl, e)
followed (error, calls) f b e = ground arith
followed (panics, calls) f b e = ground arith

-- Whether the name is in the set after the update, by whether it was before.
abbrev pub tracked : String → PodUpdate → String → Bool → Bool
unfolding is_on_node
tracked node (add pod) j before =
    if is_on_node pod node && pod.metadata.name == j then true else before
tracked node (update old_pod pod) j before =
    if (not (is_on_node old_pod node) && is_on_node pod node) && pod.metadata.name == j
    then true
    else before
tracked node (delete pod) j before =
    if is_on_node pod node && pod.metadata.name == j then false else before

contains-insert :
    (k j : String) (pods : HashSet String)
    → contains_key j (insert k tt pods) ≡ (if k == j then true else contains_key j pods)
unfolding contains_key
contains-insert k j pods = ground (arith, get-insert k j tt pods)

contains-remove :
    (k j : String) (pods : HashSet String)
    → contains_key j (remove k pods) ≡ (if k == j then false else contains_key j pods)
unfolding contains_key
contains-remove k j pods = ground (arith, get-remove k j pods)

contains_same :
    (k j : String) (pods : HashSet String)
    → contains_key k pods ≡ true
    → contains_key j (insert k tt (remove k pods)) ≡ contains_key j pods
contains_same k j pods h =
    ground
      (arith, contains-insert k j (remove k pods), contains-remove k j pods, string_eq.beq_iff k j)

module _ (host : Host) (now : NaiveDateTime) (node : String) where
  add_if_ok :
      (b : Bool) (pod : Pod) (j : String) (pods pods' : HashSet String) (calls : List Call)
      → (add_if host now node b pod pods calls).0 ≡ ok pods'
      → contains_key j pods' ≡ (if b && pod.metadata.name == j then true else contains_key j pods)
  unfolding add_if
  add_if_ok false pod j pods pods' calls e = ground arith
  add_if_ok true pod j pods pods' calls e = ground (
    arith,
    returned_after (attempt (create_pod host now pod) calls) (start_created host now node)
        (insert pod.metadata.name tt pods) pods' e,
    contains-insert pod.metadata.name j pods,
  )

  reconcile_loaded-ok :
      (name j : String) (pods pods' : HashSet String) (loaded : Outcome NodePod) (calls : List Call)
      → contains_key name pods ≡ true
      → (reconcile_loaded host now node name pods loaded calls).0 ≡ ok pods'
      → contains_key j pods' ≡ contains_key j pods
  unfolding reconcile_loaded
  reconcile_loaded-ok name j pods pods' (ok pod) calls h e =
      ground (arith, returned _ _ pods' e, contains_same name j pods h)
  reconcile_loaded-ok name j pods pods' error calls h e = ground arith
  reconcile_loaded-ok name j pods pods' panics calls h e = ground arith

  update_if_ok :
      (b : Bool) (pod : Pod) (j : String) (pods pods' : HashSet String) (calls : List Call)
      → contains_key pod.metadata.name pods ≡ b
      → (update_if host now node b pod pods calls).0 ≡ ok pods'
      → contains_key j pods' ≡ contains_key j pods
  unfolding update_if
  update_if_ok false pod j pods pods' calls h e = ground arith
  update_if_ok true pod j pods pods' calls h e =
      reconcile_loaded-ok pod.metadata.name j pods pods' _ calls h e

  delete_if_ok :
      (b : Bool) (pod : Pod) (j : String) (pods pods' : HashSet String) (calls : List Call)
      → (delete_if host now node b pod pods calls).0 ≡ ok pods'
      → contains_key j pods' ≡ (if b && pod.metadata.name == j then false else contains_key j pods)
  unfolding delete_if
  delete_if_ok false pod j pods pods' calls e = ground arith
  delete_if_ok true pod j pods pods' calls e =
      ground (arith, returned _ _ pods' e, contains-remove pod.metadata.name j pods)

  handle_update-tracked :
      (u : PodUpdate) (j : String) (pods pods' : HashSet String) (calls : List Call)
      → (handle_update host now node u pods calls).0 ≡ ok pods'
      → contains_key j pods' ≡ tracked node u j (contains_key j pods)
  unfolding handle_update handle_pod_add handle_pod_update handle_pod_delete
  handle_update-tracked (add pod) j pods pods' calls e =
      add_if_ok (is_on_node pod node) pod j pods pods' calls e
  handle_update-tracked (delete pod) j pods pods' calls e =
      delete_if_ok (is_on_node pod node) pod j pods pods' calls e
  handle_update-tracked (update old_pod pod) j pods pods' calls e =
      from (not (is_on_node old_pod node) && is_on_node pod node) refl e
    where
      from :
          (c : Bool)
          → (not (is_on_node old_pod node) && is_on_node pod node) ≡ c
          → ((if c
                then add_if host now node (is_on_node pod node) pod pods
                else update_if host now node (contains_key pod.metadata.name pods) pod pods)
              calls).0
            ≡ ok pods'
          → contains_key j pods'
            ≡ (if c && pod.metadata.name == j then true else contains_key j pods)
      from false h e' =
          update_if_ok (contains_key pod.metadata.name pods) pod j pods pods' calls refl e'
      from true h e' = ground (arith, add_if_ok (is_on_node pod node) pod j pods pods' calls e')

  -- Whether a pod of the API server runs on this node.
  abbrev pub here : Option Pod → Bool
  here none = false
  here (some pod) = is_on_node pod node

  abbrev pub Tracks : HashMap String Pod → HashSet String → Type 0
  Tracks store pods = (j : String) → contains_key j pods ≡ here (get j store)

  -- A change of the pods of the API server, by name, and the update it is announced by. A pod that
  -- is on this node is not taken off it by an update.
  pub data Change : HashMap String Pod → PodUpdate → HashMap String Pod → Type 0 where
    added :
        (store : HashMap String Pod) (pod : Pod)
        → get pod.metadata.name store ≡ none
        → Change store (add pod) (insert pod.metadata.name pod store)
    updated :
        (store : HashMap String Pod) (old_pod pod : Pod)
        → get pod.metadata.name store ≡ some old_pod
        → (is_on_node old_pod node ≡ true → is_on_node pod node ≡ true)
        → Change store (update old_pod pod) (insert pod.metadata.name pod store)
    deleted :
        (store : HashMap String Pod) (pod : Pod)
        → get pod.metadata.name store ≡ some pod
        → Change store (delete pod) (remove pod.metadata.name store)

  pub data Changes : HashMap String Pod → List PodUpdate → HashMap String Pod → Type 0 where
    unchanged : (store : HashMap String Pod) → Changes store [] store
    then_changed :
        (store store' store'' : HashMap String Pod) (u : PodUpdate) (updates : List PodUpdate)
        → Change store u store'
        → Changes store' updates store''
        → Changes store (u ∷ updates) store''

  -- The old value at `k` is also that at a key which the test finds equal.
  at_equal :
      (k j : String) (store : HashMap String Pod) (o : Option Pod)
      → get k store ≡ o
      → (k == j) ≡ true
      → get j store ≡ o
  at_equal k j store o h e = let e' : k ≡ j = (string_eq.beq_iff k j).0 e in rw (← e') h

  added_here :
      (b : Bool) (pod : Pod) (o : Option Pod) (before : Bool)
      → (b ≡ true → o ≡ none)
      → before ≡ here o
      → (if is_on_node pod node && b then true else before) ≡ here (if b then some pod else o)
  added_here true pod o before h e = ground (arith, h refl)
  added_here false pod o before h e = ground arith

  updated_here :
      (b : Bool) (old_pod pod : Pod) (o : Option Pod) (before : Bool)
      → (b ≡ true → o ≡ some old_pod)
      → (is_on_node old_pod node ≡ true → is_on_node pod node ≡ true)
      → before ≡ here o
      → (if (not (is_on_node old_pod node) && is_on_node pod node) && b then true else before)
        ≡ here (if b then some pod else o)
  updated_here true old_pod pod o before h keep e =
      let before_old : before ≡ is_on_node old_pod node = e ∙ ap here (h refl) in
      ground (arith, before_old)
  updated_here false old_pod pod o before h keep e = ground arith

  deleted_here :
      (b : Bool) (pod : Pod) (o : Option Pod) (before : Bool)
      → (b ≡ true → o ≡ some pod)
      → before ≡ here o
      → (if is_on_node pod node && b then false else before) ≡ here (if b then none else o)
  deleted_here true pod o before h e =
      let before_pod : before ≡ is_on_node pod node = e ∙ ap here (h refl) in
      ground (arith, before_pod)
  deleted_here false pod o before h e = ground arith

  tracked-Change :
      (store store' : HashMap String Pod) (u : PodUpdate) (pods : HashSet String) (j : String)
      → Change store u store'
      → Tracks store pods
      → tracked node u j (contains_key j pods) ≡ here (get j store')
  unfolding tracked
  tracked-Change _ _ _ pods j (added store pod h) t =
      rw (get-insert pod.metadata.name j pod store)
        (added_here _ pod _ _ (at_equal _ j store none h) (t j))
  tracked-Change _ _ _ pods j (updated store old_pod pod h keep) t =
      rw (get-insert pod.metadata.name j pod store)
        (updated_here _ old_pod pod _ _ (at_equal _ j store (some old_pod) h) keep (t j))
  tracked-Change _ _ _ pods j (deleted store pod h) t =
      rw (get-remove pod.metadata.name j store)
        (deleted_here _ pod _ _ (at_equal _ j store (some pod) h) (t j))

  -- If the worker holds the names of the pods on its node, then it does so again after the updates
  -- of any sequence of changes that takes no pod off the node, unless the worker panics.
  pub handle_all-Tracks :
      (store store' : HashMap String Pod) (updates : List PodUpdate) (pods pods' : HashSet String)
      (calls : List Call)
      → Changes store updates store'
      → Tracks store pods
      → (handle_all host now node updates pods calls).0 ≡ ok pods'
      → Tracks store' pods'
  unfolding handle_all
  handle_all-Tracks _ _ _ pods pods' calls (unchanged store) t e = ground (arith, t)
  handle_all-Tracks _ _ _ pods pods' calls (then_changed store s store'' u us c cs) t e =
      let (p, first, rest) =
        followed (handle_update host now node u pods calls) (handle_all host now node us) pods' e in
      handle_all-Tracks s store'' us p pods' (handle_update host now node u pods calls).1 cs
        (λ j. handle_update-tracked u j pods p calls first ∙ tracked-Change store s u pods j c t)
        rest
