-- ===== src/PodAutoscaler/WorkQueue.antt =====
-- The queue of names in `PodAutoscaler::run` (horizontal.rs). Its delays are those of the timer
-- queue, a library; here any queued name may be the next one received.
use r_mini_k8s.Prelude.{
  ℕ, ◌+◌, ◌≤◌, String, Bool, true, false, ◌≡◌, ◌≢◌, refl, ◌∙◌, List, [], ◌∷◌, ◌++◌, string_eq, ◌==◌,
  any, filter, not, count, count-append, if◌then◌else◌, arith,
}

pub record Queue : Type 0 where
  pub work_queue : List String
  -- the `HashSet` of names
  pub in_queue : List String

abbrev add_name : String → List String → List String
add_name name names = if any (λ n. n == name) names then names else name ∷ names

-- The first occurrence leaves the queue.
abbrev take_out : String → List String → List String
take_out name [] = []
take_out name (n ∷ ns) = if n == name then ns else n ∷ take_out name ns

-- A name from the informer is queued at once.
unfoldable pub handle_name : Queue → String → Queue
unfolding any
handle_name q name = record {
  work_queue = q.work_queue ++ name ∷ [];
  in_queue = add_name name q.in_queue;
}

-- `handle_resync`, over the names in the store.
unfoldable pub handle_resync : Queue → List String → Queue
unfolding any
handle_resync q [] = q
handle_resync q (name ∷ names) =
    handle_resync
      (if any (λ n. n == name) q.in_queue
        then q
        else record { work_queue = q.work_queue ++ name ∷ []; in_queue = name ∷ q.in_queue })
      names

-- `enqueue_hpa`: the name is not put into `in_queue`.
unfoldable pub enqueue_hpa : Queue → String → Queue
unfolding any
enqueue_hpa q name =
    if any (λ n. n == name) q.in_queue
    then q
    else record q { work_queue = q.work_queue ++ name ∷ [] }

-- The branch for a received name: it is reconciled and queued again if the store has it.
unfoldable pub handle_received : Queue → String → Bool → Queue
unfolding filter enqueue_hpa
handle_received q name stored =
    let q' : Queue = record {
      work_queue = take_out name q.work_queue;
      in_queue = filter (λ n. not (n == name)) q.in_queue;
    } in
    if stored then enqueue_hpa q' name else q'

abbrev pub queued : String → Queue → ℕ
queued name q = count (λ n. n == name) q.work_queue

count-take_out :
    (name : String) (ns : List String)
    → 0 + 1 ≤ count (λ n. n == name) ns
    → count (λ n. n == name) (take_out name ns) + 1 ≡ count (λ n. n == name) ns
unfolding count
count-take_out name [] h = absurd (omega arith)
count-take_out name (n ∷ ns) h = ground (arith, count-take_out name ns)

count-take_out_ne :
    (name other : String) (ns : List String)
    → name ≢ other
    → count (λ n. n == other) (take_out name ns) ≡ count (λ n. n == other) ns
unfolding count
count-take_out_ne name other [] h = refl
count-take_out_ne name other (n ∷ ns) h =
    ground (
      arith,
      count-take_out_ne name other ns h,
      string_eq.beq_iff n name,
      string_eq.beq_iff n other,
    )

any-filter_self :
    (name : String) (ns : List String)
    → any (λ n. n == name) (filter (λ n. not (n == name)) ns) ≡ false
unfolding any filter
any-filter_self name [] = refl
any-filter_self name (n ∷ ns) = ground (arith, any-filter_self name ns)

-- An autoscaler that is queued and still stored when its name is received stays queued as often as
-- it was, and every other name does.
queued-handle_received :
    (q : Queue) (name other : String)
    → 1 ≤ queued name q
    → queued other (handle_received q name true) ≡ queued other q
unfolding handle_received count
queued-handle_received q name other h = ground (
  arith,
  any-filter_self name q.in_queue,
  count-append (λ n. n == other) (take_out name q.work_queue) (name ∷ []),
  count-take_out name q.work_queue h,
  count-take_out_ne name other q.work_queue,
  string_eq.beq_iff name other,
)

-- A notification queues the name once more, however often it is queued already, and no later turn
-- for a stored autoscaler takes the extra entry away.
pub queued-handle_name :
    (q : Queue) (name : String)
    → queued name (handle_received (handle_name q name) name true) ≡ queued name q + 1
unfolding handle_name count
queued-handle_name q name =
    queued-handle_received (handle_name q name) name name (omega (arith, grown)) ∙ grown
  where
    grown : queued name (handle_name q name) ≡ queued name q + 1
    grown =
        ground (
          arith,
          count-append (λ n. n == name) q.work_queue (name ∷ []),
          string_eq.beq_iff name name,
        )
