-- ===== src/Serverless/Activation.antt =====
-- When the activation of a function ends, and how.
use r_mini_k8s.Prelude.{
  ℕ, suc, zero, ◌<◌, ◌≤◌, ◌+◌, ◌≡◌, ◌≢◌, ◌↔◌, ◌⊎◌, inl, inr, refl, ap, sym, String, Option, none,
  some, arith, Outcome, ok, error, string_eq, nat_eq, ◌==◌, ltb, add_u32, Bool, true, false,
  Bool-cases,
}
use mathlib.Core.Path.{subst}
use r_mini_k8s.Prelude.HashMap.{HashMap}
use r_mini_k8s.Objects.{Service}
use r_mini_k8s.Serverless.Route.{
  Seen, missing, ready, pending, seen, get_svc, after_poll, poll, polls,
}

module _ (svc_stores : ℕ → HashMap String Service) (svc_key : String) where
  -- What the poll in round `i` sees
  abbrev pub seen_at : ℕ → Seen
  seen_at i = seen (get_svc svc_key (svc_stores i))

  -- Round `k` is the first of the rounds from `i` to 60 that does not find the service without
  -- endpoints, and it finds it with one.
  abbrev pub IsFirstReady : ℕ → ℕ → Type 0
  IsFirstReady i k =
      (i ≤ k) × (k ≤ 60) × (seen_at k ≡ ready) × ((j : ℕ) → i ≤ j → j < k → seen_at j ≡ pending)

  first_cases :
      (i k : ℕ)
      → IsFirstReady i k
      → ((seen_at i ≡ ready) × (i ≡ k)) ⊎ ((seen_at i ≡ pending) × IsFirstReady (suc i) k)
  first_cases i k (below, within, at_k, before) = elim (Bool-cases (ltb i k)) [
    | inl t ↦ inr (
      before i (omega arith) (ground arith),
      (ground arith, within, at_k, λ j above less. before j (omega arith) less),
    )
    | inr f ↦ let same : i ≡ k = ground arith in inl (rw same at_k, same)
  ]

  first_later : (i k : ℕ) → seen_at i ≡ pending → IsFirstReady (suc i) k → IsFirstReady i k
  first_later i k p (below, within, at_k, before) = (omega arith, within, at_k, by_round)
    where
      by_round : (j : ℕ) → i ≤ j → j < k → seen_at j ≡ pending
      by_round j above less = elim (Bool-cases (ltb i j)) [
        | inl t ↦ before j (ground arith) less
        | inr f ↦ let same : i ≡ j = ground arith in rw (← same) p
      ]

  -- The result of the loop from round `i` on is right.
  abbrev Right : ℕ → Option (Outcome ℕ) → Type 0
  Right i r = (r ≢ none) × ((k : ℕ) → (r ≡ some (ok k)) ↔ IsFirstReady i k)

  missing-Right : (i : ℕ) → seen_at i ≡ missing → Right i (some error)
  missing-Right i e = (
    λ n. ground arith,
    λ k. (
      λ n. ground arith,
      λ f. elim (first_cases i k f) [ inl q ↦ ground (arith, q) | inr q ↦ ground (arith, q.0) ],
    ),
  )

  ready-Right : (i : ℕ) → i ≤ 60 → seen_at i ≡ ready → Right i (some (ok i))
  ready-Right i h e = (
    λ n. ground arith,
    λ k. (
      λ n.
          let same : i ≡ k = ground arith in
          (omega arith, omega arith, rw (← same) e, λ j above less. absurd (omega arith)),
      λ f. elim (first_cases i k f) [
        | inl q ↦ ap (λ x. some (ok x)) q.1
        | inr q ↦ ground (arith, q.0)
      ],
    ),
  )

  last-Right : seen_at 60 ≡ pending → Right 60 (some error)
  last-Right e = (
    λ n. ground arith,
    λ k. (
      λ n. ground arith,
      λ f. elim (first_cases 60 k f) [
        | inl q ↦ ground (arith, q.0)
        | inr q ↦ absurd (omega (arith, q.1.0, q.1.1))
      ],
    ),
  )

  later-Right : (i : ℕ) (r : Option (Outcome ℕ)) → seen_at i ≡ pending → Right (suc i) r → Right i r
  later-Right i r e (ended, right) = (
    ended,
    λ k. (
      λ n. first_later i k e ((right k).0 n),
      λ f. elim (first_cases i k f) [ inl q ↦ ground (arith, q.0) | inr q ↦ (right k).1 q.1 ],
    ),
  )

  after_poll-Right :
      (i : ℕ) (s : Seen) (is_last : Bool) (later : Option (Outcome ℕ))
      → i ≤ 60
      → seen_at i ≡ s
      → (i == 60) ≡ is_last
      → (i < 60 → Right (suc i) later)
      → Right i (after_poll s is_last i later)
  unfolding after_poll
  after_poll-Right i missing is_last later h e l rest = missing-Right i e
  after_poll-Right i ready is_last later h e l rest = ready-Right i h e
  after_poll-Right i pending true later h e l rest =
      let same : i ≡ 60 = ground arith in
      subst (λ n. Right n (some error)) (sym same) (last-Right (rw (← same) e))
  after_poll-Right i pending false later h e l rest = later-Right i later e (rest (ground arith))

  poll-Right : (fuel i : ℕ) → fuel + i ≡ 61 → 0 < fuel → Right i (poll svc_stores svc_key fuel i)
  unfolding poll
  poll-Right zero i e h = absurd (omega arith)
  poll-Right (suc fuel) i e h =
      let next : add_u32 i 1 ≡ suc i = omega arith in
      after_poll-Right i (seen_at i) (i == 60) _ (omega arith) refl refl
        (λ l. rw next (poll-Right fuel (suc i) (omega arith) (omega arith)))

  -- The activation's loop ends within 61 rounds, and it ends well in round `k` exactly if the service
  -- is found with an endpoint in this round, at most the sixtieth counted from 0, and is found
  -- without one in all rounds before.
  pub poll_iff :
      (poll svc_stores svc_key polls 0 ≢ none)
      × ((k : ℕ) → (poll svc_stores svc_key polls 0 ≡ some (ok k)) ↔ IsFirstReady 0 k)
  poll_iff = poll-Right polls 0 (omega arith) (omega arith)
