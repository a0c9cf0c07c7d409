-- ===== src/Informer/View.antt =====
-- The store against the map that the API server holds: every event is applied, and a notification
-- is sent exactly when the map changes.
use r_mini_k8s.Prelude.{
  String, ◌≡◌, refl, inl, inr, Option, none, some, List, [], ◌∷◌, Eq, string_eq, if◌then◌else◌,
  arith, Option-cases, ◌∙◌, ◌↔◌,
}
use r_mini_k8s.Prelude.HashMap.{
  HashMap, get, get-insert, get-remove, IsMap, insert-IsMap, remove-IsMap,
}
use r_mini_k8s.Informer.Defs.{
  WatchEvent, put, Message, text, bad_text, not_text, close, broken, handle_event, handle_watcher,
}

-- The abstract view: a finite map as the function that looks keys up.
abbrev pub View : Type 0 → Type 0
View T = String → Option T

module _ {T : Type 0} where
  -- What an event does to the server's map.
  abbrev pub apply : View T → WatchEvent T → View T
  apply v (put key object) j = if string_eq.beq key j then some object else v j
  apply v (WatchEvent.delete key) j = if string_eq.beq key j then none else v j

  -- The events that a watch connection delivers before it ends.
  abbrev pub delivered : List (Message T) → List (WatchEvent T)
  delivered [] = []
  delivered (close ∷ _) = []
  delivered (broken ∷ _) = []
  delivered (bad_text ∷ _) = []
  delivered (not_text ∷ ms) = delivered ms
  delivered (text event ∷ ms) = event ∷ delivered ms

  abbrev pub apply_all : View T → List (WatchEvent T) → View T
  apply_all v [] = v
  apply_all v (event ∷ es) = apply_all (apply v event) es

module _ {T : Type 0} ⦃e : Eq T⦄ where
  pub get-handle_event :
      (store : HashMap String T) (event : WatchEvent T) (j : String)
      → get j (handle_event store event).0 ≡ apply (λ k. get k store) event j
  unfolding handle_event
  get-handle_event store (put key o) j = elim (Option-cases (get key store)) [
    | inl h ↦ rw (h, handle_event) (get-insert key j o store)
    | inr (old, h) ↦
        ground (arith, h, e.beq_iff old o, get-insert key j o store, string_eq.beq_iff key j)
  ]
  get-handle_event store (WatchEvent.delete key) j =
      ground (arith, get-remove key j store, string_eq.beq_iff key j)

  pub handle_event-IsMap :
      (store : HashMap String T) (event : WatchEvent T)
      → IsMap store
      → IsMap (handle_event store event).0
  unfolding handle_event
  handle_event-IsMap store (put key o) h = ground (arith, insert-IsMap key o store h)
  handle_event-IsMap store (WatchEvent.delete key) h = ground (arith, remove-IsMap key store h)

  apply_all-congr :
      (v w : View T) (es : List (WatchEvent T)) (j : String)
      → ((k : String) → v k ≡ w k)
      → apply_all v es j ≡ apply_all w es j
  apply_all-congr v w [] j h = h j
  apply_all-congr v w (put key o ∷ es) j h =
      apply_all-congr (apply v (put key o)) (apply w (put key o)) es j (λ k. ground (arith, h k))
  apply_all-congr v w (WatchEvent.delete key ∷ es) j h =
      apply_all-congr (apply v (WatchEvent.delete key)) (apply w (WatchEvent.delete key)) es j
        (λ k. ground (arith, h k))

  -- After a watch, whatever ends it, the store answers every lookup as the server's map does after
  -- the delivered events, applied in order to what the store held before.
  pub get-handle_watcher :
      (store : HashMap String T) (ms : List (Message T)) (j : String)
      → get j (handle_watcher store ms).0 ≡ apply_all (λ k. get k store) (delivered ms) j
  unfolding handle_watcher
  get-handle_watcher store [] j = refl
  get-handle_watcher store (close ∷ ms) j = refl
  get-handle_watcher store (broken ∷ ms) j = refl
  get-handle_watcher store (bad_text ∷ ms) j = refl
  get-handle_watcher store (not_text ∷ ms) j = get-handle_watcher store ms j
  get-handle_watcher store (text event ∷ ms) j =
      get-handle_watcher (handle_event store event).0 ms j
      ∙ apply_all-congr _ _ (delivered ms) j (get-handle_event store event)

  silent-keeps :
      (store : HashMap String T) (event : WatchEvent T)
      → (handle_event store event).1 ≡ []
      → (j : String) → apply (λ k. get k store) event j ≡ get j store
  unfolding handle_event
  silent-keeps store (put key o) h j = elim (Option-cases (get key store)) [
    | inl g ↦ ground (arith, g)
    | inr (old, g) ↦ ground (arith, g, e.beq_iff old o, string_eq.beq_iff key j)
  ]
  silent-keeps store (WatchEvent.delete key) h j = ground (arith, string_eq.beq_iff key j)

  keeps-silent :
      (store : HashMap String T) (event : WatchEvent T)
      → ((j : String) → apply (λ k. get k store) event j ≡ get j store)
      → (handle_event store event).1 ≡ []
  unfolding handle_event
  keeps-silent store (put key o) h = ground (arith, h key, string_eq.beq_iff key key, e.beq_iff o o)
  keeps-silent store (WatchEvent.delete key) h = ground (arith, h key, string_eq.beq_iff key key)

  -- An event is passed on to the consumer exactly when it changes the store: no notification is
  -- sent if and only if every key would keep its value.
  pub handle_event_silent_iff :
      (store : HashMap String T) (event : WatchEvent T)
      → ((handle_event store event).1 ≡ [])
        ↔ ((j : String) → apply (λ k. get k store) event j ≡ get j store)
  handle_event_silent_iff store event = (silent-keeps store event, keeps-silent store event)
