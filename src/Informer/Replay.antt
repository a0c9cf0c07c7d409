-- ===== src/Informer/Replay.antt =====
-- A consumer that copies the store on a resync and follows the notifications keeps a true copy.
use r_mini_k8s.Prelude.{
  String, ◌≡◌, refl, inl, inr, some, List, [], ◌∷◌, ◌++◌, Eq, string_eq, arith, Option-cases, All,
}
use r_mini_k8s.Prelude.HashMap.{HashMap, get, insert, remove, get-insert, get-remove}
use r_mini_k8s.Informer.Defs.{
  WatchEvent, put, Notification, add, update, Message, text, bad_text, not_text, close, broken,
  handle_event, handle_watcher,
}
use r_mini_k8s.Informer.View.{delivered, get-handle_event}

module _ {T : Type 0} ⦃e : Eq T⦄ (uri : T → String) where
  -- A consumer files each object under its own URI.
  abbrev pub follow : HashMap String T → Notification T → HashMap String T
  follow copy (add new) = insert (uri new) new copy
  follow copy (update old new) = insert (uri new) new copy
  follow copy (Notification.delete old) = remove (uri old) copy

  abbrev pub follow_all : HashMap String T → List (Notification T) → HashMap String T
  follow_all copy [] = copy
  follow_all copy (n ∷ ns) = follow_all (follow copy n) ns

  -- etcd stores an object under its URI.
  abbrev pub IsFiled : WatchEvent T → Type 0
  IsFiled (put key object) = uri object ≡ key
  IsFiled (WatchEvent.delete key) = Unit

  abbrev pub StoreFiled : HashMap String T → Type 0
  StoreFiled store = (k : String) (o : T) → get k store ≡ some o → uri o ≡ k

  abbrev pub SameEntries : HashMap String T → HashMap String T → Type 0
  SameEntries copy store = (k : String) → get k copy ≡ get k store

  handle_event-StoreFiled :
      (store : HashMap String T) (event : WatchEvent T)
      → StoreFiled store
      → IsFiled event
      → StoreFiled (handle_event store event).0
  handle_event-StoreFiled store (put key o) s f k x h =
      ground (arith, get-handle_event store (put key o) k, s k x, f, string_eq.beq_iff key k)
  handle_event-StoreFiled store (WatchEvent.delete key) s f k x h =
      ground
        (arith, get-handle_event store (WatchEvent.delete key) k, s k x, string_eq.beq_iff key k)

  follow_event :
      (copy store : HashMap String T) (event : WatchEvent T)
      → StoreFiled store
      → IsFiled event
      → SameEntries copy store
      → SameEntries (follow_all copy (handle_event store event).1) (handle_event store event).0
  unfolding handle_event
  follow_event copy store (put key o) s f h k = elim (Option-cases (get key store)) [
    | inl g ↦ ground (arith, g, f, h k, get-insert key k o store, get-insert (uri o) k o copy)
    | inr (old, g) ↦
        ground (arith, g, f, h k, get-insert key k o store, get-insert (uri o) k o copy)
  ]
  follow_event copy store (WatchEvent.delete key) s f h k = elim (Option-cases (get key store)) [
    | inl g ↦ ground (arith, g, h k)
    | inr (old, g) ↦
        ground (arith, g, h k, s key old g, get-remove key k store, get-remove (uri old) k copy)
  ]

  follow_all-append :
      (copy : HashMap String T) (ms ns : List (Notification T))
      → follow_all copy (ms ++ ns) ≡ follow_all (follow_all copy ms) ns
  follow_all-append copy [] ns = refl
  follow_all-append copy (m ∷ ms) ns = follow_all-append (follow copy m) ms ns

  -- If every object is filed under its URI, then a copy with the entries of the store, updated by
  -- the notifications that a watch sends, again has the entries of the store.
  pub follow-handle_watcher :
      (copy store : HashMap String T) (ms : List (Message T))
      → StoreFiled store
      → All IsFiled (delivered ms)
      → SameEntries copy store
      → SameEntries (follow_all copy (handle_watcher store ms).1) (handle_watcher store ms).0
  unfolding handle_watcher
  follow-handle_watcher copy store [] s f h k = h k
  follow-handle_watcher copy store (close ∷ ms) s f h k = h k
  follow-handle_watcher copy store (broken ∷ ms) s f h k = h k
  follow-handle_watcher copy store (bad_text ∷ ms) s f h k = h k
  follow-handle_watcher copy store (not_text ∷ ms) s f h k =
      follow-handle_watcher copy store ms s f h k
  follow-handle_watcher copy store (text event ∷ ms) s f h k =
      let step = handle_event store event in
      rw (follow_all-append copy step.1 (handle_watcher step.0 ms).1) (
        follow-handle_watcher (follow_all copy step.1) step.0 ms
          (handle_event-StoreFiled store event s f.0) f.1 (follow_event copy store event s f.0 h) k)
