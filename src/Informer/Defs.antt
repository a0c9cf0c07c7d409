-- ===== src/Informer/Defs.antt =====
-- The definitions.
use r_mini_k8s.Prelude.{
  String, Bool, true, false, not, Option, none, some, List, [], ◌∷◌, ◌++◌, Eq, string_eq,
  if◌then◌else◌,
}
use r_mini_k8s.Prelude.HashMap.{HashMap, get, insert, remove, map_eq}

pub data WatchEvent (T : Type 0) : Type 0 where
  put : String → T → WatchEvent T
  delete : String → WatchEvent T

pub data Notification (T : Type 0) : Type 0 where
  add : T → Notification T
  update : T → T → Notification T
  delete : T → Notification T

-- What `receiver.next()` yields. The stream's end is the end of the list.
pub data Message (T : Type 0) : Type 0 where
  text : WatchEvent T → Message T
  bad_text : Message T
  not_text : Message T
  close : Message T
  broken : Message T

-- Why the watch ended; it only ends by an error.
pub data WatchError : Type 0 where
  no_message disconnected transport deserialize : WatchError

module _ {T : Type 0} ⦃e : Eq T⦄ where
  -- A `Put` on a key: an equal object is skipped, another replaces it, a new one is added.
  put_event : String → T → HashMap String T → Option T → HashMap String T × List (Notification T)
  put_event key object store (some old) =
      if e.beq old object then (store, []) else (insert key object store, update old object ∷ [])
  put_event key object store none = (insert key object store, add object ∷ [])

  delete_event : String → HashMap String T → Option T → HashMap String T × List (Notification T)
  delete_event key store (some old) = (remove key store, Notification.delete old ∷ [])
  delete_event key store none = (store, [])

  -- The body of `handle_watcher`'s loop for one event.
  unfoldable pub handle_event :
      HashMap String T → WatchEvent T → HashMap String T × List (Notification T)
  unfolding put_event delete_event
  handle_event store (put key object) = put_event key object store (get key store)
  handle_event store (WatchEvent.delete key) = delete_event key store (get key store)

  -- `handle_watcher`: the store, the notifications in the order sent, and the error that ends it.
  -- The notifications have a receiver: no `send` fails.
  unfoldable pub handle_watcher :
      HashMap String T → List (Message T) → HashMap String T × List (Notification T) × WatchError
  handle_watcher store [] = (store, [], no_message)
  handle_watcher store (close ∷ _) = (store, [], disconnected)
  handle_watcher store (broken ∷ _) = (store, [], transport)
  handle_watcher store (bad_text ∷ _) = (store, [], deserialize)
  handle_watcher store (not_text ∷ ms) = handle_watcher store ms
  handle_watcher store (text event ∷ ms) =
      let (store', sent) = handle_event store event in
      let (last, rest, err) = handle_watcher store' ms in (last, sent ++ rest, err)

  module _ (uri : T → String) where
    unfoldable pub insert_all : HashMap String T → List T → HashMap String T
    insert_all store [] = store
    insert_all store (o ∷ os) = insert_all (insert (uri o) o store) os

    -- The lister's block of `run`: the store after it, and whether to resync.
    unfoldable pub relist : HashMap String T → List T → HashMap String T × Bool
    unfolding insert_all
    relist store objects =
        let new_store = insert_all [] objects in
        if not (map_eq store new_store) then (new_store, true) else (store, false)

    -- One turn of the loop of `run`: the first listing that succeeds (failed ones are retried and
    -- leave no trace), then a watch, unless the connection fails (`none`). The result is the store,
    -- whether a resync was sent before the watch, and the notifications.
    unfoldable pub turn :
        HashMap String T
        → List T
        → Option (List (Message T))
        → HashMap String T × Bool × List (Notification T)
    unfolding relist handle_watcher
    turn store objects watch =
        let (listed, should_resync) = relist store objects in
        elim watch [
          | none ↦ (listed, should_resync, [])
          | some ms ↦ let (last, sent, _) = handle_watcher listed ms in (last, should_resync, sent)
        ]
