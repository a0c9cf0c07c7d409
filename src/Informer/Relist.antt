-- ===== src/Informer/Relist.antt =====
-- A turn of the reflector's loop: the listing, the decision to resync, and the watch.
use r_mini_k8s.Prelude.{
  String, Bool, ◌≡◌, refl, ap, inl, inr, Option, none, some, List, [], ◌∷◌, Eq, string_eq,
  if◌then◌else◌, arith, Bool-cases, ◌∙◌, All, sym, get-eq_of_map_eq,
}
use r_mini_k8s.Prelude.HashMap.{HashMap, get, insert, get-insert, IsMap, insert-IsMap, map_eq}
use r_mini_k8s.Informer.Defs.{WatchEvent, Notification, Message, insert_all, relist, turn}
use r_mini_k8s.Informer.View.{delivered}
use r_mini_k8s.Informer.Replay.{follow_all, IsFiled, StoreFiled, SameEntries, follow-handle_watcher}

module _ {T : Type 0} ⦃e : Eq T⦄ (uri : T → String) where
  -- The last listed object with a URI, or else `before`.
  abbrev pub latest : Option T → String → List T → Option T
  latest before k [] = before
  latest before k (o ∷ os) = latest (if string_eq.beq (uri o) k then some o else before) k os

  get-insert_all :
      (store : HashMap String T) (os : List T) (k : String)
      → get k (insert_all uri store os) ≡ latest (get k store) k os
  unfolding insert_all
  get-insert_all store [] k = refl
  get-insert_all store (o ∷ os) k =
      get-insert_all (insert (uri o) o store) os k
      ∙ ap (λ (b : Option T). latest b k os) (get-insert (uri o) k o store)

  insert_all-IsMap :
      (store : HashMap String T) (os : List T) → IsMap store → IsMap (insert_all uri store os)
  unfolding insert_all
  insert_all-IsMap store [] h = h
  insert_all-IsMap store (o ∷ os) h =
      insert_all-IsMap (insert (uri o) o store) os (insert-IsMap (uri o) o store h)

  insert_all-StoreFiled :
      (store : HashMap String T) (os : List T)
      → StoreFiled uri store
      → StoreFiled uri (insert_all uri store os)
  unfolding insert_all
  insert_all-StoreFiled store [] h = h
  insert_all-StoreFiled store (o ∷ os) h =
      insert_all-StoreFiled (insert (uri o) o store) os
        λ k x g. ground (arith, get-insert (uri o) k o store, h k x, string_eq.beq_iff (uri o) k)

  relist-entries :
      (store : HashMap String T) (os : List T)
      → IsMap store
      → SameEntries uri (insert_all uri [] os) (relist uri store os).0
  unfolding relist
  relist-entries store os d k = elim (Bool-cases (map_eq store (insert_all uri [] os))) [
    | inl same ↦
        rw (same, relist)
          (sym (get-eq_of_map_eq store (insert_all uri [] os) d (insert_all-IsMap [] os tt) same k))
    | inr differ ↦ rw (differ, relist)
  ]

  -- After a listing on a store without duplicate keys, the store holds, under each URI, the
  -- last object listed with that URI and nothing else, whether or not a resync was found
  -- necessary.
  pub get-relist :
      (store : HashMap String T) (os : List T)
      → IsMap store
      → (k : String) → get k (relist uri store os).0 ≡ latest none k os
  unfolding get
  get-relist store os d k = sym (relist-entries store os d k) ∙ get-insert_all [] os k

  relist-StoreFiled :
      (store : HashMap String T) (os : List T)
      → IsMap store
      → StoreFiled uri (relist uri store os).0
  unfolding get
  relist-StoreFiled store os d k o g =
      insert_all-StoreFiled [] os (λ k x n. cc) k o (relist-entries store os d k ∙ g)

  -- The copy of a consumer that reads the store on a resync, and follows the notifications.
  abbrev pub consume :
      HashMap String T → Bool → HashMap String T → List (Notification T) → HashMap String T
  consume copy should_resync listed sent =
      follow_all uri (if should_resync then listed else copy) sent

  resync-SameEntries :
      (copy store : HashMap String T) (os : List T)
      → SameEntries uri copy store
      → SameEntries uri
          (if (relist uri store os).1 then (relist uri store os).0 else copy)
          (relist uri store os).0
  unfolding relist
  resync-SameEntries copy store os h k = ground (arith, h k)

  abbrev pub events_of : Option (List (Message T)) → List (WatchEvent T)
  events_of none = []
  events_of (some ms) = delivered ms

  -- Through a whole turn of the loop (a listing that may differ from the store, and a watch
  -- that may fail to connect or end by any error) a consumer's copy that had the entries of the
  -- store has the entries of the final store, if the store has no duplicate keys and watched
  -- objects are filed under their URIs.
  pub consume-turn :
      (copy store : HashMap String T) (os : List T) (watch : Option (List (Message T)))
      → IsMap store
      → All (IsFiled uri) (events_of watch)
      → SameEntries uri copy store
      → SameEntries uri
          (consume copy
            (turn uri store os watch).1
            (relist uri store os).0
            (turn uri store os watch).2)
          (turn uri store os watch).0
  unfolding turn
  consume-turn copy store os none d f h = resync-SameEntries copy store os h
  consume-turn copy store os (some ms) d f h =
      follow-handle_watcher uri _ (relist uri store os).0 ms (relist-StoreFiled store os d) f
        (resync-SameEntries copy store os h)
