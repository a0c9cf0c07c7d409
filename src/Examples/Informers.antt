-- ===== src/Examples/Informers.antt =====
-- Informers of texts that are their own URIs.
use r_mini_k8s.Prelude.{String, ◌≡◌, ◌↔◌, refl, none, some, List, [], ◌∷◌, string_eq, arith}
use r_mini_k8s.Prelude.HashMap.{HashMap, get}
use r_mini_k8s.Informer.Defs.{
  WatchEvent, put, Message, text, not_text, close, handle_event, handle_watcher, relist, turn,
}
use r_mini_k8s.Informer.View.{apply, get-handle_watcher, handle_event_silent_iff}
use r_mini_k8s.Informer.Replay.{follow_all, follow-handle_watcher}
use r_mini_k8s.Informer.Relist.{consume, get-relist, consume-turn}

abbrev own : String → String
own s = s

abbrev stored : HashMap String String
stored = ("a", "a") ∷ ("b", "b") ∷ []

abbrev watched : List (Message String)
watched =
    text (put "c" "c") ∷ not_text ∷ text (WatchEvent.delete "a") ∷ close ∷ text (put "d" "d") ∷ []

get-handle_watcher_example : get "a" (handle_watcher stored watched).0 ≡ none
unfolding get
get-handle_watcher_example = get-handle_watcher stored watched "a"

handle_event_silent_iff_example :
    ((handle_event stored (put "a" "a")).1 ≡ [])
    ↔ ((j : String) → apply (λ k. get k stored) (put "a" "a") j ≡ get j stored)
handle_event_silent_iff_example = handle_event_silent_iff stored (put "a" "a")

follow-handle_watcher_example :
    get "c" (follow_all own stored (handle_watcher stored watched).1)
    ≡ get "c" (handle_watcher stored watched).0
unfolding get
follow-handle_watcher_example =
    follow-handle_watcher own stored stored watched
      (λ k o g. ground (arith, g, string_eq.beq_iff "a" k, string_eq.beq_iff "b" k))
      (refl, (tt, tt)) (λ k. refl) "c"

get-relist_example : get "b" (relist own stored ("b" ∷ "e" ∷ [])).0 ≡ some "b"
unfolding get
get-relist_example = get-relist own stored ("b" ∷ "e" ∷ []) (refl, (refl, tt)) "b"

consume-turn_example :
    get "e" (
      consume own stored
        (turn own stored ("b" ∷ "e" ∷ []) (some watched)).1
        (relist own stored ("b" ∷ "e" ∷ [])).0
        (turn own stored ("b" ∷ "e" ∷ []) (some watched)).2)
    ≡ get "e" (turn own stored ("b" ∷ "e" ∷ []) (some watched)).0
unfolding get
consume-turn_example =
    consume-turn own stored stored ("b" ∷ "e" ∷ []) (some watched) (refl, (refl, tt))
      (refl, (tt, tt)) (λ k. refl) "e"
