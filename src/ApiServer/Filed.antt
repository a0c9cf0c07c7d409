-- ===== src/ApiServer/Filed.antt =====
-- The invariant of the map: each object is filed under its own `uri`.
use r_mini_k8s.Prelude.{
  String, Option, none, some, [], ◌∷◌, ◌≡◌, refl, arith, string_eq, nat_eq, unit_eq, All,
}
use r_mini_k8s.Prelude.HashMap.{HashMap, insert, remove, IsMap, insert-IsMap, remove-IsMap}
use r_mini_k8s.Objects.{KubeObject, uri}
use r_mini_k8s.ApiServer.Etcd.{AppState, HandlerResult, etcd_put, etcd_delete}

-- Each object is filed under its own `uri`.
abbrev pub Filed : HashMap String KubeObject → Type 0
Filed = All (λ ((k, object) : String × KubeObject). k ≡ uri object)

pub record IsFiled (app : AppState) : Type 0 where
  pub distinct : IsMap app.etcd
  pub filed : Filed app.etcd

insert-Filed :
    (object : KubeObject) (m : HashMap String KubeObject)
    → Filed m
    → Filed (insert (uri object) object m)
unfolding insert
insert-Filed object [] f = (refl, tt)
insert-Filed object ((k, old) ∷ m) f =
    ground (arith, insert-Filed object m f.1, string_eq.beq_iff k (uri object))

remove-Filed : (k : String) (m : HashMap String KubeObject) → Filed m → Filed (remove k m)
unfolding remove
remove-Filed k [] f = tt
remove-Filed k ((j, old) ∷ m) f = ground (arith, remove-Filed k m f.1)

pub put-IsFiled :
    (app : AppState) (object : KubeObject) → IsFiled app → IsFiled (etcd_put app object)
unfolding etcd_put
put-IsFiled app object f = record {
  distinct = insert-IsMap (uri object) object app.etcd f.distinct;
  filed = insert-Filed object app.etcd f.filed;
}

pub delete-IsFiled : (app : AppState) (key : String) → IsFiled app → IsFiled (etcd_delete app key).0
unfolding etcd_delete
delete-IsFiled app key f = record {
  distinct = remove-IsMap key app.etcd f.distinct;
  filed = remove-Filed key app.etcd f.filed;
}

abbrev pub state_after : {A : Type 0} → AppState → Option (AppState × HandlerResult A) → AppState
state_after app none = app
state_after app (some (app', _)) = app'
