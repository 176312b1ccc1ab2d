-- ===== src/Watcher/Monitor/Reported.antt =====
-- What the node of a client holds behind saveUpdateResults of configwatcher/zk_watcher.go.
use dove.Base.{ℕ, ◌≡◌, ap, ◌⊎◌, true, Option, none, some, List, [], ◌∷◌, Bytes, nat_eq, bytes_eq}
use dove.Base.Dict.{Dict, lookup, insert}
use dove.Storage.Etcd.{Client, get}
use dove.Watcher.Monitor.Fields.{or_else}
use dove.Storage.Paths.{path_to_cn}
use dove.Watcher.Monitor.{
  Field, Content, Monitor, Self, Outcome, info, bytes, registeration_info, outcome_fields, decoded,
  keep_alive,
}

abbrev pub values_of : Option (Content × Option ℕ) → List Content
values_of none = []
values_of (some (v, lease)) = v ∷ []

-- The client is that of a store that nobody else writes to: what is read is what was written last, and
-- a write that is reported as done is done.
pub record IsStore {S : Type 0} (client : Client Content S)
    (view : S → Dict Bytes (Content × Option ℕ)) : Type 0 where
  pub get-values :
      (k : Bytes) (s : S) (vs : List Content)
      → (client.kv_get k s).0 ≡ some vs
      → vs ≡ values_of (lookup k (view s))
  pub get-view : (k : Bytes) (s : S) → view ((client.kv_get k s).1) ≡ view s
  pub put-view :
      (k : Bytes) (v : Content) (lease : Option ℕ) (s : S)
      → (client.kv_put k v lease s).0 ≡ true
      → view ((client.kv_put k v lease s).1) ≡ insert k (v, lease) (view s)
  pub grant-view : (ttl : ℕ) (s : S) → view ((client.lease_grant ttl s).1) ≡ view s
  pub keep_alive-view : (lease : ℕ) (s : S) → view ((client.keep_alive lease s).1) ≡ view s

-- What a client is registered with.
abbrev pub IsRegistration : Self → Dict Bytes Field → Type 0
IsRegistration me old = (md5 : Bytes) × (me.md5 ≡ some md5) × (old ≡ registeration_info me md5)

abbrev pub content_of : Option (Content × Option ℕ) → Content
content_of none = bytes []
content_of (some (c, lease)) = c

module _ {S : Type 0} (client : Client Content S) (root : Bytes) (me : Self)
    (view : S → Dict Bytes (Content × Option ℕ)) (store : IsStore client view) where
  abbrev held : Bytes → S → Option (Content × Option ℕ)
  held node s = lookup (path_to_cn root node) (view s)

  held-get :
      (node : Bytes) (s : S) → held node ((get client root (bytes []) node s).1) ≡ held node s
  unfolding get
  held-get node s = ap (lookup (path_to_cn root node)) (store.get-view (path_to_cn root node) s)

  -- The node holds the outcome under the lease, over what it held before.
  abbrev pub IsReported : Bytes → Outcome → ℕ → S → S → Type 0
  IsReported node o lease s t =
      (old new : Dict Bytes Field) × ((decoded (content_of (held node s)) ≡ some old)
        ⊎ IsRegistration me old)
      × (held node t ≡ some (info new, some lease))
      × ((name : Bytes)
          → lookup name new ≡ or_else (lookup name (outcome_fields me o)) (lookup name old))
