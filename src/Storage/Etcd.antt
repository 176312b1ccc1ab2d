-- ===== src/Storage/Etcd.antt =====
-- The connection to etcd: storage/zk/storage.go, and MyMonitorNode of storage/zk/util.go. The client
-- of etcd is an argument.
use dove.Base.{
  ℕ, suc, ◌+◌, ◌%◌, ◌≡◌, refl, ap, Bool, false, not, Option, none, some, List, [], ◌∷◌, ◌++◌, ltb,
  if◌then◌else◌, length, ◌==◌, Bytes, codes, nat_eq, bytes_eq, Result, ok, err,
}
use dove.Base.Dict.{Dict, lookup}
use dove.Base.Decimal.{itoa}
use dove.Base.Text.{split, first}
use dove.Storage.Paths.{path_to_cn}

-- The client, with values `V`: the values of a key, a write under a lease or without one, a new lease
-- for a number of seconds, and its renewal. `none` and `false` are errors.
pub record Client (V S : Type 0) : Type 0 where
  pub kv_get : Bytes → S → Option (List V) × S
  pub kv_put : Bytes → V → Option ℕ → S → Bool × S
  pub lease_grant : ℕ → S → Option ℕ × S
  pub keep_alive : ℕ → S → Bool × S

module _ {V S : Type 0} (client : Client V S) (root : Bytes) where
  unfoldable pub first_value : V → List V → V
  first_value empty [] = empty
  first_value empty (v ∷ vs) = v

  -- A key without a value is the empty value.
  unfoldable pub get : V → Bytes → S → Option V × S
  unfolding first_value
  get empty path s =
      let (kvs, s') = client.kv_get (path_to_cn root path) s in
      (elim kvs [ none ↦ none | some vs ↦ some (first_value empty vs) ], s')

  unfoldable pub grant : ℕ → S → Option ℕ × S
  grant ttl s = client.lease_grant ttl s

  unfoldable pub create : Bytes → V → ℕ → S → Bool × S
  create path content lease s = client.kv_put (path_to_cn root path) content (some lease) s

  -- The first of the leases, if one is given.
  first_lease : List ℕ → Option ℕ
  first_lease [] = none
  first_lease (l ∷ ls) = some l

  unfoldable pub set : Bytes → V → List ℕ → S → Bool × S
  unfolding first_lease
  set path content lease s = client.kv_put (path_to_cn root path) content (first_lease lease) s

  unfoldable pub exists : Bytes → S → Option Bool × S
  exists path s =
      let (kvs, s') = client.kv_get (path_to_cn root path) s in
      (elim kvs [ none ↦ none | some vs ↦ some (ltb 0 (length vs)) ], s')

-- A storage that is not nil, with a connection or without one.
pub record EtcdStorage : Type 0 where
  pub has_conn : Bool

pub data ConnError : Type 0 where
  no_env no_client : ConnError

-- What is returned is a storage even where the client of etcd could not be made.
unfoldable pub create_conn :
    Bytes → Dict Bytes (List Bytes) → Bool → Option EtcdStorage × Option ConnError
create_conn env hosts client_made = elim (lookup env hosts) [
  | none ↦ (none, some no_env)
  | some endpoints ↦
      (some (record { has_conn = client_made }), if client_made then none else some no_client)
]

-- The result, and the package's variable afterwards.
unfoldable pub get_conn :
    Bytes
    → Dict Bytes (List Bytes)
    → Bool
    → Option EtcdStorage
    → (Option EtcdStorage × Option ConnError) × Option EtcdStorage
unfolding create_conn
get_conn env hosts client_made (some storage) = ((some storage, none), some storage)
get_conn env hosts client_made none =
    let (storage, e) = create_conn env hosts client_made in ((storage, e), storage)

-- The client in use, the channel of resets in use, how often all settings were refreshed.
pub record Heartbeat : Type 0 where
  pub generation : ℕ
  pub reset_chan : ℕ
  pub refreshed : ℕ

-- One round of the test of the connection, and the seconds it sleeps: `rand` is a number below the
-- range, which must not be 0: `none` is a panic.
unfoldable pub heartbeat_round : ℕ → ℕ → ℕ → Bool → Bool → Bool → Heartbeat → Option (Heartbeat × ℕ)
heartbeat_round range min_interval rand has_callback test_ok client_made h =
    if test_ok
    then (if ltb 0 range then some (h, (rand % range + 1) + min_interval) else none)
    else if client_made
    then some (
      record {
        generation = suc h.generation;
        reset_chan = suc h.reset_chan;
        refreshed = if has_callback then suc h.refreshed else h.refreshed;
      },
      1,
    )
    else some (h, 1)

unfoldable pub monitor_node_root : Bytes → Bytes
monitor_node_root root = root ++ codes "_monitor"

pub data NodeError : Type 0 where
  no_hostname no_dial : NodeError

-- What the node is named after: the host, the address of a connection to the first server, the pid.
pub record Identity : Type 0 where
  pub hostname : Option Bytes
  pub local_addr : Option Bytes
  pub pid : ℕ
  pub client_ver : Bytes

unfoldable pub node_name : Bytes → Identity → Result NodeError Bytes
unfolding monitor_node_root
node_name root me = elim me.hostname [
  | none ↦ err no_hostname
  | some host ↦ elim me.local_addr [
    | none ↦ err no_dial
    | some addr ↦ ok (
        monitor_node_root root
        ++ (codes "/"
            ++ (host
                ++ (codes ":"
                    ++ (first (split addr b':')
                        ++ (codes "@" ++ (itoa me.pid ++ (codes ":" ++ me.client_ver))))))))
  ]
]

-- The name that was kept is taken, if there is one.
unfoldable pub my_monitor_node : Bytes → Identity → Bytes → Result NodeError Bytes × Bytes
unfolding node_name
my_monitor_node root me cached =
    if not (cached == [])
    then (ok cached, cached)
    else elim (node_name root me) [ err e ↦ (err e, cached) | ok node ↦ (ok node, node) ]

create_conn-first :
    (env : Bytes) (hosts : Dict Bytes (List Bytes)) (endpoints : List Bytes)
    → lookup env hosts ≡ some endpoints
    → create_conn env hosts false ≡ (some (record { has_conn = false }), some no_client)
unfolding create_conn
create_conn-first env hosts endpoints h = rw (h, create_conn) refl

get_conn-first :
    (env : Bytes) (hosts : Dict Bytes (List Bytes)) (endpoints : List Bytes)
    → lookup env hosts ≡ some endpoints
    → get_conn env hosts false none
      ≡ ((some (record { has_conn = false }), some no_client), some (record { has_conn = false }))
unfolding get_conn
get_conn-first env hosts endpoints h =
    ap (λ r. ((r.0, r.1), r.0)) (create_conn-first env hosts endpoints h)

-- When the first attempt cannot make a client of etcd, it is reported, but the next attempts give a
-- storage without a connection and no error, whatever becomes of etcd.
pub get_conn-unusable :
    (env : Bytes) (hosts : Dict Bytes (List Bytes)) (endpoints : List Bytes) (client_made : Bool)
    → lookup env hosts ≡ some endpoints
    → (get_conn env hosts false none ≡ (
      (some (record { has_conn = false }), some no_client),
      some (record { has_conn = false }),
    ))
      × (get_conn env hosts client_made (get_conn env hosts false none).1
          ≡ ((some (record { has_conn = false }), none), some (record { has_conn = false })))
unfolding get_conn
get_conn-unusable env hosts endpoints client_made h =
    let at_first = get_conn-first env hosts endpoints h in
    (at_first, ap (λ r. get_conn env hosts client_made r.1) at_first)
