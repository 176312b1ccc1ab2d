-- ===== src/Watcher/Monitor.antt =====
-- What a client tells the configuration server about itself: registerMonitor and saveUpdateResults of
-- configwatcher/zk_watcher.go.
pub mod Fields
pub mod Reported
mod Examples
use dove.Base.{
  ℕ, Bool, true, false, Option, none, some, List, [], ◌∷◌, ◌++◌, if◌then◌else◌, Bytes, codes,
  nat_eq, bytes_eq, Result, ok, err,
}
use dove.Base.Dict.{Dict, insert}
use dove.Base.Text.{join}
use dove.Storage.Etcd.{
  Client, Identity, NodeError, get, grant, create, set, exists, my_monitor_node,
}

-- A value of a `map[string]interface{}`; `other` is a value of the JSON that is not looked at.
pub data Field : Type 0 where
  text : Bytes → Field
  number : ℕ → Field
  texts : List Bytes → Field
  table : Dict Bytes Bytes → Field
  other : Bytes → Field

-- The content of a node: the JSON of a map, `null`, or other bytes.
pub data Content : Type 0 where
  info : Dict Bytes Field → Content
  json_null : Content
  bytes : Bytes → Content

pub data MonitorError : Type 0 where
  no_node : NodeError → MonitorError
  no_md5 no_lease not_created not_set not_kept_alive no_info : MonitorError

-- The node that is kept for later calls, and the lease.
pub record Monitor : Type 0 where
  pub node_cache : Bytes
  pub lease : ℕ

-- The parts of the client that are reported: `md5` is the sum of the program's file.
pub record Self : Type 0 where
  pub identity : Identity
  pub md5 : Option Bytes
  pub config_dir : List Bytes

unfoldable pub registeration_info : Self → Bytes → Dict Bytes Field
registeration_info me md5 =
    (codes "client_md5", text (md5 ++ (codes "\nVER:" ++ me.identity.client_ver)))
    ∷ (codes "config_dir", texts me.config_dir)
    ∷ []

-- The result of an update: its error, if there is one, the time, and what the callbacks gave.
pub record Outcome : Type 0 where
  pub now : ℕ
  pub update_error : Option Bytes
  pub callback_results : Dict Bytes Bytes
  pub script_results : Dict Bytes Bytes

unfoldable pub result_text : Option Bytes → Bytes
result_text none = codes "complete"
result_text (some e) = codes "not-complete"

unfoldable pub error_text : Option Bytes → Bytes
error_text none = []
error_text (some e) = e

-- The fields that are set.
unfoldable pub outcome_fields : Self → Outcome → Dict Bytes Field
unfolding result_text error_text
outcome_fields me o =
    (codes "app_path", text (join me.config_dir (codes ":")))
    ∷ (codes "config_last_update_time", number o.now)
    ∷ (codes "config_last_update_result", text (result_text o.update_error))
    ∷ (codes "config_last_update_error_msg", text (error_text o.update_error))
    ∷ (codes "callback_result", table o.callback_results)
    ∷ (codes "callback_script", table o.script_results)
    ∷ []

unfoldable pub assign_all : Dict Bytes Field → Dict Bytes Field → Dict Bytes Field
assign_all [] result = result
assign_all ((name, v) ∷ fields) result = assign_all fields (insert name v result)

unfoldable pub with_outcome : Self → Outcome → Dict Bytes Field → Dict Bytes Field
unfolding outcome_fields assign_all
with_outcome me o result = assign_all (outcome_fields me o) result

-- What is decoded of the node: bytes that are no JSON of a map give a new map; `null` gives a nil map,
-- to which nothing can be assigned: `none` is a panic.
unfoldable pub decoded : Content → Option (Dict Bytes Field)
decoded (info d) = some d
decoded json_null = none
decoded (bytes b) = some []

is_there : Option Bool → Bool
is_there none = false
is_there (some b) = b

module _ {S : Type 0} (client : Client Content S) (root : Bytes) (me : Self) where
  -- An error of the test is taken for a node that is not there.
  unfoldable pub node_exists : Bytes → S → Bool × S
  unfolding is_there
  node_exists node s = let (r, s') = exists client root node s in (is_there r, s')

  unfoldable pub create_missing : Bytes → ℕ → S → Bool × S
  unfolding node_exists
  create_missing node lease s =
      let (there, s') = node_exists node s in
      if there then (true, s') else create client root node (bytes []) lease s'

  unfoldable pub keep_alive : ℕ → S → Result MonitorError (Unit {0}) × S
  keep_alive lease s =
      let (kept, s') = client.keep_alive lease s in (if kept then ok tt else err not_kept_alive, s')

  unfoldable pub set_registeration : Bytes → Bytes → ℕ → S → Result MonitorError (Unit {0}) × S
  unfolding registeration_info keep_alive
  set_registeration node md5 lease s =
      let (written, s') = set client root node (info (registeration_info me md5)) (lease ∷ []) s in
      if written then keep_alive lease s' else (err not_set, s')

  -- The node is made, if it is not there, written, and its lease is kept alive.
  unfoldable pub write_registeration : Bytes → Bytes → ℕ → S → Result MonitorError (Unit {0}) × S
  unfolding create_missing set_registeration
  write_registeration node md5 lease s =
      let (created, s') = create_missing node lease s in
      if created then set_registeration node md5 lease s' else (err not_created, s')

  -- The lease holds for 45 seconds.
  unfoldable pub register_leased :
      Bytes → Bytes → Monitor → S → Result MonitorError (Unit {0}) × Monitor × S
  unfolding write_registeration
  register_leased node md5 m s =
      let (granted, s') = grant client root 45 s in
      elim granted [
        | none ↦ (err no_lease, m, s')
        | some lease ↦
            let (r, t) = write_registeration node md5 lease s' in (r, record m { lease = lease }, t)
      ]

  unfoldable pub register_at : Bytes → Monitor → S → Result MonitorError (Unit {0}) × Monitor × S
  unfolding register_leased
  register_at node m s = elim me.md5 [
    | none ↦ (err no_md5, m, s)
    | some md5 ↦ register_leased node md5 m s
  ]

  unfoldable pub register_monitor : Monitor → S → Result MonitorError (Unit {0}) × Monitor × S
  unfolding register_at my_monitor_node
  register_monitor m s =
      let (node, cache) = my_monitor_node root me.identity m.node_cache in
      let m' : Monitor = record m { node_cache = cache } in
      elim node [ err e ↦ (err (no_node e), m', s) | ok path ↦ register_at path m' s ]

  -- The node is registered, unless it is there.
  unfoldable pub registered : Bytes → Monitor → S → Result MonitorError (Unit {0}) × Monitor × S
  unfolding node_exists register_monitor
  registered node m s =
      let (there, s') = node_exists node s in
      if there then (ok tt, m, s') else register_monitor m s'

  -- The results are put into what the node holds.
  unfoldable pub write_outcome :
      Bytes → Outcome → Monitor → S → Option (Result MonitorError (Unit {0})) × S
  unfolding decoded with_outcome
  write_outcome node o m s =
      let (content, s') = get client root (bytes []) node s in
      elim content [
        | none ↦ (some (err no_info), s')
        | some c ↦ elim (decoded c) [
          | none ↦ (none, s')
          | some result ↦
              let (written, t) =
                set client root node (info (with_outcome me o result)) (m.lease ∷ []) s' in
              (some (if written then ok tt else err not_set), t)
        ]
      ]

  unfoldable pub save_at :
      Bytes → Outcome → Monitor → S → Option (Result MonitorError (Unit {0})) × Monitor × S
  unfolding registered write_outcome
  save_at node o m s =
      let (r, m', s') = registered node m s in
      elim r [
        | err e ↦ (some (err e), m', s')
        | ok _ ↦ let (w, t) = write_outcome node o m' s' in (w, m', t)
      ]

  -- `none` is a panic.
  unfoldable pub save_update_results :
      Outcome → Monitor → S → Option (Result MonitorError (Unit {0})) × Monitor × S
  unfolding save_at my_monitor_node
  save_update_results o m s =
      let (node, cache) = my_monitor_node root me.identity m.node_cache in
      let m' : Monitor = record m { node_cache = cache } in
      elim node [ err e ↦ (some (err (no_node e)), m', s) | ok path ↦ save_at path o m' s ]
