-- ===== src/Handler/Registers.antt =====
-- What a request for a setting leaves behind: handler/project_config.go.
use dove.Base.{◌≡◌, refl, sym, ap, ◌∙◌, false, some, arith, Bytes, nat_eq, bytes_eq}
use mathlib.Core.Path.{subst}
use dove.Base.Dict.{lookup}
use dove.Watcher.Nodes.{RegisteredNodeInfo, touch_dynamic_node}
use dove.Watcher.Nodes.Registered.{IsCovered, touch_node-IsCovered, touch_node-registered}
use dove.Handler.{Daemon, Call, get_project_config}

get_project_config-nodes :
    (call : Call) (name : Bytes) (d : Daemon)
    → (get_project_config call name d).1.nodes
      ≡ (touch_dynamic_node call.run_as_bi call.now name d.nodes).1
unfolding get_project_config
get_project_config-nodes call name d = ground arith

-- Whatever a request for a setting returns, outside a temporary instance the setting is registered
-- afterwards, with the time of the request as its last access, and for the root of every registered
-- setting a goroutine still listens, or was started that will, or hangs behind a directive to stop.
pub get_project_config-registered :
    (call : Call) (name : Bytes) (d : Daemon)
    → call.run_as_bi ≡ false
    → IsCovered d.nodes
    → (info : RegisteredNodeInfo) × (lookup name
          (get_project_config call name d).1.nodes.registered_nodes
        ≡ some info)
      × (info.last_access_time ≡ call.now)
      × IsCovered (get_project_config call name d).1.nodes
get_project_config-registered call name d b c =
    let nodes : (get_project_config call name d).1.nodes
        ≡ (touch_dynamic_node false call.now name d.nodes).1 =
      get_project_config-nodes call name d
      ∙ ap (λ x. (touch_dynamic_node x call.now name d.nodes).1) b in
    let (info, e, t) = touch_node-registered call.now name d.nodes in
    (
      info,
      ap (λ n. lookup name n.registered_nodes) nodes ∙ e,
      t,
      subst IsCovered (sym nodes) (
          touch_node-IsCovered false call.now name d.nodes (lookup name d.nodes.registered_nodes)
            refl c),
    )
