-- ===== src/Handler.antt =====
-- The handlers of requests: handler/ and the dispatch of connection/conn_handler.go. A request is
-- what `encoding/json` makes of its body.
pub mod Registers
mod Examples
use dove.Base.{
  ℕ, Bool, true, not, ◌&&◌, Option, none, some, if◌then◌else◌, Bytes, codes, bytes_beq, nat_eq,
  bytes_eq, Result, ok, err,
}
use dove.Storage.{store_to_mem}
use dove.Projconfig.FetchLock.{Queue}
use dove.Projconfig.Local.{Env, Values, ValueError, panics, save_to_disk}
use dove.Projconfig.Server.{Reply, Field, text}
use dove.Projconfig.Config.{get_config}
use dove.Watcher.Nodes.{Nodes, touch_dynamic_node}
use dove.Watcher.NewValue.{NewValue, get_new_value_of_config}

-- What a request works on.
pub record Daemon : Type 0 where
  pub values : Values
  pub queue : Queue
  pub nodes : Nodes

-- The settings, the answers of the server and the values of the debug files by name, and the times at
-- which a request starts and ends.
pub record Call : Type 0 where
  pub env : Env
  pub run_as_bi : Bool
  pub reply : Bytes → Reply
  pub debug : Bytes → Option (Bytes × Bytes)
  pub now : ℕ
  pub later : ℕ

pub data HandlerError : Type 0 where
  handler_not_exists undecodable_request process_timeout : HandlerError
  value_error : ValueError → HandlerError

-- The answer of a value: its JSON, or its error.
new_value_result : NewValue → Result ValueError (Option Bytes)
new_value_result nv = elim nv.c_err [ none ↦ ok nv.value_serialized | some e ↦ err e ]

-- The goroutine behind a first request: a new value is kept in memory and on disk.
unfoldable pub keep_new_value : Env → Bytes → NewValue → Values → Values
keep_new_value env name nv v = elim nv.c_err [
  | some e ↦ v
  | none ↦
      if not nv.is_debug_value && nv.has_update
      then (save_to_disk env name nv.value_plain
          (record v { memory = store_to_mem name nv.value_serialized v.memory })).1
      else v
]

value_debug : Env → Option (Bytes × Bytes) → Option Bytes
value_debug env none = none
value_debug env (some d) = if env.dev_mode then some d.0 else none

-- A setting that is watched comes from where `GetConfig` finds it; one that is new is fetched.
unfoldable pub get_project_config :
    Call → Bytes → Daemon → Result ValueError (Option Bytes) × Daemon
unfolding new_value_result keep_new_value value_debug
get_project_config call name d =
    let (has_been_watching, nodes) = touch_dynamic_node call.run_as_bi call.now name d.nodes in
    let (re, v, q) =
      get_config call.env (call.reply name) (value_debug call.env (call.debug name)) true call.now
        call.later name d.values d.queue in
    let (nv, v') =
      get_new_value_of_config call.env (call.reply name) (call.debug name) name d.values in
    if has_been_watching then (re, record { values = v; queue = q; nodes = nodes }) else (
      new_value_result nv,
      record d { values = keep_new_value call.env name nv v'; nodes = nodes },
    )

-- `args["name"].(string)`
abbrev pub process : Call → Field → Daemon → Result ValueError (Option Bytes) × Daemon
process call (text name) d = get_project_config call name d
process call _ d = (err panics, d)

abbrev pub handler_exists : Bytes → Bool
handler_exists n = bytes_beq n (codes "GetProjectConfig")

unfoldable pub run : Call → Bytes → Field → Daemon → Result HandlerError (Option Bytes) × Daemon
run call n name d =
    let (r, d') = process call name d in
    if not (handler_exists n)
    then (err handler_not_exists, d)
    else (elim r [ ok re ↦ ok re | err e ↦ err (value_error e) ], d')

-- A body that is no object of JSON, or one with its "cmd" and, if "args" is an object, its "name".
pub data ClientData : Type 0 where
  no_json : ClientData
  call_of : Field → Option Field → ClientData

-- Any other type of "cmd" or "args" panics. A request that takes longer than the limit is answered
-- with an error, and goes on.
unfoldable pub process_request :
    Call → Bool → ClientData → Daemon → Result HandlerError (Option Bytes) × Daemon
unfolding run
process_request call timed_out no_json d = (err undecodable_request, d)
process_request call timed_out (call_of (text cmd) (some name)) d =
    let (r, d') = run call cmd name d in (if timed_out then err process_timeout else r, d')
process_request call timed_out (call_of _ _) d = (err (value_error panics), d)
