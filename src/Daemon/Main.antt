-- ===== src/Daemon/Main.antt =====
-- The command line of the client: main of main.go.
use dove.Base.{
  ℕ, ◌≡◌, Bool, true, false, not, ◌&&◌, ◌||◌, Option, none, some, List, [], ◌∷◌, if◌then◌else◌,
  ◌==◌, Bytes, codes, nat_eq, bytes_eq,
}
use dove.Daemon.{Status, running, stopped, failed}

-- The flags that are set, and the commands behind them.
pub record Args : Type 0 where
  pub show_help : Bool
  pub show_version : Bool
  pub run_bi : Bool
  pub run_as_bi : Bool
  pub run_as_daemon : Bool
  pub detach : Bool
  pub cmds : List Bytes

-- How the parts end that main calls.
pub record Parts : Type 0 where
  pub setup_ok : Bool
  pub init_callbacks_ok : Bool
  pub daemon_ok : Bool
  pub restart_ok : Bool
  pub status : Status
  pub restart_env : Bool
  pub save_pid_ok : Bool
  pub watcher_ok : Bool
  pub server_ok : Bool

-- What main does at last: it leaves with a code, or it runs the client, with or without the watcher,
-- to its end, with or without an error.
pub data End : Type 0 where
  exit : ℕ → End
  no_watcher_error : End
  served : Bool → Bool → End

-- One command at most.
unfoldable pub command_of : List Bytes → Option Bytes
command_of [] = some []
command_of (cmd ∷ []) = some cmd
command_of (a ∷ b ∷ cmds) = none

-- The watcher runs unless this is a backup instance.
start_client : Args → Parts → End
start_client args parts =
    if args.run_as_bi
    then served false parts.server_ok
    else if parts.watcher_ok
    then served true parts.server_ok
    else no_watcher_error

is_running : Status → Bool
is_running running = true
is_running failed = false
is_running stopped = false

-- There may be two processes only in a restart.
serve : Args → Parts → End
unfolding start_client is_running
serve args parts =
    let is_running : Bool = elim parts.status [
      | running ↦ true
      | failed ↦ false
      | stopped ↦ false
    ] in
    if is_running && not parts.restart_env
    then exit 1
    else if not parts.save_pid_ok
    then exit 1
    else start_client args parts

run_command : Bytes → Args → Parts → End
unfolding serve
run_command cmd args parts =
    if cmd == codes "restart"
    then (if parts.restart_ok then exit 0 else exit 1)
    else if cmd == codes "stop"
    then exit 0
    else if cmd == codes "status"
    then exit 0
    else if cmd == codes "reload"
    then exit 0
    else serve args parts

unfoldable pub run_as_daemon_of : Args → Bytes → Bool
run_as_daemon_of args cmd = args.run_as_daemon || (args.detach || cmd == codes "start")

set_up : Bytes → Args → Parts → End
unfolding run_command run_as_daemon_of
set_up cmd args parts =
    if not (parts.setup_ok && parts.init_callbacks_ok)
    then exit 2
    else if run_as_daemon_of args cmd || args.run_bi
    then (if parts.daemon_ok then exit 0 else exit 1)
    else run_command cmd args parts

unfoldable pub main : Args → Parts → End
unfolding command_of set_up
main args parts =
    if args.show_version
    then exit 0
    else if args.show_help
    then exit 0
    else elim (command_of args.cmds) [ none ↦ exit 1 | some cmd ↦ set_up cmd args parts ]

-- What holds when the client is run: nobody else is, or this is a restart.
pub record IsAlone (args : Args) (parts : Parts) (watches : Bool) : Type 0 where
  pub set_up_lem : (parts.setup_ok && parts.init_callbacks_ok) ≡ true
  pub cmd : Bytes
  pub command_lem : command_of args.cmds ≡ some cmd
  pub not_detached : (args.run_as_daemon || (args.detach || args.run_bi)) ≡ false
  pub not_asked :
      (cmd == codes "start")
        || ((cmd == codes "restart" || cmd == codes "stop")
            || (cmd == codes "status" || cmd == codes "reload"))
      ≡ false
  pub not_running : parts.status ≡ running → parts.restart_env ≡ true
  pub pid_saved : parts.save_pid_ok ≡ true
  pub watches_lem : watches ≡ not args.run_as_bi
