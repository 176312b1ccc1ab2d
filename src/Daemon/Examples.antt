-- ===== src/Daemon/Examples.antt =====
-- Concrete starts of the client.
use dove.Base.{
  ◌-◌, ◌/◌, ◌≡◌, refl, true, false, ◌&&◌, none, some, List, [], ◌∷◌, ◌==◌, codes, bytes_beq, nat_eq,
  bytes_eq, contains,
}
use dove.Daemon.{Os, restart, stopped}
use dove.Base.{
  ◌-◌, ◌/◌, ◌≡◌, refl, true, false, ◌&&◌, none, some, List, [], ◌∷◌, ◌==◌, codes, bytes_beq, nat_eq,
  bytes_eq, contains,
}
use dove.Base.Dict.{delete}
use dove.Connection.Server.{stop_pprof, stop_console}
use dove.Daemon.Signals.{
  on_signal, restarted, stop, safe_stop, remove_pid, remove, listened, SysSignal, sigquit, sighup,
  sigusr2, Settings, Process, Restart, stays, stopped, replaced, run_signals,
}
use dove.Daemon.Main.{Args, Parts}
use dove.Daemon.Start.{
  shell_command, Poll, start_daemon_instance, start_daemon_instance_lem, found_alive, first_found,
}

abbrev stale : Poll
stale = record { pid = some 7; find_process = λ p. true; is_alive = λ p. p == 9 }

abbrev fresh : Poll
fresh = record { pid = some 9; find_process = λ p. true; is_alive = λ p. p == 9 }

abbrev absent : Poll
absent = record { pid = none; find_process = λ p. true; is_alive = λ p. true }

-- The daemon runs from the second round on, and the start is a failure.
start_daemon_instance_lem_example :
    start_daemon_instance (stale ∷ fresh ∷ fresh ∷ []) true true
    ≡ (found_alive (first_found (stale ∷ fresh ∷ fresh ∷ [])) && (true && true))
start_daemon_instance_lem_example = start_daemon_instance_lem stale (fresh ∷ fresh ∷ []) true true

stale_run :
    (start_daemon_instance (stale ∷ fresh ∷ fresh ∷ []) true true ≡ false)
    × (start_daemon_instance (absent ∷ fresh ∷ []) true true ≡ true)
unfolding start_daemon_instance
stale_run = (refl, refl)

abbrev plain_args : Args
plain_args = record {
  show_help = false;
  show_version = false;
  run_bi = false;
  run_as_bi = false;
  run_as_daemon = false;
  detach = false;
  cmds = [];
}

abbrev after_crash : Parts
after_crash = record {
  setup_ok = true;
  init_callbacks_ok = true;
  daemon_ok = true;
  restart_ok = false;
  status = stopped;
  restart_env = false;
  save_pid_ok = true;
  watcher_ok = true;
  server_ok = true;
}

command_run :
    shell_command
      (codes "www")
      (codes "./dove")
      (codes "-d" ∷ codes "-c" ∷ codes "x.conf" ∷ codes "--detach=true" ∷ [])
    ≡ codes "sudo -u www ./dove -c x.conf --detach=true"
unfolding shell_command dove.Base.Text.join contains bytes_beq
command_run = refl

abbrev unchanged : Os
unchanged = record {
  own_pid = 1;
  get_pid = λ now. some 7;
  find_process = λ now p. true;
  signal = λ now sig p. true;
}

-- A process that did not restart: it still runs under the pid of the file.
restart_run : restart unchanged 0 ≡ true
unfolding restart
restart_run = refl

abbrev on_tcp : Settings
on_tcp = record {
  run_as_bi = false;
  listen_addr = codes "127.0.0.1:4510";
  listen_addr_transi = codes "127.0.0.1:4511";
  pid_file = codes "/var/run/dove.pid";
  removes = λ name. true;
}

abbrev up : Process
up = record {
  files = (codes "/var/run/dove.pid", codes "71") ∷ [];
  serves = true;
  storage_open = true;
  pprof = true;
  console = true;
  debug = false;
  leaving = stays;
}

abbrev well : Restart
well = record {
  fd_ok = true;
  pprof_closes = true;
  console_closes = true;
  starts = true;
  found = true;
  alive = true;
}

abbrev sent : List (SysSignal × Restart)
sent =
    (sighup, well)
    ∷ (sigusr2, record well { alive = false })
    ∷ (sigusr2, well)
    ∷ (sigquit, well)
    ∷ []

-- A restart that fails leaves the client without its console and its profiler.
failed_restart :
    run_signals on_tcp ((sigusr2, record well { starts = false }) ∷ []) up
    ≡ record up { pprof = false; console = false }
unfolding run_signals on_signal restarted stop_pprof stop_console
failed_restart = refl

replaced_run : run_signals on_tcp sent up ≡ record up {
  serves = false;
  storage_open = false;
  pprof = false;
  console = false;
  debug = true;
  leaving = replaced;
}
unfolding run_signals on_signal restarted safe_stop stop_pprof stop_console
replaced_run = refl

stopped_run : (run_signals on_tcp ((sigquit, well) ∷ sent) up).files ≡ []
unfolding run_signals on_signal stop remove_pid remove listened delete bytes_beq
stopped_run = refl
