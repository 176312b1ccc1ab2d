-- ===== src/Daemon.antt =====
-- The process of the client: main.go, doveclient.go, and the pid file of proc/proc_control.go.
pub mod Start
pub mod Main
pub mod Signals
mod Examples
use dove.Base.{
  ℕ, ◌+◌, Bool, true, false, not, ◌&&◌, Option, none, some, if◌then◌else◌, nat_eq, bytes_eq,
}

pub data Signal : Type 0 where
  sigquit sigusr2 sig0 : Signal

-- What the system does at a time, in seconds: the pid file is read and its number parsed, a process is
-- looked for, a signal is sent to it. `own_pid` is os.Getpid().
pub record Os : Type 0 where
  pub own_pid : ℕ
  pub get_pid : ℕ → Option ℕ
  pub find_process : ℕ → ℕ → Bool
  pub signal : ℕ → Signal → ℕ → Bool

pub data Status : Type 0 where
  failed stopped running : Status

-- The status, and whether there is an error with it.
unfoldable pub status : Os → ℕ → Status × Bool
status os now = elim (os.get_pid now) [
  | none ↦ (failed, true)
  | some pid ↦
      if not (os.find_process now pid)
      then (failed, true)
      else if os.signal now sig0 pid
      then (running, false)
      else (stopped, false)
]

-- The process that the signal to quit is sent to, if there is one.
unfoldable pub stop_client : Os → ℕ → Bool → Option ℕ
stop_client os now run_as_bi =
    let pid : Option ℕ = if run_as_bi then some os.own_pid else os.get_pid now in
    elim pid [ none ↦ none | some p ↦ if os.find_process now p then some p else none ]

-- A process with the pid of the file gets the signal at the time.
signalled : Os → ℕ → Signal → Bool
signalled os now sig = elim (os.get_pid now) [
  | none ↦ false
  | some pid ↦ os.find_process now pid && os.signal now sig pid
]

-- The signal to restart is sent, and the pid file is looked at again after 3 seconds.
unfoldable pub restart : Os → ℕ → Bool
unfolding signalled
restart os now = signalled os now sigusr2 && signalled os (now + 3) sig0
