-- ===== src/Daemon/Start.antt =====
-- The start of the daemon: StartDaemonInstance of doveclient.go.
use dove.Base.{
  ℕ, ◌≡◌, refl, ap, inl, inr, Bool, true, false, not, ◌&&◌, ◌||◌, Option, none, some, List, [], ◌∷◌,
  ◌++◌, map, if◌then◌else◌, Bool-cases, Option-cases, Bytes, codes, nat_eq, bytes_eq, contains,
}
use dove.Base.Text.{join}

abbrev detaching : List Bytes
detaching = map codes (
    "-d" ∷ "--d" ∷ "-d=true" ∷ "-detach" ∷ "--detach" ∷ "-detach=true" ∷ "restart" ∷ "start" ∷ "-bi"
    ∷ "--bi" ∷ [])

-- The arguments without those that would start a daemon again.
unfoldable pub origin_args : List Bytes → List Bytes
origin_args [] = []
origin_args (arg ∷ args) =
    let rest = origin_args args in if contains detaching arg then rest else arg ∷ rest

-- The command that the shell runs.
unfoldable pub shell_command : Bytes → Bytes → List Bytes → Bytes
unfolding origin_args
shell_command daemon_user program args =
    join ((codes "sudo -u " ++ (daemon_user ++ (codes " " ++ program))) ∷ origin_args args)
      (codes " ")

-- What one round of the loop finds: the pid file, the process, and whether it gets a signal.
pub record Poll : Type 0 where
  pub pid : Option ℕ
  pub find_process : ℕ → Bool
  pub is_alive : ℕ → Bool

pub data StartError : Type 0 where
  no_pid no_process not_alive : StartError

-- The process, where it is not known yet, and the error.
look : Poll → Option ℕ → Option StartError → Option ℕ × Option StartError
look p (some c_proc) e = (some c_proc, e)
look p none e = elim p.pid [
  | none ↦ (none, some no_pid)
  | some pid ↦ if p.find_process pid then (some pid, none) else (none, some no_process)
]

-- The rounds until the time is over: the error that is left, and whether the loop was left because
-- the process is alive. A process that has been found is not looked for again, nor is it sent the
-- signal again while the error of the last time is there.
unfoldable pub poll_loop : List Poll → Option ℕ → Option StartError → Option StartError × Bool
unfolding look
poll_loop [] c_proc e = (e, false)
poll_loop (p ∷ polls) c_proc e =
    let (c_proc', e') = look p c_proc e in
    elim e' [
      | some x ↦ poll_loop polls c_proc' (some x)
      | none ↦ elim c_proc' [
        | none ↦ poll_loop polls none none
        | some pid ↦
            let later = poll_loop polls (some pid) (some not_alive) in
            elim (p.is_alive pid) [ true ↦ (none, true) | false ↦ later ]
      ]
    ]

-- Whether the start is reported as a success. `cmd_ok`: the command has not failed by then;
-- `kill_ok`: the process of sudo could be killed.
reported : Bool → Bool → Option StartError × Bool → Bool
reported cmd_ok kill_ok (some x, left_alive) = false
reported cmd_ok kill_ok (none, left_alive) = cmd_ok && (not left_alive || kill_ok)

unfoldable pub start_daemon_instance : List Poll → Bool → Bool → Bool
unfolding poll_loop reported
start_daemon_instance polls cmd_ok kill_ok = reported cmd_ok kill_ok (poll_loop polls none none)

-- The first process that a round finds, and whether it is alive in that round.
abbrev pub first_found : List Poll → Option Bool
first_found [] = none
first_found (p ∷ polls) = elim p.pid [
  | none ↦ first_found polls
  | some pid ↦ if p.find_process pid then some (p.is_alive pid) else first_found polls
]

-- The verdict of the loop in one word.
abbrev pub found_alive : Option Bool → Bool
found_alive none = false
found_alive (some b) = b

stuck :
    (polls : List Poll) (pid : ℕ) (x : StartError)
    → poll_loop polls (some pid) (some x) ≡ (some x, false)
unfolding poll_loop look
stuck [] pid x = refl
stuck (p ∷ polls) pid x = stuck polls pid x

-- A round, with or without an error of the round before.
round :
    (p : Poll) (polls : List Poll) (e : Option StartError) (cmd_ok kill_ok : Bool)
    → (further : (x : StartError)
        → reported cmd_ok kill_ok (poll_loop polls none (some x))
          ≡ (found_alive (first_found polls) && (cmd_ok && kill_ok)))
    → reported cmd_ok kill_ok (poll_loop (p ∷ polls) none e)
      ≡ (found_alive (first_found (p ∷ polls)) && (cmd_ok && kill_ok))
unfolding poll_loop look reported
round p polls e cmd_ok kill_ok further = elim (Option-cases p.pid) [
  | inl n ↦ rw (n, poll_loop, n) (further no_pid)
  | inr (pid, f) ↦ elim (Bool-cases (p.find_process pid)) [
    | inr lost ↦ rw (f, lost, poll_loop, f, lost) (further no_process)
    | inl found ↦ elim (Bool-cases (p.is_alive pid)) [
      | inl alive ↦ rw (f, found, alive, poll_loop, f, found, alive) refl
      | inr dead ↦
          rw (f, found, dead, poll_loop, f, found, dead)
            (ap (reported cmd_ok kill_ok) (stuck polls pid not_alive))
    ]
  ]
]

rounds :
    (polls : List Poll) (x : StartError) (cmd_ok kill_ok : Bool)
    → reported cmd_ok kill_ok (poll_loop polls none (some x))
      ≡ (found_alive (first_found polls) && (cmd_ok && kill_ok))
unfolding poll_loop reported
rounds [] x cmd_ok kill_ok = refl
rounds (p ∷ polls) x cmd_ok kill_ok =
    round p polls (some x) cmd_ok kill_ok (λ y. rounds polls y cmd_ok kill_ok)

-- Start a daemon with at least one round of the loop. The start is a success exactly if the process
-- was alive in the first round in which the pid file named a process that was found, the command of
-- the start did not fail, and it could be killed. What later rounds find changes nothing: with the
-- pid file of a process that is gone in the first round, the start is reported as failed, although
-- the daemon may be running in every later one.
pub start_daemon_instance_lem :
    (p : Poll) (polls : List Poll) (cmd_ok kill_ok : Bool)
    → start_daemon_instance (p ∷ polls) cmd_ok kill_ok
      ≡ (found_alive (first_found (p ∷ polls)) && (cmd_ok && kill_ok))
unfolding start_daemon_instance
start_daemon_instance_lem p polls cmd_ok kill_ok =
    round p polls none cmd_ok kill_ok (λ y. rounds polls y cmd_ok kill_ok)
