-- ===== src/Daemon/Signals.antt =====
-- The signals that the running client handles, and its pid file: ProcessSysSignal, SafeStop, Stop,
-- SavePid, RemovePid and GetPid of proc/proc_control.go. How the calls of the system end is an argument.
use dove.Base.{
  ℕ, ◌^◌, ◌<◌, ◌≡◌, refl, ap, ◌∙◌, Bool, true, false, not, ◌&&◌, ◌||◌, Option, none, some, List, [],
  ◌∷◌, arith, if◌then◌else◌, All, ◌==◌, Bytes, nat_eq, bytes_eq, beq_refl, contains,
}
use dove.Base.Dict.{Dict, lookup, insert, delete, lookup-insert}
use dove.Base.Text.{trim_space, trim_right, space_bytes}
use dove.Base.Split.{trim-IsTrimmed}
use dove.Base.Decimal.{ℤ, pos, itoa, atoi, IsDigit, itoa-IsDigit, atoi-itoa}
use dove.Connection.Server.{stop_pprof, stop_console}

pub data SysSignal : Type 0 where
  sigquit sigterm sigint sigalrm sigusr1 sighup sigusr2 other : SysSignal

-- The settings, and which files the system lets the process remove.
pub record Settings : Type 0 where
  pub run_as_bi : Bool
  pub listen_addr : Bytes
  pub listen_addr_transi : Bytes
  pub pid_file : Bytes
  pub removes : Bytes → Bool

-- Whether the process goes on: `replaced` is the end of a restart.
pub data Leaving : Type 0 where
  stays stopped replaced : Leaving

-- `pprof` and `console` are the listeners that are kept.
pub record Process : Type 0 where
  pub files : Dict Bytes Bytes
  pub serves : Bool
  pub storage_open : Bool
  pub pprof : Bool
  pub console : Bool
  pub debug : Bool
  pub leaving : Leaving

-- How a restart goes: the descriptor of the listener, the two closes, the start of the new process, and
-- after two seconds whether it is found and takes a signal.
pub record Restart : Type 0 where
  pub fd_ok : Bool
  pub pprof_closes : Bool
  pub console_closes : Bool
  pub starts : Bool
  pub found : Bool
  pub alive : Bool

unfoldable pub safe_stop : Process → Process
safe_stop p = record p { serves = false; storage_open = false }

-- os.Remove, whose error is not looked at.
unfoldable pub remove : Settings → Bytes → Dict Bytes Bytes → Dict Bytes Bytes
remove c name files = if c.removes name then delete name files else files

unfoldable pub remove_pid : Settings → Dict Bytes Bytes → Dict Bytes Bytes
unfolding remove
remove_pid c files = remove c c.pid_file files

unfoldable pub listened : Settings → Bytes
listened c = if c.run_as_bi then c.listen_addr_transi else c.listen_addr

unfoldable pub stop : Settings → Process → Process
unfolding safe_stop
stop c p =
    let p' = safe_stop p in record p' { files = remove_pid c (remove c (listened c) p.files) }

-- `failure` is what a write that fails leaves in the file.
unfoldable pub save_pid : Settings → ℕ → Option Bytes → Dict Bytes Bytes → Bool × Dict Bytes Bytes
save_pid c pid failure files = elim failure [
  | none ↦ (true, insert c.pid_file (itoa pid) files)
  | some left ↦ (false, insert c.pid_file left files)
]

unfoldable pub get_pid : Settings → Dict Bytes Bytes → Option ℤ
get_pid c files = elim (lookup c.pid_file files) [ none ↦ none | some s ↦ atoi (trim_space s) ]

-- The handler of SIGUSR2.
unfoldable pub restarted : Restart → Process → Process
unfolding safe_stop
restarted r p =
    if not r.fd_ok
    then p
    else (let p' : Process = record p {
      pprof = stop_pprof r.pprof_closes p.pprof;
      console = stop_console r.console_closes p.console;
    } in
        let gone = safe_stop p' in
        if not r.starts
        then p'
        else if not r.found
        then p'
        else if not r.alive
        then p'
        else record gone { leaving = replaced })

unfoldable pub on_signal : Settings → SysSignal → Restart → Process → Process
unfolding stop restarted
on_signal c sig r p =
    let p' = stop c p in
    let quit : Process = record p' { leaving = stopped } in
    elim sig [
      | sigquit ↦ quit
      | sigterm ↦ quit
      | sigint ↦ quit
      | sigalrm ↦ p
      | sigusr1 ↦ p
      | sighup ↦ record p { debug = not p.debug }
      | sigusr2 ↦ restarted r p
      | other ↦ p
    ]

-- What comes behind a signal: the rest only if the process stays.
abbrev behind : Leaving → Process → Process → Process
behind stays p rest = rest
behind stopped p rest = p
behind replaced p rest = p

-- The signals, up to the one behind which Wait returns.
unfoldable pub run_signals : Settings → List (SysSignal × Restart) → Process → Process
run_signals c [] p = p
run_signals c ((sig, r) ∷ more) p =
    let p' = on_signal c sig r p in let rest = run_signals c more p' in behind p'.leaving p' rest

-- What is there of a client that was `before`: it serves all requests with its files as they are, and has
-- no other listeners than before; or it has stopped, and of all files only its socket and its pid file are
-- removed, each if the system lets it; or it has stopped for a new process, and the files are left to that
-- one.
abbrev pub HandledAs : Settings → Process → Leaving → Process → Type 0
HandledAs c before stays q =
    (q.serves ≡ before.serves)
    × (q.storage_open ≡ before.storage_open)
    × (q.files ≡ before.files)
    × ((q.pprof && not before.pprof) ≡ false)
    × ((q.console && not before.console) ≡ false)
HandledAs c before stopped q =
    (q.serves ≡ false)
    × (q.storage_open ≡ false)
    × ((name : Bytes)
        → lookup name q.files ≡ (
            if (c.pid_file == name || listened c == name) && c.removes name
            then none
            else lookup name before.files))
HandledAs c before replaced q =
    (q.serves ≡ false) × (q.storage_open ≡ false) × (q.files ≡ before.files)

abbrev pub IsHandled : Settings → Process → Process → Type 0
IsHandled c before q = HandledAs c before q.leaving q

digit_not_space : (c : ℕ) → IsDigit c → contains space_bytes c ≡ false
unfolding contains
digit_not_space c d = ground (arith, d)

trim_right-digits : (s : Bytes) → All IsDigit s → trim_right s space_bytes ≡ s
unfolding trim_right
trim_right-digits [] d = refl
trim_right-digits (c ∷ []) d = rw (digit_not_space c d.0) refl
trim_right-digits (c ∷ e ∷ s) d = rw (trim_right-digits (e ∷ s) d.1) refl

trim_space-digits : (s : Bytes) → All IsDigit s → trim_space s ≡ s
unfolding trim_space
trim_space-digits [] d = refl
trim_space-digits (c ∷ s) d =
    trim-IsTrimmed (c ∷ s) space_bytes (digit_not_space c d.0, trim_right-digits (c ∷ s) d)

-- The pid that is written to the pid file is read back.
get_pid-save_pid :
    (c : Settings) (pid : ℕ) (files : Dict Bytes Bytes)
    → pid < 2 ^ 63
    → get_pid c (save_pid c pid none files).1 ≡ some (pos pid)
unfolding get_pid save_pid
get_pid-save_pid c pid files h =
    rw (get_pid, lookup-insert c.pid_file c.pid_file (itoa pid) files, beq_refl c.pid_file)
      (ap atoi (trim_space-digits (itoa pid) (itoa-IsDigit pid)) ∙ atoi-itoa pid h)
