-- ===== src/Connection/Console.antt =====
-- The console: startConsole and sendStatsToConsole of connection/statistics.go.
pub mod Reads
pub mod Lines
use dove.Base.{
  ℕ, zero, suc, ◌+◌, ◌-◌, Bool, true, false, not, ◌&&◌, ◌||◌, List, [], ◌∷◌, ◌++◌, leb, nat_beq,
  if◌then◌else◌, length, take, drop, replicate, ◌==◌, Bytes, codes, nat_eq, bytes_eq,
}
use dove.Base.Dict.{keys, lookup}
use dove.Base.Decimal.{itoa}
use dove.Base.Text.{trim_right, to_lower}
use dove.Connection.Statistics.{Segment, Segments, segment_or_new}

pub data Command : Type 0 where
  nothing stats statsz quit help : Command
  invalid : Bytes → Command

-- strings.ToLower(cmd); the cases with capitals are never met.
unfoldable pub command_of : Bytes → Command
command_of cmd =
    let c : Bytes = to_lower cmd in
    if c == []
    then nothing
    else if c == codes "stats"
    then stats
    else if c == codes "statsz"
    then statsz
    else if c == codes "quit" || (c == codes "exit" || c == codes "close")
    then quit
    else if c == codes "help"
    then help
    else invalid cmd

-- The buffer of a connection, how much of it was read, and whether the last byte that was looked at is a
-- carriage return.
pub record Console : Type 0 where
  pub cmd : Bytes
  pub start : ℕ
  pub has_enter : Bool

abbrev pub capacity : ℕ
capacity = 51

abbrev pub empty_cmd : Bytes
empty_cmd = replicate capacity 0

abbrev pub fresh : Console
fresh = record { cmd = empty_cmd; start = 0; has_enter = false }

-- The bytes of the buffer that are looked at behind a read of `n`, which are the first `n` of them; the
-- result says whether the last of these ends a command.
unfoldable pub scan : ℕ → Bytes → Bool → Bool × Bool
scan zero cmd has_enter = (has_enter, false)
scan (suc n) [] has_enter = (has_enter, false)
scan (suc n) (c ∷ cmd) has_enter =
    let last : Bool = nat_beq n 0 in
    if nat_beq c b'\r'
    then scan n cmd true
    else if nat_beq c b'\n' && (has_enter && last)
    then (true, true)
    else scan n cmd false

-- What a read leads to: the next read, a command with the state behind it, or the end.
pub data ReadEnd : Type 0 where
  reads : Console → ReadEnd
  command : Command → ReadEnd
  too_long : ReadEnd

unfoldable pub console_read : Bytes → Console → ReadEnd
unfolding scan
console_read got s =
    let n = length got in
    let cmd : Bytes = take s.start s.cmd ++ (got ++ drop (s.start + n) s.cmd) in
    let (has_enter, is_over) = scan n cmd s.has_enter in
    if is_over
    then command (command_of (trim_right cmd (codes "\r\n" ++ 0 ∷ [])))
    else if leb 50 (s.start + n)
    then too_long
    else reads (record { cmd = cmd; start = s.start + n; has_enter = has_enter })

-- Behind `statsz` the connection is closed as well, so that the next read fails.
unfoldable pub ends_conn : Command → Bool
ends_conn quit = true
ends_conn statsz = true
ends_conn _ = false

-- The reads of a connection, each of which gives at most what there is room for; the commands that
-- are run, and whether the server closes the connection.
unfoldable pub console_loop : List Bytes → Console → List Command × Bool
unfolding console_read ends_conn
console_loop [] s = ([], false)
console_loop (got ∷ more) s = elim (console_read (take (capacity - s.start) got) s) [
  | reads t ↦ console_loop more t
  | too_long ↦ ([], true)
  | command c ↦
      let (cs, closed) = console_loop more fresh in
      elim (ends_conn c) [ true ↦ (c ∷ [], true) | false ↦ (c ∷ cs, closed) ]
]

insert_int : ℕ → List ℕ → List ℕ
insert_int n [] = n ∷ []
insert_int n (m ∷ ms) = if leb n m then n ∷ (m ∷ ms) else m ∷ insert_int n ms

unfoldable pub sort_ints : List ℕ → List ℕ
unfolding insert_int
sort_ints [] = []
sort_ints (n ∷ ns) = insert_int n (sort_ints ns)

-- The statistics as text; the formats of a time and of the counters of a minute are arguments.
module _ (rfc3339 : ℕ → Bytes) (json_indent json : Segment → Bytes) where
  minutes_text : List ℕ → Segments → Bytes
  minutes_text [] segs = []
  minutes_text (index ∷ rest) segs =
      rfc3339 index
      ++ (codes "\n"
          ++ (json_indent (segment_or_new (lookup index segs))
              ++ (codes "\n\n\n" ++ minutes_text rest segs)))

  -- What is compressed: one JSON object.
  entries_text : List ℕ → Segments → Bytes
  entries_text [] segs = []
  entries_text (index ∷ rest) segs =
      codes "\""
      ++ (itoa index
          ++ (codes "\": "
              ++ (json (segment_or_new (lookup index segs))
                  ++ ((if rest == [] then [] else codes ",") ++ entries_text rest segs))))

  -- The text, and whether the connection is closed behind it.
  unfoldable pub send_stats_to_console : Bool → Segments → Bytes × Bool
  unfolding sort_ints minutes_text entries_text
  send_stats_to_console compressed segs =
      let keys_int = sort_ints (keys segs) in
      if not compressed
      then (minutes_text keys_int segs, false)
      else (codes "{" ++ (entries_text keys_int segs ++ codes "}"), true)
