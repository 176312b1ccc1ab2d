-- ===== src/Watcher/Local.antt =====
-- The watcher of the local files: configwatcher/local_watcher.go.
pub mod Retry
pub mod Twice
mod Examples
use dove.Base.{
  ℕ, zero, suc, ◌+◌, ◌-◌, Bool, not, ◌&&◌, ◌||◌, Option, List, [], ◌∷◌, ◌++◌, leb, nat_beq,
  if◌then◌else◌, length, take, drop, ◌==◌, Bytes, codes, nat_eq, bytes_eq,
}
use dove.Base.Text.{split, has_suffix, join}
use dove.Util.{in_array_string}
use dove.Schema.{DirEntry, SchemaFile, is_schema_file, get_schema_files_by_dir}

-- A slice of the package's variable `failedDirs`: its elements, and what its array holds before and
-- behind them. The array is shared by the slices that are cut from one another.
pub record Slice : Type 0 where
  pub before : List Bytes
  pub elements : List Bytes
  pub after : List Bytes

unfoldable pub array : Slice → List Bytes
array s = s.before ++ (s.elements ++ s.after)

-- There is room behind the elements, or the elements are copied: what is before them is not used.
unfoldable pub append_faild_dirs : Bytes → Slice → Slice
unfolding in_array_string
append_faild_dirs f_dir s =
    if in_array_string s.elements f_dir
    then s
    else record s { elements = s.elements ++ f_dir ∷ []; after = drop 1 s.after }

pub last_of : Bytes → List Bytes → Bytes
last_of x [] = x
last_of x (y ∷ ys) = last_of y ys

-- `failedDirs = util.DelInArrayString(&failedDirs, index)`: the elements behind the index move by one
-- place within the array, and the last one stays there behind the new slice.
unfoldable pub del_in_slice : ℕ → Slice → Slice
unfolding last_of
del_in_slice index s = elim s.elements [
  | [] ↦ s
  | x ∷ xs ↦
      if leb (length (x ∷ xs)) index
      then s
      else if nat_beq index 0
      then record s { before = s.before ++ x ∷ []; elements = xs }
      else record s {
        elements = take index (x ∷ xs) ++ drop (suc index) (x ∷ xs);
        after = last_of x xs ∷ s.after;
      }
]

unfoldable pub read_at : ℕ → List Bytes → Bytes
read_at i xs = elim (drop i xs) [ [] ↦ [] | x ∷ _ ↦ x ]

-- `for n, fDir := range failedDirs`: the slice to range over, of which `rounds` elements are left, is
-- evaluated once, so that its elements are read from the array behind `start`. The argument says
-- whether a directory is there and can be added to the watcher; the directories that were added come
-- back.
unfoldable pub retry_loop : (Bytes → Bool) → ℕ → ℕ → ℕ → Slice → List Bytes × Slice
unfolding read_at array
retry_loop addable zero n start s = ([], s)
retry_loop addable (suc rounds) n start s =
    let f_dir = read_at (start + n) (array s) in
    let (added, s') =
      retry_loop addable rounds (n + 1) start (if addable f_dir then del_in_slice n s else s) in
    (if addable f_dir then f_dir ∷ added else added, s')

paths_of : List SchemaFile → List Bytes
paths_of [] = []
paths_of (f ∷ files) = f.path ∷ paths_of files

pub updates_of : (Bytes → Option (List DirEntry)) → List Bytes → List Bytes
unfolding paths_of
updates_of entries [] = []
updates_of entries (dir ∷ dirs) =
    paths_of (get_schema_files_by_dir dir (entries dir)) ++ updates_of entries dirs

-- What the operating system answers: which names there are, which directories the watcher takes, and
-- what a directory holds.
pub record System : Type 0 where
  pub exists : Bytes → Bool
  pub watchable : Bytes → Bool
  pub entries : Bytes → Option (List DirEntry)

abbrev pub addable : System → Bytes → Bool
addable sys dir = sys.exists dir && sys.watchable dir

-- One round under the lock: the directories that were added, the schema files that are updated by a
-- goroutine each, and the directories that are left.
unfoldable pub retry_add_faild_dirs : System → Slice → List Bytes × List Bytes × Slice
unfolding retry_loop updates_of
retry_add_faild_dirs sys s =
    let (added, s') = retry_loop (addable sys) (length s.elements) 0 (length s.before) s in
    (added, updates_of sys.entries added, s')

-- What is watched, and what is not and is tried again.
pub record Local : Type 0 where
  pub watched : List Bytes
  pub failed_dirs : Slice

-- The attempts to make a watcher are repeated until one succeeds. Each directory of the settings is
-- added to it, or tried again later.
unfoldable pub watch_debug_or_schemafiles : System → List Bytes → Local → Local
unfolding append_faild_dirs
watch_debug_or_schemafiles sys [] l = l
watch_debug_or_schemafiles sys (dir ∷ dirs) l = watch_debug_or_schemafiles sys dirs (
    if sys.watchable dir
    then record l { watched = l.watched ++ dir ∷ [] }
    else record l { failed_dirs = append_faild_dirs dir l.failed_dirs })

-- An event may tell of several operations at once: its value is then none of the others.
pub data FileOp : Type 0 where
  create write rename remove chmod several : FileOp

pub data Start : Type 0 where
  no_update : Start
  update_all : Start
  update_schemafile : Bytes → Start

-- The directory and the name of a path below a directory other than the root, with no slash in excess.
split_path : List Bytes → List Bytes × Bytes
split_path [] = ([], [])
split_path (w ∷ ws) = elim ws [
  | [] ↦ ([], w)
  | v ∷ r ↦ let (dirs, name) = split_path ws in (w ∷ dirs, name)
]

unfoldable pub dir_of : Bytes → Bytes
unfolding split_path
dir_of path = join (split_path (split path b'/')).0 (codes "/")

unfoldable pub base_of : Bytes → Bytes
unfolding split_path
base_of path = (split_path (split path b'/')).1

trim_suffix : Bytes → Bytes → Bytes
trim_suffix s suffix = if has_suffix s suffix then take (length s - length suffix) s else s

without : Bytes → List Bytes → List Bytes
without x [] = []
without x (y ∷ ys) = if y == x then without x ys else y ∷ without x ys

-- `strings.TrimSuffix` cuts the suffix `\/` as a whole, not a slash.
rewatch_deleted : Bytes → List Bytes → Local → Local
unfolding trim_suffix without append_faild_dirs
rewatch_deleted f_dir [] l = l
rewatch_deleted f_dir (dir ∷ dirs) l = rewatch_deleted f_dir dirs (
    if trim_suffix dir (codes "\\/") == trim_suffix f_dir (codes "\\/")
    then record l {
      watched = without f_dir l.watched;
      failed_dirs = append_faild_dirs f_dir l.failed_dirs;
    }
    else l)

starts_all : FileOp → Start
starts_all create = update_all
starts_all write = update_all
starts_all rename = update_all
starts_all remove = no_update
starts_all chmod = no_update
starts_all several = no_update

starts_schemafile : Bytes → FileOp → Start
starts_schemafile name create = update_schemafile name
starts_schemafile name write = update_schemafile name
starts_schemafile name rename = no_update
starts_schemafile name remove = no_update
starts_schemafile name chmod = no_update
starts_schemafile name several = no_update

-- One event of the watcher: the directory of a file that is gone is tried again, and a change of a
-- debug file or a schema file starts an update.
unfoldable pub loop_watch_event :
    System → Bool → Bytes → List Bytes → Bytes → FileOp → Local → Start × Local
unfolding rewatch_deleted starts_all starts_schemafile base_of dir_of is_schema_file
loop_watch_event sys dev_mode debug_filename config_dir name op l =
    let l' : Local =
      if not (sys.exists name)
        && (has_suffix name (codes ".php") || has_suffix name (codes ".toml"))
      then rewatch_deleted (dir_of name) config_dir l
      else l in
    (
      if dev_mode && (base_of name == debug_filename)
          then starts_all op
          else if is_schema_file name
          then starts_schemafile name op
          else no_update,
      l',
    )
