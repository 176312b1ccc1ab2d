-- ===== src/Storage/Examples.antt =====
-- Concrete runs of storage/leveldb/leveldb.go and storage/zk/util.go.
use dove.Base.{refl, true, false, none, [], ◌∷◌, Bytes, codes, nat_eq, bytes_eq, contains}
use dove.Base.Text.{trim_left, trim_right}
use dove.Storage.Disk.{Disk, Handle}
use dove.Storage.Paths.{IsName}

abbrev disk : Disk
disk = record { entries = []; is_closed = false; locked = false; opens = [] }

abbrev closed_disk : Disk
closed_disk = record { entries = []; is_closed = true; locked = false; opens = false ∷ [] }

abbrev mysql_host : Bytes
mysql_host = codes "mysql.host"

abbrev handle : Handle
handle = record { db = none; initialized = true }

mysql_host-IsName : IsName mysql_host
unfolding contains trim_left trim_right
mysql_host-IsName = record {
  not_empty = λ e. cc;
  no_slash = refl;
  left_lem = refl;
  right_lem = refl;
}
