-- ===== src/Storage.antt =====
-- Where the values are kept: in memory (storage/mem.go), on disk (storage/leveldb), and under which
-- paths on the configuration server (storage/zk/util.go).
pub mod Disk
pub mod Etcd
pub mod Paths
mod Examples
use dove.Base.{Option, none, some, Bytes, nat_eq, bytes_eq}
use dove.Base.Dict.{Dict, lookup, insert}

-- The package's variables; a value in memory is JSON, and `none` is a nil slice. The lock makes each
-- operation one step.
pub record Memory : Type 0 where
  pub project_configs : Dict Bytes (Option Bytes)
  pub raw_config : Dict Bytes Bytes

-- A name that is not there gives nil, as one whose value is nil.
unfoldable pub get_from_mem : Bytes → Memory → Option Bytes
get_from_mem name m = elim (lookup name m.project_configs) [ none ↦ none | some d ↦ d ]

unfoldable pub store_to_mem : Bytes → Option Bytes → Memory → Memory
store_to_mem name d m = record m { project_configs = insert name d m.project_configs }

unfoldable pub save_raw_config : Bytes → Bytes → Memory → Memory
save_raw_config name value m = record m { raw_config = insert name value m.raw_config }

unfoldable pub get_raw_config : Bytes → Memory → Option Bytes
get_raw_config name m = lookup name m.raw_config
