-- ===== src/Watcher/NewValue/Laws.antt =====
-- What the results of `GetNewValueOfConfig` of configwatcher/zk_watcher.go mean.
use dove.Base.{nat_eq, bytes_eq}
