-- ===== src/Lib.antt =====
-- A model of dove, a daemon that compiles the configuration files of projects from schema files. The
-- values of the settings in a schema come from a configuration server, which the daemon watches; it
-- keeps them in memory and in a local database, runs callbacks behind an update, and serves them to
-- the clients of a socket.
--
-- Parts, and the files that model them:
-- - Base: numbers, tests, lists, keys and dictionaries, text and decimals, results. A Go string or
--   byte slice is its list of bytes; a Go map is an association list, in the order of `range`.
-- - Util: util/utils.go: slices of strings (Util), TOML values as JSON (Util.Json, Util.Json.Quote).
-- - Encrypt: encrypt/encrypt.go: padding and both directions; the block cipher is an argument with
--   the laws of its documentation (IsBlockMode).
-- - Storage: storage/mem.go (Storage), storage/leveldb (Storage.Disk: Conn.Get, Conn.Put, GetDb),
--   storage/zk/ (Storage.Paths: CN2P, P2CN; Storage.Etcd: storage.go, MyMonitorNode).
-- - Projconfig: projconfig/: the lock on the fetch (FetchLock), the disk (Local), the answers of the
--   server (Server, Base64), GetConfig (Config), the debug files (Debug).
-- - Schema: configschema/configschema.go: schema files, their placeholders, items and root nodes.
-- - Callbacks: callbacks/callback.go: pending files and nodes, the choice of scripts, ClearApc,
--   initClearApc and the reload of the PHP server (Reload).
-- - Fcgi: callbacks/fcgiclient/fcgiclient.go: sizes, records, name-value pairs, requests.
-- - Settings: config/: the settings file (Settings, Settings.Parse, Settings.Typed:
--   ParseExtraConfig, DecodeSetting), LookupOsUidGid (Settings.Ids), the environment of a server
--   (Settings.Server: initZkConfigByServer), Setup (Settings.Setup).
-- - Watcher: configwatcher/: the lock of the updates (UpdateLock), GetNewValueOfConfig (NewValue),
--   updateProjectConfigByRootNode (Update), updateProjectConfigBySchemafile (SchemaUpdate), registered
--   and watched nodes (Nodes), gc_watcher.go (Gc), zk_recheck.go (Recheck), local_watcher.go (Local),
--   compile, compileSchemaFile and compileTomlFile (Compile, Compile.Toml), registerMonitor and
--   saveUpdateResults (Monitor), the locks of the callbacks and the reports (Debounce),
--   invokeCallbacks and invokeCallbackScripts (Invoke), the loop of watchItem (Watching), Start (Start).
-- - Daemon: doveclient.go (Daemon, Daemon.Start), main.go (Daemon.Main), proc/proc_control.go: signals,
--   the restart and the pid file (Daemon.Signals).
-- - Logger: logger/logger.go: the loggers, and the files they write to.
-- - Connection: connection/: responses, requests, the loop of a connection (Serve), the signal to
--   stop (Shutdown), the server with its count of connections (Server), statistics.go (Statistics, and
--   Console for its console).
-- - Handler: handler/: the dispatch of a request, and GetProjectConfig.Process.
--
-- How they interact: Handler calls Watcher.Nodes, Projconfig.Config and Watcher.NewValue;
-- Watcher.Update calls Schema, Watcher.NewValue, Storage, Callbacks and Watcher.Recheck, and takes
-- the compilation of a file as an argument, for which Watcher.Compile models the code;
-- Projconfig.Local calls Encrypt and Storage.Disk; Connection.Serve takes the processing of a request
-- as an argument; Watcher.Monitor calls Storage.Etcd; Watcher.Invoke calls Callbacks;
-- Watcher.Start calls Watcher.Nodes,
-- Schema and Watcher.Update; Daemon.Signals calls Connection.Server.
--
-- State is passed explicitly: an operation takes a record of the package's variables and returns it
-- with its result. A package variable behind a lock makes each operation one step; where the order
-- of goroutines matters (UpdateLock, FetchLock, Recheck, Shutdown, Server), a data type Run lists every step
-- that any of them may take, and a theorem holds for every run; SendSignal is a step for each message,
-- in a channel of 100 places. Errors are values; a Go panic is an
-- error of its own, or `none`, behind which nothing runs. A goroutine watchItem that got the
-- directive to stop hangs, and is kept in `stuck` until another one enters its item. The environment is an argument: how writes end (Conn,
-- Wire), in what segments bytes arrive (Segment), how attempts to open the database end (opens), what
-- the server answers (Reply).
--
-- Bounds and fuel: FastCGI numbers wrap as uint8, uint16 and uint32 do, with the `%` written out. The
-- rounds of `stream_write` are at most the length of what is written, and those of `find_all` at most
-- the length of the text, since each takes a byte; the attempts to open the database are the 180 of
-- the source. Times are seconds as natural numbers, and the differences that the source compares with
-- a positive bound are cut at 0. Text functions of Go are those on ASCII.
--
-- Not modelled: in Settings, the branches for Windows, changes of owners, and the secret settings, which
-- the build generates; the formats of times, of log lines and of the answers of the console; the backup
-- instance of doveclient.go, which nothing starts; scripts and trial programs; vendored packages, which
-- are arguments where they are called.
pub mod Base
pub mod Callbacks
pub mod Connection
pub mod Daemon
pub mod Encrypt
pub mod Fcgi
pub mod Handler
pub mod Logger
pub mod Projconfig
pub mod Schema
pub mod Settings
pub mod Storage
pub mod Util
pub mod Watcher
