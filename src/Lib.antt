-- ===== src/Lib.antt =====
-- FakeNotify makes inotify work on network file systems. A daemon polls directories and sends
-- inotify events to its clients over a Unix socket; a library that is preloaded into a program puts
-- its own functions in the place of libc's inotify functions and speaks to the daemon. The parts:
--
-- - Protocol.Event (crates/protocol/src/event.rs): `InotifyEvent` and `EventMask`. An event is a
--   record of 32-bit words, and its encoders make lists of bytes, on either byte order.
--   Protocol.Event.Layout is about one event, Protocol.Event.Stream about many in a row.
-- - Protocol.Message (crates/protocol/src/message.rs): `Request`, `Response` and `FramedMessage`.
--   bincode is a parameter, `Bincode`; what the code relies on, that a value comes back from its
--   bytes, is the hypothesis `IsFaithful`. Protocol.Message.Framing reads frames from a stream.
-- - Protocol.Socket (crates/protocol/src/socket.rs): `get_socket_path` and its variant.
-- - Daemon.State (crates/daemon/src/state.rs): `DaemonState`, with a function for each method. A
--   method holds its locks while it writes, so it is one step on the state; Daemon.State.Locks has
--   the locks that each method takes, in order, and threads that wait for them. `subscribes` is the
--   abstract view: which client is subscribed to which path. Daemon.State.Links, Release and
--   Invariant are the well-formedness of the tables, Steps the reachable states, Queries the
--   methods that only read, and Lookup the search for the watch of a path.
-- - Daemon.Watcher (crates/daemon/src/watcher.rs): `notify_to_inotify_mask` and `EventDispatcher`.
--   Its children are about the delivery of an event, its cookie and its bytes.
-- - Daemon.Server (crates/daemon/src/server.rs): `handle_client`, `handle_request` and
--   `send_response`, for the bytes that one client sends before it hangs up.
-- - Daemon.Manager (crates/daemon/src/watcher.rs): `WatcherManager` and `start_watcher`. The watcher of
--   the crate notify is a parameter, `Poller`.
-- - Daemon.Client (crates/daemon/src/server.rs): `send_daemon_request`, and in Daemon.Client.Replies
--   how it meets `handle_client`.
-- - Daemon.Listener (crates/daemon/src/server.rs): `Server::run`, from the file of the socket to the
--   loop that accepts connections; the answers of the file system and the listener are parameters.
-- - Daemon.System (crates/daemon/src/server.rs and watcher.rs): the tasks of the connections, of
--   the dispatcher and of the accept loop on the state that they share, each from one `await` to
--   the next, the dispatcher from one access to the state to the next, in any order. System.Runs
--   is the step relation, System.Sequential is about `handle_client` as a run of it,
--   System.Replying, Departing and Stopping about what the steps of one connection's task come to,
--   and the others about runs of any kind. System.Log keeps for one connection what it is to be
--   told in a run and what it has been told. `HasNumbers` says of a run that the counters do not
--   come round in it.
-- - Daemon.Config (crates/daemon/src/config.rs): the configuration and the sources that it is read
--   from; the crate figment, which reads them, is a parameter. Daemon.Cli (crates/daemon/src/cli.rs):
--   the arguments, as the crate clap gives them.
-- - Daemon.Main, Start and Commands (crates/daemon/src/main.rs): `main`, `cmd_start` with the process
--   in the background and the task that waits for a signal, and the commands that speak to a running
--   daemon; the connection of a command, `Link`, is a parameter. Daemon.Boot puts the rest of
--   `cmd_start` together: the signals, `start_watcher` and `Server::run`.
-- - Preload (crates/preload/src/lib.rs): the statics and the exchange with the daemon, and in
--   Preload.Calls the intercepted functions. libc is a parameter. Preload.Descriptors is about the
--   managed descriptors, Responses and Stale about whose answer a request reads, and DaemonPeer,
--   Against, Undisturbed and Overtaken about the library with the daemon as it is modelled here at the
--   other end of its socket. Preload.Threads cuts an exchange in two, for two threads on one descriptor.
-- - Base: maps, words, texts, paths and lemmas that the parts share. Tests: samples, and each
--   theorem at a sample.
--
-- The preload library and the daemon meet in frames: Protocol.Message has the format, Daemon.Server
-- and Preload its two ends. The server and the dispatcher meet in the daemon's state, in
-- Daemon.System.
--
-- Numbers are natural numbers, with the wrap-around of 32- and 64-bit counters written out. A C
-- integer is its bit pattern. A path is the list of its components, which is what equality, hashing,
-- `parent` and `strip_prefix` of the standard library go by.
--
-- Fuel: `serve` takes at least four bytes from its input in a round, so one more than the length of
-- the input is enough; `find_in_parents` drops a component in a round, so the number of components
-- is enough; `connect_loop` stops after 61 failures.
--
-- Not modelled: the parsing of arguments and of TOML, which are the crates clap and figment; the set-up
-- of the log, logging, clocks, and panics. Bytes that the dispatcher still sends to the socket of a
-- client that has left the table are not followed. A write that waits for room in a socket is a step
-- that is still to come.
pub mod Base
pub mod Protocol
pub mod Daemon
pub mod Preload
pub mod Tests
