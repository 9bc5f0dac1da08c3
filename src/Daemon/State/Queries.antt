-- ===== src/Daemon/State/Queries.antt =====
-- crates/daemon/src/state.rs: the methods of `DaemonState` that only read.
use fake_notify.Base.{
  ℕ, Option, none, some, List, [], ◌∷◌, map, length, if◌then◌else◌, Map, get, FilePath, parent,
  ◌>>=◌, list_eq, component_eq, nat_eq,
}
use fake_notify.Daemon.State.{DaemonState, ClientId, WatchDescriptor, Client, WatchInfo}

-- In the order of the table: the order of `HashMap::values` is not specified.
unfoldable pub get_watched_paths : DaemonState → List FilePath
get_watched_paths s = map (λ e. e.1.path) s.watches

unfoldable pub get_watch : DaemonState → WatchDescriptor → Option WatchInfo
get_watch s wd = get s.watches wd

unfoldable pub get_wd_for_path : DaemonState → FilePath → Option WatchDescriptor
get_wd_for_path s path = get s.path_to_wd path

-- The watch of a directory, if it is recursive.
unfoldable pub recursive_watch : DaemonState → FilePath → Option WatchInfo
recursive_watch s dir = do
  wd ← get s.path_to_wd dir
  watch ← get s.watches wd
  if watch.recursive then some watch else none

-- The `while let` loop over the parents of a path. A round drops a component, so `length path`
-- rounds are enough.
unfoldable pub find_in_parents : ℕ → DaemonState → FilePath → Option WatchInfo
unfolding recursive_watch
find_in_parents ℕ.zero s current = none
find_in_parents (ℕ.suc fuel) s current = elim (parent current) [
  | none ↦ none
  | some dir ↦ elim (recursive_watch s dir) [
    | some watch ↦ some watch
    | none ↦ find_in_parents fuel s dir
  ]
]

unfoldable pub find_watch_for_path : DaemonState → FilePath → Option WatchInfo
find_watch_for_path s path = elim (get s.path_to_wd path) [
  | some wd ↦ get s.watches wd
  | none ↦ find_in_parents (length path) s path
]

-- `filter_map` over the ids, with the clients of the table.
unfoldable pub connected : Map ClientId Client → List ClientId → List Client
connected clients [] = []
connected clients (id ∷ ids) =
    let rest = connected clients ids in
    elim (get clients id) [ none ↦ rest | some client ↦ client ∷ rest ]

unfoldable pub get_clients_for_watch : DaemonState → WatchDescriptor → List Client
unfolding connected
get_clients_for_watch s wd = elim (get s.watches wd) [
  | some watch ↦ connected s.clients watch.clients
  | none ↦ []
]

-- `uptime_secs` is the clock's.
pub record DaemonStats : Type 0 where
  pub uptime_secs : ℕ
  pub total_clients : ℕ
  pub total_watches : ℕ

unfoldable pub stats : DaemonState → ℕ → DaemonStats
stats s uptime = record {
  uptime_secs = uptime;
  total_clients = length s.clients;
  total_watches = length s.watches;
}

unfoldable pub get_client : DaemonState → ClientId → Option Client
get_client s client_id = get s.clients client_id
