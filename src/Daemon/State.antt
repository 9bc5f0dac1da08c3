-- ===== src/Daemon/State.antt =====
-- crates/daemon/src/state.rs: the clients, the watches and the paths that the daemon keeps, and the
-- methods of `DaemonState`. Each method holds the locks of the tables from its first write to its last,
-- so it is one step on the state; `unregister_client` reads the client's list before, which only the
-- client's own task changes. An `Arc` of a client is its entry in `clients`.
pub mod Links
pub mod Release
pub mod Invariant
pub mod Steps
pub mod Queries
pub mod Lookup
pub mod Locks
use fake_notify.Base.{
  ℕ, ◌+◌, ◌-◌, ◌%◌, take, bit_or, Bool, true, false, not, ◌&&◌, Option, none, some, List, [], ◌∷◌,
  ◌++◌, map, length, contains, without, is_empty, if◌then◌else◌, Map, get, insert, remove, modify,
  map_some, FilePath, parent, ◌>>=◌, ◌==◌, list_eq, component_eq, nat_eq, u32_mod, u64_mod,
}
use fake_notify.Protocol.Event.{EventMask}

abbrev pub ClientId : Type 0
ClientId = ℕ

abbrev pub WatchDescriptor : Type 0
WatchDescriptor = ℕ

-- The write half of a client's socket: the bytes that it has taken, whether the peer is there, and how
-- many bytes it still takes once the peer goes, of the write that then fails.
pub record Writer : Type 0 where
  pub written : List ℕ
  pub is_open : Bool
  pub spare : ℕ

-- `connected_at`, which nothing reads, is left out, and so is `started_at` below.
pub record Client : Type 0 where
  pub id : ClientId
  pub writer : Writer
  pub watches : List WatchDescriptor

pub record WatchInfo : Type 0 where
  pub wd : WatchDescriptor
  pub path : FilePath
  pub mask : EventMask
  pub recursive : Bool
  pub clients : List ClientId

pub record DaemonState : Type 0 where
  pub clients : Map ClientId Client
  pub watches : Map WatchDescriptor WatchInfo
  pub path_to_wd : Map FilePath WatchDescriptor
  pub next_client_id : ℕ
  pub next_wd : ℕ

-- `Client::new`
unfoldable pub new_client : ClientId → Writer → Client
new_client id writer = record { id = id; writer = writer; watches = [] }

-- `write_all`, once it returns: the client after it, and whether it succeeded. One that fails may have
-- written a part of the bytes, but not all. While it waits for room in the socket, it has not come to its end.
unfoldable pub send_event : Client → List ℕ → Client × Bool
send_event c event_bytes =
    if c.writer.is_open
    then (record c { writer = record c.writer { written = c.writer.written ++ event_bytes } }, true)
    else (
      record c {
        writer = record c.writer {
          written =
              c.writer.written ++ take c.writer.spare (take (length event_bytes - 1) event_bytes);
          spare = 0;
        };
      },
      false,
    )

-- `send_event` through an `Arc` of the client: the object is the entry of the table, as long as the
-- client is registered.
unfoldable pub deliver : Map ClientId Client → ClientId → List ℕ → Map ClientId Client × Bool
unfolding send_event
deliver clients id event_bytes = elim (get clients id) [
  | none ↦ (clients, false)
  | some c ↦ (modify clients id (λ x. (send_event x event_bytes).0), (send_event c event_bytes).1)
]

-- `Client::add_watch`
unfoldable pub push_watch : WatchDescriptor → Client → Client
push_watch wd c = record c { watches = c.watches ++ (wd ∷ []) }

-- `Client::remove_watch`
unfoldable pub drop_watch : WatchDescriptor → Client → Client
drop_watch wd c = record c { watches = without wd c.watches }

-- `DaemonState::new`
unfoldable pub new : DaemonState
new = record { clients = []; watches = []; path_to_wd = []; next_client_id = 1; next_wd = 1 }

-- The new state and the id of the client.
unfoldable pub register_client : DaemonState → Writer → DaemonState × ClientId
unfolding new_client
register_client s writer =
    let id = s.next_client_id in
    (
      record s {
        clients = insert s.clients id (new_client id writer);
        next_client_id = (id + 1) % u64_mod;
      },
      id,
    )

abbrev pub Tables : Type 0
Tables = Map WatchDescriptor WatchInfo × Map FilePath WatchDescriptor

-- The loop body of `unregister_client` and the inner part of `remove_watch`: the client leaves the
-- watch, and a watch without clients goes.
unfoldable pub release : ClientId → WatchDescriptor → Tables → Tables
release client_id wd (watches, path_to_wd) = elim (get watches wd) [
  | none ↦ (watches, path_to_wd)
  | some watch ↦
      let kept = without client_id watch.clients in
      if is_empty kept
      then (remove watches wd, remove path_to_wd watch.path)
      else (modify watches wd (λ w. record w { clients = kept }), path_to_wd)
]

unfoldable pub release_all : ClientId → List WatchDescriptor → Tables → Tables
release_all client_id [] tables = tables
release_all client_id (wd ∷ wds) tables = release_all client_id wds (release client_id wd tables)

unfoldable pub unregister_client : DaemonState → ClientId → DaemonState
unregister_client s client_id = elim (get s.clients client_id) [
  | none ↦ s
  | some client ↦
      let (watches, path_to_wd) = release_all client_id client.watches (s.watches, s.path_to_wd) in
      record s { watches = watches; path_to_wd = path_to_wd; clients = remove s.clients client_id }
]

-- The watch of a path, where both tables have it.
unfoldable pub existing : DaemonState → FilePath → Option (WatchDescriptor × WatchInfo)
existing s path = do wd ← get s.path_to_wd path; watch ← get s.watches wd; some (wd, watch)

-- A second subscriber: its id joins the clients, and its mask joins the mask.
unfoldable pub join_watch : ClientId → EventMask → WatchInfo → WatchInfo
join_watch client_id mask w = record w {
  clients = if contains w.clients client_id then w.clients else w.clients ++ (client_id ∷ []);
  mask = bit_or w.mask mask;
}

-- The client is subscribed to the path.
unfoldable pub subscribed_in : Tables → ClientId → FilePath → Bool
subscribed_in (watches, path_to_wd) client_id path = elim (get path_to_wd path) [
  | none ↦ false
  | some wd ↦ elim (get watches wd) [ none ↦ false | some w ↦ contains w.clients client_id ]
]

abbrev pub subscribes : DaemonState → ClientId → FilePath → Bool
subscribes s = subscribed_in (s.watches, s.path_to_wd)

unfoldable pub add_watch :
    DaemonState → ClientId → FilePath → EventMask → Bool → DaemonState × WatchDescriptor
unfolding existing join_watch push_watch
add_watch s client_id path mask recursive = elim (existing s path) [
  | some (wd, _) ↦ (
    record s {
      watches = modify s.watches wd (join_watch client_id mask);
      clients = modify s.clients client_id (push_watch wd);
    },
    wd,
  )
  | none ↦
      let wd = s.next_wd in
      let watch : WatchInfo = record {
        wd = wd;
        path = path;
        mask = mask;
        recursive = recursive;
        clients = client_id ∷ [];
      } in
      (
        record s {
          next_wd = (wd + 1) % u32_mod;
          watches = insert s.watches wd watch;
          path_to_wd = insert s.path_to_wd path wd;
          clients = modify s.clients client_id (push_watch wd);
        },
        wd,
      )
]

unfoldable pub remove_watch : DaemonState → ClientId → WatchDescriptor → DaemonState × Bool
unfolding drop_watch
remove_watch s client_id wd = elim (get s.watches wd) [
  | none ↦ (s, false)
  | some _ ↦
      let (watches, path_to_wd) = release client_id wd (s.watches, s.path_to_wd) in
      (
        record s {
          watches = watches;
          path_to_wd = path_to_wd;
          clients = modify s.clients client_id (drop_watch wd);
        },
        true,
      )
]
