-- ===== src/Daemon/Watcher.antt =====
-- crates/daemon/src/watcher.rs: from the events of the crate notify to inotify events on the sockets
-- of the clients. The enums of notify have the constructors that the source matches on, and `other`
-- for the rest. The two statics and the dispatcher's fields make one record; an event is handled in
-- one step, while the daemon's other tasks wait.
pub mod Delivery
pub mod Cookies
pub mod Wire
use fake_notify.Base.{
  ℕ, ◌+◌, ◌%◌, bit_or, Bool, not, Option, none, some, List, [], ◌∷◌, map, if◌then◌else◌, Map, get,
  insert, remove as Map_remove, FilePath, Text, strip_prefix, to_str, Endian, ◌>>=◌, u32_mod,
  list_eq, component_eq, nat_eq,
}
use fake_notify.Protocol.Event.{
  EventMask, InotifyEvent, in_create, in_modify, in_attrib, in_moved_from, in_moved_to, in_move,
  in_delete, in_access, in_all_events, in_isdir, intersects, new, header_to_bytes,
  to_bytes_with_name,
}
use fake_notify.Protocol.Message.{frame}
use fake_notify.Daemon.State.{DaemonState, Client, ClientId, WatchDescriptor, WatchInfo, deliver}
use fake_notify.Daemon.State.Queries.{find_watch_for_path, get_clients_for_watch}

pub data CreateKind : Type 0 where
  any file folder other : CreateKind

pub data RenameMode : Type 0 where
  any to from both other : RenameMode

-- What `Data` and `Metadata` carry is not looked at.
pub data ModifyKind : Type 0 where
  any content metadata other : ModifyKind
  name : RenameMode → ModifyKind

pub data RemoveKind : Type 0 where
  any file folder other : RemoveKind

pub data EventKind : Type 0 where
  any access other : EventKind
  create : CreateKind → EventKind
  modify : ModifyKind → EventKind
  remove : RemoveKind → EventKind

-- `fetch_add` on the counter: the cookie, and the counter after it.
unfoldable pub next_cookie : ℕ → ℕ × ℕ
next_cookie counter = (counter, (counter + 1) % u32_mod)

unfoldable pub base_mask : EventKind → Option EventMask
base_mask (create CreateKind.file) = some in_create
base_mask (create CreateKind.folder) = some in_create
base_mask (create CreateKind.any) = some in_create
base_mask (create CreateKind.other) = some in_create
base_mask (modify ModifyKind.content) = some in_modify
base_mask (modify ModifyKind.metadata) = some in_attrib
base_mask (modify (ModifyKind.name RenameMode.from)) = some in_moved_from
base_mask (modify (ModifyKind.name RenameMode.to)) = some in_moved_to
base_mask (modify (ModifyKind.name RenameMode.both)) = some (bit_or in_moved_from in_moved_to)
base_mask (modify (ModifyKind.name RenameMode.any)) = some in_move
base_mask (modify (ModifyKind.name RenameMode.other)) = some in_move
base_mask (modify ModifyKind.any) = some in_modify
base_mask (modify ModifyKind.other) = some in_modify
base_mask (remove RemoveKind.file) = some in_delete
base_mask (remove RemoveKind.folder) = some in_delete
base_mask (remove RemoveKind.any) = some in_delete
base_mask (remove RemoveKind.other) = some in_delete
base_mask access = some in_access
base_mask other = none
base_mask any = some in_all_events

unfoldable pub notify_to_inotify_mask : EventKind → Bool → Option EventMask
unfolding base_mask
notify_to_inotify_mask kind is_dir = do
  base ← base_mask kind
  some (if is_dir then bit_or base in_isdir else base)

pub record WatcherEvent : Type 0 where
  pub path : FilePath
  pub kind : EventKind
  pub is_dir : Bool

-- The callback on an event of notify: one message for each path. `dirs` is what the file system
-- says of a path at that moment.
unfoldable pub on_event : (FilePath → Bool) → List FilePath → EventKind → List WatcherEvent
on_event dirs paths kind = map (λ p. record { path = p; kind = kind; is_dir = dirs p }) paths

pub record Dispatcher : Type 0 where
  pub state : DaemonState
  pub pending_renames : Map FilePath ℕ
  pub cookie_counter : ℕ

-- The cookie of an event, and the dispatcher after it.
unfoldable pub rename_cookie : Dispatcher → FilePath → EventMask → ℕ × Dispatcher
unfolding next_cookie
rename_cookie d path mask =
    let (fresh, counter) = next_cookie d.cookie_counter in
    if intersects mask in_moved_from
    then (
      fresh,
      record d { pending_renames = insert d.pending_renames path fresh; cookie_counter = counter },
    )
    else (if intersects mask in_moved_to
        then elim (get d.pending_renames path) [
          | some cookie ↦ (cookie, record d { pending_renames = Map_remove d.pending_renames path })
          | none ↦ (
            fresh,
            record d {
              pending_renames = Map_remove d.pending_renames path;
              cookie_counter = counter;
            },
          )
        ]
        else (0, d))

-- The path relative to the watch, as text.
unfoldable pub event_name : WatchInfo → FilePath → Option Text
event_name watch path = do rest ← strip_prefix path watch.path; to_str rest

unfoldable pub event_bytes : Endian → InotifyEvent → Option Text → List ℕ
event_bytes ne e (some relative) = to_bytes_with_name ne e relative
event_bytes ne e none = header_to_bytes ne e

-- A failed send is logged, and the others go on.
unfoldable pub send_to_all : List Client → List ℕ → Map ClientId Client → Map ClientId Client
send_to_all [] framed clients = clients
send_to_all (c ∷ cs) framed clients = send_to_all cs framed (deliver clients c.id framed).0

-- The head of `handle_event`: the watch of the event, and the frame that its clients are to be sent.
unfoldable pub plan :
    Endian → Dispatcher → WatcherEvent → Dispatcher × Option (WatchDescriptor × List ℕ)
plan ne d event = elim (find_watch_for_path d.state event.path) [
  | none ↦ (d, none)
  | some watch ↦ elim (notify_to_inotify_mask event.kind event.is_dir) [
    | none ↦ (d, none)
    | some mask ↦
        if not (intersects watch.mask mask)
        then (d, none)
        else (let (cookie, d') = rename_cookie d event.path mask in
            let framed =
              frame (event_bytes ne (new watch.wd mask cookie) (event_name watch event.path)) in
            (d', some (watch.wd, framed)))
  ]
]

-- Its tail: the clients of the watch are looked up, and sent the frame.
unfoldable pub dispatch : Dispatcher → WatchDescriptor → List ℕ → Dispatcher
unfolding send_to_all
dispatch d wd framed =
    let clients = get_clients_for_watch d.state wd in
    record d { state = record d.state { clients = send_to_all clients framed d.state.clients } }

unfoldable pub handle_event : Endian → Dispatcher → WatcherEvent → Dispatcher
unfolding plan dispatch
handle_event ne d event =
    let (d', found) = plan ne d event in
    elim found [ none ↦ d' | some (wd, framed) ↦ dispatch d' wd framed ]

-- The loop of `run`, over the events that arrive before the channel closes.
unfoldable pub run : Endian → Dispatcher → List WatcherEvent → Dispatcher
run ne d [] = d
run ne d (e ∷ es) = run ne (handle_event ne d e) es
