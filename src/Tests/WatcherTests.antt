-- ===== src/Tests/WatcherTests.antt =====
-- crates/daemon/src/watcher.rs: the theorems at samples.
use fake_notify.Base.{
  ℕ, ◌≡◌, ◌≢◌, refl, true, false, some, List, [], ◌∷◌, ◌++◌, get, nat_eq, list_eq, component_eq,
  FilePath, map_some, little, to_str, arith,
}
use fake_notify.Protocol.Event.{
  InotifyEvent, in_create, in_moved_from, in_moved_to, intersects, from_bytes, header_to_bytes,
}
use fake_notify.Protocol.Message.{frame}
use fake_notify.Daemon.Watcher.{
  Dispatcher, WatcherEvent, EventKind, CreateKind, notify_to_inotify_mask, base_mask, handle_event,
  rename_cookie, event_name,
}
use fake_notify.Daemon.Watcher.Delivery.{sent, frame_for, handle_event_delivers}
use fake_notify.Daemon.Watcher.Cookies.{rename_unpaired}
use fake_notify.Daemon.Watcher.Wire.{event_name_relative, framed_misread}
use fake_notify.Protocol.Event.Layout.{IsWellFormed}
use fake_notify.Tests.Samples.{media, film, watched, media_watch, film_served, watched-IsValid}

abbrev idle : Dispatcher
idle = record { state = watched; pending_renames = []; cookie_counter = 1 }

abbrev created : WatcherEvent
created = record { path = film; kind = EventKind.create CreateKind.file; is_dir = false }

created_mask : notify_to_inotify_mask created.kind created.is_dir ≡ some in_create
unfolding notify_to_inotify_mask base_mask
created_mask = refl

created_wanted : intersects media_watch.mask in_create ≡ true
unfolding intersects
created_wanted = refl

handle_event_delivers_example :
    get (handle_event little idle created).state.clients 1
    ≡ map_some (sent (frame_for little idle created media_watch in_create)) (get watched.clients 1)
handle_event_delivers_example =
    handle_event_delivers little idle created media_watch in_create watched-IsValid film_served
      created_mask created_wanted 1

event_name_relative_example :
    (rest : FilePath) × (film ≡ media ++ rest) × (event_name media_watch film ≡ to_str rest)
event_name_relative_example =
    event_name_relative watched film media_watch watched-IsValid film_served

film_other : film ≢ media
film_other = cc

to_misses : intersects in_moved_to in_moved_from ≡ false
unfolding intersects
to_misses = refl

to_meets : intersects in_moved_to in_moved_to ≡ true
unfolding intersects
to_meets = refl

from_meets : intersects in_moved_from in_moved_from ≡ true
unfolding intersects
from_meets = refl

rename_unpaired_example :
    let second = rename_cookie (rename_cookie idle film in_moved_from).1 media in_moved_to in
    (second.0 ≢ (rename_cookie idle film in_moved_from).0)
    × (get second.1.pending_renames film ≡ some (rename_cookie idle film in_moved_from).0)
    × ((rename_cookie second.1 film in_moved_to).0 ≡ (rename_cookie idle film in_moved_from).0)
unfolding get
rename_unpaired_example =
    rename_unpaired idle film media in_moved_from in_moved_to (omega arith) from_meets to_meets
      to_misses film_other refl

abbrev header : InotifyEvent
header = record { wd = 1; mask = in_create; cookie = 0; len = 12 }

header-IsWellFormed : IsWellFormed header
header-IsWellFormed = omega arith

abbrev body : List ℕ
body = 102 ∷ 105 ∷ 108 ∷ 109 ∷ 46 ∷ 109 ∷ 107 ∷ 118 ∷ 0 ∷ 0 ∷ 0 ∷ 0 ∷ []

framed_misread_example :
    from_bytes little (frame (header_to_bytes little header ++ body))
    ≡ some (record { wd = 28; mask = 1; cookie = in_create; len = 0 })
framed_misread_example = framed_misread header body header-IsWellFormed (omega arith)
