-- ===== src/Daemon/Watcher/Wire.antt =====
-- crates/daemon/src/watcher.rs: what the bytes of a dispatched event say to their reader.
use fake_notify.Base.{
  ℕ, ◌+◌, ◌<◌, ◌≡◌, ap, ◌∙◌, Bool, some, List, ◌++◌, length, FilePath, strip_prefix, to_str, little,
  to_le_bytes, to_ne_bytes, from_ne_bytes, arith, nat_eq, ◌>>=◌, bit_and,
}
use fake_notify.Protocol.Event.{
  EventMask, InotifyEvent, from_bytes, header_to_bytes, intersects, in_isdir, known_bits,
}
use fake_notify.Protocol.Event.Layout.{IsWellFormed}
use fake_notify.Protocol.Message.{frame}
use fake_notify.Daemon.State.{DaemonState, WatchInfo}
use fake_notify.Daemon.State.Queries.{find_watch_for_path}
use fake_notify.Daemon.State.Invariant.{IsValid}
use fake_notify.Daemon.State.Lookup.{find_watch_for_path_sound, strip_prefix-append}
use fake_notify.Daemon.Watcher.{EventKind, event_name, notify_to_inotify_mask}

-- In a valid state, the name of an event for the watch that is found is the text of the path below
-- the watch: the watch's path with it makes the path of the event. The name is missing only where
-- `to_str` gives none.
pub event_name_relative :
    (s : DaemonState) (p : FilePath) (watch : WatchInfo)
    → IsValid s
    → find_watch_for_path s p ≡ some watch
    → (rest : FilePath) × (p ≡ watch.path ++ rest) × (event_name watch p ≡ to_str rest)
unfolding event_name
event_name_relative s p watch v found =
    let (at, (rest, e, how)) = find_watch_for_path_sound s v p watch found in
    (
      rest,
      e,
      ap (λ q. strip_prefix q watch.path >>= to_str) e ∙ rw (strip_prefix-append watch.path rest),
    )

-- A program that parses a framed event as an inotify event of a little-endian machine takes the
-- frame's length for the watch descriptor, the descriptor for the mask, the mask for the cookie and
-- the cookie for the length of the name. The event is well-formed, and its length is a 32-bit word.
pub framed_misread :
    (e : InotifyEvent) (body : List ℕ)
    → IsWellFormed e
    → 16 + length body < 4294967296
    → from_bytes little (frame (header_to_bytes little e ++ body))
      ≡ some (record { wd = 16 + length body; mask = e.wd; cookie = e.mask; len = e.cookie })
unfolding frame from_bytes header_to_bytes to_le_bytes to_ne_bytes from_ne_bytes
framed_misread e body v h = ground arith

-- The mask that an event is given has the bit for directories exactly for a directory, and no bit
-- that the constants do not name.
pub mask_isdir :
    (kind : EventKind) (is_dir : Bool) (m : EventMask)
    → notify_to_inotify_mask kind is_dir ≡ some m
    → (intersects m in_isdir ≡ is_dir) × (bit_and m known_bits ≡ m)
unfolding notify_to_inotify_mask intersects
mask_isdir kind is_dir m h = ground arith
