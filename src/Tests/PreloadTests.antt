-- ===== src/Tests/PreloadTests.antt =====
-- crates/preload/src/lib.rs: the theorems at samples.
use fake_notify.Base.{
  ℕ, ◌≡◌, ◌≤◌, ◌+◌, ◌<◌, refl, true, Option, none, some, List, [], ◌∷◌, ◌++◌, length, nat_eq, ascii,
  ltb, if◌then◌else◌, arith, ok, is_utf8, path_from, drop,
}
use fake_notify.Protocol.Message.{
  register_client, add_watch, client_registered, watch_added, request_to_bytes, response_to_bytes,
  response_from_bytes, read_length, frame,
}
use fake_notify.Preload.{
  Libc, Process, Peer, Stream, minus_one, read_response, connect_to_daemon, connect_loop,
  send_request, read_from, register_fd, init,
}
use fake_notify.Preload.Calls.{init_on, inotify_init_impl, inotify_add_watch, close}
use fake_notify.Preload.Stale.{inotify_add_watch_stale}
use fake_notify.Preload.Descriptors.{IsSound, Run, here, next, inits, adds, closes, Run-IsSound}
use fake_notify.Preload.DaemonPeer.{session, daemon_peer}
use fake_notify.Preload.Against.{first_watch_lost}
use fake_notify.Daemon.State.{DaemonState, new, subscribes}
use fake_notify.Daemon.State.Steps
use fake_notify.Daemon.State.Steps.{Reach-IsValid}
use fake_notify.Preload.Connect.{connect_to_daemon_ends}
use fake_notify.Base.{to_le_bytes, from_le_bytes}
use fake_notify.Tests.Samples.{codec, codec-IsFaithful, os, socket}

abbrev pub libc : Libc
libc = record {
  inotify_init = none;
  inotify_init1 = none;
  inotify_add_watch = none;
  inotify_rm_watch = none;
  close = none;
  syscall_close = λ fd. 0;
  o_nonblock = 0x800;
  o_cloexec = 0x80000;
  eio = 5;
  einval = 22;
  enosys = 38;
}

abbrev pub process : Process
process = record {
  initialized = true;
  managed_fds = some [];
  errno = 0;
  sockets = [];
  nonblock = [];
  cloexec = [];
}

-- The daemon: its greeting, its reply to the registration and its reply to the first watch.
abbrev output : List ℕ → List ℕ
output sent =
    frame (0 ∷ 7 ∷ [])
    ++ (frame (0 ∷ 7 ∷ []) ++ (if ltb (length sent) 6 then [] else frame (1 ∷ 1 ∷ [])))

abbrev daemon : Peer
daemon = record { output = output; accepts = true }

pathname_text : is_utf8 (ascii "m") ≡ true
unfolding is_utf8
pathname_text = refl

greeting_bytes : response_to_bytes codec (client_registered 7) ≡ ok (0 ∷ 7 ∷ [])
unfolding response_to_bytes
greeting_bytes = refl

hello_bytes : request_to_bytes codec register_client ≡ ok (0 ∷ [])
unfolding request_to_bytes
hello_bytes = refl

asked_bytes : request_to_bytes codec (add_watch (path_from (ascii "m")) 2) ≡ ok (1 ∷ 2 ∷ 109 ∷ [])
unfolding request_to_bytes path_from
asked_bytes = refl

first_output : daemon.output (frame (0 ∷ [])) ≡ frame (0 ∷ 7 ∷ []) ++ frame (0 ∷ 7 ∷ [])
unfolding frame to_le_bytes
first_output = refl

second_output :
    daemon.output (frame (0 ∷ []) ++ frame (1 ∷ 2 ∷ 109 ∷ []))
    ≡ frame (0 ∷ 7 ∷ []) ++ (frame (0 ∷ 7 ∷ []) ++ frame (1 ∷ 1 ∷ []))
unfolding frame to_le_bytes
second_output = refl

inotify_add_watch_stale_example :
    let r = init_on libc codec process daemon 3 0 in
    (r.1 ≡ 3)
    × ((inotify_add_watch libc codec r.0 3 (ascii "m") 2).1 ≡ minus_one)
    × ((inotify_add_watch libc codec r.0 3 (ascii "m") 2).0.errno ≡ 5)
inotify_add_watch_stale_example =
    inotify_add_watch_stale libc codec process daemon 3 0 7 2 (ascii "m") (0 ∷ 7 ∷ []) (0 ∷ [])
      (1 ∷ 2 ∷ 109 ∷ []) (frame (0 ∷ 7 ∷ [])) (frame (1 ∷ 1 ∷ [])) codec-IsFaithful refl ([], refl)
      pathname_text greeting_bytes (omega arith) hello_bytes asked_bytes first_output second_output

abbrev greeted : Stream
greeted = record { written = frame (0 ∷ []); taken = 0 }

greeting_waits : drop 0 (daemon.output (frame (0 ∷ []))) ≡ frame (0 ∷ 7 ∷ []) ++ frame (0 ∷ 7 ∷ [])
unfolding frame to_le_bytes
greeting_waits = refl

connect_to_daemon_ends_example :
    (r : Option ℕ × ℕ) × (connect_to_daemon {A = ℕ} (λ n. none) ≡ some r) × (r.1 ≤ 61000)
connect_to_daemon_ends_example = connect_to_daemon_ends {A = ℕ} (λ n. none)

-- A process that connects at its first attempt, asks for a watch and closes the descriptor.
abbrev started : Process
started = (init_on libc codec (init process) daemon 3 0).0

abbrev asked : Process
asked = (inotify_add_watch libc codec started 3 (ascii "m") 2).0

connected :
    inotify_init_impl libc codec (init process) (λ n. some (3, daemon)) 0 ≡ some (started, 3)
unfolding inotify_init_impl init connect_to_daemon connect_loop init_on send_request read_response
    read_from request_to_bytes response_from_bytes frame to_le_bytes from_le_bytes read_length
    register_fd
connected = refl

calls : Run libc codec (init process) (close libc asked 3).0
calls =
    next
      (next (next here (inits (λ n. some (3, daemon)) 0 3 connected)) (adds 3 (ascii "m") 2 refl))
      (closes 3 refl)

Run-IsSound_example : IsSound (close libc asked 3).0
Run-IsSound_example = Run-IsSound libc codec process calls

first_greeting :
    response_to_bytes os.bincode (client_registered new.next_client_id) ≡ ok (0 ∷ 1 ∷ [])
unfolding response_to_bytes new
first_greeting = refl

new_watch_room : new.next_wd + 2 < 4294967296
unfolding new
new_watch_room = omega arith

new_client_room : new.next_client_id + 2 < 18446744073709551616
unfolding new
new_client_room = omega arith

added_bytes : (wd : ℕ) → (reply : List ℕ) × (response_to_bytes codec (watch_added wd) ≡ ok reply)
unfolding response_to_bytes
added_bytes wd = (1 ∷ wd ∷ [], refl)

first_watch_lost_example :
    let r = init_on libc codec process (daemon_peer os new) 3 0 in
    let q = inotify_add_watch libc codec r.0 3 (ascii "m") 2 in
    (r.1 ≡ 3)
    × (q.1 ≡ minus_one)
    × (q.0.errno ≡ 5)
    × ((t : DaemonState) × (session os new socket (frame (0 ∷ []) ++ frame (1 ∷ 2 ∷ 109 ∷ []))
          ≡ some t)
        × (subscribes t new.next_client_id (path_from (ascii "m")) ≡ true))
first_watch_lost_example =
    first_watch_lost os new (0 ∷ 1 ∷ []) (0 ∷ []) codec-IsFaithful
      (Reach-IsValid Steps.Reach.here (omega arith)) new_client_room new_watch_room first_greeting
      hello_bytes (omega arith) libc process 3 0 2 (ascii "m") (1 ∷ 2 ∷ 109 ∷ []) ([], refl)
      pathname_text (λ now. refl) asked_bytes (omega arith) (omega arith) added_bytes
