-- ===== src/Tests/StateTests.antt =====
-- crates/daemon/src/state.rs: the theorems at samples.
use fake_notify.Base.{
  arith, contains, bit_and, List, map, inl, drop, ◌≡◌, ◌≢◌, ◌≤◌, refl, true, false, some, [], ◌∷◌,
  get, insert, nat_eq, list_eq, component_eq, ascii, Component, length, inr,
}
use Component.{root_dir, normal}
use fake_notify.Daemon.State
use fake_notify.Daemon.State.{
  DaemonState, WatchInfo, new, new_client, subscribes, unregister_client, existing, subscribed_in,
  push_watch, release,
}
use fake_notify.Daemon.State.Queries.{find_watch_for_path}
use fake_notify.Daemon.State.Locks
use fake_notify.Daemon.State.Locks.{Method, Thread, thread, step, is_done, can_step}
use fake_notify.Daemon.State.Locks.Holders.{Any}
use fake_notify.Daemon.State.Locks.Order.{Reach-steps}
use fake_notify.Daemon.State.Steps.{Reach-IsValid, add_watch_covers, subscribes-add_watch}
use fake_notify.Daemon.State.Invariant.{IsValid}
use fake_notify.Daemon.State.Invariant.Leaving.{subscribes-unregister_client}
use fake_notify.Daemon.State.Invariant.Removing.{subscribes-remove_watch}
use fake_notify.Daemon.State.Lookup.{find_watch_for_path_sound, find_watch_for_path_nearest, Serves}
use fake_notify.Tests.Samples.{
  socket, media, film, two_clients, watched, watched-Reach, watched-IsValid, two_clients-IsValid,
  two_clients-HasRoom, first_connected, media_watch, media_watched, film_served,
}

Reach-IsValid_example : IsValid watched
Reach-IsValid_example = Reach-IsValid watched-Reach (omega arith)

add_watch_covers_example :
    (w : WatchInfo) × (get watched.path_to_wd media
      ≡ some (State.add_watch two_clients 1 media 0x0fff true).1)
    × (get watched.watches (State.add_watch two_clients 1 media 0x0fff true).1 ≡ some w)
    × (w.path ≡ media)
    × (contains w.clients 1 ≡ true)
    × (bit_and w.mask 0x0fff ≡ 0x0fff)
add_watch_covers_example =
    add_watch_covers two_clients 1 media 0x0fff true (new_client 1 socket) first_connected
      two_clients-IsValid two_clients-HasRoom

subscribes-add_watch_example : subscribes watched 1 media ≡ true
unfolding subscribed_in get insert new State.register_client State.add_watch existing
subscribes-add_watch_example =
    subscribes-add_watch two_clients 1 media 0x0fff true (new_client 1 socket) first_connected
      two_clients-IsValid two_clients-HasRoom 1 media

subscribes-unregister_client_example : subscribes (unregister_client watched 1) 1 media ≡ false
unfolding subscribed_in get insert new State.register_client State.add_watch existing
subscribes-unregister_client_example =
    subscribes-unregister_client watched 1 1 media watched-IsValid

find_watch_for_path_sound_example :
    (get watched.watches 1 ≡ some media_watch) × Serves media_watch film
find_watch_for_path_sound_example =
    find_watch_for_path_sound watched watched-IsValid film media_watch film_served

abbrev film_below : Serves media_watch film
film_below = (normal (ascii "film.mkv") ∷ [], refl, inr refl)

name_no_root : normal (ascii "film.mkv") ≢ root_dir
name_no_root = cc

find_watch_for_path_nearest_example :
    (w : WatchInfo) × (find_watch_for_path watched film ≡ some w) × (length media ≤ length w.path)
find_watch_for_path_nearest_example =
    find_watch_for_path_nearest watched watched-IsValid film 1 media_watch media_watched film_below
      (name_no_root, tt)

subscribes-remove_watch_example :
    ((State.remove_watch watched 1 1).1 ≡ true)
    × (subscribes (State.remove_watch watched 1 1).0 1 media ≡ false)
unfolding subscribed_in get insert new State.register_client State.add_watch existing
subscribes-remove_watch_example =
    subscribes-remove_watch watched 1 1 media_watch media_watched watched-IsValid 1 media

-- A thread that adds a watch, one that looks for the watch of an event, and one whose client leaves, after
-- the first has come to its first locks.
abbrev programs : List (List Method)
programs =
    (Method.add_watch true ∷ [])
    ∷ (Method.find_watch_for_path ∷ Method.get_clients_for_watch ∷ [])
    ∷ (Method.unregister_client true ∷ [])
    ∷ []

abbrev started : List Thread
started = step (thread (Method.add_watch true ∷ [])) ∷ map thread (drop 1 programs)

one_started : Locks.Reach (map thread programs) started
unfolding can_step thread
one_started =
    Locks.Reach.next [] (map thread (drop 1 programs)) (thread (Method.add_watch true ∷ []))
      Locks.Reach.here refl refl refl

Reach-steps_example : Any (λ t. can_step started t ≡ true) started
unfolding is_done thread step
Reach-steps_example = Reach-steps programs started one_started (inl refl)
