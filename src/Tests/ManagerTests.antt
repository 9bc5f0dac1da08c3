-- ===== src/Tests/ManagerTests.antt =====
-- crates/daemon/src/watcher.rs, `WatcherManager`, and main.rs: the theorems on the start of the daemon, at
-- samples.
use fake_notify.Base.{
  ◌≡◌, ◌&&◌, not, nat_eq, ok, err, true, false, none, some, List, [], ◌∷◌, FilePath, list_eq,
  component_eq, ascii, contains, without, if◌then◌else◌, ◌==◌, is_empty,
}
use fake_notify.Daemon.Config.{WatchConfig}
use fake_notify.Daemon.Manager.{Poller, start_watcher}
use fake_notify.Daemon.Manager.Intervals.{respaced, started_watcher, start_watcher-respaced}
use fake_notify.Daemon.Start.{Signal, default_interval}
use fake_notify.Daemon.State.{new}
use fake_notify.Daemon.Boot.{Machine, Happening, signalled, start_daemon}
use fake_notify.Daemon.Boot.Ends.{is_none, succeeds, is_blocked, first_ends, start_daemon-none}
use fake_notify.Tests.Samples.{media, film}

-- A watcher that refuses an interval of no seconds and the empty path.
abbrev poller : Poller (List FilePath)
poller = record {
  new = λ secs. if secs == 0 then err (ascii "no interval") else ok [];
  watch = λ w p recursive. if is_empty p then (w, some (ascii "empty path")) else (p ∷ w, none);
  unwatch = λ w p. if contains w p then (without p w, none) else (w, some (ascii "not found"));
}

abbrev initial : List WatchConfig
initial =
    record { path = media; poll_interval = 5; recursive = true }
    ∷ record { path = []; poll_interval = 5; recursive = false }
    ∷ []

abbrev film_watch : WatchConfig
film_watch = record { path = film; poll_interval = 60; recursive = true }

start_watcher-respaced_example :
    started_watcher poller (
      start_watcher poller new 1
        (film_watch ∷ respaced (λ w. 1) initial)
        (default_interval (film_watch ∷ respaced (λ w. 1) initial)))
    ≡ started_watcher poller (
        start_watcher poller new 1 (film_watch ∷ initial) (default_interval (film_watch ∷ initial)))
start_watcher-respaced_example = start_watcher-respaced poller new 1 (λ w. 1) film_watch initial

-- A machine whose calls succeed, and a SIGHUP before a SIGTERM.
abbrev machine : Machine (List FilePath)
machine = record {
  poller = poller;
  files = record { socket = false; directory = true; has_parent = true };
  faults = record {
    remove_file = none;
    create_dir_all = none;
    bind = none;
    set_permissions = none;
    remove_at_end = none;
  };
}

abbrev happenings : List Happening
happenings = signalled Signal.hangup ∷ signalled Signal.terminate ∷ []

start_daemon-none_example : is_none (start_daemon machine initial happenings) ≡ (
    succeeds (poller.new 5)
    && (not (is_blocked machine.faults machine.files)
        && not (first_ends (Signal.hangup ∷ Signal.terminate ∷ []))))
unfolding default_interval
start_daemon-none_example = start_daemon-none machine initial happenings
