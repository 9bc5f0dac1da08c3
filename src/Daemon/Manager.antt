-- ===== src/Daemon/Manager.antt =====
-- crates/daemon/src/watcher.rs, `WatcherManager` and `start_watcher`. The watcher of the crate notify is
-- a parameter: its state, and what `new`, `watch` and `unwatch` do to it. The queue between the watcher
-- and the dispatcher is the list of events that `run` takes.
pub mod Intervals
use fake_notify.Base.{
  ℕ, Bool, Option, none, some, List, [], ◌∷◌, Map, insert, remove, FilePath, Result, ok, err,
  list_eq, component_eq, Text,
}
use fake_notify.Daemon.Config.{WatchConfig}
use fake_notify.Daemon.State.{DaemonState}
use fake_notify.Daemon.Watcher.{Dispatcher}

-- `new` with an interval in seconds, `watch` and `unwatch` of a `PollWatcher`; `none` is success.
pub record Poller {ℓ} (W : Type ℓ) : Type ℓ where
  pub new : ℕ → Result W Text
  pub watch : W → FilePath → Bool → W × Option Text
  pub unwatch : W → FilePath → W × Option Text

pub record WatcherManager {ℓ} (W : Type ℓ) : Type ℓ where
  pub watcher : W
  pub watched_paths : Map FilePath WatchConfig

module _ {ℓ} {W : Type ℓ} (poller : Poller W) where
  unfoldable pub add_watch : WatcherManager W → WatchConfig → WatcherManager W × Option Text
  add_watch m config =
      let (watcher, result) = poller.watch m.watcher config.path config.recursive in
      elim result [
        | some e ↦ (record { watcher = watcher; watched_paths = m.watched_paths }, some e)
        | none ↦ (
          record { watcher = watcher; watched_paths = insert m.watched_paths config.path config },
          none,
        )
      ]

  unfoldable pub remove_watch : WatcherManager W → FilePath → WatcherManager W × Option Text
  remove_watch m path =
      let (watcher, result) = poller.unwatch m.watcher path in
      elim result [
        | some e ↦ (record { watcher = watcher; watched_paths = m.watched_paths }, some e)
        | none ↦ (record { watcher = watcher; watched_paths = remove m.watched_paths path }, none)
      ]

  -- The loop over the initial watches: a failure is logged.
  unfoldable pub add_initial : WatcherManager W → List WatchConfig → WatcherManager W
  unfolding add_watch
  add_initial m [] = m
  add_initial m (config ∷ configs) = add_initial (add_watch m config).0 configs

  -- `WatcherManager::new`
  unfoldable pub new_manager : ℕ → Result (WatcherManager W) Text
  new_manager poll_interval_secs = elim (poller.new poll_interval_secs) [
    | err e ↦ err e
    | ok watcher ↦ ok (record { watcher = watcher; watched_paths = [] })
  ]

-- `EventDispatcher::new`, with the counter of cookies where it stands.
unfoldable pub new_dispatcher : DaemonState → ℕ → Dispatcher
new_dispatcher s counter = record { state = s; pending_renames = []; cookie_counter = counter }

module _ {ℓ} {W : Type ℓ} (poller : Poller W) where
  -- The manager, and the dispatcher that is spawned.
  unfoldable pub start_watcher :
      DaemonState → ℕ → List WatchConfig → ℕ → Result (WatcherManager W × Dispatcher) Text
  unfolding new_manager add_initial new_dispatcher
  start_watcher s counter initial_watches default_poll_interval =
      elim (new_manager poller default_poll_interval) [
        | err e ↦ err e
        | ok fresh ↦ ok (add_initial poller fresh initial_watches, new_dispatcher s counter)
      ]
