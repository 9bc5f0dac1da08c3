-- ===== src/Daemon/Manager/Intervals.antt =====
-- crates/daemon/src/main.rs and watcher.rs: the polling intervals of the watches.
use fake_notify.Base.{
  ℕ, List, [], ◌∷◌, Text, Result, ok, err, ◌≡◌, refl, sym, ◌∙◌, ap, map, Option-cases, inl, inr,
}
use fake_notify.Daemon.Config.{WatchConfig}
use fake_notify.Daemon.Start.{default_interval}
use fake_notify.Daemon.State.{DaemonState}
use fake_notify.Daemon.Watcher.{Dispatcher}
use fake_notify.Daemon.Manager.{Poller, WatcherManager, add_watch, add_initial, start_watcher}

-- Other intervals for the same watches.
abbrev pub respaced : (WatchConfig → ℕ) → List WatchConfig → List WatchConfig
respaced f ws = map (λ (w : WatchConfig). record w { poll_interval = f w }) ws

module _ {ℓ} {W : Type ℓ} (poller : Poller W) where
  -- The watcher that a start comes to, or its error.
  abbrev pub started_watcher : Result (WatcherManager W × Dispatcher) Text → Result W Text
  started_watcher (ok (m, d)) = ok m.watcher
  started_watcher (err e) = err e

  add_watch-watcher :
      (m : WatcherManager W) (w : WatchConfig)
      → (add_watch poller m w).0.watcher ≡ (poller.watch m.watcher w.path w.recursive).0
  unfolding add_watch
  add_watch-watcher m w = elim (Option-cases (poller.watch m.watcher w.path w.recursive).1) [
    | inl done ↦ rw (done, add_watch) refl
    | inr (e, failed) ↦ rw (failed, add_watch) refl
  ]

  add_initial-watcher :
      (f : WatchConfig → ℕ) (ws : List WatchConfig) (m n : WatcherManager W)
      → m.watcher ≡ n.watcher
      → (add_initial poller m (respaced f ws)).watcher ≡ (add_initial poller n ws).watcher
  unfolding add_initial
  add_initial-watcher f [] m n same = same
  add_initial-watcher f (w ∷ ws) m n same =
      add_initial-watcher f ws (add_watch poller m (record w { poll_interval = f w })).0
        (add_watch poller n w).0
        (add_watch-watcher m (record w { poll_interval = f w })
          ∙ ap (λ (x : W). (poller.watch x w.path w.recursive).0) same
          ∙ sym (add_watch-watcher n w))

  -- The intervals of the watches behind the first have no effect: whatever intervals these are given,
  -- `start_watcher`, called with the interval that `cmd_start` takes, comes to the same watcher or to the
  -- same error.
  pub start_watcher-respaced :
      (s : DaemonState) (counter : ℕ) (f : WatchConfig → ℕ) (w : WatchConfig)
      (ws : List WatchConfig)
      → started_watcher (
          start_watcher poller s counter (w ∷ respaced f ws) (default_interval (w ∷ respaced f ws)))
        ≡ started_watcher (start_watcher poller s counter (w ∷ ws) (default_interval (w ∷ ws)))
  unfolding start_watcher default_interval add_initial
  start_watcher-respaced s counter f w ws = go (poller.new w.poll_interval) refl
    where
      go :
          (x : Result W Text)
          → poller.new w.poll_interval ≡ x
          → started_watcher (start_watcher poller s counter (w ∷ respaced f ws) w.poll_interval)
            ≡ started_watcher (start_watcher poller s counter (w ∷ ws) w.poll_interval)
      go (err e) h = rw (h, start_watcher) refl
      go (ok fresh) h =
          let empty : WatcherManager W = record { watcher = fresh; watched_paths = [] } in
          let first = (add_watch poller empty w).0 in
          rw (h, start_watcher) (ap (λ (x : W). ok x) (add_initial-watcher f ws first first refl))
