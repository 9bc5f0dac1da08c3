-- ===== src/Daemon/State/Invariant/Removing.antt =====
-- crates/daemon/src/state.rs: `remove_watch` and the invariant.
use fake_notify.Base.{
  ℕ, ◌≡◌, ◌↔◌, refl, sym, ◌∙◌, ◌≢◌, inl, inr, true, false, not, ◌&&◌, none, some, contains, without,
  if◌then◌else◌, get, modify, get-modify, FilePath, ◌==◌, list_eq, component_eq, nat_eq, arith,
  Bool-cases, Option-cases, contains-without_self, contains-without_ne, list_beq_iff,
}
use fake_notify.Daemon.State.{
  WatchInfo, Client, DaemonState, Tables, release, subscribes, remove_watch, drop_watch,
}
use fake_notify.Daemon.State.Links.{release-IsLinked}
use fake_notify.Daemon.State.Release.{
  release_back, release_keeps, subscribed_in-release, get-release_ne, subscribed_in_lem,
}
use fake_notify.Daemon.State.Invariant.{IsValid, subs, watches_of}

module _ (s : DaemonState) (c wd : ℕ) (w : WatchInfo) (found : get s.watches wd ≡ some w)
    (v : IsValid s) where
  left : Tables
  left = release c wd (s.watches, s.path_to_wd)

  remove_found : remove_watch s c wd ≡ (
    record s {
      watches = left.0;
      path_to_wd = left.1;
      clients = modify s.clients c (drop_watch wd);
    },
    true,
  )
  unfolding remove_watch left
  remove_found = ground (arith, found)

  subs_after :
      (d : ℕ)
      → watches_of (get (modify s.clients c (drop_watch wd)) d)
        ≡ (if c == d then without wd (subs s d) else subs s d)
  unfolding drop_watch
  subs_after d = ground (arith, get-modify s.clients c (drop_watch wd) d)

  back :
      (d : ℕ) (dl : Client)
      → get (modify s.clients c (drop_watch wd)) d ≡ some dl
      → (dl' : Client) × (get s.clients d ≡ some dl') × (dl'.id ≡ dl.id)
  unfolding drop_watch
  back d dl h = elim (Option-cases (get s.clients d)) [
    | inl absent ↦ absurd (ground (arith, absent, h, get-modify s.clients c (drop_watch wd) d))
    | inr (dl', at) ↦ (dl', at, ground (arith, at, h, get-modify s.clients c (drop_watch wd) d))
  ]

  remove_found-IsValid : IsValid (remove_watch s c wd).0
  unfolding left
  remove_found-IsValid = rw remove_found (record {
    linked =
        release-IsLinked c wd (subs s) _ (s.watches, s.path_to_wd) v.linked
          (λ d q either m.
            ground (arith, either, m, subs_after d, contains-without_ne wd q (subs s d)));
    listed = λ d q m. elim (Bool-cases (c == d)) [
      | inl same ↦
          let other : q ≢ wd =
            ground (arith, same, m, subs_after d, contains-without_self wd (subs s d)) in
          let (u, at, m') =
            v.listed d q
              (ground (arith, same, m, subs_after d, contains-without_ne wd q (subs s d), other)) in
          (u, ground (arith, get-release_ne c wd q (s.watches, s.path_to_wd), other, at), m')
      | inr other ↦
          let (u, at, m') = v.listed d q (ground (arith, other, m, subs_after d)) in
          release_keeps c wd q d (s.watches, s.path_to_wd) u (ground (arith, other)) at m'
    ];
    identified = λ d dl h. let (dl', at, e) = back d dl h in sym e ∙ v.identified d dl' at;
    fresh_client = λ d dl h. let (dl', at, e) = back d dl h in v.fresh_client d dl' at;
    fresh_wd = λ q u h.
        let (u', at, e) = release_back c wd q (s.watches, s.path_to_wd) u h in v.fresh_wd q u' at;
  })

  -- In a valid state, `remove_watch` of a watch that is there answers true, ends the client's
  -- subscription to the path of the watch, and leaves every other subscription alone.
  pub subscribes-remove_watch :
      (d : ℕ) (p : FilePath)
      → ((remove_watch s c wd).1 ≡ true)
        × (subscribes (remove_watch s c wd).0 d p
            ≡ (subscribes s d p && not ((c == d) && (w.path == p))))
  unfolding left
  subscribes-remove_watch d p =
      rw remove_found
        (refl, subscribed_in-release (subs s) (s.watches, s.path_to_wd) v.linked c wd d w p found)

  -- In a valid state, it answers true to a client that has no part in the watch, too, and then
  -- changes no subscription.
  pub remove_watch_stranger :
      (d : ℕ) (p : FilePath)
      → contains w.clients c ≡ false
      → ((remove_watch s c wd).1 ≡ true)
        × (subscribes (remove_watch s c wd).0 d p ≡ subscribes s d p)
  remove_watch_stranger d p stranger =
      let (answer, e) = subscribes-remove_watch d p in
      (
        answer,
        ground (
          arith,
          e,
          list_beq_iff w.path p,
          subscribed_in_lem (subs s) (s.watches, s.path_to_wd) v.linked c wd w found,
        ),
      )

pub remove_watch-IsValid :
    (s : DaemonState) (c wd : ℕ) → IsValid s → IsValid (remove_watch s c wd).0
unfolding remove_watch
remove_watch-IsValid s c wd v = elim (Option-cases (get s.watches wd)) [
  | inl absent ↦ rw (absent, remove_watch) v
  | inr (w, found) ↦ remove_found-IsValid s c wd w found v
]

-- It answers false exactly for a descriptor of no watch.
pub remove_watch_absent :
    (s : DaemonState) (c wd : ℕ) → ((remove_watch s c wd).1 ≡ false) ↔ (get s.watches wd ≡ none)
unfolding remove_watch
remove_watch_absent s c wd = (λ h. ground (arith, h), λ h. ground (arith, h))
