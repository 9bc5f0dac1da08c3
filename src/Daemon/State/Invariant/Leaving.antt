-- ===== src/Daemon/State/Invariant/Leaving.antt =====
-- crates/daemon/src/state.rs: `unregister_client` and the invariant.
use fake_notify.Base.{
  ℕ, ◌≡◌, refl, ◌∙◌, ◌≢◌, inl, inr, true, not, ◌&&◌, some, List, [], ◌∷◌, contains, if◌then◌else◌,
  get, remove, get-remove, FilePath, ◌==◌, list_eq, component_eq, nat_eq, arith, Bool-cases,
  Option-cases,
}
use fake_notify.Daemon.State.{
  WatchInfo, Client, DaemonState, Tables, release, release_all, subscribed_in, subscribes,
  unregister_client,
}
use fake_notify.Daemon.State.Links.{IsLinked, IsLinked-mono, Forgets, release-IsLinked}
use fake_notify.Daemon.State.Release.{
  release_missing, release_back, release_keeps, subscribed_in-release, subscribed_in_nothing,
}
use fake_notify.Daemon.State.Invariant.{IsValid, subs}

-- A client that is leaving, with the watches that it has still to leave.
abbrev leaving : ℕ → List ℕ → (ℕ → List ℕ) → ℕ → List ℕ
leaving c wds known d = if d == c then wds else known d

leave_one :
    (c wd : ℕ) (wds : List ℕ) (known : ℕ → List ℕ)
    → Forgets c wd (leaving c (wd ∷ wds) known) (leaving c wds known)
leave_one c wd wds known d q either m = ground arith

module _ (c : ℕ) (known : ℕ → List ℕ) where
  pub release_all-IsLinked :
      (wds : List ℕ) (t : Tables)
      → IsLinked (leaving c wds known) t
      → IsLinked (leaving c [] known) (release_all c wds t)
  unfolding release_all
  release_all-IsLinked [] t l = l
  release_all-IsLinked (wd ∷ wds) t l =
      release_all-IsLinked wds (release c wd t)
        (release-IsLinked c wd _ _ t l (leave_one c wd wds known))

  pub release_all_others :
      (wds : List ℕ) (t : Tables) (d : ℕ) (p : FilePath)
      → d ≢ c
      → IsLinked (leaving c wds known) t
      → subscribed_in (release_all c wds t) d p ≡ subscribed_in t d p
  unfolding release_all
  release_all_others [] t d p ne l = refl
  release_all_others (wd ∷ wds) t d p ne l =
      release_all_others wds (release c wd t) d p ne
        (release-IsLinked c wd _ _ t l (leave_one c wd wds known))
      ∙ elim (Option-cases (get t.0 wd)) [
        | inl missing ↦ rw (release_missing c wd t missing)
        | inr (w, found) ↦ ground (arith, subscribed_in-release _ t l c wd d w p found)
      ]

pub release_all_back :
    (c : ℕ) (wds : List ℕ) (t : Tables) (q : ℕ) (v : WatchInfo)
    → get (release_all c wds t).0 q ≡ some v
    → (w : WatchInfo) × (get t.0 q ≡ some w)
unfolding release_all
release_all_back c [] t q v h = (v, h)
release_all_back c (wd ∷ wds) t q v h =
    let (u, at) = release_all_back c wds (release c wd t) q v h in
    let (w, at', e) = release_back c wd q t u at in (w, at')

pub release_all_keeps :
    (c : ℕ) (wds : List ℕ) (t : Tables) (q d : ℕ) (w : WatchInfo)
    → d ≢ c
    → get t.0 q ≡ some w
    → contains w.clients d ≡ true
    → (v : WatchInfo) × (get (release_all c wds t).0 q ≡ some v) × (contains v.clients d ≡ true)
unfolding release_all
release_all_keeps c [] t q d w ne at m = (w, at, m)
release_all_keeps c (wd ∷ wds) t q d w ne at m =
    let (v, at', m') = release_keeps c wd q d t w ne at m in
    release_all_keeps c wds (release c wd t) q d v ne at' m'

-- `unregister_client` of a client that is connected.
module _ (s : DaemonState) (c : ℕ) (cl : Client) (found : get s.clients c ≡ some cl)
    (v : IsValid s) where
  left : Tables
  left = release_all c cl.watches (s.watches, s.path_to_wd)

  unregister_lem :
      unregister_client s c
      ≡ record s { watches = left.0; path_to_wd = left.1; clients = remove s.clients c }
  unfolding unregister_client left
  unregister_lem = ground (arith, found)

  before : IsLinked (leaving c cl.watches (subs s)) (s.watches, s.path_to_wd)
  before = IsLinked-mono {subs = subs s} (λ d q m. ground (arith, found, m)) v.linked

  unregister_found-IsValid : IsValid (unregister_client s c)
  unfolding left
  unregister_found-IsValid = rw unregister_lem (record {
    linked =
        IsLinked-mono {subs = leaving c [] (subs s)}
          (λ d q m. ground (arith, get-remove s.clients c d, m))
          (release_all-IsLinked c (subs s) cl.watches (s.watches, s.path_to_wd) before);
    listed = λ d q m.
        let other : d ≢ c = ground (arith, get-remove s.clients c d, m) in
        let (w, at, m') = v.listed d q (ground (arith, get-remove s.clients c d, other, m)) in
        release_all_keeps c cl.watches (s.watches, s.path_to_wd) q d w other at m';
    identified = λ d dl h. v.identified d dl (ground (arith, get-remove s.clients c d, h));
    fresh_client = λ d dl h. v.fresh_client d dl (ground (arith, get-remove s.clients c d, h));
    fresh_wd = λ q w h.
        let (w', at) = release_all_back c cl.watches (s.watches, s.path_to_wd) q w h in
        v.fresh_wd q w' at;
  })

  unregister_found-subscribes :
      (d : ℕ) (p : FilePath)
      → subscribes (unregister_client s c) d p ≡ (subscribes s d p && not (d == c))
  unfolding left
  unregister_found-subscribes d p = elim (Bool-cases (d == c)) [
    | inl same ↦ rw unregister_lem (
        ground (
          arith,
          same,
          subscribed_in_nothing (leaving c [] (subs s)) left
              (release_all-IsLinked c (subs s) cl.watches (s.watches, s.path_to_wd) before) d p
              (ground (arith, same)),
        ))
    | inr other ↦ rw unregister_lem (
        ground (
          arith,
          other,
          release_all_others c (subs s) cl.watches (s.watches, s.path_to_wd) d p (ground arith)
              before,
        ))
  ]

pub unregister_client-IsValid :
    (s : DaemonState) (c : ℕ) → IsValid s → IsValid (unregister_client s c)
unfolding unregister_client
unregister_client-IsValid s c v = elim (Option-cases (get s.clients c)) [
  | inl absent ↦ rw (absent, unregister_client) v
  | inr (cl, found) ↦ unregister_found-IsValid s c cl found v
]

-- In a valid state, `unregister_client` ends every subscription of the client, and no subscription
-- of another.
pub subscribes-unregister_client :
    (s : DaemonState) (c d : ℕ) (p : FilePath)
    → IsValid s
    → subscribes (unregister_client s c) d p ≡ (subscribes s d p && not (d == c))
unfolding unregister_client
subscribes-unregister_client s c d p v = elim (Option-cases (get s.clients c)) [
  | inl absent ↦
      rw (absent, unregister_client)
        (ground (
          arith,
          subscribed_in_nothing (subs s) (s.watches, s.path_to_wd) v.linked c p
              (ground (arith, absent)),
        ))
  | inr (cl, found) ↦ unregister_found-subscribes s c cl found v d p
]
