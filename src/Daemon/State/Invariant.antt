-- ===== src/Daemon/State/Invariant.antt =====
-- crates/daemon/src/state.rs: the invariant of the daemon's state.
pub mod Leaving
pub mod Removing
pub mod Joining
pub mod Adding
pub mod Creating
use fake_notify.Base.{ℕ, ◌<◌, ◌≡◌, Bool, true, Option, none, some, List, [], contains, get, nat_eq}
use fake_notify.Daemon.State.{DaemonState, Client, WatchInfo}
use fake_notify.Daemon.State.Links.{IsLinked}

-- The watches that a connected client knows of.
abbrev pub watches_of : Option Client → List ℕ
watches_of none = []
watches_of (some c) = c.watches

abbrev pub subs : DaemonState → ℕ → List ℕ
subs s c = watches_of (get s.clients c)

pub record IsValid (s : DaemonState) : Type 0 where
  -- The two tables fit each other, and the clients of a watch are connected and know of it.
  pub linked : IsLinked (subs s) (s.watches, s.path_to_wd)
  -- What a client knows of is there, with the client.
  pub listed :
      (c q : ℕ)
      → contains (subs s c) q ≡ true
      → (w : WatchInfo) × (get s.watches q ≡ some w) × (contains w.clients c ≡ true)
  pub identified : (c : ℕ) (cl : Client) → get s.clients c ≡ some cl → cl.id ≡ c
  -- What is not yet given out is not in use.
  pub fresh_client : (c : ℕ) (cl : Client) → get s.clients c ≡ some cl → c < s.next_client_id
  pub fresh_wd : (q : ℕ) (w : WatchInfo) → get s.watches q ≡ some w → q < s.next_wd
