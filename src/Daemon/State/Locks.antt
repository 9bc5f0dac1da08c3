-- ===== src/Daemon/State/Locks.antt =====
-- crates/daemon/src/state.rs: the locks that the methods of `DaemonState` take, in the order in which they
-- take them. A lock for reading counts as one for writing, and the lists of all clients' watches as one.
pub mod Holders
pub mod Order
use fake_notify.Base.{
  ℕ, Bool, true, false, not, ◌&&◌, List, [], ◌∷◌, ◌++◌, ◌≡◌, contains, is_empty, nat_eq,
}

abbrev pub watches_lock : ℕ
watches_lock = 0

abbrev pub path_to_wd_lock : ℕ
path_to_wd_lock = 1

abbrev pub clients_lock : ℕ
clients_lock = 2

abbrev pub client_watches_lock : ℕ
client_watches_lock = 3

-- The calls of methods, of all but `stats`, which nothing calls, each with what the call finds: whether the
-- client is in the table, and whether the watch is.
pub data Method : Type 0 where
  register_client get_client get_watched_paths get_watch get_wd_for_path : Method
  find_watch_for_path get_clients_for_watch : Method
  unregister_client add_watch : (connected : Bool) → Method
  remove_watch : (found connected : Bool) → Method

-- The table of the clients, and then the list of the client's watches.
unfoldable pub client_locks : Bool → List ℕ
client_locks true = clients_lock ∷ client_watches_lock ∷ []
client_locks false = clients_lock ∷ []

-- The locks that a call takes, up to where it releases them; `unregister_client` releases its first ones
-- before it takes more, or returns.
unfoldable pub sections : Method → List (List ℕ)
unfolding client_locks
sections Method.register_client = (clients_lock ∷ []) ∷ []
sections (Method.unregister_client true) =
    client_locks true ∷ (watches_lock ∷ path_to_wd_lock ∷ clients_lock ∷ []) ∷ []
sections (Method.unregister_client false) = client_locks false ∷ []
sections Method.get_client = (clients_lock ∷ []) ∷ []
sections (Method.add_watch connected) =
    (watches_lock ∷ path_to_wd_lock ∷ client_locks connected) ∷ []
sections (Method.remove_watch true connected) =
    (watches_lock ∷ path_to_wd_lock ∷ client_locks connected) ∷ []
sections (Method.remove_watch false connected) = (watches_lock ∷ path_to_wd_lock ∷ []) ∷ []
sections Method.get_watched_paths = (watches_lock ∷ []) ∷ []
sections Method.get_watch = (watches_lock ∷ []) ∷ []
sections Method.get_wd_for_path = (path_to_wd_lock ∷ []) ∷ []
sections Method.find_watch_for_path = (watches_lock ∷ path_to_wd_lock ∷ []) ∷ []
sections Method.get_clients_for_watch = (watches_lock ∷ clients_lock ∷ []) ∷ []

-- A thread: the locks that it holds, those that it is still to take with them, and what it does then.
pub record Thread : Type 0 where
  pub held : List ℕ
  pub wanted : List ℕ
  pub later : List (List ℕ)

unfoldable pub calls : List Method → List (List ℕ)
unfolding sections
calls [] = []
calls (m ∷ ms) = sections m ++ calls ms

unfoldable pub thread : List Method → Thread
unfolding calls
thread ms = record { held = []; wanted = []; later = calls ms }

unfoldable pub is_done : Thread → Bool
is_done t = is_empty t.held && (is_empty t.wanted && is_empty t.later)

unfoldable pub is_free : List Thread → ℕ → Bool
is_free [] lock = true
is_free (t ∷ ts) lock = not (contains t.held lock) && is_free ts lock

-- A thread waits for a lock that any thread holds.
unfoldable pub can_step : List Thread → Thread → Bool
unfolding is_done is_free
can_step ts t = elim t.wanted [ [] ↦ not (is_done t) | lock ∷ rest ↦ is_free ts lock ]

-- It takes the next lock, or releases all and goes on.
unfoldable pub step : Thread → Thread
step t = elim t.wanted [
  | lock ∷ rest ↦ record t { held = lock ∷ t.held; wanted = rest }
  | [] ↦ elim t.later [
    | [] ↦ record t { held = [] }
    | section ∷ more ↦ record { held = []; wanted = section; later = more }
  ]
]

pub data Reach (start : List Thread) : List Thread → Type 0 where
  here : Reach start start
  next :
      {ts us : List Thread} (before after : List Thread) (t : Thread)
      → Reach start ts
      → ts ≡ before ++ (t ∷ after)
      → can_step ts t ≡ true
      → us ≡ before ++ (step t ∷ after)
      → Reach start us
