-- ===== src/Daemon/State/Invariant/Adding.antt =====
-- crates/daemon/src/state.rs: `add_watch` and the invariant, and a path that is watched already.
use fake_notify.Base.{
  ℕ, ◌≡◌, refl, sym, ◌∙◌, ◌≢◌, ◌⊎◌, inl, inr, Bool, true, false, ◌||◌, ◌&&◌, some, [], ◌∷◌,
  contains, is_empty, get, modify, get-modify, FilePath, ◌==◌, list_eq, component_eq, nat_eq, arith,
  Bool-cases, Option-cases, contains-append, list_beq_iff,
}
use fake_notify.Daemon.State.{
  WatchInfo, Client, DaemonState, subscribed_in, subscribes, add_watch, push_watch, join_watch,
  existing,
}
use fake_notify.Daemon.State.Links.{IsDistinct}
use fake_notify.Daemon.State.Invariant.{IsValid, subs}
use fake_notify.Daemon.State.Invariant.Joining.{subs_push, push_back, push-IsDistinct}

pub join-clients :
    (c m d : ℕ) (w : WatchInfo)
    → contains (join_watch c m w).clients d ≡ ((c == d) || contains w.clients d)
unfolding join_watch
join-clients c m d w = ground (arith, contains-append w.clients (c ∷ []) d)

-- Joining changes neither the key of a watch nor its path.
pub join-same :
    (c m : ℕ) (w : WatchInfo) → ((join_watch c m w).wd ≡ w.wd) × ((join_watch c m w).path ≡ w.path)
unfolding join_watch
join-same c m w = (refl, refl)

join-is_empty :
    (c m : ℕ) (w : WatchInfo)
    → is_empty w.clients ≡ false
    → is_empty (join_watch c m w).clients ≡ false
unfolding join_watch
join-is_empty c m w h = ground (arith, h, contains-append [] (c ∷ []) c)

join-IsDistinct :
    (c m : ℕ) (w : WatchInfo) → IsDistinct w.clients → IsDistinct (join_watch c m w).clients
unfolding join_watch
join-IsDistinct c m w d = elim (Bool-cases (contains w.clients c)) [
  | inl old ↦ rw old d
  | inr fresh ↦ rw fresh (push-IsDistinct c w.clients fresh d)
]

module _ (s : DaemonState) (c : ℕ) (path : FilePath) (mask : ℕ) (recursive : Bool) (cl : Client)
    (connected : get s.clients c ≡ some cl) (v : IsValid s) where
  -- The path is watched: the client joins.
  module _ (wd : ℕ) (w : WatchInfo) (there : existing s path ≡ some (wd, w))
      (found : get s.watches wd ≡ some w) where
    abbrev pub joined : DaemonState
    joined = record s {
      watches = modify s.watches wd (join_watch c mask);
      clients = modify s.clients c (push_watch wd);
    }

    pub add_joined : add_watch s c path mask recursive ≡ (joined, wd)
    unfolding add_watch
    add_joined = ground (arith, there)

    after_join :
        (q : ℕ) (u : WatchInfo)
        → get (modify s.watches wd (join_watch c mask)) q ≡ some u
        → ((q ≡ wd) × (u ≡ join_watch c mask w)) ⊎ ((q ≢ wd) × (get s.watches q ≡ some u))
    after_join q u h =
        let law = get-modify s.watches wd (join_watch c mask) q in
        elim (Bool-cases (wd == q)) [
          | inl hit ↦ inl (ground (arith, hit), ground (arith, law, hit, found))
          | inr miss ↦ inr (ground (arith, miss), ground (arith, law, miss))
        ]

    kept_there :
        (q d : ℕ) (u : WatchInfo)
        → get s.watches q ≡ some u
        → (contains u.clients d ≡ true) ⊎ ((q ≡ wd) × (c ≡ d))
        → (u' : WatchInfo) × (get (modify s.watches wd (join_watch c mask)) q ≡ some u')
          × (contains u'.clients d ≡ true)
    kept_there q d u at m =
        let law = get-modify s.watches wd (join_watch c mask) q in
        elim (Bool-cases (wd == q)) [
          | inl hit ↦ (
            join_watch c mask w,
            ground (arith, law, hit, found),
            ground (arith, join-clients c mask d w, hit, found, at, m),
          )
          | inr miss ↦ (u, ground (arith, law, miss, at), ground (arith, miss, m))
        ]

    pub joined-IsValid : IsValid joined
    joined-IsValid = record {
      linked = record {
        keyed = λ q u h. elim (after_join q u h) [
          | inl (hit, e) ↦ ground (arith, hit, e, join-same c mask w, v.linked.keyed wd w found)
          | inr (miss, old) ↦ v.linked.keyed q u old
        ];
        path_known = λ q u h. elim (after_join q u h) [
          | inl (hit, e) ↦
              ground (arith, hit, e, join-same c mask w, v.linked.path_known wd w found)
          | inr (miss, old) ↦ v.linked.path_known q u old
        ];
        wd_known = λ p q h.
            let (u, at, e) = v.linked.wd_known p q h in
            let law = get-modify s.watches wd (join_watch c mask) q in
            elim (Bool-cases (wd == q)) [
              | inl hit ↦ (
                join_watch c mask w,
                ground (arith, law, hit, found),
                ground (arith, join-same c mask w, hit, found, at, e),
              )
              | inr miss ↦ (u, ground (arith, law, miss, at), e)
            ];
        watched = λ q u h. elim (after_join q u h) [
          | inl (hit, e) ↦ rw e (join-is_empty c mask w (v.linked.watched wd w found))
          | inr (miss, old) ↦ v.linked.watched q u old
        ];
        distinct = λ q u h. elim (after_join q u h) [
          | inl (hit, e) ↦ rw e (join-IsDistinct c mask w (v.linked.distinct wd w found))
          | inr (miss, old) ↦ v.linked.distinct q u old
        ];
        known = λ q d u h m. elim (after_join q u h) [
          | inl (hit, e) ↦ ground (
            arith,
            hit,
            subs_push s c wd cl d connected,
            contains-append (subs s d) (wd ∷ []) q,
            join-clients c mask d w,
            e,
            m,
            v.linked.known wd d w found,
          )
          | inr (miss, old) ↦ ground (
            arith,
            subs_push s c wd cl d connected,
            contains-append (subs s d) (wd ∷ []) q,
            v.linked.known q d u old m,
          )
        ];
      };
      listed = λ d q m.
          let law = subs_push s c wd cl d connected in
          let both = contains-append (subs s d) (wd ∷ []) q in
          elim (Bool-cases (contains (subs s d) q)) [
            | inl old ↦ let (u, at, m') = v.listed d q old in kept_there q d u at (inl m')
            | inr fresh ↦
                kept_there q d w (ground (arith, law, both, fresh, m, found))
                  (inr (ground (arith, law, both, fresh, m), ground (arith, law, both, fresh, m)))
          ];
      identified =
          λ d dl h. let (dl', at, e) = push_back s c wd d dl h in sym e ∙ v.identified d dl' at;
      fresh_client =
          λ d dl h. let (dl', at, e) = push_back s c wd d dl h in v.fresh_client d dl' at;
      fresh_wd = λ q u h. elim (after_join q u h) [
        | inl (hit, e) ↦ rw hit (v.fresh_wd wd w found)
        | inr (miss, old) ↦ v.fresh_wd q u old
      ];
    }

    pub joined-subscribes :
        (d : ℕ) (p : FilePath)
        → w.path ≡ path
        → subscribes joined d p ≡ ((c == d) && (path == p) || subscribes s d p)
    unfolding subscribed_in
    joined-subscribes d p on = elim (Option-cases (get s.path_to_wd p)) [
      | inl absent ↦ ground (arith, absent, on, list_beq_iff path p, v.linked.path_known wd w found)
      | inr (q, to) ↦
          let (u, at, e) = v.linked.wd_known p q to in
          ground (
            arith,
            to,
            at,
            e,
            found,
            on,
            list_beq_iff path p,
            v.linked.path_known wd w found,
            get-modify s.watches wd (join_watch c mask) q,
            join-clients c mask d w,
          )
    ]
