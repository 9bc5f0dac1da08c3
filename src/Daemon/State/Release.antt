-- ===== src/Daemon/State/Release.antt =====
-- crates/daemon/src/state.rs: what `release`, the step that `unregister_client` and `remove_watch`
-- share, does to the subscriptions.
use fake_notify.Base.{
  ℕ, ◌≡◌, refl, ap, ◌≢◌, inl, inr, true, false, not, ◌&&◌, none, some, List, [], ◌∷◌, contains,
  without, is_empty, if◌then◌else◌, get, get-remove, get-modify, FilePath, ◌==◌, list_eq,
  component_eq, nat_eq, arith, Bool-cases, Option-cases, contains-without_self, contains-without_ne,
  list_beq_iff,
}
use fake_notify.Daemon.State.{WatchInfo, Tables, release, subscribed_in}
use fake_notify.Daemon.State.Links.{IsLinked, release_last, release_shared}

contains-is_empty : (cs : List ℕ) (d : ℕ) → is_empty cs ≡ true → contains cs d ≡ false
contains-is_empty [] d h = refl
contains-is_empty (c ∷ cs) d h = cc

pub release_missing : (c wd : ℕ) (t : Tables) → get t.0 wd ≡ none → release c wd t ≡ t
unfolding release
release_missing c wd t h = ground (arith, h)

contains-without :
    (c d : ℕ) (cs : List ℕ) → contains (without c cs) d ≡ (contains cs d && not (c == d))
contains-without c d cs = ground (arith, contains-without_self c cs, contains-without_ne c d cs)

-- Other watches stay as they are.
pub get-release_ne : (c wd q : ℕ) (t : Tables) → q ≢ wd → get (release c wd t).0 q ≡ get t.0 q
get-release_ne c wd q t h = elim (Option-cases (get t.0 wd)) [
  | inl missing ↦ rw (release_missing c wd t missing)
  | inr (w, found) ↦ elim (Bool-cases (is_empty (without c w.clients))) [
    | inl e ↦ rw (release_last c wd t w found e) (ground (arith, get-remove t.0 wd q))
    | inr e ↦
        rw (release_shared c wd t w found e)
          (ground (arith, get-modify t.0 wd (λ v. record v { clients = without c w.clients }) q))
  ]
]

-- What is left of the watch itself.
pub get-release_self :
    (c wd : ℕ) (t : Tables) (w : WatchInfo)
    → get t.0 wd ≡ some w
    → get (release c wd t).0 wd ≡ (
        if is_empty (without c w.clients)
        then none
        else some (record w { clients = without c w.clients }))
get-release_self c wd t w found = elim (Bool-cases (is_empty (without c w.clients))) [
  | inl e ↦ rw (release_last c wd t w found e) (ground (arith, e, get-remove t.0 wd wd))
  | inr e ↦ rw (release_shared c wd t w found e) (
      ground
        (arith, e, found, get-modify t.0 wd (λ v. record v { clients = without c w.clients }) wd))
]

-- A watch that is left was there, on the same path.
pub release_back :
    (c wd q : ℕ) (t : Tables) (v : WatchInfo)
    → get (release c wd t).0 q ≡ some v
    → (w : WatchInfo) × (get t.0 q ≡ some w) × (w.path ≡ v.path)
release_back c wd q t v h = elim (Option-cases (get t.0 wd)) [
  | inl missing ↦ (v, rw (release_missing c wd t missing) at h, refl)
  | inr (w, found) ↦ elim (Bool-cases (q == wd)) [
    | inl same ↦
        (w, ground (arith, same, found), ground (arith, same, h, get-release_self c wd t w found))
    | inr other ↦ (v, ground (arith, other, h, get-release_ne c wd q t), refl)
  ]
]

-- Another client of a watch stays its client.
pub release_keeps :
    (c wd q d : ℕ) (t : Tables) (w : WatchInfo)
    → d ≢ c
    → get t.0 q ≡ some w
    → contains w.clients d ≡ true
    → (v : WatchInfo) × (get (release c wd t).0 q ≡ some v) × (contains v.clients d ≡ true)
release_keeps c wd q d t w ne at m = elim (Bool-cases (q == wd)) [
  | inl same ↦ (
    record w { clients = without c w.clients },
    ground (
      arith,
      same,
      get-release_self c wd t w,
      contains-is_empty (without c w.clients) d,
      contains-without_ne c d w.clients,
    ),
    ground (arith, contains-without_ne c d w.clients),
  )
  | inr other ↦ (w, ground (arith, other, get-release_ne c wd q t), m)
]

module _ (subs : ℕ → List ℕ) (t : Tables) (l : IsLinked subs t) where
  -- On linked tables a subscription is read off the watch itself.
  pub subscribed_in_lem :
      (d q : ℕ) (w : WatchInfo)
      → get t.0 q ≡ some w
      → subscribed_in t d w.path ≡ contains w.clients d
  unfolding subscribed_in
  subscribed_in_lem d q w h = ground (arith, l.path_known q w h, h)

-- The path goes with the last client.
get-release_path :
    (c wd : ℕ) (t : Tables) (w : WatchInfo) (p : FilePath)
    → get t.0 wd ≡ some w
    → get (release c wd t).1 p
      ≡ (if is_empty (without c w.clients) && (w.path == p) then none else get t.1 p)
get-release_path c wd t w p found = elim (Bool-cases (is_empty (without c w.clients))) [
  | inl e ↦ rw (release_last c wd t w found e) (ground (arith, e, get-remove t.1 w.path p))
  | inr e ↦ rw (release_shared c wd t w found e) (ground (arith, e))
]

-- `release` ends the one subscription and no other.
pub subscribed_in-release :
    (subs : ℕ → List ℕ) (t : Tables) (l : IsLinked subs t) (c wd d : ℕ) (w : WatchInfo)
    (p : FilePath)
    → get t.0 wd ≡ some w
    → subscribed_in (release c wd t) d p ≡ (subscribed_in t d p && not ((c == d) && (w.path == p)))
unfolding subscribed_in
subscribed_in-release subs t l c wd d w p found = elim (Option-cases (get t.1 p)) [
  | inl absent ↦ ground (arith, absent, get-release_path c wd t w p found)
  | inr (q, to) ↦
      let (v, at, e) = l.wd_known p q to in
      elim (Bool-cases (q == wd)) [
        | inl same ↦ ground (
          arith,
          same,
          to,
          at,
          e,
          found,
          list_beq_iff w.path p,
          get-release_path c wd t w p found,
          get-release_self c wd t w found,
          contains-without c d w.clients,
          contains-is_empty (without c w.clients) d,
        )
        | inr other ↦ ground (
          arith,
          other,
          to,
          at,
          e,
          l.path_known wd w found,
          list_beq_iff w.path p,
          get-release_path c wd t w p found,
          get-release_ne c wd q t,
        )
      ]
]

-- A client that knows of no watch has no subscription.
pub subscribed_in_nothing :
    (subs : ℕ → List ℕ) (t : Tables) (l : IsLinked subs t) (d : ℕ) (p : FilePath)
    → subs d ≡ []
    → subscribed_in t d p ≡ false
unfolding subscribed_in
subscribed_in_nothing subs t l d p e = elim (Option-cases (get t.1 p)) [
  | inl absent ↦ ground (arith, absent)
  | inr (q, to) ↦
      let (w, at, e') = l.wd_known p q to in
      ground (arith, to, at, e, l.known q d w at, ap (λ xs. contains xs q) e)
]
