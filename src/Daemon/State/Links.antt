-- ===== src/Daemon/State/Links.antt =====
-- crates/daemon/src/state.rs: what ties the tables of watches and paths together, and `release`.
use fake_notify.Base.{
  ℕ, ◌≡◌, ◌≢◌, ◌⊎◌, inl, inr, true, false, some, List, [], ◌∷◌, contains, without, is_empty, get,
  remove, modify, get-remove, get-modify, FilePath, ◌==◌, list_eq, component_eq, nat_eq, arith,
  Bool-cases, Option-cases, contains-without_self, contains-without_ne, list_beq_iff,
}
use fake_notify.Daemon.State.{WatchInfo, Tables, release}

-- No client occurs twice.
abbrev pub IsDistinct : List ℕ → Type 0
IsDistinct [] = Unit {0}
IsDistinct (c ∷ cs) = (contains cs c ≡ false) × IsDistinct cs

-- `subs c` are the watches that client c knows of, for a connected client.
pub record IsLinked (subs : ℕ → List ℕ) (t : Tables) : Type 0 where
  -- A watch carries its own key.
  pub keyed : (q : ℕ) (w : WatchInfo) → get t.0 q ≡ some w → w.wd ≡ q
  -- The path of a watch leads to it.
  pub path_known : (q : ℕ) (w : WatchInfo) → get t.0 q ≡ some w → get t.1 w.path ≡ some q
  -- A path in the table leads to a watch on that path.
  pub wd_known :
      (p : FilePath) (q : ℕ)
      → get t.1 p ≡ some q
      → (w : WatchInfo) × (get t.0 q ≡ some w) × (w.path ≡ p)
  -- A watch has a client.
  pub watched : (q : ℕ) (w : WatchInfo) → get t.0 q ≡ some w → is_empty w.clients ≡ false
  pub distinct : (q : ℕ) (w : WatchInfo) → get t.0 q ≡ some w → IsDistinct w.clients
  -- The clients of a watch know of it.
  pub known :
      (q c : ℕ) (w : WatchInfo)
      → get t.0 q ≡ some w
      → contains w.clients c ≡ true
      → contains (subs c) q ≡ true

without-IsDistinct : (a : ℕ) (cs : List ℕ) → IsDistinct cs → IsDistinct (without a cs)
without-IsDistinct a [] d = tt
without-IsDistinct a (c ∷ cs) d =
    ground (arith, without-IsDistinct a cs d.1, contains-without_ne a c cs)

-- What `release` does to a watch that is there.
module _ (c wd : ℕ) (t : Tables) (w : WatchInfo) (found : get t.0 wd ≡ some w) where
  abbrev pub kept : List ℕ
  kept = without c w.clients

  -- The watch goes.
  pub release_last : is_empty kept ≡ true → release c wd t ≡ (remove t.0 wd, remove t.1 w.path)
  unfolding release
  release_last e = ground (arith, e)

  -- The watch stays, with one client less.
  pub release_shared :
      is_empty kept ≡ false
      → release c wd t ≡ (modify t.0 wd (λ v. record v { clients = kept }), t.1)
  unfolding release
  release_shared e = ground (arith, e)

-- The clients may forget what `c` knew of `wd`, and nothing else.
abbrev pub Forgets : ℕ → ℕ → (ℕ → List ℕ) → (ℕ → List ℕ) → Type 0
Forgets c wd subs subs' =
    (d q : ℕ) → ((d ≢ c) ⊎ (q ≢ wd)) → contains (subs d) q ≡ true → contains (subs' d) q ≡ true

module _ (c wd : ℕ) (subs subs' : ℕ → List ℕ) (t : Tables) (w : WatchInfo)
    (found : get t.0 wd ≡ some w) (l : IsLinked subs t) (forgets : Forgets c wd subs subs') where
  others :
      (q : ℕ) (v : WatchInfo) → get (remove t.0 wd) q ≡ some v → (q ≢ wd) × (get t.0 q ≡ some v)
  others q v h = ground (arith, get-remove t.0 wd q)

  last-IsLinked : IsLinked subs' (remove t.0 wd, remove t.1 w.path)
  last-IsLinked = record {
    keyed = λ q v h. l.keyed q v (others q v h).1;
    path_known = λ q v h.
        let (ne, old) = others q v h in
        ground (
          arith,
          get-remove t.1 w.path v.path,
          list_beq_iff w.path v.path,
          l.path_known q v old,
          l.path_known wd w found,
        );
    wd_known = λ p q h.
        let old : get t.1 p ≡ some q = ground (arith, get-remove t.1 w.path p) in
        let (v, at, e) = l.wd_known p q old in
        (
          v,
          ground (
            arith,
            get-remove t.0 wd q,
            get-remove t.1 w.path p,
            list_beq_iff w.path p,
            at,
            e,
            found,
          ),
          e,
        );
    watched = λ q v h. l.watched q v (others q v h).1;
    distinct = λ q v h. l.distinct q v (others q v h).1;
    known = λ q d v h m. let (ne, old) = others q v h in forgets d q (inr ne) (l.known q d v old m);
  }

  abbrev shrunk : WatchInfo → WatchInfo
  shrunk v = record v { clients = without c w.clients }

  after_shrink :
      (q : ℕ) (v : WatchInfo)
      → get (modify t.0 wd shrunk) q ≡ some v
      → ((q ≡ wd) × (v ≡ shrunk w)) ⊎ ((q ≢ wd) × (get t.0 q ≡ some v))
  after_shrink q v h = elim (Bool-cases (wd == q)) [
    | inl hit ↦ inl (ground (arith, hit), ground (arith, get-modify t.0 wd shrunk q, hit, found))
    | inr miss ↦ inr (ground (arith, miss), ground (arith, get-modify t.0 wd shrunk q, miss))
  ]

  shared-IsLinked :
      is_empty (without c w.clients) ≡ false → IsLinked subs' (modify t.0 wd shrunk, t.1)
  shared-IsLinked some_left = record {
    keyed = λ q v h. elim (after_shrink q v h) [
      | inl (hit, e) ↦ ground (arith, hit, e, l.keyed wd w found)
      | inr (miss, old) ↦ l.keyed q v old
    ];
    path_known = λ q v h. elim (after_shrink q v h) [
      | inl (hit, e) ↦ ground (arith, hit, e, l.path_known wd w found)
      | inr (miss, old) ↦ l.path_known q v old
    ];
    wd_known = λ p q h.
        let (v, at, e) = l.wd_known p q h in
        elim (Bool-cases (wd == q)) [
          | inl hit ↦ (
            shrunk w,
            ground (arith, get-modify t.0 wd shrunk q, hit, found),
            ground (arith, hit, at, found, e),
          )
          | inr miss ↦ (v, ground (arith, get-modify t.0 wd shrunk q, miss, at), e)
        ];
    watched = λ q v h. elim (after_shrink q v h) [
      | inl (hit, e) ↦ rw e some_left
      | inr (miss, old) ↦ l.watched q v old
    ];
    distinct = λ q v h. elim (after_shrink q v h) [
      | inl (hit, e) ↦ rw e (without-IsDistinct c w.clients (l.distinct wd w found))
      | inr (miss, old) ↦ l.distinct q v old
    ];
    known = λ q d v h m. elim (after_shrink q v h) [
      | inl (hit, e) ↦ elim (Bool-cases (d == c)) [
        | inl same ↦ ground (arith, same, e, m, contains-without_self c w.clients)
        | inr other ↦ forgets d q (inl (ground (arith, other))) (
            ground
              (arith, hit, l.known q d w, found, other, e, m, contains-without_ne c d w.clients))
      ]
      | inr (miss, old) ↦ forgets d q (inr miss) (l.known q d v old m)
    ];
  }

  present-IsLinked : IsLinked subs' (release c wd t)
  present-IsLinked = elim (Bool-cases (is_empty (without c w.clients))) [
    | inl none_left ↦ rw (release_last c wd t w found none_left) last-IsLinked
    | inr some_left ↦ rw (release_shared c wd t w found some_left) (shared-IsLinked some_left)
  ]

-- A client that leaves a watch may forget it; the tables stay linked.
pub release-IsLinked :
    (c wd : ℕ) (subs subs' : ℕ → List ℕ) (t : Tables)
    → IsLinked subs t
    → Forgets c wd subs subs'
    → IsLinked subs' (release c wd t)
unfolding release
release-IsLinked c wd subs subs' t l forgets = elim (Option-cases (get t.0 wd)) [
  | inl missing ↦
      rw (missing, release)
        (record {
          keyed = l.keyed;
          path_known = l.path_known;
          wd_known = l.wd_known;
          watched = l.watched;
          distinct = l.distinct;
          known = λ q d v h m. forgets d q (inr (ground (arith, missing, h))) (l.known q d v h m);
        })
  | inr (w, found) ↦ present-IsLinked c wd subs subs' t w found l forgets
]

-- Clients that know more keep the tables linked.
pub IsLinked-mono :
    {subs subs' : ℕ → List ℕ} {t : Tables}
    → ((d q : ℕ) → contains (subs d) q ≡ true → contains (subs' d) q ≡ true)
    → IsLinked subs t
    → IsLinked subs' t
IsLinked-mono more l = record {
  keyed = l.keyed;
  path_known = l.path_known;
  wd_known = l.wd_known;
  watched = l.watched;
  distinct = l.distinct;
  known = λ q d w h m. more d q (l.known q d w h m);
}
