-- ===== src/Daemon/State/Lookup.antt =====
-- crates/daemon/src/state.rs: which watch `find_watch_for_path` finds.
use fake_notify.Base.{
  ℕ, zero, suc, ◌≤◌, ◌≡◌, refl, sym, ap, ◌∙◌, ◌≢◌, ◌⊎◌, inl, inr, true, some, [], ◌∷◌, ◌++◌, length,
  get, All, FilePath, Component, root_dir, cur_dir, parent_dir, normal, parent, strip_prefix, arith,
  Option-cases, list_eq, component_eq, nat_eq, length-append, append_assoc, append-nil, subst,
  ==_refl,
}
use fake_notify.Daemon.State.{WatchInfo, DaemonState}
use fake_notify.Daemon.State.Queries.{find_watch_for_path, find_in_parents, recursive_watch}
use fake_notify.Daemon.State.Invariant.{IsValid}

-- A parent is the path without its last component.
pub parent_shape :
    (p : FilePath) {d : FilePath} → parent p ≡ some d → (c : Component) × (p ≡ d ++ (c ∷ []))
unfolding parent
parent_shape [] h = cc
parent_shape (root_dir ∷ []) h = cc
parent_shape (cur_dir ∷ []) h = (cur_dir, ground arith)
parent_shape (parent_dir ∷ []) h = (parent_dir, ground arith)
parent_shape (normal n ∷ []) h = (normal n, ground arith)
parent_shape (c ∷ d ∷ cs) h = elim (Option-cases (parent (d ∷ cs))) [
  | inl absent ↦ absurd (ground (arith, absent, h))
  | inr (q, at) ↦ let (x, e) = parent_shape (d ∷ cs) at in (x, ground (arith, at, h, e))
]

pub parent-append : (d : FilePath) (c : Component) → c ≢ root_dir → parent (d ++ (c ∷ [])) ≡ some d
unfolding parent
parent-append [] root_dir h = absurd (h refl)
parent-append [] cur_dir h = refl
parent-append [] parent_dir h = refl
parent-append [] (normal n) h = refl
parent-append (x ∷ []) c h = rw (parent-append [] c h)
parent-append (x ∷ y ∷ d) c h = rw (parent-append (y ∷ d) c h)

-- A list is empty or splits at its last element.
snoc_view :
    (cs : FilePath)
    → (cs ≡ []) ⊎ ((front : FilePath) × (last : Component) × (cs ≡ front ++ (last ∷ [])))
snoc_view [] = inl refl
snoc_view (c ∷ cs) = elim (snoc_view cs) [
  | inl e ↦ inr ([], c, ap (◌∷◌ c) e)
  | inr (front, last, e) ↦ inr (c ∷ front, last, ap (◌∷◌ c) e)
]

-- The root comes first or not at all: every path that `components` gives is of this form.
abbrev pub NoRoot : FilePath → Type 0
NoRoot = All (λ c. c ≢ root_dir)

snoc-NoRoot :
    (front : FilePath) (last : Component)
    → NoRoot (front ++ (last ∷ []))
    → NoRoot front × (last ≢ root_dir)
snoc-NoRoot [] last h = (tt, h.0)
snoc-NoRoot (c ∷ front) last h = let (a, b) = snoc-NoRoot front last h.1 in ((h.0, a), b)

module _ (s : DaemonState) where
  -- What the search in the parents may find.
  abbrev Above : FilePath → WatchInfo → Type 0
  Above p w =
      (d : FilePath) × (c : Component) × (rest : FilePath) × (p ≡ d ++ (c ∷ rest))
      × (recursive_watch s d ≡ some w)

  find_in_parents_sound :
      (fuel : ℕ) (p : FilePath) (w : WatchInfo) → find_in_parents fuel s p ≡ some w → Above p w
  unfolding find_in_parents
  find_in_parents_sound zero p w h = cc
  find_in_parents_sound (suc fuel) p w h = elim (Option-cases (parent p)) [
    | inl absent ↦ absurd (ground (arith, absent, h))
    | inr (dir, up) ↦
        let (c, e) = parent_shape p up in
        elim (Option-cases (recursive_watch s dir)) [
          | inr (u, at) ↦ (dir, c, [], e, ground (arith, up, at, h))
          | inl absent ↦
              let (d, c', rest, e', at) =
                find_in_parents_sound fuel dir w (ground (arith, up, absent, h)) in
              (
                d,
                c',
                rest ++ (c ∷ []),
                e ∙ ap (λ x. x ++ (c ∷ [])) e' ∙ append_assoc d (c' ∷ rest) (c ∷ []),
                at,
              )
        ]
  ]

  -- No recursive watch below `d` is passed over, so what is found lies at `d` or further down.
  find_in_parents_nearest :
      (fuel : ℕ) (d front : FilePath) (last : Component) (p : FilePath) (u : WatchInfo)
      → p ≡ (d ++ front) ++ (last ∷ [])
      → length p ≤ fuel
      → NoRoot (front ++ (last ∷ []))
      → recursive_watch s d ≡ some u
      → (w : WatchInfo) × (d' : FilePath) × (find_in_parents fuel s p ≡ some w)
        × (recursive_watch s d' ≡ some w)
        × (length d ≤ length d')
  unfolding find_in_parents
  find_in_parents_nearest zero d front last p u e room clean at =
      absurd (omega (arith, ap length e, length-append (d ++ front) (last ∷ [])))
  find_in_parents_nearest (suc fuel) d front last p u e room clean at =
      let up : parent p ≡ some (d ++ front) =
        rw e (parent-append (d ++ front) last (snoc-NoRoot front last clean).1) in
      elim (Option-cases (recursive_watch s (d ++ front))) [
        | inr (w, there) ↦
            (w, d ++ front, ground (arith, up, there), there, omega (arith, length-append d front))
        | inl absent ↦ elim (snoc_view front) [
          | inl same ↦
              absurd (
                ground (arith, absent, at, ap (λ f. recursive_watch s (d ++ f)) same, append-nil d))
          | inr (front', last', e') ↦
              let (w, d', found, there, long) =
                find_in_parents_nearest fuel d front' last' (d ++ front) u
                  (rw (e', append_assoc) refl)
                  (omega (arith, ap length e, length-append (d ++ front) (last ∷ [])))
                  (subst NoRoot e' (snoc-NoRoot front last clean).0) at in
              (w, d', ground (arith, up, absent, found), there, long)
        ]
      ]

-- A watch that serves a path stands on it, or is recursive and stands above it.
abbrev pub Serves : WatchInfo → FilePath → Type 0
Serves w p = (rest : FilePath) × (p ≡ w.path ++ rest) × ((rest ≡ []) ⊎ (w.recursive ≡ true))

module _ (s : DaemonState) (v : IsValid s) where
  recursive_watch_lem :
      (d : FilePath) (w : WatchInfo)
      → recursive_watch s d ≡ some w
      → (get s.watches w.wd ≡ some w) × (w.path ≡ d) × (w.recursive ≡ true)
  unfolding recursive_watch
  recursive_watch_lem d w h = elim (Option-cases (get s.path_to_wd d)) [
    | inl absent ↦ absurd (ground (arith, absent, h))
    | inr (q, to) ↦
        let (u, at, e) = v.linked.wd_known d q to in
        (
          ground (arith, to, at, h, v.linked.keyed q u at),
          ground (arith, to, at, h, e),
          ground (arith, to, at, h),
        )
  ]

  recursive_watch_at :
      (q : ℕ) (u : WatchInfo)
      → get s.watches q ≡ some u
      → u.recursive ≡ true
      → recursive_watch s u.path ≡ some u
  unfolding recursive_watch
  recursive_watch_at q u at r = ground (arith, v.linked.path_known q u at, at, r)

  -- In a valid state, what `find_watch_for_path` returns is a watch of the daemon, and it serves
  -- the path: it stands on the path, or it is recursive and stands above it.
  pub find_watch_for_path_sound :
      (p : FilePath) (w : WatchInfo)
      → find_watch_for_path s p ≡ some w
      → (get s.watches w.wd ≡ some w) × Serves w p
  unfolding find_watch_for_path
  find_watch_for_path_sound p w h = elim (Option-cases (get s.path_to_wd p)) [
    | inr (q, to) ↦
        let (u, at, e) = v.linked.wd_known p q to in
        (
          ground (arith, to, at, h, v.linked.keyed q u at),
          ([], ground (arith, to, at, h, e, append-nil u.path), inl refl),
        )
    | inl absent ↦
        let (d, c, rest, e, there) =
          find_in_parents_sound s (length p) p w (ground (arith, absent, h)) in
        let (at, on, r) = recursive_watch_lem d w there in
        (at, (c ∷ rest, e ∙ ap (λ x. x ++ (c ∷ rest)) (sym on), inr r))
  ]

  -- In a valid state, whenever a watch serves a path, and what lies below the watch has no root
  -- component, a watch is found for the path, and it stands at least as far down.
  pub find_watch_for_path_nearest :
      (p : FilePath) (q : ℕ) (u : WatchInfo)
      → get s.watches q ≡ some u
      → (serves : Serves u p) → NoRoot serves.0
      → (w : WatchInfo) × (find_watch_for_path s p ≡ some w) × (length u.path ≤ length w.path)
  unfolding find_watch_for_path
  find_watch_for_path_nearest p q u at (rest, e, how) clean =
      elim (Option-cases (get s.path_to_wd p)) [
        | inr (r, to) ↦
            let (w, at', on) = v.linked.wd_known p r to in
            (
              w,
              ground (arith, to, at'),
              omega (arith, ap length on, ap length e, length-append u.path rest),
            )
        | inl absent ↦ elim (snoc_view rest) [
          | inl same ↦
              absurd
                (ground (arith, absent, e, same, append-nil u.path, v.linked.path_known q u at))
          | inr (front, last, e') ↦
              let deep : u.recursive ≡ true =
                ground (arith, how, e', ap length e', length-append front (last ∷ [])) in
              let (w, d, found, there, long) =
                find_in_parents_nearest s (length p) u.path front last p u
                  (rw (e, e') (sym (append_assoc u.path front (last ∷ [])))) (omega arith)
                  (subst NoRoot e' clean) (recursive_watch_at q u at deep) in
              let (at', on, r) = recursive_watch_lem d w there in
              (w, ground (arith, absent, found), omega (arith, long, ap length on))
        ]
      ]

-- Stripping a prefix off a path that has it leaves the rest.
pub strip_prefix-append : (base rest : FilePath) → strip_prefix (base ++ rest) base ≡ some rest
unfolding strip_prefix
strip_prefix-append [] rest = refl
strip_prefix-append (c ∷ base) rest = rw (==_refl c) (strip_prefix-append base rest)
